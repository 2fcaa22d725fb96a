-- ===== src/Library/Rows/Thirtieth.antt =====
-- Lines 4356 to 4505 of gazelle/closure_js/closure_library/closure_library.go.
use rules_closure.Prelude.{List, [], ◌∷◌}
use rules_closure.Library.{Row, goog_rows}

abbrev pub thirtieth_rows : List Row
thirtieth_rows = goog_rows (
    (
      "labs/i18n:listsymbolsext",
      "labs.i18n.ListFormatSymbols_xog" ∷ "labs.i18n.ListFormatSymbols_xog_UG"
          ∷ "labs.i18n.ListFormatSymbols_yav" ∷ "labs.i18n.ListFormatSymbols_yav_CM"
          ∷ "labs.i18n.ListFormatSymbols_yi" ∷ "labs.i18n.ListFormatSymbols_yi_001"
          ∷ "labs.i18n.ListFormatSymbols_yo" ∷ "labs.i18n.ListFormatSymbols_yo_BJ"
          ∷ "labs.i18n.ListFormatSymbols_yo_NG" ∷ "labs.i18n.ListFormatSymbols_yue"
          ∷ "labs.i18n.ListFormatSymbols_yue_Hans" ∷ "labs.i18n.ListFormatSymbols_yue_Hans_CN"
          ∷ "labs.i18n.ListFormatSymbols_yue_Hant" ∷ "labs.i18n.ListFormatSymbols_yue_Hant_HK"
          ∷ "labs.i18n.ListFormatSymbols_zgh" ∷ "labs.i18n.ListFormatSymbols_zgh_MA" ∷ [],
    )
    ∷ (
      "labs/i18n:listsymbols",
      "labs.i18n.ListFormatSymbols_zh" ∷ "labs.i18n.ListFormatSymbols_zh_CN"
          ∷ "labs.i18n.ListFormatSymbols_zh_HK" ∷ [],
    )
    ∷ (
      "labs/i18n:listsymbolsext",
      "labs.i18n.ListFormatSymbols_zh_Hans" ∷ "labs.i18n.ListFormatSymbols_zh_Hans_CN"
          ∷ "labs.i18n.ListFormatSymbols_zh_Hans_HK" ∷ "labs.i18n.ListFormatSymbols_zh_Hans_MO"
          ∷ "labs.i18n.ListFormatSymbols_zh_Hans_SG" ∷ "labs.i18n.ListFormatSymbols_zh_Hant"
          ∷ "labs.i18n.ListFormatSymbols_zh_Hant_HK" ∷ "labs.i18n.ListFormatSymbols_zh_Hant_MO"
          ∷ "labs.i18n.ListFormatSymbols_zh_Hant_TW" ∷ [],
    )
    ∷ (
      "labs/i18n:listsymbols",
      "labs.i18n.ListFormatSymbols_zh_TW" ∷ "labs.i18n.ListFormatSymbols_zu" ∷ [],
    )
    ∷ ("labs/i18n:listsymbolsext", "labs.i18n.ListFormatSymbols_zu_ZA" ∷ [])
    ∷ ("labs/mock:mock", "labs.mock" ∷ "labs.mock.VerificationError" ∷ [])
    ∷ (
      "labs/mock:verificationmode",
      "labs.mock.verification" ∷ "labs.mock.verification.VerificationMode" ∷ [],
    )
    ∷ ("labs/net:image", "labs.net.image" ∷ [])
    ∷ ("labs/net/webchannel:basetestchannel", "labs.net.webChannel.BaseTestChannel" ∷ [])
    ∷ ("labs/net/webchannel:channel", "labs.net.webChannel.Channel" ∷ [])
    ∷ ("labs/net/webchannel:channelrequest", "labs.net.webChannel.ChannelRequest" ∷ [])
    ∷ ("labs/net/webchannel:connectionstate", "labs.net.webChannel.ConnectionState" ∷ [])
    ∷ (
      "labs/net/webchannel:forwardchannelrequestpool",
      "labs.net.webChannel.ForwardChannelRequestPool" ∷ [],
    )
    ∷ ("labs/net/webchannel:webchannelbase", "labs.net.webChannel.WebChannelBase" ∷ [])
    ∷ (
      "labs/net/webchannel:webchannelbasetransport",
      "labs.net.webChannel.WebChannelBaseTransport" ∷ [],
    )
    ∷ ("labs/net/webchannel:webchanneldebug", "labs.net.webChannel.WebChannelDebug" ∷ [])
    ∷ ("labs/net/webchannel:wire", "labs.net.webChannel.Wire" ∷ [])
    ∷ ("labs/net/webchannel:wirev8", "labs.net.webChannel.WireV8" ∷ [])
    ∷ ("labs/net/webchannel:environment", "labs.net.webChannel.environment" ∷ [])
    ∷ ("labs/net/webchannel:netutils", "labs.net.webChannel.netUtils" ∷ [])
    ∷ (
      "labs/net/webchannel:requeststats",
      "labs.net.webChannel.requestStats" ∷ "labs.net.webChannel.requestStats.Event"
          ∷ "labs.net.webChannel.requestStats.ServerReachability"
          ∷ "labs.net.webChannel.requestStats.ServerReachabilityEvent"
          ∷ "labs.net.webChannel.requestStats.Stat" ∷ "labs.net.webChannel.requestStats.StatEvent"
          ∷ "labs.net.webChannel.requestStats.TimingEvent" ∷ [],
    )
    ∷ (
      "labs/net:xhr",
      "labs.net.xhr" ∷ "labs.net.xhr.Error" ∷ "labs.net.xhr.HttpError" ∷ "labs.net.xhr.Options"
          ∷ "labs.net.xhr.PostData" ∷ "labs.net.xhr.ResponseType" ∷ "labs.net.xhr.TimeoutError"
          ∷ [],
    )
    ∷ ("labs/pubsub:broadcastpubsub", "labs.pubsub.BroadcastPubSub" ∷ [])
    ∷ ("labs/storage:boundedcollectablestorage", "labs.storage.BoundedCollectableStorage" ∷ [])
    ∷ ("labs/structs:multimap", "labs.structs.Multimap" ∷ [])
    ∷ (
      "labs/style:pixeldensitymonitor",
      "labs.style.PixelDensityMonitor" ∷ "labs.style.PixelDensityMonitor.Density"
          ∷ "labs.style.PixelDensityMonitor.EventType" ∷ [],
    )
    ∷ ("labs/testing:logicmatcher", "labs.testing.AllOfMatcher" ∷ [])
    ∷ ("labs/testing:numbermatcher", "labs.testing.AnyNumberMatcher" ∷ [])
    ∷ ("labs/testing:objectmatcher", "labs.testing.AnyObjectMatcher" ∷ [])
    ∷ ("labs/testing:logicmatcher", "labs.testing.AnyOfMatcher" ∷ [])
    ∷ ("labs/testing:stringmatcher", "labs.testing.AnyStringMatcher" ∷ [])
    ∷ ("labs/testing:decoratormatcher", "labs.testing.AnythingMatcher" ∷ [])
    ∷ ("labs/testing:numbermatcher", "labs.testing.CloseToMatcher" ∷ [])
    ∷ (
      "labs/testing:stringmatcher",
      "labs.testing.ContainsStringMatcher" ∷ "labs.testing.EndsWithMatcher" ∷ [],
    )
    ∷ ("labs/testing:environment", "labs.testing.Environment" ∷ [])
    ∷ ("labs/testing:stringmatcher", "labs.testing.EqualToIgnoringWhitespaceMatcher" ∷ [])
    ∷ ("labs/testing:numbermatcher", "labs.testing.EqualToMatcher" ∷ [])
    ∷ ("labs/testing:stringmatcher", "labs.testing.EqualsMatcher" ∷ [])
    ∷ (
      "labs/testing:numbermatcher",
      "labs.testing.GreaterThanEqualToMatcher" ∷ "labs.testing.GreaterThanMatcher" ∷ [],
    )
    ∷ (
      "labs/testing:dictionarymatcher",
      "labs.testing.HasEntriesMatcher" ∷ "labs.testing.HasEntryMatcher"
          ∷ "labs.testing.HasKeyMatcher" ∷ [],
    )
    ∷ ("labs/testing:objectmatcher", "labs.testing.HasPropertyMatcher" ∷ [])
    ∷ ("labs/testing:dictionarymatcher", "labs.testing.HasValueMatcher" ∷ [])
    ∷ ("labs/testing:objectmatcher", "labs.testing.InstanceOfMatcher" ∷ [])
    ∷ ("labs/testing:logicmatcher", "labs.testing.IsNotMatcher" ∷ [])
    ∷ (
      "labs/testing:objectmatcher",
      "labs.testing.IsNullMatcher" ∷ "labs.testing.IsNullOrUndefinedMatcher"
          ∷ "labs.testing.IsUndefinedMatcher" ∷ [],
    )
    ∷ ("labs/testing:json_fuzzing", "labs.testing.JsonFuzzing" ∷ [])
    ∷ (
      "labs/testing:numbermatcher",
      "labs.testing.LessThanEqualToMatcher" ∷ "labs.testing.LessThanMatcher" ∷ [],
    )
    ∷ ("labs/testing:matcher", "labs.testing.Matcher" ∷ [])
    ∷ ("labs/testing:assertthat", "labs.testing.MatcherError" ∷ [])
    ∷ ("labs/testing:objectmatcher", "labs.testing.ObjectEqualsMatcher" ∷ [])
    ∷ (
      "labs/testing:stringmatcher",
      "labs.testing.RegexMatcher" ∷ "labs.testing.StartsWithMatcher"
          ∷ "labs.testing.StringContainsInOrderMatcher" ∷ [],
    )
    ∷ ("labs/testing:assertthat", "labs.testing.assertThat" ∷ [])
    ∷ ("labs/testing:logicmatcher", "labs.testing.logicMatchers" ∷ [])
    ∷ ("labs/useragent:browser", "labs.userAgent.browser" ∷ [])
    ∷ ("labs/useragent:device", "labs.userAgent.device" ∷ [])
    ∷ ("labs/useragent:engine", "labs.userAgent.engine" ∷ [])
    ∷ ("labs/useragent:platform", "labs.userAgent.platform" ∷ [])
    ∷ ("labs/useragent:test_agents", "labs.userAgent.testAgents" ∷ [])
    ∷ ("labs/useragent:util", "labs.userAgent.util" ∷ [])
    ∷ ("labs/useragent:verifier", "labs.useragent.verifier" ∷ [])
    ∷ (
      "loader:abstractmodulemanager",
      "loader.AbstractModuleManager" ∷ "loader.AbstractModuleManager.CallbackType"
          ∷ "loader.AbstractModuleManager.FailureType" ∷ [],
    )
    ∷ ("loader:activemodulemanager", "loader.activeModuleManager" ∷ [])
    ∷ ("locale:locale", "locale" ∷ [])
    ∷ ("locale:timezonefingerprint", "locale.TimeZoneFingerprint" ∷ [])
    ∷ ("locale:timezonelist", "locale.TimeZoneList" ∷ [])
    ∷ ("locale:countries", "locale.countries" ∷ [])
    ∷ ("locale:defaultlocalenameconstants", "locale.defaultLocaleNameConstants" ∷ [])
    ∷ ("locale:genericfontnames", "locale.genericFontNames" ∷ [])
    ∷ ("locale:genericfontnamesdata", "locale.genericFontNamesData" ∷ [])
    ∷ (
      "locale:timezonelist",
      "locale.getTimeZoneAllLongNames" ∷ "locale.getTimeZoneSelectedLongNames"
          ∷ "locale.getTimeZoneSelectedShortNames" ∷ [],
    )
    ∷ ("locale:nativenameconstants", "locale.nativeNameConstants" ∷ [])
    ∷ ("locale:scriptToLanguages", "locale.scriptToLanguages" ∷ [])
    ∷ ("locale:timezonedetection", "locale.timeZoneDetection" ∷ [])
    ∷ ("log:log", "log" ∷ "log.Level" ∷ "log.LogRecord" ∷ "log.Logger" ∷ [])
    ∷ ("math:math", "math" ∷ [])
    ∷ ("math:affinetransform", "math.AffineTransform" ∷ [])
    ∷ ("math:bezier", "math.Bezier" ∷ [])
    ∷ ("math:box", "math.Box" ∷ [])
    ∷ ("math:coordinate", "math.Coordinate" ∷ [])
    ∷ ("math:coordinate3", "math.Coordinate3" ∷ [])
    ∷ ("math:exponentialbackoff", "math.ExponentialBackoff" ∷ [])
    ∷ ("math:irect", "math.IRect" ∷ [])
    ∷ ("math:integer", "math.Integer" ∷ [])
    ∷ ("math:line", "math.Line" ∷ [])
    ∷ ("math:long", "math.Long" ∷ [])
    ∷ ("math:matrix", "math.Matrix" ∷ [])
    ∷ ("math:path", "math.Path" ∷ "math.Path.Segment" ∷ [])
    ∷ ("math:range", "math.Range" ∷ [])
    ∷ ("math:rangeset", "math.RangeSet" ∷ [])
    ∷ ("math:rect", "math.Rect" ∷ [])
    ∷ ("math:size", "math.Size" ∷ [])
    ∷ [])
