-- ===== src/Library/Rows/ThirtyFirst.antt =====
-- Lines 4506 to 4655 of gazelle/closure_js/closure_library/closure_library.go.
use rules_closure.Prelude.{List, [], ◌∷◌}
use rules_closure.Library.{Row, goog_rows}

abbrev pub thirty_first_rows : List Row
thirty_first_rows = goog_rows (
    ("math:vec2", "math.Vec2" ∷ [])
    ∷ ("math:vec3", "math.Vec3" ∷ [])
    ∷ ("math/interpolator:interpolator1", "math.interpolator.Interpolator1" ∷ [])
    ∷ ("math/interpolator:linear1", "math.interpolator.Linear1" ∷ [])
    ∷ ("math/interpolator:pchip1", "math.interpolator.Pchip1" ∷ [])
    ∷ ("math/interpolator:spline1", "math.interpolator.Spline1" ∷ [])
    ∷ ("math:paths", "math.paths" ∷ [])
    ∷ ("math:tdma", "math.tdma" ∷ [])
    ∷ ("memoize:memoize", "memoize" ∷ [])
    ∷ ("messaging:messaging", "messaging" ∷ [])
    ∷ ("messaging:abstractchannel", "messaging.AbstractChannel" ∷ [])
    ∷ ("messaging:bufferedchannel", "messaging.BufferedChannel" ∷ [])
    ∷ ("messaging:deferredchannel", "messaging.DeferredChannel" ∷ [])
    ∷ ("messaging:loggerclient", "messaging.LoggerClient" ∷ [])
    ∷ ("messaging:loggerserver", "messaging.LoggerServer" ∷ [])
    ∷ ("messaging:messagechannel", "messaging.MessageChannel" ∷ [])
    ∷ (
      "messaging:multichannel",
      "messaging.MultiChannel" ∷ "messaging.MultiChannel.VirtualChannel" ∷ [],
    )
    ∷ ("messaging:portcaller", "messaging.PortCaller" ∷ [])
    ∷ ("messaging:portchannel", "messaging.PortChannel" ∷ [])
    ∷ ("messaging:portnetwork", "messaging.PortNetwork" ∷ [])
    ∷ ("messaging:portoperator", "messaging.PortOperator" ∷ [])
    ∷ ("messaging:respondingchannel", "messaging.RespondingChannel" ∷ [])
    ∷ ("module:module", "module" ∷ [])
    ∷ ("module:abstractmoduleloader", "module.AbstractModuleLoader" ∷ [])
    ∷ ("module:basemodule", "module.BaseModule" ∷ [])
    ∷ ("module:loader", "module.Loader" ∷ [])
    ∷ ("module:moduleinfo", "module.ModuleInfo" ∷ [])
    ∷ ("module:moduleloadcallback", "module.ModuleLoadCallback" ∷ [])
    ∷ ("module:moduleloader", "module.ModuleLoader" ∷ [])
    ∷ (
      "module:modulemanager",
      "module.ModuleManager" ∷ "module.ModuleManager.CallbackType"
          ∷ "module.ModuleManager.FailureType" ∷ [],
    )
    ∷ (
      "net:browserchannel",
      "net.BrowserChannel" ∷ "net.BrowserChannel.Error" ∷ "net.BrowserChannel.Event"
          ∷ "net.BrowserChannel.Handler" ∷ "net.BrowserChannel.LogSaver"
          ∷ "net.BrowserChannel.QueuedMap" ∷ "net.BrowserChannel.ServerReachability"
          ∷ "net.BrowserChannel.ServerReachabilityEvent" ∷ "net.BrowserChannel.Stat"
          ∷ "net.BrowserChannel.StatEvent" ∷ "net.BrowserChannel.State"
          ∷ "net.BrowserChannel.TimingEvent" ∷ [],
    )
    ∷ ("net:browsertestchannel", "net.BrowserTestChannel" ∷ [])
    ∷ ("net:bulkloader", "net.BulkLoader" ∷ [])
    ∷ ("net:bulkloaderhelper", "net.BulkLoaderHelper" ∷ [])
    ∷ ("net:channeldebug", "net.ChannelDebug" ∷ [])
    ∷ ("net:channelrequest", "net.ChannelRequest" ∷ "net.ChannelRequest.Error" ∷ [])
    ∷ ("net:cookies", "net.Cookies" ∷ [])
    ∷ ("net:corsxmlhttpfactory", "net.CorsXmlHttpFactory" ∷ [])
    ∷ ("net:crossdomainrpc", "net.CrossDomainRpc" ∷ [])
    ∷ ("net:xmlhttp", "net.DefaultXmlHttpFactory" ∷ [])
    ∷ ("net:errorcode", "net.ErrorCode" ∷ [])
    ∷ ("net:eventtype", "net.EventType" ∷ [])
    ∷ ("net:fetchxmlhttpfactory", "net.FetchXmlHttp" ∷ "net.FetchXmlHttpFactory" ∷ [])
    ∷ ("net:filedownloader", "net.FileDownloader" ∷ "net.FileDownloader.Error" ∷ [])
    ∷ ("net:httpstatus", "net.HttpStatus" ∷ [])
    ∷ ("net:httpstatusname", "net.HttpStatusName" ∷ [])
    ∷ ("net:corsxmlhttpfactory", "net.IeCorsXhrAdapter" ∷ [])
    ∷ ("net:iframeio", "net.IframeIo" ∷ "net.IframeIo.IncrementalDataEvent" ∷ [])
    ∷ ("net:iframeloadmonitor", "net.IframeLoadMonitor" ∷ [])
    ∷ ("net:imageloader", "net.ImageLoader" ∷ [])
    ∷ ("net:ipaddress", "net.IpAddress" ∷ "net.Ipv4Address" ∷ "net.Ipv6Address" ∷ [])
    ∷ ("net:jsonp", "net.Jsonp" ∷ [])
    ∷ ("net:mockiframeio", "net.MockIFrameIo" ∷ [])
    ∷ ("net:multiiframeloadmonitor", "net.MultiIframeLoadMonitor" ∷ [])
    ∷ ("net:networkstatusmonitor", "net.NetworkStatusMonitor" ∷ [])
    ∷ ("net:networktester", "net.NetworkTester" ∷ [])
    ∷ ("labs/net:webchannel", "net.WebChannel" ∷ [])
    ∷ ("labs/net:webchanneltransport", "net.WebChannelTransport" ∷ [])
    ∷ (
      "net:websocket",
      "net.WebSocket" ∷ "net.WebSocket.ErrorEvent" ∷ "net.WebSocket.EventType"
          ∷ "net.WebSocket.MessageEvent" ∷ [],
    )
    ∷ ("net:wrapperxmlhttpfactory", "net.WrapperXmlHttpFactory" ∷ [])
    ∷ ("net:xhrio", "net.XhrIo" ∷ "net.XhrIo.ResponseType" ∷ [])
    ∷ ("net:xhriopool", "net.XhrIoPool" ∷ [])
    ∷ ("net:xhrlike", "net.XhrLike" ∷ [])
    ∷ ("net:xhrmanager", "net.XhrManager" ∷ "net.XhrManager.Event" ∷ "net.XhrManager.Request" ∷ [])
    ∷ (
      "net:xmlhttp",
      "net.XmlHttp" ∷ "net.XmlHttp.OptionType" ∷ "net.XmlHttp.ReadyState" ∷ "net.XmlHttpDefines"
          ∷ [],
    )
    ∷ ("net:xmlhttpfactory", "net.XmlHttpFactory" ∷ [])
    ∷ ("net:cookies", "net.cookies" ∷ [])
    ∷ ("labs/net:webchanneltransportfactory", "net.createWebChannelTransport" ∷ [])
    ∷ (
      "net:jsloader",
      "net.jsloader" ∷ "net.jsloader.Error" ∷ "net.jsloader.ErrorCode" ∷ "net.jsloader.Options"
          ∷ [],
    )
    ∷ ("net/rpc:httpcors", "net.rpc.HttpCors" ∷ [])
    ∷ ("net/streams:base64pbstreamparser", "net.streams.Base64PbStreamParser" ∷ [])
    ∷ ("net/streams:base64streamdecoder", "net.streams.Base64StreamDecoder" ∷ [])
    ∷ (
      "net/streams:jsonstreamparser",
      "net.streams.JsonStreamParser" ∷ "net.streams.JsonStreamParser.Options" ∷ [],
    )
    ∷ ("net/streams:nodereadablestream", "net.streams.NodeReadableStream" ∷ [])
    ∷ ("net/streams:pbjsonstreamparser", "net.streams.PbJsonStreamParser" ∷ [])
    ∷ ("net/streams:pbstreamparser", "net.streams.PbStreamParser" ∷ [])
    ∷ ("net/streams:streamparser", "net.streams.StreamParser" ∷ [])
    ∷ ("net/streams:xhrnodereadablestream", "net.streams.XhrNodeReadableStream" ∷ [])
    ∷ ("net/streams:xhrstreamreader", "net.streams.XhrStreamReader" ∷ [])
    ∷ ("net/streams:streamfactory", "net.streams.createXhrNodeReadableStream" ∷ [])
    ∷ ("net/streams:utils", "net.streams.utils" ∷ [])
    ∷ ("net:tmpnetwork", "net.tmpnetwork" ∷ [])
    ∷ ("net/xpc:xpc", "net.xpc" ∷ "net.xpc.CfgFields" ∷ "net.xpc.ChannelStates" ∷ [])
    ∷ ("net/xpc:crosspagechannel", "net.xpc.CrossPageChannel" ∷ [])
    ∷ ("net/xpc:crosspagechannelrole", "net.xpc.CrossPageChannelRole" ∷ [])
    ∷ ("net/xpc:directtransport", "net.xpc.DirectTransport" ∷ [])
    ∷ ("net/xpc:frameelementmethodtransport", "net.xpc.FrameElementMethodTransport" ∷ [])
    ∷ (
      "net/xpc:iframepollingtransport",
      "net.xpc.IframePollingTransport" ∷ "net.xpc.IframePollingTransport.Receiver"
          ∷ "net.xpc.IframePollingTransport.Sender" ∷ [],
    )
    ∷ ("net/xpc:iframerelaytransport", "net.xpc.IframeRelayTransport" ∷ [])
    ∷ ("net/xpc:nativemessagingtransport", "net.xpc.NativeMessagingTransport" ∷ [])
    ∷ ("net/xpc:nixtransport", "net.xpc.NixTransport" ∷ [])
    ∷ ("net/xpc:transport", "net.xpc.Transport" ∷ [])
    ∷ (
      "net/xpc:xpc",
      "net.xpc.TransportNames" ∷ "net.xpc.TransportTypes" ∷ "net.xpc.UriCfgFields" ∷ [],
    )
    ∷ ("net/xpc:relay", "net.xpc.relay" ∷ [])
    ∷ ("object:object", "object" ∷ [])
    ∷ ("positioning:positioning", "positioning" ∷ [])
    ∷ ("positioning:absoluteposition", "positioning.AbsolutePosition" ∷ [])
    ∷ ("positioning:abstractposition", "positioning.AbstractPosition" ∷ [])
    ∷ ("positioning:anchoredposition", "positioning.AnchoredPosition" ∷ [])
    ∷ ("positioning:anchoredviewportposition", "positioning.AnchoredViewportPosition" ∷ [])
    ∷ ("positioning:clientposition", "positioning.ClientPosition" ∷ [])
    ∷ ("positioning:positioning", "positioning.Corner" ∷ "positioning.CornerBit" ∷ [])
    ∷ ("positioning:menuanchoredposition", "positioning.MenuAnchoredPosition" ∷ [])
    ∷ ("positioning:positioning", "positioning.Overflow" ∷ "positioning.OverflowStatus" ∷ [])
    ∷ ("positioning:viewportclientposition", "positioning.ViewportClientPosition" ∷ [])
    ∷ ("positioning:viewportposition", "positioning.ViewportPosition" ∷ [])
    ∷ ("promise:nativeresolver", "promise.NativeResolver" ∷ [])
    ∷ ("promise:resolver", "promise.Resolver" ∷ [])
    ∷ ("promise:testsuiteadapter", "promise.testSuiteAdapter" ∷ [])
    ∷ [])
