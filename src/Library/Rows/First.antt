-- ===== src/Library/Rows/First.antt =====
-- Lines 6 to 155 of gazelle/closure_js/closure_library/closure_library.go.
use rules_closure.Prelude.{List, [], ◌∷◌, ◌++◌}
use rules_closure.Library.{Row, goog_rows, row}

abbrev pub first_rows : List Row
first_rows =
    goog_rows (
      ("async:delay", "Delay" ∷ [])
      ∷ ("disposable:disposable", "Disposable" ∷ [])
      ∷ ("history:history", "History" ∷ "History.Event" ∷ "History.EventType" ∷ [])
      ∷ ("promise:promise", "Promise" ∷ [])
      ∷ ("promise:thenable", "Thenable" ∷ [])
      ∷ ("async:throttle", "Throttle" ∷ [])
      ∷ ("timer:timer", "Timer" ∷ [])
      ∷ ("uri:uri", "Uri" ∷ "Uri.QueryData" ∷ [])
      ∷ ("a11y/aria:aria", "a11y.aria" ∷ [])
      ∷ ("a11y/aria:announcer", "a11y.aria.Announcer" ∷ [])
      ∷ (
        "a11y/aria:attributes",
        "a11y.aria.AutoCompleteValues" ∷ "a11y.aria.CheckedValues" ∷ "a11y.aria.DropEffectValues"
            ∷ "a11y.aria.ExpandedValues" ∷ "a11y.aria.GrabbedValues" ∷ "a11y.aria.InvalidValues"
            ∷ "a11y.aria.LivePriority" ∷ "a11y.aria.OrientationValues" ∷ "a11y.aria.PressedValues"
            ∷ "a11y.aria.RelevantValues" ∷ [],
      )
      ∷ ("a11y/aria:roles", "a11y.aria.Role" ∷ [])
      ∷ (
        "a11y/aria:attributes",
        "a11y.aria.SelectedValues" ∷ "a11y.aria.SortValues" ∷ "a11y.aria.State" ∷ [],
      )
      ∷ ("a11y/aria:datatables", "a11y.aria.datatables" ∷ [])
      ∷ ("array:array", "array" ∷ [])
      ∷ ("asserts:asserts", "asserts" ∷ "asserts.AssertionError" ∷ [])
      ∷ ("async:animationdelay", "async.AnimationDelay" ∷ [])
      ∷ ("async:conditionaldelay", "async.ConditionalDelay" ∷ [])
      ∷ ("async:debouncer", "async.Debouncer" ∷ [])
      ∷ [])
    ++ ((row "goog.async.Deferred" "//third_party/closure/library/mochikit/async:deferred"
          ∷ row "goog.async.Deferred.AlreadyCalledError"
              "//third_party/closure/library/mochikit/async:deferred"
          ∷ row "goog.async.Deferred.CanceledError"
              "//third_party/closure/library/mochikit/async:deferred"
          ∷ row "goog.async.DeferredList"
              "//third_party/closure/library/mochikit/async:deferredlist"
          ∷ [])
        ++ (goog_rows (
            ("async:delay", "async.Delay" ∷ [])
            ∷ ("async:freelist", "async.FreeList" ∷ [])
            ∷ ("async:throttle", "async.Throttle" ∷ [])
            ∷ ("async:workqueue", "async.WorkItem" ∷ "async.WorkQueue" ∷ [])
            ∷ ("async:nexttick", "async.nextTick" ∷ [])
            ∷ ("async:run", "async.run" ∷ [])
            ∷ ("async:nexttick", "async.throwException" ∷ [])
            ∷ ("collections:sets", "collections.sets" ∷ [])
            ∷ ("color:color", "color" ∷ "color.Hsl" ∷ "color.Hsv" ∷ "color.Rgb" ∷ [])
            ∷ ("color:alpha", "color.alpha" ∷ [])
            ∷ ("color:names", "color.names" ∷ [])
            ∷ ("crypt:crypt", "crypt" ∷ [])
            ∷ ("crypt:aes", "crypt.Aes" ∷ [])
            ∷ ("crypt:arc4", "crypt.Arc4" ∷ [])
            ∷ ("crypt:blobhasher", "crypt.BlobHasher" ∷ "crypt.BlobHasher.EventType" ∷ [])
            ∷ ("crypt:blockcipher", "crypt.BlockCipher" ∷ [])
            ∷ ("crypt:cbc", "crypt.Cbc" ∷ [])
            ∷ ("crypt:ctr", "crypt.Ctr" ∷ [])
            ∷ ("crypt:hash", "crypt.Hash" ∷ [])
            ∷ ("crypt:hmac", "crypt.Hmac" ∷ [])
            ∷ ("crypt:md5", "crypt.Md5" ∷ [])
            ∷ ("crypt:sha1", "crypt.Sha1" ∷ [])
            ∷ ("crypt:sha2", "crypt.Sha2" ∷ [])
            ∷ ("crypt:sha224", "crypt.Sha224" ∷ [])
            ∷ ("crypt:sha256", "crypt.Sha256" ∷ [])
            ∷ ("crypt:sha2_64bit", "crypt.Sha2_64bit" ∷ [])
            ∷ ("crypt:sha384", "crypt.Sha384" ∷ [])
            ∷ ("crypt:sha512", "crypt.Sha512" ∷ [])
            ∷ ("crypt:sha512_256", "crypt.Sha512_256" ∷ [])
            ∷ ("crypt:base64", "crypt.base64" ∷ [])
            ∷ ("crypt:basen", "crypt.baseN" ∷ [])
            ∷ ("crypt:hash32", "crypt.hash32" ∷ [])
            ∷ ("crypt:hashtester", "crypt.hashTester" ∷ [])
            ∷ ("crypt:pbkdf2", "crypt.pbkdf2" ∷ [])
            ∷ ("cssom:cssom", "cssom" ∷ "cssom.CssRuleType" ∷ [])
            ∷ ("cssom/iframe:style", "cssom.iframe.style" ∷ [])
            ∷ ("date:date", "date" ∷ "date.Date" ∷ [])
            ∷ ("date:datelike", "date.DateLike" ∷ [])
            ∷ (
              "date:daterange",
              "date.DateRange" ∷ "date.DateRange.Iterator" ∷ "date.DateRange.StandardDateRangeKeys"
                  ∷ [],
            )
            ∷ ("date:date", "date.DateTime" ∷ "date.Interval" ∷ [])
            ∷ ("date:utcdatetime", "date.UtcDateTime" ∷ [])
            ∷ ("date:duration", "date.duration" ∷ [])
            ∷ ("date:date", "date.month" ∷ [])
            ∷ (
              "date:relative",
              "date.relative" ∷ "date.relative.TimeDeltaFormatter" ∷ "date.relative.Unit" ∷ [],
            )
            ∷ ("date:date", "date.weekDay" ∷ [])
            ∷ ("db:db", "db" ∷ "db.BlockedCallback" ∷ [])
            ∷ ("db:cursor", "db.Cursor" ∷ [])
            ∷ (
              "db:error",
              "db.DomErrorLike" ∷ "db.Error" ∷ "db.Error.ErrorCode" ∷ "db.Error.ErrorName"
                  ∷ "db.Error.VersionChangeBlockedError" ∷ [],
            )
            ∷ ("db:index", "db.Index" ∷ [])
            ∷ ("db:indexeddb", "db.IndexedDb" ∷ [])
            ∷ ("db:keyrange", "db.KeyRange" ∷ [])
            ∷ ("db:objectstore", "db.ObjectStore" ∷ [])
            ∷ ("db:transaction", "db.Transaction" ∷ "db.Transaction.TransactionMode" ∷ [])
            ∷ ("db:db", "db.UpgradeNeededCallback" ∷ [])
            ∷ ("debug:debug", "debug" ∷ [])
            ∷ ("debug:console", "debug.Console" ∷ [])
            ∷ ("debug:debugwindow", "debug.DebugWindow" ∷ [])
            ∷ ("debug/devcss:devcss", "debug.DevCss" ∷ "debug.DevCss.UserAgent" ∷ [])
            ∷ ("debug:divconsole", "debug.DivConsole" ∷ [])
            ∷ ("debug:entrypointregistry", "debug.EntryPointMonitor" ∷ [])
            ∷ ("debug:error", "debug.Error" ∷ [])
            ∷ (
              "debug:errorhandler",
              "debug.ErrorHandler" ∷ "debug.ErrorHandler.ProtectedFunctionError" ∷ [],
            )
            ∷ (
              "debug:errorreporter",
              "debug.ErrorReporter" ∷ "debug.ErrorReporter.ExceptionEvent" ∷ [],
            )
            ∷ ("debug:fancywindow", "debug.FancyWindow" ∷ [])
            ∷ ("debug:formatter", "debug.Formatter" ∷ [])
            ∷ ("debug:fpsdisplay", "debug.FpsDisplay" ∷ [])
            ∷ ("debug:formatter", "debug.HtmlFormatter" ∷ [])
            ∷ ("debug:logbuffer", "debug.LogBuffer" ∷ [])
            ∷ ("debug:logger", "debug.LogManager" ∷ [])
            ∷ ("debug:logrecord", "debug.LogRecord" ∷ [])
            ∷ ("debug:logger", "debug.Loggable" ∷ "debug.Logger" ∷ "debug.Logger.Level" ∷ [])
            ∷ ("debug:relativetimeprovider", "debug.RelativeTimeProvider" ∷ [])
            ∷ ("debug:tracer", "debug.StopTraceDetail" ∷ [])
            ∷ ("debug:formatter", "debug.TextFormatter" ∷ [])
            ∷ ("debug:tracer", "debug.Trace" ∷ [])
            ∷ ("debug/devcss:devcssrunner", "debug.devCssRunner" ∷ [])
            ∷ ("debug:entrypointregistry", "debug.entryPointRegistry" ∷ [])
            ∷ ("debug:errorhandlerweakdep", "debug.errorHandlerWeakDep" ∷ [])
            ∷ ("debug:errorcontext", "debug.errorcontext" ∷ [])
            ∷ ("debug:logrecordserializer", "debug.logRecordSerializer" ∷ [])
            ∷ ("delegate:delegateregistry", "delegate.DelegateRegistry" ∷ [])
            ∷ ("delegate:delegates", "delegate.delegates" ∷ [])
            ∷ ("disposable:idisposable", "disposable.IDisposable" ∷ [])
            ∷ ("disposable:disposable", "dispose" ∷ "disposeAll" ∷ [])
            ∷ ("dom:dom", "dom" ∷ [])
            ∷ ("dom:abstractmultirange", "dom.AbstractMultiRange" ∷ [])
            ∷ ("dom:abstractrange", "dom.AbstractRange" ∷ [])
            ∷ ("dom:dom", "dom.Appendable" ∷ [])
            ∷ [])))
