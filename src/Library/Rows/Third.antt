-- ===== src/Library/Rows/Third.antt =====
-- Lines 306 to 455 of gazelle/closure_js/closure_library/closure_library.go.
use rules_closure.Prelude.{List, [], ◌∷◌}
use rules_closure.Library.{Row, goog_rows}

abbrev pub third_rows : List Row
third_rows = goog_rows (
    ("events:actionhandler", "events.BeforeActionEvent" ∷ [])
    ∷ (
      "events:browserevent",
      "events.BrowserEvent" ∷ "events.BrowserEvent.MouseButton" ∷ "events.BrowserEvent.PointerType"
          ∷ [],
    )
    ∷ ("events:browserfeature", "events.BrowserFeature" ∷ [])
    ∷ ("events:events", "events.CaptureSimulationMode" ∷ [])
    ∷ ("events:event", "events.Event" ∷ [])
    ∷ ("events:eventhandler", "events.EventHandler" ∷ [])
    ∷ ("events:eventid", "events.EventId" ∷ [])
    ∷ ("events:event", "events.EventLike" ∷ [])
    ∷ ("events:eventtarget", "events.EventTarget" ∷ [])
    ∷ ("events:eventtype", "events.EventType" ∷ [])
    ∷ ("events:eventwrapper", "events.EventWrapper" ∷ [])
    ∷ ("events:filedrophandler", "events.FileDropHandler" ∷ "events.FileDropHandler.EventType" ∷ [])
    ∷ ("events:focushandler", "events.FocusHandler" ∷ "events.FocusHandler.EventType" ∷ [])
    ∷ (
      "events:imehandler",
      "events.ImeHandler" ∷ "events.ImeHandler.Event" ∷ "events.ImeHandler.EventType" ∷ [],
    )
    ∷ ("events:inputhandler", "events.InputHandler" ∷ "events.InputHandler.EventType" ∷ [])
    ∷ ("events:events", "events.Key" ∷ [])
    ∷ ("events:keycodes", "events.KeyCodes" ∷ [])
    ∷ (
      "events:keyhandler",
      "events.KeyEvent" ∷ "events.KeyHandler" ∷ "events.KeyHandler.EventType" ∷ [],
    )
    ∷ ("events:keynames", "events.KeyNames" ∷ [])
    ∷ ("events:keys", "events.Keys" ∷ [])
    ∷ ("events:listenable", "events.Listenable" ∷ "events.ListenableKey" ∷ [])
    ∷ ("events:events", "events.ListenableType" ∷ [])
    ∷ ("events:listener", "events.Listener" ∷ [])
    ∷ ("events:listenermap", "events.ListenerMap" ∷ [])
    ∷ ("events:eventtype", "events.MouseAsMouseEventType" ∷ "events.MouseEvents" ∷ [])
    ∷ (
      "events:mousewheelhandler",
      "events.MouseWheelEvent" ∷ "events.MouseWheelHandler" ∷ "events.MouseWheelHandler.EventType"
          ∷ [],
    )
    ∷ ("events:onlinehandler", "events.OnlineHandler" ∷ "events.OnlineHandler.EventType" ∷ [])
    ∷ (
      "events:pastehandler",
      "events.PasteHandler" ∷ "events.PasteHandler.EventType" ∷ "events.PasteHandler.State" ∷ [],
    )
    ∷ (
      "events:eventtype",
      "events.PointerAsMouseEventType" ∷ "events.PointerAsTouchEventType"
          ∷ "events.PointerFallbackEventType" ∷ "events.PointerTouchFallbackEventType" ∷ [],
    )
    ∷ ("events:wheelevent", "events.WheelEvent" ∷ [])
    ∷ ("events:wheelhandler", "events.WheelHandler" ∷ [])
    ∷ ("events:actioneventwrapper", "events.actionEventWrapper" ∷ [])
    ∷ (
      "events:eventtargettester",
      "events.eventTargetTester" ∷ "events.eventTargetTester.KeyType"
          ∷ "events.eventTargetTester.UnlistenReturnType" ∷ [],
    )
    ∷ ("format:format", "format" ∷ [])
    ∷ ("format:emailaddress", "format.EmailAddress" ∷ [])
    ∷ (
      "format:htmlprettyprinter",
      "format.HtmlPrettyPrinter" ∷ "format.HtmlPrettyPrinter.Buffer" ∷ [],
    )
    ∷ ("format:internationalizedemailaddress", "format.InternationalizedEmailAddress" ∷ [])
    ∷ (
      "format:jsonprettyprinter",
      "format.JsonPrettyPrinter" ∷ "format.JsonPrettyPrinter.SafeHtmlDelimiters"
          ∷ "format.JsonPrettyPrinter.TextDelimiters" ∷ [],
    )
    ∷ ("fs:fs", "fs" ∷ [])
    ∷ ("fs:error", "fs.DOMErrorLike" ∷ [])
    ∷ ("fs:entry", "fs.DirectoryEntry" ∷ "fs.DirectoryEntry.Behavior" ∷ [])
    ∷ ("fs:entryimpl", "fs.DirectoryEntryImpl" ∷ [])
    ∷ ("fs:entry", "fs.Entry" ∷ [])
    ∷ ("fs:entryimpl", "fs.EntryImpl" ∷ [])
    ∷ ("fs:error", "fs.Error" ∷ "fs.Error.ErrorCode" ∷ [])
    ∷ ("fs:entry", "fs.FileEntry" ∷ [])
    ∷ ("fs:entryimpl", "fs.FileEntryImpl" ∷ [])
    ∷ (
      "fs:filereader",
      "fs.FileReader" ∷ "fs.FileReader.EventType" ∷ "fs.FileReader.ReadyState" ∷ [],
    )
    ∷ ("fs:filesaver", "fs.FileSaver" ∷ "fs.FileSaver.EventType" ∷ "fs.FileSaver.ReadyState" ∷ [])
    ∷ ("fs:filesystem", "fs.FileSystem" ∷ [])
    ∷ ("fs:filesystemimpl", "fs.FileSystemImpl" ∷ [])
    ∷ ("fs:filewriter", "fs.FileWriter" ∷ [])
    ∷ ("fs:progressevent", "fs.ProgressEvent" ∷ [])
    ∷ ("fs:url", "fs.url" ∷ [])
    ∷ ("functions:functions", "functions" ∷ [])
    ∷ ("fx:fx", "fx" ∷ [])
    ∷ ("fx:abstractdragdrop", "fx.AbstractDragDrop" ∷ "fx.AbstractDragDrop.EventType" ∷ [])
    ∷ (
      "fx:animation",
      "fx.Animation" ∷ "fx.Animation.EventType" ∷ "fx.Animation.State" ∷ "fx.AnimationEvent" ∷ [],
    )
    ∷ (
      "fx:animationqueue",
      "fx.AnimationParallelQueue" ∷ "fx.AnimationQueue" ∷ "fx.AnimationSerialQueue" ∷ [],
    )
    ∷ ("fx:cssspriteanimation", "fx.CssSpriteAnimation" ∷ [])
    ∷ ("fx:dragdrop", "fx.DragDrop" ∷ [])
    ∷ ("fx:abstractdragdrop", "fx.DragDropEvent" ∷ [])
    ∷ ("fx:dragdropgroup", "fx.DragDropGroup" ∷ [])
    ∷ ("fx:abstractdragdrop", "fx.DragDropItem" ∷ [])
    ∷ ("fx:dragger", "fx.DragEvent" ∷ [])
    ∷ (
      "fx:draglistgroup",
      "fx.DragListDirection" ∷ "fx.DragListGroup" ∷ "fx.DragListGroup.EventType"
          ∷ "fx.DragListGroupEvent" ∷ "fx.DragListPermission" ∷ [],
    )
    ∷ ("fx:dragscrollsupport", "fx.DragScrollSupport" ∷ [])
    ∷ ("fx:dragger", "fx.Dragger" ∷ "fx.Dragger.EventType" ∷ [])
    ∷ ("fx:transition", "fx.Transition" ∷ "fx.Transition.EventType" ∷ [])
    ∷ ("fx:transitionbase", "fx.TransitionBase" ∷ "fx.TransitionBase.State" ∷ [])
    ∷ ("fx/anim:anim", "fx.anim" ∷ "fx.anim.Animated" ∷ [])
    ∷ ("fx/css3:fx", "fx.css3" ∷ [])
    ∷ ("fx/css3:transition", "fx.css3.Transition" ∷ [])
    ∷ (
      "fx:dom",
      "fx.dom" ∷ "fx.dom.BgColorTransform" ∷ "fx.dom.ColorTransform" ∷ "fx.dom.Fade"
          ∷ "fx.dom.FadeIn" ∷ "fx.dom.FadeInAndShow" ∷ "fx.dom.FadeOut" ∷ "fx.dom.FadeOutAndHide"
          ∷ "fx.dom.PredefinedEffect" ∷ "fx.dom.Resize" ∷ "fx.dom.ResizeHeight"
          ∷ "fx.dom.ResizeWidth" ∷ "fx.dom.Scroll" ∷ "fx.dom.Slide" ∷ "fx.dom.SlideFrom"
          ∷ "fx.dom.Swipe" ∷ [],
    )
    ∷ ("fx:easing", "fx.easing" ∷ [])
    ∷ ("graphics:graphics", "graphics" ∷ [])
    ∷ ("graphics:abstractgraphics", "graphics.AbstractGraphics" ∷ [])
    ∷ ("graphics:affinetransform", "graphics.AffineTransform" ∷ [])
    ∷ ("graphics:canvaselement", "graphics.CanvasEllipseElement" ∷ [])
    ∷ ("graphics:canvasgraphics", "graphics.CanvasGraphics" ∷ [])
    ∷ (
      "graphics:canvaselement",
      "graphics.CanvasGroupElement" ∷ "graphics.CanvasImageElement" ∷ "graphics.CanvasPathElement"
          ∷ "graphics.CanvasRectElement" ∷ "graphics.CanvasTextElement" ∷ [],
    )
    ∷ ("graphics:element", "graphics.Element" ∷ [])
    ∷ ("graphics:ellipseelement", "graphics.EllipseElement" ∷ [])
    ∷ ("graphics:fill", "graphics.Fill" ∷ [])
    ∷ ("graphics:font", "graphics.Font" ∷ [])
    ∷ ("graphics:groupelement", "graphics.GroupElement" ∷ [])
    ∷ ("graphics:imageelement", "graphics.ImageElement" ∷ [])
    ∷ [])
