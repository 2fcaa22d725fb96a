-- ===== src/Library/Rows/Second.antt =====
-- Lines 156 to 305 of gazelle/closure_js/closure_library/closure_library.go.
use rules_closure.Prelude.{List, [], ◌∷◌, ◌++◌}
use rules_closure.Library.{Row, goog_rows, row}

abbrev pub second_rows : List Row
second_rows =
    goog_rows (
      ("dom:attr", "dom.Attr" ∷ [])
      ∷ ("dom:browserfeature", "dom.BrowserFeature" ∷ [])
      ∷ ("dom:bufferedviewportsizemonitor", "dom.BufferedViewportSizeMonitor" ∷ [])
      ∷ ("dom:controlrange", "dom.ControlRange" ∷ "dom.ControlRangeIterator" ∷ [])
      ∷ ("dom:dom", "dom.DomHelper" ∷ [])
      ∷ ("dom:fontsizemonitor", "dom.FontSizeMonitor" ∷ "dom.FontSizeMonitor.EventType" ∷ [])
      ∷ ("dom:htmlelement", "dom.HtmlElement" ∷ [])
      ∷ ("dom:inputtype", "dom.InputType" ∷ [])
      ∷ ("dom:multirange", "dom.MultiRange" ∷ "dom.MultiRangeIterator" ∷ [])
      ∷ ("dom:nodeiterator", "dom.NodeIterator" ∷ [])
      ∷ ("dom:nodeoffset", "dom.NodeOffset" ∷ [])
      ∷ ("dom:nodetype", "dom.NodeType" ∷ [])
      ∷ ("dom:range", "dom.Range" ∷ [])
      ∷ ("dom:rangeendpoint", "dom.RangeEndpoint" ∷ [])
      ∷ ("dom:abstractrange", "dom.RangeIterator" ∷ "dom.RangeType" ∷ [])
      ∷ ("dom:savedcaretrange", "dom.SavedCaretRange" ∷ [])
      ∷ ("dom:savedrange", "dom.SavedRange" ∷ [])
      ∷ ("dom:tagiterator", "dom.TagIterator" ∷ [])
      ∷ ("dom:tagname", "dom.TagName" ∷ [])
      ∷ ("dom:tagiterator", "dom.TagWalkType" ∷ [])
      ∷ ("dom:textrange", "dom.TextRange" ∷ [])
      ∷ ("dom:textrangeiterator", "dom.TextRangeIterator" ∷ [])
      ∷ ("dom:viewportsizemonitor", "dom.ViewportSizeMonitor" ∷ [])
      ∷ (
        "dom/animationframe:animationframe",
        "dom.animationFrame" ∷ "dom.animationFrame.Spec" ∷ "dom.animationFrame.State" ∷ [],
      )
      ∷ ("dom/animationframe:polyfill", "dom.animationFrame.polyfill" ∷ [])
      ∷ ("dom:annotate", "dom.annotate" ∷ "dom.annotate.AnnotateFn" ∷ [])
      ∷ ("dom:asserts", "dom.asserts" ∷ [])
      ∷ ("dom/browserrange:browserrange", "dom.browserrange" ∷ [])
      ∷ ("dom/browserrange:abstractrange", "dom.browserrange.AbstractRange" ∷ [])
      ∷ ("dom/browserrange:browserrange", "dom.browserrange.Error" ∷ [])
      ∷ ("dom/browserrange:geckorange", "dom.browserrange.GeckoRange" ∷ [])
      ∷ ("dom/browserrange:ierange", "dom.browserrange.IeRange" ∷ [])
      ∷ ("dom/browserrange:operarange", "dom.browserrange.OperaRange" ∷ [])
      ∷ ("dom/browserrange:w3crange", "dom.browserrange.W3cRange" ∷ [])
      ∷ ("dom/browserrange:webkitrange", "dom.browserrange.WebKitRange" ∷ [])
      ∷ ("dom:classes", "dom.classes" ∷ [])
      ∷ ("dom:classlist", "dom.classlist" ∷ [])
      ∷ ("dom:dataset", "dom.dataset" ∷ [])
      ∷ ("dom:forms", "dom.forms" ∷ [])
      ∷ ("dom:fullscreen", "dom.fullscreen" ∷ "dom.fullscreen.EventType" ∷ [])
      ∷ ("dom:iframe", "dom.iframe" ∷ [])
      ∷ (
        "dom:iter",
        "dom.iter.AncestorIterator" ∷ "dom.iter.ChildIterator" ∷ "dom.iter.SiblingIterator" ∷ [],
      )
      ∷ ("dom/pattern:pattern", "dom.pattern" ∷ [])
      ∷ ("dom/pattern:abstractpattern", "dom.pattern.AbstractPattern" ∷ [])
      ∷ ("dom/pattern:allchildren", "dom.pattern.AllChildren" ∷ [])
      ∷ ("dom/pattern:childmatches", "dom.pattern.ChildMatches" ∷ [])
      ∷ ("dom/pattern:endtag", "dom.pattern.EndTag" ∷ [])
      ∷ ("dom/pattern:fulltag", "dom.pattern.FullTag" ∷ [])
      ∷ ("dom/pattern:pattern", "dom.pattern.MatchType" ∷ [])
      ∷ ("dom/pattern:matcher", "dom.pattern.Matcher" ∷ [])
      ∷ ("dom/pattern:nodetype", "dom.pattern.NodeType" ∷ [])
      ∷ ("dom/pattern:repeat", "dom.pattern.Repeat" ∷ [])
      ∷ ("dom/pattern:sequence", "dom.pattern.Sequence" ∷ [])
      ∷ ("dom/pattern:starttag", "dom.pattern.StartTag" ∷ [])
      ∷ ("dom/pattern:tag", "dom.pattern.Tag" ∷ [])
      ∷ ("dom/pattern:text", "dom.pattern.Text" ∷ [])
      ∷ ("dom/pattern/callback:callback", "dom.pattern.callback" ∷ [])
      ∷ ("dom/pattern/callback:counter", "dom.pattern.callback.Counter" ∷ [])
      ∷ ("dom/pattern/callback:test", "dom.pattern.callback.Test" ∷ [])
      ∷ [])
    ++ ((row "goog.dom.query" "//third_party/closure/library/dojo/dom:query" ∷ [])
        ++ (goog_rows (
            ("dom:safe", "dom.safe" ∷ "dom.safe.InsertAdjacentHtmlPosition" ∷ [])
            ∷ ("dom:selection", "dom.selection" ∷ [])
            ∷ ("dom:tags", "dom.tags" ∷ [])
            ∷ ("dom:textassert", "dom.textAssert" ∷ [])
            ∷ ("dom:uri", "dom.uri" ∷ [])
            ∷ ("dom:vendor", "dom.vendor" ∷ [])
            ∷ ("dom:xml", "dom.xml" ∷ [])
            ∷ ("datasource:fastdatanode", "ds.AbstractFastDataNode" ∷ [])
            ∷ ("datasource:datasource", "ds.BaseDataNode" ∷ "ds.BasicNodeList" ∷ [])
            ∷ ("datasource:datamanager", "ds.DataManager" ∷ [])
            ∷ ("datasource:datasource", "ds.DataNode" ∷ "ds.DataNodeList" ∷ "ds.EmptyNodeList" ∷ [])
            ∷ ("datasource:expr", "ds.Expr" ∷ [])
            ∷ ("datasource:fastdatanode", "ds.FastDataNode" ∷ "ds.FastListNode" ∷ [])
            ∷ ("datasource:jsdatasource", "ds.JsDataSource" ∷ "ds.JsPropertyDataSource" ∷ [])
            ∷ ("datasource:jsxmlhttpdatasource", "ds.JsXmlHttpDataSource" ∷ [])
            ∷ ("datasource:jsondatasource", "ds.JsonDataSource" ∷ [])
            ∷ ("datasource:datasource", "ds.LoadState" ∷ [])
            ∷ ("datasource:fastdatanode", "ds.PrimitiveFastDataNode" ∷ [])
            ∷ ("datasource:datasource", "ds.SortedNodeList" ∷ "ds.Util" ∷ [])
            ∷ ("datasource:xmldatasource", "ds.XmlDataSource" ∷ "ds.XmlHttpDataSource" ∷ [])
            ∷ ("datasource:datasource", "ds.logger" ∷ [])
            ∷ ("editor:browserfeature", "editor.BrowserFeature" ∷ [])
            ∷ ("editor:clicktoeditwrapper", "editor.ClickToEditWrapper" ∷ [])
            ∷ ("editor:command", "editor.Command" ∷ [])
            ∷ ("editor:contenteditablefield", "editor.ContentEditableField" ∷ [])
            ∷ ("editor:field", "editor.Field" ∷ "editor.Field.EventType" ∷ [])
            ∷ ("editor:link", "editor.Link" ∷ [])
            ∷ ("editor:plugin", "editor.Plugin" ∷ [])
            ∷ ("editor:plugin_impl", "editor.PluginImpl" ∷ [])
            ∷ ("editor:seamlessfield", "editor.SeamlessField" ∷ [])
            ∷ ("editor:table", "editor.Table" ∷ "editor.TableCell" ∷ "editor.TableRow" ∷ [])
            ∷ ("editor:defines", "editor.defines" ∷ [])
            ∷ ("editor:focus", "editor.focus" ∷ [])
            ∷ (
              "editor:icontent",
              "editor.icontent" ∷ "editor.icontent.FieldFormatInfo"
                  ∷ "editor.icontent.FieldStyleInfo" ∷ [],
            )
            ∷ ("editor:node", "editor.node" ∷ [])
            ∷ ("editor/plugins:abstractbubbleplugin", "editor.plugins.AbstractBubblePlugin" ∷ [])
            ∷ (
              "editor/plugins:abstractdialogplugin",
              "editor.plugins.AbstractDialogPlugin"
                  ∷ "editor.plugins.AbstractDialogPlugin.EventType" ∷ [],
            )
            ∷ ("editor/plugins:abstracttabhandler", "editor.plugins.AbstractTabHandler" ∷ [])
            ∷ (
              "editor/plugins:basictextformatter",
              "editor.plugins.BasicTextFormatter" ∷ "editor.plugins.BasicTextFormatter.COMMAND"
                  ∷ [],
            )
            ∷ ("editor/plugins:blockquote", "editor.plugins.Blockquote" ∷ [])
            ∷ ("editor/plugins:emoticons", "editor.plugins.Emoticons" ∷ [])
            ∷ ("editor/plugins:enterhandler", "editor.plugins.EnterHandler" ∷ [])
            ∷ ("editor/plugins:firststrong", "editor.plugins.FirstStrong" ∷ [])
            ∷ ("editor/plugins:headerformatter", "editor.plugins.HeaderFormatter" ∷ [])
            ∷ (
              "editor/plugins:linkbubble",
              "editor.plugins.LinkBubble" ∷ "editor.plugins.LinkBubble.Action" ∷ [],
            )
            ∷ ("editor/plugins:linkdialogplugin", "editor.plugins.LinkDialogPlugin" ∷ [])
            ∷ ("editor/plugins:linkshortcutplugin", "editor.plugins.LinkShortcutPlugin" ∷ [])
            ∷ ("editor/plugins:listtabhandler", "editor.plugins.ListTabHandler" ∷ [])
            ∷ ("editor/plugins:loremipsum", "editor.plugins.LoremIpsum" ∷ [])
            ∷ ("editor/plugins:removeformatting", "editor.plugins.RemoveFormatting" ∷ [])
            ∷ ("editor/plugins:spacestabhandler", "editor.plugins.SpacesTabHandler" ∷ [])
            ∷ ("editor/plugins:tableeditor", "editor.plugins.TableEditor" ∷ [])
            ∷ ("editor/plugins:tagonenterhandler", "editor.plugins.TagOnEnterHandler" ∷ [])
            ∷ ("editor/plugins:undoredo", "editor.plugins.UndoRedo" ∷ [])
            ∷ (
              "editor/plugins:undoredomanager",
              "editor.plugins.UndoRedoManager" ∷ "editor.plugins.UndoRedoManager.EventType" ∷ [],
            )
            ∷ ("editor/plugins:undoredostate", "editor.plugins.UndoRedoState" ∷ [])
            ∷ ("editor:range", "editor.range" ∷ "editor.range.Point" ∷ [])
            ∷ ("editor:style", "editor.style" ∷ [])
            ∷ ("events:events", "events" ∷ [])
            ∷ (
              "events:actionhandler",
              "events.ActionEvent" ∷ "events.ActionHandler" ∷ "events.ActionHandler.EventType" ∷ [],
            )
            ∷ [])))
