-- ===== src/Library/Rows/ThirtyThird.antt =====
-- Lines 4806 to 4955 of gazelle/closure_js/closure_library/closure_library.go.
use rules_closure.Prelude.{List, [], ◌∷◌, ◌++◌}
use rules_closure.Library.{Row, goog_rows, row}

abbrev pub thirty_third_rows : List Row
thirty_third_rows =
    goog_rows (
      ("testing/async:mockcontrol", "testing.async.MockControl" ∷ [])
      ∷ ("testing:benchmark", "testing.benchmark" ∷ [])
      ∷ ("testing:dom", "testing.dom" ∷ [])
      ∷ ("testing/editor:fieldmock", "testing.editor.FieldMock" ∷ [])
      ∷ ("testing/editor:testhelper", "testing.editor.TestHelper" ∷ [])
      ∷ ("testing/editor:dom", "testing.editor.dom" ∷ [])
      ∷ ("testing/events:events", "testing.events" ∷ "testing.events.Event" ∷ [])
      ∷ ("testing/events:matchers", "testing.events.EventMatcher" ∷ [])
      ∷ ("testing/events:eventobserver", "testing.events.EventObserver" ∷ [])
      ∷ ("testing/events:onlinehandler", "testing.events.OnlineHandler" ∷ [])
      ∷ ("testing/fs:fs", "testing.fs" ∷ [])
      ∷ ("testing/fs:blob", "testing.fs.Blob" ∷ [])
      ∷ ("testing/fs:entry", "testing.fs.DirectoryEntry" ∷ "testing.fs.Entry" ∷ [])
      ∷ ("testing/fs:file", "testing.fs.File" ∷ [])
      ∷ ("testing/fs:entry", "testing.fs.FileEntry" ∷ [])
      ∷ ("testing/fs:filereader", "testing.fs.FileReader" ∷ [])
      ∷ ("testing/fs:filesystem", "testing.fs.FileSystem" ∷ [])
      ∷ ("testing/fs:filewriter", "testing.fs.FileWriter" ∷ [])
      ∷ ("testing/fs:progressevent", "testing.fs.ProgressEvent" ∷ [])
      ∷ ("testing:graphics", "testing.graphics" ∷ [])
      ∷ ("testing/i18n:asserts", "testing.i18n.asserts" ∷ [])
      ∷ ("testing:jsunit", "testing.jsunit" ∷ [])
      ∷ ("testing/messaging:mockmessagechannel", "testing.messaging.MockMessageChannel" ∷ [])
      ∷ ("testing/messaging:mockmessageevent", "testing.messaging.MockMessageEvent" ∷ [])
      ∷ ("testing/messaging:mockmessageport", "testing.messaging.MockMessagePort" ∷ [])
      ∷ ("testing/messaging:mockportnetwork", "testing.messaging.MockPortNetwork" ∷ [])
      ∷ (
        "testing:mockmatchers",
        "testing.mockmatchers" ∷ "testing.mockmatchers.ArgumentMatcher"
            ∷ "testing.mockmatchers.IgnoreArgument" ∷ "testing.mockmatchers.InstanceOf"
            ∷ "testing.mockmatchers.ObjectEquals" ∷ "testing.mockmatchers.RegexpMatch"
            ∷ "testing.mockmatchers.SaveArgument" ∷ "testing.mockmatchers.TypeOf" ∷ [],
      )
      ∷ ("testing/net:mockiframeio", "testing.net.MockIFrameIo" ∷ [])
      ∷ ("testing/net:xhrio", "testing.net.XhrIo" ∷ [])
      ∷ ("testing/net:xhriopool", "testing.net.XhrIoPool" ∷ [])
      ∷ ("testing/proto2:proto2", "testing.proto2" ∷ [])
      ∷ ("testing:recordfunction", "testing.recordConstructor" ∷ "testing.recordFunction" ∷ [])
      ∷ ("testing:assertionfailure", "testing.safe.assertionFailure" ∷ [])
      ∷ ("testing:singleton", "testing.singleton" ∷ [])
      ∷ ("testing:stacktrace", "testing.stacktrace" ∷ "testing.stacktrace.Frame" ∷ [])
      ∷ ("testing/storage:fakemechanism", "testing.storage.FakeMechanism" ∷ [])
      ∷ ("testing/style:style", "testing.style" ∷ [])
      ∷ ("testing/style:layoutasserts", "testing.style.layoutasserts" ∷ [])
      ∷ ("testing:testsuite", "testing.testSuite" ∷ [])
      ∷ ("testing/ui:rendererharness", "testing.ui.RendererHarness" ∷ [])
      ∷ ("testing/ui:rendererasserts", "testing.ui.rendererasserts" ∷ [])
      ∷ ("testing/ui:style", "testing.ui.style" ∷ [])
      ∷ [])
    ++ ((row "goog.text.LoremIpsum" "//third_party/closure/library/loremipsum/text:loremipsum" ∷ [])
        ++ (goog_rows (
            ("tweak:tweak", "tweak" ∷ [])
            ∷ (
              "tweak:entries",
              "tweak.BaseEntry" ∷ "tweak.BasePrimitiveSetting" ∷ "tweak.BaseSetting"
                  ∷ "tweak.BooleanGroup" ∷ "tweak.BooleanInGroupSetting" ∷ "tweak.BooleanSetting"
                  ∷ "tweak.ButtonAction" ∷ [],
            )
            ∷ ("tweak:tweak", "tweak.ConfigParams" ∷ [])
            ∷ ("tweak:tweakui", "tweak.EntriesPanel" ∷ [])
            ∷ ("tweak:entries", "tweak.NumericSetting" ∷ [])
            ∷ ("tweak:registry", "tweak.Registry" ∷ [])
            ∷ ("tweak:entries", "tweak.StringSetting" ∷ [])
            ∷ ("tweak:tweakui", "tweak.TweakUi" ∷ [])
            ∷ ("tweak:testhelpers", "tweak.testhelpers" ∷ [])
            ∷ (
              "ui:abstractspellchecker",
              "ui.AbstractSpellChecker" ∷ "ui.AbstractSpellChecker.AsyncResult" ∷ [],
            )
            ∷ ("ui:activitymonitor", "ui.ActivityMonitor" ∷ [])
            ∷ ("ui:advancedtooltip", "ui.AdvancedTooltip" ∷ [])
            ∷ ("ui:animatedzippy", "ui.AnimatedZippy" ∷ [])
            ∷ ("ui:attachablemenu", "ui.AttachableMenu" ∷ [])
            ∷ ("ui:roundedpanel", "ui.BaseRoundedPanel" ∷ [])
            ∷ ("ui:bidiinput", "ui.BidiInput" ∷ [])
            ∷ ("ui:bubble", "ui.Bubble" ∷ [])
            ∷ ("ui:button", "ui.Button" ∷ "ui.Button.Side" ∷ [])
            ∷ ("ui:buttonrenderer", "ui.ButtonRenderer" ∷ [])
            ∷ ("ui:buttonside", "ui.ButtonSide" ∷ [])
            ∷ ("ui:charcounter", "ui.CharCounter" ∷ "ui.CharCounter.Display" ∷ [])
            ∷ ("ui:charpicker", "ui.CharPicker" ∷ [])
            ∷ ("ui:checkboxmenuitem", "ui.CheckBoxMenuItem" ∷ [])
            ∷ ("ui:checkbox", "ui.Checkbox" ∷ "ui.Checkbox.State" ∷ [])
            ∷ ("ui:checkboxrenderer", "ui.CheckboxRenderer" ∷ [])
            ∷ ("ui:colormenubutton", "ui.ColorMenuButton" ∷ [])
            ∷ ("ui:colormenubuttonrenderer", "ui.ColorMenuButtonRenderer" ∷ [])
            ∷ ("ui:colorpalette", "ui.ColorPalette" ∷ [])
            ∷ ("ui:colorpicker", "ui.ColorPicker" ∷ "ui.ColorPicker.EventType" ∷ [])
            ∷ ("ui:combobox", "ui.ComboBox" ∷ "ui.ComboBoxItem" ∷ [])
            ∷ (
              "ui:component",
              "ui.Component" ∷ "ui.Component.Error" ∷ "ui.Component.EventType"
                  ∷ "ui.Component.State" ∷ [],
            )
            ∷ ("ui:componentutil", "ui.ComponentUtil" ∷ [])
            ∷ (
              "ui:container",
              "ui.Container" ∷ "ui.Container.EventType" ∷ "ui.Container.Orientation" ∷ [],
            )
            ∷ ("ui:containerrenderer", "ui.ContainerRenderer" ∷ [])
            ∷ ("ui:containerscroller", "ui.ContainerScroller" ∷ [])
            ∷ ("ui:control", "ui.Control" ∷ [])
            ∷ ("ui:controlcontent", "ui.ControlContent" ∷ [])
            ∷ ("ui:controlrenderer", "ui.ControlRenderer" ∷ [])
            ∷ ("ui:cookieeditor", "ui.CookieEditor" ∷ [])
            ∷ ("ui:css3buttonrenderer", "ui.Css3ButtonRenderer" ∷ [])
            ∷ ("ui:css3menubuttonrenderer", "ui.Css3MenuButtonRenderer" ∷ [])
            ∷ ("ui:roundedpanel", "ui.CssRoundedPanel" ∷ [])
            ∷ ("ui:custombutton", "ui.CustomButton" ∷ [])
            ∷ ("ui:custombuttonrenderer", "ui.CustomButtonRenderer" ∷ [])
            ∷ ("ui:customcolorpalette", "ui.CustomColorPalette" ∷ [])
            ∷ (
              "ui:datepicker",
              "ui.DatePicker" ∷ "ui.DatePicker.Events" ∷ "ui.DatePickerEvent" ∷ [],
            )
            ∷ ("ui:datepickerrenderer", "ui.DatePickerRenderer" ∷ [])
            ∷ ("ui:defaultdatepickerrenderer", "ui.DefaultDatePickerRenderer" ∷ [])
            ∷ (
              "ui:dialog",
              "ui.Dialog" ∷ "ui.Dialog.ButtonSet" ∷ "ui.Dialog.ButtonSet.DefaultButtons"
                  ∷ "ui.Dialog.DefaultButtonCaptions" ∷ "ui.Dialog.DefaultButtonKeys"
                  ∷ "ui.Dialog.Event" ∷ "ui.Dialog.EventType" ∷ [],
            )
            ∷ ("ui:dimensionpicker", "ui.DimensionPicker" ∷ [])
            ∷ ("ui:dimensionpickerrenderer", "ui.DimensionPickerRenderer" ∷ [])
            ∷ (
              "ui:dragdropdetector",
              "ui.DragDropDetector" ∷ "ui.DragDropDetector.EventType"
                  ∷ "ui.DragDropDetector.ImageDropEvent" ∷ "ui.DragDropDetector.LinkDropEvent" ∷ [],
            )
            ∷ ("ui:drilldownrow", "ui.DrilldownRow" ∷ [])
            ∷ ("ui:filterobservingmenuitem", "ui.FilterObservingMenuItem" ∷ [])
            ∷ ("ui:filterobservingmenuitemrenderer", "ui.FilterObservingMenuItemRenderer" ∷ [])
            ∷ ("ui:filteredmenu", "ui.FilteredMenu" ∷ [])
            ∷ ("ui:flatbuttonrenderer", "ui.FlatButtonRenderer" ∷ [])
            ∷ ("ui:flatmenubuttonrenderer", "ui.FlatMenuButtonRenderer" ∷ [])
            ∷ ("ui:formpost", "ui.FormPost" ∷ [])
            ∷ ("ui:gauge", "ui.Gauge" ∷ "ui.GaugeColoredRange" ∷ [])
            ∷ ("ui:gaugetheme", "ui.GaugeTheme" ∷ [])
            ∷ ("ui:roundedpanel", "ui.GraphicsRoundedPanel" ∷ [])
            ∷ (
              "ui:hovercard",
              "ui.HoverCard" ∷ "ui.HoverCard.EventType" ∷ "ui.HoverCard.TriggerEvent" ∷ [],
            )
            ∷ ("ui:hsvpalette", "ui.HsvPalette" ∷ [])
            ∷ ("ui:hsvapalette", "ui.HsvaPalette" ∷ [])
            ∷ [])))
