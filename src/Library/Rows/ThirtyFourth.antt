-- ===== src/Library/Rows/ThirtyFourth.antt =====
-- Lines 4956 to 5105 of gazelle/closure_js/closure_library/closure_library.go.
use rules_closure.Prelude.{List, [], ◌∷◌}
use rules_closure.Library.{Row, goog_rows}

abbrev pub thirty_fourth_rows : List Row
thirty_fourth_rows = goog_rows (
    ("ui:cssnames", "ui.INLINE_BLOCK_CLASSNAME" ∷ [])
    ∷ ("ui:idgenerator", "ui.IdGenerator" ∷ [])
    ∷ ("ui:idletimer", "ui.IdleTimer" ∷ [])
    ∷ ("ui:iframemask", "ui.IframeMask" ∷ [])
    ∷ ("ui:imagelessbuttonrenderer", "ui.ImagelessButtonRenderer" ∷ [])
    ∷ ("ui:imagelessmenubuttonrenderer", "ui.ImagelessMenuButtonRenderer" ∷ [])
    ∷ ("ui:inputdatepicker", "ui.InputDatePicker" ∷ [])
    ∷ ("ui:itemevent", "ui.ItemEvent" ∷ [])
    ∷ ("ui:keyboardeventdata", "ui.KeyboardEventData" ∷ [])
    ∷ (
      "ui:keyboardshortcuthandler",
      "ui.KeyboardShortcutEvent" ∷ "ui.KeyboardShortcutHandler"
          ∷ "ui.KeyboardShortcutHandler.EventType" ∷ "ui.KeyboardShortcutHandler.Modifiers" ∷ [],
    )
    ∷ ("ui:labelinput", "ui.LabelInput" ∷ [])
    ∷ ("ui:linkbuttonrenderer", "ui.LinkButtonRenderer" ∷ [])
    ∷ ("ui:menu", "ui.Menu" ∷ "ui.Menu.EventType" ∷ [])
    ∷ ("ui:menubarrenderer", "ui.MenuBarRenderer" ∷ [])
    ∷ ("ui:menubase", "ui.MenuBase" ∷ [])
    ∷ ("ui:menubutton", "ui.MenuButton" ∷ [])
    ∷ ("ui:menubuttonrenderer", "ui.MenuButtonRenderer" ∷ [])
    ∷ ("ui:menuheader", "ui.MenuHeader" ∷ [])
    ∷ ("ui:menuheaderrenderer", "ui.MenuHeaderRenderer" ∷ [])
    ∷ ("ui:menuitem", "ui.MenuItem" ∷ [])
    ∷ ("ui:menuitemrenderer", "ui.MenuItemRenderer" ∷ [])
    ∷ ("ui:menurenderer", "ui.MenuRenderer" ∷ [])
    ∷ ("ui:menuseparator", "ui.MenuSeparator" ∷ [])
    ∷ ("ui:menuseparatorrenderer", "ui.MenuSeparatorRenderer" ∷ [])
    ∷ ("ui:mockactivitymonitor", "ui.MockActivityMonitor" ∷ [])
    ∷ ("ui:modalariavisibilityhelper", "ui.ModalAriaVisibilityHelper" ∷ [])
    ∷ ("ui:modalpopup", "ui.ModalPopup" ∷ [])
    ∷ ("ui:nativebuttonrenderer", "ui.NativeButtonRenderer" ∷ [])
    ∷ ("ui:option", "ui.Option" ∷ [])
    ∷ ("ui:palette", "ui.Palette" ∷ [])
    ∷ ("ui:paletterenderer", "ui.PaletteRenderer" ∷ [])
    ∷ ("ui:plaintextspellchecker", "ui.PlainTextSpellChecker" ∷ [])
    ∷ ("ui:popup", "ui.Popup" ∷ [])
    ∷ ("ui:popupbase", "ui.PopupBase" ∷ "ui.PopupBase.EventType" ∷ "ui.PopupBase.Type" ∷ [])
    ∷ ("ui:popupcolorpicker", "ui.PopupColorPicker" ∷ [])
    ∷ ("ui:popupdatepicker", "ui.PopupDatePicker" ∷ [])
    ∷ ("ui:popupmenu", "ui.PopupMenu" ∷ [])
    ∷ ("ui:progressbar", "ui.ProgressBar" ∷ "ui.ProgressBar.Orientation" ∷ [])
    ∷ ("ui:prompt", "ui.Prompt" ∷ [])
    ∷ ("ui:rangemodel", "ui.RangeModel" ∷ [])
    ∷ ("ui:ratings", "ui.Ratings" ∷ "ui.Ratings.EventType" ∷ [])
    ∷ ("ui:richtextspellchecker", "ui.RichTextSpellChecker" ∷ [])
    ∷ ("ui:roundedpanel", "ui.RoundedPanel" ∷ "ui.RoundedPanel.Corner" ∷ [])
    ∷ ("ui:roundedtabrenderer", "ui.RoundedTabRenderer" ∷ [])
    ∷ ("ui:scrollfloater", "ui.ScrollFloater" ∷ "ui.ScrollFloater.EventType" ∷ [])
    ∷ ("ui:select", "ui.Select" ∷ [])
    ∷ (
      "ui:selectionmenubutton",
      "ui.SelectionMenuButton" ∷ "ui.SelectionMenuButton.SelectionState" ∷ [],
    )
    ∷ ("ui:selectionmodel", "ui.SelectionModel" ∷ [])
    ∷ ("ui:separator", "ui.Separator" ∷ [])
    ∷ (
      "ui:serverchart",
      "ui.ServerChart" ∷ "ui.ServerChart.AxisDisplayType" ∷ "ui.ServerChart.ChartType"
          ∷ "ui.ServerChart.EncodingType" ∷ "ui.ServerChart.Event" ∷ "ui.ServerChart.LegendPosition"
          ∷ "ui.ServerChart.MaximumValue" ∷ "ui.ServerChart.MultiAxisAlignment"
          ∷ "ui.ServerChart.MultiAxisType" ∷ "ui.ServerChart.UriParam"
          ∷ "ui.ServerChart.UriTooLongEvent" ∷ [],
    )
    ∷ ("ui:slider", "ui.Slider" ∷ "ui.Slider.Orientation" ∷ [])
    ∷ (
      "ui:sliderbase",
      "ui.SliderBase" ∷ "ui.SliderBase.AnimationFactory" ∷ "ui.SliderBase.Orientation" ∷ [],
    )
    ∷ ("ui:splitpane", "ui.SplitPane" ∷ "ui.SplitPane.Orientation" ∷ [])
    ∷ ("ui:submenu", "ui.SubMenu" ∷ [])
    ∷ ("ui:submenurenderer", "ui.SubMenuRenderer" ∷ [])
    ∷ ("ui:synthetickeyboardevent", "ui.SyntheticKeyboardEvent" ∷ [])
    ∷ ("ui:tab", "ui.Tab" ∷ [])
    ∷ ("ui:tabbar", "ui.TabBar" ∷ "ui.TabBar.Location" ∷ [])
    ∷ ("ui:tabbarrenderer", "ui.TabBarRenderer" ∷ [])
    ∷ (
      "ui:tabpane",
      "ui.TabPane" ∷ "ui.TabPane.Events" ∷ "ui.TabPane.TabLocation" ∷ "ui.TabPane.TabPage"
          ∷ "ui.TabPaneEvent" ∷ [],
    )
    ∷ ("ui:tabrenderer", "ui.TabRenderer" ∷ [])
    ∷ ("ui:tablesorter", "ui.TableSorter" ∷ "ui.TableSorter.EventType" ∷ [])
    ∷ ("ui:textarea", "ui.Textarea" ∷ "ui.Textarea.EventType" ∷ [])
    ∷ ("ui:textarearenderer", "ui.TextareaRenderer" ∷ [])
    ∷ ("ui:togglebutton", "ui.ToggleButton" ∷ [])
    ∷ ("ui:toolbar", "ui.Toolbar" ∷ [])
    ∷ ("ui:toolbarbutton", "ui.ToolbarButton" ∷ [])
    ∷ ("ui:toolbarbuttonrenderer", "ui.ToolbarButtonRenderer" ∷ [])
    ∷ ("ui:toolbarcolormenubutton", "ui.ToolbarColorMenuButton" ∷ [])
    ∷ ("ui:toolbarcolormenubuttonrenderer", "ui.ToolbarColorMenuButtonRenderer" ∷ [])
    ∷ ("ui:toolbarmenubutton", "ui.ToolbarMenuButton" ∷ [])
    ∷ ("ui:toolbarmenubuttonrenderer", "ui.ToolbarMenuButtonRenderer" ∷ [])
    ∷ ("ui:toolbarrenderer", "ui.ToolbarRenderer" ∷ [])
    ∷ ("ui:toolbarselect", "ui.ToolbarSelect" ∷ [])
    ∷ ("ui:toolbarseparator", "ui.ToolbarSeparator" ∷ [])
    ∷ ("ui:toolbarseparatorrenderer", "ui.ToolbarSeparatorRenderer" ∷ [])
    ∷ ("ui:toolbartogglebutton", "ui.ToolbarToggleButton" ∷ [])
    ∷ (
      "ui:tooltip",
      "ui.Tooltip" ∷ "ui.Tooltip.CursorTooltipPosition" ∷ "ui.Tooltip.ElementTooltipPosition"
          ∷ "ui.Tooltip.State" ∷ [],
    )
    ∷ ("ui:tristatemenuitem", "ui.TriStateMenuItem" ∷ "ui.TriStateMenuItem.State" ∷ [])
    ∷ ("ui:tristatemenuitemrenderer", "ui.TriStateMenuItemRenderer" ∷ [])
    ∷ ("ui:twothumbslider", "ui.TwoThumbSlider" ∷ [])
    ∷ ("ui:zippy", "ui.Zippy" ∷ "ui.Zippy.Events" ∷ "ui.ZippyEvent" ∷ [])
    ∷ ("ui/ac:ac", "ui.ac" ∷ [])
    ∷ ("ui/ac:arraymatcher", "ui.ac.ArrayMatcher" ∷ [])
    ∷ ("ui/ac:autocomplete", "ui.ac.AutoComplete" ∷ "ui.ac.AutoComplete.EventType" ∷ [])
    ∷ ("ui/ac:cachingmatcher", "ui.ac.CachingMatcher" ∷ [])
    ∷ ("ui/ac:inputhandler", "ui.ac.InputHandler" ∷ [])
    ∷ ("ui/ac:remote", "ui.ac.Remote" ∷ [])
    ∷ ("ui/ac:remotearraymatcher", "ui.ac.RemoteArrayMatcher" ∷ [])
    ∷ ("ui/ac:renderoptions", "ui.ac.RenderOptions" ∷ [])
    ∷ ("ui/ac:renderer", "ui.ac.Renderer" ∷ "ui.ac.Renderer.CustomRenderer" ∷ [])
    ∷ ("ui/ac:richinputhandler", "ui.ac.RichInputHandler" ∷ [])
    ∷ ("ui/ac:richremote", "ui.ac.RichRemote" ∷ [])
    ∷ ("ui/ac:richremotearraymatcher", "ui.ac.RichRemoteArrayMatcher" ∷ [])
    ∷ ("ui:decorate", "ui.decorate" ∷ [])
    ∷ (
      "ui/editor:abstractdialog",
      "ui.editor.AbstractDialog" ∷ "ui.editor.AbstractDialog.Builder"
          ∷ "ui.editor.AbstractDialog.EventType" ∷ [],
    )
    ∷ ("ui/editor:bubble", "ui.editor.Bubble" ∷ [])
    ∷ ("ui/editor:defaulttoolbar", "ui.editor.ButtonDescriptor" ∷ "ui.editor.DefaultToolbar" ∷ [])
    ∷ (
      "ui/editor:linkdialog",
      "ui.editor.LinkDialog" ∷ "ui.editor.LinkDialog.BeforeTestLinkEvent"
          ∷ "ui.editor.LinkDialog.EventType" ∷ "ui.editor.LinkDialog.OkEvent" ∷ [],
    )
    ∷ ("ui/editor:tabpane", "ui.editor.TabPane" ∷ [])
    ∷ ("ui/editor:toolbarcontroller", "ui.editor.ToolbarController" ∷ [])
    ∷ ("ui/editor:toolbarfactory", "ui.editor.ToolbarFactory" ∷ [])
    ∷ ("ui/editor:messages", "ui.editor.messages" ∷ [])
    ∷ ("ui/emoji:emoji", "ui.emoji.Emoji" ∷ [])
    ∷ [])
