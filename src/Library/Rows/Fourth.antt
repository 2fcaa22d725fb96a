-- ===== src/Library/Rows/Fourth.antt =====
-- Lines 456 to 605 of gazelle/closure_js/closure_library/closure_library.go.
use rules_closure.Prelude.{List, [], ◌∷◌}
use rules_closure.Library.{Row, goog_rows}

abbrev pub fourth_rows : List Row
fourth_rows = goog_rows (
    ("graphics:lineargradient", "graphics.LinearGradient" ∷ [])
    ∷ ("graphics:path", "graphics.Path" ∷ "graphics.Path.Segment" ∷ [])
    ∷ ("graphics:pathelement", "graphics.PathElement" ∷ [])
    ∷ ("graphics:rectelement", "graphics.RectElement" ∷ [])
    ∷ ("graphics:solidfill", "graphics.SolidFill" ∷ [])
    ∷ ("graphics:stroke", "graphics.Stroke" ∷ [])
    ∷ ("graphics:strokeandfillelement", "graphics.StrokeAndFillElement" ∷ [])
    ∷ ("graphics:svgelement", "graphics.SvgEllipseElement" ∷ [])
    ∷ ("graphics:svggraphics", "graphics.SvgGraphics" ∷ [])
    ∷ (
      "graphics:svgelement",
      "graphics.SvgGroupElement" ∷ "graphics.SvgImageElement" ∷ "graphics.SvgPathElement"
          ∷ "graphics.SvgRectElement" ∷ "graphics.SvgTextElement" ∷ [],
    )
    ∷ ("graphics:textelement", "graphics.TextElement" ∷ [])
    ∷ ("graphics:vmlelement", "graphics.VmlEllipseElement" ∷ [])
    ∷ ("graphics:vmlgraphics", "graphics.VmlGraphics" ∷ [])
    ∷ (
      "graphics:vmlelement",
      "graphics.VmlGroupElement" ∷ "graphics.VmlImageElement" ∷ "graphics.VmlPathElement"
          ∷ "graphics.VmlRectElement" ∷ "graphics.VmlTextElement" ∷ [],
    )
    ∷ ("graphics/ext:ext", "graphics.ext" ∷ [])
    ∷ ("graphics/ext:element", "graphics.ext.Element" ∷ [])
    ∷ ("graphics/ext:ellipse", "graphics.ext.Ellipse" ∷ [])
    ∷ ("graphics/ext:graphics", "graphics.ext.Graphics" ∷ [])
    ∷ ("graphics/ext:group", "graphics.ext.Group" ∷ [])
    ∷ ("graphics/ext:image", "graphics.ext.Image" ∷ [])
    ∷ ("graphics/ext:path", "graphics.ext.Path" ∷ [])
    ∷ ("graphics/ext:rectangle", "graphics.ext.Rectangle" ∷ [])
    ∷ ("graphics/ext:shape", "graphics.ext.Shape" ∷ [])
    ∷ ("graphics/ext:strokeandfillelement", "graphics.ext.StrokeAndFillElement" ∷ [])
    ∷ ("graphics/ext:coordinates", "graphics.ext.coordinates" ∷ [])
    ∷ ("graphics:paths", "graphics.paths" ∷ [])
    ∷ ("history:event", "history.Event" ∷ [])
    ∷ ("history:eventtype", "history.EventType" ∷ [])
    ∷ (
      "history:html5history",
      "history.Html5History" ∷ "history.Html5History.TokenTransformer" ∷ [],
    )
    ∷ ("html:cssspecificity", "html.CssSpecificity" ∷ [])
    ∷ ("html:safehtml", "html.SafeHtml" ∷ [])
    ∷ ("html:safehtmlformatter", "html.SafeHtmlFormatter" ∷ [])
    ∷ ("html:safescript", "html.SafeScript" ∷ [])
    ∷ ("html:safestyle", "html.SafeStyle" ∷ [])
    ∷ ("html:safestylesheet", "html.SafeStyleSheet" ∷ [])
    ∷ ("html:safeurl", "html.SafeUrl" ∷ [])
    ∷ ("html:trustedresourceurl", "html.TrustedResourceUrl" ∷ [])
    ∷ ("html:flash", "html.flash" ∷ [])
    ∷ ("html:legacyconversions", "html.legacyconversions" ∷ [])
    ∷ (
      "html/sanitizer:attributewhitelist",
      "html.sanitizer.AttributeSanitizedWhitelist" ∷ "html.sanitizer.AttributeWhitelist" ∷ [],
    )
    ∷ ("html/sanitizer:csspropertysanitizer", "html.sanitizer.CssPropertySanitizer" ∷ [])
    ∷ ("html/sanitizer:csssanitizer", "html.sanitizer.CssSanitizer" ∷ [])
    ∷ ("html/sanitizer:elementweakmap", "html.sanitizer.ElementWeakMap" ∷ [])
    ∷ (
      "html/sanitizer:htmlsanitizer",
      "html.sanitizer.HtmlSanitizer" ∷ "html.sanitizer.HtmlSanitizer.Builder"
          ∷ "html.sanitizer.HtmlSanitizerAttributePolicy" ∷ "html.sanitizer.HtmlSanitizerPolicy"
          ∷ "html.sanitizer.HtmlSanitizerPolicyContext" ∷ "html.sanitizer.HtmlSanitizerPolicyHints"
          ∷ "html.sanitizer.HtmlSanitizerUrlPolicy" ∷ [],
    )
    ∷ ("html/sanitizer:safedomtreeprocessor", "html.sanitizer.SafeDomTreeProcessor" ∷ [])
    ∷ ("html/sanitizer:tagblacklist", "html.sanitizer.TagBlacklist" ∷ [])
    ∷ ("html/sanitizer:tagwhitelist", "html.sanitizer.TagWhitelist" ∷ [])
    ∷ ("html/sanitizer:noclobber", "html.sanitizer.noclobber" ∷ [])
    ∷ ("html/sanitizer:unsafe", "html.sanitizer.unsafe" ∷ [])
    ∷ ("html:silverlight", "html.silverlight" ∷ [])
    ∷ ("html:testing", "html.testing" ∷ [])
    ∷ ("html:textextractor", "html.textExtractor" ∷ [])
    ∷ ("html:trustedtypes", "html.trustedtypes" ∷ [])
    ∷ ("html:uncheckedconversions", "html.uncheckedconversions" ∷ [])
    ∷ ("html:utils", "html.utils" ∷ [])
    ∷ ("i18n:bidiformatter", "i18n.BidiFormatter" ∷ [])
    ∷ ("i18n:charlistdecompressor", "i18n.CharListDecompressor" ∷ [])
    ∷ ("i18n:charpickerdata", "i18n.CharPickerData" ∷ [])
    ∷ ("i18n:compactnumberformatsymbols", "i18n.CompactNumberFormatSymbols" ∷ [])
    ∷ ("i18n:compactnumberformatsymbolsext", "i18n.CompactNumberFormatSymbolsExt" ∷ [])
    ∷ ("i18n:compactnumberformatsymbols", "i18n.CompactNumberFormatSymbols_af" ∷ [])
    ∷ (
      "i18n:compactnumberformatsymbolsext",
      "i18n.CompactNumberFormatSymbols_af_NA" ∷ "i18n.CompactNumberFormatSymbols_af_ZA"
          ∷ "i18n.CompactNumberFormatSymbols_agq" ∷ "i18n.CompactNumberFormatSymbols_agq_CM"
          ∷ "i18n.CompactNumberFormatSymbols_ak" ∷ "i18n.CompactNumberFormatSymbols_ak_GH" ∷ [],
    )
    ∷ ("i18n:compactnumberformatsymbols", "i18n.CompactNumberFormatSymbols_am" ∷ [])
    ∷ ("i18n:compactnumberformatsymbolsext", "i18n.CompactNumberFormatSymbols_am_ET" ∷ [])
    ∷ ("i18n:compactnumberformatsymbols", "i18n.CompactNumberFormatSymbols_ar" ∷ [])
    ∷ (
      "i18n:compactnumberformatsymbolsext",
      "i18n.CompactNumberFormatSymbols_ar_001" ∷ "i18n.CompactNumberFormatSymbols_ar_AE"
          ∷ "i18n.CompactNumberFormatSymbols_ar_BH" ∷ "i18n.CompactNumberFormatSymbols_ar_DJ" ∷ [],
    )
    ∷ (
      "i18n:compactnumberformatsymbols",
      "i18n.CompactNumberFormatSymbols_ar_DZ" ∷ "i18n.CompactNumberFormatSymbols_ar_EG" ∷ [],
    )
    ∷ (
      "i18n:compactnumberformatsymbolsext",
      "i18n.CompactNumberFormatSymbols_ar_EH" ∷ "i18n.CompactNumberFormatSymbols_ar_ER"
          ∷ "i18n.CompactNumberFormatSymbols_ar_IL" ∷ "i18n.CompactNumberFormatSymbols_ar_IQ"
          ∷ "i18n.CompactNumberFormatSymbols_ar_JO" ∷ "i18n.CompactNumberFormatSymbols_ar_KM"
          ∷ "i18n.CompactNumberFormatSymbols_ar_KW" ∷ "i18n.CompactNumberFormatSymbols_ar_LB"
          ∷ "i18n.CompactNumberFormatSymbols_ar_LY" ∷ "i18n.CompactNumberFormatSymbols_ar_MA"
          ∷ "i18n.CompactNumberFormatSymbols_ar_MR" ∷ "i18n.CompactNumberFormatSymbols_ar_OM"
          ∷ "i18n.CompactNumberFormatSymbols_ar_PS" ∷ "i18n.CompactNumberFormatSymbols_ar_QA"
          ∷ "i18n.CompactNumberFormatSymbols_ar_SA" ∷ "i18n.CompactNumberFormatSymbols_ar_SD"
          ∷ "i18n.CompactNumberFormatSymbols_ar_SO" ∷ "i18n.CompactNumberFormatSymbols_ar_SS"
          ∷ "i18n.CompactNumberFormatSymbols_ar_SY" ∷ "i18n.CompactNumberFormatSymbols_ar_TD"
          ∷ "i18n.CompactNumberFormatSymbols_ar_TN" ∷ "i18n.CompactNumberFormatSymbols_ar_XB"
          ∷ "i18n.CompactNumberFormatSymbols_ar_YE" ∷ "i18n.CompactNumberFormatSymbols_as"
          ∷ "i18n.CompactNumberFormatSymbols_as_IN" ∷ "i18n.CompactNumberFormatSymbols_asa"
          ∷ "i18n.CompactNumberFormatSymbols_asa_TZ" ∷ "i18n.CompactNumberFormatSymbols_ast"
          ∷ "i18n.CompactNumberFormatSymbols_ast_ES" ∷ [],
    )
    ∷ ("i18n:compactnumberformatsymbols", "i18n.CompactNumberFormatSymbols_az" ∷ [])
    ∷ (
      "i18n:compactnumberformatsymbolsext",
      "i18n.CompactNumberFormatSymbols_az_Cyrl" ∷ "i18n.CompactNumberFormatSymbols_az_Cyrl_AZ"
          ∷ "i18n.CompactNumberFormatSymbols_az_Latn" ∷ "i18n.CompactNumberFormatSymbols_az_Latn_AZ"
          ∷ "i18n.CompactNumberFormatSymbols_bas" ∷ "i18n.CompactNumberFormatSymbols_bas_CM" ∷ [],
    )
    ∷ ("i18n:compactnumberformatsymbols", "i18n.CompactNumberFormatSymbols_be" ∷ [])
    ∷ (
      "i18n:compactnumberformatsymbolsext",
      "i18n.CompactNumberFormatSymbols_be_BY" ∷ "i18n.CompactNumberFormatSymbols_bem"
          ∷ "i18n.CompactNumberFormatSymbols_bem_ZM" ∷ "i18n.CompactNumberFormatSymbols_bez"
          ∷ "i18n.CompactNumberFormatSymbols_bez_TZ" ∷ [],
    )
    ∷ ("i18n:compactnumberformatsymbols", "i18n.CompactNumberFormatSymbols_bg" ∷ [])
    ∷ (
      "i18n:compactnumberformatsymbolsext",
      "i18n.CompactNumberFormatSymbols_bg_BG" ∷ "i18n.CompactNumberFormatSymbols_bm"
          ∷ "i18n.CompactNumberFormatSymbols_bm_ML" ∷ [],
    )
    ∷ ("i18n:compactnumberformatsymbols", "i18n.CompactNumberFormatSymbols_bn" ∷ [])
    ∷ (
      "i18n:compactnumberformatsymbolsext",
      "i18n.CompactNumberFormatSymbols_bn_BD" ∷ "i18n.CompactNumberFormatSymbols_bn_IN"
          ∷ "i18n.CompactNumberFormatSymbols_bo" ∷ "i18n.CompactNumberFormatSymbols_bo_CN"
          ∷ "i18n.CompactNumberFormatSymbols_bo_IN" ∷ [],
    )
    ∷ ("i18n:compactnumberformatsymbols", "i18n.CompactNumberFormatSymbols_br" ∷ [])
    ∷ (
      "i18n:compactnumberformatsymbolsext",
      "i18n.CompactNumberFormatSymbols_br_FR" ∷ "i18n.CompactNumberFormatSymbols_brx"
          ∷ "i18n.CompactNumberFormatSymbols_brx_IN" ∷ [],
    )
    ∷ ("i18n:compactnumberformatsymbols", "i18n.CompactNumberFormatSymbols_bs" ∷ [])
    ∷ [])
