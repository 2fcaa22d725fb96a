-- ===== src/Library/Rows/TwentyFifth.antt =====
-- Lines 3606 to 3755 of gazelle/closure_js/closure_library/closure_library.go.
use rules_closure.Prelude.{List, [], ◌∷◌}
use rules_closure.Library.{Row, goog_rows}

abbrev pub twenty_fifth_rows : List Row
twenty_fifth_rows = goog_rows (
    ("i18n:ordinalrules", "i18n.ordinalRules" ∷ [])
    ∷ ("i18n:pluralrules", "i18n.pluralRules" ∷ [])
    ∷ ("i18n:relativedatetimesymbols", "i18n.relativeDateTimeSymbols" ∷ [])
    ∷ ("i18n:relativedatetimesymbolsext", "i18n.relativeDateTimeSymbolsExt" ∷ [])
    ∷ ("i18n:uchar", "i18n.uChar" ∷ [])
    ∷ ("i18n/uchar:localnamefetcher", "i18n.uChar.LocalNameFetcher" ∷ [])
    ∷ ("i18n/uchar:namefetcher", "i18n.uChar.NameFetcher" ∷ [])
    ∷ ("i18n/uchar:remotenamefetcher", "i18n.uChar.RemoteNameFetcher" ∷ [])
    ∷ ("i18n:ucharnames", "i18n.uCharNames" ∷ [])
    ∷ ("iter:iter", "iter" ∷ "iter.Iterable" ∷ "iter.Iterator" ∷ "iter.StopIteration" ∷ [])
    ∷ ("iter:es6", "iter.es6" ∷ [])
    ∷ ("json:json", "json" ∷ [])
    ∷ ("json:jsonable", "json.Jsonable" ∷ [])
    ∷ ("json:nativejsonprocessor", "json.NativeJsonProcessor" ∷ [])
    ∷ ("json:processor", "json.Processor" ∷ [])
    ∷ ("json:json", "json.Replacer" ∷ "json.Reviver" ∷ "json.Serializer" ∷ [])
    ∷ ("json:hybrid", "json.hybrid" ∷ [])
    ∷ ("labs/collections:iterables", "labs.collections.iterables" ∷ [])
    ∷ (
      "labs/dom:pagevisibilitymonitor",
      "labs.dom.PageVisibilityEvent" ∷ "labs.dom.PageVisibilityMonitor"
          ∷ "labs.dom.PageVisibilityState" ∷ [],
    )
    ∷ ("labs/events:nondisposableeventtarget", "labs.events.NonDisposableEventTarget" ∷ [])
    ∷ ("labs/events:touch", "labs.events.touch" ∷ "labs.events.touch.TouchData" ∷ [])
    ∷ (
      "labs/format:csv",
      "labs.format.csv" ∷ "labs.format.csv.ParseError" ∷ "labs.format.csv.Token" ∷ [],
    )
    ∷ (
      "labs/i18n:listformat",
      "labs.i18n.GenderInfo" ∷ "labs.i18n.GenderInfo.Gender" ∷ "labs.i18n.ListFormat" ∷ [],
    )
    ∷ ("labs/i18n:listsymbols", "labs.i18n.ListFormatSymbols" ∷ [])
    ∷ ("labs/i18n:listsymbolsext", "labs.i18n.ListFormatSymbolsExt" ∷ [])
    ∷ ("labs/i18n:listsymbols", "labs.i18n.ListFormatSymbols_af" ∷ [])
    ∷ (
      "labs/i18n:listsymbolsext",
      "labs.i18n.ListFormatSymbols_af_NA" ∷ "labs.i18n.ListFormatSymbols_af_ZA"
          ∷ "labs.i18n.ListFormatSymbols_agq" ∷ "labs.i18n.ListFormatSymbols_agq_CM"
          ∷ "labs.i18n.ListFormatSymbols_ak" ∷ "labs.i18n.ListFormatSymbols_ak_GH" ∷ [],
    )
    ∷ ("labs/i18n:listsymbols", "labs.i18n.ListFormatSymbols_am" ∷ [])
    ∷ ("labs/i18n:listsymbolsext", "labs.i18n.ListFormatSymbols_am_ET" ∷ [])
    ∷ ("labs/i18n:listsymbols", "labs.i18n.ListFormatSymbols_ar" ∷ [])
    ∷ (
      "labs/i18n:listsymbolsext",
      "labs.i18n.ListFormatSymbols_ar_001" ∷ "labs.i18n.ListFormatSymbols_ar_AE"
          ∷ "labs.i18n.ListFormatSymbols_ar_BH" ∷ "labs.i18n.ListFormatSymbols_ar_DJ" ∷ [],
    )
    ∷ (
      "labs/i18n:listsymbols",
      "labs.i18n.ListFormatSymbols_ar_DZ" ∷ "labs.i18n.ListFormatSymbols_ar_EG" ∷ [],
    )
    ∷ (
      "labs/i18n:listsymbolsext",
      "labs.i18n.ListFormatSymbols_ar_EH" ∷ "labs.i18n.ListFormatSymbols_ar_ER"
          ∷ "labs.i18n.ListFormatSymbols_ar_IL" ∷ "labs.i18n.ListFormatSymbols_ar_IQ"
          ∷ "labs.i18n.ListFormatSymbols_ar_JO" ∷ "labs.i18n.ListFormatSymbols_ar_KM"
          ∷ "labs.i18n.ListFormatSymbols_ar_KW" ∷ "labs.i18n.ListFormatSymbols_ar_LB"
          ∷ "labs.i18n.ListFormatSymbols_ar_LY" ∷ "labs.i18n.ListFormatSymbols_ar_MA"
          ∷ "labs.i18n.ListFormatSymbols_ar_MR" ∷ "labs.i18n.ListFormatSymbols_ar_OM"
          ∷ "labs.i18n.ListFormatSymbols_ar_PS" ∷ "labs.i18n.ListFormatSymbols_ar_QA"
          ∷ "labs.i18n.ListFormatSymbols_ar_SA" ∷ "labs.i18n.ListFormatSymbols_ar_SD"
          ∷ "labs.i18n.ListFormatSymbols_ar_SO" ∷ "labs.i18n.ListFormatSymbols_ar_SS"
          ∷ "labs.i18n.ListFormatSymbols_ar_SY" ∷ "labs.i18n.ListFormatSymbols_ar_TD"
          ∷ "labs.i18n.ListFormatSymbols_ar_TN" ∷ "labs.i18n.ListFormatSymbols_ar_XB"
          ∷ "labs.i18n.ListFormatSymbols_ar_YE" ∷ "labs.i18n.ListFormatSymbols_as"
          ∷ "labs.i18n.ListFormatSymbols_as_IN" ∷ "labs.i18n.ListFormatSymbols_asa"
          ∷ "labs.i18n.ListFormatSymbols_asa_TZ" ∷ "labs.i18n.ListFormatSymbols_ast"
          ∷ "labs.i18n.ListFormatSymbols_ast_ES" ∷ [],
    )
    ∷ ("labs/i18n:listsymbols", "labs.i18n.ListFormatSymbols_az" ∷ [])
    ∷ (
      "labs/i18n:listsymbolsext",
      "labs.i18n.ListFormatSymbols_az_Cyrl" ∷ "labs.i18n.ListFormatSymbols_az_Cyrl_AZ"
          ∷ "labs.i18n.ListFormatSymbols_az_Latn" ∷ "labs.i18n.ListFormatSymbols_az_Latn_AZ"
          ∷ "labs.i18n.ListFormatSymbols_bas" ∷ "labs.i18n.ListFormatSymbols_bas_CM" ∷ [],
    )
    ∷ ("labs/i18n:listsymbols", "labs.i18n.ListFormatSymbols_be" ∷ [])
    ∷ (
      "labs/i18n:listsymbolsext",
      "labs.i18n.ListFormatSymbols_be_BY" ∷ "labs.i18n.ListFormatSymbols_bem"
          ∷ "labs.i18n.ListFormatSymbols_bem_ZM" ∷ "labs.i18n.ListFormatSymbols_bez"
          ∷ "labs.i18n.ListFormatSymbols_bez_TZ" ∷ [],
    )
    ∷ ("labs/i18n:listsymbols", "labs.i18n.ListFormatSymbols_bg" ∷ [])
    ∷ (
      "labs/i18n:listsymbolsext",
      "labs.i18n.ListFormatSymbols_bg_BG" ∷ "labs.i18n.ListFormatSymbols_bm"
          ∷ "labs.i18n.ListFormatSymbols_bm_ML" ∷ [],
    )
    ∷ ("labs/i18n:listsymbols", "labs.i18n.ListFormatSymbols_bn" ∷ [])
    ∷ (
      "labs/i18n:listsymbolsext",
      "labs.i18n.ListFormatSymbols_bn_BD" ∷ "labs.i18n.ListFormatSymbols_bn_IN"
          ∷ "labs.i18n.ListFormatSymbols_bo" ∷ "labs.i18n.ListFormatSymbols_bo_CN"
          ∷ "labs.i18n.ListFormatSymbols_bo_IN" ∷ [],
    )
    ∷ ("labs/i18n:listsymbols", "labs.i18n.ListFormatSymbols_br" ∷ [])
    ∷ (
      "labs/i18n:listsymbolsext",
      "labs.i18n.ListFormatSymbols_br_FR" ∷ "labs.i18n.ListFormatSymbols_brx"
          ∷ "labs.i18n.ListFormatSymbols_brx_IN" ∷ [],
    )
    ∷ ("labs/i18n:listsymbols", "labs.i18n.ListFormatSymbols_bs" ∷ [])
    ∷ (
      "labs/i18n:listsymbolsext",
      "labs.i18n.ListFormatSymbols_bs_Cyrl" ∷ "labs.i18n.ListFormatSymbols_bs_Cyrl_BA"
          ∷ "labs.i18n.ListFormatSymbols_bs_Latn" ∷ "labs.i18n.ListFormatSymbols_bs_Latn_BA" ∷ [],
    )
    ∷ ("labs/i18n:listsymbols", "labs.i18n.ListFormatSymbols_ca" ∷ [])
    ∷ (
      "labs/i18n:listsymbolsext",
      "labs.i18n.ListFormatSymbols_ca_AD" ∷ "labs.i18n.ListFormatSymbols_ca_ES"
          ∷ "labs.i18n.ListFormatSymbols_ca_FR" ∷ "labs.i18n.ListFormatSymbols_ca_IT"
          ∷ "labs.i18n.ListFormatSymbols_ccp" ∷ "labs.i18n.ListFormatSymbols_ccp_BD"
          ∷ "labs.i18n.ListFormatSymbols_ccp_IN" ∷ "labs.i18n.ListFormatSymbols_ce"
          ∷ "labs.i18n.ListFormatSymbols_ce_RU" ∷ "labs.i18n.ListFormatSymbols_cgg"
          ∷ "labs.i18n.ListFormatSymbols_cgg_UG" ∷ [],
    )
    ∷ ("labs/i18n:listsymbols", "labs.i18n.ListFormatSymbols_chr" ∷ [])
    ∷ (
      "labs/i18n:listsymbolsext",
      "labs.i18n.ListFormatSymbols_chr_US" ∷ "labs.i18n.ListFormatSymbols_ckb"
          ∷ "labs.i18n.ListFormatSymbols_ckb_IQ" ∷ "labs.i18n.ListFormatSymbols_ckb_IR" ∷ [],
    )
    ∷ ("labs/i18n:listsymbols", "labs.i18n.ListFormatSymbols_cs" ∷ [])
    ∷ ("labs/i18n:listsymbolsext", "labs.i18n.ListFormatSymbols_cs_CZ" ∷ [])
    ∷ ("labs/i18n:listsymbols", "labs.i18n.ListFormatSymbols_cy" ∷ [])
    ∷ ("labs/i18n:listsymbolsext", "labs.i18n.ListFormatSymbols_cy_GB" ∷ [])
    ∷ ("labs/i18n:listsymbols", "labs.i18n.ListFormatSymbols_da" ∷ [])
    ∷ (
      "labs/i18n:listsymbolsext",
      "labs.i18n.ListFormatSymbols_da_DK" ∷ "labs.i18n.ListFormatSymbols_da_GL"
          ∷ "labs.i18n.ListFormatSymbols_dav" ∷ "labs.i18n.ListFormatSymbols_dav_KE" ∷ [],
    )
    ∷ (
      "labs/i18n:listsymbols",
      "labs.i18n.ListFormatSymbols_de" ∷ "labs.i18n.ListFormatSymbols_de_AT" ∷ [],
    )
    ∷ ("labs/i18n:listsymbolsext", "labs.i18n.ListFormatSymbols_de_BE" ∷ [])
    ∷ ("labs/i18n:listsymbols", "labs.i18n.ListFormatSymbols_de_CH" ∷ [])
    ∷ (
      "labs/i18n:listsymbolsext",
      "labs.i18n.ListFormatSymbols_de_DE" ∷ "labs.i18n.ListFormatSymbols_de_IT"
          ∷ "labs.i18n.ListFormatSymbols_de_LI" ∷ "labs.i18n.ListFormatSymbols_de_LU"
          ∷ "labs.i18n.ListFormatSymbols_dje" ∷ "labs.i18n.ListFormatSymbols_dje_NE" ∷ [],
    )
    ∷ [])
