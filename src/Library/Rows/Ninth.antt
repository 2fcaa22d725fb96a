-- ===== src/Library/Rows/Ninth.antt =====
-- Lines 1206 to 1355 of gazelle/closure_js/closure_library/closure_library.go.
use rules_closure.Prelude.{List, [], ◌∷◌}
use rules_closure.Library.{Row, goog_rows}

abbrev pub ninth_rows : List Row
ninth_rows = goog_rows (
    (
      "i18n:compactnumberformatsymbolsext",
      "i18n.CompactNumberFormatSymbols_to" ∷ "i18n.CompactNumberFormatSymbols_to_TO" ∷ [],
    )
    ∷ ("i18n:compactnumberformatsymbols", "i18n.CompactNumberFormatSymbols_tr" ∷ [])
    ∷ (
      "i18n:compactnumberformatsymbolsext",
      "i18n.CompactNumberFormatSymbols_tr_CY" ∷ "i18n.CompactNumberFormatSymbols_tr_TR"
          ∷ "i18n.CompactNumberFormatSymbols_tt" ∷ "i18n.CompactNumberFormatSymbols_tt_RU"
          ∷ "i18n.CompactNumberFormatSymbols_twq" ∷ "i18n.CompactNumberFormatSymbols_twq_NE"
          ∷ "i18n.CompactNumberFormatSymbols_tzm" ∷ "i18n.CompactNumberFormatSymbols_tzm_MA"
          ∷ "i18n.CompactNumberFormatSymbols_ug" ∷ "i18n.CompactNumberFormatSymbols_ug_CN" ∷ [],
    )
    ∷ ("i18n:compactnumberformatsymbols", "i18n.CompactNumberFormatSymbols_uk" ∷ [])
    ∷ ("i18n:compactnumberformatsymbolsext", "i18n.CompactNumberFormatSymbols_uk_UA" ∷ [])
    ∷ ("i18n:compactnumberformatsymbols", "i18n.CompactNumberFormatSymbols_ur" ∷ [])
    ∷ (
      "i18n:compactnumberformatsymbolsext",
      "i18n.CompactNumberFormatSymbols_ur_IN" ∷ "i18n.CompactNumberFormatSymbols_ur_PK" ∷ [],
    )
    ∷ ("i18n:compactnumberformatsymbols", "i18n.CompactNumberFormatSymbols_uz" ∷ [])
    ∷ (
      "i18n:compactnumberformatsymbolsext",
      "i18n.CompactNumberFormatSymbols_uz_Arab" ∷ "i18n.CompactNumberFormatSymbols_uz_Arab_AF"
          ∷ "i18n.CompactNumberFormatSymbols_uz_Cyrl" ∷ "i18n.CompactNumberFormatSymbols_uz_Cyrl_UZ"
          ∷ "i18n.CompactNumberFormatSymbols_uz_Latn" ∷ "i18n.CompactNumberFormatSymbols_uz_Latn_UZ"
          ∷ "i18n.CompactNumberFormatSymbols_vai" ∷ "i18n.CompactNumberFormatSymbols_vai_Latn"
          ∷ "i18n.CompactNumberFormatSymbols_vai_Latn_LR"
          ∷ "i18n.CompactNumberFormatSymbols_vai_Vaii"
          ∷ "i18n.CompactNumberFormatSymbols_vai_Vaii_LR" ∷ [],
    )
    ∷ ("i18n:compactnumberformatsymbols", "i18n.CompactNumberFormatSymbols_vi" ∷ [])
    ∷ (
      "i18n:compactnumberformatsymbolsext",
      "i18n.CompactNumberFormatSymbols_vi_VN" ∷ "i18n.CompactNumberFormatSymbols_vun"
          ∷ "i18n.CompactNumberFormatSymbols_vun_TZ" ∷ "i18n.CompactNumberFormatSymbols_wae"
          ∷ "i18n.CompactNumberFormatSymbols_wae_CH" ∷ "i18n.CompactNumberFormatSymbols_wo"
          ∷ "i18n.CompactNumberFormatSymbols_wo_SN" ∷ "i18n.CompactNumberFormatSymbols_xh"
          ∷ "i18n.CompactNumberFormatSymbols_xh_ZA" ∷ "i18n.CompactNumberFormatSymbols_xog"
          ∷ "i18n.CompactNumberFormatSymbols_xog_UG" ∷ "i18n.CompactNumberFormatSymbols_yav"
          ∷ "i18n.CompactNumberFormatSymbols_yav_CM" ∷ "i18n.CompactNumberFormatSymbols_yi"
          ∷ "i18n.CompactNumberFormatSymbols_yi_001" ∷ "i18n.CompactNumberFormatSymbols_yo"
          ∷ "i18n.CompactNumberFormatSymbols_yo_BJ" ∷ "i18n.CompactNumberFormatSymbols_yo_NG"
          ∷ "i18n.CompactNumberFormatSymbols_yue" ∷ "i18n.CompactNumberFormatSymbols_yue_Hans"
          ∷ "i18n.CompactNumberFormatSymbols_yue_Hans_CN"
          ∷ "i18n.CompactNumberFormatSymbols_yue_Hant"
          ∷ "i18n.CompactNumberFormatSymbols_yue_Hant_HK" ∷ "i18n.CompactNumberFormatSymbols_zgh"
          ∷ "i18n.CompactNumberFormatSymbols_zgh_MA" ∷ [],
    )
    ∷ (
      "i18n:compactnumberformatsymbols",
      "i18n.CompactNumberFormatSymbols_zh" ∷ "i18n.CompactNumberFormatSymbols_zh_CN"
          ∷ "i18n.CompactNumberFormatSymbols_zh_HK" ∷ [],
    )
    ∷ (
      "i18n:compactnumberformatsymbolsext",
      "i18n.CompactNumberFormatSymbols_zh_Hans" ∷ "i18n.CompactNumberFormatSymbols_zh_Hans_CN"
          ∷ "i18n.CompactNumberFormatSymbols_zh_Hans_HK"
          ∷ "i18n.CompactNumberFormatSymbols_zh_Hans_MO"
          ∷ "i18n.CompactNumberFormatSymbols_zh_Hans_SG" ∷ "i18n.CompactNumberFormatSymbols_zh_Hant"
          ∷ "i18n.CompactNumberFormatSymbols_zh_Hant_HK"
          ∷ "i18n.CompactNumberFormatSymbols_zh_Hant_MO"
          ∷ "i18n.CompactNumberFormatSymbols_zh_Hant_TW" ∷ [],
    )
    ∷ (
      "i18n:compactnumberformatsymbols",
      "i18n.CompactNumberFormatSymbols_zh_TW" ∷ "i18n.CompactNumberFormatSymbols_zu" ∷ [],
    )
    ∷ ("i18n:compactnumberformatsymbolsext", "i18n.CompactNumberFormatSymbols_zu_ZA" ∷ [])
    ∷ ("i18n:dateintervalformat", "i18n.DateIntervalFormat" ∷ [])
    ∷ ("i18n:datetimeformat", "i18n.DateTimeFormat" ∷ "i18n.DateTimeFormat.Format" ∷ [])
    ∷ ("i18n:datetimeparse", "i18n.DateTimeParse" ∷ [])
    ∷ ("i18n:datetimepatterns", "i18n.DateTimePatterns" ∷ [])
    ∷ ("i18n:datetimepatternsext", "i18n.DateTimePatternsExt" ∷ [])
    ∷ ("i18n:datetimepatterns", "i18n.DateTimePatterns_af" ∷ [])
    ∷ (
      "i18n:datetimepatternsext",
      "i18n.DateTimePatterns_af_NA" ∷ "i18n.DateTimePatterns_af_ZA" ∷ "i18n.DateTimePatterns_agq"
          ∷ "i18n.DateTimePatterns_agq_CM" ∷ "i18n.DateTimePatterns_ak"
          ∷ "i18n.DateTimePatterns_ak_GH" ∷ [],
    )
    ∷ ("i18n:datetimepatterns", "i18n.DateTimePatterns_am" ∷ [])
    ∷ ("i18n:datetimepatternsext", "i18n.DateTimePatterns_am_ET" ∷ [])
    ∷ ("i18n:datetimepatterns", "i18n.DateTimePatterns_ar" ∷ [])
    ∷ (
      "i18n:datetimepatternsext",
      "i18n.DateTimePatterns_ar_001" ∷ "i18n.DateTimePatterns_ar_AE" ∷ "i18n.DateTimePatterns_ar_BH"
          ∷ "i18n.DateTimePatterns_ar_DJ" ∷ [],
    )
    ∷ ("i18n:datetimepatterns", "i18n.DateTimePatterns_ar_DZ" ∷ "i18n.DateTimePatterns_ar_EG" ∷ [])
    ∷ (
      "i18n:datetimepatternsext",
      "i18n.DateTimePatterns_ar_EH" ∷ "i18n.DateTimePatterns_ar_ER" ∷ "i18n.DateTimePatterns_ar_IL"
          ∷ "i18n.DateTimePatterns_ar_IQ" ∷ "i18n.DateTimePatterns_ar_JO"
          ∷ "i18n.DateTimePatterns_ar_KM" ∷ "i18n.DateTimePatterns_ar_KW"
          ∷ "i18n.DateTimePatterns_ar_LB" ∷ "i18n.DateTimePatterns_ar_LY"
          ∷ "i18n.DateTimePatterns_ar_MA" ∷ "i18n.DateTimePatterns_ar_MR"
          ∷ "i18n.DateTimePatterns_ar_OM" ∷ "i18n.DateTimePatterns_ar_PS"
          ∷ "i18n.DateTimePatterns_ar_QA" ∷ "i18n.DateTimePatterns_ar_SA"
          ∷ "i18n.DateTimePatterns_ar_SD" ∷ "i18n.DateTimePatterns_ar_SO"
          ∷ "i18n.DateTimePatterns_ar_SS" ∷ "i18n.DateTimePatterns_ar_SY"
          ∷ "i18n.DateTimePatterns_ar_TD" ∷ "i18n.DateTimePatterns_ar_TN"
          ∷ "i18n.DateTimePatterns_ar_XB" ∷ "i18n.DateTimePatterns_ar_YE"
          ∷ "i18n.DateTimePatterns_as" ∷ "i18n.DateTimePatterns_as_IN" ∷ "i18n.DateTimePatterns_asa"
          ∷ "i18n.DateTimePatterns_asa_TZ" ∷ "i18n.DateTimePatterns_ast"
          ∷ "i18n.DateTimePatterns_ast_ES" ∷ [],
    )
    ∷ ("i18n:datetimepatterns", "i18n.DateTimePatterns_az" ∷ [])
    ∷ (
      "i18n:datetimepatternsext",
      "i18n.DateTimePatterns_az_Cyrl" ∷ "i18n.DateTimePatterns_az_Cyrl_AZ"
          ∷ "i18n.DateTimePatterns_az_Latn" ∷ "i18n.DateTimePatterns_az_Latn_AZ"
          ∷ "i18n.DateTimePatterns_bas" ∷ "i18n.DateTimePatterns_bas_CM" ∷ [],
    )
    ∷ ("i18n:datetimepatterns", "i18n.DateTimePatterns_be" ∷ [])
    ∷ (
      "i18n:datetimepatternsext",
      "i18n.DateTimePatterns_be_BY" ∷ "i18n.DateTimePatterns_bem" ∷ "i18n.DateTimePatterns_bem_ZM"
          ∷ "i18n.DateTimePatterns_bez" ∷ "i18n.DateTimePatterns_bez_TZ" ∷ [],
    )
    ∷ ("i18n:datetimepatterns", "i18n.DateTimePatterns_bg" ∷ [])
    ∷ (
      "i18n:datetimepatternsext",
      "i18n.DateTimePatterns_bg_BG" ∷ "i18n.DateTimePatterns_bm" ∷ "i18n.DateTimePatterns_bm_ML"
          ∷ [],
    )
    ∷ ("i18n:datetimepatterns", "i18n.DateTimePatterns_bn" ∷ [])
    ∷ (
      "i18n:datetimepatternsext",
      "i18n.DateTimePatterns_bn_BD" ∷ "i18n.DateTimePatterns_bn_IN" ∷ "i18n.DateTimePatterns_bo"
          ∷ "i18n.DateTimePatterns_bo_CN" ∷ "i18n.DateTimePatterns_bo_IN" ∷ [],
    )
    ∷ ("i18n:datetimepatterns", "i18n.DateTimePatterns_br" ∷ [])
    ∷ (
      "i18n:datetimepatternsext",
      "i18n.DateTimePatterns_br_FR" ∷ "i18n.DateTimePatterns_brx" ∷ "i18n.DateTimePatterns_brx_IN"
          ∷ [],
    )
    ∷ ("i18n:datetimepatterns", "i18n.DateTimePatterns_bs" ∷ [])
    ∷ [])
