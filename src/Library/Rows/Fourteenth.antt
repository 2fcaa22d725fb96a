-- ===== src/Library/Rows/Fourteenth.antt =====
-- Lines 1956 to 2105 of gazelle/closure_js/closure_library/closure_library.go.
use rules_closure.Prelude.{List, [], ◌∷◌}
use rules_closure.Library.{Row, goog_rows}

abbrev pub fourteenth_rows : List Row
fourteenth_rows = goog_rows (
    ("i18n:datetimepatternsext", "i18n.DateTimePatterns_to" ∷ "i18n.DateTimePatterns_to_TO" ∷ [])
    ∷ ("i18n:datetimepatterns", "i18n.DateTimePatterns_tr" ∷ [])
    ∷ (
      "i18n:datetimepatternsext",
      "i18n.DateTimePatterns_tr_CY" ∷ "i18n.DateTimePatterns_tr_TR" ∷ "i18n.DateTimePatterns_tt"
          ∷ "i18n.DateTimePatterns_tt_RU" ∷ "i18n.DateTimePatterns_twq"
          ∷ "i18n.DateTimePatterns_twq_NE" ∷ "i18n.DateTimePatterns_tzm"
          ∷ "i18n.DateTimePatterns_tzm_MA" ∷ "i18n.DateTimePatterns_ug"
          ∷ "i18n.DateTimePatterns_ug_CN" ∷ [],
    )
    ∷ ("i18n:datetimepatterns", "i18n.DateTimePatterns_uk" ∷ [])
    ∷ ("i18n:datetimepatternsext", "i18n.DateTimePatterns_uk_UA" ∷ [])
    ∷ ("i18n:datetimepatterns", "i18n.DateTimePatterns_ur" ∷ [])
    ∷ (
      "i18n:datetimepatternsext",
      "i18n.DateTimePatterns_ur_IN" ∷ "i18n.DateTimePatterns_ur_PK" ∷ [],
    )
    ∷ ("i18n:datetimepatterns", "i18n.DateTimePatterns_uz" ∷ [])
    ∷ (
      "i18n:datetimepatternsext",
      "i18n.DateTimePatterns_uz_Arab" ∷ "i18n.DateTimePatterns_uz_Arab_AF"
          ∷ "i18n.DateTimePatterns_uz_Cyrl" ∷ "i18n.DateTimePatterns_uz_Cyrl_UZ"
          ∷ "i18n.DateTimePatterns_uz_Latn" ∷ "i18n.DateTimePatterns_uz_Latn_UZ"
          ∷ "i18n.DateTimePatterns_vai" ∷ "i18n.DateTimePatterns_vai_Latn"
          ∷ "i18n.DateTimePatterns_vai_Latn_LR" ∷ "i18n.DateTimePatterns_vai_Vaii"
          ∷ "i18n.DateTimePatterns_vai_Vaii_LR" ∷ [],
    )
    ∷ ("i18n:datetimepatterns", "i18n.DateTimePatterns_vi" ∷ [])
    ∷ (
      "i18n:datetimepatternsext",
      "i18n.DateTimePatterns_vi_VN" ∷ "i18n.DateTimePatterns_vun" ∷ "i18n.DateTimePatterns_vun_TZ"
          ∷ "i18n.DateTimePatterns_wae" ∷ "i18n.DateTimePatterns_wae_CH"
          ∷ "i18n.DateTimePatterns_wo" ∷ "i18n.DateTimePatterns_wo_SN" ∷ "i18n.DateTimePatterns_xh"
          ∷ "i18n.DateTimePatterns_xh_ZA" ∷ "i18n.DateTimePatterns_xog"
          ∷ "i18n.DateTimePatterns_xog_UG" ∷ "i18n.DateTimePatterns_yav"
          ∷ "i18n.DateTimePatterns_yav_CM" ∷ "i18n.DateTimePatterns_yi"
          ∷ "i18n.DateTimePatterns_yi_001" ∷ "i18n.DateTimePatterns_yo"
          ∷ "i18n.DateTimePatterns_yo_BJ" ∷ "i18n.DateTimePatterns_yo_NG"
          ∷ "i18n.DateTimePatterns_yue" ∷ "i18n.DateTimePatterns_yue_Hans"
          ∷ "i18n.DateTimePatterns_yue_Hans_CN" ∷ "i18n.DateTimePatterns_yue_Hant"
          ∷ "i18n.DateTimePatterns_yue_Hant_HK" ∷ "i18n.DateTimePatterns_zgh"
          ∷ "i18n.DateTimePatterns_zgh_MA" ∷ [],
    )
    ∷ (
      "i18n:datetimepatterns",
      "i18n.DateTimePatterns_zh" ∷ "i18n.DateTimePatterns_zh_CN" ∷ "i18n.DateTimePatterns_zh_HK"
          ∷ [],
    )
    ∷ (
      "i18n:datetimepatternsext",
      "i18n.DateTimePatterns_zh_Hans" ∷ "i18n.DateTimePatterns_zh_Hans_CN"
          ∷ "i18n.DateTimePatterns_zh_Hans_HK" ∷ "i18n.DateTimePatterns_zh_Hans_MO"
          ∷ "i18n.DateTimePatterns_zh_Hans_SG" ∷ "i18n.DateTimePatterns_zh_Hant"
          ∷ "i18n.DateTimePatterns_zh_Hant_HK" ∷ "i18n.DateTimePatterns_zh_Hant_MO"
          ∷ "i18n.DateTimePatterns_zh_Hant_TW" ∷ [],
    )
    ∷ ("i18n:datetimepatterns", "i18n.DateTimePatterns_zh_TW" ∷ "i18n.DateTimePatterns_zu" ∷ [])
    ∷ ("i18n:datetimepatternsext", "i18n.DateTimePatterns_zu_ZA" ∷ [])
    ∷ ("i18n:datetimesymbols", "i18n.DateTimeSymbols" ∷ [])
    ∷ ("i18n:datetimesymbolsext", "i18n.DateTimeSymbolsExt" ∷ [])
    ∷ ("i18n:datetimesymbols", "i18n.DateTimeSymbolsType" ∷ "i18n.DateTimeSymbols_af" ∷ [])
    ∷ (
      "i18n:datetimesymbolsext",
      "i18n.DateTimeSymbols_af_NA" ∷ "i18n.DateTimeSymbols_af_ZA" ∷ "i18n.DateTimeSymbols_agq"
          ∷ "i18n.DateTimeSymbols_agq_CM" ∷ "i18n.DateTimeSymbols_ak" ∷ "i18n.DateTimeSymbols_ak_GH"
          ∷ [],
    )
    ∷ ("i18n:datetimesymbols", "i18n.DateTimeSymbols_am" ∷ [])
    ∷ ("i18n:datetimesymbolsext", "i18n.DateTimeSymbols_am_ET" ∷ [])
    ∷ ("i18n:datetimesymbols", "i18n.DateTimeSymbols_ar" ∷ [])
    ∷ (
      "i18n:datetimesymbolsext",
      "i18n.DateTimeSymbols_ar_001" ∷ "i18n.DateTimeSymbols_ar_AE" ∷ "i18n.DateTimeSymbols_ar_BH"
          ∷ "i18n.DateTimeSymbols_ar_DJ" ∷ [],
    )
    ∷ ("i18n:datetimesymbols", "i18n.DateTimeSymbols_ar_DZ" ∷ "i18n.DateTimeSymbols_ar_EG" ∷ [])
    ∷ (
      "i18n:datetimesymbolsext",
      "i18n.DateTimeSymbols_ar_EH" ∷ "i18n.DateTimeSymbols_ar_ER" ∷ "i18n.DateTimeSymbols_ar_IL"
          ∷ "i18n.DateTimeSymbols_ar_IQ" ∷ "i18n.DateTimeSymbols_ar_JO"
          ∷ "i18n.DateTimeSymbols_ar_KM" ∷ "i18n.DateTimeSymbols_ar_KW"
          ∷ "i18n.DateTimeSymbols_ar_LB" ∷ "i18n.DateTimeSymbols_ar_LY"
          ∷ "i18n.DateTimeSymbols_ar_MA" ∷ "i18n.DateTimeSymbols_ar_MR"
          ∷ "i18n.DateTimeSymbols_ar_OM" ∷ "i18n.DateTimeSymbols_ar_PS"
          ∷ "i18n.DateTimeSymbols_ar_QA" ∷ "i18n.DateTimeSymbols_ar_SA"
          ∷ "i18n.DateTimeSymbols_ar_SD" ∷ "i18n.DateTimeSymbols_ar_SO"
          ∷ "i18n.DateTimeSymbols_ar_SS" ∷ "i18n.DateTimeSymbols_ar_SY"
          ∷ "i18n.DateTimeSymbols_ar_TD" ∷ "i18n.DateTimeSymbols_ar_TN"
          ∷ "i18n.DateTimeSymbols_ar_XB" ∷ "i18n.DateTimeSymbols_ar_YE" ∷ "i18n.DateTimeSymbols_as"
          ∷ "i18n.DateTimeSymbols_as_IN" ∷ "i18n.DateTimeSymbols_asa"
          ∷ "i18n.DateTimeSymbols_asa_TZ" ∷ "i18n.DateTimeSymbols_ast"
          ∷ "i18n.DateTimeSymbols_ast_ES" ∷ [],
    )
    ∷ ("i18n:datetimesymbols", "i18n.DateTimeSymbols_az" ∷ [])
    ∷ (
      "i18n:datetimesymbolsext",
      "i18n.DateTimeSymbols_az_Cyrl" ∷ "i18n.DateTimeSymbols_az_Cyrl_AZ"
          ∷ "i18n.DateTimeSymbols_az_Latn" ∷ "i18n.DateTimeSymbols_az_Latn_AZ"
          ∷ "i18n.DateTimeSymbols_bas" ∷ "i18n.DateTimeSymbols_bas_CM" ∷ [],
    )
    ∷ ("i18n:datetimesymbols", "i18n.DateTimeSymbols_be" ∷ [])
    ∷ (
      "i18n:datetimesymbolsext",
      "i18n.DateTimeSymbols_be_BY" ∷ "i18n.DateTimeSymbols_bem" ∷ "i18n.DateTimeSymbols_bem_ZM"
          ∷ "i18n.DateTimeSymbols_bez" ∷ "i18n.DateTimeSymbols_bez_TZ" ∷ [],
    )
    ∷ ("i18n:datetimesymbols", "i18n.DateTimeSymbols_bg" ∷ [])
    ∷ (
      "i18n:datetimesymbolsext",
      "i18n.DateTimeSymbols_bg_BG" ∷ "i18n.DateTimeSymbols_bm" ∷ "i18n.DateTimeSymbols_bm_ML" ∷ [],
    )
    ∷ ("i18n:datetimesymbols", "i18n.DateTimeSymbols_bn" ∷ [])
    ∷ (
      "i18n:datetimesymbolsext",
      "i18n.DateTimeSymbols_bn_BD" ∷ "i18n.DateTimeSymbols_bn_IN" ∷ "i18n.DateTimeSymbols_bo"
          ∷ "i18n.DateTimeSymbols_bo_CN" ∷ "i18n.DateTimeSymbols_bo_IN" ∷ [],
    )
    ∷ ("i18n:datetimesymbols", "i18n.DateTimeSymbols_br" ∷ [])
    ∷ (
      "i18n:datetimesymbolsext",
      "i18n.DateTimeSymbols_br_FR" ∷ "i18n.DateTimeSymbols_brx" ∷ "i18n.DateTimeSymbols_brx_IN"
          ∷ [],
    )
    ∷ ("i18n:datetimesymbols", "i18n.DateTimeSymbols_bs" ∷ [])
    ∷ (
      "i18n:datetimesymbolsext",
      "i18n.DateTimeSymbols_bs_Cyrl" ∷ "i18n.DateTimeSymbols_bs_Cyrl_BA"
          ∷ "i18n.DateTimeSymbols_bs_Latn" ∷ [],
    )
    ∷ [])
