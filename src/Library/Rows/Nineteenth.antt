-- ===== src/Library/Rows/Nineteenth.antt =====
-- Lines 2706 to 2855 of gazelle/closure_js/closure_library/closure_library.go.
use rules_closure.Prelude.{List, [], ◌∷◌}
use rules_closure.Library.{Row, goog_rows}

abbrev pub nineteenth_rows : List Row
nineteenth_rows = goog_rows (
    ("i18n:datetimesymbols", "i18n.DateTimeSymbols_tr" ∷ [])
    ∷ (
      "i18n:datetimesymbolsext",
      "i18n.DateTimeSymbols_tr_CY" ∷ "i18n.DateTimeSymbols_tr_TR" ∷ "i18n.DateTimeSymbols_tt"
          ∷ "i18n.DateTimeSymbols_tt_RU" ∷ "i18n.DateTimeSymbols_twq"
          ∷ "i18n.DateTimeSymbols_twq_NE" ∷ "i18n.DateTimeSymbols_tzm"
          ∷ "i18n.DateTimeSymbols_tzm_MA" ∷ "i18n.DateTimeSymbols_ug" ∷ "i18n.DateTimeSymbols_ug_CN"
          ∷ [],
    )
    ∷ ("i18n:datetimesymbols", "i18n.DateTimeSymbols_uk" ∷ [])
    ∷ ("i18n:datetimesymbolsext", "i18n.DateTimeSymbols_uk_UA" ∷ [])
    ∷ ("i18n:datetimesymbols", "i18n.DateTimeSymbols_ur" ∷ [])
    ∷ ("i18n:datetimesymbolsext", "i18n.DateTimeSymbols_ur_IN" ∷ "i18n.DateTimeSymbols_ur_PK" ∷ [])
    ∷ ("i18n:datetimesymbols", "i18n.DateTimeSymbols_uz" ∷ [])
    ∷ (
      "i18n:datetimesymbolsext",
      "i18n.DateTimeSymbols_uz_Arab" ∷ "i18n.DateTimeSymbols_uz_Arab_AF"
          ∷ "i18n.DateTimeSymbols_uz_Cyrl" ∷ "i18n.DateTimeSymbols_uz_Cyrl_UZ"
          ∷ "i18n.DateTimeSymbols_uz_Latn" ∷ "i18n.DateTimeSymbols_uz_Latn_UZ"
          ∷ "i18n.DateTimeSymbols_vai" ∷ "i18n.DateTimeSymbols_vai_Latn"
          ∷ "i18n.DateTimeSymbols_vai_Latn_LR" ∷ "i18n.DateTimeSymbols_vai_Vaii"
          ∷ "i18n.DateTimeSymbols_vai_Vaii_LR" ∷ [],
    )
    ∷ ("i18n:datetimesymbols", "i18n.DateTimeSymbols_vi" ∷ [])
    ∷ (
      "i18n:datetimesymbolsext",
      "i18n.DateTimeSymbols_vi_VN" ∷ "i18n.DateTimeSymbols_vun" ∷ "i18n.DateTimeSymbols_vun_TZ"
          ∷ "i18n.DateTimeSymbols_wae" ∷ "i18n.DateTimeSymbols_wae_CH" ∷ "i18n.DateTimeSymbols_wo"
          ∷ "i18n.DateTimeSymbols_wo_SN" ∷ "i18n.DateTimeSymbols_xh" ∷ "i18n.DateTimeSymbols_xh_ZA"
          ∷ "i18n.DateTimeSymbols_xog" ∷ "i18n.DateTimeSymbols_xog_UG" ∷ "i18n.DateTimeSymbols_yav"
          ∷ "i18n.DateTimeSymbols_yav_CM" ∷ "i18n.DateTimeSymbols_yi"
          ∷ "i18n.DateTimeSymbols_yi_001" ∷ "i18n.DateTimeSymbols_yo" ∷ "i18n.DateTimeSymbols_yo_BJ"
          ∷ "i18n.DateTimeSymbols_yo_NG" ∷ "i18n.DateTimeSymbols_yue"
          ∷ "i18n.DateTimeSymbols_yue_Hans" ∷ "i18n.DateTimeSymbols_yue_Hans_CN"
          ∷ "i18n.DateTimeSymbols_yue_Hant" ∷ "i18n.DateTimeSymbols_yue_Hant_HK"
          ∷ "i18n.DateTimeSymbols_zgh" ∷ "i18n.DateTimeSymbols_zgh_MA" ∷ [],
    )
    ∷ (
      "i18n:datetimesymbols",
      "i18n.DateTimeSymbols_zh" ∷ "i18n.DateTimeSymbols_zh_CN" ∷ "i18n.DateTimeSymbols_zh_HK" ∷ [],
    )
    ∷ (
      "i18n:datetimesymbolsext",
      "i18n.DateTimeSymbols_zh_Hans" ∷ "i18n.DateTimeSymbols_zh_Hans_CN"
          ∷ "i18n.DateTimeSymbols_zh_Hans_HK" ∷ "i18n.DateTimeSymbols_zh_Hans_MO"
          ∷ "i18n.DateTimeSymbols_zh_Hans_SG" ∷ "i18n.DateTimeSymbols_zh_Hant"
          ∷ "i18n.DateTimeSymbols_zh_Hant_HK" ∷ "i18n.DateTimeSymbols_zh_Hant_MO"
          ∷ "i18n.DateTimeSymbols_zh_Hant_TW" ∷ [],
    )
    ∷ ("i18n:datetimesymbols", "i18n.DateTimeSymbols_zh_TW" ∷ "i18n.DateTimeSymbols_zu" ∷ [])
    ∷ ("i18n:datetimesymbolsext", "i18n.DateTimeSymbols_zu_ZA" ∷ [])
    ∷ ("i18n:graphemebreak", "i18n.GraphemeBreak" ∷ [])
    ∷ ("i18n:messageformat", "i18n.MessageFormat" ∷ [])
    ∷ (
      "i18n:numberformat",
      "i18n.NumberFormat" ∷ "i18n.NumberFormat.CurrencyStyle" ∷ "i18n.NumberFormat.Format" ∷ [],
    )
    ∷ ("i18n:numberformatsymbols", "i18n.NumberFormatSymbols" ∷ [])
    ∷ ("i18n:numberformatsymbolsext", "i18n.NumberFormatSymbolsExt" ∷ [])
    ∷ ("i18n:numberformatsymbols", "i18n.NumberFormatSymbols_af" ∷ [])
    ∷ (
      "i18n:numberformatsymbolsext",
      "i18n.NumberFormatSymbols_af_NA" ∷ "i18n.NumberFormatSymbols_af_ZA"
          ∷ "i18n.NumberFormatSymbols_agq" ∷ "i18n.NumberFormatSymbols_agq_CM"
          ∷ "i18n.NumberFormatSymbols_ak" ∷ "i18n.NumberFormatSymbols_ak_GH" ∷ [],
    )
    ∷ ("i18n:numberformatsymbols", "i18n.NumberFormatSymbols_am" ∷ [])
    ∷ ("i18n:numberformatsymbolsext", "i18n.NumberFormatSymbols_am_ET" ∷ [])
    ∷ ("i18n:numberformatsymbols", "i18n.NumberFormatSymbols_ar" ∷ [])
    ∷ (
      "i18n:numberformatsymbolsext",
      "i18n.NumberFormatSymbols_ar_001" ∷ "i18n.NumberFormatSymbols_ar_AE"
          ∷ "i18n.NumberFormatSymbols_ar_AE_u_nu_latn" ∷ "i18n.NumberFormatSymbols_ar_BH"
          ∷ "i18n.NumberFormatSymbols_ar_BH_u_nu_latn" ∷ "i18n.NumberFormatSymbols_ar_DJ"
          ∷ "i18n.NumberFormatSymbols_ar_DJ_u_nu_latn" ∷ [],
    )
    ∷ (
      "i18n:numberformatsymbols",
      "i18n.NumberFormatSymbols_ar_DZ" ∷ "i18n.NumberFormatSymbols_ar_EG"
          ∷ "i18n.NumberFormatSymbols_ar_EG_u_nu_latn" ∷ [],
    )
    ∷ (
      "i18n:numberformatsymbolsext",
      "i18n.NumberFormatSymbols_ar_EH" ∷ "i18n.NumberFormatSymbols_ar_ER"
          ∷ "i18n.NumberFormatSymbols_ar_ER_u_nu_latn" ∷ "i18n.NumberFormatSymbols_ar_IL"
          ∷ "i18n.NumberFormatSymbols_ar_IL_u_nu_latn" ∷ "i18n.NumberFormatSymbols_ar_IQ"
          ∷ "i18n.NumberFormatSymbols_ar_IQ_u_nu_latn" ∷ "i18n.NumberFormatSymbols_ar_JO"
          ∷ "i18n.NumberFormatSymbols_ar_JO_u_nu_latn" ∷ "i18n.NumberFormatSymbols_ar_KM"
          ∷ "i18n.NumberFormatSymbols_ar_KM_u_nu_latn" ∷ "i18n.NumberFormatSymbols_ar_KW"
          ∷ "i18n.NumberFormatSymbols_ar_KW_u_nu_latn" ∷ "i18n.NumberFormatSymbols_ar_LB"
          ∷ "i18n.NumberFormatSymbols_ar_LB_u_nu_latn" ∷ "i18n.NumberFormatSymbols_ar_LY"
          ∷ "i18n.NumberFormatSymbols_ar_MA" ∷ "i18n.NumberFormatSymbols_ar_MR"
          ∷ "i18n.NumberFormatSymbols_ar_MR_u_nu_latn" ∷ "i18n.NumberFormatSymbols_ar_OM"
          ∷ "i18n.NumberFormatSymbols_ar_OM_u_nu_latn" ∷ "i18n.NumberFormatSymbols_ar_PS"
          ∷ "i18n.NumberFormatSymbols_ar_PS_u_nu_latn" ∷ "i18n.NumberFormatSymbols_ar_QA"
          ∷ "i18n.NumberFormatSymbols_ar_QA_u_nu_latn" ∷ "i18n.NumberFormatSymbols_ar_SA"
          ∷ "i18n.NumberFormatSymbols_ar_SA_u_nu_latn" ∷ "i18n.NumberFormatSymbols_ar_SD"
          ∷ "i18n.NumberFormatSymbols_ar_SD_u_nu_latn" ∷ "i18n.NumberFormatSymbols_ar_SO"
          ∷ "i18n.NumberFormatSymbols_ar_SO_u_nu_latn" ∷ "i18n.NumberFormatSymbols_ar_SS"
          ∷ "i18n.NumberFormatSymbols_ar_SS_u_nu_latn" ∷ "i18n.NumberFormatSymbols_ar_SY"
          ∷ "i18n.NumberFormatSymbols_ar_SY_u_nu_latn" ∷ "i18n.NumberFormatSymbols_ar_TD"
          ∷ "i18n.NumberFormatSymbols_ar_TD_u_nu_latn" ∷ "i18n.NumberFormatSymbols_ar_TN"
          ∷ "i18n.NumberFormatSymbols_ar_XB" ∷ "i18n.NumberFormatSymbols_ar_YE"
          ∷ "i18n.NumberFormatSymbols_ar_YE_u_nu_latn" ∷ "i18n.NumberFormatSymbols_as"
          ∷ "i18n.NumberFormatSymbols_as_IN" ∷ "i18n.NumberFormatSymbols_as_IN_u_nu_latn"
          ∷ "i18n.NumberFormatSymbols_as_u_nu_latn" ∷ "i18n.NumberFormatSymbols_asa"
          ∷ "i18n.NumberFormatSymbols_asa_TZ" ∷ "i18n.NumberFormatSymbols_ast"
          ∷ "i18n.NumberFormatSymbols_ast_ES" ∷ [],
    )
    ∷ ("i18n:numberformatsymbols", "i18n.NumberFormatSymbols_az" ∷ [])
    ∷ (
      "i18n:numberformatsymbolsext",
      "i18n.NumberFormatSymbols_az_Cyrl" ∷ "i18n.NumberFormatSymbols_az_Cyrl_AZ"
          ∷ "i18n.NumberFormatSymbols_az_Latn" ∷ "i18n.NumberFormatSymbols_az_Latn_AZ" ∷ [],
    )
    ∷ [])
