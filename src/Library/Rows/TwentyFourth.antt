-- ===== src/Library/Rows/TwentyFourth.antt =====
-- Lines 3456 to 3605 of gazelle/closure_js/closure_library/closure_library.go.
use rules_closure.Prelude.{List, [], ◌∷◌}
use rules_closure.Library.{Row, goog_rows}

abbrev pub twenty_fourth_rows : List Row
twenty_fourth_rows = goog_rows (
    ("i18n:numberformatsymbols", "i18n.NumberFormatSymbols_sk" ∷ [])
    ∷ ("i18n:numberformatsymbolsext", "i18n.NumberFormatSymbols_sk_SK" ∷ [])
    ∷ ("i18n:numberformatsymbols", "i18n.NumberFormatSymbols_sl" ∷ [])
    ∷ (
      "i18n:numberformatsymbolsext",
      "i18n.NumberFormatSymbols_sl_SI" ∷ "i18n.NumberFormatSymbols_smn"
          ∷ "i18n.NumberFormatSymbols_smn_FI" ∷ "i18n.NumberFormatSymbols_sn"
          ∷ "i18n.NumberFormatSymbols_sn_ZW" ∷ "i18n.NumberFormatSymbols_so"
          ∷ "i18n.NumberFormatSymbols_so_DJ" ∷ "i18n.NumberFormatSymbols_so_ET"
          ∷ "i18n.NumberFormatSymbols_so_KE" ∷ "i18n.NumberFormatSymbols_so_SO" ∷ [],
    )
    ∷ ("i18n:numberformatsymbols", "i18n.NumberFormatSymbols_sq" ∷ [])
    ∷ (
      "i18n:numberformatsymbolsext",
      "i18n.NumberFormatSymbols_sq_AL" ∷ "i18n.NumberFormatSymbols_sq_MK"
          ∷ "i18n.NumberFormatSymbols_sq_XK" ∷ [],
    )
    ∷ ("i18n:numberformatsymbols", "i18n.NumberFormatSymbols_sr" ∷ [])
    ∷ (
      "i18n:numberformatsymbolsext",
      "i18n.NumberFormatSymbols_sr_Cyrl" ∷ "i18n.NumberFormatSymbols_sr_Cyrl_BA"
          ∷ "i18n.NumberFormatSymbols_sr_Cyrl_ME" ∷ "i18n.NumberFormatSymbols_sr_Cyrl_RS"
          ∷ "i18n.NumberFormatSymbols_sr_Cyrl_XK" ∷ [],
    )
    ∷ ("i18n:numberformatsymbols", "i18n.NumberFormatSymbols_sr_Latn" ∷ [])
    ∷ (
      "i18n:numberformatsymbolsext",
      "i18n.NumberFormatSymbols_sr_Latn_BA" ∷ "i18n.NumberFormatSymbols_sr_Latn_ME"
          ∷ "i18n.NumberFormatSymbols_sr_Latn_RS" ∷ "i18n.NumberFormatSymbols_sr_Latn_XK" ∷ [],
    )
    ∷ ("i18n:numberformatsymbols", "i18n.NumberFormatSymbols_sv" ∷ [])
    ∷ (
      "i18n:numberformatsymbolsext",
      "i18n.NumberFormatSymbols_sv_AX" ∷ "i18n.NumberFormatSymbols_sv_FI"
          ∷ "i18n.NumberFormatSymbols_sv_SE" ∷ [],
    )
    ∷ ("i18n:numberformatsymbols", "i18n.NumberFormatSymbols_sw" ∷ [])
    ∷ (
      "i18n:numberformatsymbolsext",
      "i18n.NumberFormatSymbols_sw_CD" ∷ "i18n.NumberFormatSymbols_sw_KE"
          ∷ "i18n.NumberFormatSymbols_sw_TZ" ∷ "i18n.NumberFormatSymbols_sw_UG" ∷ [],
    )
    ∷ ("i18n:numberformatsymbols", "i18n.NumberFormatSymbols_ta" ∷ [])
    ∷ (
      "i18n:numberformatsymbolsext",
      "i18n.NumberFormatSymbols_ta_IN" ∷ "i18n.NumberFormatSymbols_ta_LK"
          ∷ "i18n.NumberFormatSymbols_ta_MY" ∷ "i18n.NumberFormatSymbols_ta_SG" ∷ [],
    )
    ∷ ("i18n:numberformatsymbols", "i18n.NumberFormatSymbols_te" ∷ [])
    ∷ (
      "i18n:numberformatsymbolsext",
      "i18n.NumberFormatSymbols_te_IN" ∷ "i18n.NumberFormatSymbols_teo"
          ∷ "i18n.NumberFormatSymbols_teo_KE" ∷ "i18n.NumberFormatSymbols_teo_UG"
          ∷ "i18n.NumberFormatSymbols_tg" ∷ "i18n.NumberFormatSymbols_tg_TJ" ∷ [],
    )
    ∷ ("i18n:numberformatsymbols", "i18n.NumberFormatSymbols_th" ∷ [])
    ∷ (
      "i18n:numberformatsymbolsext",
      "i18n.NumberFormatSymbols_th_TH" ∷ "i18n.NumberFormatSymbols_ti"
          ∷ "i18n.NumberFormatSymbols_ti_ER" ∷ "i18n.NumberFormatSymbols_ti_ET"
          ∷ "i18n.NumberFormatSymbols_tk" ∷ "i18n.NumberFormatSymbols_tk_TM" ∷ [],
    )
    ∷ ("i18n:numberformatsymbols", "i18n.NumberFormatSymbols_tl" ∷ [])
    ∷ (
      "i18n:numberformatsymbolsext",
      "i18n.NumberFormatSymbols_to" ∷ "i18n.NumberFormatSymbols_to_TO" ∷ [],
    )
    ∷ ("i18n:numberformatsymbols", "i18n.NumberFormatSymbols_tr" ∷ [])
    ∷ (
      "i18n:numberformatsymbolsext",
      "i18n.NumberFormatSymbols_tr_CY" ∷ "i18n.NumberFormatSymbols_tr_TR"
          ∷ "i18n.NumberFormatSymbols_tt" ∷ "i18n.NumberFormatSymbols_tt_RU"
          ∷ "i18n.NumberFormatSymbols_twq" ∷ "i18n.NumberFormatSymbols_twq_NE"
          ∷ "i18n.NumberFormatSymbols_tzm" ∷ "i18n.NumberFormatSymbols_tzm_MA" ∷ [],
    )
    ∷ ("i18n:numberformatsymbols", "i18n.NumberFormatSymbols_u_nu_latn" ∷ [])
    ∷ (
      "i18n:numberformatsymbolsext",
      "i18n.NumberFormatSymbols_ug" ∷ "i18n.NumberFormatSymbols_ug_CN" ∷ [],
    )
    ∷ ("i18n:numberformatsymbols", "i18n.NumberFormatSymbols_uk" ∷ [])
    ∷ ("i18n:numberformatsymbolsext", "i18n.NumberFormatSymbols_uk_UA" ∷ [])
    ∷ ("i18n:numberformatsymbols", "i18n.NumberFormatSymbols_ur" ∷ [])
    ∷ (
      "i18n:numberformatsymbolsext",
      "i18n.NumberFormatSymbols_ur_IN" ∷ "i18n.NumberFormatSymbols_ur_IN_u_nu_latn"
          ∷ "i18n.NumberFormatSymbols_ur_PK" ∷ [],
    )
    ∷ ("i18n:numberformatsymbols", "i18n.NumberFormatSymbols_uz" ∷ [])
    ∷ (
      "i18n:numberformatsymbolsext",
      "i18n.NumberFormatSymbols_uz_Arab" ∷ "i18n.NumberFormatSymbols_uz_Arab_AF"
          ∷ "i18n.NumberFormatSymbols_uz_Arab_AF_u_nu_latn"
          ∷ "i18n.NumberFormatSymbols_uz_Arab_u_nu_latn" ∷ "i18n.NumberFormatSymbols_uz_Cyrl"
          ∷ "i18n.NumberFormatSymbols_uz_Cyrl_UZ" ∷ "i18n.NumberFormatSymbols_uz_Latn"
          ∷ "i18n.NumberFormatSymbols_uz_Latn_UZ" ∷ "i18n.NumberFormatSymbols_vai"
          ∷ "i18n.NumberFormatSymbols_vai_Latn" ∷ "i18n.NumberFormatSymbols_vai_Latn_LR"
          ∷ "i18n.NumberFormatSymbols_vai_Vaii" ∷ "i18n.NumberFormatSymbols_vai_Vaii_LR" ∷ [],
    )
    ∷ ("i18n:numberformatsymbols", "i18n.NumberFormatSymbols_vi" ∷ [])
    ∷ (
      "i18n:numberformatsymbolsext",
      "i18n.NumberFormatSymbols_vi_VN" ∷ "i18n.NumberFormatSymbols_vun"
          ∷ "i18n.NumberFormatSymbols_vun_TZ" ∷ "i18n.NumberFormatSymbols_wae"
          ∷ "i18n.NumberFormatSymbols_wae_CH" ∷ "i18n.NumberFormatSymbols_wo"
          ∷ "i18n.NumberFormatSymbols_wo_SN" ∷ "i18n.NumberFormatSymbols_xh"
          ∷ "i18n.NumberFormatSymbols_xh_ZA" ∷ "i18n.NumberFormatSymbols_xog"
          ∷ "i18n.NumberFormatSymbols_xog_UG" ∷ "i18n.NumberFormatSymbols_yav"
          ∷ "i18n.NumberFormatSymbols_yav_CM" ∷ "i18n.NumberFormatSymbols_yi"
          ∷ "i18n.NumberFormatSymbols_yi_001" ∷ "i18n.NumberFormatSymbols_yo"
          ∷ "i18n.NumberFormatSymbols_yo_BJ" ∷ "i18n.NumberFormatSymbols_yo_NG"
          ∷ "i18n.NumberFormatSymbols_yue" ∷ "i18n.NumberFormatSymbols_yue_Hans"
          ∷ "i18n.NumberFormatSymbols_yue_Hans_CN" ∷ "i18n.NumberFormatSymbols_yue_Hant"
          ∷ "i18n.NumberFormatSymbols_yue_Hant_HK" ∷ "i18n.NumberFormatSymbols_zgh"
          ∷ "i18n.NumberFormatSymbols_zgh_MA" ∷ [],
    )
    ∷ (
      "i18n:numberformatsymbols",
      "i18n.NumberFormatSymbols_zh" ∷ "i18n.NumberFormatSymbols_zh_CN"
          ∷ "i18n.NumberFormatSymbols_zh_HK" ∷ [],
    )
    ∷ (
      "i18n:numberformatsymbolsext",
      "i18n.NumberFormatSymbols_zh_Hans" ∷ "i18n.NumberFormatSymbols_zh_Hans_CN"
          ∷ "i18n.NumberFormatSymbols_zh_Hans_HK" ∷ "i18n.NumberFormatSymbols_zh_Hans_MO"
          ∷ "i18n.NumberFormatSymbols_zh_Hans_SG" ∷ "i18n.NumberFormatSymbols_zh_Hant"
          ∷ "i18n.NumberFormatSymbols_zh_Hant_HK" ∷ "i18n.NumberFormatSymbols_zh_Hant_MO"
          ∷ "i18n.NumberFormatSymbols_zh_Hant_TW" ∷ [],
    )
    ∷ (
      "i18n:numberformatsymbols",
      "i18n.NumberFormatSymbols_zh_TW" ∷ "i18n.NumberFormatSymbols_zu" ∷ [],
    )
    ∷ ("i18n:numberformatsymbolsext", "i18n.NumberFormatSymbols_zu_ZA" ∷ [])
    ∷ ("i18n:relativedatetimeformat", "i18n.RelativeDateTimeFormat" ∷ [])
    ∷ ("i18n:timezone", "i18n.TimeZone" ∷ [])
    ∷ (
      "i18n:bidi",
      "i18n.bidi" ∷ "i18n.bidi.Dir" ∷ "i18n.bidi.DirectionalString" ∷ "i18n.bidi.Format" ∷ [],
    )
    ∷ ("i18n:collation", "i18n.collation" ∷ [])
    ∷ (
      "i18n:currency",
      "i18n.currency" ∷ "i18n.currency.CurrencyInfo" ∷ "i18n.currency.CurrencyInfoTier2" ∷ [],
    )
    ∷ ("i18n:currencycodemap", "i18n.currencyCodeMap" ∷ "i18n.currencyCodeMapTier2" ∷ [])
    ∷ ("i18n:dateintervalpatterns", "i18n.dateIntervalPatterns" ∷ [])
    ∷ ("i18n:dateintervalpatternsext", "i18n.dateIntervalPatternsExt" ∷ [])
    ∷ ("i18n:dateintervalsymbols", "i18n.dateIntervalSymbols" ∷ [])
    ∷ ("i18n:dateintervalsymbolsext", "i18n.dateIntervalSymbolsExt" ∷ [])
    ∷ ("i18n:mime", "i18n.mime" ∷ "i18n.mime.encode" ∷ [])
    ∷ [])
