-- ===== src/Library/Rows/TwentyFirst.antt =====
-- Lines 3006 to 3155 of gazelle/closure_js/closure_library/closure_library.go.
use rules_closure.Prelude.{List, [], ◌∷◌}
use rules_closure.Library.{Row, goog_rows}

abbrev pub twenty_first_rows : List Row
twenty_first_rows = goog_rows (
    (
      "i18n:numberformatsymbolsext",
      "i18n.NumberFormatSymbols_en_MU" ∷ "i18n.NumberFormatSymbols_en_MW"
          ∷ "i18n.NumberFormatSymbols_en_MY" ∷ "i18n.NumberFormatSymbols_en_NA"
          ∷ "i18n.NumberFormatSymbols_en_NF" ∷ "i18n.NumberFormatSymbols_en_NG"
          ∷ "i18n.NumberFormatSymbols_en_NL" ∷ "i18n.NumberFormatSymbols_en_NR"
          ∷ "i18n.NumberFormatSymbols_en_NU" ∷ "i18n.NumberFormatSymbols_en_NZ"
          ∷ "i18n.NumberFormatSymbols_en_PG" ∷ "i18n.NumberFormatSymbols_en_PH"
          ∷ "i18n.NumberFormatSymbols_en_PK" ∷ "i18n.NumberFormatSymbols_en_PN"
          ∷ "i18n.NumberFormatSymbols_en_PR" ∷ "i18n.NumberFormatSymbols_en_PW"
          ∷ "i18n.NumberFormatSymbols_en_RW" ∷ "i18n.NumberFormatSymbols_en_SB"
          ∷ "i18n.NumberFormatSymbols_en_SC" ∷ "i18n.NumberFormatSymbols_en_SD"
          ∷ "i18n.NumberFormatSymbols_en_SE" ∷ [],
    )
    ∷ ("i18n:numberformatsymbols", "i18n.NumberFormatSymbols_en_SG" ∷ [])
    ∷ (
      "i18n:numberformatsymbolsext",
      "i18n.NumberFormatSymbols_en_SH" ∷ "i18n.NumberFormatSymbols_en_SI"
          ∷ "i18n.NumberFormatSymbols_en_SL" ∷ "i18n.NumberFormatSymbols_en_SS"
          ∷ "i18n.NumberFormatSymbols_en_SX" ∷ "i18n.NumberFormatSymbols_en_SZ"
          ∷ "i18n.NumberFormatSymbols_en_TC" ∷ "i18n.NumberFormatSymbols_en_TK"
          ∷ "i18n.NumberFormatSymbols_en_TO" ∷ "i18n.NumberFormatSymbols_en_TT"
          ∷ "i18n.NumberFormatSymbols_en_TV" ∷ "i18n.NumberFormatSymbols_en_TZ"
          ∷ "i18n.NumberFormatSymbols_en_UG" ∷ "i18n.NumberFormatSymbols_en_UM" ∷ [],
    )
    ∷ ("i18n:numberformatsymbols", "i18n.NumberFormatSymbols_en_US" ∷ [])
    ∷ (
      "i18n:numberformatsymbolsext",
      "i18n.NumberFormatSymbols_en_US_POSIX" ∷ "i18n.NumberFormatSymbols_en_VC"
          ∷ "i18n.NumberFormatSymbols_en_VG" ∷ "i18n.NumberFormatSymbols_en_VI"
          ∷ "i18n.NumberFormatSymbols_en_VU" ∷ "i18n.NumberFormatSymbols_en_WS"
          ∷ "i18n.NumberFormatSymbols_en_XA" ∷ [],
    )
    ∷ ("i18n:numberformatsymbols", "i18n.NumberFormatSymbols_en_ZA" ∷ [])
    ∷ (
      "i18n:numberformatsymbolsext",
      "i18n.NumberFormatSymbols_en_ZM" ∷ "i18n.NumberFormatSymbols_en_ZW"
          ∷ "i18n.NumberFormatSymbols_eo" ∷ [],
    )
    ∷ (
      "i18n:numberformatsymbols",
      "i18n.NumberFormatSymbols_es" ∷ "i18n.NumberFormatSymbols_es_419" ∷ [],
    )
    ∷ (
      "i18n:numberformatsymbolsext",
      "i18n.NumberFormatSymbols_es_AR" ∷ "i18n.NumberFormatSymbols_es_BO"
          ∷ "i18n.NumberFormatSymbols_es_BR" ∷ "i18n.NumberFormatSymbols_es_BZ"
          ∷ "i18n.NumberFormatSymbols_es_CL" ∷ "i18n.NumberFormatSymbols_es_CO"
          ∷ "i18n.NumberFormatSymbols_es_CR" ∷ "i18n.NumberFormatSymbols_es_CU"
          ∷ "i18n.NumberFormatSymbols_es_DO" ∷ "i18n.NumberFormatSymbols_es_EA"
          ∷ "i18n.NumberFormatSymbols_es_EC" ∷ [],
    )
    ∷ ("i18n:numberformatsymbols", "i18n.NumberFormatSymbols_es_ES" ∷ [])
    ∷ (
      "i18n:numberformatsymbolsext",
      "i18n.NumberFormatSymbols_es_GQ" ∷ "i18n.NumberFormatSymbols_es_GT"
          ∷ "i18n.NumberFormatSymbols_es_HN" ∷ "i18n.NumberFormatSymbols_es_IC" ∷ [],
    )
    ∷ ("i18n:numberformatsymbols", "i18n.NumberFormatSymbols_es_MX" ∷ [])
    ∷ (
      "i18n:numberformatsymbolsext",
      "i18n.NumberFormatSymbols_es_NI" ∷ "i18n.NumberFormatSymbols_es_PA"
          ∷ "i18n.NumberFormatSymbols_es_PE" ∷ "i18n.NumberFormatSymbols_es_PH"
          ∷ "i18n.NumberFormatSymbols_es_PR" ∷ "i18n.NumberFormatSymbols_es_PY"
          ∷ "i18n.NumberFormatSymbols_es_SV" ∷ [],
    )
    ∷ ("i18n:numberformatsymbols", "i18n.NumberFormatSymbols_es_US" ∷ [])
    ∷ (
      "i18n:numberformatsymbolsext",
      "i18n.NumberFormatSymbols_es_UY" ∷ "i18n.NumberFormatSymbols_es_VE" ∷ [],
    )
    ∷ ("i18n:numberformatsymbols", "i18n.NumberFormatSymbols_et" ∷ [])
    ∷ ("i18n:numberformatsymbolsext", "i18n.NumberFormatSymbols_et_EE" ∷ [])
    ∷ ("i18n:numberformatsymbols", "i18n.NumberFormatSymbols_eu" ∷ [])
    ∷ (
      "i18n:numberformatsymbolsext",
      "i18n.NumberFormatSymbols_eu_ES" ∷ "i18n.NumberFormatSymbols_ewo"
          ∷ "i18n.NumberFormatSymbols_ewo_CM" ∷ [],
    )
    ∷ ("i18n:numberformatsymbols", "i18n.NumberFormatSymbols_fa" ∷ [])
    ∷ (
      "i18n:numberformatsymbolsext",
      "i18n.NumberFormatSymbols_fa_AF" ∷ "i18n.NumberFormatSymbols_fa_AF_u_nu_latn"
          ∷ "i18n.NumberFormatSymbols_fa_IR" ∷ "i18n.NumberFormatSymbols_fa_IR_u_nu_latn" ∷ [],
    )
    ∷ ("i18n:numberformatsymbols", "i18n.NumberFormatSymbols_fa_u_nu_latn" ∷ [])
    ∷ ("i18n:numberformatsymbolsext", "i18n.NumberFormatSymbols_ff" ∷ [])
    ∷ ("i18n:numberformatsymbols", "i18n.NumberFormatSymbols_fi" ∷ [])
    ∷ ("i18n:numberformatsymbolsext", "i18n.NumberFormatSymbols_fi_FI" ∷ [])
    ∷ ("i18n:numberformatsymbols", "i18n.NumberFormatSymbols_fil" ∷ [])
    ∷ (
      "i18n:numberformatsymbolsext",
      "i18n.NumberFormatSymbols_fil_PH" ∷ "i18n.NumberFormatSymbols_fo"
          ∷ "i18n.NumberFormatSymbols_fo_DK" ∷ "i18n.NumberFormatSymbols_fo_FO" ∷ [],
    )
    ∷ ("i18n:numberformatsymbols", "i18n.NumberFormatSymbols_fr" ∷ [])
    ∷ (
      "i18n:numberformatsymbolsext",
      "i18n.NumberFormatSymbols_fr_BE" ∷ "i18n.NumberFormatSymbols_fr_BF"
          ∷ "i18n.NumberFormatSymbols_fr_BI" ∷ "i18n.NumberFormatSymbols_fr_BJ"
          ∷ "i18n.NumberFormatSymbols_fr_BL" ∷ [],
    )
    ∷ ("i18n:numberformatsymbols", "i18n.NumberFormatSymbols_fr_CA" ∷ [])
    ∷ (
      "i18n:numberformatsymbolsext",
      "i18n.NumberFormatSymbols_fr_CD" ∷ "i18n.NumberFormatSymbols_fr_CF"
          ∷ "i18n.NumberFormatSymbols_fr_CG" ∷ "i18n.NumberFormatSymbols_fr_CH"
          ∷ "i18n.NumberFormatSymbols_fr_CI" ∷ "i18n.NumberFormatSymbols_fr_CM"
          ∷ "i18n.NumberFormatSymbols_fr_DJ" ∷ "i18n.NumberFormatSymbols_fr_DZ"
          ∷ "i18n.NumberFormatSymbols_fr_FR" ∷ "i18n.NumberFormatSymbols_fr_GA"
          ∷ "i18n.NumberFormatSymbols_fr_GF" ∷ "i18n.NumberFormatSymbols_fr_GN"
          ∷ "i18n.NumberFormatSymbols_fr_GP" ∷ "i18n.NumberFormatSymbols_fr_GQ"
          ∷ "i18n.NumberFormatSymbols_fr_HT" ∷ "i18n.NumberFormatSymbols_fr_KM"
          ∷ "i18n.NumberFormatSymbols_fr_LU" ∷ "i18n.NumberFormatSymbols_fr_MA"
          ∷ "i18n.NumberFormatSymbols_fr_MC" ∷ "i18n.NumberFormatSymbols_fr_MF"
          ∷ "i18n.NumberFormatSymbols_fr_MG" ∷ "i18n.NumberFormatSymbols_fr_ML"
          ∷ "i18n.NumberFormatSymbols_fr_MQ" ∷ "i18n.NumberFormatSymbols_fr_MR"
          ∷ "i18n.NumberFormatSymbols_fr_MU" ∷ "i18n.NumberFormatSymbols_fr_NC"
          ∷ "i18n.NumberFormatSymbols_fr_NE" ∷ "i18n.NumberFormatSymbols_fr_PF"
          ∷ "i18n.NumberFormatSymbols_fr_PM" ∷ "i18n.NumberFormatSymbols_fr_RE"
          ∷ "i18n.NumberFormatSymbols_fr_RW" ∷ "i18n.NumberFormatSymbols_fr_SC"
          ∷ "i18n.NumberFormatSymbols_fr_SN" ∷ "i18n.NumberFormatSymbols_fr_SY"
          ∷ "i18n.NumberFormatSymbols_fr_TD" ∷ "i18n.NumberFormatSymbols_fr_TG"
          ∷ "i18n.NumberFormatSymbols_fr_TN" ∷ "i18n.NumberFormatSymbols_fr_VU"
          ∷ "i18n.NumberFormatSymbols_fr_WF" ∷ "i18n.NumberFormatSymbols_fr_YT"
          ∷ "i18n.NumberFormatSymbols_fur" ∷ "i18n.NumberFormatSymbols_fur_IT"
          ∷ "i18n.NumberFormatSymbols_fy" ∷ "i18n.NumberFormatSymbols_fy_NL" ∷ [],
    )
    ∷ ("i18n:numberformatsymbols", "i18n.NumberFormatSymbols_ga" ∷ [])
    ∷ ("i18n:numberformatsymbolsext", "i18n.NumberFormatSymbols_ga_IE" ∷ [])
    ∷ [])
