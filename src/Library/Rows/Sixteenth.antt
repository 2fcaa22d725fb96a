-- ===== src/Library/Rows/Sixteenth.antt =====
-- Lines 2256 to 2405 of gazelle/closure_js/closure_library/closure_library.go.
use rules_closure.Prelude.{List, [], ◌∷◌}
use rules_closure.Library.{Row, goog_rows}

abbrev pub sixteenth_rows : List Row
sixteenth_rows = goog_rows (
    ("i18n:datetimesymbols", "i18n.DateTimeSymbols_en_US" ∷ [])
    ∷ (
      "i18n:datetimesymbolsext",
      "i18n.DateTimeSymbols_en_US_POSIX" ∷ "i18n.DateTimeSymbols_en_VC"
          ∷ "i18n.DateTimeSymbols_en_VG" ∷ "i18n.DateTimeSymbols_en_VI"
          ∷ "i18n.DateTimeSymbols_en_VU" ∷ "i18n.DateTimeSymbols_en_WS"
          ∷ "i18n.DateTimeSymbols_en_XA" ∷ [],
    )
    ∷ ("i18n:datetimesymbols", "i18n.DateTimeSymbols_en_ZA" ∷ [])
    ∷ (
      "i18n:datetimesymbolsext",
      "i18n.DateTimeSymbols_en_ZM" ∷ "i18n.DateTimeSymbols_en_ZW" ∷ "i18n.DateTimeSymbols_eo" ∷ [],
    )
    ∷ ("i18n:datetimesymbols", "i18n.DateTimeSymbols_es" ∷ "i18n.DateTimeSymbols_es_419" ∷ [])
    ∷ (
      "i18n:datetimesymbolsext",
      "i18n.DateTimeSymbols_es_AR" ∷ "i18n.DateTimeSymbols_es_BO" ∷ "i18n.DateTimeSymbols_es_BR"
          ∷ "i18n.DateTimeSymbols_es_BZ" ∷ "i18n.DateTimeSymbols_es_CL"
          ∷ "i18n.DateTimeSymbols_es_CO" ∷ "i18n.DateTimeSymbols_es_CR"
          ∷ "i18n.DateTimeSymbols_es_CU" ∷ "i18n.DateTimeSymbols_es_DO"
          ∷ "i18n.DateTimeSymbols_es_EA" ∷ "i18n.DateTimeSymbols_es_EC" ∷ [],
    )
    ∷ ("i18n:datetimesymbols", "i18n.DateTimeSymbols_es_ES" ∷ [])
    ∷ (
      "i18n:datetimesymbolsext",
      "i18n.DateTimeSymbols_es_GQ" ∷ "i18n.DateTimeSymbols_es_GT" ∷ "i18n.DateTimeSymbols_es_HN"
          ∷ "i18n.DateTimeSymbols_es_IC" ∷ [],
    )
    ∷ ("i18n:datetimesymbols", "i18n.DateTimeSymbols_es_MX" ∷ [])
    ∷ (
      "i18n:datetimesymbolsext",
      "i18n.DateTimeSymbols_es_NI" ∷ "i18n.DateTimeSymbols_es_PA" ∷ "i18n.DateTimeSymbols_es_PE"
          ∷ "i18n.DateTimeSymbols_es_PH" ∷ "i18n.DateTimeSymbols_es_PR"
          ∷ "i18n.DateTimeSymbols_es_PY" ∷ "i18n.DateTimeSymbols_es_SV" ∷ [],
    )
    ∷ ("i18n:datetimesymbols", "i18n.DateTimeSymbols_es_US" ∷ [])
    ∷ ("i18n:datetimesymbolsext", "i18n.DateTimeSymbols_es_UY" ∷ "i18n.DateTimeSymbols_es_VE" ∷ [])
    ∷ ("i18n:datetimesymbols", "i18n.DateTimeSymbols_et" ∷ [])
    ∷ ("i18n:datetimesymbolsext", "i18n.DateTimeSymbols_et_EE" ∷ [])
    ∷ ("i18n:datetimesymbols", "i18n.DateTimeSymbols_eu" ∷ [])
    ∷ (
      "i18n:datetimesymbolsext",
      "i18n.DateTimeSymbols_eu_ES" ∷ "i18n.DateTimeSymbols_ewo" ∷ "i18n.DateTimeSymbols_ewo_CM"
          ∷ [],
    )
    ∷ ("i18n:datetimesymbols", "i18n.DateTimeSymbols_fa" ∷ [])
    ∷ (
      "i18n:datetimesymbolsext",
      "i18n.DateTimeSymbols_fa_AF" ∷ "i18n.DateTimeSymbols_fa_IR" ∷ "i18n.DateTimeSymbols_ff" ∷ [],
    )
    ∷ ("i18n:datetimesymbols", "i18n.DateTimeSymbols_fi" ∷ [])
    ∷ ("i18n:datetimesymbolsext", "i18n.DateTimeSymbols_fi_FI" ∷ [])
    ∷ ("i18n:datetimesymbols", "i18n.DateTimeSymbols_fil" ∷ [])
    ∷ (
      "i18n:datetimesymbolsext",
      "i18n.DateTimeSymbols_fil_PH" ∷ "i18n.DateTimeSymbols_fo" ∷ "i18n.DateTimeSymbols_fo_DK"
          ∷ "i18n.DateTimeSymbols_fo_FO" ∷ [],
    )
    ∷ ("i18n:datetimesymbols", "i18n.DateTimeSymbols_fr" ∷ [])
    ∷ (
      "i18n:datetimesymbolsext",
      "i18n.DateTimeSymbols_fr_BE" ∷ "i18n.DateTimeSymbols_fr_BF" ∷ "i18n.DateTimeSymbols_fr_BI"
          ∷ "i18n.DateTimeSymbols_fr_BJ" ∷ "i18n.DateTimeSymbols_fr_BL" ∷ [],
    )
    ∷ ("i18n:datetimesymbols", "i18n.DateTimeSymbols_fr_CA" ∷ [])
    ∷ (
      "i18n:datetimesymbolsext",
      "i18n.DateTimeSymbols_fr_CD" ∷ "i18n.DateTimeSymbols_fr_CF" ∷ "i18n.DateTimeSymbols_fr_CG"
          ∷ "i18n.DateTimeSymbols_fr_CH" ∷ "i18n.DateTimeSymbols_fr_CI"
          ∷ "i18n.DateTimeSymbols_fr_CM" ∷ "i18n.DateTimeSymbols_fr_DJ"
          ∷ "i18n.DateTimeSymbols_fr_DZ" ∷ "i18n.DateTimeSymbols_fr_FR"
          ∷ "i18n.DateTimeSymbols_fr_GA" ∷ "i18n.DateTimeSymbols_fr_GF"
          ∷ "i18n.DateTimeSymbols_fr_GN" ∷ "i18n.DateTimeSymbols_fr_GP"
          ∷ "i18n.DateTimeSymbols_fr_GQ" ∷ "i18n.DateTimeSymbols_fr_HT"
          ∷ "i18n.DateTimeSymbols_fr_KM" ∷ "i18n.DateTimeSymbols_fr_LU"
          ∷ "i18n.DateTimeSymbols_fr_MA" ∷ "i18n.DateTimeSymbols_fr_MC"
          ∷ "i18n.DateTimeSymbols_fr_MF" ∷ "i18n.DateTimeSymbols_fr_MG"
          ∷ "i18n.DateTimeSymbols_fr_ML" ∷ "i18n.DateTimeSymbols_fr_MQ"
          ∷ "i18n.DateTimeSymbols_fr_MR" ∷ "i18n.DateTimeSymbols_fr_MU"
          ∷ "i18n.DateTimeSymbols_fr_NC" ∷ "i18n.DateTimeSymbols_fr_NE"
          ∷ "i18n.DateTimeSymbols_fr_PF" ∷ "i18n.DateTimeSymbols_fr_PM"
          ∷ "i18n.DateTimeSymbols_fr_RE" ∷ "i18n.DateTimeSymbols_fr_RW"
          ∷ "i18n.DateTimeSymbols_fr_SC" ∷ "i18n.DateTimeSymbols_fr_SN"
          ∷ "i18n.DateTimeSymbols_fr_SY" ∷ "i18n.DateTimeSymbols_fr_TD"
          ∷ "i18n.DateTimeSymbols_fr_TG" ∷ "i18n.DateTimeSymbols_fr_TN"
          ∷ "i18n.DateTimeSymbols_fr_VU" ∷ "i18n.DateTimeSymbols_fr_WF"
          ∷ "i18n.DateTimeSymbols_fr_YT" ∷ "i18n.DateTimeSymbols_fur"
          ∷ "i18n.DateTimeSymbols_fur_IT" ∷ "i18n.DateTimeSymbols_fy" ∷ "i18n.DateTimeSymbols_fy_NL"
          ∷ [],
    )
    ∷ ("i18n:datetimesymbols", "i18n.DateTimeSymbols_ga" ∷ [])
    ∷ (
      "i18n:datetimesymbolsext",
      "i18n.DateTimeSymbols_ga_IE" ∷ "i18n.DateTimeSymbols_gd" ∷ "i18n.DateTimeSymbols_gd_GB" ∷ [],
    )
    ∷ ("i18n:datetimesymbols", "i18n.DateTimeSymbols_gl" ∷ [])
    ∷ ("i18n:datetimesymbolsext", "i18n.DateTimeSymbols_gl_ES" ∷ [])
    ∷ ("i18n:datetimesymbols", "i18n.DateTimeSymbols_gsw" ∷ [])
    ∷ (
      "i18n:datetimesymbolsext",
      "i18n.DateTimeSymbols_gsw_CH" ∷ "i18n.DateTimeSymbols_gsw_FR" ∷ "i18n.DateTimeSymbols_gsw_LI"
          ∷ [],
    )
    ∷ ("i18n:datetimesymbols", "i18n.DateTimeSymbols_gu" ∷ [])
    ∷ (
      "i18n:datetimesymbolsext",
      "i18n.DateTimeSymbols_gu_IN" ∷ "i18n.DateTimeSymbols_guz" ∷ "i18n.DateTimeSymbols_guz_KE"
          ∷ "i18n.DateTimeSymbols_gv" ∷ "i18n.DateTimeSymbols_gv_IM" ∷ "i18n.DateTimeSymbols_ha"
          ∷ "i18n.DateTimeSymbols_ha_GH" ∷ "i18n.DateTimeSymbols_ha_NE"
          ∷ "i18n.DateTimeSymbols_ha_NG" ∷ [],
    )
    ∷ ("i18n:datetimesymbols", "i18n.DateTimeSymbols_haw" ∷ [])
    ∷ ("i18n:datetimesymbolsext", "i18n.DateTimeSymbols_haw_US" ∷ [])
    ∷ ("i18n:datetimesymbols", "i18n.DateTimeSymbols_he" ∷ [])
    ∷ ("i18n:datetimesymbolsext", "i18n.DateTimeSymbols_he_IL" ∷ [])
    ∷ ("i18n:datetimesymbols", "i18n.DateTimeSymbols_hi" ∷ [])
    ∷ ("i18n:datetimesymbolsext", "i18n.DateTimeSymbols_hi_IN" ∷ [])
    ∷ ("i18n:datetimesymbols", "i18n.DateTimeSymbols_hr" ∷ [])
    ∷ (
      "i18n:datetimesymbolsext",
      "i18n.DateTimeSymbols_hr_BA" ∷ "i18n.DateTimeSymbols_hr_HR" ∷ "i18n.DateTimeSymbols_hsb"
          ∷ "i18n.DateTimeSymbols_hsb_DE" ∷ [],
    )
    ∷ ("i18n:datetimesymbols", "i18n.DateTimeSymbols_hu" ∷ [])
    ∷ ("i18n:datetimesymbolsext", "i18n.DateTimeSymbols_hu_HU" ∷ [])
    ∷ ("i18n:datetimesymbols", "i18n.DateTimeSymbols_hy" ∷ [])
    ∷ (
      "i18n:datetimesymbolsext",
      "i18n.DateTimeSymbols_hy_AM" ∷ "i18n.DateTimeSymbols_ia" ∷ "i18n.DateTimeSymbols_ia_001" ∷ [],
    )
    ∷ ("i18n:datetimesymbols", "i18n.DateTimeSymbols_id" ∷ [])
    ∷ (
      "i18n:datetimesymbolsext",
      "i18n.DateTimeSymbols_id_ID" ∷ "i18n.DateTimeSymbols_ig" ∷ "i18n.DateTimeSymbols_ig_NG" ∷ [],
    )
    ∷ [])
