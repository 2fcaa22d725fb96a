-- ===== src/Library/Rows/Sixth.antt =====
-- Lines 756 to 905 of gazelle/closure_js/closure_library/closure_library.go.
use rules_closure.Prelude.{List, [], ◌∷◌}
use rules_closure.Library.{Row, goog_rows}

abbrev pub sixth_rows : List Row
sixth_rows = goog_rows (
    (
      "i18n:compactnumberformatsymbolsext",
      "i18n.CompactNumberFormatSymbols_en_UG" ∷ "i18n.CompactNumberFormatSymbols_en_UM" ∷ [],
    )
    ∷ ("i18n:compactnumberformatsymbols", "i18n.CompactNumberFormatSymbols_en_US" ∷ [])
    ∷ (
      "i18n:compactnumberformatsymbolsext",
      "i18n.CompactNumberFormatSymbols_en_US_POSIX" ∷ "i18n.CompactNumberFormatSymbols_en_VC"
          ∷ "i18n.CompactNumberFormatSymbols_en_VG" ∷ "i18n.CompactNumberFormatSymbols_en_VI"
          ∷ "i18n.CompactNumberFormatSymbols_en_VU" ∷ "i18n.CompactNumberFormatSymbols_en_WS"
          ∷ "i18n.CompactNumberFormatSymbols_en_XA" ∷ [],
    )
    ∷ ("i18n:compactnumberformatsymbols", "i18n.CompactNumberFormatSymbols_en_ZA" ∷ [])
    ∷ (
      "i18n:compactnumberformatsymbolsext",
      "i18n.CompactNumberFormatSymbols_en_ZM" ∷ "i18n.CompactNumberFormatSymbols_en_ZW"
          ∷ "i18n.CompactNumberFormatSymbols_eo" ∷ [],
    )
    ∷ (
      "i18n:compactnumberformatsymbols",
      "i18n.CompactNumberFormatSymbols_es" ∷ "i18n.CompactNumberFormatSymbols_es_419" ∷ [],
    )
    ∷ (
      "i18n:compactnumberformatsymbolsext",
      "i18n.CompactNumberFormatSymbols_es_AR" ∷ "i18n.CompactNumberFormatSymbols_es_BO"
          ∷ "i18n.CompactNumberFormatSymbols_es_BR" ∷ "i18n.CompactNumberFormatSymbols_es_BZ"
          ∷ "i18n.CompactNumberFormatSymbols_es_CL" ∷ "i18n.CompactNumberFormatSymbols_es_CO"
          ∷ "i18n.CompactNumberFormatSymbols_es_CR" ∷ "i18n.CompactNumberFormatSymbols_es_CU"
          ∷ "i18n.CompactNumberFormatSymbols_es_DO" ∷ "i18n.CompactNumberFormatSymbols_es_EA"
          ∷ "i18n.CompactNumberFormatSymbols_es_EC" ∷ [],
    )
    ∷ ("i18n:compactnumberformatsymbols", "i18n.CompactNumberFormatSymbols_es_ES" ∷ [])
    ∷ (
      "i18n:compactnumberformatsymbolsext",
      "i18n.CompactNumberFormatSymbols_es_GQ" ∷ "i18n.CompactNumberFormatSymbols_es_GT"
          ∷ "i18n.CompactNumberFormatSymbols_es_HN" ∷ "i18n.CompactNumberFormatSymbols_es_IC" ∷ [],
    )
    ∷ ("i18n:compactnumberformatsymbols", "i18n.CompactNumberFormatSymbols_es_MX" ∷ [])
    ∷ (
      "i18n:compactnumberformatsymbolsext",
      "i18n.CompactNumberFormatSymbols_es_NI" ∷ "i18n.CompactNumberFormatSymbols_es_PA"
          ∷ "i18n.CompactNumberFormatSymbols_es_PE" ∷ "i18n.CompactNumberFormatSymbols_es_PH"
          ∷ "i18n.CompactNumberFormatSymbols_es_PR" ∷ "i18n.CompactNumberFormatSymbols_es_PY"
          ∷ "i18n.CompactNumberFormatSymbols_es_SV" ∷ [],
    )
    ∷ ("i18n:compactnumberformatsymbols", "i18n.CompactNumberFormatSymbols_es_US" ∷ [])
    ∷ (
      "i18n:compactnumberformatsymbolsext",
      "i18n.CompactNumberFormatSymbols_es_UY" ∷ "i18n.CompactNumberFormatSymbols_es_VE" ∷ [],
    )
    ∷ ("i18n:compactnumberformatsymbols", "i18n.CompactNumberFormatSymbols_et" ∷ [])
    ∷ ("i18n:compactnumberformatsymbolsext", "i18n.CompactNumberFormatSymbols_et_EE" ∷ [])
    ∷ ("i18n:compactnumberformatsymbols", "i18n.CompactNumberFormatSymbols_eu" ∷ [])
    ∷ (
      "i18n:compactnumberformatsymbolsext",
      "i18n.CompactNumberFormatSymbols_eu_ES" ∷ "i18n.CompactNumberFormatSymbols_ewo"
          ∷ "i18n.CompactNumberFormatSymbols_ewo_CM" ∷ [],
    )
    ∷ ("i18n:compactnumberformatsymbols", "i18n.CompactNumberFormatSymbols_fa" ∷ [])
    ∷ (
      "i18n:compactnumberformatsymbolsext",
      "i18n.CompactNumberFormatSymbols_fa_AF" ∷ "i18n.CompactNumberFormatSymbols_fa_IR"
          ∷ "i18n.CompactNumberFormatSymbols_ff" ∷ [],
    )
    ∷ ("i18n:compactnumberformatsymbols", "i18n.CompactNumberFormatSymbols_fi" ∷ [])
    ∷ ("i18n:compactnumberformatsymbolsext", "i18n.CompactNumberFormatSymbols_fi_FI" ∷ [])
    ∷ ("i18n:compactnumberformatsymbols", "i18n.CompactNumberFormatSymbols_fil" ∷ [])
    ∷ (
      "i18n:compactnumberformatsymbolsext",
      "i18n.CompactNumberFormatSymbols_fil_PH" ∷ "i18n.CompactNumberFormatSymbols_fo"
          ∷ "i18n.CompactNumberFormatSymbols_fo_DK" ∷ "i18n.CompactNumberFormatSymbols_fo_FO" ∷ [],
    )
    ∷ ("i18n:compactnumberformatsymbols", "i18n.CompactNumberFormatSymbols_fr" ∷ [])
    ∷ (
      "i18n:compactnumberformatsymbolsext",
      "i18n.CompactNumberFormatSymbols_fr_BE" ∷ "i18n.CompactNumberFormatSymbols_fr_BF"
          ∷ "i18n.CompactNumberFormatSymbols_fr_BI" ∷ "i18n.CompactNumberFormatSymbols_fr_BJ"
          ∷ "i18n.CompactNumberFormatSymbols_fr_BL" ∷ [],
    )
    ∷ ("i18n:compactnumberformatsymbols", "i18n.CompactNumberFormatSymbols_fr_CA" ∷ [])
    ∷ (
      "i18n:compactnumberformatsymbolsext",
      "i18n.CompactNumberFormatSymbols_fr_CD" ∷ "i18n.CompactNumberFormatSymbols_fr_CF"
          ∷ "i18n.CompactNumberFormatSymbols_fr_CG" ∷ "i18n.CompactNumberFormatSymbols_fr_CH"
          ∷ "i18n.CompactNumberFormatSymbols_fr_CI" ∷ "i18n.CompactNumberFormatSymbols_fr_CM"
          ∷ "i18n.CompactNumberFormatSymbols_fr_DJ" ∷ "i18n.CompactNumberFormatSymbols_fr_DZ"
          ∷ "i18n.CompactNumberFormatSymbols_fr_FR" ∷ "i18n.CompactNumberFormatSymbols_fr_GA"
          ∷ "i18n.CompactNumberFormatSymbols_fr_GF" ∷ "i18n.CompactNumberFormatSymbols_fr_GN"
          ∷ "i18n.CompactNumberFormatSymbols_fr_GP" ∷ "i18n.CompactNumberFormatSymbols_fr_GQ"
          ∷ "i18n.CompactNumberFormatSymbols_fr_HT" ∷ "i18n.CompactNumberFormatSymbols_fr_KM"
          ∷ "i18n.CompactNumberFormatSymbols_fr_LU" ∷ "i18n.CompactNumberFormatSymbols_fr_MA"
          ∷ "i18n.CompactNumberFormatSymbols_fr_MC" ∷ "i18n.CompactNumberFormatSymbols_fr_MF"
          ∷ "i18n.CompactNumberFormatSymbols_fr_MG" ∷ "i18n.CompactNumberFormatSymbols_fr_ML"
          ∷ "i18n.CompactNumberFormatSymbols_fr_MQ" ∷ "i18n.CompactNumberFormatSymbols_fr_MR"
          ∷ "i18n.CompactNumberFormatSymbols_fr_MU" ∷ "i18n.CompactNumberFormatSymbols_fr_NC"
          ∷ "i18n.CompactNumberFormatSymbols_fr_NE" ∷ "i18n.CompactNumberFormatSymbols_fr_PF"
          ∷ "i18n.CompactNumberFormatSymbols_fr_PM" ∷ "i18n.CompactNumberFormatSymbols_fr_RE"
          ∷ "i18n.CompactNumberFormatSymbols_fr_RW" ∷ "i18n.CompactNumberFormatSymbols_fr_SC"
          ∷ "i18n.CompactNumberFormatSymbols_fr_SN" ∷ "i18n.CompactNumberFormatSymbols_fr_SY"
          ∷ "i18n.CompactNumberFormatSymbols_fr_TD" ∷ "i18n.CompactNumberFormatSymbols_fr_TG"
          ∷ "i18n.CompactNumberFormatSymbols_fr_TN" ∷ "i18n.CompactNumberFormatSymbols_fr_VU"
          ∷ "i18n.CompactNumberFormatSymbols_fr_WF" ∷ "i18n.CompactNumberFormatSymbols_fr_YT"
          ∷ "i18n.CompactNumberFormatSymbols_fur" ∷ "i18n.CompactNumberFormatSymbols_fur_IT"
          ∷ "i18n.CompactNumberFormatSymbols_fy" ∷ "i18n.CompactNumberFormatSymbols_fy_NL" ∷ [],
    )
    ∷ ("i18n:compactnumberformatsymbols", "i18n.CompactNumberFormatSymbols_ga" ∷ [])
    ∷ (
      "i18n:compactnumberformatsymbolsext",
      "i18n.CompactNumberFormatSymbols_ga_IE" ∷ "i18n.CompactNumberFormatSymbols_gd"
          ∷ "i18n.CompactNumberFormatSymbols_gd_GB" ∷ [],
    )
    ∷ ("i18n:compactnumberformatsymbols", "i18n.CompactNumberFormatSymbols_gl" ∷ [])
    ∷ ("i18n:compactnumberformatsymbolsext", "i18n.CompactNumberFormatSymbols_gl_ES" ∷ [])
    ∷ ("i18n:compactnumberformatsymbols", "i18n.CompactNumberFormatSymbols_gsw" ∷ [])
    ∷ (
      "i18n:compactnumberformatsymbolsext",
      "i18n.CompactNumberFormatSymbols_gsw_CH" ∷ "i18n.CompactNumberFormatSymbols_gsw_FR"
          ∷ "i18n.CompactNumberFormatSymbols_gsw_LI" ∷ [],
    )
    ∷ ("i18n:compactnumberformatsymbols", "i18n.CompactNumberFormatSymbols_gu" ∷ [])
    ∷ (
      "i18n:compactnumberformatsymbolsext",
      "i18n.CompactNumberFormatSymbols_gu_IN" ∷ "i18n.CompactNumberFormatSymbols_guz"
          ∷ "i18n.CompactNumberFormatSymbols_guz_KE" ∷ "i18n.CompactNumberFormatSymbols_gv"
          ∷ "i18n.CompactNumberFormatSymbols_gv_IM" ∷ "i18n.CompactNumberFormatSymbols_ha"
          ∷ "i18n.CompactNumberFormatSymbols_ha_GH" ∷ "i18n.CompactNumberFormatSymbols_ha_NE"
          ∷ "i18n.CompactNumberFormatSymbols_ha_NG" ∷ [],
    )
    ∷ ("i18n:compactnumberformatsymbols", "i18n.CompactNumberFormatSymbols_haw" ∷ [])
    ∷ ("i18n:compactnumberformatsymbolsext", "i18n.CompactNumberFormatSymbols_haw_US" ∷ [])
    ∷ ("i18n:compactnumberformatsymbols", "i18n.CompactNumberFormatSymbols_he" ∷ [])
    ∷ ("i18n:compactnumberformatsymbolsext", "i18n.CompactNumberFormatSymbols_he_IL" ∷ [])
    ∷ ("i18n:compactnumberformatsymbols", "i18n.CompactNumberFormatSymbols_hi" ∷ [])
    ∷ ("i18n:compactnumberformatsymbolsext", "i18n.CompactNumberFormatSymbols_hi_IN" ∷ [])
    ∷ ("i18n:compactnumberformatsymbols", "i18n.CompactNumberFormatSymbols_hr" ∷ [])
    ∷ (
      "i18n:compactnumberformatsymbolsext",
      "i18n.CompactNumberFormatSymbols_hr_BA" ∷ "i18n.CompactNumberFormatSymbols_hr_HR"
          ∷ "i18n.CompactNumberFormatSymbols_hsb" ∷ "i18n.CompactNumberFormatSymbols_hsb_DE" ∷ [],
    )
    ∷ ("i18n:compactnumberformatsymbols", "i18n.CompactNumberFormatSymbols_hu" ∷ [])
    ∷ ("i18n:compactnumberformatsymbolsext", "i18n.CompactNumberFormatSymbols_hu_HU" ∷ [])
    ∷ ("i18n:compactnumberformatsymbols", "i18n.CompactNumberFormatSymbols_hy" ∷ [])
    ∷ (
      "i18n:compactnumberformatsymbolsext",
      "i18n.CompactNumberFormatSymbols_hy_AM" ∷ "i18n.CompactNumberFormatSymbols_ia"
          ∷ "i18n.CompactNumberFormatSymbols_ia_001" ∷ [],
    )
    ∷ ("i18n:compactnumberformatsymbols", "i18n.CompactNumberFormatSymbols_id" ∷ [])
    ∷ ("i18n:compactnumberformatsymbolsext", "i18n.CompactNumberFormatSymbols_id_ID" ∷ [])
    ∷ [])
