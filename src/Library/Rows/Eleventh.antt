-- ===== src/Library/Rows/Eleventh.antt =====
-- Lines 1506 to 1655 of gazelle/closure_js/closure_library/closure_library.go.
use rules_closure.Prelude.{List, [], ◌∷◌}
use rules_closure.Library.{Row, goog_rows}

abbrev pub eleventh_rows : List Row
eleventh_rows = goog_rows (
    ("i18n:datetimepatternsext", "i18n.DateTimePatterns_en_UG" ∷ "i18n.DateTimePatterns_en_UM" ∷ [])
    ∷ ("i18n:datetimepatterns", "i18n.DateTimePatterns_en_US" ∷ [])
    ∷ (
      "i18n:datetimepatternsext",
      "i18n.DateTimePatterns_en_US_POSIX" ∷ "i18n.DateTimePatterns_en_VC"
          ∷ "i18n.DateTimePatterns_en_VG" ∷ "i18n.DateTimePatterns_en_VI"
          ∷ "i18n.DateTimePatterns_en_VU" ∷ "i18n.DateTimePatterns_en_WS"
          ∷ "i18n.DateTimePatterns_en_XA" ∷ [],
    )
    ∷ ("i18n:datetimepatterns", "i18n.DateTimePatterns_en_ZA" ∷ [])
    ∷ (
      "i18n:datetimepatternsext",
      "i18n.DateTimePatterns_en_ZM" ∷ "i18n.DateTimePatterns_en_ZW" ∷ "i18n.DateTimePatterns_eo"
          ∷ [],
    )
    ∷ ("i18n:datetimepatterns", "i18n.DateTimePatterns_es" ∷ "i18n.DateTimePatterns_es_419" ∷ [])
    ∷ (
      "i18n:datetimepatternsext",
      "i18n.DateTimePatterns_es_AR" ∷ "i18n.DateTimePatterns_es_BO" ∷ "i18n.DateTimePatterns_es_BR"
          ∷ "i18n.DateTimePatterns_es_BZ" ∷ "i18n.DateTimePatterns_es_CL"
          ∷ "i18n.DateTimePatterns_es_CO" ∷ "i18n.DateTimePatterns_es_CR"
          ∷ "i18n.DateTimePatterns_es_CU" ∷ "i18n.DateTimePatterns_es_DO"
          ∷ "i18n.DateTimePatterns_es_EA" ∷ "i18n.DateTimePatterns_es_EC" ∷ [],
    )
    ∷ ("i18n:datetimepatterns", "i18n.DateTimePatterns_es_ES" ∷ [])
    ∷ (
      "i18n:datetimepatternsext",
      "i18n.DateTimePatterns_es_GQ" ∷ "i18n.DateTimePatterns_es_GT" ∷ "i18n.DateTimePatterns_es_HN"
          ∷ "i18n.DateTimePatterns_es_IC" ∷ [],
    )
    ∷ ("i18n:datetimepatterns", "i18n.DateTimePatterns_es_MX" ∷ [])
    ∷ (
      "i18n:datetimepatternsext",
      "i18n.DateTimePatterns_es_NI" ∷ "i18n.DateTimePatterns_es_PA" ∷ "i18n.DateTimePatterns_es_PE"
          ∷ "i18n.DateTimePatterns_es_PH" ∷ "i18n.DateTimePatterns_es_PR"
          ∷ "i18n.DateTimePatterns_es_PY" ∷ "i18n.DateTimePatterns_es_SV" ∷ [],
    )
    ∷ ("i18n:datetimepatterns", "i18n.DateTimePatterns_es_US" ∷ [])
    ∷ (
      "i18n:datetimepatternsext",
      "i18n.DateTimePatterns_es_UY" ∷ "i18n.DateTimePatterns_es_VE" ∷ [],
    )
    ∷ ("i18n:datetimepatterns", "i18n.DateTimePatterns_et" ∷ [])
    ∷ ("i18n:datetimepatternsext", "i18n.DateTimePatterns_et_EE" ∷ [])
    ∷ ("i18n:datetimepatterns", "i18n.DateTimePatterns_eu" ∷ [])
    ∷ (
      "i18n:datetimepatternsext",
      "i18n.DateTimePatterns_eu_ES" ∷ "i18n.DateTimePatterns_ewo" ∷ "i18n.DateTimePatterns_ewo_CM"
          ∷ [],
    )
    ∷ ("i18n:datetimepatterns", "i18n.DateTimePatterns_fa" ∷ [])
    ∷ (
      "i18n:datetimepatternsext",
      "i18n.DateTimePatterns_fa_AF" ∷ "i18n.DateTimePatterns_fa_IR" ∷ "i18n.DateTimePatterns_ff"
          ∷ [],
    )
    ∷ ("i18n:datetimepatterns", "i18n.DateTimePatterns_fi" ∷ [])
    ∷ ("i18n:datetimepatternsext", "i18n.DateTimePatterns_fi_FI" ∷ [])
    ∷ ("i18n:datetimepatterns", "i18n.DateTimePatterns_fil" ∷ [])
    ∷ (
      "i18n:datetimepatternsext",
      "i18n.DateTimePatterns_fil_PH" ∷ "i18n.DateTimePatterns_fo" ∷ "i18n.DateTimePatterns_fo_DK"
          ∷ "i18n.DateTimePatterns_fo_FO" ∷ [],
    )
    ∷ ("i18n:datetimepatterns", "i18n.DateTimePatterns_fr" ∷ [])
    ∷ (
      "i18n:datetimepatternsext",
      "i18n.DateTimePatterns_fr_BE" ∷ "i18n.DateTimePatterns_fr_BF" ∷ "i18n.DateTimePatterns_fr_BI"
          ∷ "i18n.DateTimePatterns_fr_BJ" ∷ "i18n.DateTimePatterns_fr_BL" ∷ [],
    )
    ∷ ("i18n:datetimepatterns", "i18n.DateTimePatterns_fr_CA" ∷ [])
    ∷ (
      "i18n:datetimepatternsext",
      "i18n.DateTimePatterns_fr_CD" ∷ "i18n.DateTimePatterns_fr_CF" ∷ "i18n.DateTimePatterns_fr_CG"
          ∷ "i18n.DateTimePatterns_fr_CH" ∷ "i18n.DateTimePatterns_fr_CI"
          ∷ "i18n.DateTimePatterns_fr_CM" ∷ "i18n.DateTimePatterns_fr_DJ"
          ∷ "i18n.DateTimePatterns_fr_DZ" ∷ "i18n.DateTimePatterns_fr_FR"
          ∷ "i18n.DateTimePatterns_fr_GA" ∷ "i18n.DateTimePatterns_fr_GF"
          ∷ "i18n.DateTimePatterns_fr_GN" ∷ "i18n.DateTimePatterns_fr_GP"
          ∷ "i18n.DateTimePatterns_fr_GQ" ∷ "i18n.DateTimePatterns_fr_HT"
          ∷ "i18n.DateTimePatterns_fr_KM" ∷ "i18n.DateTimePatterns_fr_LU"
          ∷ "i18n.DateTimePatterns_fr_MA" ∷ "i18n.DateTimePatterns_fr_MC"
          ∷ "i18n.DateTimePatterns_fr_MF" ∷ "i18n.DateTimePatterns_fr_MG"
          ∷ "i18n.DateTimePatterns_fr_ML" ∷ "i18n.DateTimePatterns_fr_MQ"
          ∷ "i18n.DateTimePatterns_fr_MR" ∷ "i18n.DateTimePatterns_fr_MU"
          ∷ "i18n.DateTimePatterns_fr_NC" ∷ "i18n.DateTimePatterns_fr_NE"
          ∷ "i18n.DateTimePatterns_fr_PF" ∷ "i18n.DateTimePatterns_fr_PM"
          ∷ "i18n.DateTimePatterns_fr_RE" ∷ "i18n.DateTimePatterns_fr_RW"
          ∷ "i18n.DateTimePatterns_fr_SC" ∷ "i18n.DateTimePatterns_fr_SN"
          ∷ "i18n.DateTimePatterns_fr_SY" ∷ "i18n.DateTimePatterns_fr_TD"
          ∷ "i18n.DateTimePatterns_fr_TG" ∷ "i18n.DateTimePatterns_fr_TN"
          ∷ "i18n.DateTimePatterns_fr_VU" ∷ "i18n.DateTimePatterns_fr_WF"
          ∷ "i18n.DateTimePatterns_fr_YT" ∷ "i18n.DateTimePatterns_fur"
          ∷ "i18n.DateTimePatterns_fur_IT" ∷ "i18n.DateTimePatterns_fy"
          ∷ "i18n.DateTimePatterns_fy_NL" ∷ [],
    )
    ∷ ("i18n:datetimepatterns", "i18n.DateTimePatterns_ga" ∷ [])
    ∷ (
      "i18n:datetimepatternsext",
      "i18n.DateTimePatterns_ga_IE" ∷ "i18n.DateTimePatterns_gd" ∷ "i18n.DateTimePatterns_gd_GB"
          ∷ [],
    )
    ∷ ("i18n:datetimepatterns", "i18n.DateTimePatterns_gl" ∷ [])
    ∷ ("i18n:datetimepatternsext", "i18n.DateTimePatterns_gl_ES" ∷ [])
    ∷ ("i18n:datetimepatterns", "i18n.DateTimePatterns_gsw" ∷ [])
    ∷ (
      "i18n:datetimepatternsext",
      "i18n.DateTimePatterns_gsw_CH" ∷ "i18n.DateTimePatterns_gsw_FR"
          ∷ "i18n.DateTimePatterns_gsw_LI" ∷ [],
    )
    ∷ ("i18n:datetimepatterns", "i18n.DateTimePatterns_gu" ∷ [])
    ∷ (
      "i18n:datetimepatternsext",
      "i18n.DateTimePatterns_gu_IN" ∷ "i18n.DateTimePatterns_guz" ∷ "i18n.DateTimePatterns_guz_KE"
          ∷ "i18n.DateTimePatterns_gv" ∷ "i18n.DateTimePatterns_gv_IM" ∷ "i18n.DateTimePatterns_ha"
          ∷ "i18n.DateTimePatterns_ha_GH" ∷ "i18n.DateTimePatterns_ha_NE"
          ∷ "i18n.DateTimePatterns_ha_NG" ∷ [],
    )
    ∷ ("i18n:datetimepatterns", "i18n.DateTimePatterns_haw" ∷ [])
    ∷ ("i18n:datetimepatternsext", "i18n.DateTimePatterns_haw_US" ∷ [])
    ∷ ("i18n:datetimepatterns", "i18n.DateTimePatterns_he" ∷ [])
    ∷ ("i18n:datetimepatternsext", "i18n.DateTimePatterns_he_IL" ∷ [])
    ∷ ("i18n:datetimepatterns", "i18n.DateTimePatterns_hi" ∷ [])
    ∷ ("i18n:datetimepatternsext", "i18n.DateTimePatterns_hi_IN" ∷ [])
    ∷ ("i18n:datetimepatterns", "i18n.DateTimePatterns_hr" ∷ [])
    ∷ (
      "i18n:datetimepatternsext",
      "i18n.DateTimePatterns_hr_BA" ∷ "i18n.DateTimePatterns_hr_HR" ∷ "i18n.DateTimePatterns_hsb"
          ∷ "i18n.DateTimePatterns_hsb_DE" ∷ [],
    )
    ∷ ("i18n:datetimepatterns", "i18n.DateTimePatterns_hu" ∷ [])
    ∷ ("i18n:datetimepatternsext", "i18n.DateTimePatterns_hu_HU" ∷ [])
    ∷ ("i18n:datetimepatterns", "i18n.DateTimePatterns_hy" ∷ [])
    ∷ (
      "i18n:datetimepatternsext",
      "i18n.DateTimePatterns_hy_AM" ∷ "i18n.DateTimePatterns_ia" ∷ "i18n.DateTimePatterns_ia_001"
          ∷ [],
    )
    ∷ ("i18n:datetimepatterns", "i18n.DateTimePatterns_id" ∷ [])
    ∷ ("i18n:datetimepatternsext", "i18n.DateTimePatterns_id_ID" ∷ [])
    ∷ [])
