-- ===== src/Library/Rows/TwentySeventh.antt =====
-- Lines 3906 to 4055 of gazelle/closure_js/closure_library/closure_library.go.
use rules_closure.Prelude.{List, [], ◌∷◌}
use rules_closure.Library.{Row, goog_rows}

abbrev pub twenty_seventh_rows : List Row
twenty_seventh_rows = goog_rows (
    ("labs/i18n:listsymbols", "labs.i18n.ListFormatSymbols_es_US" ∷ [])
    ∷ (
      "labs/i18n:listsymbolsext",
      "labs.i18n.ListFormatSymbols_es_UY" ∷ "labs.i18n.ListFormatSymbols_es_VE" ∷ [],
    )
    ∷ ("labs/i18n:listsymbols", "labs.i18n.ListFormatSymbols_et" ∷ [])
    ∷ ("labs/i18n:listsymbolsext", "labs.i18n.ListFormatSymbols_et_EE" ∷ [])
    ∷ ("labs/i18n:listsymbols", "labs.i18n.ListFormatSymbols_eu" ∷ [])
    ∷ (
      "labs/i18n:listsymbolsext",
      "labs.i18n.ListFormatSymbols_eu_ES" ∷ "labs.i18n.ListFormatSymbols_ewo"
          ∷ "labs.i18n.ListFormatSymbols_ewo_CM" ∷ [],
    )
    ∷ ("labs/i18n:listsymbols", "labs.i18n.ListFormatSymbols_fa" ∷ [])
    ∷ (
      "labs/i18n:listsymbolsext",
      "labs.i18n.ListFormatSymbols_fa_AF" ∷ "labs.i18n.ListFormatSymbols_fa_IR"
          ∷ "labs.i18n.ListFormatSymbols_ff" ∷ [],
    )
    ∷ ("labs/i18n:listsymbols", "labs.i18n.ListFormatSymbols_fi" ∷ [])
    ∷ ("labs/i18n:listsymbolsext", "labs.i18n.ListFormatSymbols_fi_FI" ∷ [])
    ∷ ("labs/i18n:listsymbols", "labs.i18n.ListFormatSymbols_fil" ∷ [])
    ∷ (
      "labs/i18n:listsymbolsext",
      "labs.i18n.ListFormatSymbols_fil_PH" ∷ "labs.i18n.ListFormatSymbols_fo"
          ∷ "labs.i18n.ListFormatSymbols_fo_DK" ∷ "labs.i18n.ListFormatSymbols_fo_FO" ∷ [],
    )
    ∷ ("labs/i18n:listsymbols", "labs.i18n.ListFormatSymbols_fr" ∷ [])
    ∷ (
      "labs/i18n:listsymbolsext",
      "labs.i18n.ListFormatSymbols_fr_BE" ∷ "labs.i18n.ListFormatSymbols_fr_BF"
          ∷ "labs.i18n.ListFormatSymbols_fr_BI" ∷ "labs.i18n.ListFormatSymbols_fr_BJ"
          ∷ "labs.i18n.ListFormatSymbols_fr_BL" ∷ [],
    )
    ∷ ("labs/i18n:listsymbols", "labs.i18n.ListFormatSymbols_fr_CA" ∷ [])
    ∷ (
      "labs/i18n:listsymbolsext",
      "labs.i18n.ListFormatSymbols_fr_CD" ∷ "labs.i18n.ListFormatSymbols_fr_CF"
          ∷ "labs.i18n.ListFormatSymbols_fr_CG" ∷ "labs.i18n.ListFormatSymbols_fr_CH"
          ∷ "labs.i18n.ListFormatSymbols_fr_CI" ∷ "labs.i18n.ListFormatSymbols_fr_CM"
          ∷ "labs.i18n.ListFormatSymbols_fr_DJ" ∷ "labs.i18n.ListFormatSymbols_fr_DZ"
          ∷ "labs.i18n.ListFormatSymbols_fr_FR" ∷ "labs.i18n.ListFormatSymbols_fr_GA"
          ∷ "labs.i18n.ListFormatSymbols_fr_GF" ∷ "labs.i18n.ListFormatSymbols_fr_GN"
          ∷ "labs.i18n.ListFormatSymbols_fr_GP" ∷ "labs.i18n.ListFormatSymbols_fr_GQ"
          ∷ "labs.i18n.ListFormatSymbols_fr_HT" ∷ "labs.i18n.ListFormatSymbols_fr_KM"
          ∷ "labs.i18n.ListFormatSymbols_fr_LU" ∷ "labs.i18n.ListFormatSymbols_fr_MA"
          ∷ "labs.i18n.ListFormatSymbols_fr_MC" ∷ "labs.i18n.ListFormatSymbols_fr_MF"
          ∷ "labs.i18n.ListFormatSymbols_fr_MG" ∷ "labs.i18n.ListFormatSymbols_fr_ML"
          ∷ "labs.i18n.ListFormatSymbols_fr_MQ" ∷ "labs.i18n.ListFormatSymbols_fr_MR"
          ∷ "labs.i18n.ListFormatSymbols_fr_MU" ∷ "labs.i18n.ListFormatSymbols_fr_NC"
          ∷ "labs.i18n.ListFormatSymbols_fr_NE" ∷ "labs.i18n.ListFormatSymbols_fr_PF"
          ∷ "labs.i18n.ListFormatSymbols_fr_PM" ∷ "labs.i18n.ListFormatSymbols_fr_RE"
          ∷ "labs.i18n.ListFormatSymbols_fr_RW" ∷ "labs.i18n.ListFormatSymbols_fr_SC"
          ∷ "labs.i18n.ListFormatSymbols_fr_SN" ∷ "labs.i18n.ListFormatSymbols_fr_SY"
          ∷ "labs.i18n.ListFormatSymbols_fr_TD" ∷ "labs.i18n.ListFormatSymbols_fr_TG"
          ∷ "labs.i18n.ListFormatSymbols_fr_TN" ∷ "labs.i18n.ListFormatSymbols_fr_VU"
          ∷ "labs.i18n.ListFormatSymbols_fr_WF" ∷ "labs.i18n.ListFormatSymbols_fr_YT"
          ∷ "labs.i18n.ListFormatSymbols_fur" ∷ "labs.i18n.ListFormatSymbols_fur_IT"
          ∷ "labs.i18n.ListFormatSymbols_fy" ∷ "labs.i18n.ListFormatSymbols_fy_NL" ∷ [],
    )
    ∷ ("labs/i18n:listsymbols", "labs.i18n.ListFormatSymbols_ga" ∷ [])
    ∷ (
      "labs/i18n:listsymbolsext",
      "labs.i18n.ListFormatSymbols_ga_IE" ∷ "labs.i18n.ListFormatSymbols_gd"
          ∷ "labs.i18n.ListFormatSymbols_gd_GB" ∷ [],
    )
    ∷ ("labs/i18n:listsymbols", "labs.i18n.ListFormatSymbols_gl" ∷ [])
    ∷ ("labs/i18n:listsymbolsext", "labs.i18n.ListFormatSymbols_gl_ES" ∷ [])
    ∷ ("labs/i18n:listsymbols", "labs.i18n.ListFormatSymbols_gsw" ∷ [])
    ∷ (
      "labs/i18n:listsymbolsext",
      "labs.i18n.ListFormatSymbols_gsw_CH" ∷ "labs.i18n.ListFormatSymbols_gsw_FR"
          ∷ "labs.i18n.ListFormatSymbols_gsw_LI" ∷ [],
    )
    ∷ ("labs/i18n:listsymbols", "labs.i18n.ListFormatSymbols_gu" ∷ [])
    ∷ (
      "labs/i18n:listsymbolsext",
      "labs.i18n.ListFormatSymbols_gu_IN" ∷ "labs.i18n.ListFormatSymbols_guz"
          ∷ "labs.i18n.ListFormatSymbols_guz_KE" ∷ "labs.i18n.ListFormatSymbols_gv"
          ∷ "labs.i18n.ListFormatSymbols_gv_IM" ∷ "labs.i18n.ListFormatSymbols_ha"
          ∷ "labs.i18n.ListFormatSymbols_ha_GH" ∷ "labs.i18n.ListFormatSymbols_ha_NE"
          ∷ "labs.i18n.ListFormatSymbols_ha_NG" ∷ [],
    )
    ∷ ("labs/i18n:listsymbols", "labs.i18n.ListFormatSymbols_haw" ∷ [])
    ∷ ("labs/i18n:listsymbolsext", "labs.i18n.ListFormatSymbols_haw_US" ∷ [])
    ∷ ("labs/i18n:listsymbols", "labs.i18n.ListFormatSymbols_he" ∷ [])
    ∷ ("labs/i18n:listsymbolsext", "labs.i18n.ListFormatSymbols_he_IL" ∷ [])
    ∷ ("labs/i18n:listsymbols", "labs.i18n.ListFormatSymbols_hi" ∷ [])
    ∷ ("labs/i18n:listsymbolsext", "labs.i18n.ListFormatSymbols_hi_IN" ∷ [])
    ∷ ("labs/i18n:listsymbols", "labs.i18n.ListFormatSymbols_hr" ∷ [])
    ∷ (
      "labs/i18n:listsymbolsext",
      "labs.i18n.ListFormatSymbols_hr_BA" ∷ "labs.i18n.ListFormatSymbols_hr_HR"
          ∷ "labs.i18n.ListFormatSymbols_hsb" ∷ "labs.i18n.ListFormatSymbols_hsb_DE" ∷ [],
    )
    ∷ ("labs/i18n:listsymbols", "labs.i18n.ListFormatSymbols_hu" ∷ [])
    ∷ ("labs/i18n:listsymbolsext", "labs.i18n.ListFormatSymbols_hu_HU" ∷ [])
    ∷ ("labs/i18n:listsymbols", "labs.i18n.ListFormatSymbols_hy" ∷ [])
    ∷ (
      "labs/i18n:listsymbolsext",
      "labs.i18n.ListFormatSymbols_hy_AM" ∷ "labs.i18n.ListFormatSymbols_ia"
          ∷ "labs.i18n.ListFormatSymbols_ia_001" ∷ [],
    )
    ∷ ("labs/i18n:listsymbols", "labs.i18n.ListFormatSymbols_id" ∷ [])
    ∷ (
      "labs/i18n:listsymbolsext",
      "labs.i18n.ListFormatSymbols_id_ID" ∷ "labs.i18n.ListFormatSymbols_ig"
          ∷ "labs.i18n.ListFormatSymbols_ig_NG" ∷ "labs.i18n.ListFormatSymbols_ii"
          ∷ "labs.i18n.ListFormatSymbols_ii_CN" ∷ [],
    )
    ∷ (
      "labs/i18n:listsymbols",
      "labs.i18n.ListFormatSymbols_in" ∷ "labs.i18n.ListFormatSymbols_is" ∷ [],
    )
    ∷ ("labs/i18n:listsymbolsext", "labs.i18n.ListFormatSymbols_is_IS" ∷ [])
    ∷ ("labs/i18n:listsymbols", "labs.i18n.ListFormatSymbols_it" ∷ [])
    ∷ (
      "labs/i18n:listsymbolsext",
      "labs.i18n.ListFormatSymbols_it_CH" ∷ "labs.i18n.ListFormatSymbols_it_IT"
          ∷ "labs.i18n.ListFormatSymbols_it_SM" ∷ "labs.i18n.ListFormatSymbols_it_VA" ∷ [],
    )
    ∷ (
      "labs/i18n:listsymbols",
      "labs.i18n.ListFormatSymbols_iw" ∷ "labs.i18n.ListFormatSymbols_ja" ∷ [],
    )
    ∷ (
      "labs/i18n:listsymbolsext",
      "labs.i18n.ListFormatSymbols_ja_JP" ∷ "labs.i18n.ListFormatSymbols_jgo"
          ∷ "labs.i18n.ListFormatSymbols_jgo_CM" ∷ "labs.i18n.ListFormatSymbols_jmc"
          ∷ "labs.i18n.ListFormatSymbols_jmc_TZ" ∷ "labs.i18n.ListFormatSymbols_jv"
          ∷ "labs.i18n.ListFormatSymbols_jv_ID" ∷ [],
    )
    ∷ ("labs/i18n:listsymbols", "labs.i18n.ListFormatSymbols_ka" ∷ [])
    ∷ (
      "labs/i18n:listsymbolsext",
      "labs.i18n.ListFormatSymbols_ka_GE" ∷ "labs.i18n.ListFormatSymbols_kab"
          ∷ "labs.i18n.ListFormatSymbols_kab_DZ" ∷ "labs.i18n.ListFormatSymbols_kam"
          ∷ "labs.i18n.ListFormatSymbols_kam_KE" ∷ "labs.i18n.ListFormatSymbols_kde"
          ∷ "labs.i18n.ListFormatSymbols_kde_TZ" ∷ "labs.i18n.ListFormatSymbols_kea"
          ∷ "labs.i18n.ListFormatSymbols_kea_CV" ∷ "labs.i18n.ListFormatSymbols_khq"
          ∷ "labs.i18n.ListFormatSymbols_khq_ML" ∷ "labs.i18n.ListFormatSymbols_ki"
          ∷ "labs.i18n.ListFormatSymbols_ki_KE" ∷ [],
    )
    ∷ ("labs/i18n:listsymbols", "labs.i18n.ListFormatSymbols_kk" ∷ [])
    ∷ (
      "labs/i18n:listsymbolsext",
      "labs.i18n.ListFormatSymbols_kk_KZ" ∷ "labs.i18n.ListFormatSymbols_kkj"
          ∷ "labs.i18n.ListFormatSymbols_kkj_CM" ∷ "labs.i18n.ListFormatSymbols_kl" ∷ [],
    )
    ∷ [])
