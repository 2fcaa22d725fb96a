-- ===== src/Library/Rows/TwentySecond.antt =====
-- Lines 3156 to 3305 of gazelle/closure_js/closure_library/closure_library.go.
use rules_closure.Prelude.{List, [], ◌∷◌}
use rules_closure.Library.{Row, goog_rows}

abbrev pub twenty_second_rows : List Row
twenty_second_rows = goog_rows (
    (
      "i18n:numberformatsymbolsext",
      "i18n.NumberFormatSymbols_gd" ∷ "i18n.NumberFormatSymbols_gd_GB" ∷ [],
    )
    ∷ ("i18n:numberformatsymbols", "i18n.NumberFormatSymbols_gl" ∷ [])
    ∷ ("i18n:numberformatsymbolsext", "i18n.NumberFormatSymbols_gl_ES" ∷ [])
    ∷ ("i18n:numberformatsymbols", "i18n.NumberFormatSymbols_gsw" ∷ [])
    ∷ (
      "i18n:numberformatsymbolsext",
      "i18n.NumberFormatSymbols_gsw_CH" ∷ "i18n.NumberFormatSymbols_gsw_FR"
          ∷ "i18n.NumberFormatSymbols_gsw_LI" ∷ [],
    )
    ∷ ("i18n:numberformatsymbols", "i18n.NumberFormatSymbols_gu" ∷ [])
    ∷ (
      "i18n:numberformatsymbolsext",
      "i18n.NumberFormatSymbols_gu_IN" ∷ "i18n.NumberFormatSymbols_guz"
          ∷ "i18n.NumberFormatSymbols_guz_KE" ∷ "i18n.NumberFormatSymbols_gv"
          ∷ "i18n.NumberFormatSymbols_gv_IM" ∷ "i18n.NumberFormatSymbols_ha"
          ∷ "i18n.NumberFormatSymbols_ha_GH" ∷ "i18n.NumberFormatSymbols_ha_NE"
          ∷ "i18n.NumberFormatSymbols_ha_NG" ∷ [],
    )
    ∷ ("i18n:numberformatsymbols", "i18n.NumberFormatSymbols_haw" ∷ [])
    ∷ ("i18n:numberformatsymbolsext", "i18n.NumberFormatSymbols_haw_US" ∷ [])
    ∷ ("i18n:numberformatsymbols", "i18n.NumberFormatSymbols_he" ∷ [])
    ∷ ("i18n:numberformatsymbolsext", "i18n.NumberFormatSymbols_he_IL" ∷ [])
    ∷ ("i18n:numberformatsymbols", "i18n.NumberFormatSymbols_hi" ∷ [])
    ∷ ("i18n:numberformatsymbolsext", "i18n.NumberFormatSymbols_hi_IN" ∷ [])
    ∷ ("i18n:numberformatsymbols", "i18n.NumberFormatSymbols_hr" ∷ [])
    ∷ (
      "i18n:numberformatsymbolsext",
      "i18n.NumberFormatSymbols_hr_BA" ∷ "i18n.NumberFormatSymbols_hr_HR"
          ∷ "i18n.NumberFormatSymbols_hsb" ∷ "i18n.NumberFormatSymbols_hsb_DE" ∷ [],
    )
    ∷ ("i18n:numberformatsymbols", "i18n.NumberFormatSymbols_hu" ∷ [])
    ∷ ("i18n:numberformatsymbolsext", "i18n.NumberFormatSymbols_hu_HU" ∷ [])
    ∷ ("i18n:numberformatsymbols", "i18n.NumberFormatSymbols_hy" ∷ [])
    ∷ (
      "i18n:numberformatsymbolsext",
      "i18n.NumberFormatSymbols_hy_AM" ∷ "i18n.NumberFormatSymbols_ia"
          ∷ "i18n.NumberFormatSymbols_ia_001" ∷ [],
    )
    ∷ ("i18n:numberformatsymbols", "i18n.NumberFormatSymbols_id" ∷ [])
    ∷ (
      "i18n:numberformatsymbolsext",
      "i18n.NumberFormatSymbols_id_ID" ∷ "i18n.NumberFormatSymbols_ig"
          ∷ "i18n.NumberFormatSymbols_ig_NG" ∷ "i18n.NumberFormatSymbols_ii"
          ∷ "i18n.NumberFormatSymbols_ii_CN" ∷ [],
    )
    ∷ (
      "i18n:numberformatsymbols",
      "i18n.NumberFormatSymbols_in" ∷ "i18n.NumberFormatSymbols_is" ∷ [],
    )
    ∷ ("i18n:numberformatsymbolsext", "i18n.NumberFormatSymbols_is_IS" ∷ [])
    ∷ ("i18n:numberformatsymbols", "i18n.NumberFormatSymbols_it" ∷ [])
    ∷ (
      "i18n:numberformatsymbolsext",
      "i18n.NumberFormatSymbols_it_CH" ∷ "i18n.NumberFormatSymbols_it_IT"
          ∷ "i18n.NumberFormatSymbols_it_SM" ∷ "i18n.NumberFormatSymbols_it_VA" ∷ [],
    )
    ∷ (
      "i18n:numberformatsymbols",
      "i18n.NumberFormatSymbols_iw" ∷ "i18n.NumberFormatSymbols_ja" ∷ [],
    )
    ∷ (
      "i18n:numberformatsymbolsext",
      "i18n.NumberFormatSymbols_ja_JP" ∷ "i18n.NumberFormatSymbols_jgo"
          ∷ "i18n.NumberFormatSymbols_jgo_CM" ∷ "i18n.NumberFormatSymbols_jmc"
          ∷ "i18n.NumberFormatSymbols_jmc_TZ" ∷ "i18n.NumberFormatSymbols_jv"
          ∷ "i18n.NumberFormatSymbols_jv_ID" ∷ [],
    )
    ∷ ("i18n:numberformatsymbols", "i18n.NumberFormatSymbols_ka" ∷ [])
    ∷ (
      "i18n:numberformatsymbolsext",
      "i18n.NumberFormatSymbols_ka_GE" ∷ "i18n.NumberFormatSymbols_kab"
          ∷ "i18n.NumberFormatSymbols_kab_DZ" ∷ "i18n.NumberFormatSymbols_kam"
          ∷ "i18n.NumberFormatSymbols_kam_KE" ∷ "i18n.NumberFormatSymbols_kde"
          ∷ "i18n.NumberFormatSymbols_kde_TZ" ∷ "i18n.NumberFormatSymbols_kea"
          ∷ "i18n.NumberFormatSymbols_kea_CV" ∷ "i18n.NumberFormatSymbols_khq"
          ∷ "i18n.NumberFormatSymbols_khq_ML" ∷ "i18n.NumberFormatSymbols_ki"
          ∷ "i18n.NumberFormatSymbols_ki_KE" ∷ [],
    )
    ∷ ("i18n:numberformatsymbols", "i18n.NumberFormatSymbols_kk" ∷ [])
    ∷ (
      "i18n:numberformatsymbolsext",
      "i18n.NumberFormatSymbols_kk_KZ" ∷ "i18n.NumberFormatSymbols_kkj"
          ∷ "i18n.NumberFormatSymbols_kkj_CM" ∷ "i18n.NumberFormatSymbols_kl"
          ∷ "i18n.NumberFormatSymbols_kl_GL" ∷ "i18n.NumberFormatSymbols_kln"
          ∷ "i18n.NumberFormatSymbols_kln_KE" ∷ [],
    )
    ∷ ("i18n:numberformatsymbols", "i18n.NumberFormatSymbols_km" ∷ [])
    ∷ ("i18n:numberformatsymbolsext", "i18n.NumberFormatSymbols_km_KH" ∷ [])
    ∷ ("i18n:numberformatsymbols", "i18n.NumberFormatSymbols_kn" ∷ [])
    ∷ ("i18n:numberformatsymbolsext", "i18n.NumberFormatSymbols_kn_IN" ∷ [])
    ∷ ("i18n:numberformatsymbols", "i18n.NumberFormatSymbols_ko" ∷ [])
    ∷ (
      "i18n:numberformatsymbolsext",
      "i18n.NumberFormatSymbols_ko_KP" ∷ "i18n.NumberFormatSymbols_ko_KR"
          ∷ "i18n.NumberFormatSymbols_kok" ∷ "i18n.NumberFormatSymbols_kok_IN"
          ∷ "i18n.NumberFormatSymbols_ks" ∷ "i18n.NumberFormatSymbols_ks_IN"
          ∷ "i18n.NumberFormatSymbols_ks_IN_u_nu_latn" ∷ "i18n.NumberFormatSymbols_ks_u_nu_latn"
          ∷ "i18n.NumberFormatSymbols_ksb" ∷ "i18n.NumberFormatSymbols_ksb_TZ"
          ∷ "i18n.NumberFormatSymbols_ksf" ∷ "i18n.NumberFormatSymbols_ksf_CM"
          ∷ "i18n.NumberFormatSymbols_ksh" ∷ "i18n.NumberFormatSymbols_ksh_DE"
          ∷ "i18n.NumberFormatSymbols_ku" ∷ "i18n.NumberFormatSymbols_ku_TR"
          ∷ "i18n.NumberFormatSymbols_kw" ∷ "i18n.NumberFormatSymbols_kw_GB" ∷ [],
    )
    ∷ ("i18n:numberformatsymbols", "i18n.NumberFormatSymbols_ky" ∷ [])
    ∷ (
      "i18n:numberformatsymbolsext",
      "i18n.NumberFormatSymbols_ky_KG" ∷ "i18n.NumberFormatSymbols_lag"
          ∷ "i18n.NumberFormatSymbols_lag_TZ" ∷ "i18n.NumberFormatSymbols_lb"
          ∷ "i18n.NumberFormatSymbols_lb_LU" ∷ "i18n.NumberFormatSymbols_lg"
          ∷ "i18n.NumberFormatSymbols_lg_UG" ∷ "i18n.NumberFormatSymbols_lkt"
          ∷ "i18n.NumberFormatSymbols_lkt_US" ∷ [],
    )
    ∷ ("i18n:numberformatsymbols", "i18n.NumberFormatSymbols_ln" ∷ [])
    ∷ (
      "i18n:numberformatsymbolsext",
      "i18n.NumberFormatSymbols_ln_AO" ∷ "i18n.NumberFormatSymbols_ln_CD"
          ∷ "i18n.NumberFormatSymbols_ln_CF" ∷ "i18n.NumberFormatSymbols_ln_CG" ∷ [],
    )
    ∷ ("i18n:numberformatsymbols", "i18n.NumberFormatSymbols_lo" ∷ [])
    ∷ (
      "i18n:numberformatsymbolsext",
      "i18n.NumberFormatSymbols_lo_LA" ∷ "i18n.NumberFormatSymbols_lrc"
          ∷ "i18n.NumberFormatSymbols_lrc_IQ" ∷ "i18n.NumberFormatSymbols_lrc_IQ_u_nu_latn"
          ∷ "i18n.NumberFormatSymbols_lrc_IR" ∷ "i18n.NumberFormatSymbols_lrc_IR_u_nu_latn"
          ∷ "i18n.NumberFormatSymbols_lrc_u_nu_latn" ∷ [],
    )
    ∷ ("i18n:numberformatsymbols", "i18n.NumberFormatSymbols_lt" ∷ [])
    ∷ (
      "i18n:numberformatsymbolsext",
      "i18n.NumberFormatSymbols_lt_LT" ∷ "i18n.NumberFormatSymbols_lu"
          ∷ "i18n.NumberFormatSymbols_lu_CD" ∷ "i18n.NumberFormatSymbols_luo"
          ∷ "i18n.NumberFormatSymbols_luo_KE" ∷ "i18n.NumberFormatSymbols_luy"
          ∷ "i18n.NumberFormatSymbols_luy_KE" ∷ [],
    )
    ∷ ("i18n:numberformatsymbols", "i18n.NumberFormatSymbols_lv" ∷ [])
    ∷ (
      "i18n:numberformatsymbolsext",
      "i18n.NumberFormatSymbols_lv_LV" ∷ "i18n.NumberFormatSymbols_mas"
          ∷ "i18n.NumberFormatSymbols_mas_KE" ∷ "i18n.NumberFormatSymbols_mas_TZ"
          ∷ "i18n.NumberFormatSymbols_mer" ∷ "i18n.NumberFormatSymbols_mer_KE"
          ∷ "i18n.NumberFormatSymbols_mfe" ∷ "i18n.NumberFormatSymbols_mfe_MU"
          ∷ "i18n.NumberFormatSymbols_mg" ∷ "i18n.NumberFormatSymbols_mg_MG"
          ∷ "i18n.NumberFormatSymbols_mgh" ∷ "i18n.NumberFormatSymbols_mgh_MZ"
          ∷ "i18n.NumberFormatSymbols_mgo" ∷ "i18n.NumberFormatSymbols_mgo_CM"
          ∷ "i18n.NumberFormatSymbols_mi" ∷ [],
    )
    ∷ [])
