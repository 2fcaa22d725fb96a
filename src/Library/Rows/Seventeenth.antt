-- ===== src/Library/Rows/Seventeenth.antt =====
-- Lines 2406 to 2555 of gazelle/closure_js/closure_library/closure_library.go.
use rules_closure.Prelude.{List, [], ◌∷◌}
use rules_closure.Library.{Row, goog_rows}

abbrev pub seventeenth_rows : List Row
seventeenth_rows = goog_rows (
    ("i18n:datetimesymbolsext", "i18n.DateTimeSymbols_ii" ∷ "i18n.DateTimeSymbols_ii_CN" ∷ [])
    ∷ ("i18n:datetimesymbols", "i18n.DateTimeSymbols_in" ∷ "i18n.DateTimeSymbols_is" ∷ [])
    ∷ ("i18n:datetimesymbolsext", "i18n.DateTimeSymbols_is_IS" ∷ [])
    ∷ ("i18n:datetimesymbols", "i18n.DateTimeSymbols_it" ∷ [])
    ∷ (
      "i18n:datetimesymbolsext",
      "i18n.DateTimeSymbols_it_CH" ∷ "i18n.DateTimeSymbols_it_IT" ∷ "i18n.DateTimeSymbols_it_SM"
          ∷ "i18n.DateTimeSymbols_it_VA" ∷ [],
    )
    ∷ ("i18n:datetimesymbols", "i18n.DateTimeSymbols_iw" ∷ "i18n.DateTimeSymbols_ja" ∷ [])
    ∷ (
      "i18n:datetimesymbolsext",
      "i18n.DateTimeSymbols_ja_JP" ∷ "i18n.DateTimeSymbols_jgo" ∷ "i18n.DateTimeSymbols_jgo_CM"
          ∷ "i18n.DateTimeSymbols_jmc" ∷ "i18n.DateTimeSymbols_jmc_TZ" ∷ "i18n.DateTimeSymbols_jv"
          ∷ "i18n.DateTimeSymbols_jv_ID" ∷ [],
    )
    ∷ ("i18n:datetimesymbols", "i18n.DateTimeSymbols_ka" ∷ [])
    ∷ (
      "i18n:datetimesymbolsext",
      "i18n.DateTimeSymbols_ka_GE" ∷ "i18n.DateTimeSymbols_kab" ∷ "i18n.DateTimeSymbols_kab_DZ"
          ∷ "i18n.DateTimeSymbols_kam" ∷ "i18n.DateTimeSymbols_kam_KE" ∷ "i18n.DateTimeSymbols_kde"
          ∷ "i18n.DateTimeSymbols_kde_TZ" ∷ "i18n.DateTimeSymbols_kea"
          ∷ "i18n.DateTimeSymbols_kea_CV" ∷ "i18n.DateTimeSymbols_khq"
          ∷ "i18n.DateTimeSymbols_khq_ML" ∷ "i18n.DateTimeSymbols_ki" ∷ "i18n.DateTimeSymbols_ki_KE"
          ∷ [],
    )
    ∷ ("i18n:datetimesymbols", "i18n.DateTimeSymbols_kk" ∷ [])
    ∷ (
      "i18n:datetimesymbolsext",
      "i18n.DateTimeSymbols_kk_KZ" ∷ "i18n.DateTimeSymbols_kkj" ∷ "i18n.DateTimeSymbols_kkj_CM"
          ∷ "i18n.DateTimeSymbols_kl" ∷ "i18n.DateTimeSymbols_kl_GL" ∷ "i18n.DateTimeSymbols_kln"
          ∷ "i18n.DateTimeSymbols_kln_KE" ∷ [],
    )
    ∷ ("i18n:datetimesymbols", "i18n.DateTimeSymbols_km" ∷ [])
    ∷ ("i18n:datetimesymbolsext", "i18n.DateTimeSymbols_km_KH" ∷ [])
    ∷ ("i18n:datetimesymbols", "i18n.DateTimeSymbols_kn" ∷ [])
    ∷ ("i18n:datetimesymbolsext", "i18n.DateTimeSymbols_kn_IN" ∷ [])
    ∷ ("i18n:datetimesymbols", "i18n.DateTimeSymbols_ko" ∷ [])
    ∷ (
      "i18n:datetimesymbolsext",
      "i18n.DateTimeSymbols_ko_KP" ∷ "i18n.DateTimeSymbols_ko_KR" ∷ "i18n.DateTimeSymbols_kok"
          ∷ "i18n.DateTimeSymbols_kok_IN" ∷ "i18n.DateTimeSymbols_ks" ∷ "i18n.DateTimeSymbols_ks_IN"
          ∷ "i18n.DateTimeSymbols_ksb" ∷ "i18n.DateTimeSymbols_ksb_TZ" ∷ "i18n.DateTimeSymbols_ksf"
          ∷ "i18n.DateTimeSymbols_ksf_CM" ∷ "i18n.DateTimeSymbols_ksh"
          ∷ "i18n.DateTimeSymbols_ksh_DE" ∷ "i18n.DateTimeSymbols_ku" ∷ "i18n.DateTimeSymbols_ku_TR"
          ∷ "i18n.DateTimeSymbols_kw" ∷ "i18n.DateTimeSymbols_kw_GB" ∷ [],
    )
    ∷ ("i18n:datetimesymbols", "i18n.DateTimeSymbols_ky" ∷ [])
    ∷ (
      "i18n:datetimesymbolsext",
      "i18n.DateTimeSymbols_ky_KG" ∷ "i18n.DateTimeSymbols_lag" ∷ "i18n.DateTimeSymbols_lag_TZ"
          ∷ "i18n.DateTimeSymbols_lb" ∷ "i18n.DateTimeSymbols_lb_LU" ∷ "i18n.DateTimeSymbols_lg"
          ∷ "i18n.DateTimeSymbols_lg_UG" ∷ "i18n.DateTimeSymbols_lkt"
          ∷ "i18n.DateTimeSymbols_lkt_US" ∷ [],
    )
    ∷ ("i18n:datetimesymbols", "i18n.DateTimeSymbols_ln" ∷ [])
    ∷ (
      "i18n:datetimesymbolsext",
      "i18n.DateTimeSymbols_ln_AO" ∷ "i18n.DateTimeSymbols_ln_CD" ∷ "i18n.DateTimeSymbols_ln_CF"
          ∷ "i18n.DateTimeSymbols_ln_CG" ∷ [],
    )
    ∷ ("i18n:datetimesymbols", "i18n.DateTimeSymbols_lo" ∷ [])
    ∷ (
      "i18n:datetimesymbolsext",
      "i18n.DateTimeSymbols_lo_LA" ∷ "i18n.DateTimeSymbols_lrc" ∷ "i18n.DateTimeSymbols_lrc_IQ"
          ∷ "i18n.DateTimeSymbols_lrc_IR" ∷ [],
    )
    ∷ ("i18n:datetimesymbols", "i18n.DateTimeSymbols_lt" ∷ [])
    ∷ (
      "i18n:datetimesymbolsext",
      "i18n.DateTimeSymbols_lt_LT" ∷ "i18n.DateTimeSymbols_lu" ∷ "i18n.DateTimeSymbols_lu_CD"
          ∷ "i18n.DateTimeSymbols_luo" ∷ "i18n.DateTimeSymbols_luo_KE" ∷ "i18n.DateTimeSymbols_luy"
          ∷ "i18n.DateTimeSymbols_luy_KE" ∷ [],
    )
    ∷ ("i18n:datetimesymbols", "i18n.DateTimeSymbols_lv" ∷ [])
    ∷ (
      "i18n:datetimesymbolsext",
      "i18n.DateTimeSymbols_lv_LV" ∷ "i18n.DateTimeSymbols_mas" ∷ "i18n.DateTimeSymbols_mas_KE"
          ∷ "i18n.DateTimeSymbols_mas_TZ" ∷ "i18n.DateTimeSymbols_mer"
          ∷ "i18n.DateTimeSymbols_mer_KE" ∷ "i18n.DateTimeSymbols_mfe"
          ∷ "i18n.DateTimeSymbols_mfe_MU" ∷ "i18n.DateTimeSymbols_mg" ∷ "i18n.DateTimeSymbols_mg_MG"
          ∷ "i18n.DateTimeSymbols_mgh" ∷ "i18n.DateTimeSymbols_mgh_MZ" ∷ "i18n.DateTimeSymbols_mgo"
          ∷ "i18n.DateTimeSymbols_mgo_CM" ∷ "i18n.DateTimeSymbols_mi" ∷ "i18n.DateTimeSymbols_mi_NZ"
          ∷ [],
    )
    ∷ ("i18n:datetimesymbols", "i18n.DateTimeSymbols_mk" ∷ [])
    ∷ ("i18n:datetimesymbolsext", "i18n.DateTimeSymbols_mk_MK" ∷ [])
    ∷ ("i18n:datetimesymbols", "i18n.DateTimeSymbols_ml" ∷ [])
    ∷ ("i18n:datetimesymbolsext", "i18n.DateTimeSymbols_ml_IN" ∷ [])
    ∷ ("i18n:datetimesymbols", "i18n.DateTimeSymbols_mn" ∷ [])
    ∷ ("i18n:datetimesymbolsext", "i18n.DateTimeSymbols_mn_MN" ∷ [])
    ∷ ("i18n:datetimesymbols", "i18n.DateTimeSymbols_mo" ∷ "i18n.DateTimeSymbols_mr" ∷ [])
    ∷ ("i18n:datetimesymbolsext", "i18n.DateTimeSymbols_mr_IN" ∷ [])
    ∷ ("i18n:datetimesymbols", "i18n.DateTimeSymbols_ms" ∷ [])
    ∷ (
      "i18n:datetimesymbolsext",
      "i18n.DateTimeSymbols_ms_BN" ∷ "i18n.DateTimeSymbols_ms_MY" ∷ "i18n.DateTimeSymbols_ms_SG"
          ∷ [],
    )
    ∷ ("i18n:datetimesymbols", "i18n.DateTimeSymbols_mt" ∷ [])
    ∷ (
      "i18n:datetimesymbolsext",
      "i18n.DateTimeSymbols_mt_MT" ∷ "i18n.DateTimeSymbols_mua" ∷ "i18n.DateTimeSymbols_mua_CM"
          ∷ [],
    )
    ∷ ("i18n:datetimesymbols", "i18n.DateTimeSymbols_my" ∷ [])
    ∷ (
      "i18n:datetimesymbolsext",
      "i18n.DateTimeSymbols_my_MM" ∷ "i18n.DateTimeSymbols_mzn" ∷ "i18n.DateTimeSymbols_mzn_IR"
          ∷ "i18n.DateTimeSymbols_naq" ∷ "i18n.DateTimeSymbols_naq_NA" ∷ [],
    )
    ∷ ("i18n:datetimesymbols", "i18n.DateTimeSymbols_nb" ∷ [])
    ∷ (
      "i18n:datetimesymbolsext",
      "i18n.DateTimeSymbols_nb_NO" ∷ "i18n.DateTimeSymbols_nb_SJ" ∷ "i18n.DateTimeSymbols_nd"
          ∷ "i18n.DateTimeSymbols_nd_ZW" ∷ "i18n.DateTimeSymbols_nds"
          ∷ "i18n.DateTimeSymbols_nds_DE" ∷ "i18n.DateTimeSymbols_nds_NL" ∷ [],
    )
    ∷ ("i18n:datetimesymbols", "i18n.DateTimeSymbols_ne" ∷ [])
    ∷ ("i18n:datetimesymbolsext", "i18n.DateTimeSymbols_ne_IN" ∷ "i18n.DateTimeSymbols_ne_NP" ∷ [])
    ∷ ("i18n:datetimesymbols", "i18n.DateTimeSymbols_nl" ∷ [])
    ∷ (
      "i18n:datetimesymbolsext",
      "i18n.DateTimeSymbols_nl_AW" ∷ "i18n.DateTimeSymbols_nl_BE" ∷ "i18n.DateTimeSymbols_nl_BQ"
          ∷ "i18n.DateTimeSymbols_nl_CW" ∷ "i18n.DateTimeSymbols_nl_NL"
          ∷ "i18n.DateTimeSymbols_nl_SR" ∷ "i18n.DateTimeSymbols_nl_SX" ∷ "i18n.DateTimeSymbols_nmg"
          ∷ [],
    )
    ∷ [])
