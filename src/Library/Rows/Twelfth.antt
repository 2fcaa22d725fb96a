-- ===== src/Library/Rows/Twelfth.antt =====
-- Lines 1656 to 1805 of gazelle/closure_js/closure_library/closure_library.go.
use rules_closure.Prelude.{List, [], ◌∷◌}
use rules_closure.Library.{Row, goog_rows}

abbrev pub twelfth_rows : List Row
twelfth_rows = goog_rows (
    (
      "i18n:datetimepatternsext",
      "i18n.DateTimePatterns_ig" ∷ "i18n.DateTimePatterns_ig_NG" ∷ "i18n.DateTimePatterns_ii"
          ∷ "i18n.DateTimePatterns_ii_CN" ∷ [],
    )
    ∷ ("i18n:datetimepatterns", "i18n.DateTimePatterns_in" ∷ "i18n.DateTimePatterns_is" ∷ [])
    ∷ ("i18n:datetimepatternsext", "i18n.DateTimePatterns_is_IS" ∷ [])
    ∷ ("i18n:datetimepatterns", "i18n.DateTimePatterns_it" ∷ [])
    ∷ (
      "i18n:datetimepatternsext",
      "i18n.DateTimePatterns_it_CH" ∷ "i18n.DateTimePatterns_it_IT" ∷ "i18n.DateTimePatterns_it_SM"
          ∷ "i18n.DateTimePatterns_it_VA" ∷ [],
    )
    ∷ ("i18n:datetimepatterns", "i18n.DateTimePatterns_iw" ∷ "i18n.DateTimePatterns_ja" ∷ [])
    ∷ (
      "i18n:datetimepatternsext",
      "i18n.DateTimePatterns_ja_JP" ∷ "i18n.DateTimePatterns_jgo" ∷ "i18n.DateTimePatterns_jgo_CM"
          ∷ "i18n.DateTimePatterns_jmc" ∷ "i18n.DateTimePatterns_jmc_TZ"
          ∷ "i18n.DateTimePatterns_jv" ∷ "i18n.DateTimePatterns_jv_ID" ∷ [],
    )
    ∷ ("i18n:datetimepatterns", "i18n.DateTimePatterns_ka" ∷ [])
    ∷ (
      "i18n:datetimepatternsext",
      "i18n.DateTimePatterns_ka_GE" ∷ "i18n.DateTimePatterns_kab" ∷ "i18n.DateTimePatterns_kab_DZ"
          ∷ "i18n.DateTimePatterns_kam" ∷ "i18n.DateTimePatterns_kam_KE"
          ∷ "i18n.DateTimePatterns_kde" ∷ "i18n.DateTimePatterns_kde_TZ"
          ∷ "i18n.DateTimePatterns_kea" ∷ "i18n.DateTimePatterns_kea_CV"
          ∷ "i18n.DateTimePatterns_khq" ∷ "i18n.DateTimePatterns_khq_ML"
          ∷ "i18n.DateTimePatterns_ki" ∷ "i18n.DateTimePatterns_ki_KE" ∷ [],
    )
    ∷ ("i18n:datetimepatterns", "i18n.DateTimePatterns_kk" ∷ [])
    ∷ (
      "i18n:datetimepatternsext",
      "i18n.DateTimePatterns_kk_KZ" ∷ "i18n.DateTimePatterns_kkj" ∷ "i18n.DateTimePatterns_kkj_CM"
          ∷ "i18n.DateTimePatterns_kl" ∷ "i18n.DateTimePatterns_kl_GL" ∷ "i18n.DateTimePatterns_kln"
          ∷ "i18n.DateTimePatterns_kln_KE" ∷ [],
    )
    ∷ ("i18n:datetimepatterns", "i18n.DateTimePatterns_km" ∷ [])
    ∷ ("i18n:datetimepatternsext", "i18n.DateTimePatterns_km_KH" ∷ [])
    ∷ ("i18n:datetimepatterns", "i18n.DateTimePatterns_kn" ∷ [])
    ∷ ("i18n:datetimepatternsext", "i18n.DateTimePatterns_kn_IN" ∷ [])
    ∷ ("i18n:datetimepatterns", "i18n.DateTimePatterns_ko" ∷ [])
    ∷ (
      "i18n:datetimepatternsext",
      "i18n.DateTimePatterns_ko_KP" ∷ "i18n.DateTimePatterns_ko_KR" ∷ "i18n.DateTimePatterns_kok"
          ∷ "i18n.DateTimePatterns_kok_IN" ∷ "i18n.DateTimePatterns_ks"
          ∷ "i18n.DateTimePatterns_ks_IN" ∷ "i18n.DateTimePatterns_ksb"
          ∷ "i18n.DateTimePatterns_ksb_TZ" ∷ "i18n.DateTimePatterns_ksf"
          ∷ "i18n.DateTimePatterns_ksf_CM" ∷ "i18n.DateTimePatterns_ksh"
          ∷ "i18n.DateTimePatterns_ksh_DE" ∷ "i18n.DateTimePatterns_ku"
          ∷ "i18n.DateTimePatterns_ku_TR" ∷ "i18n.DateTimePatterns_kw"
          ∷ "i18n.DateTimePatterns_kw_GB" ∷ [],
    )
    ∷ ("i18n:datetimepatterns", "i18n.DateTimePatterns_ky" ∷ [])
    ∷ (
      "i18n:datetimepatternsext",
      "i18n.DateTimePatterns_ky_KG" ∷ "i18n.DateTimePatterns_lag" ∷ "i18n.DateTimePatterns_lag_TZ"
          ∷ "i18n.DateTimePatterns_lb" ∷ "i18n.DateTimePatterns_lb_LU" ∷ "i18n.DateTimePatterns_lg"
          ∷ "i18n.DateTimePatterns_lg_UG" ∷ "i18n.DateTimePatterns_lkt"
          ∷ "i18n.DateTimePatterns_lkt_US" ∷ [],
    )
    ∷ ("i18n:datetimepatterns", "i18n.DateTimePatterns_ln" ∷ [])
    ∷ (
      "i18n:datetimepatternsext",
      "i18n.DateTimePatterns_ln_AO" ∷ "i18n.DateTimePatterns_ln_CD" ∷ "i18n.DateTimePatterns_ln_CF"
          ∷ "i18n.DateTimePatterns_ln_CG" ∷ [],
    )
    ∷ ("i18n:datetimepatterns", "i18n.DateTimePatterns_lo" ∷ [])
    ∷ (
      "i18n:datetimepatternsext",
      "i18n.DateTimePatterns_lo_LA" ∷ "i18n.DateTimePatterns_lrc" ∷ "i18n.DateTimePatterns_lrc_IQ"
          ∷ "i18n.DateTimePatterns_lrc_IR" ∷ [],
    )
    ∷ ("i18n:datetimepatterns", "i18n.DateTimePatterns_lt" ∷ [])
    ∷ (
      "i18n:datetimepatternsext",
      "i18n.DateTimePatterns_lt_LT" ∷ "i18n.DateTimePatterns_lu" ∷ "i18n.DateTimePatterns_lu_CD"
          ∷ "i18n.DateTimePatterns_luo" ∷ "i18n.DateTimePatterns_luo_KE"
          ∷ "i18n.DateTimePatterns_luy" ∷ "i18n.DateTimePatterns_luy_KE" ∷ [],
    )
    ∷ ("i18n:datetimepatterns", "i18n.DateTimePatterns_lv" ∷ [])
    ∷ (
      "i18n:datetimepatternsext",
      "i18n.DateTimePatterns_lv_LV" ∷ "i18n.DateTimePatterns_mas" ∷ "i18n.DateTimePatterns_mas_KE"
          ∷ "i18n.DateTimePatterns_mas_TZ" ∷ "i18n.DateTimePatterns_mer"
          ∷ "i18n.DateTimePatterns_mer_KE" ∷ "i18n.DateTimePatterns_mfe"
          ∷ "i18n.DateTimePatterns_mfe_MU" ∷ "i18n.DateTimePatterns_mg"
          ∷ "i18n.DateTimePatterns_mg_MG" ∷ "i18n.DateTimePatterns_mgh"
          ∷ "i18n.DateTimePatterns_mgh_MZ" ∷ "i18n.DateTimePatterns_mgo"
          ∷ "i18n.DateTimePatterns_mgo_CM" ∷ "i18n.DateTimePatterns_mi"
          ∷ "i18n.DateTimePatterns_mi_NZ" ∷ [],
    )
    ∷ ("i18n:datetimepatterns", "i18n.DateTimePatterns_mk" ∷ [])
    ∷ ("i18n:datetimepatternsext", "i18n.DateTimePatterns_mk_MK" ∷ [])
    ∷ ("i18n:datetimepatterns", "i18n.DateTimePatterns_ml" ∷ [])
    ∷ ("i18n:datetimepatternsext", "i18n.DateTimePatterns_ml_IN" ∷ [])
    ∷ ("i18n:datetimepatterns", "i18n.DateTimePatterns_mn" ∷ [])
    ∷ ("i18n:datetimepatternsext", "i18n.DateTimePatterns_mn_MN" ∷ [])
    ∷ ("i18n:datetimepatterns", "i18n.DateTimePatterns_mo" ∷ "i18n.DateTimePatterns_mr" ∷ [])
    ∷ ("i18n:datetimepatternsext", "i18n.DateTimePatterns_mr_IN" ∷ [])
    ∷ ("i18n:datetimepatterns", "i18n.DateTimePatterns_ms" ∷ [])
    ∷ (
      "i18n:datetimepatternsext",
      "i18n.DateTimePatterns_ms_BN" ∷ "i18n.DateTimePatterns_ms_MY" ∷ "i18n.DateTimePatterns_ms_SG"
          ∷ [],
    )
    ∷ ("i18n:datetimepatterns", "i18n.DateTimePatterns_mt" ∷ [])
    ∷ (
      "i18n:datetimepatternsext",
      "i18n.DateTimePatterns_mt_MT" ∷ "i18n.DateTimePatterns_mua" ∷ "i18n.DateTimePatterns_mua_CM"
          ∷ [],
    )
    ∷ ("i18n:datetimepatterns", "i18n.DateTimePatterns_my" ∷ [])
    ∷ (
      "i18n:datetimepatternsext",
      "i18n.DateTimePatterns_my_MM" ∷ "i18n.DateTimePatterns_mzn" ∷ "i18n.DateTimePatterns_mzn_IR"
          ∷ "i18n.DateTimePatterns_naq" ∷ "i18n.DateTimePatterns_naq_NA" ∷ [],
    )
    ∷ ("i18n:datetimepatterns", "i18n.DateTimePatterns_nb" ∷ [])
    ∷ (
      "i18n:datetimepatternsext",
      "i18n.DateTimePatterns_nb_NO" ∷ "i18n.DateTimePatterns_nb_SJ" ∷ "i18n.DateTimePatterns_nd"
          ∷ "i18n.DateTimePatterns_nd_ZW" ∷ "i18n.DateTimePatterns_nds"
          ∷ "i18n.DateTimePatterns_nds_DE" ∷ "i18n.DateTimePatterns_nds_NL" ∷ [],
    )
    ∷ ("i18n:datetimepatterns", "i18n.DateTimePatterns_ne" ∷ [])
    ∷ (
      "i18n:datetimepatternsext",
      "i18n.DateTimePatterns_ne_IN" ∷ "i18n.DateTimePatterns_ne_NP" ∷ [],
    )
    ∷ ("i18n:datetimepatterns", "i18n.DateTimePatterns_nl" ∷ [])
    ∷ (
      "i18n:datetimepatternsext",
      "i18n.DateTimePatterns_nl_AW" ∷ "i18n.DateTimePatterns_nl_BE" ∷ "i18n.DateTimePatterns_nl_BQ"
          ∷ "i18n.DateTimePatterns_nl_CW" ∷ "i18n.DateTimePatterns_nl_NL"
          ∷ "i18n.DateTimePatterns_nl_SR" ∷ [],
    )
    ∷ [])
