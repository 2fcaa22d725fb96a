-- ===== src/Library/Rows/Seventh.antt =====
-- Lines 906 to 1055 of gazelle/closure_js/closure_library/closure_library.go.
use rules_closure.Prelude.{List, [], ◌∷◌}
use rules_closure.Library.{Row, goog_rows}

abbrev pub seventh_rows : List Row
seventh_rows = goog_rows (
    (
      "i18n:compactnumberformatsymbolsext",
      "i18n.CompactNumberFormatSymbols_ig" ∷ "i18n.CompactNumberFormatSymbols_ig_NG"
          ∷ "i18n.CompactNumberFormatSymbols_ii" ∷ "i18n.CompactNumberFormatSymbols_ii_CN" ∷ [],
    )
    ∷ (
      "i18n:compactnumberformatsymbols",
      "i18n.CompactNumberFormatSymbols_in" ∷ "i18n.CompactNumberFormatSymbols_is" ∷ [],
    )
    ∷ ("i18n:compactnumberformatsymbolsext", "i18n.CompactNumberFormatSymbols_is_IS" ∷ [])
    ∷ ("i18n:compactnumberformatsymbols", "i18n.CompactNumberFormatSymbols_it" ∷ [])
    ∷ (
      "i18n:compactnumberformatsymbolsext",
      "i18n.CompactNumberFormatSymbols_it_CH" ∷ "i18n.CompactNumberFormatSymbols_it_IT"
          ∷ "i18n.CompactNumberFormatSymbols_it_SM" ∷ "i18n.CompactNumberFormatSymbols_it_VA" ∷ [],
    )
    ∷ (
      "i18n:compactnumberformatsymbols",
      "i18n.CompactNumberFormatSymbols_iw" ∷ "i18n.CompactNumberFormatSymbols_ja" ∷ [],
    )
    ∷ (
      "i18n:compactnumberformatsymbolsext",
      "i18n.CompactNumberFormatSymbols_ja_JP" ∷ "i18n.CompactNumberFormatSymbols_jgo"
          ∷ "i18n.CompactNumberFormatSymbols_jgo_CM" ∷ "i18n.CompactNumberFormatSymbols_jmc"
          ∷ "i18n.CompactNumberFormatSymbols_jmc_TZ" ∷ "i18n.CompactNumberFormatSymbols_jv"
          ∷ "i18n.CompactNumberFormatSymbols_jv_ID" ∷ [],
    )
    ∷ ("i18n:compactnumberformatsymbols", "i18n.CompactNumberFormatSymbols_ka" ∷ [])
    ∷ (
      "i18n:compactnumberformatsymbolsext",
      "i18n.CompactNumberFormatSymbols_ka_GE" ∷ "i18n.CompactNumberFormatSymbols_kab"
          ∷ "i18n.CompactNumberFormatSymbols_kab_DZ" ∷ "i18n.CompactNumberFormatSymbols_kam"
          ∷ "i18n.CompactNumberFormatSymbols_kam_KE" ∷ "i18n.CompactNumberFormatSymbols_kde"
          ∷ "i18n.CompactNumberFormatSymbols_kde_TZ" ∷ "i18n.CompactNumberFormatSymbols_kea"
          ∷ "i18n.CompactNumberFormatSymbols_kea_CV" ∷ "i18n.CompactNumberFormatSymbols_khq"
          ∷ "i18n.CompactNumberFormatSymbols_khq_ML" ∷ "i18n.CompactNumberFormatSymbols_ki"
          ∷ "i18n.CompactNumberFormatSymbols_ki_KE" ∷ [],
    )
    ∷ ("i18n:compactnumberformatsymbols", "i18n.CompactNumberFormatSymbols_kk" ∷ [])
    ∷ (
      "i18n:compactnumberformatsymbolsext",
      "i18n.CompactNumberFormatSymbols_kk_KZ" ∷ "i18n.CompactNumberFormatSymbols_kkj"
          ∷ "i18n.CompactNumberFormatSymbols_kkj_CM" ∷ "i18n.CompactNumberFormatSymbols_kl"
          ∷ "i18n.CompactNumberFormatSymbols_kl_GL" ∷ "i18n.CompactNumberFormatSymbols_kln"
          ∷ "i18n.CompactNumberFormatSymbols_kln_KE" ∷ [],
    )
    ∷ ("i18n:compactnumberformatsymbols", "i18n.CompactNumberFormatSymbols_km" ∷ [])
    ∷ ("i18n:compactnumberformatsymbolsext", "i18n.CompactNumberFormatSymbols_km_KH" ∷ [])
    ∷ ("i18n:compactnumberformatsymbols", "i18n.CompactNumberFormatSymbols_kn" ∷ [])
    ∷ ("i18n:compactnumberformatsymbolsext", "i18n.CompactNumberFormatSymbols_kn_IN" ∷ [])
    ∷ ("i18n:compactnumberformatsymbols", "i18n.CompactNumberFormatSymbols_ko" ∷ [])
    ∷ (
      "i18n:compactnumberformatsymbolsext",
      "i18n.CompactNumberFormatSymbols_ko_KP" ∷ "i18n.CompactNumberFormatSymbols_ko_KR"
          ∷ "i18n.CompactNumberFormatSymbols_kok" ∷ "i18n.CompactNumberFormatSymbols_kok_IN"
          ∷ "i18n.CompactNumberFormatSymbols_ks" ∷ "i18n.CompactNumberFormatSymbols_ks_IN"
          ∷ "i18n.CompactNumberFormatSymbols_ksb" ∷ "i18n.CompactNumberFormatSymbols_ksb_TZ"
          ∷ "i18n.CompactNumberFormatSymbols_ksf" ∷ "i18n.CompactNumberFormatSymbols_ksf_CM"
          ∷ "i18n.CompactNumberFormatSymbols_ksh" ∷ "i18n.CompactNumberFormatSymbols_ksh_DE"
          ∷ "i18n.CompactNumberFormatSymbols_ku" ∷ "i18n.CompactNumberFormatSymbols_ku_TR"
          ∷ "i18n.CompactNumberFormatSymbols_kw" ∷ "i18n.CompactNumberFormatSymbols_kw_GB" ∷ [],
    )
    ∷ ("i18n:compactnumberformatsymbols", "i18n.CompactNumberFormatSymbols_ky" ∷ [])
    ∷ (
      "i18n:compactnumberformatsymbolsext",
      "i18n.CompactNumberFormatSymbols_ky_KG" ∷ "i18n.CompactNumberFormatSymbols_lag"
          ∷ "i18n.CompactNumberFormatSymbols_lag_TZ" ∷ "i18n.CompactNumberFormatSymbols_lb"
          ∷ "i18n.CompactNumberFormatSymbols_lb_LU" ∷ "i18n.CompactNumberFormatSymbols_lg"
          ∷ "i18n.CompactNumberFormatSymbols_lg_UG" ∷ "i18n.CompactNumberFormatSymbols_lkt"
          ∷ "i18n.CompactNumberFormatSymbols_lkt_US" ∷ [],
    )
    ∷ ("i18n:compactnumberformatsymbols", "i18n.CompactNumberFormatSymbols_ln" ∷ [])
    ∷ (
      "i18n:compactnumberformatsymbolsext",
      "i18n.CompactNumberFormatSymbols_ln_AO" ∷ "i18n.CompactNumberFormatSymbols_ln_CD"
          ∷ "i18n.CompactNumberFormatSymbols_ln_CF" ∷ "i18n.CompactNumberFormatSymbols_ln_CG" ∷ [],
    )
    ∷ ("i18n:compactnumberformatsymbols", "i18n.CompactNumberFormatSymbols_lo" ∷ [])
    ∷ (
      "i18n:compactnumberformatsymbolsext",
      "i18n.CompactNumberFormatSymbols_lo_LA" ∷ "i18n.CompactNumberFormatSymbols_lrc"
          ∷ "i18n.CompactNumberFormatSymbols_lrc_IQ" ∷ "i18n.CompactNumberFormatSymbols_lrc_IR"
          ∷ [],
    )
    ∷ ("i18n:compactnumberformatsymbols", "i18n.CompactNumberFormatSymbols_lt" ∷ [])
    ∷ (
      "i18n:compactnumberformatsymbolsext",
      "i18n.CompactNumberFormatSymbols_lt_LT" ∷ "i18n.CompactNumberFormatSymbols_lu"
          ∷ "i18n.CompactNumberFormatSymbols_lu_CD" ∷ "i18n.CompactNumberFormatSymbols_luo"
          ∷ "i18n.CompactNumberFormatSymbols_luo_KE" ∷ "i18n.CompactNumberFormatSymbols_luy"
          ∷ "i18n.CompactNumberFormatSymbols_luy_KE" ∷ [],
    )
    ∷ ("i18n:compactnumberformatsymbols", "i18n.CompactNumberFormatSymbols_lv" ∷ [])
    ∷ (
      "i18n:compactnumberformatsymbolsext",
      "i18n.CompactNumberFormatSymbols_lv_LV" ∷ "i18n.CompactNumberFormatSymbols_mas"
          ∷ "i18n.CompactNumberFormatSymbols_mas_KE" ∷ "i18n.CompactNumberFormatSymbols_mas_TZ"
          ∷ "i18n.CompactNumberFormatSymbols_mer" ∷ "i18n.CompactNumberFormatSymbols_mer_KE"
          ∷ "i18n.CompactNumberFormatSymbols_mfe" ∷ "i18n.CompactNumberFormatSymbols_mfe_MU"
          ∷ "i18n.CompactNumberFormatSymbols_mg" ∷ "i18n.CompactNumberFormatSymbols_mg_MG"
          ∷ "i18n.CompactNumberFormatSymbols_mgh" ∷ "i18n.CompactNumberFormatSymbols_mgh_MZ"
          ∷ "i18n.CompactNumberFormatSymbols_mgo" ∷ "i18n.CompactNumberFormatSymbols_mgo_CM"
          ∷ "i18n.CompactNumberFormatSymbols_mi" ∷ "i18n.CompactNumberFormatSymbols_mi_NZ" ∷ [],
    )
    ∷ ("i18n:compactnumberformatsymbols", "i18n.CompactNumberFormatSymbols_mk" ∷ [])
    ∷ ("i18n:compactnumberformatsymbolsext", "i18n.CompactNumberFormatSymbols_mk_MK" ∷ [])
    ∷ ("i18n:compactnumberformatsymbols", "i18n.CompactNumberFormatSymbols_ml" ∷ [])
    ∷ ("i18n:compactnumberformatsymbolsext", "i18n.CompactNumberFormatSymbols_ml_IN" ∷ [])
    ∷ ("i18n:compactnumberformatsymbols", "i18n.CompactNumberFormatSymbols_mn" ∷ [])
    ∷ ("i18n:compactnumberformatsymbolsext", "i18n.CompactNumberFormatSymbols_mn_MN" ∷ [])
    ∷ (
      "i18n:compactnumberformatsymbols",
      "i18n.CompactNumberFormatSymbols_mo" ∷ "i18n.CompactNumberFormatSymbols_mr" ∷ [],
    )
    ∷ ("i18n:compactnumberformatsymbolsext", "i18n.CompactNumberFormatSymbols_mr_IN" ∷ [])
    ∷ ("i18n:compactnumberformatsymbols", "i18n.CompactNumberFormatSymbols_ms" ∷ [])
    ∷ (
      "i18n:compactnumberformatsymbolsext",
      "i18n.CompactNumberFormatSymbols_ms_BN" ∷ "i18n.CompactNumberFormatSymbols_ms_MY"
          ∷ "i18n.CompactNumberFormatSymbols_ms_SG" ∷ [],
    )
    ∷ ("i18n:compactnumberformatsymbols", "i18n.CompactNumberFormatSymbols_mt" ∷ [])
    ∷ (
      "i18n:compactnumberformatsymbolsext",
      "i18n.CompactNumberFormatSymbols_mt_MT" ∷ "i18n.CompactNumberFormatSymbols_mua"
          ∷ "i18n.CompactNumberFormatSymbols_mua_CM" ∷ [],
    )
    ∷ ("i18n:compactnumberformatsymbols", "i18n.CompactNumberFormatSymbols_my" ∷ [])
    ∷ (
      "i18n:compactnumberformatsymbolsext",
      "i18n.CompactNumberFormatSymbols_my_MM" ∷ "i18n.CompactNumberFormatSymbols_mzn"
          ∷ "i18n.CompactNumberFormatSymbols_mzn_IR" ∷ "i18n.CompactNumberFormatSymbols_naq"
          ∷ "i18n.CompactNumberFormatSymbols_naq_NA" ∷ [],
    )
    ∷ ("i18n:compactnumberformatsymbols", "i18n.CompactNumberFormatSymbols_nb" ∷ [])
    ∷ (
      "i18n:compactnumberformatsymbolsext",
      "i18n.CompactNumberFormatSymbols_nb_NO" ∷ "i18n.CompactNumberFormatSymbols_nb_SJ"
          ∷ "i18n.CompactNumberFormatSymbols_nd" ∷ "i18n.CompactNumberFormatSymbols_nd_ZW"
          ∷ "i18n.CompactNumberFormatSymbols_nds" ∷ "i18n.CompactNumberFormatSymbols_nds_DE"
          ∷ "i18n.CompactNumberFormatSymbols_nds_NL" ∷ [],
    )
    ∷ ("i18n:compactnumberformatsymbols", "i18n.CompactNumberFormatSymbols_ne" ∷ [])
    ∷ (
      "i18n:compactnumberformatsymbolsext",
      "i18n.CompactNumberFormatSymbols_ne_IN" ∷ "i18n.CompactNumberFormatSymbols_ne_NP" ∷ [],
    )
    ∷ ("i18n:compactnumberformatsymbols", "i18n.CompactNumberFormatSymbols_nl" ∷ [])
    ∷ (
      "i18n:compactnumberformatsymbolsext",
      "i18n.CompactNumberFormatSymbols_nl_AW" ∷ "i18n.CompactNumberFormatSymbols_nl_BE"
          ∷ "i18n.CompactNumberFormatSymbols_nl_BQ" ∷ "i18n.CompactNumberFormatSymbols_nl_CW"
          ∷ "i18n.CompactNumberFormatSymbols_nl_NL" ∷ "i18n.CompactNumberFormatSymbols_nl_SR" ∷ [],
    )
    ∷ [])
