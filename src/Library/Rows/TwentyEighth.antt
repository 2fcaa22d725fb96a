-- ===== src/Library/Rows/TwentyEighth.antt =====
-- Lines 4056 to 4205 of gazelle/closure_js/closure_library/closure_library.go.
use rules_closure.Prelude.{List, [], ◌∷◌}
use rules_closure.Library.{Row, goog_rows}

abbrev pub twenty_eighth_rows : List Row
twenty_eighth_rows = goog_rows (
    (
      "labs/i18n:listsymbolsext",
      "labs.i18n.ListFormatSymbols_kl_GL" ∷ "labs.i18n.ListFormatSymbols_kln"
          ∷ "labs.i18n.ListFormatSymbols_kln_KE" ∷ [],
    )
    ∷ ("labs/i18n:listsymbols", "labs.i18n.ListFormatSymbols_km" ∷ [])
    ∷ ("labs/i18n:listsymbolsext", "labs.i18n.ListFormatSymbols_km_KH" ∷ [])
    ∷ ("labs/i18n:listsymbols", "labs.i18n.ListFormatSymbols_kn" ∷ [])
    ∷ ("labs/i18n:listsymbolsext", "labs.i18n.ListFormatSymbols_kn_IN" ∷ [])
    ∷ ("labs/i18n:listsymbols", "labs.i18n.ListFormatSymbols_ko" ∷ [])
    ∷ (
      "labs/i18n:listsymbolsext",
      "labs.i18n.ListFormatSymbols_ko_KP" ∷ "labs.i18n.ListFormatSymbols_ko_KR"
          ∷ "labs.i18n.ListFormatSymbols_kok" ∷ "labs.i18n.ListFormatSymbols_kok_IN"
          ∷ "labs.i18n.ListFormatSymbols_ks" ∷ "labs.i18n.ListFormatSymbols_ks_IN"
          ∷ "labs.i18n.ListFormatSymbols_ksb" ∷ "labs.i18n.ListFormatSymbols_ksb_TZ"
          ∷ "labs.i18n.ListFormatSymbols_ksf" ∷ "labs.i18n.ListFormatSymbols_ksf_CM"
          ∷ "labs.i18n.ListFormatSymbols_ksh" ∷ "labs.i18n.ListFormatSymbols_ksh_DE"
          ∷ "labs.i18n.ListFormatSymbols_ku" ∷ "labs.i18n.ListFormatSymbols_ku_TR"
          ∷ "labs.i18n.ListFormatSymbols_kw" ∷ "labs.i18n.ListFormatSymbols_kw_GB" ∷ [],
    )
    ∷ ("labs/i18n:listsymbols", "labs.i18n.ListFormatSymbols_ky" ∷ [])
    ∷ (
      "labs/i18n:listsymbolsext",
      "labs.i18n.ListFormatSymbols_ky_KG" ∷ "labs.i18n.ListFormatSymbols_lag"
          ∷ "labs.i18n.ListFormatSymbols_lag_TZ" ∷ "labs.i18n.ListFormatSymbols_lb"
          ∷ "labs.i18n.ListFormatSymbols_lb_LU" ∷ "labs.i18n.ListFormatSymbols_lg"
          ∷ "labs.i18n.ListFormatSymbols_lg_UG" ∷ "labs.i18n.ListFormatSymbols_lkt"
          ∷ "labs.i18n.ListFormatSymbols_lkt_US" ∷ [],
    )
    ∷ ("labs/i18n:listsymbols", "labs.i18n.ListFormatSymbols_ln" ∷ [])
    ∷ (
      "labs/i18n:listsymbolsext",
      "labs.i18n.ListFormatSymbols_ln_AO" ∷ "labs.i18n.ListFormatSymbols_ln_CD"
          ∷ "labs.i18n.ListFormatSymbols_ln_CF" ∷ "labs.i18n.ListFormatSymbols_ln_CG" ∷ [],
    )
    ∷ ("labs/i18n:listsymbols", "labs.i18n.ListFormatSymbols_lo" ∷ [])
    ∷ (
      "labs/i18n:listsymbolsext",
      "labs.i18n.ListFormatSymbols_lo_LA" ∷ "labs.i18n.ListFormatSymbols_lrc"
          ∷ "labs.i18n.ListFormatSymbols_lrc_IQ" ∷ "labs.i18n.ListFormatSymbols_lrc_IR" ∷ [],
    )
    ∷ ("labs/i18n:listsymbols", "labs.i18n.ListFormatSymbols_lt" ∷ [])
    ∷ (
      "labs/i18n:listsymbolsext",
      "labs.i18n.ListFormatSymbols_lt_LT" ∷ "labs.i18n.ListFormatSymbols_lu"
          ∷ "labs.i18n.ListFormatSymbols_lu_CD" ∷ "labs.i18n.ListFormatSymbols_luo"
          ∷ "labs.i18n.ListFormatSymbols_luo_KE" ∷ "labs.i18n.ListFormatSymbols_luy"
          ∷ "labs.i18n.ListFormatSymbols_luy_KE" ∷ [],
    )
    ∷ ("labs/i18n:listsymbols", "labs.i18n.ListFormatSymbols_lv" ∷ [])
    ∷ (
      "labs/i18n:listsymbolsext",
      "labs.i18n.ListFormatSymbols_lv_LV" ∷ "labs.i18n.ListFormatSymbols_mas"
          ∷ "labs.i18n.ListFormatSymbols_mas_KE" ∷ "labs.i18n.ListFormatSymbols_mas_TZ"
          ∷ "labs.i18n.ListFormatSymbols_mer" ∷ "labs.i18n.ListFormatSymbols_mer_KE"
          ∷ "labs.i18n.ListFormatSymbols_mfe" ∷ "labs.i18n.ListFormatSymbols_mfe_MU"
          ∷ "labs.i18n.ListFormatSymbols_mg" ∷ "labs.i18n.ListFormatSymbols_mg_MG"
          ∷ "labs.i18n.ListFormatSymbols_mgh" ∷ "labs.i18n.ListFormatSymbols_mgh_MZ"
          ∷ "labs.i18n.ListFormatSymbols_mgo" ∷ "labs.i18n.ListFormatSymbols_mgo_CM"
          ∷ "labs.i18n.ListFormatSymbols_mi" ∷ "labs.i18n.ListFormatSymbols_mi_NZ" ∷ [],
    )
    ∷ ("labs/i18n:listsymbols", "labs.i18n.ListFormatSymbols_mk" ∷ [])
    ∷ ("labs/i18n:listsymbolsext", "labs.i18n.ListFormatSymbols_mk_MK" ∷ [])
    ∷ ("labs/i18n:listsymbols", "labs.i18n.ListFormatSymbols_ml" ∷ [])
    ∷ ("labs/i18n:listsymbolsext", "labs.i18n.ListFormatSymbols_ml_IN" ∷ [])
    ∷ ("labs/i18n:listsymbols", "labs.i18n.ListFormatSymbols_mn" ∷ [])
    ∷ ("labs/i18n:listsymbolsext", "labs.i18n.ListFormatSymbols_mn_MN" ∷ [])
    ∷ (
      "labs/i18n:listsymbols",
      "labs.i18n.ListFormatSymbols_mo" ∷ "labs.i18n.ListFormatSymbols_mr" ∷ [],
    )
    ∷ ("labs/i18n:listsymbolsext", "labs.i18n.ListFormatSymbols_mr_IN" ∷ [])
    ∷ ("labs/i18n:listsymbols", "labs.i18n.ListFormatSymbols_ms" ∷ [])
    ∷ (
      "labs/i18n:listsymbolsext",
      "labs.i18n.ListFormatSymbols_ms_BN" ∷ "labs.i18n.ListFormatSymbols_ms_MY"
          ∷ "labs.i18n.ListFormatSymbols_ms_SG" ∷ [],
    )
    ∷ ("labs/i18n:listsymbols", "labs.i18n.ListFormatSymbols_mt" ∷ [])
    ∷ (
      "labs/i18n:listsymbolsext",
      "labs.i18n.ListFormatSymbols_mt_MT" ∷ "labs.i18n.ListFormatSymbols_mua"
          ∷ "labs.i18n.ListFormatSymbols_mua_CM" ∷ [],
    )
    ∷ ("labs/i18n:listsymbols", "labs.i18n.ListFormatSymbols_my" ∷ [])
    ∷ (
      "labs/i18n:listsymbolsext",
      "labs.i18n.ListFormatSymbols_my_MM" ∷ "labs.i18n.ListFormatSymbols_mzn"
          ∷ "labs.i18n.ListFormatSymbols_mzn_IR" ∷ "labs.i18n.ListFormatSymbols_naq"
          ∷ "labs.i18n.ListFormatSymbols_naq_NA" ∷ [],
    )
    ∷ ("labs/i18n:listsymbols", "labs.i18n.ListFormatSymbols_nb" ∷ [])
    ∷ (
      "labs/i18n:listsymbolsext",
      "labs.i18n.ListFormatSymbols_nb_NO" ∷ "labs.i18n.ListFormatSymbols_nb_SJ"
          ∷ "labs.i18n.ListFormatSymbols_nd" ∷ "labs.i18n.ListFormatSymbols_nd_ZW"
          ∷ "labs.i18n.ListFormatSymbols_nds" ∷ "labs.i18n.ListFormatSymbols_nds_DE"
          ∷ "labs.i18n.ListFormatSymbols_nds_NL" ∷ [],
    )
    ∷ ("labs/i18n:listsymbols", "labs.i18n.ListFormatSymbols_ne" ∷ [])
    ∷ (
      "labs/i18n:listsymbolsext",
      "labs.i18n.ListFormatSymbols_ne_IN" ∷ "labs.i18n.ListFormatSymbols_ne_NP" ∷ [],
    )
    ∷ ("labs/i18n:listsymbols", "labs.i18n.ListFormatSymbols_nl" ∷ [])
    ∷ (
      "labs/i18n:listsymbolsext",
      "labs.i18n.ListFormatSymbols_nl_AW" ∷ "labs.i18n.ListFormatSymbols_nl_BE"
          ∷ "labs.i18n.ListFormatSymbols_nl_BQ" ∷ "labs.i18n.ListFormatSymbols_nl_CW"
          ∷ "labs.i18n.ListFormatSymbols_nl_NL" ∷ "labs.i18n.ListFormatSymbols_nl_SR"
          ∷ "labs.i18n.ListFormatSymbols_nl_SX" ∷ "labs.i18n.ListFormatSymbols_nmg"
          ∷ "labs.i18n.ListFormatSymbols_nmg_CM" ∷ "labs.i18n.ListFormatSymbols_nn"
          ∷ "labs.i18n.ListFormatSymbols_nn_NO" ∷ "labs.i18n.ListFormatSymbols_nnh"
          ∷ "labs.i18n.ListFormatSymbols_nnh_CM" ∷ [],
    )
    ∷ (
      "labs/i18n:listsymbols",
      "labs.i18n.ListFormatSymbols_no" ∷ "labs.i18n.ListFormatSymbols_no_NO" ∷ [],
    )
    ∷ (
      "labs/i18n:listsymbolsext",
      "labs.i18n.ListFormatSymbols_nus" ∷ "labs.i18n.ListFormatSymbols_nus_SS"
          ∷ "labs.i18n.ListFormatSymbols_nyn" ∷ "labs.i18n.ListFormatSymbols_nyn_UG"
          ∷ "labs.i18n.ListFormatSymbols_om" ∷ "labs.i18n.ListFormatSymbols_om_ET"
          ∷ "labs.i18n.ListFormatSymbols_om_KE" ∷ [],
    )
    ∷ ("labs/i18n:listsymbols", "labs.i18n.ListFormatSymbols_or" ∷ [])
    ∷ (
      "labs/i18n:listsymbolsext",
      "labs.i18n.ListFormatSymbols_or_IN" ∷ "labs.i18n.ListFormatSymbols_os"
          ∷ "labs.i18n.ListFormatSymbols_os_GE" ∷ "labs.i18n.ListFormatSymbols_os_RU" ∷ [],
    )
    ∷ ("labs/i18n:listsymbols", "labs.i18n.ListFormatSymbols_pa" ∷ [])
    ∷ (
      "labs/i18n:listsymbolsext",
      "labs.i18n.ListFormatSymbols_pa_Arab" ∷ "labs.i18n.ListFormatSymbols_pa_Arab_PK"
          ∷ "labs.i18n.ListFormatSymbols_pa_Guru" ∷ "labs.i18n.ListFormatSymbols_pa_Guru_IN" ∷ [],
    )
    ∷ ("labs/i18n:listsymbols", "labs.i18n.ListFormatSymbols_pl" ∷ [])
    ∷ (
      "labs/i18n:listsymbolsext",
      "labs.i18n.ListFormatSymbols_pl_PL" ∷ "labs.i18n.ListFormatSymbols_ps"
          ∷ "labs.i18n.ListFormatSymbols_ps_AF" ∷ [],
    )
    ∷ ("labs/i18n:listsymbols", "labs.i18n.ListFormatSymbols_pt" ∷ [])
    ∷ ("labs/i18n:listsymbolsext", "labs.i18n.ListFormatSymbols_pt_AO" ∷ [])
    ∷ ("labs/i18n:listsymbols", "labs.i18n.ListFormatSymbols_pt_BR" ∷ [])
    ∷ (
      "labs/i18n:listsymbolsext",
      "labs.i18n.ListFormatSymbols_pt_CH" ∷ "labs.i18n.ListFormatSymbols_pt_CV"
          ∷ "labs.i18n.ListFormatSymbols_pt_GQ" ∷ "labs.i18n.ListFormatSymbols_pt_GW"
          ∷ "labs.i18n.ListFormatSymbols_pt_LU" ∷ "labs.i18n.ListFormatSymbols_pt_MO"
          ∷ "labs.i18n.ListFormatSymbols_pt_MZ" ∷ [],
    )
    ∷ [])
