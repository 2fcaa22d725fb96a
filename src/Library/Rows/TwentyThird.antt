-- ===== src/Library/Rows/TwentyThird.antt =====
-- Lines 3306 to 3455 of gazelle/closure_js/closure_library/closure_library.go.
use rules_closure.Prelude.{List, [], ◌∷◌}
use rules_closure.Library.{Row, goog_rows}

abbrev pub twenty_third_rows : List Row
twenty_third_rows = goog_rows (
    ("i18n:numberformatsymbolsext", "i18n.NumberFormatSymbols_mi_NZ" ∷ [])
    ∷ ("i18n:numberformatsymbols", "i18n.NumberFormatSymbols_mk" ∷ [])
    ∷ ("i18n:numberformatsymbolsext", "i18n.NumberFormatSymbols_mk_MK" ∷ [])
    ∷ ("i18n:numberformatsymbols", "i18n.NumberFormatSymbols_ml" ∷ [])
    ∷ ("i18n:numberformatsymbolsext", "i18n.NumberFormatSymbols_ml_IN" ∷ [])
    ∷ ("i18n:numberformatsymbols", "i18n.NumberFormatSymbols_mn" ∷ [])
    ∷ ("i18n:numberformatsymbolsext", "i18n.NumberFormatSymbols_mn_MN" ∷ [])
    ∷ (
      "i18n:numberformatsymbols",
      "i18n.NumberFormatSymbols_mo" ∷ "i18n.NumberFormatSymbols_mr" ∷ [],
    )
    ∷ (
      "i18n:numberformatsymbolsext",
      "i18n.NumberFormatSymbols_mr_IN" ∷ "i18n.NumberFormatSymbols_mr_IN_u_nu_latn" ∷ [],
    )
    ∷ (
      "i18n:numberformatsymbols",
      "i18n.NumberFormatSymbols_mr_u_nu_latn" ∷ "i18n.NumberFormatSymbols_ms" ∷ [],
    )
    ∷ (
      "i18n:numberformatsymbolsext",
      "i18n.NumberFormatSymbols_ms_BN" ∷ "i18n.NumberFormatSymbols_ms_MY"
          ∷ "i18n.NumberFormatSymbols_ms_SG" ∷ [],
    )
    ∷ ("i18n:numberformatsymbols", "i18n.NumberFormatSymbols_mt" ∷ [])
    ∷ (
      "i18n:numberformatsymbolsext",
      "i18n.NumberFormatSymbols_mt_MT" ∷ "i18n.NumberFormatSymbols_mua"
          ∷ "i18n.NumberFormatSymbols_mua_CM" ∷ [],
    )
    ∷ ("i18n:numberformatsymbols", "i18n.NumberFormatSymbols_my" ∷ [])
    ∷ (
      "i18n:numberformatsymbolsext",
      "i18n.NumberFormatSymbols_my_MM" ∷ "i18n.NumberFormatSymbols_my_MM_u_nu_latn" ∷ [],
    )
    ∷ ("i18n:numberformatsymbols", "i18n.NumberFormatSymbols_my_u_nu_latn" ∷ [])
    ∷ (
      "i18n:numberformatsymbolsext",
      "i18n.NumberFormatSymbols_mzn" ∷ "i18n.NumberFormatSymbols_mzn_IR"
          ∷ "i18n.NumberFormatSymbols_mzn_IR_u_nu_latn" ∷ "i18n.NumberFormatSymbols_mzn_u_nu_latn"
          ∷ "i18n.NumberFormatSymbols_naq" ∷ "i18n.NumberFormatSymbols_naq_NA" ∷ [],
    )
    ∷ ("i18n:numberformatsymbols", "i18n.NumberFormatSymbols_nb" ∷ [])
    ∷ (
      "i18n:numberformatsymbolsext",
      "i18n.NumberFormatSymbols_nb_NO" ∷ "i18n.NumberFormatSymbols_nb_SJ"
          ∷ "i18n.NumberFormatSymbols_nd" ∷ "i18n.NumberFormatSymbols_nd_ZW"
          ∷ "i18n.NumberFormatSymbols_nds" ∷ "i18n.NumberFormatSymbols_nds_DE"
          ∷ "i18n.NumberFormatSymbols_nds_NL" ∷ [],
    )
    ∷ ("i18n:numberformatsymbols", "i18n.NumberFormatSymbols_ne" ∷ [])
    ∷ (
      "i18n:numberformatsymbolsext",
      "i18n.NumberFormatSymbols_ne_IN" ∷ "i18n.NumberFormatSymbols_ne_IN_u_nu_latn"
          ∷ "i18n.NumberFormatSymbols_ne_NP" ∷ "i18n.NumberFormatSymbols_ne_NP_u_nu_latn" ∷ [],
    )
    ∷ (
      "i18n:numberformatsymbols",
      "i18n.NumberFormatSymbols_ne_u_nu_latn" ∷ "i18n.NumberFormatSymbols_nl" ∷ [],
    )
    ∷ (
      "i18n:numberformatsymbolsext",
      "i18n.NumberFormatSymbols_nl_AW" ∷ "i18n.NumberFormatSymbols_nl_BE"
          ∷ "i18n.NumberFormatSymbols_nl_BQ" ∷ "i18n.NumberFormatSymbols_nl_CW"
          ∷ "i18n.NumberFormatSymbols_nl_NL" ∷ "i18n.NumberFormatSymbols_nl_SR"
          ∷ "i18n.NumberFormatSymbols_nl_SX" ∷ "i18n.NumberFormatSymbols_nmg"
          ∷ "i18n.NumberFormatSymbols_nmg_CM" ∷ "i18n.NumberFormatSymbols_nn"
          ∷ "i18n.NumberFormatSymbols_nn_NO" ∷ "i18n.NumberFormatSymbols_nnh"
          ∷ "i18n.NumberFormatSymbols_nnh_CM" ∷ [],
    )
    ∷ (
      "i18n:numberformatsymbols",
      "i18n.NumberFormatSymbols_no" ∷ "i18n.NumberFormatSymbols_no_NO" ∷ [],
    )
    ∷ (
      "i18n:numberformatsymbolsext",
      "i18n.NumberFormatSymbols_nus" ∷ "i18n.NumberFormatSymbols_nus_SS"
          ∷ "i18n.NumberFormatSymbols_nyn" ∷ "i18n.NumberFormatSymbols_nyn_UG"
          ∷ "i18n.NumberFormatSymbols_om" ∷ "i18n.NumberFormatSymbols_om_ET"
          ∷ "i18n.NumberFormatSymbols_om_KE" ∷ [],
    )
    ∷ ("i18n:numberformatsymbols", "i18n.NumberFormatSymbols_or" ∷ [])
    ∷ (
      "i18n:numberformatsymbolsext",
      "i18n.NumberFormatSymbols_or_IN" ∷ "i18n.NumberFormatSymbols_os"
          ∷ "i18n.NumberFormatSymbols_os_GE" ∷ "i18n.NumberFormatSymbols_os_RU" ∷ [],
    )
    ∷ ("i18n:numberformatsymbols", "i18n.NumberFormatSymbols_pa" ∷ [])
    ∷ (
      "i18n:numberformatsymbolsext",
      "i18n.NumberFormatSymbols_pa_Arab" ∷ "i18n.NumberFormatSymbols_pa_Arab_PK"
          ∷ "i18n.NumberFormatSymbols_pa_Arab_PK_u_nu_latn"
          ∷ "i18n.NumberFormatSymbols_pa_Arab_u_nu_latn" ∷ "i18n.NumberFormatSymbols_pa_Guru"
          ∷ "i18n.NumberFormatSymbols_pa_Guru_IN" ∷ [],
    )
    ∷ ("i18n:numberformatsymbols", "i18n.NumberFormatSymbols_pl" ∷ [])
    ∷ (
      "i18n:numberformatsymbolsext",
      "i18n.NumberFormatSymbols_pl_PL" ∷ "i18n.NumberFormatSymbols_ps"
          ∷ "i18n.NumberFormatSymbols_ps_AF" ∷ "i18n.NumberFormatSymbols_ps_AF_u_nu_latn"
          ∷ "i18n.NumberFormatSymbols_ps_u_nu_latn" ∷ [],
    )
    ∷ ("i18n:numberformatsymbols", "i18n.NumberFormatSymbols_pt" ∷ [])
    ∷ ("i18n:numberformatsymbolsext", "i18n.NumberFormatSymbols_pt_AO" ∷ [])
    ∷ ("i18n:numberformatsymbols", "i18n.NumberFormatSymbols_pt_BR" ∷ [])
    ∷ (
      "i18n:numberformatsymbolsext",
      "i18n.NumberFormatSymbols_pt_CH" ∷ "i18n.NumberFormatSymbols_pt_CV"
          ∷ "i18n.NumberFormatSymbols_pt_GQ" ∷ "i18n.NumberFormatSymbols_pt_GW"
          ∷ "i18n.NumberFormatSymbols_pt_LU" ∷ "i18n.NumberFormatSymbols_pt_MO"
          ∷ "i18n.NumberFormatSymbols_pt_MZ" ∷ [],
    )
    ∷ ("i18n:numberformatsymbols", "i18n.NumberFormatSymbols_pt_PT" ∷ [])
    ∷ (
      "i18n:numberformatsymbolsext",
      "i18n.NumberFormatSymbols_pt_ST" ∷ "i18n.NumberFormatSymbols_pt_TL"
          ∷ "i18n.NumberFormatSymbols_qu" ∷ "i18n.NumberFormatSymbols_qu_BO"
          ∷ "i18n.NumberFormatSymbols_qu_EC" ∷ "i18n.NumberFormatSymbols_qu_PE"
          ∷ "i18n.NumberFormatSymbols_rm" ∷ "i18n.NumberFormatSymbols_rm_CH"
          ∷ "i18n.NumberFormatSymbols_rn" ∷ "i18n.NumberFormatSymbols_rn_BI" ∷ [],
    )
    ∷ ("i18n:numberformatsymbols", "i18n.NumberFormatSymbols_ro" ∷ [])
    ∷ (
      "i18n:numberformatsymbolsext",
      "i18n.NumberFormatSymbols_ro_MD" ∷ "i18n.NumberFormatSymbols_ro_RO"
          ∷ "i18n.NumberFormatSymbols_rof" ∷ "i18n.NumberFormatSymbols_rof_TZ" ∷ [],
    )
    ∷ ("i18n:numberformatsymbols", "i18n.NumberFormatSymbols_ru" ∷ [])
    ∷ (
      "i18n:numberformatsymbolsext",
      "i18n.NumberFormatSymbols_ru_BY" ∷ "i18n.NumberFormatSymbols_ru_KG"
          ∷ "i18n.NumberFormatSymbols_ru_KZ" ∷ "i18n.NumberFormatSymbols_ru_MD"
          ∷ "i18n.NumberFormatSymbols_ru_RU" ∷ "i18n.NumberFormatSymbols_ru_UA"
          ∷ "i18n.NumberFormatSymbols_rw" ∷ "i18n.NumberFormatSymbols_rw_RW"
          ∷ "i18n.NumberFormatSymbols_rwk" ∷ "i18n.NumberFormatSymbols_rwk_TZ"
          ∷ "i18n.NumberFormatSymbols_sah" ∷ "i18n.NumberFormatSymbols_sah_RU"
          ∷ "i18n.NumberFormatSymbols_saq" ∷ "i18n.NumberFormatSymbols_saq_KE"
          ∷ "i18n.NumberFormatSymbols_sbp" ∷ "i18n.NumberFormatSymbols_sbp_TZ"
          ∷ "i18n.NumberFormatSymbols_sd" ∷ "i18n.NumberFormatSymbols_sd_PK"
          ∷ "i18n.NumberFormatSymbols_sd_PK_u_nu_latn" ∷ "i18n.NumberFormatSymbols_sd_u_nu_latn"
          ∷ "i18n.NumberFormatSymbols_se" ∷ "i18n.NumberFormatSymbols_se_FI"
          ∷ "i18n.NumberFormatSymbols_se_NO" ∷ "i18n.NumberFormatSymbols_se_SE"
          ∷ "i18n.NumberFormatSymbols_seh" ∷ "i18n.NumberFormatSymbols_seh_MZ"
          ∷ "i18n.NumberFormatSymbols_ses" ∷ "i18n.NumberFormatSymbols_ses_ML"
          ∷ "i18n.NumberFormatSymbols_sg" ∷ "i18n.NumberFormatSymbols_sg_CF" ∷ [],
    )
    ∷ ("i18n:numberformatsymbols", "i18n.NumberFormatSymbols_sh" ∷ [])
    ∷ (
      "i18n:numberformatsymbolsext",
      "i18n.NumberFormatSymbols_shi" ∷ "i18n.NumberFormatSymbols_shi_Latn"
          ∷ "i18n.NumberFormatSymbols_shi_Latn_MA" ∷ "i18n.NumberFormatSymbols_shi_Tfng"
          ∷ "i18n.NumberFormatSymbols_shi_Tfng_MA" ∷ [],
    )
    ∷ ("i18n:numberformatsymbols", "i18n.NumberFormatSymbols_si" ∷ [])
    ∷ ("i18n:numberformatsymbolsext", "i18n.NumberFormatSymbols_si_LK" ∷ [])
    ∷ [])
