-- ===== src/Library/Rows/Thirteenth.antt =====
-- Lines 1806 to 1955 of gazelle/closure_js/closure_library/closure_library.go.
use rules_closure.Prelude.{List, [], ◌∷◌}
use rules_closure.Library.{Row, goog_rows}

abbrev pub thirteenth_rows : List Row
thirteenth_rows = goog_rows (
    (
      "i18n:datetimepatternsext",
      "i18n.DateTimePatterns_nl_SX" ∷ "i18n.DateTimePatterns_nmg" ∷ "i18n.DateTimePatterns_nmg_CM"
          ∷ "i18n.DateTimePatterns_nn" ∷ "i18n.DateTimePatterns_nn_NO" ∷ "i18n.DateTimePatterns_nnh"
          ∷ "i18n.DateTimePatterns_nnh_CM" ∷ [],
    )
    ∷ ("i18n:datetimepatterns", "i18n.DateTimePatterns_no" ∷ "i18n.DateTimePatterns_no_NO" ∷ [])
    ∷ (
      "i18n:datetimepatternsext",
      "i18n.DateTimePatterns_nus" ∷ "i18n.DateTimePatterns_nus_SS" ∷ "i18n.DateTimePatterns_nyn"
          ∷ "i18n.DateTimePatterns_nyn_UG" ∷ "i18n.DateTimePatterns_om"
          ∷ "i18n.DateTimePatterns_om_ET" ∷ "i18n.DateTimePatterns_om_KE" ∷ [],
    )
    ∷ ("i18n:datetimepatterns", "i18n.DateTimePatterns_or" ∷ [])
    ∷ (
      "i18n:datetimepatternsext",
      "i18n.DateTimePatterns_or_IN" ∷ "i18n.DateTimePatterns_os" ∷ "i18n.DateTimePatterns_os_GE"
          ∷ "i18n.DateTimePatterns_os_RU" ∷ [],
    )
    ∷ ("i18n:datetimepatterns", "i18n.DateTimePatterns_pa" ∷ [])
    ∷ (
      "i18n:datetimepatternsext",
      "i18n.DateTimePatterns_pa_Arab" ∷ "i18n.DateTimePatterns_pa_Arab_PK"
          ∷ "i18n.DateTimePatterns_pa_Guru" ∷ "i18n.DateTimePatterns_pa_Guru_IN" ∷ [],
    )
    ∷ ("i18n:datetimepatterns", "i18n.DateTimePatterns_pl" ∷ [])
    ∷ (
      "i18n:datetimepatternsext",
      "i18n.DateTimePatterns_pl_PL" ∷ "i18n.DateTimePatterns_ps" ∷ "i18n.DateTimePatterns_ps_AF"
          ∷ [],
    )
    ∷ ("i18n:datetimepatterns", "i18n.DateTimePatterns_pt" ∷ [])
    ∷ ("i18n:datetimepatternsext", "i18n.DateTimePatterns_pt_AO" ∷ [])
    ∷ ("i18n:datetimepatterns", "i18n.DateTimePatterns_pt_BR" ∷ [])
    ∷ (
      "i18n:datetimepatternsext",
      "i18n.DateTimePatterns_pt_CH" ∷ "i18n.DateTimePatterns_pt_CV" ∷ "i18n.DateTimePatterns_pt_GQ"
          ∷ "i18n.DateTimePatterns_pt_GW" ∷ "i18n.DateTimePatterns_pt_LU"
          ∷ "i18n.DateTimePatterns_pt_MO" ∷ "i18n.DateTimePatterns_pt_MZ" ∷ [],
    )
    ∷ ("i18n:datetimepatterns", "i18n.DateTimePatterns_pt_PT" ∷ [])
    ∷ (
      "i18n:datetimepatternsext",
      "i18n.DateTimePatterns_pt_ST" ∷ "i18n.DateTimePatterns_pt_TL" ∷ "i18n.DateTimePatterns_qu"
          ∷ "i18n.DateTimePatterns_qu_BO" ∷ "i18n.DateTimePatterns_qu_EC"
          ∷ "i18n.DateTimePatterns_qu_PE" ∷ "i18n.DateTimePatterns_rm"
          ∷ "i18n.DateTimePatterns_rm_CH" ∷ "i18n.DateTimePatterns_rn"
          ∷ "i18n.DateTimePatterns_rn_BI" ∷ [],
    )
    ∷ ("i18n:datetimepatterns", "i18n.DateTimePatterns_ro" ∷ [])
    ∷ (
      "i18n:datetimepatternsext",
      "i18n.DateTimePatterns_ro_MD" ∷ "i18n.DateTimePatterns_ro_RO" ∷ "i18n.DateTimePatterns_rof"
          ∷ "i18n.DateTimePatterns_rof_TZ" ∷ [],
    )
    ∷ ("i18n:datetimepatterns", "i18n.DateTimePatterns_ru" ∷ [])
    ∷ (
      "i18n:datetimepatternsext",
      "i18n.DateTimePatterns_ru_BY" ∷ "i18n.DateTimePatterns_ru_KG" ∷ "i18n.DateTimePatterns_ru_KZ"
          ∷ "i18n.DateTimePatterns_ru_MD" ∷ "i18n.DateTimePatterns_ru_RU"
          ∷ "i18n.DateTimePatterns_ru_UA" ∷ "i18n.DateTimePatterns_rw"
          ∷ "i18n.DateTimePatterns_rw_RW" ∷ "i18n.DateTimePatterns_rwk"
          ∷ "i18n.DateTimePatterns_rwk_TZ" ∷ "i18n.DateTimePatterns_sah"
          ∷ "i18n.DateTimePatterns_sah_RU" ∷ "i18n.DateTimePatterns_saq"
          ∷ "i18n.DateTimePatterns_saq_KE" ∷ "i18n.DateTimePatterns_sbp"
          ∷ "i18n.DateTimePatterns_sbp_TZ" ∷ "i18n.DateTimePatterns_sd"
          ∷ "i18n.DateTimePatterns_sd_PK" ∷ "i18n.DateTimePatterns_se"
          ∷ "i18n.DateTimePatterns_se_FI" ∷ "i18n.DateTimePatterns_se_NO"
          ∷ "i18n.DateTimePatterns_se_SE" ∷ "i18n.DateTimePatterns_seh"
          ∷ "i18n.DateTimePatterns_seh_MZ" ∷ "i18n.DateTimePatterns_ses"
          ∷ "i18n.DateTimePatterns_ses_ML" ∷ "i18n.DateTimePatterns_sg"
          ∷ "i18n.DateTimePatterns_sg_CF" ∷ [],
    )
    ∷ ("i18n:datetimepatterns", "i18n.DateTimePatterns_sh" ∷ [])
    ∷ (
      "i18n:datetimepatternsext",
      "i18n.DateTimePatterns_shi" ∷ "i18n.DateTimePatterns_shi_Latn"
          ∷ "i18n.DateTimePatterns_shi_Latn_MA" ∷ "i18n.DateTimePatterns_shi_Tfng"
          ∷ "i18n.DateTimePatterns_shi_Tfng_MA" ∷ [],
    )
    ∷ ("i18n:datetimepatterns", "i18n.DateTimePatterns_si" ∷ [])
    ∷ ("i18n:datetimepatternsext", "i18n.DateTimePatterns_si_LK" ∷ [])
    ∷ ("i18n:datetimepatterns", "i18n.DateTimePatterns_sk" ∷ [])
    ∷ ("i18n:datetimepatternsext", "i18n.DateTimePatterns_sk_SK" ∷ [])
    ∷ ("i18n:datetimepatterns", "i18n.DateTimePatterns_sl" ∷ [])
    ∷ (
      "i18n:datetimepatternsext",
      "i18n.DateTimePatterns_sl_SI" ∷ "i18n.DateTimePatterns_smn" ∷ "i18n.DateTimePatterns_smn_FI"
          ∷ "i18n.DateTimePatterns_sn" ∷ "i18n.DateTimePatterns_sn_ZW" ∷ "i18n.DateTimePatterns_so"
          ∷ "i18n.DateTimePatterns_so_DJ" ∷ "i18n.DateTimePatterns_so_ET"
          ∷ "i18n.DateTimePatterns_so_KE" ∷ "i18n.DateTimePatterns_so_SO" ∷ [],
    )
    ∷ ("i18n:datetimepatterns", "i18n.DateTimePatterns_sq" ∷ [])
    ∷ (
      "i18n:datetimepatternsext",
      "i18n.DateTimePatterns_sq_AL" ∷ "i18n.DateTimePatterns_sq_MK" ∷ "i18n.DateTimePatterns_sq_XK"
          ∷ [],
    )
    ∷ ("i18n:datetimepatterns", "i18n.DateTimePatterns_sr" ∷ [])
    ∷ (
      "i18n:datetimepatternsext",
      "i18n.DateTimePatterns_sr_Cyrl" ∷ "i18n.DateTimePatterns_sr_Cyrl_BA"
          ∷ "i18n.DateTimePatterns_sr_Cyrl_ME" ∷ "i18n.DateTimePatterns_sr_Cyrl_RS"
          ∷ "i18n.DateTimePatterns_sr_Cyrl_XK" ∷ [],
    )
    ∷ ("i18n:datetimepatterns", "i18n.DateTimePatterns_sr_Latn" ∷ [])
    ∷ (
      "i18n:datetimepatternsext",
      "i18n.DateTimePatterns_sr_Latn_BA" ∷ "i18n.DateTimePatterns_sr_Latn_ME"
          ∷ "i18n.DateTimePatterns_sr_Latn_RS" ∷ "i18n.DateTimePatterns_sr_Latn_XK" ∷ [],
    )
    ∷ ("i18n:datetimepatterns", "i18n.DateTimePatterns_sv" ∷ [])
    ∷ (
      "i18n:datetimepatternsext",
      "i18n.DateTimePatterns_sv_AX" ∷ "i18n.DateTimePatterns_sv_FI" ∷ "i18n.DateTimePatterns_sv_SE"
          ∷ [],
    )
    ∷ ("i18n:datetimepatterns", "i18n.DateTimePatterns_sw" ∷ [])
    ∷ (
      "i18n:datetimepatternsext",
      "i18n.DateTimePatterns_sw_CD" ∷ "i18n.DateTimePatterns_sw_KE" ∷ "i18n.DateTimePatterns_sw_TZ"
          ∷ "i18n.DateTimePatterns_sw_UG" ∷ [],
    )
    ∷ ("i18n:datetimepatterns", "i18n.DateTimePatterns_ta" ∷ [])
    ∷ (
      "i18n:datetimepatternsext",
      "i18n.DateTimePatterns_ta_IN" ∷ "i18n.DateTimePatterns_ta_LK" ∷ "i18n.DateTimePatterns_ta_MY"
          ∷ "i18n.DateTimePatterns_ta_SG" ∷ [],
    )
    ∷ ("i18n:datetimepatterns", "i18n.DateTimePatterns_te" ∷ [])
    ∷ (
      "i18n:datetimepatternsext",
      "i18n.DateTimePatterns_te_IN" ∷ "i18n.DateTimePatterns_teo" ∷ "i18n.DateTimePatterns_teo_KE"
          ∷ "i18n.DateTimePatterns_teo_UG" ∷ "i18n.DateTimePatterns_tg"
          ∷ "i18n.DateTimePatterns_tg_TJ" ∷ [],
    )
    ∷ ("i18n:datetimepatterns", "i18n.DateTimePatterns_th" ∷ [])
    ∷ (
      "i18n:datetimepatternsext",
      "i18n.DateTimePatterns_th_TH" ∷ "i18n.DateTimePatterns_ti" ∷ "i18n.DateTimePatterns_ti_ER"
          ∷ "i18n.DateTimePatterns_ti_ET" ∷ "i18n.DateTimePatterns_tk"
          ∷ "i18n.DateTimePatterns_tk_TM" ∷ [],
    )
    ∷ ("i18n:datetimepatterns", "i18n.DateTimePatterns_tl" ∷ [])
    ∷ [])
