-- ===== src/Library/Rows/Eighteenth.antt =====
-- Lines 2556 to 2705 of gazelle/closure_js/closure_library/closure_library.go.
use rules_closure.Prelude.{List, [], ◌∷◌}
use rules_closure.Library.{Row, goog_rows}

abbrev pub eighteenth_rows : List Row
eighteenth_rows = goog_rows (
    (
      "i18n:datetimesymbolsext",
      "i18n.DateTimeSymbols_nmg_CM" ∷ "i18n.DateTimeSymbols_nn" ∷ "i18n.DateTimeSymbols_nn_NO"
          ∷ "i18n.DateTimeSymbols_nnh" ∷ "i18n.DateTimeSymbols_nnh_CM" ∷ [],
    )
    ∷ ("i18n:datetimesymbols", "i18n.DateTimeSymbols_no" ∷ "i18n.DateTimeSymbols_no_NO" ∷ [])
    ∷ (
      "i18n:datetimesymbolsext",
      "i18n.DateTimeSymbols_nus" ∷ "i18n.DateTimeSymbols_nus_SS" ∷ "i18n.DateTimeSymbols_nyn"
          ∷ "i18n.DateTimeSymbols_nyn_UG" ∷ "i18n.DateTimeSymbols_om" ∷ "i18n.DateTimeSymbols_om_ET"
          ∷ "i18n.DateTimeSymbols_om_KE" ∷ [],
    )
    ∷ ("i18n:datetimesymbols", "i18n.DateTimeSymbols_or" ∷ [])
    ∷ (
      "i18n:datetimesymbolsext",
      "i18n.DateTimeSymbols_or_IN" ∷ "i18n.DateTimeSymbols_os" ∷ "i18n.DateTimeSymbols_os_GE"
          ∷ "i18n.DateTimeSymbols_os_RU" ∷ [],
    )
    ∷ ("i18n:datetimesymbols", "i18n.DateTimeSymbols_pa" ∷ [])
    ∷ (
      "i18n:datetimesymbolsext",
      "i18n.DateTimeSymbols_pa_Arab" ∷ "i18n.DateTimeSymbols_pa_Arab_PK"
          ∷ "i18n.DateTimeSymbols_pa_Guru" ∷ "i18n.DateTimeSymbols_pa_Guru_IN" ∷ [],
    )
    ∷ ("i18n:datetimesymbols", "i18n.DateTimeSymbols_pl" ∷ [])
    ∷ (
      "i18n:datetimesymbolsext",
      "i18n.DateTimeSymbols_pl_PL" ∷ "i18n.DateTimeSymbols_ps" ∷ "i18n.DateTimeSymbols_ps_AF" ∷ [],
    )
    ∷ ("i18n:datetimesymbols", "i18n.DateTimeSymbols_pt" ∷ [])
    ∷ ("i18n:datetimesymbolsext", "i18n.DateTimeSymbols_pt_AO" ∷ [])
    ∷ ("i18n:datetimesymbols", "i18n.DateTimeSymbols_pt_BR" ∷ [])
    ∷ (
      "i18n:datetimesymbolsext",
      "i18n.DateTimeSymbols_pt_CH" ∷ "i18n.DateTimeSymbols_pt_CV" ∷ "i18n.DateTimeSymbols_pt_GQ"
          ∷ "i18n.DateTimeSymbols_pt_GW" ∷ "i18n.DateTimeSymbols_pt_LU"
          ∷ "i18n.DateTimeSymbols_pt_MO" ∷ "i18n.DateTimeSymbols_pt_MZ" ∷ [],
    )
    ∷ ("i18n:datetimesymbols", "i18n.DateTimeSymbols_pt_PT" ∷ [])
    ∷ (
      "i18n:datetimesymbolsext",
      "i18n.DateTimeSymbols_pt_ST" ∷ "i18n.DateTimeSymbols_pt_TL" ∷ "i18n.DateTimeSymbols_qu"
          ∷ "i18n.DateTimeSymbols_qu_BO" ∷ "i18n.DateTimeSymbols_qu_EC"
          ∷ "i18n.DateTimeSymbols_qu_PE" ∷ "i18n.DateTimeSymbols_rm" ∷ "i18n.DateTimeSymbols_rm_CH"
          ∷ "i18n.DateTimeSymbols_rn" ∷ "i18n.DateTimeSymbols_rn_BI" ∷ [],
    )
    ∷ ("i18n:datetimesymbols", "i18n.DateTimeSymbols_ro" ∷ [])
    ∷ (
      "i18n:datetimesymbolsext",
      "i18n.DateTimeSymbols_ro_MD" ∷ "i18n.DateTimeSymbols_ro_RO" ∷ "i18n.DateTimeSymbols_rof"
          ∷ "i18n.DateTimeSymbols_rof_TZ" ∷ [],
    )
    ∷ ("i18n:datetimesymbols", "i18n.DateTimeSymbols_ru" ∷ [])
    ∷ (
      "i18n:datetimesymbolsext",
      "i18n.DateTimeSymbols_ru_BY" ∷ "i18n.DateTimeSymbols_ru_KG" ∷ "i18n.DateTimeSymbols_ru_KZ"
          ∷ "i18n.DateTimeSymbols_ru_MD" ∷ "i18n.DateTimeSymbols_ru_RU"
          ∷ "i18n.DateTimeSymbols_ru_UA" ∷ "i18n.DateTimeSymbols_rw" ∷ "i18n.DateTimeSymbols_rw_RW"
          ∷ "i18n.DateTimeSymbols_rwk" ∷ "i18n.DateTimeSymbols_rwk_TZ" ∷ "i18n.DateTimeSymbols_sah"
          ∷ "i18n.DateTimeSymbols_sah_RU" ∷ "i18n.DateTimeSymbols_saq"
          ∷ "i18n.DateTimeSymbols_saq_KE" ∷ "i18n.DateTimeSymbols_sbp"
          ∷ "i18n.DateTimeSymbols_sbp_TZ" ∷ "i18n.DateTimeSymbols_sd" ∷ "i18n.DateTimeSymbols_sd_PK"
          ∷ "i18n.DateTimeSymbols_se" ∷ "i18n.DateTimeSymbols_se_FI" ∷ "i18n.DateTimeSymbols_se_NO"
          ∷ "i18n.DateTimeSymbols_se_SE" ∷ "i18n.DateTimeSymbols_seh"
          ∷ "i18n.DateTimeSymbols_seh_MZ" ∷ "i18n.DateTimeSymbols_ses"
          ∷ "i18n.DateTimeSymbols_ses_ML" ∷ "i18n.DateTimeSymbols_sg" ∷ "i18n.DateTimeSymbols_sg_CF"
          ∷ [],
    )
    ∷ ("i18n:datetimesymbols", "i18n.DateTimeSymbols_sh" ∷ [])
    ∷ (
      "i18n:datetimesymbolsext",
      "i18n.DateTimeSymbols_shi" ∷ "i18n.DateTimeSymbols_shi_Latn"
          ∷ "i18n.DateTimeSymbols_shi_Latn_MA" ∷ "i18n.DateTimeSymbols_shi_Tfng"
          ∷ "i18n.DateTimeSymbols_shi_Tfng_MA" ∷ [],
    )
    ∷ ("i18n:datetimesymbols", "i18n.DateTimeSymbols_si" ∷ [])
    ∷ ("i18n:datetimesymbolsext", "i18n.DateTimeSymbols_si_LK" ∷ [])
    ∷ ("i18n:datetimesymbols", "i18n.DateTimeSymbols_sk" ∷ [])
    ∷ ("i18n:datetimesymbolsext", "i18n.DateTimeSymbols_sk_SK" ∷ [])
    ∷ ("i18n:datetimesymbols", "i18n.DateTimeSymbols_sl" ∷ [])
    ∷ (
      "i18n:datetimesymbolsext",
      "i18n.DateTimeSymbols_sl_SI" ∷ "i18n.DateTimeSymbols_smn" ∷ "i18n.DateTimeSymbols_smn_FI"
          ∷ "i18n.DateTimeSymbols_sn" ∷ "i18n.DateTimeSymbols_sn_ZW" ∷ "i18n.DateTimeSymbols_so"
          ∷ "i18n.DateTimeSymbols_so_DJ" ∷ "i18n.DateTimeSymbols_so_ET"
          ∷ "i18n.DateTimeSymbols_so_KE" ∷ "i18n.DateTimeSymbols_so_SO" ∷ [],
    )
    ∷ ("i18n:datetimesymbols", "i18n.DateTimeSymbols_sq" ∷ [])
    ∷ (
      "i18n:datetimesymbolsext",
      "i18n.DateTimeSymbols_sq_AL" ∷ "i18n.DateTimeSymbols_sq_MK" ∷ "i18n.DateTimeSymbols_sq_XK"
          ∷ [],
    )
    ∷ ("i18n:datetimesymbols", "i18n.DateTimeSymbols_sr" ∷ [])
    ∷ (
      "i18n:datetimesymbolsext",
      "i18n.DateTimeSymbols_sr_Cyrl" ∷ "i18n.DateTimeSymbols_sr_Cyrl_BA"
          ∷ "i18n.DateTimeSymbols_sr_Cyrl_ME" ∷ "i18n.DateTimeSymbols_sr_Cyrl_RS"
          ∷ "i18n.DateTimeSymbols_sr_Cyrl_XK" ∷ [],
    )
    ∷ ("i18n:datetimesymbols", "i18n.DateTimeSymbols_sr_Latn" ∷ [])
    ∷ (
      "i18n:datetimesymbolsext",
      "i18n.DateTimeSymbols_sr_Latn_BA" ∷ "i18n.DateTimeSymbols_sr_Latn_ME"
          ∷ "i18n.DateTimeSymbols_sr_Latn_RS" ∷ "i18n.DateTimeSymbols_sr_Latn_XK" ∷ [],
    )
    ∷ ("i18n:datetimesymbols", "i18n.DateTimeSymbols_sv" ∷ [])
    ∷ (
      "i18n:datetimesymbolsext",
      "i18n.DateTimeSymbols_sv_AX" ∷ "i18n.DateTimeSymbols_sv_FI" ∷ "i18n.DateTimeSymbols_sv_SE"
          ∷ [],
    )
    ∷ ("i18n:datetimesymbols", "i18n.DateTimeSymbols_sw" ∷ [])
    ∷ (
      "i18n:datetimesymbolsext",
      "i18n.DateTimeSymbols_sw_CD" ∷ "i18n.DateTimeSymbols_sw_KE" ∷ "i18n.DateTimeSymbols_sw_TZ"
          ∷ "i18n.DateTimeSymbols_sw_UG" ∷ [],
    )
    ∷ ("i18n:datetimesymbols", "i18n.DateTimeSymbols_ta" ∷ [])
    ∷ (
      "i18n:datetimesymbolsext",
      "i18n.DateTimeSymbols_ta_IN" ∷ "i18n.DateTimeSymbols_ta_LK" ∷ "i18n.DateTimeSymbols_ta_MY"
          ∷ "i18n.DateTimeSymbols_ta_SG" ∷ [],
    )
    ∷ ("i18n:datetimesymbols", "i18n.DateTimeSymbols_te" ∷ [])
    ∷ (
      "i18n:datetimesymbolsext",
      "i18n.DateTimeSymbols_te_IN" ∷ "i18n.DateTimeSymbols_teo" ∷ "i18n.DateTimeSymbols_teo_KE"
          ∷ "i18n.DateTimeSymbols_teo_UG" ∷ "i18n.DateTimeSymbols_tg" ∷ "i18n.DateTimeSymbols_tg_TJ"
          ∷ [],
    )
    ∷ ("i18n:datetimesymbols", "i18n.DateTimeSymbols_th" ∷ [])
    ∷ (
      "i18n:datetimesymbolsext",
      "i18n.DateTimeSymbols_th_TH" ∷ "i18n.DateTimeSymbols_ti" ∷ "i18n.DateTimeSymbols_ti_ER"
          ∷ "i18n.DateTimeSymbols_ti_ET" ∷ "i18n.DateTimeSymbols_tk" ∷ "i18n.DateTimeSymbols_tk_TM"
          ∷ [],
    )
    ∷ ("i18n:datetimesymbols", "i18n.DateTimeSymbols_tl" ∷ [])
    ∷ ("i18n:datetimesymbolsext", "i18n.DateTimeSymbols_to" ∷ "i18n.DateTimeSymbols_to_TO" ∷ [])
    ∷ [])
