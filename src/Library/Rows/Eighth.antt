-- ===== src/Library/Rows/Eighth.antt =====
-- Lines 1056 to 1205 of gazelle/closure_js/closure_library/closure_library.go.
use rules_closure.Prelude.{List, [], ◌∷◌}
use rules_closure.Library.{Row, goog_rows}

abbrev pub eighth_rows : List Row
eighth_rows = goog_rows (
    (
      "i18n:compactnumberformatsymbolsext",
      "i18n.CompactNumberFormatSymbols_nl_SX" ∷ "i18n.CompactNumberFormatSymbols_nmg"
          ∷ "i18n.CompactNumberFormatSymbols_nmg_CM" ∷ "i18n.CompactNumberFormatSymbols_nn"
          ∷ "i18n.CompactNumberFormatSymbols_nn_NO" ∷ "i18n.CompactNumberFormatSymbols_nnh"
          ∷ "i18n.CompactNumberFormatSymbols_nnh_CM" ∷ [],
    )
    ∷ (
      "i18n:compactnumberformatsymbols",
      "i18n.CompactNumberFormatSymbols_no" ∷ "i18n.CompactNumberFormatSymbols_no_NO" ∷ [],
    )
    ∷ (
      "i18n:compactnumberformatsymbolsext",
      "i18n.CompactNumberFormatSymbols_nus" ∷ "i18n.CompactNumberFormatSymbols_nus_SS"
          ∷ "i18n.CompactNumberFormatSymbols_nyn" ∷ "i18n.CompactNumberFormatSymbols_nyn_UG"
          ∷ "i18n.CompactNumberFormatSymbols_om" ∷ "i18n.CompactNumberFormatSymbols_om_ET"
          ∷ "i18n.CompactNumberFormatSymbols_om_KE" ∷ [],
    )
    ∷ ("i18n:compactnumberformatsymbols", "i18n.CompactNumberFormatSymbols_or" ∷ [])
    ∷ (
      "i18n:compactnumberformatsymbolsext",
      "i18n.CompactNumberFormatSymbols_or_IN" ∷ "i18n.CompactNumberFormatSymbols_os"
          ∷ "i18n.CompactNumberFormatSymbols_os_GE" ∷ "i18n.CompactNumberFormatSymbols_os_RU" ∷ [],
    )
    ∷ ("i18n:compactnumberformatsymbols", "i18n.CompactNumberFormatSymbols_pa" ∷ [])
    ∷ (
      "i18n:compactnumberformatsymbolsext",
      "i18n.CompactNumberFormatSymbols_pa_Arab" ∷ "i18n.CompactNumberFormatSymbols_pa_Arab_PK"
          ∷ "i18n.CompactNumberFormatSymbols_pa_Guru" ∷ "i18n.CompactNumberFormatSymbols_pa_Guru_IN"
          ∷ [],
    )
    ∷ ("i18n:compactnumberformatsymbols", "i18n.CompactNumberFormatSymbols_pl" ∷ [])
    ∷ (
      "i18n:compactnumberformatsymbolsext",
      "i18n.CompactNumberFormatSymbols_pl_PL" ∷ "i18n.CompactNumberFormatSymbols_ps"
          ∷ "i18n.CompactNumberFormatSymbols_ps_AF" ∷ [],
    )
    ∷ ("i18n:compactnumberformatsymbols", "i18n.CompactNumberFormatSymbols_pt" ∷ [])
    ∷ ("i18n:compactnumberformatsymbolsext", "i18n.CompactNumberFormatSymbols_pt_AO" ∷ [])
    ∷ ("i18n:compactnumberformatsymbols", "i18n.CompactNumberFormatSymbols_pt_BR" ∷ [])
    ∷ (
      "i18n:compactnumberformatsymbolsext",
      "i18n.CompactNumberFormatSymbols_pt_CH" ∷ "i18n.CompactNumberFormatSymbols_pt_CV"
          ∷ "i18n.CompactNumberFormatSymbols_pt_GQ" ∷ "i18n.CompactNumberFormatSymbols_pt_GW"
          ∷ "i18n.CompactNumberFormatSymbols_pt_LU" ∷ "i18n.CompactNumberFormatSymbols_pt_MO"
          ∷ "i18n.CompactNumberFormatSymbols_pt_MZ" ∷ [],
    )
    ∷ ("i18n:compactnumberformatsymbols", "i18n.CompactNumberFormatSymbols_pt_PT" ∷ [])
    ∷ (
      "i18n:compactnumberformatsymbolsext",
      "i18n.CompactNumberFormatSymbols_pt_ST" ∷ "i18n.CompactNumberFormatSymbols_pt_TL"
          ∷ "i18n.CompactNumberFormatSymbols_qu" ∷ "i18n.CompactNumberFormatSymbols_qu_BO"
          ∷ "i18n.CompactNumberFormatSymbols_qu_EC" ∷ "i18n.CompactNumberFormatSymbols_qu_PE"
          ∷ "i18n.CompactNumberFormatSymbols_rm" ∷ "i18n.CompactNumberFormatSymbols_rm_CH"
          ∷ "i18n.CompactNumberFormatSymbols_rn" ∷ "i18n.CompactNumberFormatSymbols_rn_BI" ∷ [],
    )
    ∷ ("i18n:compactnumberformatsymbols", "i18n.CompactNumberFormatSymbols_ro" ∷ [])
    ∷ (
      "i18n:compactnumberformatsymbolsext",
      "i18n.CompactNumberFormatSymbols_ro_MD" ∷ "i18n.CompactNumberFormatSymbols_ro_RO"
          ∷ "i18n.CompactNumberFormatSymbols_rof" ∷ "i18n.CompactNumberFormatSymbols_rof_TZ" ∷ [],
    )
    ∷ ("i18n:compactnumberformatsymbols", "i18n.CompactNumberFormatSymbols_ru" ∷ [])
    ∷ (
      "i18n:compactnumberformatsymbolsext",
      "i18n.CompactNumberFormatSymbols_ru_BY" ∷ "i18n.CompactNumberFormatSymbols_ru_KG"
          ∷ "i18n.CompactNumberFormatSymbols_ru_KZ" ∷ "i18n.CompactNumberFormatSymbols_ru_MD"
          ∷ "i18n.CompactNumberFormatSymbols_ru_RU" ∷ "i18n.CompactNumberFormatSymbols_ru_UA"
          ∷ "i18n.CompactNumberFormatSymbols_rw" ∷ "i18n.CompactNumberFormatSymbols_rw_RW"
          ∷ "i18n.CompactNumberFormatSymbols_rwk" ∷ "i18n.CompactNumberFormatSymbols_rwk_TZ"
          ∷ "i18n.CompactNumberFormatSymbols_sah" ∷ "i18n.CompactNumberFormatSymbols_sah_RU"
          ∷ "i18n.CompactNumberFormatSymbols_saq" ∷ "i18n.CompactNumberFormatSymbols_saq_KE"
          ∷ "i18n.CompactNumberFormatSymbols_sbp" ∷ "i18n.CompactNumberFormatSymbols_sbp_TZ"
          ∷ "i18n.CompactNumberFormatSymbols_sd" ∷ "i18n.CompactNumberFormatSymbols_sd_PK"
          ∷ "i18n.CompactNumberFormatSymbols_se" ∷ "i18n.CompactNumberFormatSymbols_se_FI"
          ∷ "i18n.CompactNumberFormatSymbols_se_NO" ∷ "i18n.CompactNumberFormatSymbols_se_SE"
          ∷ "i18n.CompactNumberFormatSymbols_seh" ∷ "i18n.CompactNumberFormatSymbols_seh_MZ"
          ∷ "i18n.CompactNumberFormatSymbols_ses" ∷ "i18n.CompactNumberFormatSymbols_ses_ML"
          ∷ "i18n.CompactNumberFormatSymbols_sg" ∷ "i18n.CompactNumberFormatSymbols_sg_CF" ∷ [],
    )
    ∷ ("i18n:compactnumberformatsymbols", "i18n.CompactNumberFormatSymbols_sh" ∷ [])
    ∷ (
      "i18n:compactnumberformatsymbolsext",
      "i18n.CompactNumberFormatSymbols_shi" ∷ "i18n.CompactNumberFormatSymbols_shi_Latn"
          ∷ "i18n.CompactNumberFormatSymbols_shi_Latn_MA"
          ∷ "i18n.CompactNumberFormatSymbols_shi_Tfng"
          ∷ "i18n.CompactNumberFormatSymbols_shi_Tfng_MA" ∷ [],
    )
    ∷ ("i18n:compactnumberformatsymbols", "i18n.CompactNumberFormatSymbols_si" ∷ [])
    ∷ ("i18n:compactnumberformatsymbolsext", "i18n.CompactNumberFormatSymbols_si_LK" ∷ [])
    ∷ ("i18n:compactnumberformatsymbols", "i18n.CompactNumberFormatSymbols_sk" ∷ [])
    ∷ ("i18n:compactnumberformatsymbolsext", "i18n.CompactNumberFormatSymbols_sk_SK" ∷ [])
    ∷ ("i18n:compactnumberformatsymbols", "i18n.CompactNumberFormatSymbols_sl" ∷ [])
    ∷ (
      "i18n:compactnumberformatsymbolsext",
      "i18n.CompactNumberFormatSymbols_sl_SI" ∷ "i18n.CompactNumberFormatSymbols_smn"
          ∷ "i18n.CompactNumberFormatSymbols_smn_FI" ∷ "i18n.CompactNumberFormatSymbols_sn"
          ∷ "i18n.CompactNumberFormatSymbols_sn_ZW" ∷ "i18n.CompactNumberFormatSymbols_so"
          ∷ "i18n.CompactNumberFormatSymbols_so_DJ" ∷ "i18n.CompactNumberFormatSymbols_so_ET"
          ∷ "i18n.CompactNumberFormatSymbols_so_KE" ∷ "i18n.CompactNumberFormatSymbols_so_SO" ∷ [],
    )
    ∷ ("i18n:compactnumberformatsymbols", "i18n.CompactNumberFormatSymbols_sq" ∷ [])
    ∷ (
      "i18n:compactnumberformatsymbolsext",
      "i18n.CompactNumberFormatSymbols_sq_AL" ∷ "i18n.CompactNumberFormatSymbols_sq_MK"
          ∷ "i18n.CompactNumberFormatSymbols_sq_XK" ∷ [],
    )
    ∷ ("i18n:compactnumberformatsymbols", "i18n.CompactNumberFormatSymbols_sr" ∷ [])
    ∷ (
      "i18n:compactnumberformatsymbolsext",
      "i18n.CompactNumberFormatSymbols_sr_Cyrl" ∷ "i18n.CompactNumberFormatSymbols_sr_Cyrl_BA"
          ∷ "i18n.CompactNumberFormatSymbols_sr_Cyrl_ME"
          ∷ "i18n.CompactNumberFormatSymbols_sr_Cyrl_RS"
          ∷ "i18n.CompactNumberFormatSymbols_sr_Cyrl_XK" ∷ [],
    )
    ∷ ("i18n:compactnumberformatsymbols", "i18n.CompactNumberFormatSymbols_sr_Latn" ∷ [])
    ∷ (
      "i18n:compactnumberformatsymbolsext",
      "i18n.CompactNumberFormatSymbols_sr_Latn_BA" ∷ "i18n.CompactNumberFormatSymbols_sr_Latn_ME"
          ∷ "i18n.CompactNumberFormatSymbols_sr_Latn_RS"
          ∷ "i18n.CompactNumberFormatSymbols_sr_Latn_XK" ∷ [],
    )
    ∷ ("i18n:compactnumberformatsymbols", "i18n.CompactNumberFormatSymbols_sv" ∷ [])
    ∷ (
      "i18n:compactnumberformatsymbolsext",
      "i18n.CompactNumberFormatSymbols_sv_AX" ∷ "i18n.CompactNumberFormatSymbols_sv_FI"
          ∷ "i18n.CompactNumberFormatSymbols_sv_SE" ∷ [],
    )
    ∷ ("i18n:compactnumberformatsymbols", "i18n.CompactNumberFormatSymbols_sw" ∷ [])
    ∷ (
      "i18n:compactnumberformatsymbolsext",
      "i18n.CompactNumberFormatSymbols_sw_CD" ∷ "i18n.CompactNumberFormatSymbols_sw_KE"
          ∷ "i18n.CompactNumberFormatSymbols_sw_TZ" ∷ "i18n.CompactNumberFormatSymbols_sw_UG" ∷ [],
    )
    ∷ ("i18n:compactnumberformatsymbols", "i18n.CompactNumberFormatSymbols_ta" ∷ [])
    ∷ (
      "i18n:compactnumberformatsymbolsext",
      "i18n.CompactNumberFormatSymbols_ta_IN" ∷ "i18n.CompactNumberFormatSymbols_ta_LK"
          ∷ "i18n.CompactNumberFormatSymbols_ta_MY" ∷ "i18n.CompactNumberFormatSymbols_ta_SG" ∷ [],
    )
    ∷ ("i18n:compactnumberformatsymbols", "i18n.CompactNumberFormatSymbols_te" ∷ [])
    ∷ (
      "i18n:compactnumberformatsymbolsext",
      "i18n.CompactNumberFormatSymbols_te_IN" ∷ "i18n.CompactNumberFormatSymbols_teo"
          ∷ "i18n.CompactNumberFormatSymbols_teo_KE" ∷ "i18n.CompactNumberFormatSymbols_teo_UG"
          ∷ "i18n.CompactNumberFormatSymbols_tg" ∷ "i18n.CompactNumberFormatSymbols_tg_TJ" ∷ [],
    )
    ∷ ("i18n:compactnumberformatsymbols", "i18n.CompactNumberFormatSymbols_th" ∷ [])
    ∷ (
      "i18n:compactnumberformatsymbolsext",
      "i18n.CompactNumberFormatSymbols_th_TH" ∷ "i18n.CompactNumberFormatSymbols_ti"
          ∷ "i18n.CompactNumberFormatSymbols_ti_ER" ∷ "i18n.CompactNumberFormatSymbols_ti_ET"
          ∷ "i18n.CompactNumberFormatSymbols_tk" ∷ "i18n.CompactNumberFormatSymbols_tk_TM" ∷ [],
    )
    ∷ ("i18n:compactnumberformatsymbols", "i18n.CompactNumberFormatSymbols_tl" ∷ [])
    ∷ [])
