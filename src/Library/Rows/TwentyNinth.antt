-- ===== src/Library/Rows/TwentyNinth.antt =====
-- Lines 4206 to 4355 of gazelle/closure_js/closure_library/closure_library.go.
use rules_closure.Prelude.{List, [], ◌∷◌}
use rules_closure.Library.{Row, goog_rows}

abbrev pub twenty_ninth_rows : List Row
twenty_ninth_rows = goog_rows (
    ("labs/i18n:listsymbols", "labs.i18n.ListFormatSymbols_pt_PT" ∷ [])
    ∷ (
      "labs/i18n:listsymbolsext",
      "labs.i18n.ListFormatSymbols_pt_ST" ∷ "labs.i18n.ListFormatSymbols_pt_TL"
          ∷ "labs.i18n.ListFormatSymbols_qu" ∷ "labs.i18n.ListFormatSymbols_qu_BO"
          ∷ "labs.i18n.ListFormatSymbols_qu_EC" ∷ "labs.i18n.ListFormatSymbols_qu_PE"
          ∷ "labs.i18n.ListFormatSymbols_rm" ∷ "labs.i18n.ListFormatSymbols_rm_CH"
          ∷ "labs.i18n.ListFormatSymbols_rn" ∷ "labs.i18n.ListFormatSymbols_rn_BI" ∷ [],
    )
    ∷ ("labs/i18n:listsymbols", "labs.i18n.ListFormatSymbols_ro" ∷ [])
    ∷ (
      "labs/i18n:listsymbolsext",
      "labs.i18n.ListFormatSymbols_ro_MD" ∷ "labs.i18n.ListFormatSymbols_ro_RO"
          ∷ "labs.i18n.ListFormatSymbols_rof" ∷ "labs.i18n.ListFormatSymbols_rof_TZ" ∷ [],
    )
    ∷ ("labs/i18n:listsymbols", "labs.i18n.ListFormatSymbols_ru" ∷ [])
    ∷ (
      "labs/i18n:listsymbolsext",
      "labs.i18n.ListFormatSymbols_ru_BY" ∷ "labs.i18n.ListFormatSymbols_ru_KG"
          ∷ "labs.i18n.ListFormatSymbols_ru_KZ" ∷ "labs.i18n.ListFormatSymbols_ru_MD"
          ∷ "labs.i18n.ListFormatSymbols_ru_RU" ∷ "labs.i18n.ListFormatSymbols_ru_UA"
          ∷ "labs.i18n.ListFormatSymbols_rw" ∷ "labs.i18n.ListFormatSymbols_rw_RW"
          ∷ "labs.i18n.ListFormatSymbols_rwk" ∷ "labs.i18n.ListFormatSymbols_rwk_TZ"
          ∷ "labs.i18n.ListFormatSymbols_sah" ∷ "labs.i18n.ListFormatSymbols_sah_RU"
          ∷ "labs.i18n.ListFormatSymbols_saq" ∷ "labs.i18n.ListFormatSymbols_saq_KE"
          ∷ "labs.i18n.ListFormatSymbols_sbp" ∷ "labs.i18n.ListFormatSymbols_sbp_TZ"
          ∷ "labs.i18n.ListFormatSymbols_sd" ∷ "labs.i18n.ListFormatSymbols_sd_PK"
          ∷ "labs.i18n.ListFormatSymbols_se" ∷ "labs.i18n.ListFormatSymbols_se_FI"
          ∷ "labs.i18n.ListFormatSymbols_se_NO" ∷ "labs.i18n.ListFormatSymbols_se_SE"
          ∷ "labs.i18n.ListFormatSymbols_seh" ∷ "labs.i18n.ListFormatSymbols_seh_MZ"
          ∷ "labs.i18n.ListFormatSymbols_ses" ∷ "labs.i18n.ListFormatSymbols_ses_ML"
          ∷ "labs.i18n.ListFormatSymbols_sg" ∷ "labs.i18n.ListFormatSymbols_sg_CF" ∷ [],
    )
    ∷ ("labs/i18n:listsymbols", "labs.i18n.ListFormatSymbols_sh" ∷ [])
    ∷ (
      "labs/i18n:listsymbolsext",
      "labs.i18n.ListFormatSymbols_shi" ∷ "labs.i18n.ListFormatSymbols_shi_Latn"
          ∷ "labs.i18n.ListFormatSymbols_shi_Latn_MA" ∷ "labs.i18n.ListFormatSymbols_shi_Tfng"
          ∷ "labs.i18n.ListFormatSymbols_shi_Tfng_MA" ∷ [],
    )
    ∷ ("labs/i18n:listsymbols", "labs.i18n.ListFormatSymbols_si" ∷ [])
    ∷ ("labs/i18n:listsymbolsext", "labs.i18n.ListFormatSymbols_si_LK" ∷ [])
    ∷ ("labs/i18n:listsymbols", "labs.i18n.ListFormatSymbols_sk" ∷ [])
    ∷ ("labs/i18n:listsymbolsext", "labs.i18n.ListFormatSymbols_sk_SK" ∷ [])
    ∷ ("labs/i18n:listsymbols", "labs.i18n.ListFormatSymbols_sl" ∷ [])
    ∷ (
      "labs/i18n:listsymbolsext",
      "labs.i18n.ListFormatSymbols_sl_SI" ∷ "labs.i18n.ListFormatSymbols_smn"
          ∷ "labs.i18n.ListFormatSymbols_smn_FI" ∷ "labs.i18n.ListFormatSymbols_sn"
          ∷ "labs.i18n.ListFormatSymbols_sn_ZW" ∷ "labs.i18n.ListFormatSymbols_so"
          ∷ "labs.i18n.ListFormatSymbols_so_DJ" ∷ "labs.i18n.ListFormatSymbols_so_ET"
          ∷ "labs.i18n.ListFormatSymbols_so_KE" ∷ "labs.i18n.ListFormatSymbols_so_SO" ∷ [],
    )
    ∷ ("labs/i18n:listsymbols", "labs.i18n.ListFormatSymbols_sq" ∷ [])
    ∷ (
      "labs/i18n:listsymbolsext",
      "labs.i18n.ListFormatSymbols_sq_AL" ∷ "labs.i18n.ListFormatSymbols_sq_MK"
          ∷ "labs.i18n.ListFormatSymbols_sq_XK" ∷ [],
    )
    ∷ ("labs/i18n:listsymbols", "labs.i18n.ListFormatSymbols_sr" ∷ [])
    ∷ (
      "labs/i18n:listsymbolsext",
      "labs.i18n.ListFormatSymbols_sr_Cyrl" ∷ "labs.i18n.ListFormatSymbols_sr_Cyrl_BA"
          ∷ "labs.i18n.ListFormatSymbols_sr_Cyrl_ME" ∷ "labs.i18n.ListFormatSymbols_sr_Cyrl_RS"
          ∷ "labs.i18n.ListFormatSymbols_sr_Cyrl_XK" ∷ [],
    )
    ∷ ("labs/i18n:listsymbols", "labs.i18n.ListFormatSymbols_sr_Latn" ∷ [])
    ∷ (
      "labs/i18n:listsymbolsext",
      "labs.i18n.ListFormatSymbols_sr_Latn_BA" ∷ "labs.i18n.ListFormatSymbols_sr_Latn_ME"
          ∷ "labs.i18n.ListFormatSymbols_sr_Latn_RS" ∷ "labs.i18n.ListFormatSymbols_sr_Latn_XK"
          ∷ [],
    )
    ∷ ("labs/i18n:listsymbols", "labs.i18n.ListFormatSymbols_sv" ∷ [])
    ∷ (
      "labs/i18n:listsymbolsext",
      "labs.i18n.ListFormatSymbols_sv_AX" ∷ "labs.i18n.ListFormatSymbols_sv_FI"
          ∷ "labs.i18n.ListFormatSymbols_sv_SE" ∷ [],
    )
    ∷ ("labs/i18n:listsymbols", "labs.i18n.ListFormatSymbols_sw" ∷ [])
    ∷ (
      "labs/i18n:listsymbolsext",
      "labs.i18n.ListFormatSymbols_sw_CD" ∷ "labs.i18n.ListFormatSymbols_sw_KE"
          ∷ "labs.i18n.ListFormatSymbols_sw_TZ" ∷ "labs.i18n.ListFormatSymbols_sw_UG" ∷ [],
    )
    ∷ ("labs/i18n:listsymbols", "labs.i18n.ListFormatSymbols_ta" ∷ [])
    ∷ (
      "labs/i18n:listsymbolsext",
      "labs.i18n.ListFormatSymbols_ta_IN" ∷ "labs.i18n.ListFormatSymbols_ta_LK"
          ∷ "labs.i18n.ListFormatSymbols_ta_MY" ∷ "labs.i18n.ListFormatSymbols_ta_SG" ∷ [],
    )
    ∷ ("labs/i18n:listsymbols", "labs.i18n.ListFormatSymbols_te" ∷ [])
    ∷ (
      "labs/i18n:listsymbolsext",
      "labs.i18n.ListFormatSymbols_te_IN" ∷ "labs.i18n.ListFormatSymbols_teo"
          ∷ "labs.i18n.ListFormatSymbols_teo_KE" ∷ "labs.i18n.ListFormatSymbols_teo_UG"
          ∷ "labs.i18n.ListFormatSymbols_tg" ∷ "labs.i18n.ListFormatSymbols_tg_TJ" ∷ [],
    )
    ∷ ("labs/i18n:listsymbols", "labs.i18n.ListFormatSymbols_th" ∷ [])
    ∷ (
      "labs/i18n:listsymbolsext",
      "labs.i18n.ListFormatSymbols_th_TH" ∷ "labs.i18n.ListFormatSymbols_ti"
          ∷ "labs.i18n.ListFormatSymbols_ti_ER" ∷ "labs.i18n.ListFormatSymbols_ti_ET"
          ∷ "labs.i18n.ListFormatSymbols_tk" ∷ "labs.i18n.ListFormatSymbols_tk_TM" ∷ [],
    )
    ∷ ("labs/i18n:listsymbols", "labs.i18n.ListFormatSymbols_tl" ∷ [])
    ∷ (
      "labs/i18n:listsymbolsext",
      "labs.i18n.ListFormatSymbols_to" ∷ "labs.i18n.ListFormatSymbols_to_TO" ∷ [],
    )
    ∷ ("labs/i18n:listsymbols", "labs.i18n.ListFormatSymbols_tr" ∷ [])
    ∷ (
      "labs/i18n:listsymbolsext",
      "labs.i18n.ListFormatSymbols_tr_CY" ∷ "labs.i18n.ListFormatSymbols_tr_TR"
          ∷ "labs.i18n.ListFormatSymbols_tt" ∷ "labs.i18n.ListFormatSymbols_tt_RU"
          ∷ "labs.i18n.ListFormatSymbols_twq" ∷ "labs.i18n.ListFormatSymbols_twq_NE"
          ∷ "labs.i18n.ListFormatSymbols_tzm" ∷ "labs.i18n.ListFormatSymbols_tzm_MA"
          ∷ "labs.i18n.ListFormatSymbols_ug" ∷ "labs.i18n.ListFormatSymbols_ug_CN" ∷ [],
    )
    ∷ ("labs/i18n:listsymbols", "labs.i18n.ListFormatSymbols_uk" ∷ [])
    ∷ ("labs/i18n:listsymbolsext", "labs.i18n.ListFormatSymbols_uk_UA" ∷ [])
    ∷ ("labs/i18n:listsymbols", "labs.i18n.ListFormatSymbols_ur" ∷ [])
    ∷ (
      "labs/i18n:listsymbolsext",
      "labs.i18n.ListFormatSymbols_ur_IN" ∷ "labs.i18n.ListFormatSymbols_ur_PK" ∷ [],
    )
    ∷ ("labs/i18n:listsymbols", "labs.i18n.ListFormatSymbols_uz" ∷ [])
    ∷ (
      "labs/i18n:listsymbolsext",
      "labs.i18n.ListFormatSymbols_uz_Arab" ∷ "labs.i18n.ListFormatSymbols_uz_Arab_AF"
          ∷ "labs.i18n.ListFormatSymbols_uz_Cyrl" ∷ "labs.i18n.ListFormatSymbols_uz_Cyrl_UZ"
          ∷ "labs.i18n.ListFormatSymbols_uz_Latn" ∷ "labs.i18n.ListFormatSymbols_uz_Latn_UZ"
          ∷ "labs.i18n.ListFormatSymbols_vai" ∷ "labs.i18n.ListFormatSymbols_vai_Latn"
          ∷ "labs.i18n.ListFormatSymbols_vai_Latn_LR" ∷ "labs.i18n.ListFormatSymbols_vai_Vaii"
          ∷ "labs.i18n.ListFormatSymbols_vai_Vaii_LR" ∷ [],
    )
    ∷ ("labs/i18n:listsymbols", "labs.i18n.ListFormatSymbols_vi" ∷ [])
    ∷ (
      "labs/i18n:listsymbolsext",
      "labs.i18n.ListFormatSymbols_vi_VN" ∷ "labs.i18n.ListFormatSymbols_vun"
          ∷ "labs.i18n.ListFormatSymbols_vun_TZ" ∷ "labs.i18n.ListFormatSymbols_wae"
          ∷ "labs.i18n.ListFormatSymbols_wae_CH" ∷ "labs.i18n.ListFormatSymbols_wo"
          ∷ "labs.i18n.ListFormatSymbols_wo_SN" ∷ "labs.i18n.ListFormatSymbols_xh"
          ∷ "labs.i18n.ListFormatSymbols_xh_ZA" ∷ [],
    )
    ∷ [])
