-- ===== src/Library/Rows/Twentieth.antt =====
-- Lines 2856 to 3005 of gazelle/closure_js/closure_library/closure_library.go.
use rules_closure.Prelude.{List, [], ◌∷◌}
use rules_closure.Library.{Row, goog_rows}

abbrev pub twentieth_rows : List Row
twentieth_rows = goog_rows (
    (
      "i18n:numberformatsymbolsext",
      "i18n.NumberFormatSymbols_bas" ∷ "i18n.NumberFormatSymbols_bas_CM" ∷ [],
    )
    ∷ ("i18n:numberformatsymbols", "i18n.NumberFormatSymbols_be" ∷ [])
    ∷ (
      "i18n:numberformatsymbolsext",
      "i18n.NumberFormatSymbols_be_BY" ∷ "i18n.NumberFormatSymbols_bem"
          ∷ "i18n.NumberFormatSymbols_bem_ZM" ∷ "i18n.NumberFormatSymbols_bez"
          ∷ "i18n.NumberFormatSymbols_bez_TZ" ∷ [],
    )
    ∷ ("i18n:numberformatsymbols", "i18n.NumberFormatSymbols_bg" ∷ [])
    ∷ (
      "i18n:numberformatsymbolsext",
      "i18n.NumberFormatSymbols_bg_BG" ∷ "i18n.NumberFormatSymbols_bm"
          ∷ "i18n.NumberFormatSymbols_bm_ML" ∷ [],
    )
    ∷ ("i18n:numberformatsymbols", "i18n.NumberFormatSymbols_bn" ∷ [])
    ∷ (
      "i18n:numberformatsymbolsext",
      "i18n.NumberFormatSymbols_bn_BD" ∷ "i18n.NumberFormatSymbols_bn_BD_u_nu_latn"
          ∷ "i18n.NumberFormatSymbols_bn_IN" ∷ "i18n.NumberFormatSymbols_bn_IN_u_nu_latn" ∷ [],
    )
    ∷ ("i18n:numberformatsymbols", "i18n.NumberFormatSymbols_bn_u_nu_latn" ∷ [])
    ∷ (
      "i18n:numberformatsymbolsext",
      "i18n.NumberFormatSymbols_bo" ∷ "i18n.NumberFormatSymbols_bo_CN"
          ∷ "i18n.NumberFormatSymbols_bo_IN" ∷ [],
    )
    ∷ ("i18n:numberformatsymbols", "i18n.NumberFormatSymbols_br" ∷ [])
    ∷ (
      "i18n:numberformatsymbolsext",
      "i18n.NumberFormatSymbols_br_FR" ∷ "i18n.NumberFormatSymbols_brx"
          ∷ "i18n.NumberFormatSymbols_brx_IN" ∷ [],
    )
    ∷ ("i18n:numberformatsymbols", "i18n.NumberFormatSymbols_bs" ∷ [])
    ∷ (
      "i18n:numberformatsymbolsext",
      "i18n.NumberFormatSymbols_bs_Cyrl" ∷ "i18n.NumberFormatSymbols_bs_Cyrl_BA"
          ∷ "i18n.NumberFormatSymbols_bs_Latn" ∷ "i18n.NumberFormatSymbols_bs_Latn_BA" ∷ [],
    )
    ∷ ("i18n:numberformatsymbols", "i18n.NumberFormatSymbols_ca" ∷ [])
    ∷ (
      "i18n:numberformatsymbolsext",
      "i18n.NumberFormatSymbols_ca_AD" ∷ "i18n.NumberFormatSymbols_ca_ES"
          ∷ "i18n.NumberFormatSymbols_ca_FR" ∷ "i18n.NumberFormatSymbols_ca_IT"
          ∷ "i18n.NumberFormatSymbols_ccp" ∷ "i18n.NumberFormatSymbols_ccp_BD"
          ∷ "i18n.NumberFormatSymbols_ccp_BD_u_nu_latn" ∷ "i18n.NumberFormatSymbols_ccp_IN"
          ∷ "i18n.NumberFormatSymbols_ccp_IN_u_nu_latn" ∷ "i18n.NumberFormatSymbols_ccp_u_nu_latn"
          ∷ "i18n.NumberFormatSymbols_ce" ∷ "i18n.NumberFormatSymbols_ce_RU"
          ∷ "i18n.NumberFormatSymbols_cgg" ∷ "i18n.NumberFormatSymbols_cgg_UG" ∷ [],
    )
    ∷ ("i18n:numberformatsymbols", "i18n.NumberFormatSymbols_chr" ∷ [])
    ∷ (
      "i18n:numberformatsymbolsext",
      "i18n.NumberFormatSymbols_chr_US" ∷ "i18n.NumberFormatSymbols_ckb"
          ∷ "i18n.NumberFormatSymbols_ckb_IQ" ∷ "i18n.NumberFormatSymbols_ckb_IQ_u_nu_latn"
          ∷ "i18n.NumberFormatSymbols_ckb_IR" ∷ "i18n.NumberFormatSymbols_ckb_IR_u_nu_latn"
          ∷ "i18n.NumberFormatSymbols_ckb_u_nu_latn" ∷ [],
    )
    ∷ ("i18n:numberformatsymbols", "i18n.NumberFormatSymbols_cs" ∷ [])
    ∷ ("i18n:numberformatsymbolsext", "i18n.NumberFormatSymbols_cs_CZ" ∷ [])
    ∷ ("i18n:numberformatsymbols", "i18n.NumberFormatSymbols_cy" ∷ [])
    ∷ ("i18n:numberformatsymbolsext", "i18n.NumberFormatSymbols_cy_GB" ∷ [])
    ∷ ("i18n:numberformatsymbols", "i18n.NumberFormatSymbols_da" ∷ [])
    ∷ (
      "i18n:numberformatsymbolsext",
      "i18n.NumberFormatSymbols_da_DK" ∷ "i18n.NumberFormatSymbols_da_GL"
          ∷ "i18n.NumberFormatSymbols_dav" ∷ "i18n.NumberFormatSymbols_dav_KE" ∷ [],
    )
    ∷ (
      "i18n:numberformatsymbols",
      "i18n.NumberFormatSymbols_de" ∷ "i18n.NumberFormatSymbols_de_AT" ∷ [],
    )
    ∷ ("i18n:numberformatsymbolsext", "i18n.NumberFormatSymbols_de_BE" ∷ [])
    ∷ ("i18n:numberformatsymbols", "i18n.NumberFormatSymbols_de_CH" ∷ [])
    ∷ (
      "i18n:numberformatsymbolsext",
      "i18n.NumberFormatSymbols_de_DE" ∷ "i18n.NumberFormatSymbols_de_IT"
          ∷ "i18n.NumberFormatSymbols_de_LI" ∷ "i18n.NumberFormatSymbols_de_LU"
          ∷ "i18n.NumberFormatSymbols_dje" ∷ "i18n.NumberFormatSymbols_dje_NE"
          ∷ "i18n.NumberFormatSymbols_dsb" ∷ "i18n.NumberFormatSymbols_dsb_DE"
          ∷ "i18n.NumberFormatSymbols_dua" ∷ "i18n.NumberFormatSymbols_dua_CM"
          ∷ "i18n.NumberFormatSymbols_dyo" ∷ "i18n.NumberFormatSymbols_dyo_SN"
          ∷ "i18n.NumberFormatSymbols_dz" ∷ "i18n.NumberFormatSymbols_dz_BT"
          ∷ "i18n.NumberFormatSymbols_dz_BT_u_nu_latn" ∷ "i18n.NumberFormatSymbols_dz_u_nu_latn"
          ∷ "i18n.NumberFormatSymbols_ebu" ∷ "i18n.NumberFormatSymbols_ebu_KE"
          ∷ "i18n.NumberFormatSymbols_ee" ∷ "i18n.NumberFormatSymbols_ee_GH"
          ∷ "i18n.NumberFormatSymbols_ee_TG" ∷ [],
    )
    ∷ ("i18n:numberformatsymbols", "i18n.NumberFormatSymbols_el" ∷ [])
    ∷ (
      "i18n:numberformatsymbolsext",
      "i18n.NumberFormatSymbols_el_CY" ∷ "i18n.NumberFormatSymbols_el_GR" ∷ [],
    )
    ∷ ("i18n:numberformatsymbols", "i18n.NumberFormatSymbols_en" ∷ [])
    ∷ (
      "i18n:numberformatsymbolsext",
      "i18n.NumberFormatSymbols_en_001" ∷ "i18n.NumberFormatSymbols_en_150"
          ∷ "i18n.NumberFormatSymbols_en_AG" ∷ "i18n.NumberFormatSymbols_en_AI"
          ∷ "i18n.NumberFormatSymbols_en_AS" ∷ "i18n.NumberFormatSymbols_en_AT" ∷ [],
    )
    ∷ ("i18n:numberformatsymbols", "i18n.NumberFormatSymbols_en_AU" ∷ [])
    ∷ (
      "i18n:numberformatsymbolsext",
      "i18n.NumberFormatSymbols_en_BB" ∷ "i18n.NumberFormatSymbols_en_BE"
          ∷ "i18n.NumberFormatSymbols_en_BI" ∷ "i18n.NumberFormatSymbols_en_BM"
          ∷ "i18n.NumberFormatSymbols_en_BS" ∷ "i18n.NumberFormatSymbols_en_BW"
          ∷ "i18n.NumberFormatSymbols_en_BZ" ∷ [],
    )
    ∷ ("i18n:numberformatsymbols", "i18n.NumberFormatSymbols_en_CA" ∷ [])
    ∷ (
      "i18n:numberformatsymbolsext",
      "i18n.NumberFormatSymbols_en_CC" ∷ "i18n.NumberFormatSymbols_en_CH"
          ∷ "i18n.NumberFormatSymbols_en_CK" ∷ "i18n.NumberFormatSymbols_en_CM"
          ∷ "i18n.NumberFormatSymbols_en_CX" ∷ "i18n.NumberFormatSymbols_en_CY"
          ∷ "i18n.NumberFormatSymbols_en_DE" ∷ "i18n.NumberFormatSymbols_en_DG"
          ∷ "i18n.NumberFormatSymbols_en_DK" ∷ "i18n.NumberFormatSymbols_en_DM"
          ∷ "i18n.NumberFormatSymbols_en_ER" ∷ "i18n.NumberFormatSymbols_en_FI"
          ∷ "i18n.NumberFormatSymbols_en_FJ" ∷ "i18n.NumberFormatSymbols_en_FK"
          ∷ "i18n.NumberFormatSymbols_en_FM" ∷ [],
    )
    ∷ ("i18n:numberformatsymbols", "i18n.NumberFormatSymbols_en_GB" ∷ [])
    ∷ (
      "i18n:numberformatsymbolsext",
      "i18n.NumberFormatSymbols_en_GD" ∷ "i18n.NumberFormatSymbols_en_GG"
          ∷ "i18n.NumberFormatSymbols_en_GH" ∷ "i18n.NumberFormatSymbols_en_GI"
          ∷ "i18n.NumberFormatSymbols_en_GM" ∷ "i18n.NumberFormatSymbols_en_GU"
          ∷ "i18n.NumberFormatSymbols_en_GY" ∷ "i18n.NumberFormatSymbols_en_HK" ∷ [],
    )
    ∷ ("i18n:numberformatsymbols", "i18n.NumberFormatSymbols_en_IE" ∷ [])
    ∷ (
      "i18n:numberformatsymbolsext",
      "i18n.NumberFormatSymbols_en_IL" ∷ "i18n.NumberFormatSymbols_en_IM" ∷ [],
    )
    ∷ ("i18n:numberformatsymbols", "i18n.NumberFormatSymbols_en_IN" ∷ [])
    ∷ (
      "i18n:numberformatsymbolsext",
      "i18n.NumberFormatSymbols_en_IO" ∷ "i18n.NumberFormatSymbols_en_JE"
          ∷ "i18n.NumberFormatSymbols_en_JM" ∷ "i18n.NumberFormatSymbols_en_KE"
          ∷ "i18n.NumberFormatSymbols_en_KI" ∷ "i18n.NumberFormatSymbols_en_KN"
          ∷ "i18n.NumberFormatSymbols_en_KY" ∷ "i18n.NumberFormatSymbols_en_LC"
          ∷ "i18n.NumberFormatSymbols_en_LR" ∷ "i18n.NumberFormatSymbols_en_LS"
          ∷ "i18n.NumberFormatSymbols_en_MG" ∷ "i18n.NumberFormatSymbols_en_MH"
          ∷ "i18n.NumberFormatSymbols_en_MO" ∷ "i18n.NumberFormatSymbols_en_MP"
          ∷ "i18n.NumberFormatSymbols_en_MS" ∷ "i18n.NumberFormatSymbols_en_MT" ∷ [],
    )
    ∷ [])
