-- ===== src/Library/Rows/Fifth.antt =====
-- Lines 606 to 755 of gazelle/closure_js/closure_library/closure_library.go.
use rules_closure.Prelude.{List, [], ◌∷◌}
use rules_closure.Library.{Row, goog_rows}

abbrev pub fifth_rows : List Row
fifth_rows = goog_rows (
    (
      "i18n:compactnumberformatsymbolsext",
      "i18n.CompactNumberFormatSymbols_bs_Cyrl" ∷ "i18n.CompactNumberFormatSymbols_bs_Cyrl_BA"
          ∷ "i18n.CompactNumberFormatSymbols_bs_Latn" ∷ "i18n.CompactNumberFormatSymbols_bs_Latn_BA"
          ∷ [],
    )
    ∷ ("i18n:compactnumberformatsymbols", "i18n.CompactNumberFormatSymbols_ca" ∷ [])
    ∷ (
      "i18n:compactnumberformatsymbolsext",
      "i18n.CompactNumberFormatSymbols_ca_AD" ∷ "i18n.CompactNumberFormatSymbols_ca_ES"
          ∷ "i18n.CompactNumberFormatSymbols_ca_FR" ∷ "i18n.CompactNumberFormatSymbols_ca_IT"
          ∷ "i18n.CompactNumberFormatSymbols_ccp" ∷ "i18n.CompactNumberFormatSymbols_ccp_BD"
          ∷ "i18n.CompactNumberFormatSymbols_ccp_IN" ∷ "i18n.CompactNumberFormatSymbols_ce"
          ∷ "i18n.CompactNumberFormatSymbols_ce_RU" ∷ "i18n.CompactNumberFormatSymbols_cgg"
          ∷ "i18n.CompactNumberFormatSymbols_cgg_UG" ∷ [],
    )
    ∷ ("i18n:compactnumberformatsymbols", "i18n.CompactNumberFormatSymbols_chr" ∷ [])
    ∷ (
      "i18n:compactnumberformatsymbolsext",
      "i18n.CompactNumberFormatSymbols_chr_US" ∷ "i18n.CompactNumberFormatSymbols_ckb"
          ∷ "i18n.CompactNumberFormatSymbols_ckb_IQ" ∷ "i18n.CompactNumberFormatSymbols_ckb_IR"
          ∷ [],
    )
    ∷ ("i18n:compactnumberformatsymbols", "i18n.CompactNumberFormatSymbols_cs" ∷ [])
    ∷ ("i18n:compactnumberformatsymbolsext", "i18n.CompactNumberFormatSymbols_cs_CZ" ∷ [])
    ∷ ("i18n:compactnumberformatsymbols", "i18n.CompactNumberFormatSymbols_cy" ∷ [])
    ∷ ("i18n:compactnumberformatsymbolsext", "i18n.CompactNumberFormatSymbols_cy_GB" ∷ [])
    ∷ ("i18n:compactnumberformatsymbols", "i18n.CompactNumberFormatSymbols_da" ∷ [])
    ∷ (
      "i18n:compactnumberformatsymbolsext",
      "i18n.CompactNumberFormatSymbols_da_DK" ∷ "i18n.CompactNumberFormatSymbols_da_GL"
          ∷ "i18n.CompactNumberFormatSymbols_dav" ∷ "i18n.CompactNumberFormatSymbols_dav_KE" ∷ [],
    )
    ∷ (
      "i18n:compactnumberformatsymbols",
      "i18n.CompactNumberFormatSymbols_de" ∷ "i18n.CompactNumberFormatSymbols_de_AT" ∷ [],
    )
    ∷ ("i18n:compactnumberformatsymbolsext", "i18n.CompactNumberFormatSymbols_de_BE" ∷ [])
    ∷ ("i18n:compactnumberformatsymbols", "i18n.CompactNumberFormatSymbols_de_CH" ∷ [])
    ∷ (
      "i18n:compactnumberformatsymbolsext",
      "i18n.CompactNumberFormatSymbols_de_DE" ∷ "i18n.CompactNumberFormatSymbols_de_IT"
          ∷ "i18n.CompactNumberFormatSymbols_de_LI" ∷ "i18n.CompactNumberFormatSymbols_de_LU"
          ∷ "i18n.CompactNumberFormatSymbols_dje" ∷ "i18n.CompactNumberFormatSymbols_dje_NE"
          ∷ "i18n.CompactNumberFormatSymbols_dsb" ∷ "i18n.CompactNumberFormatSymbols_dsb_DE"
          ∷ "i18n.CompactNumberFormatSymbols_dua" ∷ "i18n.CompactNumberFormatSymbols_dua_CM"
          ∷ "i18n.CompactNumberFormatSymbols_dyo" ∷ "i18n.CompactNumberFormatSymbols_dyo_SN"
          ∷ "i18n.CompactNumberFormatSymbols_dz" ∷ "i18n.CompactNumberFormatSymbols_dz_BT"
          ∷ "i18n.CompactNumberFormatSymbols_ebu" ∷ "i18n.CompactNumberFormatSymbols_ebu_KE"
          ∷ "i18n.CompactNumberFormatSymbols_ee" ∷ "i18n.CompactNumberFormatSymbols_ee_GH"
          ∷ "i18n.CompactNumberFormatSymbols_ee_TG" ∷ [],
    )
    ∷ ("i18n:compactnumberformatsymbols", "i18n.CompactNumberFormatSymbols_el" ∷ [])
    ∷ (
      "i18n:compactnumberformatsymbolsext",
      "i18n.CompactNumberFormatSymbols_el_CY" ∷ "i18n.CompactNumberFormatSymbols_el_GR" ∷ [],
    )
    ∷ ("i18n:compactnumberformatsymbols", "i18n.CompactNumberFormatSymbols_en" ∷ [])
    ∷ (
      "i18n:compactnumberformatsymbolsext",
      "i18n.CompactNumberFormatSymbols_en_001" ∷ "i18n.CompactNumberFormatSymbols_en_150"
          ∷ "i18n.CompactNumberFormatSymbols_en_AG" ∷ "i18n.CompactNumberFormatSymbols_en_AI"
          ∷ "i18n.CompactNumberFormatSymbols_en_AS" ∷ "i18n.CompactNumberFormatSymbols_en_AT" ∷ [],
    )
    ∷ ("i18n:compactnumberformatsymbols", "i18n.CompactNumberFormatSymbols_en_AU" ∷ [])
    ∷ (
      "i18n:compactnumberformatsymbolsext",
      "i18n.CompactNumberFormatSymbols_en_BB" ∷ "i18n.CompactNumberFormatSymbols_en_BE"
          ∷ "i18n.CompactNumberFormatSymbols_en_BI" ∷ "i18n.CompactNumberFormatSymbols_en_BM"
          ∷ "i18n.CompactNumberFormatSymbols_en_BS" ∷ "i18n.CompactNumberFormatSymbols_en_BW"
          ∷ "i18n.CompactNumberFormatSymbols_en_BZ" ∷ [],
    )
    ∷ ("i18n:compactnumberformatsymbols", "i18n.CompactNumberFormatSymbols_en_CA" ∷ [])
    ∷ (
      "i18n:compactnumberformatsymbolsext",
      "i18n.CompactNumberFormatSymbols_en_CC" ∷ "i18n.CompactNumberFormatSymbols_en_CH"
          ∷ "i18n.CompactNumberFormatSymbols_en_CK" ∷ "i18n.CompactNumberFormatSymbols_en_CM"
          ∷ "i18n.CompactNumberFormatSymbols_en_CX" ∷ "i18n.CompactNumberFormatSymbols_en_CY"
          ∷ "i18n.CompactNumberFormatSymbols_en_DE" ∷ "i18n.CompactNumberFormatSymbols_en_DG"
          ∷ "i18n.CompactNumberFormatSymbols_en_DK" ∷ "i18n.CompactNumberFormatSymbols_en_DM"
          ∷ "i18n.CompactNumberFormatSymbols_en_ER" ∷ "i18n.CompactNumberFormatSymbols_en_FI"
          ∷ "i18n.CompactNumberFormatSymbols_en_FJ" ∷ "i18n.CompactNumberFormatSymbols_en_FK"
          ∷ "i18n.CompactNumberFormatSymbols_en_FM" ∷ [],
    )
    ∷ ("i18n:compactnumberformatsymbols", "i18n.CompactNumberFormatSymbols_en_GB" ∷ [])
    ∷ (
      "i18n:compactnumberformatsymbolsext",
      "i18n.CompactNumberFormatSymbols_en_GD" ∷ "i18n.CompactNumberFormatSymbols_en_GG"
          ∷ "i18n.CompactNumberFormatSymbols_en_GH" ∷ "i18n.CompactNumberFormatSymbols_en_GI"
          ∷ "i18n.CompactNumberFormatSymbols_en_GM" ∷ "i18n.CompactNumberFormatSymbols_en_GU"
          ∷ "i18n.CompactNumberFormatSymbols_en_GY" ∷ "i18n.CompactNumberFormatSymbols_en_HK" ∷ [],
    )
    ∷ ("i18n:compactnumberformatsymbols", "i18n.CompactNumberFormatSymbols_en_IE" ∷ [])
    ∷ (
      "i18n:compactnumberformatsymbolsext",
      "i18n.CompactNumberFormatSymbols_en_IL" ∷ "i18n.CompactNumberFormatSymbols_en_IM" ∷ [],
    )
    ∷ ("i18n:compactnumberformatsymbols", "i18n.CompactNumberFormatSymbols_en_IN" ∷ [])
    ∷ (
      "i18n:compactnumberformatsymbolsext",
      "i18n.CompactNumberFormatSymbols_en_IO" ∷ "i18n.CompactNumberFormatSymbols_en_JE"
          ∷ "i18n.CompactNumberFormatSymbols_en_JM" ∷ "i18n.CompactNumberFormatSymbols_en_KE"
          ∷ "i18n.CompactNumberFormatSymbols_en_KI" ∷ "i18n.CompactNumberFormatSymbols_en_KN"
          ∷ "i18n.CompactNumberFormatSymbols_en_KY" ∷ "i18n.CompactNumberFormatSymbols_en_LC"
          ∷ "i18n.CompactNumberFormatSymbols_en_LR" ∷ "i18n.CompactNumberFormatSymbols_en_LS"
          ∷ "i18n.CompactNumberFormatSymbols_en_MG" ∷ "i18n.CompactNumberFormatSymbols_en_MH"
          ∷ "i18n.CompactNumberFormatSymbols_en_MO" ∷ "i18n.CompactNumberFormatSymbols_en_MP"
          ∷ "i18n.CompactNumberFormatSymbols_en_MS" ∷ "i18n.CompactNumberFormatSymbols_en_MT"
          ∷ "i18n.CompactNumberFormatSymbols_en_MU" ∷ "i18n.CompactNumberFormatSymbols_en_MW"
          ∷ "i18n.CompactNumberFormatSymbols_en_MY" ∷ "i18n.CompactNumberFormatSymbols_en_NA"
          ∷ "i18n.CompactNumberFormatSymbols_en_NF" ∷ "i18n.CompactNumberFormatSymbols_en_NG"
          ∷ "i18n.CompactNumberFormatSymbols_en_NL" ∷ "i18n.CompactNumberFormatSymbols_en_NR"
          ∷ "i18n.CompactNumberFormatSymbols_en_NU" ∷ "i18n.CompactNumberFormatSymbols_en_NZ"
          ∷ "i18n.CompactNumberFormatSymbols_en_PG" ∷ "i18n.CompactNumberFormatSymbols_en_PH"
          ∷ "i18n.CompactNumberFormatSymbols_en_PK" ∷ "i18n.CompactNumberFormatSymbols_en_PN"
          ∷ "i18n.CompactNumberFormatSymbols_en_PR" ∷ "i18n.CompactNumberFormatSymbols_en_PW"
          ∷ "i18n.CompactNumberFormatSymbols_en_RW" ∷ "i18n.CompactNumberFormatSymbols_en_SB"
          ∷ "i18n.CompactNumberFormatSymbols_en_SC" ∷ "i18n.CompactNumberFormatSymbols_en_SD"
          ∷ "i18n.CompactNumberFormatSymbols_en_SE" ∷ [],
    )
    ∷ ("i18n:compactnumberformatsymbols", "i18n.CompactNumberFormatSymbols_en_SG" ∷ [])
    ∷ (
      "i18n:compactnumberformatsymbolsext",
      "i18n.CompactNumberFormatSymbols_en_SH" ∷ "i18n.CompactNumberFormatSymbols_en_SI"
          ∷ "i18n.CompactNumberFormatSymbols_en_SL" ∷ "i18n.CompactNumberFormatSymbols_en_SS"
          ∷ "i18n.CompactNumberFormatSymbols_en_SX" ∷ "i18n.CompactNumberFormatSymbols_en_SZ"
          ∷ "i18n.CompactNumberFormatSymbols_en_TC" ∷ "i18n.CompactNumberFormatSymbols_en_TK"
          ∷ "i18n.CompactNumberFormatSymbols_en_TO" ∷ "i18n.CompactNumberFormatSymbols_en_TT"
          ∷ "i18n.CompactNumberFormatSymbols_en_TV" ∷ "i18n.CompactNumberFormatSymbols_en_TZ" ∷ [],
    )
    ∷ [])
