-- ===== src/Library/Rows/Fifteenth.antt =====
-- Lines 2106 to 2255 of gazelle/closure_js/closure_library/closure_library.go.
use rules_closure.Prelude.{List, [], ◌∷◌}
use rules_closure.Library.{Row, goog_rows}

abbrev pub fifteenth_rows : List Row
fifteenth_rows = goog_rows (
    ("i18n:datetimesymbolsext", "i18n.DateTimeSymbols_bs_Latn_BA" ∷ [])
    ∷ ("i18n:datetimesymbols", "i18n.DateTimeSymbols_ca" ∷ [])
    ∷ (
      "i18n:datetimesymbolsext",
      "i18n.DateTimeSymbols_ca_AD" ∷ "i18n.DateTimeSymbols_ca_ES" ∷ "i18n.DateTimeSymbols_ca_FR"
          ∷ "i18n.DateTimeSymbols_ca_IT" ∷ "i18n.DateTimeSymbols_ccp"
          ∷ "i18n.DateTimeSymbols_ccp_BD" ∷ "i18n.DateTimeSymbols_ccp_IN"
          ∷ "i18n.DateTimeSymbols_ce" ∷ "i18n.DateTimeSymbols_ce_RU" ∷ "i18n.DateTimeSymbols_cgg"
          ∷ "i18n.DateTimeSymbols_cgg_UG" ∷ [],
    )
    ∷ ("i18n:datetimesymbols", "i18n.DateTimeSymbols_chr" ∷ [])
    ∷ (
      "i18n:datetimesymbolsext",
      "i18n.DateTimeSymbols_chr_US" ∷ "i18n.DateTimeSymbols_ckb" ∷ "i18n.DateTimeSymbols_ckb_IQ"
          ∷ "i18n.DateTimeSymbols_ckb_IR" ∷ [],
    )
    ∷ ("i18n:datetimesymbols", "i18n.DateTimeSymbols_cs" ∷ [])
    ∷ ("i18n:datetimesymbolsext", "i18n.DateTimeSymbols_cs_CZ" ∷ [])
    ∷ ("i18n:datetimesymbols", "i18n.DateTimeSymbols_cy" ∷ [])
    ∷ ("i18n:datetimesymbolsext", "i18n.DateTimeSymbols_cy_GB" ∷ [])
    ∷ ("i18n:datetimesymbols", "i18n.DateTimeSymbols_da" ∷ [])
    ∷ (
      "i18n:datetimesymbolsext",
      "i18n.DateTimeSymbols_da_DK" ∷ "i18n.DateTimeSymbols_da_GL" ∷ "i18n.DateTimeSymbols_dav"
          ∷ "i18n.DateTimeSymbols_dav_KE" ∷ [],
    )
    ∷ ("i18n:datetimesymbols", "i18n.DateTimeSymbols_de" ∷ "i18n.DateTimeSymbols_de_AT" ∷ [])
    ∷ ("i18n:datetimesymbolsext", "i18n.DateTimeSymbols_de_BE" ∷ [])
    ∷ ("i18n:datetimesymbols", "i18n.DateTimeSymbols_de_CH" ∷ [])
    ∷ (
      "i18n:datetimesymbolsext",
      "i18n.DateTimeSymbols_de_DE" ∷ "i18n.DateTimeSymbols_de_IT" ∷ "i18n.DateTimeSymbols_de_LI"
          ∷ "i18n.DateTimeSymbols_de_LU" ∷ "i18n.DateTimeSymbols_dje"
          ∷ "i18n.DateTimeSymbols_dje_NE" ∷ "i18n.DateTimeSymbols_dsb"
          ∷ "i18n.DateTimeSymbols_dsb_DE" ∷ "i18n.DateTimeSymbols_dua"
          ∷ "i18n.DateTimeSymbols_dua_CM" ∷ "i18n.DateTimeSymbols_dyo"
          ∷ "i18n.DateTimeSymbols_dyo_SN" ∷ "i18n.DateTimeSymbols_dz" ∷ "i18n.DateTimeSymbols_dz_BT"
          ∷ "i18n.DateTimeSymbols_ebu" ∷ "i18n.DateTimeSymbols_ebu_KE" ∷ "i18n.DateTimeSymbols_ee"
          ∷ "i18n.DateTimeSymbols_ee_GH" ∷ "i18n.DateTimeSymbols_ee_TG" ∷ [],
    )
    ∷ ("i18n:datetimesymbols", "i18n.DateTimeSymbols_el" ∷ [])
    ∷ ("i18n:datetimesymbolsext", "i18n.DateTimeSymbols_el_CY" ∷ "i18n.DateTimeSymbols_el_GR" ∷ [])
    ∷ ("i18n:datetimesymbols", "i18n.DateTimeSymbols_en" ∷ [])
    ∷ (
      "i18n:datetimesymbolsext",
      "i18n.DateTimeSymbols_en_001" ∷ "i18n.DateTimeSymbols_en_150" ∷ "i18n.DateTimeSymbols_en_AG"
          ∷ "i18n.DateTimeSymbols_en_AI" ∷ "i18n.DateTimeSymbols_en_AS"
          ∷ "i18n.DateTimeSymbols_en_AT" ∷ [],
    )
    ∷ ("i18n:datetimesymbols", "i18n.DateTimeSymbols_en_AU" ∷ [])
    ∷ (
      "i18n:datetimesymbolsext",
      "i18n.DateTimeSymbols_en_BB" ∷ "i18n.DateTimeSymbols_en_BE" ∷ "i18n.DateTimeSymbols_en_BI"
          ∷ "i18n.DateTimeSymbols_en_BM" ∷ "i18n.DateTimeSymbols_en_BS"
          ∷ "i18n.DateTimeSymbols_en_BW" ∷ "i18n.DateTimeSymbols_en_BZ" ∷ [],
    )
    ∷ ("i18n:datetimesymbols", "i18n.DateTimeSymbols_en_CA" ∷ [])
    ∷ (
      "i18n:datetimesymbolsext",
      "i18n.DateTimeSymbols_en_CC" ∷ "i18n.DateTimeSymbols_en_CH" ∷ "i18n.DateTimeSymbols_en_CK"
          ∷ "i18n.DateTimeSymbols_en_CM" ∷ "i18n.DateTimeSymbols_en_CX"
          ∷ "i18n.DateTimeSymbols_en_CY" ∷ "i18n.DateTimeSymbols_en_DE"
          ∷ "i18n.DateTimeSymbols_en_DG" ∷ "i18n.DateTimeSymbols_en_DK"
          ∷ "i18n.DateTimeSymbols_en_DM" ∷ "i18n.DateTimeSymbols_en_ER"
          ∷ "i18n.DateTimeSymbols_en_FI" ∷ "i18n.DateTimeSymbols_en_FJ"
          ∷ "i18n.DateTimeSymbols_en_FK" ∷ "i18n.DateTimeSymbols_en_FM" ∷ [],
    )
    ∷ ("i18n:datetimesymbols", "i18n.DateTimeSymbols_en_GB" ∷ [])
    ∷ (
      "i18n:datetimesymbolsext",
      "i18n.DateTimeSymbols_en_GD" ∷ "i18n.DateTimeSymbols_en_GG" ∷ "i18n.DateTimeSymbols_en_GH"
          ∷ "i18n.DateTimeSymbols_en_GI" ∷ "i18n.DateTimeSymbols_en_GM"
          ∷ "i18n.DateTimeSymbols_en_GU" ∷ "i18n.DateTimeSymbols_en_GY"
          ∷ "i18n.DateTimeSymbols_en_HK" ∷ [],
    )
    ∷ ("i18n:datetimesymbols", "i18n.DateTimeSymbols_en_IE" ∷ [])
    ∷ ("i18n:datetimesymbolsext", "i18n.DateTimeSymbols_en_IL" ∷ "i18n.DateTimeSymbols_en_IM" ∷ [])
    ∷ ("i18n:datetimesymbols", "i18n.DateTimeSymbols_en_IN" ∷ [])
    ∷ ("i18n:datetimesymbolsext", "i18n.DateTimeSymbols_en_IO" ∷ [])
    ∷ ("i18n:datetimesymbols", "i18n.DateTimeSymbols_en_ISO" ∷ [])
    ∷ (
      "i18n:datetimesymbolsext",
      "i18n.DateTimeSymbols_en_JE" ∷ "i18n.DateTimeSymbols_en_JM" ∷ "i18n.DateTimeSymbols_en_KE"
          ∷ "i18n.DateTimeSymbols_en_KI" ∷ "i18n.DateTimeSymbols_en_KN"
          ∷ "i18n.DateTimeSymbols_en_KY" ∷ "i18n.DateTimeSymbols_en_LC"
          ∷ "i18n.DateTimeSymbols_en_LR" ∷ "i18n.DateTimeSymbols_en_LS"
          ∷ "i18n.DateTimeSymbols_en_MG" ∷ "i18n.DateTimeSymbols_en_MH"
          ∷ "i18n.DateTimeSymbols_en_MO" ∷ "i18n.DateTimeSymbols_en_MP"
          ∷ "i18n.DateTimeSymbols_en_MS" ∷ "i18n.DateTimeSymbols_en_MT"
          ∷ "i18n.DateTimeSymbols_en_MU" ∷ "i18n.DateTimeSymbols_en_MW"
          ∷ "i18n.DateTimeSymbols_en_MY" ∷ "i18n.DateTimeSymbols_en_NA"
          ∷ "i18n.DateTimeSymbols_en_NF" ∷ "i18n.DateTimeSymbols_en_NG"
          ∷ "i18n.DateTimeSymbols_en_NL" ∷ "i18n.DateTimeSymbols_en_NR"
          ∷ "i18n.DateTimeSymbols_en_NU" ∷ "i18n.DateTimeSymbols_en_NZ"
          ∷ "i18n.DateTimeSymbols_en_PG" ∷ "i18n.DateTimeSymbols_en_PH"
          ∷ "i18n.DateTimeSymbols_en_PK" ∷ "i18n.DateTimeSymbols_en_PN"
          ∷ "i18n.DateTimeSymbols_en_PR" ∷ "i18n.DateTimeSymbols_en_PW"
          ∷ "i18n.DateTimeSymbols_en_RW" ∷ "i18n.DateTimeSymbols_en_SB"
          ∷ "i18n.DateTimeSymbols_en_SC" ∷ "i18n.DateTimeSymbols_en_SD"
          ∷ "i18n.DateTimeSymbols_en_SE" ∷ [],
    )
    ∷ ("i18n:datetimesymbols", "i18n.DateTimeSymbols_en_SG" ∷ [])
    ∷ (
      "i18n:datetimesymbolsext",
      "i18n.DateTimeSymbols_en_SH" ∷ "i18n.DateTimeSymbols_en_SI" ∷ "i18n.DateTimeSymbols_en_SL"
          ∷ "i18n.DateTimeSymbols_en_SS" ∷ "i18n.DateTimeSymbols_en_SX"
          ∷ "i18n.DateTimeSymbols_en_SZ" ∷ "i18n.DateTimeSymbols_en_TC"
          ∷ "i18n.DateTimeSymbols_en_TK" ∷ "i18n.DateTimeSymbols_en_TO"
          ∷ "i18n.DateTimeSymbols_en_TT" ∷ "i18n.DateTimeSymbols_en_TV"
          ∷ "i18n.DateTimeSymbols_en_TZ" ∷ "i18n.DateTimeSymbols_en_UG"
          ∷ "i18n.DateTimeSymbols_en_UM" ∷ [],
    )
    ∷ [])
