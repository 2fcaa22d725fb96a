-- ===== src/Library/Rows/TwentySixth.antt =====
-- Lines 3756 to 3905 of gazelle/closure_js/closure_library/closure_library.go.
use rules_closure.Prelude.{List, [], ◌∷◌}
use rules_closure.Library.{Row, goog_rows}

abbrev pub twenty_sixth_rows : List Row
twenty_sixth_rows = goog_rows (
    (
      "labs/i18n:listsymbolsext",
      "labs.i18n.ListFormatSymbols_dsb" ∷ "labs.i18n.ListFormatSymbols_dsb_DE"
          ∷ "labs.i18n.ListFormatSymbols_dua" ∷ "labs.i18n.ListFormatSymbols_dua_CM"
          ∷ "labs.i18n.ListFormatSymbols_dyo" ∷ "labs.i18n.ListFormatSymbols_dyo_SN"
          ∷ "labs.i18n.ListFormatSymbols_dz" ∷ "labs.i18n.ListFormatSymbols_dz_BT"
          ∷ "labs.i18n.ListFormatSymbols_ebu" ∷ "labs.i18n.ListFormatSymbols_ebu_KE"
          ∷ "labs.i18n.ListFormatSymbols_ee" ∷ "labs.i18n.ListFormatSymbols_ee_GH"
          ∷ "labs.i18n.ListFormatSymbols_ee_TG" ∷ [],
    )
    ∷ ("labs/i18n:listsymbols", "labs.i18n.ListFormatSymbols_el" ∷ [])
    ∷ (
      "labs/i18n:listsymbolsext",
      "labs.i18n.ListFormatSymbols_el_CY" ∷ "labs.i18n.ListFormatSymbols_el_GR" ∷ [],
    )
    ∷ ("labs/i18n:listsymbols", "labs.i18n.ListFormatSymbols_en" ∷ [])
    ∷ (
      "labs/i18n:listsymbolsext",
      "labs.i18n.ListFormatSymbols_en_001" ∷ "labs.i18n.ListFormatSymbols_en_150"
          ∷ "labs.i18n.ListFormatSymbols_en_AG" ∷ "labs.i18n.ListFormatSymbols_en_AI"
          ∷ "labs.i18n.ListFormatSymbols_en_AS" ∷ "labs.i18n.ListFormatSymbols_en_AT" ∷ [],
    )
    ∷ ("labs/i18n:listsymbols", "labs.i18n.ListFormatSymbols_en_AU" ∷ [])
    ∷ (
      "labs/i18n:listsymbolsext",
      "labs.i18n.ListFormatSymbols_en_BB" ∷ "labs.i18n.ListFormatSymbols_en_BE"
          ∷ "labs.i18n.ListFormatSymbols_en_BI" ∷ "labs.i18n.ListFormatSymbols_en_BM"
          ∷ "labs.i18n.ListFormatSymbols_en_BS" ∷ "labs.i18n.ListFormatSymbols_en_BW"
          ∷ "labs.i18n.ListFormatSymbols_en_BZ" ∷ [],
    )
    ∷ ("labs/i18n:listsymbols", "labs.i18n.ListFormatSymbols_en_CA" ∷ [])
    ∷ (
      "labs/i18n:listsymbolsext",
      "labs.i18n.ListFormatSymbols_en_CC" ∷ "labs.i18n.ListFormatSymbols_en_CH"
          ∷ "labs.i18n.ListFormatSymbols_en_CK" ∷ "labs.i18n.ListFormatSymbols_en_CM"
          ∷ "labs.i18n.ListFormatSymbols_en_CX" ∷ "labs.i18n.ListFormatSymbols_en_CY"
          ∷ "labs.i18n.ListFormatSymbols_en_DE" ∷ "labs.i18n.ListFormatSymbols_en_DG"
          ∷ "labs.i18n.ListFormatSymbols_en_DK" ∷ "labs.i18n.ListFormatSymbols_en_DM"
          ∷ "labs.i18n.ListFormatSymbols_en_ER" ∷ "labs.i18n.ListFormatSymbols_en_FI"
          ∷ "labs.i18n.ListFormatSymbols_en_FJ" ∷ "labs.i18n.ListFormatSymbols_en_FK"
          ∷ "labs.i18n.ListFormatSymbols_en_FM" ∷ [],
    )
    ∷ ("labs/i18n:listsymbols", "labs.i18n.ListFormatSymbols_en_GB" ∷ [])
    ∷ (
      "labs/i18n:listsymbolsext",
      "labs.i18n.ListFormatSymbols_en_GD" ∷ "labs.i18n.ListFormatSymbols_en_GG"
          ∷ "labs.i18n.ListFormatSymbols_en_GH" ∷ "labs.i18n.ListFormatSymbols_en_GI"
          ∷ "labs.i18n.ListFormatSymbols_en_GM" ∷ "labs.i18n.ListFormatSymbols_en_GU"
          ∷ "labs.i18n.ListFormatSymbols_en_GY" ∷ "labs.i18n.ListFormatSymbols_en_HK" ∷ [],
    )
    ∷ ("labs/i18n:listsymbols", "labs.i18n.ListFormatSymbols_en_IE" ∷ [])
    ∷ (
      "labs/i18n:listsymbolsext",
      "labs.i18n.ListFormatSymbols_en_IL" ∷ "labs.i18n.ListFormatSymbols_en_IM" ∷ [],
    )
    ∷ ("labs/i18n:listsymbols", "labs.i18n.ListFormatSymbols_en_IN" ∷ [])
    ∷ (
      "labs/i18n:listsymbolsext",
      "labs.i18n.ListFormatSymbols_en_IO" ∷ "labs.i18n.ListFormatSymbols_en_JE"
          ∷ "labs.i18n.ListFormatSymbols_en_JM" ∷ "labs.i18n.ListFormatSymbols_en_KE"
          ∷ "labs.i18n.ListFormatSymbols_en_KI" ∷ "labs.i18n.ListFormatSymbols_en_KN"
          ∷ "labs.i18n.ListFormatSymbols_en_KY" ∷ "labs.i18n.ListFormatSymbols_en_LC"
          ∷ "labs.i18n.ListFormatSymbols_en_LR" ∷ "labs.i18n.ListFormatSymbols_en_LS"
          ∷ "labs.i18n.ListFormatSymbols_en_MG" ∷ "labs.i18n.ListFormatSymbols_en_MH"
          ∷ "labs.i18n.ListFormatSymbols_en_MO" ∷ "labs.i18n.ListFormatSymbols_en_MP"
          ∷ "labs.i18n.ListFormatSymbols_en_MS" ∷ "labs.i18n.ListFormatSymbols_en_MT"
          ∷ "labs.i18n.ListFormatSymbols_en_MU" ∷ "labs.i18n.ListFormatSymbols_en_MW"
          ∷ "labs.i18n.ListFormatSymbols_en_MY" ∷ "labs.i18n.ListFormatSymbols_en_NA"
          ∷ "labs.i18n.ListFormatSymbols_en_NF" ∷ "labs.i18n.ListFormatSymbols_en_NG"
          ∷ "labs.i18n.ListFormatSymbols_en_NL" ∷ "labs.i18n.ListFormatSymbols_en_NR"
          ∷ "labs.i18n.ListFormatSymbols_en_NU" ∷ "labs.i18n.ListFormatSymbols_en_NZ"
          ∷ "labs.i18n.ListFormatSymbols_en_PG" ∷ "labs.i18n.ListFormatSymbols_en_PH"
          ∷ "labs.i18n.ListFormatSymbols_en_PK" ∷ "labs.i18n.ListFormatSymbols_en_PN"
          ∷ "labs.i18n.ListFormatSymbols_en_PR" ∷ "labs.i18n.ListFormatSymbols_en_PW"
          ∷ "labs.i18n.ListFormatSymbols_en_RW" ∷ "labs.i18n.ListFormatSymbols_en_SB"
          ∷ "labs.i18n.ListFormatSymbols_en_SC" ∷ "labs.i18n.ListFormatSymbols_en_SD"
          ∷ "labs.i18n.ListFormatSymbols_en_SE" ∷ [],
    )
    ∷ ("labs/i18n:listsymbols", "labs.i18n.ListFormatSymbols_en_SG" ∷ [])
    ∷ (
      "labs/i18n:listsymbolsext",
      "labs.i18n.ListFormatSymbols_en_SH" ∷ "labs.i18n.ListFormatSymbols_en_SI"
          ∷ "labs.i18n.ListFormatSymbols_en_SL" ∷ "labs.i18n.ListFormatSymbols_en_SS"
          ∷ "labs.i18n.ListFormatSymbols_en_SX" ∷ "labs.i18n.ListFormatSymbols_en_SZ"
          ∷ "labs.i18n.ListFormatSymbols_en_TC" ∷ "labs.i18n.ListFormatSymbols_en_TK"
          ∷ "labs.i18n.ListFormatSymbols_en_TO" ∷ "labs.i18n.ListFormatSymbols_en_TT"
          ∷ "labs.i18n.ListFormatSymbols_en_TV" ∷ "labs.i18n.ListFormatSymbols_en_TZ"
          ∷ "labs.i18n.ListFormatSymbols_en_UG" ∷ "labs.i18n.ListFormatSymbols_en_UM" ∷ [],
    )
    ∷ ("labs/i18n:listsymbols", "labs.i18n.ListFormatSymbols_en_US" ∷ [])
    ∷ (
      "labs/i18n:listsymbolsext",
      "labs.i18n.ListFormatSymbols_en_US_POSIX" ∷ "labs.i18n.ListFormatSymbols_en_VC"
          ∷ "labs.i18n.ListFormatSymbols_en_VG" ∷ "labs.i18n.ListFormatSymbols_en_VI"
          ∷ "labs.i18n.ListFormatSymbols_en_VU" ∷ "labs.i18n.ListFormatSymbols_en_WS"
          ∷ "labs.i18n.ListFormatSymbols_en_XA" ∷ [],
    )
    ∷ ("labs/i18n:listsymbols", "labs.i18n.ListFormatSymbols_en_ZA" ∷ [])
    ∷ (
      "labs/i18n:listsymbolsext",
      "labs.i18n.ListFormatSymbols_en_ZM" ∷ "labs.i18n.ListFormatSymbols_en_ZW"
          ∷ "labs.i18n.ListFormatSymbols_eo" ∷ [],
    )
    ∷ (
      "labs/i18n:listsymbols",
      "labs.i18n.ListFormatSymbols_es" ∷ "labs.i18n.ListFormatSymbols_es_419" ∷ [],
    )
    ∷ (
      "labs/i18n:listsymbolsext",
      "labs.i18n.ListFormatSymbols_es_AR" ∷ "labs.i18n.ListFormatSymbols_es_BO"
          ∷ "labs.i18n.ListFormatSymbols_es_BR" ∷ "labs.i18n.ListFormatSymbols_es_BZ"
          ∷ "labs.i18n.ListFormatSymbols_es_CL" ∷ "labs.i18n.ListFormatSymbols_es_CO"
          ∷ "labs.i18n.ListFormatSymbols_es_CR" ∷ "labs.i18n.ListFormatSymbols_es_CU"
          ∷ "labs.i18n.ListFormatSymbols_es_DO" ∷ "labs.i18n.ListFormatSymbols_es_EA"
          ∷ "labs.i18n.ListFormatSymbols_es_EC" ∷ [],
    )
    ∷ ("labs/i18n:listsymbols", "labs.i18n.ListFormatSymbols_es_ES" ∷ [])
    ∷ (
      "labs/i18n:listsymbolsext",
      "labs.i18n.ListFormatSymbols_es_GQ" ∷ "labs.i18n.ListFormatSymbols_es_GT"
          ∷ "labs.i18n.ListFormatSymbols_es_HN" ∷ "labs.i18n.ListFormatSymbols_es_IC" ∷ [],
    )
    ∷ ("labs/i18n:listsymbols", "labs.i18n.ListFormatSymbols_es_MX" ∷ [])
    ∷ (
      "labs/i18n:listsymbolsext",
      "labs.i18n.ListFormatSymbols_es_NI" ∷ "labs.i18n.ListFormatSymbols_es_PA"
          ∷ "labs.i18n.ListFormatSymbols_es_PE" ∷ "labs.i18n.ListFormatSymbols_es_PH"
          ∷ "labs.i18n.ListFormatSymbols_es_PR" ∷ "labs.i18n.ListFormatSymbols_es_PY"
          ∷ "labs.i18n.ListFormatSymbols_es_SV" ∷ [],
    )
    ∷ [])
