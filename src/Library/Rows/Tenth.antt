-- ===== src/Library/Rows/Tenth.antt =====
-- Lines 1356 to 1505 of gazelle/closure_js/closure_library/closure_library.go.
use rules_closure.Prelude.{List, [], ◌∷◌}
use rules_closure.Library.{Row, goog_rows}

abbrev pub tenth_rows : List Row
tenth_rows = goog_rows (
    (
      "i18n:datetimepatternsext",
      "i18n.DateTimePatterns_bs_Cyrl" ∷ "i18n.DateTimePatterns_bs_Cyrl_BA"
          ∷ "i18n.DateTimePatterns_bs_Latn" ∷ "i18n.DateTimePatterns_bs_Latn_BA" ∷ [],
    )
    ∷ ("i18n:datetimepatterns", "i18n.DateTimePatterns_ca" ∷ [])
    ∷ (
      "i18n:datetimepatternsext",
      "i18n.DateTimePatterns_ca_AD" ∷ "i18n.DateTimePatterns_ca_ES" ∷ "i18n.DateTimePatterns_ca_FR"
          ∷ "i18n.DateTimePatterns_ca_IT" ∷ "i18n.DateTimePatterns_ccp"
          ∷ "i18n.DateTimePatterns_ccp_BD" ∷ "i18n.DateTimePatterns_ccp_IN"
          ∷ "i18n.DateTimePatterns_ce" ∷ "i18n.DateTimePatterns_ce_RU" ∷ "i18n.DateTimePatterns_cgg"
          ∷ "i18n.DateTimePatterns_cgg_UG" ∷ [],
    )
    ∷ ("i18n:datetimepatterns", "i18n.DateTimePatterns_chr" ∷ [])
    ∷ (
      "i18n:datetimepatternsext",
      "i18n.DateTimePatterns_chr_US" ∷ "i18n.DateTimePatterns_ckb" ∷ "i18n.DateTimePatterns_ckb_IQ"
          ∷ "i18n.DateTimePatterns_ckb_IR" ∷ [],
    )
    ∷ ("i18n:datetimepatterns", "i18n.DateTimePatterns_cs" ∷ [])
    ∷ ("i18n:datetimepatternsext", "i18n.DateTimePatterns_cs_CZ" ∷ [])
    ∷ ("i18n:datetimepatterns", "i18n.DateTimePatterns_cy" ∷ [])
    ∷ ("i18n:datetimepatternsext", "i18n.DateTimePatterns_cy_GB" ∷ [])
    ∷ ("i18n:datetimepatterns", "i18n.DateTimePatterns_da" ∷ [])
    ∷ (
      "i18n:datetimepatternsext",
      "i18n.DateTimePatterns_da_DK" ∷ "i18n.DateTimePatterns_da_GL" ∷ "i18n.DateTimePatterns_dav"
          ∷ "i18n.DateTimePatterns_dav_KE" ∷ [],
    )
    ∷ ("i18n:datetimepatterns", "i18n.DateTimePatterns_de" ∷ "i18n.DateTimePatterns_de_AT" ∷ [])
    ∷ ("i18n:datetimepatternsext", "i18n.DateTimePatterns_de_BE" ∷ [])
    ∷ ("i18n:datetimepatterns", "i18n.DateTimePatterns_de_CH" ∷ [])
    ∷ (
      "i18n:datetimepatternsext",
      "i18n.DateTimePatterns_de_DE" ∷ "i18n.DateTimePatterns_de_IT" ∷ "i18n.DateTimePatterns_de_LI"
          ∷ "i18n.DateTimePatterns_de_LU" ∷ "i18n.DateTimePatterns_dje"
          ∷ "i18n.DateTimePatterns_dje_NE" ∷ "i18n.DateTimePatterns_dsb"
          ∷ "i18n.DateTimePatterns_dsb_DE" ∷ "i18n.DateTimePatterns_dua"
          ∷ "i18n.DateTimePatterns_dua_CM" ∷ "i18n.DateTimePatterns_dyo"
          ∷ "i18n.DateTimePatterns_dyo_SN" ∷ "i18n.DateTimePatterns_dz"
          ∷ "i18n.DateTimePatterns_dz_BT" ∷ "i18n.DateTimePatterns_ebu"
          ∷ "i18n.DateTimePatterns_ebu_KE" ∷ "i18n.DateTimePatterns_ee"
          ∷ "i18n.DateTimePatterns_ee_GH" ∷ "i18n.DateTimePatterns_ee_TG" ∷ [],
    )
    ∷ ("i18n:datetimepatterns", "i18n.DateTimePatterns_el" ∷ [])
    ∷ (
      "i18n:datetimepatternsext",
      "i18n.DateTimePatterns_el_CY" ∷ "i18n.DateTimePatterns_el_GR" ∷ [],
    )
    ∷ ("i18n:datetimepatterns", "i18n.DateTimePatterns_en" ∷ [])
    ∷ (
      "i18n:datetimepatternsext",
      "i18n.DateTimePatterns_en_001" ∷ "i18n.DateTimePatterns_en_150"
          ∷ "i18n.DateTimePatterns_en_AG" ∷ "i18n.DateTimePatterns_en_AI"
          ∷ "i18n.DateTimePatterns_en_AS" ∷ "i18n.DateTimePatterns_en_AT" ∷ [],
    )
    ∷ ("i18n:datetimepatterns", "i18n.DateTimePatterns_en_AU" ∷ [])
    ∷ (
      "i18n:datetimepatternsext",
      "i18n.DateTimePatterns_en_BB" ∷ "i18n.DateTimePatterns_en_BE" ∷ "i18n.DateTimePatterns_en_BI"
          ∷ "i18n.DateTimePatterns_en_BM" ∷ "i18n.DateTimePatterns_en_BS"
          ∷ "i18n.DateTimePatterns_en_BW" ∷ "i18n.DateTimePatterns_en_BZ" ∷ [],
    )
    ∷ ("i18n:datetimepatterns", "i18n.DateTimePatterns_en_CA" ∷ [])
    ∷ (
      "i18n:datetimepatternsext",
      "i18n.DateTimePatterns_en_CC" ∷ "i18n.DateTimePatterns_en_CH" ∷ "i18n.DateTimePatterns_en_CK"
          ∷ "i18n.DateTimePatterns_en_CM" ∷ "i18n.DateTimePatterns_en_CX"
          ∷ "i18n.DateTimePatterns_en_CY" ∷ "i18n.DateTimePatterns_en_DE"
          ∷ "i18n.DateTimePatterns_en_DG" ∷ "i18n.DateTimePatterns_en_DK"
          ∷ "i18n.DateTimePatterns_en_DM" ∷ "i18n.DateTimePatterns_en_ER"
          ∷ "i18n.DateTimePatterns_en_FI" ∷ "i18n.DateTimePatterns_en_FJ"
          ∷ "i18n.DateTimePatterns_en_FK" ∷ "i18n.DateTimePatterns_en_FM" ∷ [],
    )
    ∷ ("i18n:datetimepatterns", "i18n.DateTimePatterns_en_GB" ∷ [])
    ∷ (
      "i18n:datetimepatternsext",
      "i18n.DateTimePatterns_en_GD" ∷ "i18n.DateTimePatterns_en_GG" ∷ "i18n.DateTimePatterns_en_GH"
          ∷ "i18n.DateTimePatterns_en_GI" ∷ "i18n.DateTimePatterns_en_GM"
          ∷ "i18n.DateTimePatterns_en_GU" ∷ "i18n.DateTimePatterns_en_GY"
          ∷ "i18n.DateTimePatterns_en_HK" ∷ [],
    )
    ∷ ("i18n:datetimepatterns", "i18n.DateTimePatterns_en_IE" ∷ [])
    ∷ (
      "i18n:datetimepatternsext",
      "i18n.DateTimePatterns_en_IL" ∷ "i18n.DateTimePatterns_en_IM" ∷ [],
    )
    ∷ ("i18n:datetimepatterns", "i18n.DateTimePatterns_en_IN" ∷ [])
    ∷ (
      "i18n:datetimepatternsext",
      "i18n.DateTimePatterns_en_IO" ∷ "i18n.DateTimePatterns_en_JE" ∷ "i18n.DateTimePatterns_en_JM"
          ∷ "i18n.DateTimePatterns_en_KE" ∷ "i18n.DateTimePatterns_en_KI"
          ∷ "i18n.DateTimePatterns_en_KN" ∷ "i18n.DateTimePatterns_en_KY"
          ∷ "i18n.DateTimePatterns_en_LC" ∷ "i18n.DateTimePatterns_en_LR"
          ∷ "i18n.DateTimePatterns_en_LS" ∷ "i18n.DateTimePatterns_en_MG"
          ∷ "i18n.DateTimePatterns_en_MH" ∷ "i18n.DateTimePatterns_en_MO"
          ∷ "i18n.DateTimePatterns_en_MP" ∷ "i18n.DateTimePatterns_en_MS"
          ∷ "i18n.DateTimePatterns_en_MT" ∷ "i18n.DateTimePatterns_en_MU"
          ∷ "i18n.DateTimePatterns_en_MW" ∷ "i18n.DateTimePatterns_en_MY"
          ∷ "i18n.DateTimePatterns_en_NA" ∷ "i18n.DateTimePatterns_en_NF"
          ∷ "i18n.DateTimePatterns_en_NG" ∷ "i18n.DateTimePatterns_en_NL"
          ∷ "i18n.DateTimePatterns_en_NR" ∷ "i18n.DateTimePatterns_en_NU"
          ∷ "i18n.DateTimePatterns_en_NZ" ∷ "i18n.DateTimePatterns_en_PG"
          ∷ "i18n.DateTimePatterns_en_PH" ∷ "i18n.DateTimePatterns_en_PK"
          ∷ "i18n.DateTimePatterns_en_PN" ∷ "i18n.DateTimePatterns_en_PR"
          ∷ "i18n.DateTimePatterns_en_PW" ∷ "i18n.DateTimePatterns_en_RW"
          ∷ "i18n.DateTimePatterns_en_SB" ∷ "i18n.DateTimePatterns_en_SC"
          ∷ "i18n.DateTimePatterns_en_SD" ∷ "i18n.DateTimePatterns_en_SE" ∷ [],
    )
    ∷ ("i18n:datetimepatterns", "i18n.DateTimePatterns_en_SG" ∷ [])
    ∷ (
      "i18n:datetimepatternsext",
      "i18n.DateTimePatterns_en_SH" ∷ "i18n.DateTimePatterns_en_SI" ∷ "i18n.DateTimePatterns_en_SL"
          ∷ "i18n.DateTimePatterns_en_SS" ∷ "i18n.DateTimePatterns_en_SX"
          ∷ "i18n.DateTimePatterns_en_SZ" ∷ "i18n.DateTimePatterns_en_TC"
          ∷ "i18n.DateTimePatterns_en_TK" ∷ "i18n.DateTimePatterns_en_TO"
          ∷ "i18n.DateTimePatterns_en_TT" ∷ "i18n.DateTimePatterns_en_TV"
          ∷ "i18n.DateTimePatterns_en_TZ" ∷ [],
    )
    ∷ [])
