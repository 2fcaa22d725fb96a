-- ===== src/Library/Rows/Other.antt =====
-- Lines 5205 to 5212 of gazelle/closure_js/closure_library/closure_library.go.
use rules_closure.Prelude.{List, [], ◌∷◌}
use rules_closure.Library.{Row, row}

abbrev pub other_rows : List Row
other_rows =
    row "proto2.TestAllTypes" "//closure/library/proto2:test.pb"
    ∷ row "proto2.TestAllTypes.NestedEnum" "//closure/library/proto2:test.pb"
    ∷ row "proto2.TestAllTypes.NestedMessage" "//closure/library/proto2:test.pb"
    ∷ row "proto2.TestAllTypes.OptionalGroup" "//closure/library/proto2:test.pb"
    ∷ row "proto2.TestAllTypes.RepeatedGroup" "//closure/library/proto2:test.pb"
    ∷ row "proto2.TestDefaultChild" "//closure/library/proto2:test.pb"
    ∷ row "proto2.TestDefaultParent" "//closure/library/proto2:test.pb"
    ∷ row "svgpan.SvgPan" "//third_party/closure/library/svgpan:svgpan"
    ∷ []
