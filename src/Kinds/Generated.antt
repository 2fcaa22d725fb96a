-- ===== src/Kinds/Generated.antt =====
-- The kinds that generateLib, existingTest and generateMultiTest choose.
use mathlib.Core.List.Memᴰ.{head, tail}
use rules_closure.Prelude.{
  true, some, ◌≡◌, refl, Str, codes, List, Memᴰ, Bool-cases, inl, inr, has_prefix, has_suffix,
}
use rules_closure.Kinds.{js_kind, js_kinds, kind_info, LoadInfo, js_loads}
use rules_closure.Resolve.{is_js_library, is_js_test}
use rules_closure.Generate.Rules.{any_jsx, library_kind, test_kind}

-- Gazelle knows the kind with the attributes of a JavaScript rule, and can load it.
abbrev pub Known : Str → Type 0
Known kind =
    (kind_info kind js_kinds ≡ some js_kind)
    × ((load : LoadInfo) × Memᴰ load js_loads × Memᴰ kind load.symbols)

js_library-Known : Known (codes "closure_js_library")
unfolding kind_info
js_library-Known = (refl, (_, head refl, head refl))

pub js_test-Known : Known (codes "closure_js_test")
unfolding kind_info
js_test-Known = (refl, (_, head refl, tail (head refl)))

jsx_library-Known : Known (codes "closure_jsx_library")
unfolding kind_info
jsx_library-Known = (refl, (_, head refl, tail (tail (head refl))))

pub jsx_test-Known : Known (codes "closure_jsx_test")
unfolding kind_info
jsx_test-Known = (refl, (_, head refl, tail (tail (tail (head refl)))))

library_recognised :
    (is_js_library (codes "closure_js_library") ≡ true)
    × (is_js_library (codes "closure_jsx_library") ≡ true)
unfolding is_js_library has_prefix has_suffix
library_recognised = (refl, refl)

pub test_recognised :
    (is_js_test (codes "closure_js_test") ≡ true) × (is_js_test (codes "closure_jsx_test") ≡ true)
unfolding is_js_test has_prefix has_suffix
test_recognised = (refl, refl)

-- What the tables and the tests of kinds say of them.
pub generated_kinds :
    (names : List Str)
    → Known (library_kind names)
      × Known (test_kind names)
      × (is_js_library (library_kind names) ≡ true)
      × (is_js_test (test_kind names) ≡ true)
unfolding library_kind test_kind
generated_kinds names = elim (Bool-cases (any_jsx names)) [
  | inl e ↦ rw e (jsx_library-Known, jsx_test-Known, library_recognised.1, test_recognised.1)
  | inr e ↦ rw e (js_library-Known, js_test-Known, library_recognised.0, test_recognised.0)
]
