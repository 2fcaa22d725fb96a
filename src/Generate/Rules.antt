-- ===== src/Generate/Rules.antt =====
-- The rules that gazelle/closure_js/generate.go makes: existingLib, generateLib, existingTest,
-- generateMultiTest, generateTest and generateCombinedTest.
use rules_closure.Prelude.{
  Bool, true, false, not, ◌&&◌, ◌||◌, none, some, List, [], ◌∷◌, ◌++◌, Str, codes, if◌then◌else◌,
  eq_str, ◌>>=◌, Option,
}
use rules_closure.Path
use rules_closure.Sort.{sort_strings}
use rules_closure.FileInfo.{FileInfo, unknown_ext, es6}
use rules_closure.Gazelle.{Rules}

abbrev pub srcs_attr : Str
srcs_attr = codes "srcs"

abbrev pub visibility_attr : Str
visibility_attr = codes "visibility"

abbrev pub entry_points_attr : Str
entry_points_attr = codes "entry_points"

abbrev pub level_attr : Str
level_attr = codes "compilation_level"

abbrev pub html_attr : Str
html_attr = codes "html"

-- The zero value of the structure: `path` is empty, which stands for no file.
abbrev pub zero_info : FileInfo
zero_info = record {
  path = [];
  name = [];
  ext = unknown_ext;
  provides = [];
  is_test = false;
  is_test_only = false;
  module_type = es6;
  imports = [];
  deps = [];
}

abbrev pub is_empty {ℓ} : {A : Type ℓ} → List A → Bool
is_empty [] = true
is_empty (x ∷ xs) = false

-- Whether some name ends in `.jsx`.
unfoldable pub any_jsx : List Str → Bool
unfolding Path.ext eq_str
any_jsx [] = false
any_jsx (s ∷ ss) = eq_str (Path.ext s) (codes ".jsx") || any_jsx ss

abbrev pub js_or_jsx : List Str → Str
js_or_jsx names = if any_jsx names then codes "jsx" else codes "js"

unfoldable pub library_kind : List Str → Str
unfolding any_jsx
library_kind srcs = codes "closure_" ++ (js_or_jsx srcs ++ codes "_library")

unfoldable pub test_kind : List Str → Str
unfolding any_jsx
test_kind names = codes "closure_" ++ (js_or_jsx names ++ codes "_test")

abbrev pub names_of : List FileInfo → List Str
names_of [] = []
names_of (fi ∷ fis) = fi.name ∷ names_of fis

abbrev pub provides_of : List FileInfo → List Str
provides_of [] = []
provides_of (fi ∷ fis) = fi.provides ++ provides_of fis

-- `s[1:]`, a panic on the empty string
abbrev pub after_first : Str → Option Str
after_first [] = none
after_first (c ∷ s) = some s

-- `filepath.Ext(js.name)[1:]`
unfoldable pub ext_name : Str → Option Str
unfolding Path.ext
ext_name name = after_first (Path.ext name)

module _ (g : Rules) where
  open g use {Rule, Expr}

  -- `if len(l) > 0 { r.SetAttr(key, l) }` and `if vis != "" { … }`
  unfoldable pub set_list : Str → List Str → Rule → Rule
  set_list key l r = if is_empty l then r else g.set_attr r key (g.strings l)

  unfoldable pub set_visibility : Str → Rule → Rule
  set_visibility vis r =
      if is_empty vis then r else g.set_attr r visibility_attr (g.strings (vis ∷ []))

  unfoldable pub existing_lib : Rule → List Str → Str → Rule
  unfolding set_list set_visibility
  existing_lib existing srcs vis =
      set_visibility vis (set_list srcs_attr srcs (g.new_rule (g.kind existing) (g.name existing)))

  unfoldable pub generate_lib : Str → List Str → Str → Rule
  unfolding set_list set_visibility library_kind
  generate_lib name srcs vis =
      set_visibility vis (set_list srcs_attr srcs (g.new_rule (library_kind srcs) name))

  -- An attribute of the existing rule, unless it is `srcs` or `entry_points`.
  unfoldable pub copy_attr : Rule → Str → Rule → Rule
  unfolding eq_str
  copy_attr old key r =
      if eq_str key srcs_attr || eq_str key entry_points_attr
      then r
      else elim (g.attr old key) [ none ↦ r | some e ↦ g.set_attr r key e ]

  unfoldable pub copy_attrs : Rule → List Str → Rule → Rule
  unfolding copy_attr
  copy_attrs old [] r = r
  copy_attrs old (key ∷ keys) r = copy_attrs old keys (copy_attr old key r)

  abbrev pub unset : Rule → Str → Bool
  unset r key = elim (g.attr r key) [ none ↦ true | some e ↦ false ]

  unfoldable pub existing_test : Rule → List FileInfo → FileInfo → Str → Rule
  unfolding copy_attrs set_list test_kind
  existing_test old js html vis =
      let srcs = sort_strings (names_of js) in
      let provides = sort_strings (provides_of js) in
      let copied =
        copy_attrs old (g.attr_keys old) (g.new_rule (test_kind (names_of js)) (g.name old)) in
      let with_points = set_list entry_points_attr provides (set_list srcs_attr srcs copied) in
      let with_level =
        if unset old level_attr
        then g.set_attr with_points level_attr (g.string (codes "ADVANCED"))
        else with_points in
      let with_visibility =
        if unset old visibility_attr && not (is_empty vis)
        then g.set_attr with_level visibility_attr (g.strings (vis ∷ []))
        else with_level in
      if unset old html_attr && not (is_empty html.path)
      then g.set_attr with_visibility html_attr (g.string html.name)
      else with_visibility

  unfoldable pub generate_multi_test : Str → List FileInfo → Str → Rule
  unfolding set_list set_visibility test_kind
  generate_multi_test name js vis =
      let srcs = sort_strings (names_of js) in
      let provides = sort_strings (provides_of js) in
      let with_srcs = set_list srcs_attr srcs (g.new_rule (test_kind (names_of js)) name) in
      let with_level = g.set_attr with_srcs level_attr (g.string (codes "ADVANCED")) in
      set_visibility vis (set_list entry_points_attr provides with_level)

  -- The rest of generateTest, where `jsOrJsx` is known.
  unfoldable pub make_test : FileInfo → Str → Str → Rule
  unfolding set_visibility Path.no_ext
  make_test js vis js_or_jsx =
      let made =
        g.new_rule (codes "closure_" ++ (js_or_jsx ++ codes "_test")) (Path.no_ext js.name) in
      let with_srcs = g.set_attr made srcs_attr (g.strings (js.name ∷ [])) in
      let with_level = g.set_attr with_srcs level_attr (g.string (codes "ADVANCED")) in
      set_visibility vis (g.set_attr with_level entry_points_attr (g.strings js.provides))

  unfoldable pub generate_test : FileInfo → Str → Option Rule
  unfolding make_test ext_name
  generate_test js vis = do kind ← ext_name js.name; some (make_test js vis kind)

  unfoldable pub generate_combined_test : FileInfo → FileInfo → Str → Option Rule
  unfolding generate_test
  generate_combined_test js html vis = do
    r ← generate_test js vis
    some (g.set_attr r html_attr (g.string html.name))
