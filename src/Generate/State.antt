-- ===== src/Generate/State.antt =====
-- The variables of GenerateRules.
use rules_closure.Prelude.{
  Bool, true, false, Option, none, some, List, [], ◌∷◌, ◌++◌, Str, codes, eq_str,
}
use rules_closure.FileInfo.{FileInfo, Ext, js_ext, jsx_ext}
use rules_closure.Resolve.{ImportInfo}
use rules_closure.Gazelle.{Rules}

-- jsFileInfo of a file of the directory: the information, and whether the file was read.
abbrev pub Reader : Type 0
Reader = Str → FileInfo × Bool

-- What GenerateRules computes first and does not change: `lib_name`, `visibility` (empty for none),
-- whether each file has a rule, and what jsFileInfo says of the files of the directory.
pub record Setting : Type 0 where
  pub lib_name : Str
  pub visibility : Str
  pub rule_per_file : Bool
  pub info : Reader

abbrev pub test_suffix : Str → Str
test_suffix name = name ++ codes "_test"

-- `libTestName`
abbrev pub lib_test_name : Setting → Str
lib_test_name c = test_suffix c.lib_name

-- htmlLookup, the entry added last first.
abbrev pub HtmlLookup : Type 0
HtmlLookup = List (Str × FileInfo)

unfoldable pub get_html : Str → HtmlLookup → Option FileInfo
unfolding eq_str
get_html k [] = none
get_html k ((name, fi) ∷ m) = elim (eq_str name k) [ true ↦ some fi | false ↦ get_html k m ]

abbrev pub is_js : Ext → Bool
is_js js_ext = true
is_js jsx_ext = true
is_js _ = false

module _ (g : Rules) where
  open g use {Rule}

  -- A rule of `empty` is `none` where Go would append a nil pointer.
  pub record State : Type 0 where
    pub rules : List Rule
    pub imports : List ImportInfo
    pub empty : List (Option Rule)
    pub existing_rule_srcs : List Str
    pub lib_existing_rule : Option Rule
    pub lib_sources : List Str
    pub lib_imports : List ImportInfo
    pub lib_test_file_infos : List FileInfo
    pub lib_test_existing_rule : Option Rule

  abbrev pub initial : List Str → State
  initial html_names = record {
    rules = [];
    imports = [];
    empty = [];
    existing_rule_srcs = html_names;
    lib_existing_rule = none;
    lib_sources = [];
    lib_imports = [];
    lib_test_file_infos = [];
    lib_test_existing_rule = none;
  }

  -- `rules = append(rules, r); imports = append(imports, ii)`
  unfoldable pub add_rule : Rule → ImportInfo → State → State
  add_rule r ii s = record s { rules = s.rules ++ r ∷ []; imports = s.imports ++ ii ∷ [] }

  unfoldable pub add_empty : Option Rule → State → State
  add_empty r s = record s { empty = s.empty ++ r ∷ [] }
