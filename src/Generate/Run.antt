-- ===== src/Generate/Run.antt =====
-- GenerateRules.
use rules_closure.Prelude.{
  Bool, false, Option, none, some, List, [], ◌∷◌, Str, codes, if◌then◌else◌, ◌>>=◌,
}
use rules_closure.Path
use rules_closure.Config.{JsConfig}
use rules_closure.FileInfo.{file_name_info, js_file_info}
use rules_closure.Resolve.{ImportInfo}
use rules_closure.Gazelle.{Rules}
use rules_closure.Generate.State.{Reader, Setting, HtmlLookup, State, initial}
use rules_closure.Generate.Existing.{index_html, visit_all}
use rules_closure.Generate.Files.{visit_files}
use rules_closure.Generate.Emit.{emit_libraries, emit_all_tests}

-- jsFileInfo of a file of a directory. A panic has no outcome of its own here; FileInfo/Total is
-- about it.
unfoldable pub read_info : (Str → Option Str) → Str → JsConfig → Str → Reader
read_info read repo_root jsc dir filename =
    elim (js_file_info read repo_root jsc (Path.join dir filename)) [
      | some result ↦ result
      | none ↦ (file_name_info (Path.join dir filename), false)
    ]

-- `libName`
unfoldable pub lib_name_of : Str → Str
unfolding Path.base
lib_name_of [] = codes "lib"
lib_name_of (c ∷ rel) = Path.base (c ∷ rel)

module _ (g : Rules) where
  open g use {Rule}

  -- The BUILD file of a directory: its rules, and whether it sets a default visibility.
  pub record BuildFile : Type 0 where
    pub rules : List Rule
    pub has_default_visibility : Bool

  -- language.GenerateArgs. `visibility` is rule.CheckInternalVisibility(args.Rel, …).
  pub record Args : Type 0 where
    pub rel : Str
    pub regular_files : List Str
    pub file : Option BuildFile
    pub visibility : Str

  -- language.GenerateResult
  pub record GenerateResult : Type 0 where
    pub gen : List Rule
    pub imports : List ImportInfo
    pub empty : List (Option Rule)

  abbrev pub visibility_of : Option BuildFile → Str → Str
  visibility_of none vis = vis
  visibility_of (some f) vis = if f.has_default_visibility then [] else vis

  abbrev pub rules_of : Option BuildFile → List Rule
  rules_of none = []
  rules_of (some f) = f.rules

  abbrev pub setting : Reader → Bool → Args → Setting
  setting info rule_per_file args = record {
    lib_name = lib_name_of args.rel;
    visibility = visibility_of args.file args.visibility;
    rule_per_file = rule_per_file;
    info = info;
  }

  abbrev pub result : State g → GenerateResult
  result s = record { gen = s.rules; imports = s.imports; empty = s.empty }

  -- The five loops, in order.
  unfoldable pub run_state :
      Setting → HtmlLookup × List Str → List Rule → List Str → Option (State g)
  run_state c (lookup, names) rules files = do
    s ←
        emit_libraries g c lookup
          (visit_files g c files (visit_all g c lookup rules (initial g names)))
    emit_all_tests g c lookup s

  -- GenerateRules, over what jsFileInfo says of the files. A panic is `none`.
  unfoldable pub generate_rules : Reader → Bool → Args → Option GenerateResult
  generate_rules info rule_per_file args = do
    s ←
        run_state (setting info rule_per_file args) (index_html info args.regular_files ([], []))
          (rules_of args.file) args.regular_files
    some (result s)
