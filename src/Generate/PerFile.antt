-- ===== src/Generate/PerFile.antt =====
-- GenerateRules where each file has a rule (`# gazelle:js_rule_per_file`).
pub mod Kept
pub mod Result
use mathlib.Core.List.{map-append}
use rules_closure.Generate.Run.{Args, setting, rules_of, run_state, generate_rules}
use rules_closure.Generate.Existing.{
  Sources, index_html, collect, no_sources, html_or_zero, emit_test, emit_existing, note_srcs,
  place_existing, visit_existing, visit_all,
}
use rules_closure.Generate.Rules.{
  generate_lib, is_empty, existing_test, make_test, generate_test, generate_combined_test,
  html_attr,
}
use rules_closure.Generate.Emit.{emit_libs, test_rule, emit_tests, emit_libraries, emit_all_tests}
use rules_closure.Prelude.{
  Bool, true, false, not, ◌&&◌, ◌≡◌, refl, sym, List, [], ◌∷◌, ◌++◌, map, append-nil, Str,
  Bool-cases, inl, inr, ap, ◌∙◌, append_assoc, eq_str, codes, if◌then◌else◌, ap₂, All, Option-cases,
  some, none,
}
use rules_closure.Distinct.{contains}
use rules_closure.Path
use rules_closure.FileInfo.{FileInfo, Ext, unknown_ext, js_ext, jsx_ext, html_ext}
use rules_closure.Resolve.{ImportInfo, is_js_library, is_js_test}
use rules_closure.Gazelle.{Rules}
use rules_closure.Generate.Imports.{new_import_info}
use rules_closure.Generate.State.{
  Reader, Setting, State, is_js, HtmlLookup, add_rule, initial, add_empty, get_html,
}
use rules_closure.Generate.Files.{is_unknown, place_file, visit_file, visit_files}
use rules_closure.Generate.Visit.{sources, tests, grown, IsJs, imports_of, info_of}
use rules_closure.Generate.Extension.{ext_text, ext_name-js}

module _ (g : Rules) where
  open g use {Rule}

  -- The library of a file.
  abbrev pub library_of : Setting → Str → Rule
  library_of c f = generate_lib g (Path.no_ext f) (f ∷ []) c.visibility

  -- The test of a file, with the HTML file of its name where there is one.
  abbrev pub test_of : Setting → HtmlLookup → FileInfo → Rule
  test_of c lookup fi =
      let made = make_test g fi c.visibility (ext_text fi.ext) in
      elim (get_html (Path.no_ext fi.name) lookup) [
        | some html ↦ g.set_attr made html_attr (g.string html.name)
        | none ↦ made
      ]

  generate_test-IsJs :
      (fi : FileInfo) (vis : Str)
      → IsJs fi
      → generate_test g fi vis ≡ some (make_test g fi vis (ext_text fi.ext))
  unfolding generate_test
  generate_test-IsJs fi vis (h, named) =
      let e =
        ext_name-js fi.name (ap is_js (sym named) ∙ h) ∙ ap (λ x. some (ext_text x)) (sym named) in
      rw e

  pub test_rule-IsJs :
      (c : Setting) (lookup : HtmlLookup) (fi : FileInfo)
      → IsJs fi
      → test_rule g c lookup fi ≡ some (test_of c lookup fi)
  unfolding generate_combined_test
  test_rule-IsJs c lookup fi js = elim (Option-cases (get_html (Path.no_ext fi.name) lookup)) [
    | inl e ↦ rw (e, test_rule, test_of) (generate_test-IsJs fi c.visibility js)
    | inr (html, e) ↦ rw (e, test_rule, test_of) (rw (generate_test-IsJs fi c.visibility js))
  ]

  abbrev pub emitted : List Rule → List ImportInfo → State g → State g
  emitted rs iis s = record s { rules = s.rules ++ rs; imports = s.imports ++ iis }

  module _ (c : Setting) (lookup : HtmlLookup) where
    pub emit_libs_lem :
        (srcs : List Str) (s : State g)
        → emit_libs g c lookup srcs (map (imports_of c.info) srcs) s
          ≡ some (emitted (map (library_of c) srcs) (map (imports_of c.info) srcs) s)
    unfolding emit_libs add_rule
    emit_libs_lem [] s = ap some (sym (simp append-nil refl))
    emit_libs_lem (f ∷ fs) s =
        emit_libs_lem fs (add_rule g (library_of c f) (imports_of c.info f) s)
        ∙ ap some (simp append_assoc refl)

    pub emit_tests_lem :
        (fis : List FileInfo) (s : State g)
        → All IsJs fis
        → emit_tests g c lookup fis s
          ≡ some (emitted (map (test_of c lookup) fis) (map new_import_info fis) s)
    unfolding emit_tests add_rule
    emit_tests_lem [] s js = ap some (sym (simp append-nil refl))
    emit_tests_lem (fi ∷ fis) s js = rw (test_rule-IsJs c lookup fi js.0) (
        emit_tests_lem fis (add_rule g (test_of c lookup fi) (new_import_info fi) s) js.1
        ∙ ap some (simp append_assoc refl))
