-- ===== src/Generate/PerFile/Result.antt =====
-- What GenerateRules returns where each file has a rule.
use rules_closure.Generate.Run.{Args, setting, rules_of, run_state, generate_rules, result}
use rules_closure.Generate.Existing.{index_html}
use rules_closure.Generate.Emit.{emit_libs, emit_tests, emit_libraries, emit_all_tests}
use rules_closure.Prelude.{
  true, ◌≡◌, refl, List, [], ◌++◌, map, Str, ap, ◌∙◌, append_assoc, ap₂, All, some, ◌>>=◌,
}
use rules_closure.FileInfo.{FileInfo}
use rules_closure.Resolve.{ImportInfo}
use rules_closure.Gazelle.{Rules}
use rules_closure.Generate.Imports.{new_import_info}
use rules_closure.Generate.State.{Reader, Setting, State, HtmlLookup, initial}
use rules_closure.Generate.PerFile.{library_of, test_of, emitted, emit_libs_lem, emit_tests_lem}
use rules_closure.Generate.Visit.{
  sources, tests, imports_of, info_of, grown, visit_files_lem, after_existing, lookup_of,
  new_sources, new_tests, IsJs, tests-IsJs,
}
use rules_closure.Generate.Extension.{IsNamed}
use rules_closure.Generate.PerFile.Kept.{Free, visit_all-Free}

module _ (g : Rules) where
  open g use {Rule}

  emitted-emitted :
      (rs rs' : List Rule) (iis iis' : List ImportInfo) (s : State g)
      → emitted g rs' iis' (emitted g rs iis s) ≡ emitted g (rs ++ rs') (iis ++ iis') s
  emitted-emitted rs rs' iis iis' s = simp append_assoc refl

  module _ (c : Setting) (lookup : HtmlLookup) (p : c.rule_per_file ≡ true) where
    emit_libraries_lem :
        (srcs : List Str) (t : State g)
        → t.lib_sources ≡ srcs
        → t.lib_imports ≡ map (imports_of c.info) srcs
        → emit_libraries g c lookup t
          ≡ some (emitted g (map (library_of g c) srcs) (map (imports_of c.info) srcs) t)
    unfolding emit_libraries
    emit_libraries_lem srcs t e f =
        simp p (ap₂ (λ xs ys. emit_libs g c lookup xs ys t) e f) ∙ emit_libs_lem g c lookup srcs t

    emit_all_tests_lem :
        (fis : List FileInfo) (t : State g)
        → All IsJs fis
        → t.lib_test_file_infos ≡ fis
        → emit_all_tests g c lookup t
          ≡ some (emitted g (map (test_of g c lookup) fis) (map new_import_info fis) t)
    unfolding emit_all_tests
    emit_all_tests_lem fis t js e =
        simp p (ap (λ xs. emit_tests g c lookup xs t) e) ∙ emit_tests_lem g c lookup fis t js

    finish_lem :
        (srcs tsts : List Str) (s : State g)
        → All IsJs (map (info_of c.info) tsts)
        → Free g s
        → (emit_libraries g c lookup (grown g c.info srcs tsts s) >>= emit_all_tests g c lookup)
          ≡ some (
              emitted g
                (map (library_of g c) srcs ++ map (test_of g c lookup) (map (info_of c.info) tsts))
                (map (imports_of c.info) srcs ++ map new_import_info (map (info_of c.info) tsts))
                (grown g c.info srcs tsts s))
    finish_lem srcs tsts s js v =
        let t = grown g c.info srcs tsts s in
        let e =
          emit_libraries_lem srcs t (ap (λ xs. xs ++ srcs) v.no_sources)
            (ap (λ xs. xs ++ map (imports_of c.info) srcs) v.no_imports) in
        ap (λ o. o >>= emit_all_tests g c lookup) e
        ∙ emit_all_tests_lem (map (info_of c.info) tsts) _ js
            (ap (λ xs. xs ++ map (info_of c.info) tsts) v.no_tests)
        ∙ ap some (emitted-emitted _ _ _ _ t)

  -- Where each file has a rule, and the types of the files are those of their names, GenerateRules
  -- returns. It keeps what the loop over the existing rules emitted and adds a library for each new
  -- source and then a test for each new test, in the order of the directory, each with the imports
  -- of its own file.
  pub per_file_lem :
      (info : Reader) (args : Args g)
      → IsNamed info
      → let c = setting g info true args in
        let v = after_existing g info true args in
        let srcs = new_sources g info true args in
        let tsts = new_tests g info true args in
        generate_rules g info true args
        ≡ some (record {
          gen =
              v.rules
              ++ (map (library_of g c) srcs ++ map (test_of g c (lookup_of g info args)) tsts);
          imports = v.imports ++ (map (imports_of info) srcs ++ map new_import_info tsts);
          empty = v.empty;
        })
  unfolding generate_rules run_state
  per_file_lem info args named =
      let c = setting g info true args in
      let (lookup, names) = index_html info args.regular_files ([], []) in
      let v = after_existing g info true args in
      let free =
        visit_all-Free g c lookup (rules_of g args.file) (initial g names) refl
          (record { no_sources = refl; no_imports = refl; no_tests = refl }) in
      let srcs = sources info v.existing_rule_srcs args.regular_files in
      let tsts = tests info v.existing_rule_srcs args.regular_files in
      ap
        (λ s.
          (emit_libraries g c lookup s >>= emit_all_tests g c lookup) >>= λ t. some (result g t))
        (visit_files_lem g c args.regular_files v)
      ∙ ap (λ o. o >>= λ t. some (result g t))
          (finish_lem c lookup refl srcs tsts v
            (tests-IsJs info v.existing_rule_srcs args.regular_files named) free)
