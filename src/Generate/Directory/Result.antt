-- ===== src/Generate/Directory/Result.antt =====
-- What GenerateRules returns where a directory has one rule for its libraries and one for its tests.
use rules_closure.Prelude.{
  false, Option, some, ◌>>=◌, Returns, Returns-some, Returns-map, ◌≡◌, refl, sym, ap, ◌∙◌, List, [],
  ◌∷◌, ◌++◌, map, Str, All, All-append, if◌then◌else◌,
}
use rules_closure.FileInfo.{FileInfo}
use rules_closure.Resolve.{ImportInfo}
use rules_closure.Gazelle.{Rules}
use rules_closure.Generate.Rules.{is_empty, zero_info, generate_multi_test}
use rules_closure.Generate.State.{lib_test_name, Reader, Setting, HtmlLookup, State, add_empty}
use rules_closure.Generate.Run.{Args, GenerateResult, setting, run_state, generate_rules, result}
use rules_closure.Generate.Extension.{IsNamed}
use rules_closure.Generate.Visit.{
  sources, tests, imports_of, grown, visit_files_lem, after_existing, lookup_of, new_sources,
  new_tests, IsJs, tests-IsJs,
}
use rules_closure.Generate.PerFile.{test_of}
use rules_closure.Generate.Emit.{
  share_all, emit_lib, emit_libraries, emit_all_tests, Shared, emit_shared, emit_dir_tests,
}
use rules_closure.Generate.Directory.{
  own_tests, shared_tests, html_after, own_imports, sharing, share_all_lem,
}
use rules_closure.Generate.Directory.Adds.{
  Adds, Adds-nil, Adds-add_empty, Adds-trans, dir_rules, dir_imports, multi_rules, multi_imports,
  emit_lib-Adds, emit_shared-Adds,
}

module _ (g : Rules) where
  open g use {Rule}

  module _ (c : Setting) (lookup : HtmlLookup) where
    abbrev pub test_rules : List FileInfo → List Rule
    test_rules tsts =
        map (test_of g c lookup) (own_tests c lookup tsts)
        ++ multi_rules g c lookup (html_after c lookup zero_info tsts) (shared_tests c lookup tsts)

    abbrev pub test_imports : List FileInfo → List ImportInfo
    test_imports tsts =
        map (own_imports g c lookup) (own_tests c lookup tsts)
        ++ multi_imports g (shared_tests c lookup tsts)

    -- emitDirTests, of the tests that the state keeps.
    abbrev dir_tests_of : List FileInfo → State g → Option (State g)
    dir_tests_of tsts s =
        if is_empty tsts
        then some (add_empty g (some (generate_multi_test g (lib_test_name c) [] c.visibility)) s)
        else (share_all g c lookup tsts (record { no_html = []; dir_html = zero_info; state = s })
            >>= λ p. some (emit_shared g c lookup p))

    dir_tests-Adds :
        (tsts : List FileInfo) (s : State g)
        → All IsJs tsts
        → Returns (Adds g (test_rules tsts) (test_imports tsts) s) (dir_tests_of tsts s)
    dir_tests-Adds [] s js = Adds-add_empty g _ [] [] s s (Adds-nil g s)
    dir_tests-Adds (fi ∷ fis) s js =
        let start : Shared g c lookup = record { no_html = []; dir_html = zero_info; state = s } in
        let q = sharing g c lookup (fi ∷ fis) start in
        rw (share_all_lem g c lookup (fi ∷ fis) start js) (
          Adds-trans g _ _ _ _ s q.state _ (record { rules = refl; imports = refl; tests = refl })
            (emit_shared-Adds g c lookup q.no_html q.dir_html q.state))

    emit_dir_tests-Adds :
        (tsts : List FileInfo) (s : State g)
        → s.lib_test_file_infos ≡ tsts
        → All IsJs tsts
        → Returns (Adds g (test_rules tsts) (test_imports tsts) s) (emit_dir_tests g c lookup s)
    unfolding emit_dir_tests
    emit_dir_tests-Adds tsts s e js =
        let same : dir_tests_of tsts s ≡ emit_dir_tests g c lookup s =
          ap (λ l. dir_tests_of l s) (sym e) in
        rw same at (dir_tests-Adds tsts s js)

    -- The two last steps, from the state that the loop over the files leaves.
    finish-Adds :
        (srcs : List Str) (iis : List ImportInfo) (tsts : List FileInfo) (s : State g)
        → c.rule_per_file ≡ false
        → s.lib_sources ≡ srcs
        → s.lib_imports ≡ iis
        → s.lib_test_file_infos ≡ tsts
        → All IsJs tsts
        → Returns
            (Adds g
              (dir_rules g c srcs iis ++ test_rules tsts)
              (dir_imports g srcs iis ++ test_imports tsts)
              s)
            (emit_libraries g c lookup s >>= emit_all_tests g c lookup)
    unfolding emit_libraries emit_all_tests
    finish-Adds srcs iis tsts s p e f h js =
        let v = emit_lib-Adds g c lookup srcs iis s e f in
        simp p (
          Returns-map (Adds g (test_rules tsts) (test_imports tsts) (emit_lib g c lookup s))
            (Adds g (dir_rules g c srcs iis ++ test_rules tsts)
              (dir_imports g srcs iis ++ test_imports tsts) s)
            (emit_dir_tests g c lookup (emit_lib g c lookup s))
            (λ u w. Adds-trans g _ (test_rules tsts) _ (test_imports tsts) s _ u v w)
            (emit_dir_tests-Adds tsts (emit_lib g c lookup s) (v.tests ∙ h) js))

  -- Where a directory has one rule for its libraries and one for its tests, the types of the files
  -- are those of their names, and what the loop over the existing rules kept as tests of the
  -- directory is JavaScript, GenerateRules returns. It adds to the rules of that loop the library of
  -- the sources of the directory, old and new, where there are sources and imports, then a test for
  -- each test that has an HTML file and not the name of the directory's test, and then one test for
  -- all the others, if any, each with the imports of its own files.
  pub dir_lem :
      (info : Reader) (args : Args g)
      → IsNamed info
      → All IsJs (after_existing g info false args).lib_test_file_infos
      → let c = setting g info false args in
        let v = after_existing g info false args in
        let srcs = v.lib_sources ++ new_sources g info false args in
        let iis = v.lib_imports ++ map (imports_of info) (new_sources g info false args) in
        let tsts = v.lib_test_file_infos ++ new_tests g info false args in
        (out : GenerateResult g) × (generate_rules g info false args ≡ some out)
        × (out.gen
            ≡ v.rules ++ (dir_rules g c srcs iis ++ test_rules c (lookup_of g info args) tsts))
        × (out.imports
            ≡ v.imports ++ (dir_imports g srcs iis ++ test_imports c (lookup_of g info args) tsts))
  unfolding generate_rules run_state
  dir_lem info args named js =
      let c = setting g info false args in
      let v = after_existing g info false args in
      let srcs = sources info v.existing_rule_srcs args.regular_files in
      let tsts = tests info v.existing_rule_srcs args.regular_files in
      let (s, e, w) = Returns-some _ _ (
        finish-Adds c (lookup_of g info args) _ _ _ (grown g info srcs tsts v) refl refl refl refl (
          All-append IsJs v.lib_test_file_infos _ js
            (tests-IsJs info v.existing_rule_srcs args.regular_files named))) in
      (
        result g s,
        ap
              (λ t.
                (emit_libraries g c (lookup_of g info args) t
                  >>= emit_all_tests g c (lookup_of g info args))
                >>= λ u. some (result g u))
              (visit_files_lem g c args.regular_files v)
            ∙ ap (λ o. o >>= λ u. some (result g u)) e,
        w.rules,
        w.imports,
      )
