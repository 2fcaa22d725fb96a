-- ===== src/Generate/Panic/Run.antt =====
-- Where GenerateRules panics in a directory with one rule for all tests.
use rules_closure.Prelude.{false, none, some, ◌>>=◌, ◌≡◌, ◌↔◌, refl, sym, ap, ◌∙◌, ◌++◌, Memᴰ}
use rules_closure.FileInfo.{FileInfo}
use rules_closure.Gazelle.{Rules}
use rules_closure.Generate.State.{Reader, State}
use rules_closure.Generate.Run.{Args, setting, run_state, generate_rules, result}
use rules_closure.Generate.Emit.{emit_lib, emit_libraries, emit_dir_tests, emit_all_tests}
use rules_closure.Generate.Visit.{
  sources, tests, grown, visit_files_lem, after_existing, lookup_of, new_tests,
}
use rules_closure.Generate.Directory.Adds.{emit_lib-Adds}
use rules_closure.Generate.Panic.{Panics, bind_none, emit_dir_tests-none}

module _ (g : Rules) (info : Reader) (args : Args g) where
  -- The state that the loop over the files leaves, with the library of the directory.
  abbrev emitted_lib : State g
  emitted_lib =
      let v = after_existing g info false args in
      emit_lib g (setting g info false args) (lookup_of g info args) (
        grown g info (sources info v.existing_rule_srcs args.regular_files)
          (tests info v.existing_rule_srcs args.regular_files) v)

  run_lem : generate_rules g info false args ≡ (
      emit_dir_tests g (setting g info false args) (lookup_of g info args) emitted_lib >>= λ t.
      some (result g t))
  unfolding generate_rules run_state emit_libraries emit_all_tests
  run_lem =
      let c = setting g info false args in
      ap
        (λ s.
          (emit_libraries g c (lookup_of g info args) s
            >>= emit_all_tests g c (lookup_of g info args))
          >>= λ t. some (result g t))
        (visit_files_lem g c args.regular_files (after_existing g info false args))

  kept_tests :
      emitted_lib.lib_test_file_infos
      ≡ (after_existing g info false args).lib_test_file_infos ++ new_tests g info false args
  kept_tests =
      (emit_lib-Adds g (setting g info false args) (lookup_of g info args) _ _ _ refl refl).tests

  -- In a directory with one rule for all tests GenerateRules panics exactly when one of the tests
  -- that the loops over the existing rules and over the files find has an HTML file of its name, is
  -- not named like the directory's test, and has no extension.
  pub generate_rules-none : (generate_rules g info false args ≡ none) ↔ (
      (fi : FileInfo) × Memᴰ fi
        ((after_existing g info false args).lib_test_file_infos ++ new_tests g info false args)
      × Panics (setting g info false args) (lookup_of g info args) fi)
  generate_rules-none =
      let c = setting g info false args in
      let (there, back) = emit_dir_tests-none g c (lookup_of g info args) emitted_lib in
      (
        λ h.
            let (fi, m, p) = there (bind_none _ (result g) (sym run_lem ∙ h)) in
            (fi, rw kept_tests at m, p),
        λ (fi, m, p).
            run_lem
            ∙ ap (λ o. o >>= λ t. some (result g t)) (back (fi, rw (sym kept_tests) at m, p)),
      )
