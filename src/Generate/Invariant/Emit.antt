-- ===== src/Generate/Invariant/Emit.antt =====
-- The rules that GenerateRules emits keep the invariant.
use rules_closure.Prelude.{
  true, false, Option, none, some, ◌≡◌, inl, inr, List, [], ◌∷◌, Str, Bool-cases, Option-cases,
  eq_str, Ensures, Ensures-after, Ensures->>=, if_rule,
}
use rules_closure.Path
use rules_closure.FileInfo.{FileInfo}
use rules_closure.Resolve.{ImportInfo}
use rules_closure.Gazelle.{Rules}
use rules_closure.Generate.Rules.{
  is_empty, existing_lib, generate_lib, generate_multi_test, generate_combined_test,
}
use rules_closure.Generate.Imports.{new_import_info, file_info_imports, combine_imports}
use rules_closure.Generate.State.{
  Setting, lib_test_name, HtmlLookup, get_html, State, initial, add_rule,
}
use rules_closure.Generate.Emit.{
  emit_libs, retire_lib, emit_lib, emit_libraries, test_rule, emit_tests, Shared, share, share_all,
  retire_test, multi_test, emit_shared, emit_dir_tests, emit_all_tests,
}
use rules_closure.Generate.Run.{run_state}
use rules_closure.Generate.Invariant.{
  IsRule, IsNil, Inv, if-Inv, add_rule-Inv, add_empty-Inv, initial-Inv, visit_all-Inv,
  visit_files-Inv,
}

not-IsNil {ℓ} : {A : Type ℓ} (xs : List A) → is_empty xs ≡ false → ¬ IsNil xs
not-IsNil [] e h = cc
not-IsNil (x ∷ xs) e h = h

IsNil-of_empty {ℓ} : {A : Type ℓ} (xs : List A) → is_empty xs ≡ true → IsNil xs
IsNil-of_empty [] e = tt
IsNil-of_empty (x ∷ xs) e = cc

module _ (g : Rules) (c : Setting) (lookup : HtmlLookup) where
  open g use {Rule}

  emit_libs-Inv :
      (srcs : List Str) (iis : List ImportInfo) (s : State g)
      → Inv g s
      → Ensures (Inv g) (emit_libs g c lookup srcs iis s)
  unfolding emit_libs
  emit_libs-Inv [] iis s v = v
  emit_libs-Inv (src ∷ srcs) [] s v = tt
  emit_libs-Inv (src ∷ srcs) (ii ∷ iis) s v =
      emit_libs-Inv srcs iis _
        (add_rule-Inv g (generate_lib g (Path.no_ext src) (src ∷ []) c.visibility) ii s v)

  retire_lib-Inv :
      (old : Option Rule) (made : Rule) (s : State g)
      → Inv g s
      → Inv g (retire_lib g c lookup old made s)
  unfolding retire_lib
  retire_lib-Inv none made s v = v
  retire_lib-Inv (some old) made s v =
      if-Inv g (eq_str (g.kind old) (g.kind made)) _ _ v
        (add_empty-Inv g (some (existing_lib g old [] c.visibility)) s tt v)

  retire_test-Inv :
      (old : Option Rule) (made : Rule) (s : State g)
      → Inv g s
      → Inv g (retire_test g c lookup old made s)
  unfolding retire_test
  retire_test-Inv none made s v = v
  retire_test-Inv (some old) made s v =
      if-Inv g (eq_str (g.kind old) (g.kind made)) _ _ v
        (add_empty-Inv g (some (g.new_rule (g.kind old) (g.name old))) s tt v)

  kept-IsRule :
      (s : State g)
      → Inv g s
      → is_empty s.lib_imports ≡ false
      → is_empty s.lib_sources ≡ true
      → IsRule s.lib_existing_rule
  kept-IsRule s v e f = elim (v.kept (IsNil-of_empty s.lib_sources f)) [
    | inl n ↦ absurd (not-IsNil s.lib_imports e n)
    | inr r ↦ r
  ]

  emit_lib-Inv : (s : State g) → Inv g s → Inv g (emit_lib g c lookup s)
  unfolding emit_lib
  emit_lib-Inv s v =
      let made = generate_lib g c.lib_name s.lib_sources c.visibility in
      elim (Bool-cases (is_empty s.lib_imports)) [
        | inl e ↦ rw e v
        | inr e ↦ elim (Bool-cases (is_empty s.lib_sources)) [
          | inl f ↦ rw (e, f) (add_empty-Inv g s.lib_existing_rule s (kept-IsRule s v e f) v)
          | inr f ↦
              rw (e, f)
                (retire_lib-Inv s.lib_existing_rule made
                  (add_rule g made (combine_imports s.lib_imports) s)
                  (add_rule-Inv g made (combine_imports s.lib_imports) s v))
        ]
      ]

  emit_libraries-Inv : (s : State g) → Inv g s → Ensures (Inv g) (emit_libraries g c lookup s)
  unfolding emit_libraries
  emit_libraries-Inv s v =
      if_rule (Ensures (Inv g)) c.rule_per_file _ _ (emit_libs-Inv s.lib_sources s.lib_imports s v)
        (emit_lib-Inv s v)

  emit_tests-Inv :
      (fis : List FileInfo) (s : State g) → Inv g s → Ensures (Inv g) (emit_tests g c lookup fis s)
  unfolding emit_tests
  emit_tests-Inv [] s v = v
  emit_tests-Inv (fi ∷ fis) s v =
      Ensures-after (Inv g) (test_rule g c lookup fi) _
        (λ r. emit_tests-Inv fis _ (add_rule-Inv g r (new_import_info fi) s v))

  abbrev SharedInv : Shared g c lookup → Type 0
  SharedInv p = Inv g p.state

  share-Inv :
      (fi : FileInfo) (p : Shared g c lookup)
      → SharedInv p
      → Ensures SharedInv (share g c lookup fi p)
  unfolding share
  share-Inv fi p v = elim (Option-cases (get_html (Path.no_ext fi.name) lookup)) [
    | inl e ↦ rw (e, share) v
    | inr (html, e) ↦ elim (Bool-cases (eq_str (Path.no_ext fi.name) (lib_test_name c))) [
      | inl f ↦ rw (e, share, f) v
      | inr f ↦
          rw (e, share, f)
            (Ensures-after SharedInv (generate_combined_test g fi html c.visibility) _
              (λ r. add_rule-Inv g r (file_info_imports (fi ∷ [])) p.state v))
    ]
  ]

  share_all-Inv :
      (fis : List FileInfo) (p : Shared g c lookup)
      → SharedInv p
      → Ensures SharedInv (share_all g c lookup fis p)
  unfolding share_all
  share_all-Inv [] p v = v
  share_all-Inv (fi ∷ fis) p v =
      Ensures->>= SharedInv SharedInv (share g c lookup fi p) (share_all g c lookup fis)
        (share-Inv fi p v) (share_all-Inv fis)

  emit_shared-Inv : (p : Shared g c lookup) → Inv g p.state → Inv g (emit_shared g c lookup p)
  unfolding emit_shared
  emit_shared-Inv p v =
      let made = multi_test g c lookup p.no_html p.dir_html in
      if-Inv g (is_empty p.no_html) _ _ v (
        retire_test-Inv p.state.lib_test_existing_rule made
          (add_rule g made (file_info_imports p.no_html) p.state)
          (add_rule-Inv g made (file_info_imports p.no_html) p.state v))

  emit_all_tests-Inv : (s : State g) → Inv g s → Ensures (Inv g) (emit_all_tests g c lookup s)
  unfolding emit_all_tests emit_dir_tests
  emit_all_tests-Inv s v =
      if_rule (Ensures (Inv g)) c.rule_per_file _ _ (emit_tests-Inv s.lib_test_file_infos s v) (
        if_rule (Ensures (Inv g)) (is_empty s.lib_test_file_infos) _ _
          (add_empty-Inv g (some (generate_multi_test g (lib_test_name c) [] c.visibility)) s tt v)
          (Ensures->>= SharedInv (Inv g) (share_all g c lookup s.lib_test_file_infos _) _
            (share_all-Inv s.lib_test_file_infos _ v) emit_shared-Inv))

pub run_state-Inv :
    (g : Rules) (c : Setting) (lookup : HtmlLookup) (names : List Str) (rules : List g.Rule)
    (files : List Str)
    → Ensures (Inv g) (run_state g c (lookup, names) rules files)
unfolding run_state
run_state-Inv g c lookup names rules files =
    let v =
      visit_files-Inv g c files _
        (visit_all-Inv g c lookup rules (initial g names) (initial-Inv g names)) in
    Ensures->>= (Inv g) (Inv g) _ (emit_all_tests g c lookup) (emit_libraries-Inv g c lookup _ v)
      (emit_all_tests-Inv g c lookup)
