-- ===== src/Generate/Invariant.antt =====
-- What holds of the variables of GenerateRules throughout its loops over rules and files.
pub mod Emit
use rules_closure.FileInfo.{FileInfo}
use rules_closure.Distinct.{contains}
use rules_closure.Generate.Files.{is_unknown, place_file, visit_file, visit_files}
use rules_closure.Prelude.{
  Bool, true, false, Option, none, some, ◌≡◌, refl, ◌⊎◌, inl, inr, List, [], ◌∷◌, ◌++◌, Str, codes,
  arith, length, length-append, All, Bool-cases, if◌then◌else◌, ◌+◌, eq_str, not, ◌&&◌,
}
use rules_closure.Resolve.{ImportInfo, is_js_test, is_js_library}
use rules_closure.Gazelle.{Rules}
use rules_closure.Generate.Rules.{is_empty, existing_test, existing_lib}
use rules_closure.Generate.State.{
  Setting, HtmlLookup, State, initial, add_rule, add_empty, is_js, lib_test_name,
}
use rules_closure.Generate.Existing.{
  Sources, keep_lib, keep_test, found_imports, html_or_zero, emit_test, emit_existing, note_srcs,
  place_existing, visit_existing, visit_all, collect, no_sources,
}

-- A pointer that is not nil.
abbrev pub IsRule {ℓ} : {A : Type ℓ} → Option A → Type 0
IsRule none = ⊥
IsRule (some r) = Unit

abbrev pub IsNil {ℓ} : {A : Type ℓ} → List A → Type 0
IsNil [] = Unit
IsNil (x ∷ xs) = ⊥

All-concat {ℓ κ} :
    {A : Type ℓ} (P : A → Type κ) (xs : List A) (y : A) → All P xs → P y → All P (xs ++ y ∷ [])
All-concat P [] y h p = (p, tt)
All-concat P (x ∷ xs) y h p = (h.0, All-concat P xs y h.1 p)

length-concat {ℓ} : {A : Type ℓ} (xs : List A) (y : A) → length (xs ++ y ∷ []) ≡ length xs + 1
length-concat xs y = length-append xs (y ∷ [])

not-IsNil-concat {ℓ} : {A : Type ℓ} (xs : List A) (y : A) → ¬ IsNil (xs ++ y ∷ [])
not-IsNil-concat [] y h = h
not-IsNil-concat (x ∷ xs) y h = h

module _ (g : Rules) where
  open g use {Rule}

  -- Gazelle pairs each rule with the imports at its place. No rule to delete is nil. With imports
  -- but no sources of the library, its rule exists.
  pub record Inv (s : State g) : Type 0 where
    pub parallel : length s.rules ≡ length s.imports
    pub no_nil : All IsRule s.empty
    pub kept : IsNil s.lib_sources → IsNil s.lib_imports ⊎ IsRule s.lib_existing_rule

  pub add_rule-Inv : (r : Rule) (ii : ImportInfo) (s : State g) → Inv s → Inv (add_rule g r ii s)
  unfolding add_rule
  add_rule-Inv r ii s v = record {
    parallel = omega (arith, v.parallel, length-concat s.rules r, length-concat s.imports ii);
    no_nil = v.no_nil;
    kept = v.kept;
  }

  pub add_empty-Inv : (r : Option Rule) (s : State g) → IsRule r → Inv s → Inv (add_empty g r s)
  unfolding add_empty
  add_empty-Inv r s p v = record {
    parallel = v.parallel;
    no_nil = All-concat IsRule s.empty r v.no_nil p;
    kept = v.kept;
  }

  pub initial-Inv : (names : List Str) → Inv (initial g names)
  initial-Inv names = record { parallel = refl; no_nil = tt; kept = λ _. inl tt }

  pub if-Inv : (b : Bool) (s t : State g) → Inv s → Inv t → Inv (if b then s else t)
  if-Inv true s t v w = v
  if-Inv false s t v w = w

  module _ (c : Setting) (lookup : HtmlLookup) where
    keep_lib-Inv :
        (r : Rule) (found : Sources) (s : State g) → Inv s → Inv (keep_lib g c lookup r found s)
    unfolding keep_lib
    keep_lib-Inv r found s v = record {
      parallel = v.parallel;
      no_nil = v.no_nil;
      kept = λ _. inr tt;
    }

    keep_test-Inv :
        (r : Rule) (found : Sources) (s : State g) → Inv s → Inv (keep_test g c lookup r found s)
    unfolding keep_test
    keep_test-Inv r found s v = record { parallel = v.parallel; no_nil = v.no_nil; kept = v.kept }

    note_srcs-Inv : (found : Sources) (s : State g) → Inv s → Inv (note_srcs g c lookup found s)
    note_srcs-Inv found s v = record { parallel = v.parallel; no_nil = v.no_nil; kept = v.kept }

    emit_test-Inv :
        (r : Rule) (found : Sources) (s : State g) → Inv s → Inv (emit_test g c lookup r found s)
    unfolding emit_test
    emit_test-Inv r found s v =
        let made =
          existing_test g r found.file_infos (html_or_zero (g.name r) lookup) c.visibility in
        let added = add_rule g made (found_imports g c lookup found) s in
        let w = add_rule-Inv made (found_imports g c lookup found) s v in
        elim (Bool-cases (eq_str (g.kind r) (g.kind made))) [
          | inl e ↦ rw e w
          | inr e ↦ rw e (add_empty-Inv (some (g.new_rule (g.kind r) (g.name r))) added tt w)
        ]

    emit_existing-Inv :
        (r : Rule) (found : Sources) (s : State g)
        → Inv s
        → Inv (emit_existing g c lookup r found s)
    unfolding emit_existing
    emit_existing-Inv r found s v =
        if-Inv (is_empty found.srcs) _ _
          (add_empty-Inv (some (existing_lib g r [] c.visibility)) s tt v)
          (if-Inv (is_js_test (g.kind r)) _ _ (emit_test-Inv r found s v) (
            add_rule-Inv (existing_lib g r found.srcs c.visibility) (found_imports g c lookup found)
              s v))

    place_existing-Inv :
        (r : Rule) (found : Sources) (s : State g)
        → Inv s
        → Inv (place_existing g c lookup r found s)
    unfolding place_existing
    place_existing-Inv r found s v =
        if-Inv (not c.rule_per_file && eq_str (g.name r) c.lib_name) _ _ (keep_lib-Inv r found s v)
          (if-Inv (not c.rule_per_file && eq_str (g.name r) (lib_test_name c)) _ _
            (keep_test-Inv r found s v) (emit_existing-Inv r found s v))

    visit_existing-Inv : (r : Rule) (s : State g) → Inv s → Inv (visit_existing g c lookup r s)
    unfolding visit_existing
    visit_existing-Inv r s v =
        let found = collect c.info (g.attr_strings r (codes "srcs")) no_sources in
        if-Inv (not (is_js_library (g.kind r)) && not (is_js_test (g.kind r))) _ _ v (
          if-Inv (is_empty (g.attr_strings r (codes "srcs"))) _ _ v
            (place_existing-Inv r found (note_srcs g c lookup found s) (note_srcs-Inv found s v)))

    pub visit_all-Inv : (rs : List Rule) (s : State g) → Inv s → Inv (visit_all g c lookup rs s)
    unfolding visit_all
    visit_all-Inv [] s v = v
    visit_all-Inv (r ∷ rs) s v =
        visit_all-Inv rs (visit_existing g c lookup r s) (visit_existing-Inv r s v)

  place_file-Inv :
      (c : Setting) (filename : Str) (fi : FileInfo) (s : State g)
      → Inv s
      → Inv (place_file g c filename fi s)
  unfolding place_file
  place_file-Inv c filename fi s v = if-Inv (not (is_js fi.ext)) _ _ v (
      if-Inv fi.is_test _ _ (record { parallel = v.parallel; no_nil = v.no_nil; kept = v.kept })
        (record {
          parallel = v.parallel;
          no_nil = v.no_nil;
          kept = λ h. absurd (not-IsNil-concat s.lib_sources filename h);
        }))

  visit_file-Inv :
      (c : Setting) (filename : Str) (s : State g) → Inv s → Inv (visit_file g c filename s)
  unfolding visit_file
  visit_file-Inv c filename s v = if-Inv (contains s.existing_rule_srcs filename) _ _ v (
      if-Inv (not (c.info filename).1) _ _ v (
        if-Inv (is_unknown (c.info filename).0.ext) _ _ v
          (place_file-Inv c filename (c.info filename).0 s v)))

  pub visit_files-Inv :
      (c : Setting) (files : List Str) (s : State g) → Inv s → Inv (visit_files g c files s)
  unfolding visit_files
  visit_files-Inv c [] s v = v
  visit_files-Inv c (f ∷ fs) s v =
      visit_files-Inv c fs (visit_file g c f s) (visit_file-Inv c f s v)
