-- ===== src/Generate/Visit.antt =====
-- The loop over the files of the directory: which of them become sources of libraries, and which
-- become tests.
use mathlib.Core.List.{map-append}
use rules_closure.Generate.Run.{Args, setting, rules_of}
use rules_closure.Generate.Existing.{index_html, visit_all}
use rules_closure.Prelude.{
  Bool, true, false, not, ◌&&◌, ◌≡◌, refl, sym, List, [], ◌∷◌, ◌++◌, map, append-nil, Str,
  Bool-cases, inl, inr, ap, ◌∙◌, append_assoc, All, All-append, arith,
}
use rules_closure.Distinct.{contains}
use rules_closure.FileInfo.{FileInfo, Ext, unknown_ext, js_ext, jsx_ext, html_ext, file_ext}
use rules_closure.Resolve.{ImportInfo}
use rules_closure.Gazelle.{Rules}
use rules_closure.Generate.Imports.{new_import_info}
use rules_closure.Generate.State.{Reader, Setting, State, is_js, HtmlLookup, initial}
use rules_closure.Generate.Files.{is_unknown, place_file, visit_file, visit_files}
use rules_closure.Generate.Extension.{IsNamed}

-- A file that no rule accounts for, that can be read, and that is JavaScript.
abbrev pub is_new : Reader → List Str → Str → Bool
is_new info covered f = not (contains covered f) && ((info f).1 && is_js (info f).0.ext)

abbrev pub pick : Bool → Str → List Str
pick true f = f ∷ []
pick false f = []

abbrev pub sources : Reader → List Str → List Str → List Str
sources info covered [] = []
sources info covered (f ∷ fs) =
    pick (is_new info covered f && not (info f).0.is_test) f ++ sources info covered fs

abbrev pub tests : Reader → List Str → List Str → List Str
tests info covered [] = []
tests info covered (f ∷ fs) =
    pick (is_new info covered f && (info f).0.is_test) f ++ tests info covered fs

not_js : (e : Ext) → is_unknown e ≡ true → is_js e ≡ false
not_js unknown_ext h = refl
not_js js_ext h = cc
not_js jsx_ext h = cc
not_js html_ext h = cc

abbrev pub imports_of : Reader → Str → ImportInfo
imports_of info f = new_import_info (info f).0

abbrev pub info_of : Reader → Str → FileInfo
info_of info f = (info f).0

-- JavaScript by its name.
abbrev pub IsJs : FileInfo → Type 0
IsJs fi = (is_js fi.ext ≡ true) × (fi.ext ≡ file_ext fi.name)

pick-IsJs :
    (info : Reader) (b t : Bool) (f : Str)
    → IsNamed info
    → (b ≡ true → is_js (info f).0.ext ≡ true)
    → All (λ f'. IsJs (info f').0) (pick (b && t) f)
pick-IsJs info false t f named h = tt
pick-IsJs info true true f named h = ((h refl, named f), tt)
pick-IsJs info true false f named h = tt

new_js :
    (info : Reader) (covered : List Str) (f : Str)
    → is_new info covered f ≡ true
    → is_js (info f).0.ext ≡ true
new_js info covered f h = ground arith

All-map {ℓ κ} :
    {A : Type ℓ} {B : Type κ} (P : B → Type 0) (h : A → B) (xs : List A)
    → All (λ x. P (h x)) xs
    → All P (map h xs)
All-map P h [] k = tt
All-map P h (x ∷ xs) k = (k.0, All-map P h xs k.1)

-- The files that become tests are JavaScript.
tests-All :
    (info : Reader) (covered files : List Str)
    → IsNamed info
    → All (λ f. IsJs (info f).0) (tests info covered files)
tests-All info covered [] named = tt
tests-All info covered (f ∷ fs) named =
    All-append (λ f'. IsJs (info f').0) (pick (is_new info covered f && (info f).0.is_test) f)
      (tests info covered fs)
      (pick-IsJs info (is_new info covered f) (info f).0.is_test f named (new_js info covered f))
      (tests-All info covered fs named)

pub tests-IsJs :
    (info : Reader) (covered files : List Str)
    → IsNamed info
    → All IsJs (map (info_of info) (tests info covered files))
tests-IsJs info covered files named =
    All-map IsJs (info_of info) (tests info covered files) (tests-All info covered files named)

module _ (g : Rules) where
  open g use {Rule}

  abbrev pub grown : Reader → List Str → List Str → State g → State g
  grown info srcs tsts s = record s {
    lib_sources = s.lib_sources ++ srcs;
    lib_imports = s.lib_imports ++ map (imports_of info) srcs;
    lib_test_file_infos = s.lib_test_file_infos ++ map (info_of info) tsts;
  }

  grown-nil : (info : Reader) (s : State g) → s ≡ grown info [] [] s
  grown-nil info s = sym (simp append-nil refl)

  visit_file_lem :
      (c : Setting) (f : Str) (s : State g)
      → visit_file g c f s
        ≡ grown c.info
            (pick (is_new c.info s.existing_rule_srcs f && not (c.info f).0.is_test) f)
            (pick (is_new c.info s.existing_rule_srcs f && (c.info f).0.is_test) f)
            s
  unfolding visit_file place_file
  visit_file_lem c f s = elim (Bool-cases (contains s.existing_rule_srcs f)) [
    | inl e ↦ rw e (grown-nil c.info s)
    | inr e ↦ elim (Bool-cases (c.info f).1) [
      | inr r ↦ rw (e, r) (grown-nil c.info s)
      | inl r ↦ elim (Bool-cases (is_unknown (c.info f).0.ext)) [
        | inl u ↦ rw (e, r, u, not_js (c.info f).0.ext u) (grown-nil c.info s)
        | inr u ↦ elim (Bool-cases (is_js (c.info f).0.ext)) [
          | inr j ↦ rw (e, r, u, j) (grown-nil c.info s)
          | inl j ↦ elim (Bool-cases (c.info f).0.is_test) [
            | inl t ↦ simp (e, r, u, j, t, append-nil) refl
            | inr t ↦ simp (e, r, u, j, t, append-nil) refl
          ]
        ]
      ]
    ]
  ]

  grown-grown :
      (info : Reader) (p q a b : List Str) (s : State g)
      → grown info a b (grown info p q s) ≡ grown info (p ++ a) (q ++ b) s
  grown-grown info p q a b s = simp (append_assoc, map-append) refl

  pub visit_files_lem :
      (c : Setting) (files : List Str) (s : State g)
      → visit_files g c files s
        ≡ grown c.info
            (sources c.info s.existing_rule_srcs files)
            (tests c.info s.existing_rule_srcs files)
            s
  unfolding visit_files
  visit_files_lem c [] s = grown-nil c.info s
  visit_files_lem c (f ∷ fs) s =
      let step = visit_file_lem c f s in
      ap (visit_files g c fs) step
      ∙ visit_files_lem c fs (
          grown c.info (pick (is_new c.info s.existing_rule_srcs f && not (c.info f).0.is_test) f)
            (pick (is_new c.info s.existing_rule_srcs f && (c.info f).0.is_test) f) s)
      ∙ grown-grown c.info _ _ _ _ s

  -- The state after the loop over the existing rules, which the other loops extend.
  abbrev pub after_existing : Reader → Bool → Args g → State g
  after_existing info rule_per_file args =
      let (lookup, names) = index_html info args.regular_files ([], []) in
      visit_all g (setting g info rule_per_file args) lookup (rules_of g args.file)
        (initial g names)

  abbrev pub lookup_of : Reader → Args g → HtmlLookup
  lookup_of info args = (index_html info args.regular_files ([], [])).0

  -- The files that become libraries, and those that become tests.
  abbrev pub new_sources : Reader → Bool → Args g → List Str
  new_sources info rule_per_file args =
      sources info (after_existing info rule_per_file args).existing_rule_srcs args.regular_files

  abbrev pub new_tests : Reader → Bool → Args g → List FileInfo
  new_tests info rule_per_file args =
      map (info_of info)
        (tests info (after_existing info rule_per_file args).existing_rule_srcs args.regular_files)
