-- ===== src/Generate/Total.antt =====
-- When the loops of GenerateRules return in a directory with one rule for all tests.
use mathlib.Core.List.Memᴰ.{head, tail}
use rules_closure.Prelude.{
  Bool, true, false, not, ◌&&◌, ◌||◌, Option, none, some, ◌>>=◌, ◌≡◌, ◌≢◌, refl, sym, ap, ◌∙◌, inl,
  inr, List, [], ◌∷◌, map, Memᴰ, Str, codes, Option-cases, All, All-append, if_rule, eq_str, arith,
  if_cases,
}
use rules_closure.Path
use rules_closure.FileInfo.{FileInfo, file_ext}
use rules_closure.Resolve.{is_js_library, is_js_test}
use rules_closure.Gazelle.{Rules}
use rules_closure.Generate.Rules.{ext_name, is_empty, existing_test, after_first}
use rules_closure.Generate.State.{
  Reader, Setting, lib_test_name, HtmlLookup, State, initial, add_rule, add_empty, is_js,
}
use rules_closure.Generate.Extension.{IsNamed, HasExt, ext_text, ext_name-js}
use rules_closure.Generate.Existing.{
  Sources, index_html, is_label, collect, no_sources, keep_lib, keep_test, emit_test, emit_existing,
  note_srcs, place_existing, visit_existing, visit_all, html_or_zero,
}
use rules_closure.Generate.Files.{visit_files}
use rules_closure.Generate.Emit.{
  emit_lib, emit_libraries, retire_lib, emit_dir_tests, emit_all_tests,
}
use rules_closure.Generate.Panic.{emit_dir_tests-none}
use rules_closure.Generate.Visit.{IsJs, visit_files_lem, tests, tests-IsJs, info_of, after_existing}
use rules_closure.Generate.Run.{Args, setting, rules_of, run_state}

-- A label, a file that cannot be read, or a file with an extension.
abbrev pub has_name : Reader → Str → Bool
has_name info src =
    is_label src || (not (info src).1 || not (is_empty (Path.ext (info src).0.name)))

abbrev pub AreNamed : Reader → List Str → Type 0
AreNamed info srcs = All (λ src. has_name info src ≡ true) srcs

-- The sources of the rules of a BUILD file are labels or files with an extension.
abbrev pub SourcesNamed : (g : Rules) → Reader → List g.Rule → Type 0
SourcesNamed g info rules = All (λ r. AreNamed info (g.attr_strings r (codes "srcs"))) rules

not_empty : (e : Str) → is_empty e ≡ false → e ≢ []
not_empty [] h k = cc
not_empty (c ∷ e) h k = cc

read_HasExt :
    (info : Reader) (src : Str)
    → has_name info src ≡ true
    → is_label src ≡ false
    → (info src).1 ≡ true
    → HasExt (info src).0
read_HasExt info src h l r = not_empty (Path.ext (info src).0.name) (ground arith)

collect-HasExt :
    (info : Reader) (srcs : List Str) (c : Sources)
    → AreNamed info srcs
    → All HasExt c.file_infos
    → All HasExt (collect info srcs c).file_infos
unfolding collect
collect-HasExt info [] c n h = h
collect-HasExt info (src ∷ srcs) c n h = collect-HasExt info srcs _ n.1 (
    if_cases (λ (d : Sources). All HasExt d.file_infos) (is_label src) _ _ (λ l. h)
      λ l.
        if_cases (λ (d : Sources). All HasExt d.file_infos) (info src).1 _ _
          (λ r.
            All-append HasExt c.file_infos ((info src).0 ∷ []) h (read_HasExt info src n.0 l r, tt))
          (λ r. h))

IsJs-HasExt : (fi : FileInfo) → IsJs fi → HasExt fi
unfolding ext_name
IsJs-HasExt fi (h, named) e =
    let is = ext_name-js fi.name (ap is_js (sym named) ∙ h) in
    let q : ◌≡◌ {A = Option Str} none (some (ext_text (file_ext fi.name))) =
      sym (ap after_first e) ∙ is in
    cc

All-imp {ℓ} :
    {A : Type ℓ} (P Q : A → Type 0) (xs : List A) → ((x : A) → P x → Q x) → All P xs → All Q xs
All-imp P Q [] k h = tt
All-imp P Q (x ∷ xs) k h = (k x h.0, All-imp P Q xs k h.1)

All_of {ℓ} : {A : Type ℓ} (P : A → Type 0) (xs : List A) (x : A) → All P xs → Memᴰ x xs → P x
All_of P [] x h m = elim m [ ]
All_of P (y ∷ ys) x h (head e) = rw e h.0
All_of P (y ∷ ys) x h (tail m) = All_of P ys x h.1 m

module _ (g : Rules) where
  open g use {Rule}

  abbrev TestsNamed : State g → Type 0
  TestsNamed s = All HasExt s.lib_test_file_infos

  module _ (c : Setting) (lookup : HtmlLookup) where
    emit_existing-TestsNamed :
        (r : Rule) (found : Sources) (s : State g)
        → TestsNamed s
        → TestsNamed (emit_existing g c lookup r found s)
    unfolding emit_existing emit_test add_rule add_empty
    emit_existing-TestsNamed r found s v = if_rule TestsNamed (is_empty found.srcs) _ _ v (
        if_rule TestsNamed (is_js_test (g.kind r)) _ _
          (if_rule TestsNamed
            (eq_str (g.kind r) (
              g.kind
                (existing_test g r found.file_infos (html_or_zero (g.name r) lookup) c.visibility)))
            _ _ v v)
          v)

    place_existing-TestsNamed :
        (r : Rule) (found : Sources) (s : State g)
        → All HasExt found.file_infos
        → TestsNamed s
        → TestsNamed (place_existing g c lookup r found s)
    unfolding place_existing keep_lib keep_test
    place_existing-TestsNamed r found s n v =
        if_rule TestsNamed (not c.rule_per_file && eq_str (g.name r) c.lib_name) _ _ v (
          if_rule TestsNamed (not c.rule_per_file && eq_str (g.name r) (lib_test_name c)) _ _
            (All-append HasExt s.lib_test_file_infos found.file_infos v n)
            (emit_existing-TestsNamed r found s v))

    visit_all-TestsNamed :
        (rs : List Rule) (s : State g)
        → SourcesNamed g c.info rs
        → TestsNamed s
        → TestsNamed (visit_all g c lookup rs s)
    unfolding visit_all visit_existing
    visit_all-TestsNamed [] s n v = v
    visit_all-TestsNamed (r ∷ rs) s n v =
        let srcs = g.attr_strings r (codes "srcs") in
        let found = collect c.info srcs no_sources in
        visit_all-TestsNamed rs (visit_existing g c lookup r s) n.1 (
          if_rule TestsNamed (not (is_js_library (g.kind r)) && not (is_js_test (g.kind r))) _ _ v (
            if_rule TestsNamed (is_empty srcs) _ _ v (
              place_existing-TestsNamed r found (note_srcs g c lookup found s)
                (collect-HasExt c.info srcs no_sources n.0 tt) v)))

    retire_lib-TestsNamed :
        (old : Option Rule) (made : Rule) (s : State g)
        → TestsNamed s
        → TestsNamed (retire_lib g c lookup old made s)
    unfolding retire_lib add_empty
    retire_lib-TestsNamed none made s v = v
    retire_lib-TestsNamed (some old) made s v =
        if_rule TestsNamed (eq_str (g.kind old) (g.kind made)) _ _ v v

    emit_lib-TestsNamed : (s : State g) → TestsNamed s → TestsNamed (emit_lib g c lookup s)
    unfolding emit_lib add_rule add_empty
    emit_lib-TestsNamed s v = if_rule TestsNamed (is_empty s.lib_imports) _ _ v (
        if_rule TestsNamed (is_empty s.lib_sources) _ _ v
          (retire_lib-TestsNamed s.lib_existing_rule _ _ v))

    dir_tests_total :
        (s : State g) → TestsNamed s → (out : State g) × (emit_dir_tests g c lookup s ≡ some out)
    dir_tests_total s v = elim (Option-cases (emit_dir_tests g c lookup s)) [
      | inr h ↦ h
      | inl e ↦
          let (fi, m, panics) = (emit_dir_tests-none g c lookup s).0 e in
          absurd (All_of HasExt s.lib_test_file_infos fi v m panics.2)
    ]

    dir_total :
        (s : State g)
        → c.rule_per_file ≡ false
        → TestsNamed s
        → (out : State g) × ((emit_libraries g c lookup s >>= emit_all_tests g c lookup) ≡ some out)
    unfolding emit_libraries emit_all_tests
    dir_total s p v =
        let (out, e) = dir_tests_total (emit_lib g c lookup s) (emit_lib-TestsNamed s v) in
        (out, simp p e)

  -- In a directory with one rule for all tests the loops return, where the types of the files are
  -- those of their names and the sources of the existing rules are labels or have an extension.
  pub run_state_total :
      (info : Reader) (args : Args g)
      → IsNamed info
      → SourcesNamed g info (rules_of g args.file)
      → (out : State g) × (run_state g
            (setting g info false args)
            (index_html info args.regular_files ([], []))
            (rules_of g args.file)
            args.regular_files
          ≡ some out)
  unfolding run_state
  run_state_total info args named known =
      let c = setting g info false args in
      let (lookup, names) = index_html info args.regular_files ([], []) in
      let v = after_existing g info false args in
      let tsts = tests info v.existing_rule_srcs args.regular_files in
      let old = visit_all-TestsNamed c lookup (rules_of g args.file) (initial g names) known tt in
      let new =
        All-imp IsJs HasExt (map (info_of info) tsts) IsJs-HasExt
          (tests-IsJs info v.existing_rule_srcs args.regular_files named) in
      let grown_is = visit_files_lem g c args.regular_files v in
      let (out, e) =
        dir_total c lookup (visit_files g c args.regular_files v) refl
          (rw grown_is (All-append HasExt v.lib_test_file_infos _ old new)) in
      (out, e)
