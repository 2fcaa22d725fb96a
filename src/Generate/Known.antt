-- ===== src/Generate/Known.antt =====
-- The kinds of the rules that GenerateRules adds to those of the loop over the existing rules.
use rules_closure.Prelude.{
  Bool, true, false, some, ◌≡◌, ◌⊎◌, refl, inl, inr, List, [], ◌∷◌, ◌++◌, map, Str, codes, All,
  All-append, if_rule, Option-cases,
}
use rules_closure.Path
use rules_closure.FileInfo.{FileInfo, Ext, unknown_ext, js_ext, jsx_ext, html_ext}
use rules_closure.Resolve.{is_js_library, is_js_test, ImportInfo}
use rules_closure.Gazelle.{Rules}
use rules_closure.Kinds.Generated.{
  Known, generated_kinds, js_test-Known, jsx_test-Known, test_recognised,
}
use rules_closure.Generate.Rules.{
  is_empty, set_visibility, library_kind, test_kind, names_of, generate_lib, make_test,
  generate_multi_test, html_attr, zero_info, srcs_attr, entry_points_attr, level_attr,
  visibility_attr,
}
use rules_closure.Generate.Attrs.Sets.{OfKind, set-OfKind, set_list-OfKind}
use rules_closure.Generate.State.{Reader, Setting, HtmlLookup, is_js, get_html}
use rules_closure.Generate.Run.{Args, GenerateResult, setting, generate_rules}
use rules_closure.Generate.Extension.{IsNamed, ext_text}
use rules_closure.Generate.Emit.{multi_test}
use rules_closure.Generate.Visit.{
  imports_of, after_existing, lookup_of, new_sources, new_tests, IsJs, tests-IsJs,
}
use rules_closure.Generate.PerFile.{library_of, test_of}
use rules_closure.Generate.PerFile.Result.{per_file_lem}
use rules_closure.Generate.Directory.{is_own, keep_if, own_tests, shared_tests, html_after}
use rules_closure.Generate.Directory.Adds.{dir_rules, multi_rules}
use rules_closure.Generate.Directory.Result.{dir_lem, test_rules}

-- Gazelle knows the kind with the attributes of a JavaScript rule and can load it, and the plugin
-- takes it for a library or for a test when it sees it again.
abbrev pub Recognised : Str → Type 0
Recognised kind = Known kind × ((is_js_library kind ≡ true) ⊎ (is_js_test kind ≡ true))

library-Recognised : (names : List Str) → Recognised (library_kind names)
library-Recognised names = let (k, _, l, _) = generated_kinds names in (k, inl l)

test-Recognised : (names : List Str) → Recognised (test_kind names)
test-Recognised names = let (_, k, _, l) = generated_kinds names in (k, inr l)

-- The kind that generateTest makes of a type of file.
abbrev kind_of : Ext → Str
kind_of e = codes "closure_" ++ (ext_text e ++ codes "_test")

js-Recognised : (e : Ext) → is_js e ≡ true → Recognised (kind_of e)
js-Recognised js_ext h = (js_test-Known, inr test_recognised.0)
js-Recognised jsx_ext h = (jsx_test-Known, inr test_recognised.1)
js-Recognised unknown_ext h = cc
js-Recognised html_ext h = cc

keep_if-All :
    (P : FileInfo → Type 0) (b : Bool) (fi : FileInfo) (fis : List FileInfo)
    → P fi
    → All P fis
    → All P (keep_if b fi fis)
keep_if-All P true fi fis h k = (h, k)
keep_if-All P false fi fis h k = k

own_tests-All :
    (P : FileInfo → Type 0) (c : Setting) (lookup : HtmlLookup) (fis : List FileInfo)
    → All P fis
    → All P (own_tests c lookup fis)
own_tests-All P c lookup [] h = tt
own_tests-All P c lookup (fi ∷ fis) h =
    keep_if-All P (is_own c lookup fi) fi _ h.0 (own_tests-All P c lookup fis h.1)

All-map {ℓ κ} :
    {A : Type ℓ} {B : Type κ} (P : A → Type 0) (Q : B → Type 0) (f : A → B) (xs : List A)
    → ((x : A) → P x → Q (f x))
    → All P xs
    → All Q (map f xs)
All-map P Q f [] k h = tt
All-map P Q f (x ∷ xs) k h = (k x h.0, All-map P Q f xs k h.1)

All-every {ℓ κ} :
    {A : Type ℓ} {B : Type κ} (Q : B → Type 0) (f : A → B) (xs : List A)
    → ((x : A) → Q (f x))
    → All Q (map f xs)
All-every Q f [] k = tt
All-every Q f (x ∷ xs) k = (k x, All-every Q f xs k)

module _ (g : Rules) where
  open g use {Rule, Expr}

  -- A rule of such a kind.
  abbrev pub IsKnown : Rule → Type 0
  IsKnown r = Recognised (g.kind r)

  OfKind-IsKnown : (k : Str) (r : Rule) → Recognised k → OfKind g k r → IsKnown r
  OfKind-IsKnown k r known e = rw e known

  set_visibility-OfKind :
      (k vis : Str) (r : Rule) → OfKind g k r → OfKind g k (set_visibility g vis r)
  unfolding set_visibility
  set_visibility-OfKind k vis r h =
      if_rule (OfKind g k) (is_empty vis) _ _ h (set-OfKind g k visibility_attr _ r h)

  generate_lib-IsKnown :
      (name : Str) (srcs : List Str) (vis : Str) → IsKnown (generate_lib g name srcs vis)
  unfolding generate_lib
  generate_lib-IsKnown name srcs vis =
      let k = library_kind srcs in
      OfKind-IsKnown k _ (library-Recognised srcs)
        (set_visibility-OfKind k vis _ (set_list-OfKind g k srcs_attr srcs _ (g.kind_new k name)))

  generate_multi_test-IsKnown :
      (name : Str) (fis : List FileInfo) (vis : Str) → IsKnown (generate_multi_test g name fis vis)
  unfolding generate_multi_test
  generate_multi_test-IsKnown name fis vis =
      let k = test_kind (names_of fis) in
      OfKind-IsKnown k _ (test-Recognised (names_of fis)) (
        set_visibility-OfKind k vis _ (
          set_list-OfKind g k entry_points_attr _ _ (
            set-OfKind g k level_attr _ _ (set_list-OfKind g k srcs_attr _ _ (g.kind_new k name)))))

  set_attr-IsKnown : (key : Str) (v : Expr) (r : Rule) → IsKnown r → IsKnown (g.set_attr r key v)
  set_attr-IsKnown key v r h = rw (g.kind_set r key v) h

  multi_test-IsKnown :
      (c : Setting) (lookup : HtmlLookup) (fis : List FileInfo) (html : FileInfo)
      → IsKnown (multi_test g c lookup fis html)
  multi_test-IsKnown c lookup fis html =
      let made = generate_multi_test-IsKnown _ fis c.visibility in
      if_rule IsKnown (is_empty html.path) _ _ made (set_attr-IsKnown html_attr _ _ made)

  make_test-IsKnown :
      (fi : FileInfo) (vis : Str) → IsJs fi → IsKnown (make_test g fi vis (ext_text fi.ext))
  unfolding make_test
  make_test-IsKnown fi vis js =
      let k = kind_of fi.ext in
      OfKind-IsKnown k _ (js-Recognised fi.ext js.0) (
        set_visibility-OfKind k vis _ (
          set-OfKind g k entry_points_attr _ _
            (set-OfKind g k level_attr _ _ (set-OfKind g k srcs_attr _ _ (g.kind_new k _)))))

  test_of-IsKnown :
      (c : Setting) (lookup : HtmlLookup) (fi : FileInfo)
      → IsJs fi
      → IsKnown (test_of g c lookup fi)
  test_of-IsKnown c lookup fi js =
      let made = make_test-IsKnown fi c.visibility js in
      elim (Option-cases (get_html (Path.no_ext fi.name) lookup)) [
        | inl e ↦ rw (e, test_of) made
        | inr (html, e) ↦ rw (e, test_of) (set_attr-IsKnown html_attr (g.string html.name) _ made)
      ]

  dir_rules-IsKnown :
      (c : Setting) (srcs : List Str) (iis : List ImportInfo) → All IsKnown (dir_rules g c srcs iis)
  dir_rules-IsKnown c srcs [] = tt
  dir_rules-IsKnown c [] (ii ∷ iis) = tt
  dir_rules-IsKnown c (src ∷ srcs) (ii ∷ iis) =
      (generate_lib-IsKnown c.lib_name (src ∷ srcs) c.visibility, tt)

  multi_rules-IsKnown :
      (c : Setting) (lookup : HtmlLookup) (html : FileInfo) (fis : List FileInfo)
      → All IsKnown (multi_rules g c lookup html fis)
  multi_rules-IsKnown c lookup html [] = tt
  multi_rules-IsKnown c lookup html (fi ∷ fis) = (multi_test-IsKnown c lookup (fi ∷ fis) html, tt)

  test_rules-IsKnown :
      (c : Setting) (lookup : HtmlLookup) (fis : List FileInfo)
      → All IsJs fis
      → All IsKnown (test_rules g c lookup fis)
  test_rules-IsKnown c lookup fis js =
      All-append IsKnown _ _
        (All-map IsJs IsKnown (test_of g c lookup) _ (test_of-IsKnown c lookup)
          (own_tests-All IsJs c lookup fis js))
        (multi_rules-IsKnown c lookup (html_after c lookup zero_info fis)
          (shared_tests c lookup fis))

  -- Where the types of the files are those of their names, and what the loop over the existing rules
  -- kept as tests of the directory is JavaScript, GenerateRules returns, in either mode, the rules
  -- of that loop and then only rules of kinds that Gazelle knows with the attributes of a JavaScript
  -- rule and can load, and that the plugin takes for a library or a test when it sees them again.
  pub added_rules-IsKnown :
      (info : Reader) (rule_per_file : Bool) (args : Args g)
      → IsNamed info
      → All IsJs (after_existing g info rule_per_file args).lib_test_file_infos
      → (out : GenerateResult g) × (added : List Rule) × (generate_rules g info rule_per_file args
          ≡ some out)
        × (out.gen ≡ (after_existing g info rule_per_file args).rules ++ added)
        × All IsKnown added
  added_rules-IsKnown info true args named js =
      let c = setting g info true args in
      let v = after_existing g info true args in
      let lookup = lookup_of g info args in
      (
        _,
        _,
        per_file_lem g info args named,
        refl,
        All-append IsKnown (map (library_of g c) (new_sources g info true args)) _
            (All-every IsKnown (library_of g c) _
              (λ f. generate_lib-IsKnown _ (f ∷ []) c.visibility))
            (All-map IsJs IsKnown (test_of g c lookup) _ (test_of-IsKnown c lookup)
              (tests-IsJs info v.existing_rule_srcs args.regular_files named)),
      )
  added_rules-IsKnown info false args named js =
      let c = setting g info false args in
      let v = after_existing g info false args in
      let lookup = lookup_of g info args in
      let srcs = v.lib_sources ++ new_sources g info false args in
      let iis = v.lib_imports ++ map (imports_of info) (new_sources g info false args) in
      let tsts = v.lib_test_file_infos ++ new_tests g info false args in
      let (out, e, gen, _) = dir_lem g info args named js in
      (
        out,
        dir_rules g c srcs iis ++ test_rules g c lookup tsts,
        e,
        gen,
        All-append IsKnown (dir_rules g c srcs iis) _ (dir_rules-IsKnown c srcs iis) (
            test_rules-IsKnown c lookup tsts (
              All-append IsJs v.lib_test_file_infos _ js
                (tests-IsJs info v.existing_rule_srcs args.regular_files named))),
      )
