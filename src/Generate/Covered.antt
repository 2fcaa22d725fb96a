-- ===== src/Generate/Covered.antt =====
-- The rules in which the files that GenerateRules takes up end.
use mathlib.Core.List.Memᴰ
use mathlib.Core.List.Memᴰ.{head, tail}
use rules_closure.Prelude.{
  Bool, true, false, not, ◌&&◌, some, ◌≡◌, refl, sym, ◌⊎◌, inl, inr, List, [], ◌∷◌, ◌++◌, map, Memᴰ,
  Str, Bool-cases, All,
}
use rules_closure.FileInfo.{FileInfo}
use rules_closure.Resolve.{ImportInfo}
use rules_closure.Gazelle.{Rules}
use rules_closure.Generate.Rules.{generate_lib, zero_info}
use rules_closure.Generate.State.{Reader, Setting, HtmlLookup}
use rules_closure.Generate.Run.{Args, GenerateResult, setting, generate_rules}
use rules_closure.Generate.Extension.{IsNamed}
use rules_closure.Generate.Visit.{
  is_new, pick, sources, tests, imports_of, info_of, after_existing, lookup_of, new_sources,
  new_tests, IsJs,
}
use rules_closure.Generate.PerFile.{library_of, test_of}
use rules_closure.Generate.PerFile.Result.{per_file_lem}
use rules_closure.Generate.Emit.{multi_test}
use rules_closure.Generate.Directory.{is_own, own_tests, shared_tests, keep_if, html_after}
use rules_closure.Generate.Directory.Adds.{dir_rules, multi_rules}
use rules_closure.Generate.Directory.Result.{dir_lem, test_rules}

pick-true : (b : Bool) (f : Str) → b ≡ true → Memᴰ f (pick b f)
pick-true true f h = head refl
pick-true false f h = cc

-- A file that is taken up is a source or a test.
taken :
    (info : Reader) (covered files : List Str) (f : Str)
    → Memᴰ f files
    → is_new info covered f ≡ true
    → Memᴰ f (sources info covered files) ⊎ Memᴰ f (tests info covered files)
taken info covered [] f m n = elim m [ ]
taken info covered (f' ∷ fs) f (head e) n = rw (sym e) (elim (Bool-cases (info f).0.is_test) [
  | inl t ↦ inr (
      Memᴰ.append_left _
        (pick-true (is_new info covered f && (info f).0.is_test) f (rw (n, t) refl)))
  | inr t ↦ inl (
      Memᴰ.append_left _
        (pick-true (is_new info covered f && not (info f).0.is_test) f (rw (n, t) refl)))
])
taken info covered (f' ∷ fs) f (tail m) n = elim (taken info covered fs f m n) [
  | inl i ↦ inl (Memᴰ.append_right _ i)
  | inr i ↦ inr (Memᴰ.append_right _ i)
]

keep_if-tail :
    (b : Bool) (x fi : FileInfo) (fis : List FileInfo) → Memᴰ fi fis → Memᴰ fi (keep_if b x fis)
keep_if-tail true x fi fis m = tail m
keep_if-tail false x fi fis m = m

keep_if-head : (b : Bool) (x : FileInfo) (fis : List FileInfo) → b ≡ true → Memᴰ x (keep_if b x fis)
keep_if-head true x fis h = head refl
keep_if-head false x fis h = cc

-- A test has a rule of its own or shares one.
own_or_shared :
    (c : Setting) (lookup : HtmlLookup) (fi : FileInfo) (fis : List FileInfo)
    → Memᴰ fi fis
    → Memᴰ fi (own_tests c lookup fis) ⊎ Memᴰ fi (shared_tests c lookup fis)
own_or_shared c lookup fi [] m = elim m [ ]
own_or_shared c lookup fi (x ∷ fis) (head e) = rw (sym e) (elim (Bool-cases (is_own c lookup fi)) [
  | inl t ↦ inl (keep_if-head (is_own c lookup fi) fi _ t)
  | inr t ↦ inr (keep_if-head (not (is_own c lookup fi)) fi _ (rw t refl))
])
own_or_shared c lookup fi (x ∷ fis) (tail m) = elim (own_or_shared c lookup fi fis m) [
  | inl i ↦ inl (keep_if-tail (is_own c lookup x) x fi _ i)
  | inr i ↦ inr (keep_if-tail (not (is_own c lookup x)) x fi _ i)
]

module _ (g : Rules) where
  open g use {Rule}

  dir_rules-mem :
      (c : Setting) (srcs : List Str) (iis : List ImportInfo) (f : Str) (ii : ImportInfo)
      → Memᴰ f srcs
      → Memᴰ ii iis
      → Memᴰ (generate_lib g c.lib_name srcs c.visibility) (dir_rules g c srcs iis)
  dir_rules-mem c [] iis f ii m n = elim m [ ]
  dir_rules-mem c (src ∷ srcs) [] f ii m n = elim n [ ]
  dir_rules-mem c (src ∷ srcs) (ii' ∷ iis) f ii m n = head refl

  multi_rules-mem :
      (c : Setting) (lookup : HtmlLookup) (html fi : FileInfo) (fis : List FileInfo)
      → Memᴰ fi fis
      → Memᴰ (multi_test g c lookup fis html) (multi_rules g c lookup html fis)
  multi_rules-mem c lookup html fi [] m = elim m [ ]
  multi_rules-mem c lookup html fi (fi' ∷ fis) m = head refl

  -- Where a file of a directory has come to.
  abbrev pub InLibrary : Setting → Str → List Rule → Type 0
  InLibrary c f rs =
      (srcs : List Str) × Memᴰ f srcs × Memᴰ (generate_lib g c.lib_name srcs c.visibility) rs

  abbrev pub InTest : Setting → HtmlLookup → FileInfo → List Rule → Type 0
  InTest c lookup fi rs =
      Memᴰ (test_of g c lookup fi) rs
      ⊎ ((fis : List FileInfo) × (html : FileInfo) × Memᴰ fi fis
          × Memᴰ (multi_test g c lookup fis html) rs)

  -- Where each file has a rule, and the types of the files are those of their names, each JavaScript
  -- file of the directory that can be read and that no existing rule accounts for gets a library or
  -- a test of its own.
  pub per_file_covers :
      (info : Reader) (args : Args g) (f : Str)
      → IsNamed info
      → Memᴰ f args.regular_files
      → is_new info (after_existing g info true args).existing_rule_srcs f ≡ true
      → let c = setting g info true args in
        (out : GenerateResult g) × (generate_rules g info true args ≡ some out)
        × (Memᴰ (library_of g c f) out.gen
            ⊎ Memᴰ (test_of g c (lookup_of g info args) (info f).0) out.gen)
  per_file_covers info args f named m n =
      let c = setting g info true args in
      let v = after_existing g info true args in
      let srcs = new_sources g info true args in
      (
        _,
        per_file_lem g info args named,
        elim (taken info v.existing_rule_srcs args.regular_files f m n) [
          | inl i ↦
              inl (Memᴰ.append_right v.rules (Memᴰ.append_left _ (Memᴰ.map (library_of g c) i)))
          | inr i ↦ inr (
              Memᴰ.append_right v.rules (
                Memᴰ.append_right (map (library_of g c) srcs)
                  (Memᴰ.map (test_of g c (lookup_of g info args)) (Memᴰ.map (info_of info) i))))
        ],
      )

  test_rules-mem :
      (c : Setting) (lookup : HtmlLookup) (fi : FileInfo) (fis : List FileInfo)
      → Memᴰ fi fis
      → InTest c lookup fi (test_rules g c lookup fis)
  test_rules-mem c lookup fi fis m = elim (own_or_shared c lookup fi fis m) [
    | inl i ↦ inl (Memᴰ.append_left _ (Memᴰ.map (test_of g c lookup) i))
    | inr i ↦ inr (
      shared_tests c lookup fis,
      html_after c lookup zero_info fis,
      i,
      Memᴰ.append_right (map (test_of g c lookup) (own_tests c lookup fis))
          (multi_rules-mem c lookup (html_after c lookup zero_info fis) fi _ i),
    )
  ]

  InTest-append :
      (c : Setting) (lookup : HtmlLookup) (fi : FileInfo) (rs rs' : List Rule)
      → InTest c lookup fi rs'
      → InTest c lookup fi (rs ++ rs')
  InTest-append c lookup fi rs rs' (inl i) = inl (Memᴰ.append_right rs i)
  InTest-append c lookup fi rs rs' (inr (fis, html, i, j)) =
      inr (fis, html, i, Memᴰ.append_right rs j)

  -- Where a directory has one rule for its libraries and one for its tests, the types of the files
  -- are those of their names, and what the loop over the existing rules kept as tests of the
  -- directory is JavaScript, each JavaScript file of the directory that can be read and that no
  -- existing rule accounts for becomes a source of the library of the directory, or has a test of
  -- its own, or is one of the files of the test of the directory.
  pub dir_covers :
      (info : Reader) (args : Args g) (f : Str)
      → IsNamed info
      → All IsJs (after_existing g info false args).lib_test_file_infos
      → Memᴰ f args.regular_files
      → is_new info (after_existing g info false args).existing_rule_srcs f ≡ true
      → let c = setting g info false args in
        (out : GenerateResult g) × (generate_rules g info false args ≡ some out)
        × (InLibrary c f out.gen ⊎ InTest c (lookup_of g info args) (info f).0 out.gen)
  dir_covers info args f named js m n =
      let c = setting g info false args in
      let v = after_existing g info false args in
      let srcs = v.lib_sources ++ new_sources g info false args in
      let iis = v.lib_imports ++ map (imports_of info) (new_sources g info false args) in
      let tsts = v.lib_test_file_infos ++ new_tests g info false args in
      let (out, e, gen, _) = dir_lem g info args named js in
      (
        out,
        e,
        rw gen (elim (taken info v.existing_rule_srcs args.regular_files f m n) [
          | inl i ↦
              let k = Memᴰ.append_right v.lib_sources i in
              inl (
                srcs,
                k,
                Memᴰ.append_right v.rules (
                    Memᴰ.append_left _ (
                      dir_rules-mem c srcs iis f _ k
                        (Memᴰ.append_right v.lib_imports (Memᴰ.map (imports_of info) i)))),
              )
          | inr i ↦ inr (
              InTest-append c (lookup_of g info args) _ v.rules _ (
                InTest-append c (lookup_of g info args) _ (dir_rules g c srcs iis) _ (
                  test_rules-mem c (lookup_of g info args) _ tsts
                    (Memᴰ.append_right v.lib_test_file_infos (Memᴰ.map (info_of info) i)))))
        ]),
      )
