-- ===== src/Generate/Directory.antt =====
-- GenerateRules where one rule of a directory has all its libraries, and another its tests.
pub mod Adds
pub mod Result
use rules_closure.Prelude.{
  Bool, true, false, not, ◌&&◌, Option, none, some, ◌>>=◌, ◌≡◌, refl, sym, ap, ◌∙◌, inl, inr, List,
  [], ◌∷◌, ◌++◌, map, append-nil, append_assoc, Str, Bool-cases, Option-cases, All, if◌then◌else◌,
  eq_str, if_rule,
}
use rules_closure.Path
use rules_closure.FileInfo.{FileInfo}
use rules_closure.Resolve.{ImportInfo}
use rules_closure.Gazelle.{Rules}
use rules_closure.Generate.Imports.{combine_imports, file_info_imports}
use rules_closure.Generate.Rules.{
  is_empty, generate_lib, generate_combined_test, make_test, zero_info, html_attr,
}
use rules_closure.Generate.State.{
  Setting, lib_test_name, HtmlLookup, get_html, State, add_rule, add_empty,
}
use rules_closure.Generate.Extension.{ext_text}
use rules_closure.Generate.Visit.{IsJs}
use rules_closure.Generate.PerFile.{test_of, emitted, test_rule-IsJs}
use rules_closure.Generate.Emit.{
  emit_lib, retire_lib, retire_test, Shared, share, share_all, multi_test, emit_shared,
  emit_dir_tests, test_rule,
}

abbrev pub is_some {ℓ} : {A : Type ℓ} → Option A → Bool
is_some none = false
is_some (some a) = true

-- A test that has a rule of its own: there is an HTML file of its name, and it is not named like the
-- directory's test.
abbrev pub is_own : Setting → HtmlLookup → FileInfo → Bool
is_own c lookup fi =
    is_some (get_html (Path.no_ext fi.name) lookup)
    && not (eq_str (Path.no_ext fi.name) (lib_test_name c))

abbrev pub keep_if : Bool → FileInfo → List FileInfo → List FileInfo
keep_if true fi fis = fi ∷ fis
keep_if false fi fis = fis

abbrev pub own_tests : Setting → HtmlLookup → List FileInfo → List FileInfo
own_tests c lookup [] = []
own_tests c lookup (fi ∷ fis) = keep_if (is_own c lookup fi) fi (own_tests c lookup fis)

abbrev pub shared_tests : Setting → HtmlLookup → List FileInfo → List FileInfo
shared_tests c lookup [] = []
shared_tests c lookup (fi ∷ fis) = keep_if (not (is_own c lookup fi)) fi (shared_tests c lookup fis)

-- The HTML file of the last test that is named like the directory's test and has one.
abbrev pub html_after : Setting → HtmlLookup → FileInfo → List FileInfo → FileInfo
html_after c lookup html [] = html
html_after c lookup html (fi ∷ fis) =
    html_after c lookup
      (elim (get_html (Path.no_ext fi.name) lookup) as (λ _. FileInfo) [
        | none ↦ html
        | some h ↦ if eq_str (Path.no_ext fi.name) (lib_test_name c) then h else html
      ])
      fis

module _ (g : Rules) (c : Setting) (lookup : HtmlLookup) where
  open g use {Rule}

  abbrev pub own_imports : FileInfo → ImportInfo
  own_imports fi = file_info_imports (fi ∷ [])

  abbrev pub sharing : List FileInfo → Shared g c lookup → Shared g c lookup
  sharing fis p = record {
    no_html = p.no_html ++ shared_tests c lookup fis;
    dir_html = html_after c lookup p.dir_html fis;
    state =
        emitted g (map (test_of g c lookup) (own_tests c lookup fis))
          (map own_imports (own_tests c lookup fis)) p.state;
  }

  combined-IsJs :
      (fi html : FileInfo)
      → IsJs fi
      → get_html (Path.no_ext fi.name) lookup ≡ some html
      → generate_combined_test g fi html c.visibility ≡ some (test_of g c lookup fi)
  combined-IsJs fi html js e = rw (e, test_rule) at (test_rule-IsJs g c lookup fi js)

  share_lem :
      (fi : FileInfo) (p : Shared g c lookup)
      → IsJs fi
      → share g c lookup fi p ≡ some (sharing (fi ∷ []) p)
  unfolding share add_rule
  share_lem fi p js = elim (Option-cases (get_html (Path.no_ext fi.name) lookup)) [
    | inl e ↦ rw (e, share, html_after, append-nil p.state.rules, append-nil p.state.imports) refl
    | inr (html, e) ↦ elim (Bool-cases (eq_str (Path.no_ext fi.name) (lib_test_name c))) [
      | inl f ↦
          rw (e, share, html_after, f, append-nil p.state.rules, append-nil p.state.imports) refl
      | inr f ↦
          rw (e, share, html_after, f, append-nil p.no_html)
            (ap (λ o. o >>= λ r. some (record p { state = add_rule g r (own_imports fi) p.state }))
              (combined-IsJs fi html js e))
    ]
  ]

  sharing-sharing :
      (fi : FileInfo) (fis : List FileInfo) (p : Shared g c lookup)
      → sharing fis (sharing (fi ∷ []) p) ≡ sharing (fi ∷ fis) p
  sharing-sharing fi fis p = elim (Bool-cases (is_own c lookup fi)) [
    | inl e ↦ simp (e, append-nil, append_assoc) refl
    | inr e ↦ simp (e, append-nil, append_assoc) refl
  ]

  pub share_all_lem :
      (fis : List FileInfo) (p : Shared g c lookup)
      → All IsJs fis
      → share_all g c lookup fis p ≡ some (sharing fis p)
  unfolding share_all
  share_all_lem [] p js = ap some (sym (simp append-nil refl))
  share_all_lem (fi ∷ fis) p js =
      ap (λ o. o >>= share_all g c lookup fis) (share_lem fi p js.0)
      ∙ share_all_lem fis (sharing (fi ∷ []) p) js.1
      ∙ ap some (sharing-sharing fi fis p)
