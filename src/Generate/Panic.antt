-- ===== src/Generate/Panic.antt =====
-- The panic of generateTest in a directory with one rule for all tests.
pub mod Run
use mathlib.Core.List.Memᴰ.{head, tail}
use rules_closure.Prelude.{
  false, Option, none, some, ◌>>=◌, ◌≡◌, ◌≢◌, ◌⊎◌, refl, inl, inr, List, [], ◌∷◌, Memᴰ, Str,
  Bool-cases, Option-cases, eq_str, eq_str_iff, ◌↔◌, eq_str-false,
}
use rules_closure.Path
use rules_closure.FileInfo.{FileInfo}
use rules_closure.Gazelle.{Rules}
use rules_closure.Generate.Rules.{
  ext_name, generate_test, generate_combined_test, is_empty, zero_info,
}
use rules_closure.Generate.State.{Setting, lib_test_name, HtmlLookup, get_html, State}
use rules_closure.Generate.Extension.{ext_name-some}
use rules_closure.Generate.Emit.{Shared, share, share_all, emit_dir_tests}

-- A test with an HTML file of its name, other than the one that is named like the directory's test,
-- and with no extension.
abbrev pub Panics : Setting → HtmlLookup → FileInfo → Type 0
Panics c lookup fi =
    ((html : FileInfo) × (get_html (Path.no_ext fi.name) lookup ≡ some html))
    × (Path.no_ext fi.name ≢ lib_test_name c)
    × (Path.ext fi.name ≡ [])

some_ne_none {ℓ} : {A : Type ℓ} (a : A) → some a ≢ none
some_ne_none a e = cc

pub bind_none {ℓ κ} :
    {A : Type ℓ} {B : Type κ} (m : Option A) (f : A → B) → (m >>= λ a. some (f a)) ≡ none → m ≡ none
bind_none none f h = refl
bind_none (some a) f h = absurd (some_ne_none (f a) h)

list_cases : (e : Str) → (e ≡ []) ⊎ (e ≢ [])
list_cases [] = inl refl
list_cases (x ∷ e) = inr (λ h. cc)

list_is : (fis : List FileInfo) → (fis ≡ []) ⊎ (is_empty fis ≡ false)
list_is [] = inl refl
list_is (fi ∷ fis) = inr refl

module _ (g : Rules) (c : Setting) (lookup : HtmlLookup) where
  combined_none :
      (fi html : FileInfo) (vis : Str)
      → Path.ext fi.name ≡ []
      → generate_combined_test g fi html vis ≡ none
  unfolding generate_combined_test generate_test ext_name
  combined_none fi html vis e = rw e

  combined_no_ext :
      (fi html : FileInfo) (vis : Str)
      → generate_combined_test g fi html vis ≡ none
      → Path.ext fi.name ≡ []
  unfolding generate_combined_test generate_test
  combined_no_ext fi html vis h = elim (list_cases (Path.ext fi.name)) [
    | inl e ↦ e
    | inr n ↦ let (e, is) = ext_name-some fi.name n in absurd (some_ne_none _ (rw is at h))
  ]

  share-none :
      (fi : FileInfo) (p : Shared g c lookup) → Panics c lookup fi → share g c lookup fi p ≡ none
  unfolding share
  share-none fi p ((html, e), ne, ext) =
      elim (Bool-cases (eq_str (Path.no_ext fi.name) (lib_test_name c))) [
        | inl f ↦ absurd (ne ((eq_str_iff _ _).0 f))
        | inr f ↦ rw (e, share, f) (rw (combined_none fi html c.visibility ext))
      ]

  share-Panics :
      (fi : FileInfo) (p : Shared g c lookup) → share g c lookup fi p ≡ none → Panics c lookup fi
  unfolding share
  share-Panics fi p h = elim (Option-cases (get_html (Path.no_ext fi.name) lookup)) [
    | inl e ↦ absurd (some_ne_none _ (rw (e, share) at h))
    | inr (html, e) ↦ elim (Bool-cases (eq_str (Path.no_ext fi.name) (lib_test_name c))) [
      | inl f ↦ absurd (some_ne_none _ (rw (e, share, f) at h))
      | inr f ↦ (
        (html, e),
        eq_str-false _ _ f,
        combined_no_ext fi html c.visibility (bind_none _ _ (rw (e, share, f) at h)),
      )
    ]
  ]

  share_cases :
      (fi : FileInfo) (p : Shared g c lookup)
      → Panics c lookup fi ⊎ ((p' : Shared g c lookup) × (share g c lookup fi p ≡ some p'))
  share_cases fi p = elim (Option-cases (share g c lookup fi p)) [
    | inl e ↦ inl (share-Panics fi p e)
    | inr h ↦ inr h
  ]

  share_all-none :
      (fis : List FileInfo) (p : Shared g c lookup) (fi : FileInfo)
      → Memᴰ fi fis
      → Panics c lookup fi
      → share_all g c lookup fis p ≡ none
  unfolding share_all
  share_all-none [] p fi m h = elim m [ ]
  share_all-none (fi' ∷ fis) p fi (head e) h = rw (share-none fi' p (rw e at h))
  share_all-none (fi' ∷ fis) p fi (tail m) h = elim (Option-cases (share g c lookup fi' p)) [
    | inl e ↦ rw e
    | inr (p', e) ↦ rw e (share_all-none fis p' fi m h)
  ]

  share_all_cases :
      (fis : List FileInfo) (p : Shared g c lookup)
      → ((fi : FileInfo) × Memᴰ fi fis × Panics c lookup fi)
        ⊎ ((p' : Shared g c lookup) × (share_all g c lookup fis p ≡ some p'))
  unfolding share_all
  share_all_cases [] p = inr (p, refl)
  share_all_cases (fi ∷ fis) p = elim (share_cases fi p) [
    | inl h ↦ inl (fi, head refl, h)
    | inr (p', e) ↦ elim (share_all_cases fis p') [
      | inl (fi', m, h) ↦ inl (fi', tail m, h)
      | inr (q, f) ↦ inr (q, rw e f)
    ]
  ]

  -- The tests of the directory that make the last loop panic.
  pub emit_dir_tests-none :
      (s : State g)
      → (emit_dir_tests g c lookup s ≡ none)
        ↔ ((fi : FileInfo) × Memᴰ fi s.lib_test_file_infos × Panics c lookup fi)
  unfolding emit_dir_tests
  emit_dir_tests-none s = elim (list_is s.lib_test_file_infos) [
    | inl e ↦ (λ h. absurd (some_ne_none _ (rw e at h)), λ (fi, m, h). elim (rw e at m) [ ])
    | inr e ↦ (
      λ h.
          elim (share_all_cases s.lib_test_file_infos
            (record { no_html = []; dir_html = zero_info; state = s })) [
              | inl found ↦ found
              | inr (p, f) ↦ absurd (some_ne_none _ (rw (e, f) at h))
            ],
      λ (fi, m, h). rw (
        e,
        share_all-none s.lib_test_file_infos
            (record { no_html = []; dir_html = zero_info; state = s }) fi m h,
      ),
    )
  ]
