-- ===== src/FileInfo/Named.antt =====
-- What fileNameInfo takes for a test.
use mathlib.Core.List.{reverse-append}
use rules_closure.Prelude.{
  ℕ, Bool, true, false, ◌&&◌, ◌≡◌, ◌↔◌, refl, sym, ap, ◌∙◌, List, [], ◌∷◌, ◌++◌, Str, codes, arith,
  Bool-cases, ◌⊎◌, inl, inr, ==_iff, eq_str, eq_str_iff, eq_str_refl, has_suffix, has_suffix_iff,
  length, leb, if◌then◌else◌, ◌==◌,
}
use rules_closure.Path
use rules_closure.FileInfo.{last_is, name_is_test, file_name_info}

-- What a byte does to the parts of the text behind it.
abbrev push : ℕ → List Str → List Str
push c [] = []
push c (w ∷ ws) = if c == b'_' then [] ∷ w ∷ ws else (c ∷ w) ∷ ws

push_lem :
    (c : ℕ) (parts : List Str)
    → (elim parts as (λ _. List Str) [
      | [] ↦ []
      | w ∷ ws ↦ if c == b'_' then [] ∷ w ∷ ws else (c ∷ w) ∷ ws
    ])
      ≡ push c parts
push_lem c [] = refl
push_lem c (w ∷ ws) = refl

split-push : (c : ℕ) (s : Str) → Path.split b'_' (c ∷ s) ≡ push c (Path.split b'_' s)
unfolding Path.split
split-push c s = push_lem c (Path.split b'_' s)

split_some : (s : Str) → (w : Str) × (ws : List Str) × (Path.split b'_' s ≡ w ∷ ws)
unfolding Path.split
split_some [] = ([], [], refl)
split_some (c ∷ s) =
    let (w, ws, e) = split_some s in
    elim (Bool-cases (c == b'_')) [
      | inl h ↦ ([], w ∷ ws, split-push c s ∙ rw (e, h) refl)
      | inr h ↦ (c ∷ w, ws, split-push c s ∙ rw (e, h) refl)
    ]

push-append :
    (c : ℕ) (w : Str) (ws : List Str) (u : Str)
    → push c (w ∷ ws ++ u ∷ []) ≡ push c (w ∷ ws) ++ u ∷ []
push-append c w ws u = elim (Bool-cases (c == b'_')) [ inl h ↦ rw h refl | inr h ↦ rw h refl ]

split-step :
    (c : ℕ) (s t u : Str)
    → Path.split b'_' s ≡ Path.split b'_' t ++ u ∷ []
    → Path.split b'_' (c ∷ s) ≡ Path.split b'_' (c ∷ t) ++ u ∷ []
split-step c s t u e =
    let (w, ws, f) = split_some t in
    split-push c s
    ∙ ap (push c) (e ∙ ap (λ xs. xs ++ u ∷ []) f)
    ∙ push-append c w ws u
    ∙ ap (λ xs. push c xs ++ u ∷ []) (sym f)
    ∙ ap (λ xs. xs ++ u ∷ []) (sym (split-push c t))

split_test :
    (t : Str) → Path.split b'_' (t ++ codes "_test") ≡ Path.split b'_' t ++ codes "test" ∷ []
unfolding Path.split
split_test [] = refl
split_test (c ∷ t) = split-step c (t ++ codes "_test") t (codes "test") (split_test t)

-- A text has one part, or a last one behind a separator.
split_last :
    (s : Str)
    → (Path.split b'_' s ≡ s ∷ [])
      ⊎ ((t : Str) × (u : Str) × (s ≡ t ++ b'_' ∷ u)
          × (Path.split b'_' s ≡ Path.split b'_' t ++ u ∷ []))
unfolding Path.split
split_last [] = inl refl
split_last (c ∷ s) = elim (split_last s) [
  | inr (t, u, e, f) ↦ inr (c ∷ t, u, ap (λ r. c ∷ r) e, split-step c s t u f)
  | inl e ↦ elim (Bool-cases (c == b'_')) [
    | inl h ↦ inr ([], s, ap (λ b. b ∷ s) ((==_iff c b'_').0 h), split-push c s ∙ rw (e, h) refl)
    | inr h ↦ inl (split-push c s ∙ rw (e, h) refl)
  ]
]

last_is-concat : (w : Str) (xs : List Str) (u : Str) → last_is w (xs ++ u ∷ []) ≡ eq_str u w
last_is-concat w xs u = rw (last_is, reverse-append xs (u ∷ [])) refl

two_parts : (w : Str) (ws : List Str) (u : Str) → leb 2 (length (w ∷ ws ++ u ∷ [])) ≡ true
two_parts w [] u = refl
two_parts w (v ∷ vs) u = ground arith

and_right : (a b : Bool) → (a && b) ≡ true → b ≡ true
and_right true b h = h
and_right false b h = cc

test→suffix :
    (s : Str)
    → (leb 2 (length (Path.split b'_' s)) && last_is (codes "test") (Path.split b'_' s)) ≡ true
    → has_suffix s (codes "_test") ≡ true
test→suffix s h = elim (split_last s) [
  | inl e ↦
      let q : false ≡ true =
        sym (ap (λ xs. leb 2 (length xs) && last_is (codes "test") xs) e) ∙ h in
      cc
  | inr (t, u, e, f) ↦
      let l = and_right _ (last_is (codes "test") (Path.split b'_' s)) h in
      let q =
        sym (last_is-concat (codes "test") (Path.split b'_' t) u)
        ∙ ap (last_is (codes "test")) (sym f)
        ∙ l in
      let is = (eq_str_iff u (codes "test")).0 q in
      (has_suffix_iff s (codes "_test")).1 (t, e ∙ ap (λ v. t ++ b'_' ∷ v) is)
]

suffix→test :
    (s : Str)
    → has_suffix s (codes "_test") ≡ true
    → (leb 2 (length (Path.split b'_' s)) && last_is (codes "test") (Path.split b'_' s)) ≡ true
suffix→test s h =
    let (t, e) = (has_suffix_iff s (codes "_test")).0 h in
    let (w, ws, f) = split_some t in
    let parts : Path.split b'_' s ≡ w ∷ ws ++ codes "test" ∷ [] =
      ap (Path.split b'_') e ∙ split_test t ∙ ap (λ xs. xs ++ codes "test" ∷ []) f in
    rw (parts, two_parts w ws (codes "test"))
      (last_is-concat (codes "test") (w ∷ ws) (codes "test") ∙ eq_str_refl (codes "test"))

-- A file is a test exactly when its name without the extension ends in `_test`.
pub file_name_info-is_test :
    (path : Str)
    → ((file_name_info path).is_test ≡ true)
      ↔ (has_suffix (Path.no_ext (Path.base path)) (codes "_test") ≡ true)
unfolding file_name_info name_is_test
file_name_info-is_test path =
    (test→suffix (Path.no_ext (Path.base path)), suffix→test (Path.no_ext (Path.base path)))
