-- ===== src/Path/Elements.antt =====
-- Paths as lists of elements: what Split finds in them and what Clean keeps.
use mathlib.Core.List.{reverse, reverse-cons}
use rules_closure.Prelude.{
  Bool, false, ◌||◌, ◌≡◌, refl, sym, ap, ◌∙◌, List, [], ◌∷◌, ◌++◌, Str, codes, if◌then◌else◌, ◌==◌,
  eq_str, All, append-nil, append_assoc, Bool-cases, inl, inr,
}
use rules_closure.Path.{
  slash, split, join_with, Cleaned, dot_dot, clean_step, clean_parts, cleaned, is_rooted,
}

abbrev pub NoSlash : Str → Type 0
NoSlash w = All (λ c. (c == slash) ≡ false) w

-- An element that Clean leaves alone.
pub record IsElement (w : Str) : Type 0 where
  pub no_slash : NoSlash w
  pub not_empty : eq_str w [] ≡ false
  pub not_dot : eq_str w (codes ".") ≡ false
  pub not_up : eq_str w dot_dot ≡ false

-- Each element with a separator after it.
abbrev pub under : List Str → Str
under [] = []
under (d ∷ ds) = d ++ (slash ∷ under ds)

split-some : (s : Str) → (w : Str) × (ws : List Str) × (split slash s ≡ w ∷ ws)
unfolding split
split-some [] = ([], [], refl)
split-some (c ∷ s) =
    let (w, ws, e) = split-some s in
    elim (Bool-cases (c == slash)) [
      | inl f ↦ ([], w ∷ ws, rw (split, e, f) refl)
      | inr f ↦ (c ∷ w, ws, rw (split, e, f) refl)
    ]

-- The elements of two texts with a separator between them.
pub split-append : (a s : Str) → split slash (a ++ (slash ∷ s)) ≡ split slash a ++ split slash s
unfolding split
split-append [] s = let (w, ws, e) = split-some s in rw (split, e) refl
split-append (c ∷ a) s =
    let (w, ws, e) = split-some a in
    elim (Bool-cases (c == slash)) [
      | inl f ↦ rw (split, split-append a s, e, f) refl
      | inr f ↦ rw (split, split-append a s, e, f) refl
    ]

pub split-NoSlash : (w : Str) → NoSlash w → split slash w ≡ w ∷ []
unfolding split
split-NoSlash [] h = refl
split-NoSlash (c ∷ w) h = rw (split, split-NoSlash w h.1, h.0) refl

pub split-under : (ds : List Str) → All IsElement ds → split slash (under ds) ≡ ds ++ ([] ∷ [])
unfolding split
split-under [] h = refl
split-under (d ∷ ds) h =
    split-append d (under ds) ∙ rw (split-NoSlash d h.0.no_slash, split-under ds h.1) refl

pub join-append : (ds : List Str) (f : Str) → join_with slash (ds ++ f ∷ []) ≡ under ds ++ f
unfolding join_with
join-append [] f = refl
join-append (d ∷ []) f = sym (append_assoc d (slash ∷ []) f)
join-append (d ∷ e ∷ ds) f =
    ap (λ t. d ++ (slash ∷ t)) (join-append (e ∷ ds) f)
    ∙ sym (append_assoc d (slash ∷ under (e ∷ ds)) f)

-- What Clean keeps where no element goes up.
abbrev pub kept : List Str → List Str
kept [] = []
kept (w ∷ ws) = if eq_str w [] || eq_str w (codes ".") then kept ws else w ∷ kept ws

pub kept-append : (xs ys : List Str) → kept (xs ++ ys) ≡ kept xs ++ kept ys
kept-append [] ys = refl
kept-append (x ∷ xs) ys = elim (Bool-cases (eq_str x [] || eq_str x (codes "."))) [
  | inl e ↦ rw (e, kept-append xs ys) refl
  | inr e ↦ rw (e, kept-append xs ys) refl
]

pub kept-elements : (ws : List Str) → All IsElement ws → kept ws ≡ ws
kept-elements [] h = refl
kept-elements (w ∷ ws) h = rw (h.0.not_empty, h.0.not_dot, kept-elements ws h.1) refl

reverse_step :
    (stack : List Str) (w : Str) (ws : List Str)
    → reverse (w ∷ stack) ++ ws ≡ reverse stack ++ w ∷ ws
reverse_step stack w ws =
    ap (λ l. l ++ ws) (reverse-cons w stack) ∙ append_assoc (reverse stack) (w ∷ []) ws

clean_parts-kept :
    (r : Bool) (stack ws : List Str)
    → All (λ w. eq_str w dot_dot ≡ false) ws
    → clean_parts r stack ws ≡ reverse stack ++ kept ws
unfolding clean_parts clean_step
clean_parts-kept r stack [] h = sym (append-nil (reverse stack))
clean_parts-kept r stack (w ∷ ws) h = elim (Bool-cases (eq_str w [] || eq_str w (codes "."))) [
  | inl e ↦ rw e (clean_parts-kept r stack ws h.1)
  | inr e ↦ rw (e, h.0) (clean_parts-kept r (w ∷ stack) ws h.1 ∙ reverse_step stack w (kept ws))
]

abbrev rooted_at : Bool → List Str → Cleaned
rooted_at b ws = record { rooted = b; parts = ws }

pub cleaned-kept :
    (s : Str)
    → All (λ w. eq_str w dot_dot ≡ false) (split slash s)
    → cleaned s ≡ record { rooted = is_rooted s; parts = kept (split slash s) }
unfolding cleaned
cleaned-kept s h =
    ap (rooted_at (is_rooted s)) (clean_parts-kept (is_rooted s) [] (split slash s) h)
