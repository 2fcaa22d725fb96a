-- ===== src/Distinct.antt =====
-- Lists of strings with no repetition, and the linear search `contains` of
-- gazelle/closure_js/fileinfo.go.
use mathlib.Core.List.Memᴰ
use mathlib.Core.List.Memᴰ.{head, tail}
use rules_closure.Prelude.{
  Bool, true, false, ◌||◌, ◌≡◌, refl, sym, ◌↔◌, ◌⊎◌, inl, inr, List, [], ◌∷◌, ◌++◌, Memᴰ, Str,
  arith, eq_str, eq_str_iff, eq_str_refl, Bool-cases,
}

-- `contains(sl, el)`
unfoldable pub contains : List Str → Str → Bool
unfolding eq_str
contains [] el = false
contains (s ∷ sl) el = eq_str s el || contains sl el

pub contains→mem : (sl : List Str) (el : Str) → contains sl el ≡ true → Memᴰ el sl
unfolding contains
contains→mem [] el h = cc
contains→mem (s ∷ sl) el h = elim (Bool-cases (eq_str s el)) [
  | inl e ↦ head (sym ((eq_str_iff s el).0 e))
  | inr e ↦ tail (contains→mem sl el (ground arith))
]

pub mem→contains : (sl : List Str) (el : Str) → Memᴰ el sl → contains sl el ≡ true
unfolding contains
mem→contains [] el m = elim m [ ]
mem→contains (s ∷ sl) el (head e) =
    let h : eq_str s el ≡ true = rw e (eq_str_refl s) in ground arith
mem→contains (s ∷ sl) el (tail m) = ground (arith, mem→contains sl el m)

pub contains_iff : (sl : List Str) (el : Str) → (contains sl el ≡ true) ↔ Memᴰ el sl
contains_iff sl el = (contains→mem sl el, mem→contains sl el)

pub not-mem : (sl : List Str) (el : Str) → contains sl el ≡ false → ¬ Memᴰ el sl
not-mem sl el h m = cc (mem→contains sl el m)

abbrev pub Distinct : List Str → Type 0
Distinct [] = Unit
Distinct (x ∷ xs) = (¬ Memᴰ x xs) × Distinct xs

pub mem-concat : {x y : Str} (xs : List Str) → Memᴰ x (xs ++ y ∷ []) → Memᴰ x xs ⊎ (x ≡ y)
mem-concat xs m = elim (Memᴰ.append_cases xs m) [
  | inl i ↦ inl i
  | inr i ↦ inr (Memᴰ.eq_of_singleton i)
]

pub Distinct-concat :
    (xs : List Str) (y : Str) → Distinct xs → ¬ Memᴰ y xs → Distinct (xs ++ y ∷ [])
Distinct-concat [] y d n = (λ m. elim m [ ], tt)
Distinct-concat (x ∷ xs) y (h, d) n = (
  λ m. elim (mem-concat xs m) [ inl i ↦ h i | inr e ↦ n (head (sym e)) ],
  Distinct-concat xs y d (λ m. n (tail m)),
)

pub Distinct-append :
    (xs ys : List Str)
    → Distinct xs
    → Distinct ys
    → ((x : Str) → Memᴰ x xs → ¬ Memᴰ x ys)
    → Distinct (xs ++ ys)
Distinct-append [] ys dx dy apart = dy
Distinct-append (x ∷ xs) ys (h, dx) dy apart = (
  λ m. elim (Memᴰ.append_cases xs m) [ inl i ↦ h i | inr i ↦ apart x (head refl) i ],
  Distinct-append xs ys dx dy (λ z i. apart z (tail i)),
)
