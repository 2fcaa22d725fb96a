-- ===== src/Prelude/Text.antt =====
-- Go strings and byte slices: lists of bytes, with the functions of package strings that the
-- sources call.
use Prim.Native.Nat.{ℕ}
use Prim.Native.Char.{code}
use Prim.Native.String.{String}
use mathlib.Core.Path.{◌≡◌, refl, ap}
use mathlib.Core.Logic.{◌≢◌, ◌↔◌, inl, inr}
use mathlib.Core.Bool.{Bool, true, false, ◌&&◌, ◌||◌}
use mathlib.Core.List.{List, [], ◌∷◌, ◌++◌}
use native.Mathlib.Omega.{arith}
use rules_closure.Prelude.Tests.{◌==◌, if◌then◌else◌, Bool-cases}
use rules_closure.Prelude.Lists.{length, drop}

abbrev pub Str : Type 0
Str = List ℕ

-- The bytes of a literal; every literal of the development is ASCII.
abbrev pub codes : String → Str
codes String.[] = []
codes (String.◌∷◌ c s) = code c ∷ codes s

-- `a == b` on strings.
unfoldable pub eq_str : Str → Str → Bool
eq_str [] [] = true
eq_str (x ∷ xs) (y ∷ ys) = x == y && eq_str xs ys
eq_str _ _ = false

pub eq_str_iff : (a b : Str) → (eq_str a b ≡ true) ↔ (a ≡ b)
unfolding eq_str
eq_str_iff (x ∷ a) (y ∷ b) = ground (arith, eq_str_iff a b)
eq_str_iff _ _ = ground arith

pub eq_str_refl : (a : Str) → eq_str a a ≡ true
eq_str_refl a = (eq_str_iff a a).1 refl

pub eq_str_of_ne : (a b : Str) → a ≢ b → eq_str a b ≡ false
eq_str_of_ne a b n = elim (Bool-cases (eq_str a b)) [
  | inl e ↦ absurd (n ((eq_str_iff a b).0 e))
  | inr e ↦ e
]

pub eq_str-false : (a b : Str) → eq_str a b ≡ false → a ≢ b
eq_str-false a b h e = let same : eq_str a b ≡ true = (eq_str_iff a b).1 e in cc

-- strings.HasPrefix(s, p)
unfoldable pub has_prefix : Str → Str → Bool
has_prefix s [] = true
has_prefix [] (y ∷ p) = false
has_prefix (x ∷ s) (y ∷ p) = x == y && has_prefix s p

pub has_prefix_iff : (s p : Str) → (has_prefix s p ≡ true) ↔ ((t : Str) × (s ≡ p ++ t))
unfolding has_prefix
has_prefix_iff s [] = (λ _. (s, refl), λ _. refl)
has_prefix_iff [] (y ∷ p) = ground arith
has_prefix_iff (x ∷ s) (y ∷ p) = (
  λ h. let (t, e) = (has_prefix_iff s p).0 (ground arith) in (t, ground arith),
  λ (t, e). let tails : s ≡ p ++ t = cc in ground (arith, (has_prefix_iff s p).1 (t, tails)),
)

pub has_prefix-append : (p t : Str) → has_prefix (p ++ t) p ≡ true
has_prefix-append p t = (has_prefix_iff (p ++ t) p).1 (t, refl)

-- strings.HasSuffix(s, p)
unfoldable pub has_suffix : Str → Str → Bool
unfolding eq_str
has_suffix [] p = eq_str [] p
has_suffix (x ∷ s) p = eq_str (x ∷ s) p || has_suffix s p

has_suffix-append : (t p : Str) → has_suffix (t ++ p) p ≡ true
unfolding has_suffix
has_suffix-append [] [] = refl
has_suffix-append [] (y ∷ p) = ground (arith, eq_str_refl (y ∷ p))
has_suffix-append (x ∷ t) p = ground (arith, has_suffix-append t p)

has_suffix→append : (s p : Str) → has_suffix s p ≡ true → (t : Str) × (s ≡ t ++ p)
unfolding has_suffix
has_suffix→append [] p h = ([], (eq_str_iff [] p).0 h)
has_suffix→append (x ∷ s) p h = elim (Bool-cases (eq_str (x ∷ s) p)) [
  | inl e ↦ ([], (eq_str_iff (x ∷ s) p).0 e)
  | inr e ↦ let (t, q) = has_suffix→append s p (ground arith) in (x ∷ t, ap (◌∷◌ x) q)
]

pub has_suffix_iff : (s p : Str) → (has_suffix s p ≡ true) ↔ ((t : Str) × (s ≡ t ++ p))
has_suffix_iff s p = (has_suffix→append s p, λ (t, e). rw e (has_suffix-append t p))

-- strings.TrimPrefix(s, p)
unfoldable pub trim_prefix : Str → Str → Str
unfolding has_prefix
trim_prefix s p = if has_prefix s p then drop (length p) s else s

drop-append : (p t : Str) → drop (length p) (p ++ t) ≡ t
drop-append [] t = refl
drop-append (y ∷ p) t = drop-append p t

pub trim_prefix-append : (p t : Str) → trim_prefix (p ++ t) p ≡ t
unfolding trim_prefix
trim_prefix-append p t = rw (has_prefix-append p t, drop-append p t)
