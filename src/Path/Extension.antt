-- ===== src/Path/Extension.antt =====
-- The slice `name[:len(name)-len(path.Ext(name))]`, by which gazelle/closure_js takes a name without
-- its extension.
use mathlib.Core.List.{reverse, reverse-cons, reverse-reverse}
use rules_closure.Prelude.{
  ℕ, ◌≤◌, ◌-◌, ◌+◌, ◌≡◌, refl, sym, ap, ◌∙◌, [], ◌∷◌, ◌++◌, Str, append_assoc, append-nil, length,
  length-append, arith, ◌==◌, Bool-cases, inl, inr,
}
use rules_closure.Path.{slash, take, ext_loop, ext, no_ext}

pub take-length : (s t : Str) → take (length s) (s ++ t) ≡ s
take-length [] t = refl
take-length (c ∷ s) t = ap (λ l. c ∷ l) (take-length s t)

reverse_back : (c : ℕ) (r seen : Str) → reverse r ++ c ∷ seen ≡ reverse (c ∷ r) ++ seen
reverse_back c r seen =
    sym (ap (λ l. l ++ seen) (reverse-cons c r) ∙ append_assoc (reverse r) (c ∷ []) seen)

-- The loop returns the end of what it reads backwards.
ext_loop-suffix : (r seen : Str) → (p : Str) × (p ++ ext_loop r seen ≡ reverse r ++ seen)
unfolding ext_loop
ext_loop-suffix [] seen = (seen, append-nil seen)
ext_loop-suffix (c ∷ r) seen = elim (Bool-cases (c == slash)) [
  | inl e ↦ (reverse (c ∷ r) ++ seen, rw (e, ext_loop) (append-nil (reverse (c ∷ r) ++ seen)))
  | inr e ↦ elim (Bool-cases (c == b'.')) [
    | inl f ↦ (reverse r, rw (e, f, ext_loop) (reverse_back c r seen))
    | inr f ↦
        let (p, g) = ext_loop-suffix r (c ∷ seen) in
        (p, rw (e, f, ext_loop) (g ∙ reverse_back c r seen))
  ]
]

ext-suffix : (s : Str) → (p : Str) × (p ++ ext s ≡ s)
unfolding ext
ext-suffix s =
    let (p, e) = ext_loop-suffix (reverse s) [] in
    (p, e ∙ append-nil (reverse (reverse s)) ∙ reverse-reverse s)

-- The extension is no longer than the name, so that the slice that takes it off is in bounds, and
-- what is left with the extension after it is the name.
pub no_ext-ext : (s : Str) → (length (ext s) ≤ length s) × (no_ext s ++ ext s ≡ s)
unfolding no_ext
no_ext-ext s =
    let (p, e) = ext-suffix s in
    let size : length s ≡ length p + length (ext s) = ap length (sym e) ∙ length-append p (ext s) in
    let rest : length s - length (ext s) ≡ length p = omega arith in
    let taken : no_ext s ≡ p =
      ap (λ n. take n s) rest ∙ ap (take (length p)) (sym e) ∙ take-length p (ext s) in
    (omega arith, ap (λ t. t ++ ext s) taken ∙ e)
