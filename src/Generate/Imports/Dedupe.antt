-- ===== src/Generate/Imports/Dedupe.antt =====
-- dedupe: the elements of its result, and what it makes of a list with no repetition.
use mathlib.Core.List.Memᴰ
use mathlib.Core.List.Memᴰ.{head, tail}
use rules_closure.Prelude.{
  ◌≡◌, sym, ◌∙◌, ◌↔◌, ◌⊎◌, inl, inr, List, [], ◌∷◌, ◌++◌, Memᴰ, Str, Bool-cases, if◌then◌else◌,
  append-nil, append_assoc,
}
use rules_closure.Distinct.{contains, contains→mem, not-mem, Distinct, mem-concat, Distinct-concat}
use rules_closure.Generate.Imports.{dedupe_from, dedupe}

module _ (out : List Str) (d : Str) where
  abbrev next : List Str
  next = if contains out d then out else out ++ d ∷ []

  next-Distinct : Distinct out → Distinct next
  next-Distinct h = elim (Bool-cases (contains out d)) [
    | inl e ↦ rw e h
    | inr e ↦ rw e (Distinct-concat out d h (not-mem out d e))
  ]

  next_iff : (x : Str) → Memᴰ x next ↔ (Memᴰ x out ⊎ (x ≡ d))
  next_iff x = elim (Bool-cases (contains out d)) [
    | inl e ↦ rw e (λ m. inl m, λ h. elim h [ inl m ↦ m | inr s ↦ rw s (contains→mem out d e) ])
    | inr e ↦ rw e (
      λ m. mem-concat out m,
      λ h. elim h [ inl m ↦ Memᴰ.append_left (d ∷ []) m | inr s ↦ Memᴰ.append_right out (head s) ],
    )
  ]

dedupe_from-Distinct : (out deps : List Str) → Distinct out → Distinct (dedupe_from out deps)
unfolding dedupe_from
dedupe_from-Distinct out [] h = h
dedupe_from-Distinct out (d ∷ deps) h =
    dedupe_from-Distinct (next out d) deps (next-Distinct out d h)

dedupe_from_iff :
    (out deps : List Str) (x : Str) → Memᴰ x (dedupe_from out deps) ↔ (Memᴰ x out ⊎ Memᴰ x deps)
unfolding dedupe_from
dedupe_from_iff out [] x = (λ m. inl m, λ h. elim h [ inl m ↦ m | inr m ↦ elim m [ ] ])
dedupe_from_iff out (d ∷ deps) x =
    let (there, back) = dedupe_from_iff (next out d) deps x in
    let (there', back') = next_iff out d x in
    (
      λ m. elim (there m) [
        | inl i ↦ elim (there' i) [ inl j ↦ inl j | inr e ↦ inr (head e) ]
        | inr i ↦ inr (tail i)
      ],
      λ h. elim h [
        | inl m ↦ back (inl (back' (inl m)))
        | inr m ↦ elim (Memᴰ.cases_cons m) [
          | inl e ↦ back (inl (back' (inr e)))
          | inr i ↦ back (inr i)
        ]
      ],
    )

apart : (out : List Str) (d : Str) (deps : List Str) → Distinct (out ++ d ∷ deps) → ¬ Memᴰ d out
apart [] d deps h m = elim m [ ]
apart (x ∷ out) d deps h (head e) = h.0 (Memᴰ.append_right out (head (sym e)))
apart (x ∷ out) d deps h (tail m) = apart out d deps h.1 m

dedupe_from-fixed :
    (out deps : List Str) → Distinct (out ++ deps) → dedupe_from out deps ≡ out ++ deps
unfolding dedupe_from
dedupe_from-fixed out [] h = sym (append-nil out)
dedupe_from-fixed out (d ∷ deps) h = elim (Bool-cases (contains out d)) [
  | inl e ↦ absurd (apart out d deps h (contains→mem out d e))
  | inr e ↦
      let grown : Distinct ((out ++ d ∷ []) ++ deps) = rw (append_assoc out (d ∷ []) deps) h in
      rw e (dedupe_from-fixed (out ++ d ∷ []) deps grown ∙ append_assoc out (d ∷ []) deps)
]

-- Deps with no repetition stay as they are, in their order.
pub dedupe_stable : (deps : List Str) → Distinct deps → dedupe deps ≡ deps
unfolding dedupe
dedupe_stable deps h = dedupe_from-fixed [] deps h

-- The result has no repetition and the same elements, and a second pass changes nothing.
pub dedupe_lem :
    (deps : List Str)
    → Distinct (dedupe deps)
      × ((x : Str) → Memᴰ x (dedupe deps) ↔ Memᴰ x deps)
      × (dedupe (dedupe deps) ≡ dedupe deps)
unfolding dedupe
dedupe_lem deps = (
  dedupe_from-Distinct [] deps tt,
  λ x.
      let (there, back) = dedupe_from_iff [] deps x in
      (λ m. elim (there m) [ inl i ↦ elim i [ ] | inr i ↦ i ], λ m. back (inr m)),
  dedupe_stable (dedupe deps) (dedupe_from-Distinct [] deps tt),
)
