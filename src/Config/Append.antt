-- ===== src/Config/Append.antt =====
-- What append does to the slice that it extends and to those within it.
use rules_closure.Prelude.{
  ==_iff, ◌≢◌, length-append, if_rule, ℕ, zero, suc, ◌≤◌, ◌≡◌, refl, ap, sym, ◌∙◌, Bool-cases, inl,
  inr, List, [], ◌∷◌, ◌++◌, length, ltb, ◌==◌, arith,
}
use rules_closure.Path.{take}
use rules_closure.Config.Slices.{
  Slice, Cells, Heap, Within, view, write, put, in_place, to_copy, append, Valid, Grows,
}

module _ {A : Type 0} where
  take-write :
      (n : ℕ) (x : A) (ys : List A)
      → n ≤ length ys
      → take (suc n) (write n x ys) ≡ take n ys ++ x ∷ []
  take-write zero x [] h = refl
  take-write zero x (y ∷ ys) h = refl
  take-write (suc n) x [] h = absurd (omega arith)
  take-write (suc n) x (y ∷ ys) h = ap (λ l. y ∷ l) (take-write n x ys (omega arith))

  take-write_below : (k n : ℕ) (x : A) (ys : List A) → k ≤ n → take k (write n x ys) ≡ take k ys
  take-write_below zero n x ys h = refl
  take-write_below (suc k) zero x ys h = absurd (omega arith)
  take-write_below (suc k) (suc n) x [] h = refl
  take-write_below (suc k) (suc n) x (y ∷ ys) h =
      ap (λ l. y ∷ l) (take-write_below k n x ys (omega arith))

  length-write : (n : ℕ) (x : A) (ys : List A) → n ≤ length ys → suc n ≤ length (write n x ys)
  length-write zero x [] h = omega arith
  length-write zero x (y ∷ ys) h = omega arith
  length-write (suc n) x [] h = absurd (omega arith)
  length-write (suc n) x (y ∷ ys) h = omega (arith, length-write n x ys (omega arith))

  length-write_keeps :
      (n : ℕ) (x : A) (ys : List A) → n ≤ length ys → length ys ≤ length (write n x ys)
  length-write_keeps zero x [] h = omega arith
  length-write_keeps zero x (y ∷ ys) h = omega arith
  length-write_keeps (suc n) x [] h = absurd (omega arith)
  length-write_keeps (suc n) x (y ∷ ys) h = omega (arith, length-write_keeps n x ys (omega arith))

  put-same : (f : ℕ → Cells A) (a : ℕ) (c : Cells A) → put f a c a ≡ c
  put-same f a c = rw ((==_iff a a).1 refl)

  put-other : (f : ℕ → Cells A) (a b : ℕ) (c : Cells A) → b ≢ a → put f a c b ≡ f b
  put-other f a b c n = elim (Bool-cases (b == a)) [
    | inl e ↦ absurd (n ((==_iff b a).0 e))
    | inr e ↦ rw e
  ]

  length-take : (n : ℕ) (ys : List A) → n ≤ length ys → length (take n ys) ≡ n
  length-take zero ys h = refl
  length-take (suc n) [] h = absurd (omega arith)
  length-take (suc n) (y ∷ ys) h = ap suc (length-take n ys (omega arith))

  take-all : (n : ℕ) (ys : List A) → length ys ≡ n → take n ys ≡ ys
  take-all zero [] h = refl
  take-all zero (y ∷ ys) h = absurd (omega arith)
  take-all (suc n) [] h = refl
  take-all (suc n) (y ∷ ys) h = ap (λ l. y ∷ l) (take-all n ys (omega arith))

  -- The view is longer by the element, and all that lies within the slice is as it was.
  abbrev pub Appends : Heap A → Slice → A → Heap A × Slice → Type 0
  Appends h s x p = (view p.0 p.1 ≡ view h s ++ x ∷ []) × Grows h s p.0 p.1

  in_place-keeps :
      (h : Heap A) (s : Slice) (x : A)
      → Valid h s
      → (t : Slice) → Valid h t
      → Within s t
      → Valid (in_place h s x).0 t
        × (view (in_place h s x).0 t ≡ view h t)
        × Within (in_place h s x).1 t
  in_place-keeps h s x v t w i =
      let c = h.cells s.array in
      let new : Cells A = record c { written = write s.len x c.written } in
      elim (Bool-cases (t.array == s.array)) [
        | inl e ↦
            let f : t.array ≡ s.array = (==_iff t.array s.array).0 e in
            let at : put h.cells s.array new t.array ≡ new = rw e refl in
            let below : t.len ≤ s.len = i f in
            let longer = length-write_keeps s.len x c.written v.bounded in
            let within = v.bounded in
            (
              record { known = w.known; bounded = rw at (omega arith) },
              rw at (
                  take-write_below t.len s.len x c.written below
                  ∙ ap (λ (d : Cells A). take t.len d.written) (sym (ap h.cells f))),
              λ g. omega arith,
            )
        | inr e ↦
            let at : put h.cells s.array new t.array ≡ h.cells t.array = rw e refl in
            (
              record { known = w.known; bounded = rw at w.bounded },
              rw at refl,
              λ g. omega (arith, i g),
            )
      ]

  in_place-Appends : (h : Heap A) (s : Slice) (x : A) → Valid h s → Appends h s x (in_place h s x)
  in_place-Appends h s x v =
      let c = h.cells s.array in
      let new : Cells A = record c { written = write s.len x c.written } in
      let same : put h.cells s.array new s.array ≡ new = put-same h.cells s.array new in
      (
        rw same (take-write s.len x c.written v.bounded),
        record {
          valid = record {
            known = v.known;
            bounded = rw same (length-write s.len x c.written v.bounded);
          };
          keeps = in_place-keeps h s x v;
        },
      )

  to_copy-Appends :
      (room : ℕ → ℕ) (h : Heap A) (s : Slice) (x : A)
      → Valid h s
      → Appends h s x (to_copy room h s x)
  to_copy-Appends room h s x v =
      let new : Cells A = record { written = view h s ++ x ∷ []; cap = room s.len } in
      let same : put h.cells h.next new h.next ≡ new = put-same h.cells h.next new in
      let size : length (view h s ++ x ∷ []) ≡ suc s.len = omega (
        arith,
        length-append (view h s) (x ∷ []),
        length-take s.len (h.cells s.array).written v.bounded,
      ) in
      (
        rw same (take-all (suc s.len) (view h s ++ x ∷ []) size),
        record {
          valid = record { known = omega arith; bounded = rw (same, size) (omega arith) };
          keeps = λ t w i.
              let other : put h.cells h.next new t.array ≡ h.cells t.array =
                put-other h.cells h.next t.array new (λ e. omega arith) in
              (
                record { known = omega arith; bounded = rw other w.bounded },
                rw other refl,
                λ e. absurd (omega arith),
              );
        },
      )

  pub append-Appends :
      (room : ℕ → ℕ) (h : Heap A) (s : Slice) (x : A)
      → Valid h s
      → Appends h s x (append room h s x)
  unfolding append
  append-Appends room h s x v =
      if_rule (Appends h s x) (ltb s.len (h.cells s.array).cap) _ _ (in_place-Appends h s x v)
        (to_copy-Appends room h s x v)
