-- ===== src/Config/Slices.antt =====
-- Go's slices: views of arrays that append writes in place while there is room. It is what
-- gazelle/closure_js/config.go relies on where clone copies a slice and Configure appends to it.
use rules_closure.Prelude.{
  ℕ, zero, suc, ◌≤◌, ◌<◌, ◌≡◌, refl, ◌∙◌, List, [], ◌∷◌, ◌++◌, length, ltb, ◌==◌, if◌then◌else◌,
}
use rules_closure.Path.{take}

pub record Slice : Type 0 where
  pub array : ℕ
  pub len : ℕ

-- What has been written to an array, from its first place, and how many places it has.
pub record Cells (A : Type 0) : Type 0 where
  pub written : List A
  pub cap : ℕ

pub record Heap (A : Type 0) : Type 0 where
  pub next : ℕ
  pub cells : ℕ → Cells A

-- The second slice does not reach beyond the first where they share an array.
abbrev pub Within : Slice → Slice → Type 0
Within s t = t.array ≡ s.array → t.len ≤ s.len

module _ {A : Type 0} where
  abbrev pub view : Heap A → Slice → List A
  view h s = take s.len (h.cells s.array).written

  -- `a[n] = x`, where all places before have been written.
  abbrev pub write : ℕ → A → List A → List A
  write zero x [] = x ∷ []
  write zero x (y ∷ ys) = x ∷ ys
  write (suc n) x [] = []
  write (suc n) x (y ∷ ys) = y ∷ write n x ys

  abbrev pub put : (ℕ → Cells A) → ℕ → Cells A → ℕ → Cells A
  put cells a c b = if b == a then c else cells b

  abbrev pub in_place : Heap A → Slice → A → Heap A × Slice
  in_place h s x =
      let c = h.cells s.array in
      (
        record h { cells = put h.cells s.array (record c { written = write s.len x c.written }) },
        record s { len = suc s.len },
      )

  abbrev pub to_copy : (ℕ → ℕ) → Heap A → Slice → A → Heap A × Slice
  to_copy room h s x = (
    record {
      next = suc h.next;
      cells = put h.cells h.next (record { written = view h s ++ x ∷ []; cap = room s.len });
    },
    record { array = h.next; len = suc s.len },
  )

  -- append of one element: in place where the array has room behind the slice, else to a copy of
  -- the view, with the room that the runtime gives to a slice of that length.
  unfoldable pub append : (ℕ → ℕ) → Heap A → Slice → A → Heap A × Slice
  append room h s x = if ltb s.len (h.cells s.array).cap then in_place h s x else to_copy room h s x

  -- The slice of an array that exists, within what was written.
  pub record Valid (h : Heap A) (s : Slice) : Type 0 where
    pub known : s.array < h.next
    pub bounded : s.len ≤ length (h.cells s.array).written

  -- A later heap and a slice there that has grown from `s`: what lies within `s` is as it was, and
  -- lies within the new slice.
  pub record Grows (h : Heap A) (s : Slice) (h' : Heap A) (s' : Slice) : Type 0 where
    pub valid : Valid h' s'
    pub keeps :
        (t : Slice) → Valid h t → Within s t → Valid h' t × (view h' t ≡ view h t) × Within s' t

  pub Grows-refl : (h : Heap A) (s : Slice) → Valid h s → Grows h s h s
  Grows-refl h s v = record { valid = v; keeps = λ t w i. (w, refl, i) }

  pub Grows-trans :
      (h : Heap A) (s : Slice) (h' : Heap A) (s' : Slice) (h'' : Heap A) (s'' : Slice)
      → Grows h s h' s'
      → Grows h' s' h'' s''
      → Grows h s h'' s''
  Grows-trans h s h' s' h'' s'' p q = record {
    valid = q.valid;
    keeps = λ t w i.
        let (w', e, i') = p.keeps t w i in let (w'', f, i'') = q.keeps t w' i' in (w'', f ∙ e, i'');
  }
