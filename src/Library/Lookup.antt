-- ===== src/Library/Lookup.antt =====
-- The rows are in strictly ascending order of their names, so that each is found by its own name.
use mathlib.Core.List.Memᴰ.{head, tail}
use rules_closure.Prelude.{
  Bool, true, false, ◌&&◌, ◌||◌, some, ◌≡◌, refl, sym, ap, List, [], ◌∷◌, ◌++◌, Memᴰ, Str, arith,
  ltb, ◌==◌, eq_str, eq_str_iff, eq_str_refl, Bool-cases, inl, inr,
}
use rules_closure.Library.{Row, lookup}
use rules_closure.Library.Rows.{
  first_rows, second_rows, third_rows, fourth_rows, fifth_rows, sixth_rows, seventh_rows,
  eighth_rows, ninth_rows, tenth_rows, eleventh_rows, twelfth_rows, thirteenth_rows,
  fourteenth_rows, fifteenth_rows, sixteenth_rows, seventeenth_rows, eighteenth_rows,
  nineteenth_rows, twentieth_rows, twenty_first_rows, twenty_second_rows, twenty_third_rows,
  twenty_fourth_rows, twenty_fifth_rows, twenty_sixth_rows, twenty_seventh_rows, twenty_eighth_rows,
  twenty_ninth_rows, thirtieth_rows, thirty_first_rows, thirty_second_rows, thirty_third_rows,
  thirty_fourth_rows, thirty_fifth_rows, other_rows,
}

-- Less in the order of bytes.
str_lt : Str → Str → Bool
str_lt [] [] = false
str_lt [] (y ∷ b) = true
str_lt (x ∷ a) [] = false
str_lt (x ∷ a) (y ∷ b) = ltb x y || (x == y && str_lt a b)

str_lt_irrefl : (a : Str) → str_lt a a ≡ false
unfolding str_lt
str_lt_irrefl [] = refl
str_lt_irrefl (x ∷ a) = ground (arith, str_lt_irrefl a)

str_lt_trans : (a b c : Str) → str_lt a b ≡ true → str_lt b c ≡ true → str_lt a c ≡ true
unfolding str_lt
str_lt_trans [] [] [] h k = cc
str_lt_trans [] [] (z ∷ c) h k = cc
str_lt_trans [] (y ∷ b) [] h k = cc
str_lt_trans [] (y ∷ b) (z ∷ c) h k = refl
str_lt_trans (x ∷ a) [] c h k = cc
str_lt_trans (x ∷ a) (y ∷ b) [] h k = cc
str_lt_trans (x ∷ a) (y ∷ b) (z ∷ c) h k = ground (arith, str_lt_trans a b c)

-- Each name is less than the next.
ascending : List Row → Bool
unfolding str_lt
ascending [] = true
ascending (r ∷ []) = true
ascending (r ∷ s ∷ rows) = str_lt r.0 s.0 && ascending (s ∷ rows)

first_lt :
    (r : Row) (rows : List Row) (t : Row)
    → ascending (r ∷ rows) ≡ true
    → Memᴰ t rows
    → str_lt r.0 t.0 ≡ true
unfolding ascending
first_lt r [] t h m = elim m [ ]
first_lt r (s ∷ rows) t h (head e) = rw e (ground arith)
first_lt r (s ∷ rows) t h (tail m) =
    str_lt_trans r.0 s.0 t.0 (ground arith) (first_lt s rows t (ground arith) m)

ascending-tail : (r : Row) (rows : List Row) → ascending (r ∷ rows) ≡ true → ascending rows ≡ true
unfolding ascending
ascending-tail r [] h = refl
ascending-tail r (s ∷ rows) h = ground arith

lookup-mem :
    (rows : List Row) (t : Row) → ascending rows ≡ true → Memᴰ t rows → lookup t.0 rows ≡ some t.1
unfolding lookup
lookup-mem [] t h m = elim m [ ]
lookup-mem (r ∷ rows) t h (head e) =
    let same : eq_str r.0 t.0 ≡ true = rw e (eq_str_refl r.0) in
    rw (same, lookup) (ap some (ap (λ (p : Row). p.1) (sym e)))
lookup-mem (r ∷ rows) t h (tail m) = elim (Bool-cases (eq_str r.0 t.0)) [
  | inr e ↦ rw (e, lookup) (lookup-mem rows t (ascending-tail r rows h) m)
  | inl e ↦
      let same : r.0 ≡ t.0 = (eq_str_iff r.0 t.0).0 e in
      let less : str_lt t.0 t.0 ≡ true = rw same at (first_lt r rows t h m) in
      cc (str_lt_irrefl t.0)
]

abbrev append_all : List (List Row) → List Row
append_all [] = []
append_all (rows ∷ chunks) = rows ++ append_all chunks

-- PROVIDE_TO_TARGET: the rows of Rows.antt, which are those of the file, in their order.
abbrev pub listed_rows : List Row
listed_rows = append_all (
    first_rows ∷ second_rows ∷ third_rows ∷ fourth_rows ∷ fifth_rows ∷ sixth_rows ∷ seventh_rows
    ∷ eighth_rows ∷ ninth_rows ∷ tenth_rows ∷ eleventh_rows ∷ twelfth_rows ∷ thirteenth_rows
    ∷ fourteenth_rows ∷ fifteenth_rows ∷ sixteenth_rows ∷ seventeenth_rows ∷ eighteenth_rows
    ∷ nineteenth_rows ∷ twentieth_rows ∷ twenty_first_rows ∷ twenty_second_rows ∷ twenty_third_rows
    ∷ twenty_fourth_rows ∷ twenty_fifth_rows ∷ twenty_sixth_rows ∷ twenty_seventh_rows
    ∷ twenty_eighth_rows ∷ twenty_ninth_rows ∷ thirtieth_rows ∷ thirty_first_rows
    ∷ thirty_second_rows ∷ thirty_third_rows ∷ thirty_fourth_rows ∷ thirty_fifth_rows ∷ other_rows
    ∷ [])

listed_rows_ascend : ascending listed_rows ≡ true
unfolding ascending
listed_rows_ascend = refl

-- Each row that is listed is found by its name.
pub lookup-listed : (t : Row) → Memᴰ t listed_rows → lookup t.0 listed_rows ≡ some t.1
lookup-listed t m = lookup-mem listed_rows t listed_rows_ascend m
