-- ===== src/Library/Targets.antt =====
-- The targets of the rows are absolute labels.
use mathlib.Core.List.Memᴰ.{head, tail}
use rules_closure.Prelude.{
  Bool, true, ◌&&◌, ◌≡◌, refl, List, [], ◌∷◌, ◌++◌, Str, codes, eq_str, has_prefix, ◌==◌,
  if◌then◌else◌, Memᴰ, eq_str_iff, arith,
}
use rules_closure.Gazelle.{is_package, is_element}
use rules_closure.Path
use rules_closure.Library.{Row}
use rules_closure.Library.Lookup.{listed_rows}

-- The package and the name of `//package:name`.
cut : Str → Str × Str
cut [] = ([], [])
cut (c ∷ s) = if c == b':' then ([], s) else (c ∷ (cut s).0, (cut s).1)

abbrev pub target_text : Str × Str → Str
target_text (p, n) = codes "//" ++ (p ++ (b':' ∷ n))

abbrev without_slashes : Str → Str
without_slashes [] = []
without_slashes (a ∷ []) = []
without_slashes (a ∷ b ∷ s) = s

is_target : Str → Bool
unfolding cut Path.split eq_str
is_target t =
    let parts = cut (without_slashes t) in
    eq_str t (target_text parts) && is_package parts.0 && is_element parts.1

all_rows : List Row → Bool
unfolding is_target has_prefix
all_rows [] = true
all_rows (r ∷ rows) = is_target r.1 && all_rows rows

listed_rows_checked : all_rows listed_rows ≡ true
unfolding all_rows
listed_rows_checked = refl

all_rows-mem :
    (rows : List Row) (t : Row) → all_rows rows ≡ true → Memᴰ t rows → is_target t.1 ≡ true
unfolding all_rows
all_rows-mem [] t h m = elim m [ ]
all_rows-mem (r ∷ rows) t h (head e) = rw e (ground arith)
all_rows-mem (r ∷ rows) t h (tail m) = all_rows-mem rows t (ground arith) m

is_target-parts :
    (t : Str)
    → is_target t ≡ true
    → (p : Str) × (n : Str) × (t ≡ target_text (p, n))
      × (is_package p ≡ true)
      × (is_element n ≡ true)
unfolding is_target
is_target-parts t h =
    let parts = cut (without_slashes t) in
    (
      parts.0,
      parts.1,
      (eq_str_iff t (target_text parts)).0 (ground arith),
      ground arith,
      ground arith,
    )

-- A row that is listed has a well-formed target.
pub listed_row :
    (t : Row)
    → Memᴰ t listed_rows
    → (p : Str) × (n : Str) × (t.1 ≡ target_text (p, n))
      × (is_package p ≡ true)
      × (is_element n ≡ true)
listed_row t m = is_target-parts t.1 (all_rows-mem listed_rows t listed_rows_checked m)
