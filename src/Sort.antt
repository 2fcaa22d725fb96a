-- ===== src/Sort.antt =====
-- sort.Strings: the strings in ascending order of their bytes. The order is total, so every
-- sorting algorithm gives this list.
use rules_closure.Prelude.{
  Bool, true, false, ◌&&◌, ◌||◌, List, [], ◌∷◌, Str, ltb, ◌==◌, if◌then◌else◌,
}

unfoldable pub str_le : Str → Str → Bool
str_le [] b = true
str_le (x ∷ a) [] = false
str_le (x ∷ a) (y ∷ b) = ltb x y || (x == y && str_le a b)

unfoldable pub insert : Str → List Str → List Str
unfolding str_le
insert s [] = s ∷ []
insert s (t ∷ ts) = if str_le s t then s ∷ t ∷ ts else t ∷ insert s ts

unfoldable pub sort_strings : List Str → List Str
unfolding insert
sort_strings [] = []
sort_strings (s ∷ ss) = insert s (sort_strings ss)
