-- ===== src/Regexp.antt =====
-- The part of Go's package regexp that gazelle/closure_js/fileinfo.go and config.go use: an
-- expression, the order in which a backtracking search prefers its matches (which is the order
-- that package regexp documents), Match and FindAllSubmatch.
-- Texts are bytes. Every class of the sources either lists ASCII bytes or excludes some, and what
-- they capture is delimited by ASCII bytes, so reading by bytes and by code points agree.
pub mod Meaning
pub mod Correct
pub mod Literal
pub mod Scan
use rules_closure.Prelude.{
  ℕ, zero, suc, ◌-◌, Bool, true, false, Option, none, some, List, [], ◌∷◌, ◌++◌, map, Str,
  if◌then◌else◌, length, head?, ◌==◌,
}

pub data Regexp : Type 0 where
  empty : Regexp
  byte : (ℕ → Bool) → Regexp
  -- `^`, at the start of the text only
  text_start : Regexp
  -- `^` under the flag `m`
  line_start : Regexp
  cat : Regexp → Regexp → Regexp
  alt : Regexp → Regexp → Regexp
  -- `p*` and `p*?` of a class of bytes
  greedy : (ℕ → Bool) → Regexp
  lazy : (ℕ → Bool) → Regexp
  group : ℕ → Regexp → Regexp

-- What the groups captured, in the order of the text.
abbrev pub Captures : Type 0
Captures = List (ℕ × Str)

-- A way to match: the bytes consumed, what is captured, and the bytes left.
pub record Parse : Type 0 where
  pub word : Str
  pub captures : Captures
  pub rest : Str

abbrev pub push : ℕ → Parse → Parse
push c q = record q { word = c ∷ q.word }

abbrev pub nothing : Str → Parse
nothing s = record { word = []; captures = []; rest = s }

-- The byte before what follows `w`, where `before` stood in front of `w`.
abbrev pub last_of : Option ℕ → Str → Option ℕ
last_of before [] = before
last_of before (c ∷ w) = last_of (some c) w

abbrev pub at_line_start : Option ℕ → Bool
at_line_start none = true
at_line_start (some c) = c == b'\n'

abbrev pub at_text_start : Option ℕ → Bool
at_text_start none = true
at_text_start (some c) = false

pub greedy_parses : (ℕ → Bool) → Str → List Parse
greedy_parses p [] = nothing [] ∷ []
greedy_parses p (c ∷ s) =
    (if p c then map (push c) (greedy_parses p s) else []) ++ (nothing (c ∷ s) ∷ [])

pub lazy_parses : (ℕ → Bool) → Str → List Parse
lazy_parses p [] = nothing [] ∷ []
lazy_parses p (c ∷ s) = nothing (c ∷ s) ∷ (if p c then map (push c) (lazy_parses p s) else [])

abbrev pub byte_parses : (ℕ → Bool) → Str → List Parse
byte_parses p [] = []
byte_parses p (c ∷ s) = if p c then record { word = c ∷ []; captures = []; rest = s } ∷ [] else []

abbrev pub follow : Parse → Parse → Parse
follow q r = record { word = q.word ++ r.word; captures = q.captures ++ r.captures; rest = r.rest }

abbrev pub capture : ℕ → Parse → Parse
capture n q = record q { captures = (n, q.word) ∷ q.captures }

-- Each first part in turn, followed by each way to go on behind it.
pub extend : (Parse → List Parse) → List Parse → List Parse
extend k [] = []
extend k (q ∷ qs) = map (follow q) (k q) ++ extend k qs

-- All ways to match at a position, the preferred ones first.
unfoldable pub parses : Regexp → Option ℕ → Str → List Parse
unfolding greedy_parses lazy_parses extend
parses empty before s = nothing s ∷ []
parses (byte p) before s = byte_parses p s
parses text_start before s = if at_text_start before then nothing s ∷ [] else []
parses line_start before s = if at_line_start before then nothing s ∷ [] else []
parses (cat r t) before s =
    extend (λ q. parses t (last_of before q.word) q.rest) (parses r before s)
parses (alt r t) before s = parses r before s ++ parses t before s
parses (greedy p) before s = greedy_parses p s
parses (lazy p) before s = lazy_parses p s
parses (group n r) before s = map (capture n) (parses r before s)

-- The match at a position, where there is one.
unfoldable pub match_at : Regexp → Option ℕ → Str → Option Parse
unfolding parses
match_at r before s = head? (parses r before s)

-- FindAllSubmatch(b, -1): successive matches from the left that do not overlap. `skip` counts the
-- bytes of the last match that are still to be passed over. No expression of the sources matches
-- the empty word, whose treatment by package regexp is left out.
unfoldable pub find_from : Regexp → Option ℕ → ℕ → Str → List Captures
unfolding match_at
find_from r before skip [] = []
find_from r before (suc skip) (c ∷ s) = find_from r (some c) skip s
find_from r before zero (c ∷ s) = elim (match_at r before (c ∷ s)) [
  | none ↦ find_from r (some c) 0 s
  | some q ↦ q.captures ∷ find_from r (some c) (length q.word - 1) s
]

unfoldable pub find_all : Regexp → Str → List Captures
unfolding find_from
find_all r s = find_from r none 0 s

-- Match(b): some position of the text begins a match.
unfoldable pub match_from : Regexp → Option ℕ → Str → Bool
unfolding match_at
match_from r before [] = elim (match_at r before []) [ none ↦ false | some q ↦ true ]
match_from r before (c ∷ s) = elim (match_at r before (c ∷ s)) [
  | none ↦ match_from r (some c) s
  | some q ↦ true
]

unfoldable pub match : Regexp → Str → Bool
unfolding match_from
match r s = match_from r none s

-- The expressions of a literal text, of `p+` and of `r?`.
unfoldable pub literal : Str → Regexp
literal [] = empty
literal (c ∷ w) = cat (byte (λ x. x == c)) (literal w)

unfoldable pub plus : (ℕ → Bool) → Regexp
plus p = cat (byte p) (greedy p)

unfoldable pub optional : Regexp → Regexp
optional r = alt r empty
