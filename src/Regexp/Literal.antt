-- ===== src/Regexp/Literal.antt =====
-- What a literal and a starred class match, and which run of a class is preferred.
use rules_closure.Prelude.{
  ◌&&◌, inl, inr, false, Option, ℕ, Bool, true, some, ◌≡◌, ◌≢◌, refl, List, [], ◌∷◌, ◌++◌, Str, All,
  ==_iff, map, arith,
}
use rules_closure.Regexp.{
  Regexp, empty, byte, text_start, line_start, cat, alt, greedy, lazy, group, literal, Captures,
  Parse, greedy_parses, push, nothing, plus, last_of,
}
use rules_closure.Regexp.Meaning.{Matches}

pub literal-Matches : (w : Str) (before : Option ℕ) → Matches (literal w) before w []
unfolding literal
literal-Matches [] before = (refl, refl)
literal-Matches (c ∷ w) before = (
  c ∷ [],
  w,
  [],
  [],
  (c, (==_iff c c).1 refl, refl, refl),
  literal-Matches w (some c),
  refl,
  refl,
)

pub Matches-literal :
    (w : Str) (before : Option ℕ) (u : Str) (cs : Captures)
    → Matches (literal w) before u cs
    → (u ≡ w) × (cs ≡ [])
unfolding literal
Matches-literal [] before u cs h = h
Matches-literal (c ∷ w) before u cs (a, b, ds, es, (x, e, a_is, ds_is), h, u_is, cs_is) =
    let (b_is, es_is) = Matches-literal w (last_of before a) b es h in
    let same : x ≡ c = (==_iff x c).0 e in (rw (u_is, a_is, b_is, same), rw (cs_is, ds_is, es_is))

-- `p+` matches the nonempty runs of the class.
pub Matches-plus :
    (p : ℕ → Bool) (before : Option ℕ) (w : Str) (cs : Captures)
    → Matches (plus p) before w cs
    → (w ≢ []) × All (λ c. p c ≡ true) w × (cs ≡ [])
unfolding plus
Matches-plus p before w cs (a, b, ds, es, (x, e, a_is, ds_is), (all, es_is), w_is, cs_is) =
    (λ nil. cc, rw (w_is, a_is) (e, all), rw (cs_is, ds_is, es_is))

-- The byte that stands after a run is outside the class, or there is none.
abbrev pub Stops : (ℕ → Bool) → Str → Type 0
Stops p [] = Unit
Stops p (c ∷ s) = p c ≡ false

-- A greedy run takes all of the class that stands there.
pub greedy_parses_longest :
    (p : ℕ → Bool) (w rest : Str)
    → All (λ c. p c ≡ true) w
    → Stops p rest
    → (later : List Parse) × (greedy_parses p (w ++ rest)
        ≡ record { word = w; captures = []; rest = rest } ∷ later)
unfolding greedy_parses
greedy_parses_longest p [] [] h stop = ([], refl)
greedy_parses_longest p [] (c ∷ rest) h stop = ([], rw stop)
greedy_parses_longest p (c ∷ w) rest h stop =
    let (later, e) = greedy_parses_longest p w rest h.1 stop in
    (map (push c) later ++ (nothing (c ∷ (w ++ rest)) ∷ []), rw (h.0, e))

-- An expression with no group in it captures nothing.
abbrev pub no_groups : Regexp → Bool
no_groups (cat r t) = no_groups r && no_groups t
no_groups (alt r t) = no_groups r && no_groups t
no_groups (group n r) = false
no_groups r = true

pub Matches-no_groups :
    (r : Regexp) (before : Option ℕ) (w : Str) (cs : Captures)
    → no_groups r ≡ true
    → Matches r before w cs
    → cs ≡ []
Matches-no_groups empty before w cs h m = m.1
Matches-no_groups (byte p) before w cs h m = m.3
Matches-no_groups text_start before w cs h m = m.2
Matches-no_groups line_start before w cs h m = m.2
Matches-no_groups (cat r t) before w cs h (u, v, ds, es, m₁, m₂, w_is, cs_is) =
    let left : ds ≡ [] = Matches-no_groups r before u ds (ground arith) m₁ in
    let right : es ≡ [] = Matches-no_groups t (last_of before u) v es (ground arith) m₂ in
    rw (cs_is, left, right)
Matches-no_groups (alt r t) before w cs h (inl m) = Matches-no_groups r before w cs (ground arith) m
Matches-no_groups (alt r t) before w cs h (inr m) = Matches-no_groups t before w cs (ground arith) m
Matches-no_groups (greedy p) before w cs h m = m.1
Matches-no_groups (lazy p) before w cs h m = m.1
Matches-no_groups (group n r) before w cs h m = cc
