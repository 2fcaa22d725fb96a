-- ===== src/Regexp/Meaning.antt =====
-- What an expression matches, with no search order in it.
use rules_closure.Prelude.{ℕ, true, Option, none, ◌≡◌, ◌⊎◌, [], ◌∷◌, ◌++◌, Str, All}
use rules_closure.Regexp.{
  Regexp, empty, byte, text_start, line_start, cat, alt, greedy, lazy, group, Captures, last_of,
  at_line_start,
}

-- The byte in front of the word is `before`, which is `none` at the start of the text.
abbrev pub Matches : Regexp → Option ℕ → Str → Captures → Type 0
Matches empty before w cs = (w ≡ []) × (cs ≡ [])
Matches (byte p) before w cs = (c : ℕ) × (p c ≡ true) × (w ≡ c ∷ []) × (cs ≡ [])
Matches text_start before w cs = (before ≡ none) × (w ≡ []) × (cs ≡ [])
Matches line_start before w cs = (at_line_start before ≡ true) × (w ≡ []) × (cs ≡ [])
Matches (cat r t) before w cs =
    (u : Str) × (v : Str) × (ds : Captures) × (es : Captures) × Matches r before u ds
    × Matches t (last_of before u) v es
    × (w ≡ u ++ v)
    × (cs ≡ ds ++ es)
Matches (alt r t) before w cs = Matches r before w cs ⊎ Matches t before w cs
Matches (greedy p) before w cs = All (λ c. p c ≡ true) w × (cs ≡ [])
Matches (lazy p) before w cs = All (λ c. p c ≡ true) w × (cs ≡ [])
Matches (group n r) before w cs = (ds : Captures) × Matches r before w ds × (cs ≡ (n, w) ∷ ds)

-- The text holds a match: what stands before it, the word, what is captured, what stands behind.
abbrev pub Occurs : Regexp → Option ℕ → Str → Type 0
Occurs r before s =
    (pre : Str) × (w : Str) × (post : Str) × (cs : Captures) × Matches r (last_of before pre) w cs
    × (s ≡ pre ++ (w ++ post))
