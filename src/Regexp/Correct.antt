-- ===== src/Regexp/Correct.antt =====
-- The search of `parses` finds the matches of the relation, and no others.
use mathlib.Core.List.Memᴰ
use mathlib.Core.List.Memᴰ.{head, tail}
use rules_closure.Prelude.{
  ℕ, Bool, true, false, Option, none, some, ◌≡◌, refl, sym, ap, ◌∙◌, inl, inr, List, [], ◌∷◌, ◌++◌,
  map, append_assoc, Memᴰ, Str, All, if◌then◌else◌,
}
use rules_closure.Regexp.{
  Regexp, empty, byte, text_start, line_start, cat, alt, greedy, lazy, group, Captures, Parse, push,
  follow, capture, nothing, last_of, at_line_start, at_text_start, greedy_parses, lazy_parses,
  byte_parses, extend, parses,
}
use rules_closure.Regexp.Meaning.{Matches}

-- A way to match at `s` that the relation allows.
abbrev IsParse : Regexp → Option ℕ → Str → Parse → Type 0
IsParse r before s q = Matches r before q.word q.captures × (s ≡ q.word ++ q.rest)

mem-extend :
    (k : Parse → List Parse) (qs : List Parse) {q t : Parse}
    → Memᴰ q qs
    → Memᴰ t (k q)
    → Memᴰ (follow q t) (extend k qs)
unfolding extend
mem-extend k [] m n = elim m [ ]
mem-extend k (x ∷ qs) {q} {t} (head e) n =
    let at_x : Memᴰ t (k x) = rw e at n in
    rw e (Memᴰ.append_left (extend k qs) (Memᴰ.map (follow x) at_x))
mem-extend k (x ∷ qs) (tail m) n = Memᴰ.append_right (map (follow x) (k x)) (mem-extend k qs m n)

extend-mem :
    (k : Parse → List Parse) (qs : List Parse) {p : Parse}
    → Memᴰ p (extend k qs)
    → (q : Parse) × (t : Parse) × Memᴰ q qs × Memᴰ t (k q) × (p ≡ follow q t)
unfolding extend
extend-mem k [] m = elim m [ ]
extend-mem k (x ∷ qs) m = elim (Memᴰ.append_cases (map (follow x) (k x)) m) [
  | inl i ↦ let (t, n, e) = Memᴰ.of_map (follow x) (k x) i in (x, t, head refl, n, sym e)
  | inr i ↦ let (q, t, n, o, e) = extend-mem k qs i in (q, t, tail n, o, e)
]

mem-if :
    {A : Type 0} {x : A} (b : Bool) (xs : List A)
    → Memᴰ x (if b then xs else [])
    → (b ≡ true) × Memᴰ x xs
mem-if true xs m = (refl, m)
mem-if false xs m = elim m [ ]

-- What the two searches of a starred class have in common.
abbrev IsRun : (ℕ → Bool) → Str → Parse → Type 0
IsRun p s q = All (λ c. p c ≡ true) q.word × (q.captures ≡ []) × (s ≡ q.word ++ q.rest)

nothing-IsRun : (p : ℕ → Bool) (s : Str) {q : Parse} → q ≡ nothing s → IsRun p s q
nothing-IsRun p s e = rw e (tt, refl, refl)

push-IsRun :
    (p : ℕ → Bool) (c : ℕ) (s : Str) (qs : List Parse) {q : Parse}
    → p c ≡ true
    → ((t : Parse) → Memᴰ t qs → IsRun p s t)
    → Memᴰ q (map (push c) qs)
    → IsRun p (c ∷ s) q
push-IsRun p c s qs h ih m =
    let (t, n, e) = Memᴰ.of_map (push c) qs m in
    let (all, none_captured, split) = ih t n in rw (← e) ((h, all), none_captured, ap (◌∷◌ c) split)

greedy_parses_sound :
    (p : ℕ → Bool) (s : Str) (q : Parse) → Memᴰ q (greedy_parses p s) → IsRun p s q
unfolding greedy_parses
greedy_parses_sound p [] q (head e) = nothing-IsRun p [] e
greedy_parses_sound p [] q (tail m) = elim m [ ]
greedy_parses_sound p (c ∷ s) q m =
    elim (Memᴰ.append_cases (if p c then map (push c) (greedy_parses p s) else []) m) [
      | inl i ↦
          let (h, n) = mem-if (p c) (map (push c) (greedy_parses p s)) i in
          push-IsRun p c s (greedy_parses p s) h (greedy_parses_sound p s) n
      | inr i ↦ nothing-IsRun p (c ∷ s) (Memᴰ.eq_of_singleton i)
    ]

lazy_parses_sound : (p : ℕ → Bool) (s : Str) (q : Parse) → Memᴰ q (lazy_parses p s) → IsRun p s q
unfolding lazy_parses
lazy_parses_sound p [] q (head e) = nothing-IsRun p [] e
lazy_parses_sound p [] q (tail m) = elim m [ ]
lazy_parses_sound p (c ∷ s) q (head e) = nothing-IsRun p (c ∷ s) e
lazy_parses_sound p (c ∷ s) q (tail m) =
    let (h, n) = mem-if (p c) (map (push c) (lazy_parses p s)) m in
    push-IsRun p c s (lazy_parses p s) h (lazy_parses_sound p s) n

at_text_start→none : (before : Option ℕ) → at_text_start before ≡ true → before ≡ none
at_text_start→none none h = refl
at_text_start→none (some c) h = cc

byte_parses_sound :
    (p : ℕ → Bool) (before : Option ℕ) (s : Str) {q : Parse}
    → Memᴰ q (byte_parses p s)
    → IsParse (byte p) before s q
byte_parses_sound p before [] m = elim m [ ]
byte_parses_sound p before (c ∷ s) m =
    let (h, n) = mem-if (p c) _ m in rw (Memᴰ.eq_of_singleton n) ((c, h, refl, refl), refl)

pub parses_sound :
    (r : Regexp) (before : Option ℕ) (s : Str) {q : Parse}
    → Memᴰ q (parses r before s)
    → IsParse r before s q
unfolding parses
parses_sound empty before s m = rw (Memᴰ.eq_of_singleton m) ((refl, refl), refl)
parses_sound (byte p) before s m = byte_parses_sound p before s m
parses_sound text_start before s m =
    let (h, n) = mem-if (at_text_start before) _ m in
    rw (Memᴰ.eq_of_singleton n) ((at_text_start→none before h, refl, refl), refl)
parses_sound line_start before s m =
    let (h, n) = mem-if (at_line_start before) _ m in
    rw (Memᴰ.eq_of_singleton n) ((h, refl, refl), refl)
parses_sound (cat r t) before s m =
    let (q₁, q₂, m₁, m₂, e) = extend-mem _ (parses r before s) m in
    let (h₁, s₁) = parses_sound r before s m₁ in
    let (h₂, s₂) = parses_sound t (last_of before q₁.word) q₁.rest m₂ in
    rw e (
      (q₁.word, q₂.word, q₁.captures, q₂.captures, h₁, h₂, refl, refl),
      s₁ ∙ ap (λ z. q₁.word ++ z) s₂ ∙ sym (append_assoc q₁.word q₂.word q₂.rest),
    )
parses_sound (alt r t) before s m = elim (Memᴰ.append_cases (parses r before s) m) [
  | inl i ↦ let (h, e) = parses_sound r before s i in (inl h, e)
  | inr i ↦ let (h, e) = parses_sound t before s i in (inr h, e)
]
parses_sound (greedy p) before s {q} m =
    let (all, c, e) = greedy_parses_sound p s q m in ((all, c), e)
parses_sound (lazy p) before s {q} m = let (all, c, e) = lazy_parses_sound p s q m in ((all, c), e)
parses_sound (group n r) before s m =
    let (t, i, e) = Memᴰ.of_map (capture n) (parses r before s) m in
    let (h, split) = parses_sound r before s i in rw (← e) ((t.captures, h, refl), split)

greedy_parses_complete :
    (p : ℕ → Bool) (w rest : Str)
    → All (λ c. p c ≡ true) w
    → Memᴰ (record { word = w; captures = []; rest = rest }) (greedy_parses p (w ++ rest))
unfolding greedy_parses
greedy_parses_complete p [] [] h = head refl
greedy_parses_complete p [] (c ∷ rest) h = Memᴰ.append_right _ (head refl)
greedy_parses_complete p (c ∷ w) rest h =
    rw h.0 (Memᴰ.append_left _ (Memᴰ.map (push c) (greedy_parses_complete p w rest h.1)))

lazy_parses_complete :
    (p : ℕ → Bool) (w rest : Str)
    → All (λ c. p c ≡ true) w
    → Memᴰ (record { word = w; captures = []; rest = rest }) (lazy_parses p (w ++ rest))
unfolding lazy_parses
lazy_parses_complete p [] [] h = head refl
lazy_parses_complete p [] (c ∷ rest) h = head refl
lazy_parses_complete p (c ∷ w) rest h =
    rw h.0 (tail (Memᴰ.map (push c) (lazy_parses_complete p w rest h.1)))

pub parses_complete :
    (r : Regexp) (before : Option ℕ) (w : Str) (cs : Captures) (rest : Str)
    → Matches r before w cs
    → Memᴰ (record { word = w; captures = cs; rest = rest }) (parses r before (w ++ rest))
unfolding parses
parses_complete empty before w cs rest (e, d) = rw (e, d) (head refl)
parses_complete (byte p) before w cs rest (c, h, e, d) = rw (e, d) (rw h (head refl))
parses_complete text_start before w cs rest (b, e, d) = rw (b, e, d) (head refl)
parses_complete line_start before w cs rest (b, e, d) = rw (e, d) (rw b (head refl))
parses_complete (cat r t) before w cs rest (u, v, ds, es, h₁, h₂, e, d) =
    rw (e, d, append_assoc u v rest)
      (mem-extend _ (parses r before (u ++ (v ++ rest)))
        (parses_complete r before u ds (v ++ rest) h₁)
        (parses_complete t (last_of before u) v es rest h₂))
parses_complete (alt r t) before w cs rest (inl h) =
    Memᴰ.append_left _ (parses_complete r before w cs rest h)
parses_complete (alt r t) before w cs rest (inr h) =
    Memᴰ.append_right (parses r before (w ++ rest)) (parses_complete t before w cs rest h)
parses_complete (greedy p) before w cs rest (h, e) = rw e (greedy_parses_complete p w rest h)
parses_complete (lazy p) before w cs rest (h, e) = rw e (lazy_parses_complete p w rest h)
parses_complete (group n r) before w cs rest (ds, h, e) =
    rw e (Memᴰ.map (capture n) (parses_complete r before w ds rest h))
