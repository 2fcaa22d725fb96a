-- ===== src/Regexp/Scan.antt =====
-- Match answers whether a match occurs, and each result of FindAllSubmatch is an occurrence.
use mathlib.Core.List.Memᴰ
use mathlib.Core.List.Memᴰ.{head}
use rules_closure.Prelude.{
  arith, ◌≢◌, ℕ, zero, suc, true, false, Option, none, some, ◌≡◌, refl, ap, ◌↔◌, inl, inr, List, [],
  ◌∷◌, ◌++◌, Memᴰ, Str, length, head?, Option-cases, ◌-◌,
}
use rules_closure.Regexp.{
  Regexp, Captures, Parse, last_of, parses, match_at, find_from, find_all, match_from, match,
}
use rules_closure.Regexp.Meaning.{Matches, Occurs}
use rules_closure.Regexp.Correct.{parses_sound, parses_complete}

head?-mem {ℓ} : {A : Type ℓ} (xs : List A) {x : A} → head? xs ≡ some x → Memᴰ x xs
head?-mem [] e = cc
head?-mem (y ∷ xs) e = head (cc)

not-mem_of_head? {ℓ} : {A : Type ℓ} (xs : List A) {x : A} → head? xs ≡ none → ¬ Memᴰ x xs
not-mem_of_head? [] e m = elim m [ ]
not-mem_of_head? (y ∷ xs) e m = cc

pub match_at_sound :
    (r : Regexp) (before : Option ℕ) (s : Str) {q : Parse}
    → match_at r before s ≡ some q
    → Matches r before q.word q.captures × (s ≡ q.word ++ q.rest)
unfolding match_at
match_at_sound r before s e = parses_sound r before s (head?-mem (parses r before s) e)

nil_of_not_mem {ℓ} : {A : Type ℓ} (xs : List A) → ((x : A) → ¬ Memᴰ x xs) → xs ≡ []
nil_of_not_mem [] h = refl
nil_of_not_mem (x ∷ xs) h = absurd (h x (head refl))

pub match_at_complete :
    (r : Regexp) (before : Option ℕ) (w rest : Str) (cs : Captures)
    → Matches r before w cs
    → ¬ (match_at r before (w ++ rest) ≡ none)
unfolding match_at
match_at_complete r before w rest cs h e =
    not-mem_of_head? (parses r before (w ++ rest)) e (parses_complete r before w cs rest h)

Occurs-here :
    (r : Regexp) (before : Option ℕ) (s : Str) (q : Parse)
    → match_at r before s ≡ some q
    → Occurs r before s
Occurs-here r before s q e =
    let (h, split) = match_at_sound r before s e in ([], q.word, q.rest, q.captures, h, split)

Occurs-later :
    (r : Regexp) (before : Option ℕ) (c : ℕ) (s : Str)
    → Occurs r (some c) s
    → Occurs r before (c ∷ s)
Occurs-later r before c s (pre, w, post, cs, h, e) = (c ∷ pre, w, post, cs, h, ap (◌∷◌ c) e)

match_from_sound :
    (r : Regexp) (before : Option ℕ) (s : Str) → match_from r before s ≡ true → Occurs r before s
unfolding match_from
match_from_sound r before [] e = elim (Option-cases (match_at r before [])) [
  | inl absent ↦ cc (rw (absent, match_from) at e)
  | inr (q, found) ↦ Occurs-here r before [] q found
]
match_from_sound r before (c ∷ s) e = elim (Option-cases (match_at r before (c ∷ s))) [
  | inl absent ↦
      Occurs-later r before c s (match_from_sound r (some c) s (rw (absent, match_from) at e))
  | inr (q, found) ↦ Occurs-here r before (c ∷ s) q found
]

Occurs-tail :
    (r : Regexp) (before : Option ℕ) (c : ℕ) (s : Str)
    → match_at r before (c ∷ s) ≡ none
    → Occurs r before (c ∷ s)
    → Occurs r (some c) s
Occurs-tail r before c s absent ([], w, post, cs, h, e) =
    absurd (match_at_complete r before w post cs h (rw e at absent))
Occurs-tail r before c s absent (d ∷ pre, w, post, cs, h, e) =
    let same : d ≡ c = cc in
    let tails : s ≡ pre ++ (w ++ post) = cc in (pre, w, post, cs, rw same at h, tails)

match_from_complete :
    (r : Regexp) (before : Option ℕ) (s : Str) → Occurs r before s → match_from r before s ≡ true
unfolding match_from
match_from_complete r before [] ([], w, post, cs, h, e) =
    elim (Option-cases (match_at r before [])) [
      | inl absent ↦ absurd (match_at_complete r before w post cs h (rw e at absent))
      | inr (q, found) ↦ rw (found, match_from)
    ]
match_from_complete r before [] (c ∷ pre, w, post, cs, h, e) = cc
match_from_complete r before (c ∷ s) o = elim (Option-cases (match_at r before (c ∷ s))) [
  | inl absent ↦
      rw (absent, match_from) (match_from_complete r (some c) s (Occurs-tail r before c s absent o))
  | inr (q, found) ↦ rw (found, match_from)
]

pub match_iff : (r : Regexp) (s : Str) → (match r s ≡ true) ↔ Occurs r none s
unfolding match
match_iff r s = (match_from_sound r none s, match_from_complete r none s)

-- The captures of an occurrence.
abbrev pub OccursWith : Regexp → Option ℕ → Str → Captures → Type 0
OccursWith r before s cs =
    (pre : Str) × (w : Str) × (post : Str) × Matches r (last_of before pre) w cs
    × (s ≡ pre ++ (w ++ post))

with_later :
    (r : Regexp) (before : Option ℕ) (c : ℕ) (s : Str) (cs : Captures)
    → OccursWith r (some c) s cs
    → OccursWith r before (c ∷ s) cs
with_later r before c s cs (pre, w, post, h, e) = (c ∷ pre, w, post, h, ap (◌∷◌ c) e)

find_from_sound :
    (r : Regexp) (before : Option ℕ) (skip : ℕ) (s : Str) (cs : Captures)
    → Memᴰ cs (find_from r before skip s)
    → OccursWith r before s cs
unfolding find_from
find_from_sound r before skip [] cs m = elim m [ ]
find_from_sound r before (suc skip) (c ∷ s) cs m =
    with_later r before c s cs (find_from_sound r (some c) skip s cs m)
find_from_sound r before zero (c ∷ s) cs m = elim (Option-cases (match_at r before (c ∷ s))) [
  | inl absent ↦
      with_later r before c s cs (find_from_sound r (some c) 0 s cs (rw (absent, find_from) at m))
  | inr (q, found) ↦ elim (Memᴰ.cases_cons (rw (found, find_from) at m)) [
    | inl e ↦
        let (h, split) = match_at_sound r before (c ∷ s) found in
        ([], q.word, q.rest, rw e h, split)
    | inr n ↦ with_later r before c s cs (find_from_sound r (some c) (length q.word - 1) s cs n)
  ]
]

pub find_all_sound :
    (r : Regexp) (s : Str) (cs : Captures) → Memᴰ cs (find_all r s) → OccursWith r none s cs
unfolding find_all
find_all_sound r s cs m = find_from_sound r none 0 s cs m

-- An expression that matches nowhere is never found.
pub find_all_nil : (r : Regexp) (s : Str) → ¬ Occurs r none s → find_all r s ≡ []
find_all_nil r s absent =
    nil_of_not_mem (find_all r s)
      λ cs m. let (pre, w, post, h, e) = find_all_sound r s cs m in absent (pre, w, post, cs, h, e)

find_from_nil :
    (r : Regexp) (before : Option ℕ) (s : Str)
    → ((b : Option ℕ) → match_at r b [] ≡ none)
    → find_from r before 0 s ≡ []
    → match_from r before s ≡ false
unfolding find_from match_from
find_from_nil r before [] h e = rw (h before, match_from)
find_from_nil r before (c ∷ s) h e = elim (Option-cases (match_at r before (c ∷ s))) [
  | inl absent ↦
      rw (absent, match_from) (find_from_nil r (some c) s h (rw (absent, find_from) at e))
  | inr (q, found) ↦ cc (rw (found, find_from) at e)
]

-- An expression that is nowhere found matches nowhere.
pub not-Occurs_of_nil :
    (r : Regexp) (s : Str)
    → ((b : Option ℕ) → match_at r b [] ≡ none)
    → find_all r s ≡ []
    → ¬ Occurs r none s
unfolding find_all
not-Occurs_of_nil r s h e o = cc (find_from_nil r none s h e, match_from_complete r none s o)

-- How the search goes on: past a match, and past a byte at which there is none.
find_from_skip :
    (r : Regexp) (before : Option ℕ) (w s : Str)
    → find_from r before (length w) (w ++ s) ≡ find_from r (last_of before w) 0 s
unfolding find_from
find_from_skip r before [] s = refl
find_from_skip r before (c ∷ w) s = find_from_skip r (some c) w s

pub find_from_hit :
    (r : Regexp) (before : Option ℕ) (w s : Str) (cs : Captures)
    → w ≢ []
    → match_at r before (w ++ s) ≡ some (record { word = w; captures = cs; rest = s })
    → find_from r before 0 (w ++ s) ≡ cs ∷ find_from r (last_of before w) 0 s
unfolding find_from
find_from_hit r before [] s cs ne h = absurd (ne refl)
find_from_hit r before (c ∷ w) s cs ne h =
    let one_less : length (c ∷ w) - 1 ≡ length w = omega arith in
    rw (h, find_from, one_less) (ap (◌∷◌ cs) (find_from_skip r (some c) w s))

pub find_from_miss :
    (r : Regexp) (before : Option ℕ) (c : ℕ) (s : Str)
    → match_at r before (c ∷ s) ≡ none
    → find_from r before 0 (c ∷ s) ≡ find_from r (some c) 0 s
unfolding find_from
find_from_miss r before c s h = rw (h, find_from)
