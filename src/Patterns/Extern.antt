-- ===== src/Patterns/Extern.antt =====
-- The search for a token that newExternGrep of config.go compiles.
use rules_closure.Prelude.{
  ℕ, true, none, some, ◌≡◌, refl, ◌∙◌, ◌↔◌, [], ◌∷◌, ◌++◌, Str, append_assoc,
}
use rules_closure.Regexp.{match, last_of}
use rules_closure.Regexp.Meaning.{Occurs}
use rules_closure.Regexp.Literal.{literal-Matches, Matches-literal}
use rules_closure.Regexp.Scan.{match_iff}
use rules_closure.Patterns.{token_regexp, not_alnum}

-- The token stands in the text with a byte before it and one behind it, neither a letter nor a digit.
abbrev pub Stands : Str → Str → Type 0
Stands token s =
    (pre : Str) × (a : ℕ) × (b : ℕ) × (post : Str) × (not_alnum a ≡ true)
    × (not_alnum b ≡ true)
    × (s ≡ pre ++ (a ∷ (token ++ (b ∷ post))))

occurs→stands : (token s : Str) → Occurs (token_regexp token) none s → Stands token s
unfolding token_regexp
occurs→stands token s
      (
        pre,
        w,
        post,
        cs,
        (u, v, ds, es, (a, ha, u_is, _), (x, y, fs, gs, h, (b, hb, y_is, _), v_is, _), w_is, _),
        e,
      ) =
    let x_is : x ≡ token = (Matches-literal token (last_of (last_of none pre) u) x fs h).0 in
    (
      pre,
      a,
      b,
      post,
      ha,
      hb,
      e ∙ rw (w_is, u_is, v_is, x_is, y_is, append_assoc token (b ∷ []) post),
    )

stands→occurs : (token s : Str) → Stands token s → Occurs (token_regexp token) none s
unfolding token_regexp
stands→occurs token s (pre, a, b, post, ha, hb, e) = (
  pre,
  a ∷ (token ++ (b ∷ [])),
  post,
  [],
  (
    a ∷ [],
    token ++ (b ∷ []),
    [],
    [],
    (a, ha, refl, refl),
    (token, b ∷ [], [], [], literal-Matches token (some a), (b, hb, refl, refl), refl, refl),
    refl,
    refl,
  ),
  e ∙ rw (append_assoc token (b ∷ []) post),
)

-- The search succeeds exactly where the token stands between two bytes that are neither letters
-- nor digits; at either end of the file it is not seen.
pub match-token : (token s : Str) → (match (token_regexp token) s ≡ true) ↔ Stands token s
match-token token s = (
  λ h. occurs→stands token s ((match_iff (token_regexp token) s).0 h),
  λ h. (match_iff (token_regexp token) s).1 (stands→occurs token s h),
)
