-- ===== src/Patterns/TestOnly.antt =====
-- testonlyRegexp, `^goog\.setTestOnly\(` with no flag `m`.
use rules_closure.Prelude.{
  ℕ, true, none, some, ◌≡◌, refl, ◌∙◌, ◌↔◌, [], ◌∷◌, Str, codes, has_prefix, has_prefix_iff,
}
use rules_closure.Regexp.{match, last_of}
use rules_closure.Regexp.Meaning.{Occurs}
use rules_closure.Regexp.Literal.{literal-Matches, Matches-literal}
use rules_closure.Regexp.Scan.{match_iff}
use rules_closure.Patterns.{testonly_regexp}

abbrev pub set_test_only : Str
set_test_only = codes "goog.setTestOnly("

last_of-some : (c : ℕ) (w : Str) → ¬ (last_of (some c) w ≡ none)
last_of-some c [] e = cc
last_of-some c (d ∷ w) e = last_of-some d w e

nil_of_last_of : (w : Str) → last_of none w ≡ none → w ≡ []
nil_of_last_of [] e = refl
nil_of_last_of (c ∷ w) e = absurd (last_of-some c w e)

occurs→prefix : (s : Str) → Occurs testonly_regexp none s → has_prefix s set_test_only ≡ true
unfolding testonly_regexp
occurs→prefix s (pre, w, post, cs, (u, v, ds, es, (start, u_is, _), h, w_is, _), e) =
    let pre_is : pre ≡ [] = nil_of_last_of pre start in
    let v_is : v ≡ set_test_only =
      (Matches-literal set_test_only (last_of (last_of none pre) u) v es h).0 in
    (has_prefix_iff s set_test_only).1 (post, e ∙ rw (pre_is, w_is, u_is, v_is))

prefix→occurs : (s : Str) → has_prefix s set_test_only ≡ true → Occurs testonly_regexp none s
unfolding testonly_regexp
prefix→occurs s h =
    let (t, e) = (has_prefix_iff s set_test_only).0 h in
    (
      [],
      set_test_only,
      t,
      [],
      (
        [],
        set_test_only,
        [],
        [],
        (refl, refl, refl),
        literal-Matches set_test_only none,
        refl,
        refl,
      ),
      e,
    )

-- The file matches exactly when its first bytes are `goog.setTestOnly(`: a declaration on any
-- later line is not seen.
pub match-testonly :
    (s : Str) → (match testonly_regexp s ≡ true) ↔ (has_prefix s set_test_only ≡ true)
match-testonly s = (
  λ h. occurs→prefix s ((match_iff testonly_regexp s).0 h),
  λ h. (match_iff testonly_regexp s).1 (prefix→occurs s h),
)
