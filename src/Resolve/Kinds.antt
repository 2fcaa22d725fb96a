-- ===== src/Resolve/Kinds.antt =====
-- isJsLibrary and isJsTest of gazelle/closure_js/resolve.go.
use rules_closure.Prelude.{
  ℕ, true, false, Option, none, some, ◌≡◌, refl, sym, ◌∙◌, [], ◌∷◌, ◌++◌, Str, codes, arith,
  has_suffix, has_suffix_iff, inl, inr, Bool-cases,
}
use rules_closure.Regexp.{last_of}
use rules_closure.Resolve.{is_js_library, is_js_test}

last_of-append : (b : Option ℕ) (t w : Str) → last_of b (t ++ w) ≡ last_of (last_of b t) w
last_of-append b [] w = refl
last_of-append b (c ∷ t) w = last_of-append (some c) t w

y_apart_t : ◌≡◌ {A = Option ℕ} (some b'y') (some b't') → ⊥
y_apart_t e = ground arith

last_byte_unique : (o : Option ℕ) → o ≡ some b'y' → o ≡ some b't' → ⊥
last_byte_unique o e f = y_apart_t (sym e ∙ f)

y_end : (k : Str) → has_suffix k (codes "_library") ≡ true → last_of none k ≡ some b'y'
y_end k h =
    let (t, e) = (has_suffix_iff k (codes "_library")).0 h in
    rw e (last_of-append none t (codes "_library"))

t_end : (k : Str) → has_suffix k (codes "_test") ≡ true → last_of none k ≡ some b't'
t_end k h =
    let (t, e) = (has_suffix_iff k (codes "_test")).0 h in
    rw e (last_of-append none t (codes "_test"))

ends_apart :
    (k : Str) → has_suffix k (codes "_library") ≡ true → has_suffix k (codes "_test") ≡ true → ⊥
ends_apart k h i = last_byte_unique (last_of none k) (y_end k h) (t_end k i)

library_suffix : (k : Str) → is_js_library k ≡ true → has_suffix k (codes "_library") ≡ true
unfolding is_js_library
library_suffix k h = ground arith

test_suffix : (k : Str) → is_js_test k ≡ true → has_suffix k (codes "_test") ≡ true
unfolding is_js_test
test_suffix k h = ground arith

-- No kind of rule is both a library and a test, mapped kinds included.
pub kinds_apart : (k : Str) → is_js_library k ≡ true → is_js_test k ≡ false
kinds_apart k h = elim (Bool-cases (is_js_test k)) [
  | inl i ↦ absurd (ends_apart k (library_suffix k h) (test_suffix k i))
  | inr i ↦ i
]
