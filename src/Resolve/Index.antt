-- ===== src/Resolve/Index.antt =====
-- resolveWithIndexJs on every number of matches.
use rules_closure.Prelude.{
  true, false, Option, none, some, ◌≡◌, ◌≢◌, refl, ◌∙◌, All, List, [], ◌∷◌, Str, inl, inr,
  Bool-cases, if◌then◌else◌,
}
use rules_closure.Gazelle.{Labels, FindResult, Index as RuleIndex}
use rules_closure.Library.{Row}
use rules_closure.Resolve.{
  ResolveError, skip_import, not_found, ambiguous, no_result, best_match, judge, resolve_with_index,
}

module _ (g : Labels) (provides : List Row) where
  open g use {Label, no_label}

  equal_false : (l : Label) → l ≢ no_label → g.equal l no_label ≡ false
  equal_false l h = elim (Bool-cases (g.equal l no_label)) [
    | inl e ↦ absurd (h ((g.equal_iff l no_label).0 e))
    | inr e ↦ e
  ]

  equal_no_label : g.equal no_label no_label ≡ true
  equal_no_label = (g.equal_iff no_label no_label).1 refl

  best_match-again :
      (best m : FindResult Label) (error : Option ResolveError) (ms : List (FindResult Label))
      → best.label ≢ no_label
      → best_match g provides best error (m ∷ ms) ≡ best_match g provides best (some ambiguous) ms
  unfolding best_match
  best_match-again best m error ms h = rw (equal_false best.label h)

  best_match-first :
      (m : FindResult Label) (ms : List (FindResult Label))
      → best_match g provides (no_result g provides) none (m ∷ ms) ≡ best_match g provides m none ms
  unfolding best_match
  best_match-first m ms = rw equal_no_label

  best_match-nil :
      (best : FindResult Label) (error : Option ResolveError)
      → best_match g provides best error [] ≡ (best, error)
  unfolding best_match
  best_match-nil best error = refl

  -- Once a rule is found, a further one is ambiguous.
  best_match-ambiguous :
      (best : FindResult Label) (ms : List (FindResult Label))
      → best.label ≢ no_label
      → best_match g provides best (some ambiguous) ms ≡ (best, some ambiguous)
  best_match-ambiguous best [] h = best_match-nil best (some ambiguous)
  best_match-ambiguous best (m ∷ ms) h =
      best_match-again best m (some ambiguous) ms h ∙ best_match-ambiguous best ms h

  -- What the index answers on no rule, on one and on several.
  abbrev pub Answer : Label → List (FindResult Label) → Label × Option ResolveError
  Answer from [] = (no_label, some not_found)
  Answer from (m ∷ []) =
      if m.is_self_import from then (no_label, some skip_import) else (m.label, none)
  Answer from (m ∷ n ∷ ms) = (no_label, some ambiguous)

  judge-Answer :
      (from : Label) (ms : List (FindResult Label))
      → All (λ (m : FindResult Label). m.label ≢ no_label) ms
      → judge g provides from (best_match g provides (no_result g provides) none ms)
        ≡ Answer from ms
  judge-Answer from [] h = rw (best_match-nil (no_result g provides) none, equal_no_label)
  judge-Answer from (m ∷ []) h =
      rw (best_match-first m [], best_match-nil m none, equal_false m.label h.0)
  judge-Answer from (m ∷ n ∷ ms) h =
      rw (
        best_match-first m (n ∷ ms),
        best_match-again m n none ms h.0,
        best_match-ambiguous m ms h.0,
      )

  -- With rules that have labels: none is an error that resolveJs passes over, one is taken unless it
  -- is the rule itself, and several are ambiguous, whichever they are.
  pub resolve_with_index_lem :
      (ix : RuleIndex Label) (imp : Str) (from : Label)
      → All (λ (m : FindResult Label). m.label ≢ no_label) (ix.find_by_import imp)
      → resolve_with_index g provides ix imp from ≡ Answer from (ix.find_by_import imp)
  unfolding resolve_with_index
  resolve_with_index_lem ix imp from h = judge-Answer from (ix.find_by_import imp) h
