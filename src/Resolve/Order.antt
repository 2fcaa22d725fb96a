-- ===== src/Resolve/Order.antt =====
-- Go walks a map in any order. What Resolve may write, as a relation that leaves the order open.
use rules_closure.Prelude.{
  some, ◌≡◌, ◌≢◌, ◌↔◌, refl, inl, inr, List, [], ◌∷◌, ◌++◌, Memᴰ, Str, Bool-cases, eq_str,
  eq_str_iff, eq_str-false,
}
use rules_closure.Distinct.{Distinct}
use rules_closure.Gazelle.{Labels, Index as RuleIndex, IsOrder}
use rules_closure.Library.{Row}
use rules_closure.Resolve.{ImportInfo, resolve_deps, other_deps, delete_keys, from_label}
use rules_closure.Resolve.Keys.{delete_keys_iff, delete_keys-Distinct}
use rules_closure.Resolve.Deps.{Imported, dep_map-Keys}

-- The second list is the first without the label, in the same order and with its repetitions.
pub data Without (self : Str) : List Str → List Str → Type 0 where
  done : Without self [] []
  left_out : {x : Str} {xs ys : List Str} → x ≡ self → Without self xs ys → Without self (x ∷ xs) ys
  kept :
      {x : Str} {xs ys : List Str} → x ≢ self → Without self xs ys → Without self (x ∷ xs) (x ∷ ys)

other_deps-Without : (self : Str) (deps : List Str) → Without self deps (other_deps self deps)
unfolding other_deps
other_deps-Without self [] = done
other_deps-Without self (x ∷ deps) = elim (Bool-cases (eq_str x self)) [
  | inl e ↦ rw e (left_out ((eq_str_iff x self).0 e) (other_deps-Without self deps))
  | inr e ↦ rw e (kept (eq_str-false x self e) (other_deps-Without self deps))
]

module _ (g : Labels) (provides : List Row) where
  open g use {Label}

  -- The deps that may be written: the labels of the sources but the label of the rule itself, then,
  -- each once, the labels to which the imports resolve and that do not stand there yet.
  pub record Written (ix : RuleIndex Label) (from : Label) (fi : ImportInfo) (out : List Str)
      : Type 0 where
    pub own : List Str
    pub rest : List Str
    pub parts : out ≡ own ++ rest
    pub sources : Without (from_label g provides from) fi.deps own
    pub once : Distinct rest
    pub members :
        (x : Str) → Memᴰ x rest ↔ (Imported g provides ix from fi.imports x × (¬ Memᴰ x own))

  -- Whatever the order in which the map is walked, Resolve computes deps that start with the labels
  -- of the sources but the label of the rule itself, in their order, and go on with the labels to
  -- which the imports resolve and that are not among those, each once.
  pub resolve_deps-Written :
      (order : List Str → List Str) (ix : RuleIndex Label) (from : Label) (fi : ImportInfo)
      → IsOrder order
      → (out : List Str) × (resolve_deps g provides order ix from fi ≡ some out)
        × Written ix from fi out
  unfolding resolve_deps
  resolve_deps-Written order ix from fi o =
      let deps = other_deps (from_label g provides from) fi.deps in
      let (keys, k) = dep_map-Keys g provides ix from [] fi.imports in
      let left = delete_keys deps keys in
      (
        deps ++ order left,
        rw (k.runs, resolve_deps),
        record {
          own = deps;
          rest = order left;
          parts = refl;
          sources = other_deps-Without (from_label g provides from) fi.deps;
          once = o.once left (delete_keys-Distinct deps keys (k.distinct tt));
          members = λ x. (
            λ m.
                let (i, n) = (delete_keys_iff deps x keys).0 ((o.visits left x).0 m) in
                (elim ((k.members x).0 i) [ inl j ↦ elim j [ ] | inr j ↦ j ], n),
            λ (i, n).
                (o.visits left x).1 ((delete_keys_iff deps x keys).1 ((k.members x).1 (inr i), n)),
          );
        },
      )
