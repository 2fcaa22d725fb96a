-- ===== src/Resolve/Deps.antt =====
-- The deps that Resolve writes.
use mathlib.Core.List.Memᴰ
use mathlib.Core.List.Memᴰ.{head, tail}
use rules_closure.Prelude.{
  has_prefix, true, codes, Option, none, some, ◌≡◌, ◌≢◌, refl, sym, ◌∙◌, ◌↔◌, ◌⊎◌, inl, inr, List,
  [], ◌∷◌, ◌++◌, Memᴰ, Str, Bool-cases, Option-cases, if◌then◌else◌,
}
use rules_closure.Distinct.{Distinct}
use rules_closure.Gazelle.{Labels, Index as RuleIndex, IsOrder}
use rules_closure.Library.{Row, lookup}
use rules_closure.Resolve.{
  ResolveError, ImportInfo, is_closure_library, resolve_closure_library, resolve_with_index,
  not_found_is_nil, resolve_js, delete_key, delete_keys, other_deps, dep_map, from_label,
  resolve_deps,
}
use rules_closure.Resolve.Keys.{
  delete_key_iff, delete_key-Distinct, other_deps-delete, grow, grow-Distinct, grow_iff,
  merged-Distinct, merged_iff,
}

-- What resolveJs makes of one import, as it is written in the deps: a label, or nothing.
module _ (g : Labels) (provides : List Row) where
  open g use {Label, no_label}

  abbrev pub written : Label → Label × Option ResolveError → Option Str
  written from (l, error) =
      if g.same l no_label then none else some (g.show (g.rel l (g.repo from) (g.pkg from)))

  closure_total :
      (imp : Str)
      → has_prefix imp (codes "goog.") ≡ true
      → (l : Label) × (resolve_closure_library g provides imp ≡ some l)
  unfolding resolve_closure_library
  closure_total imp h = elim (Option-cases (lookup imp provides)) [
    | inl e ↦ (no_label, rw (h, e))
    | inr (target, e) ↦ elim (Option-cases (g.parse (codes "@io_bazel_rules_closure" ++ target))) [
      | inl f ↦ (no_label, rw (h, e, f))
      | inr (l, f) ↦ (l, rw (h, e, f))
    ]
  ]

  -- What isClosureLibrary accepts passes the test of resolveClosureLibrary.
  closure_prefix :
      (imp : Str) → is_closure_library imp ≡ true → has_prefix imp (codes "goog.") ≡ true
  unfolding is_closure_library
  closure_prefix imp h = h

  -- The panic of resolveClosureLibrary is out of reach from resolveJs.
  pub resolve_js-total :
      (ix : RuleIndex Label) (imp : Str) (from : Label)
      → (res : Label × Option ResolveError) × (resolve_js g provides ix imp from ≡ some res)
  unfolding resolve_js
  resolve_js-total ix imp from = elim (Bool-cases (is_closure_library imp)) [
    | inl h ↦ let (l, e) = closure_total imp (closure_prefix imp h) in ((l, none), rw (h, e))
    | inr h ↦ elim (Option-cases (ix.find_override imp)) [
      | inl e ↦ (not_found_is_nil g provides (resolve_with_index g provides ix imp from), rw (h, e))
      | inr (l, e) ↦ ((l, none), rw (h, e))
    ]
  ]

  -- Some import is resolved to the label that is written so.
  abbrev pub Imported : RuleIndex Label → Label → List Str → Str → Type 0
  Imported ix from imports x =
      (imp : Str) × (res : Label × Option ResolveError) × Memᴰ imp imports
      × (resolve_js g provides ix imp from ≡ some res)
      × (written from res ≡ some x)

  -- The keys that the loop over the imports leaves.
  pub record Keys (ix : RuleIndex Label) (from : Label) (keys imports out : List Str) : Type 0 where
    pub runs : dep_map g provides ix from keys imports ≡ some out
    pub distinct : Distinct keys → Distinct out
    pub members : (x : Str) → Memᴰ x out ↔ (Memᴰ x keys ⊎ Imported ix from imports x)

  dep_map-step :
      (ix : RuleIndex Label) (from : Label) (keys imports : List Str) (imp : Str)
      (res : Label × Option ResolveError)
      → resolve_js g provides ix imp from ≡ some res
      → dep_map g provides ix from keys (imp ∷ imports)
        ≡ dep_map g provides ix from (grow keys (written from res)) imports
  unfolding dep_map
  dep_map-step ix from keys imports imp (l, error) h = elim (Bool-cases (g.same l no_label)) [
    | inl e ↦ rw (h, dep_map, e)
    | inr e ↦ rw (h, dep_map, e)
  ]

  dep_map-nil :
      (ix : RuleIndex Label) (from : Label) (keys : List Str)
      → dep_map g provides ix from keys [] ≡ some keys
  unfolding dep_map
  dep_map-nil ix from keys = refl

  Imported-cons :
      (ix : RuleIndex Label) (from : Label) (imports : List Str) (imp x : Str)
      (res : Label × Option ResolveError)
      → resolve_js g provides ix imp from ≡ some res
      → Imported ix from (imp ∷ imports) x
        ↔ ((written from res ≡ some x) ⊎ Imported ix from imports x)
  Imported-cons ix from imports imp x res h = (
    λ (j, r, m, e, w). elim (Memᴰ.cases_cons m) [
      | inl same ↦
          let both : some r ≡ some res = sym e ∙ rw same h in
          let is : r ≡ res = cc in inl (rw is at w)
      | inr n ↦ inr (j, r, n, e, w)
    ],
    λ c. elim c [
      | inl w ↦ (imp, res, head refl, h, w)
      | inr (j, r, m, e, w) ↦ (j, r, tail m, e, w)
    ],
  )

  pub dep_map-Keys :
      (ix : RuleIndex Label) (from : Label) (keys imports : List Str)
      → (out : List Str) × Keys ix from keys imports out
  dep_map-Keys ix from keys [] = (
    keys,
    record {
      runs = dep_map-nil ix from keys;
      distinct = λ d. d;
      members = λ x. (λ m. inl m, λ h. elim h [ inl m ↦ m | inr (_, _, i, _, _) ↦ elim i [ ] ]);
    },
  )
  dep_map-Keys ix from keys (imp ∷ imports) =
      let (res, e) = resolve_js-total ix imp from in
      let (out, k) = dep_map-Keys ix from (grow keys (written from res)) imports in
      (
        out,
        record {
          runs = dep_map-step ix from keys imports imp res e ∙ k.runs;
          distinct = λ d. k.distinct (grow-Distinct keys (written from res) d);
          members = λ x.
              let (there, back) = k.members x in
              let (there', back') = Imported-cons ix from imports imp x res e in
              let (there'', back'') = grow_iff keys x (written from res) in
              (
                λ m. elim (there m) [
                  | inl i ↦ elim (there'' i) [ inl j ↦ inl j | inr w ↦ inr (back' (inl w)) ]
                  | inr i ↦ inr (back' (inr i))
                ],
                λ c. elim c [
                  | inl j ↦ back (inl (back'' (inl j)))
                  | inr i ↦ elim (there' i) [
                    | inl w ↦ back (inl (back'' (inr w)))
                    | inr i' ↦ back (inr i')
                  ]
                ],
              );
        },
      )

  -- For any order in which the map is walked, and where the labels of the sources are not repeated,
  -- Resolve computes a list of deps with no repetition: those labels but the label of the rule
  -- itself, and the labels to which the imports resolve.
  pub resolve_deps_lem :
      (order : List Str → List Str) (ix : RuleIndex Label) (from : Label) (fi : ImportInfo)
      → IsOrder order
      → Distinct fi.deps
      → (out : List Str) × (resolve_deps g provides order ix from fi ≡ some out)
        × Distinct out
        × ((x : Str)
            → Memᴰ x out ↔ (
                (Memᴰ x fi.deps × (x ≢ from_label g provides from))
                ⊎ Imported ix from fi.imports x))
  unfolding resolve_deps
  resolve_deps_lem order ix from fi o d =
      let self = from_label g provides from in
      let deps = other_deps self fi.deps in
      let (keys, k) = dep_map-Keys ix from [] fi.imports in
      let left = delete_keys deps keys in
      (
        deps ++ order left,
        rw (k.runs, resolve_deps),
        merged-Distinct order deps keys o
            (rw (other_deps-delete self fi.deps) (delete_key-Distinct self fi.deps d))
            (k.distinct tt),
        λ x.
            let (there, back) = merged_iff order deps keys x o in
            let (there', back') = delete_key_iff self x fi.deps in
            let (there'', back'') = k.members x in
            let own : deps ≡ delete_key self fi.deps = other_deps-delete self fi.deps in
            (
              λ m. elim (there m) [
                | inl i ↦ inl (there' (rw own at i))
                | inr i ↦ elim (there'' i) [ inl n ↦ elim n [ ] | inr j ↦ inr j ]
              ],
              λ c. elim c [
                | inl h ↦ back (inl (rw own (back' h)))
                | inr j ↦ back (inr (back'' (inr j)))
              ],
            ),
      )
