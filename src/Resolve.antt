-- ===== src/Resolve.antt =====
-- gazelle/closure_js/resolve.go: from the imports of a rule to its deps. The map of the Closure
-- Library, what Gazelle provides and the order in which Go walks a map are arguments. Messages to
-- the log are left out; a panic is `none`.
pub mod Kinds
pub mod Provides
pub mod Index
pub mod Keys
pub mod Deps
pub mod Listed
pub mod EndToEnd
pub mod Order
use rules_closure.Prelude.{
  Bool, false, not, ◌&&◌, Option, none, some, List, [], ◌∷◌, ◌++◌, Str, codes, if◌then◌else◌,
  has_prefix, has_suffix, eq_str,
}
use rules_closure.Distinct.{contains}
use rules_closure.Gazelle.{Labels, Rules, FindResult, Index as RuleIndex}
use rules_closure.Library.{Row, lookup}

-- isClosureLibrary
unfoldable pub is_closure_library : Str → Bool
is_closure_library imp = has_prefix imp (codes "goog.")

-- isJsLibrary and isJsTest
unfoldable pub is_js_library : Str → Bool
is_js_library kind =
    has_prefix kind (codes "closure_js")
    && has_suffix kind (codes "_library")
    && not (has_suffix kind (codes "template_library"))

unfoldable pub is_js_test : Str → Bool
is_js_test kind = has_prefix kind (codes "closure_js") && has_suffix kind (codes "_test")

-- skipImportError, notFoundError, and the error of several rules that match.
pub data ResolveError : Type 0 where
  skip_import not_found ambiguous : ResolveError

-- type importInfo
pub record ImportInfo : Type 0 where
  pub imports : List Str
  pub deps : List Str

-- `if _, ok := depMap[k]`, the map as the list of its keys.
unfoldable pub put_key : Str → List Str → List Str
put_key k keys = if contains keys k then keys else keys ++ k ∷ []

unfoldable pub delete_key : Str → List Str → List Str
unfolding eq_str
delete_key k [] = []
delete_key k (x ∷ keys) = if eq_str x k then delete_key k keys else x ∷ delete_key k keys

unfoldable pub delete_keys : List Str → List Str → List Str
unfolding delete_key
delete_keys [] keys = keys
delete_keys (k ∷ ks) keys = delete_keys ks (delete_key k keys)

-- The deps that are not the rule's own label.
unfoldable pub other_deps : Str → List Str → List Str
unfolding eq_str
other_deps from_label [] = []
other_deps from_label (dep ∷ deps) =
    if not (eq_str dep from_label)
    then dep ∷ other_deps from_label deps
    else other_deps from_label deps

module _ (g : Labels) (provides : List Row) where
  open g use {Label, no_label}

  -- resolveClosureLibrary, with the panic on any other import.
  unfoldable pub resolve_closure_library : Str → Option Label
  unfolding lookup
  resolve_closure_library imp =
      if not (has_prefix imp (codes "goog.")) then none else elim (lookup imp provides) [
        | none ↦ some no_label
        | some target ↦ elim (g.parse (codes "@io_bazel_rules_closure" ++ target)) [
          | none ↦ some no_label
          | some l ↦ some l
        ]
      ]

  abbrev pub no_result : FindResult Label
  no_result = record { label = no_label; is_self_import = λ _. false }

  -- The loop of resolveWithIndexJs over the rules that match, with `bestMatch` and `matchError`.
  unfoldable pub best_match :
      FindResult Label
      → Option ResolveError
      → List (FindResult Label)
      → FindResult Label × Option ResolveError
  best_match best error [] = (best, error)
  best_match best error (m ∷ ms) =
      let unset = g.equal best.label no_label in
      best_match (if unset then m else best) (if unset then none else some ambiguous) ms

  abbrev pub judge : Label → FindResult Label × Option ResolveError → Label × Option ResolveError
  judge from (best, some error) = (no_label, some error)
  judge from (best, none) =
      if g.equal best.label no_label
      then (no_label, some not_found)
      else if best.is_self_import from
      then (no_label, some skip_import)
      else (best.label, none)

  -- resolveWithIndexJs: a label and an error.
  unfoldable pub resolve_with_index : RuleIndex Label → Str → Label → Label × Option ResolveError
  unfolding best_match
  resolve_with_index ix imp from = judge from (best_match no_result none (ix.find_by_import imp))

  abbrev pub not_found_is_nil : Label × Option ResolveError → Label × Option ResolveError
  not_found_is_nil (l, none) = (l, none)
  not_found_is_nil (l, some skip_import) = (l, some skip_import)
  not_found_is_nil (l, some not_found) = (no_label, none)
  not_found_is_nil (l, some ambiguous) = (no_label, some ambiguous)

  -- resolveJs
  unfoldable pub resolve_js : RuleIndex Label → Str → Label → Option (Label × Option ResolveError)
  resolve_js ix imp from =
      if is_closure_library imp
      then elim (resolve_closure_library imp) [ none ↦ none | some l ↦ some (l, none) ]
      else elim (ix.find_override imp) [
        | some l ↦ some (l, none)
        | none ↦ some (not_found_is_nil (resolve_with_index ix imp from))
      ]

  -- The loop of Resolve over the imports, which fills `depMap`.
  unfoldable pub dep_map : RuleIndex Label → Label → List Str → List Str → Option (List Str)
  dep_map ix from keys [] = some keys
  dep_map ix from keys (imp ∷ imports) = elim (resolve_js ix imp from) [
    | none ↦ none
    | some (l, error) ↦
        dep_map ix from
          (if g.same l no_label
            then keys
            else put_key (g.show (g.rel l (g.repo from) (g.pkg from))) keys)
          imports
  ]

  -- fmt.Sprintf("//" + from.Pkg + ":" + from.Name), of a package and a name with no `%` in them.
  abbrev pub from_label : Label → Str
  from_label from = codes "//" ++ (g.pkg from ++ (codes ":" ++ g.name from))

  -- The deps that Resolve computes, where `order` is the order in which it walks `depMap`.
  unfoldable pub resolve_deps :
      (List Str → List Str) → RuleIndex Label → Label → ImportInfo → Option (List Str)
  resolve_deps order ix from fi =
      let deps = other_deps (from_label from) fi.deps in
      elim (dep_map ix from [] fi.imports) [
        | none ↦ none
        | some keys ↦ some (deps ++ order (delete_keys deps keys))
      ]

  -- Resolve on a rule. With no imports recorded it does nothing.
  unfoldable pub resolve :
      (r : Rules)
      → (List Str → List Str)
      → RuleIndex Label
      → r.Rule
      → Option ImportInfo
      → Label
      → Option r.Rule
  resolve r order ix rule none from = some rule
  resolve r order ix rule (some fi) from = elim (resolve_deps order ix from fi) [
    | none ↦ none
    | some [] ↦ some (r.del_attr rule (codes "deps"))
    | some (d ∷ deps) ↦
        some (r.set_attr (r.del_attr rule (codes "deps")) (codes "deps") (r.strings (d ∷ deps)))
  ]
