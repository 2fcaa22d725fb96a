-- ===== src/Generate/Attrs.antt =====
-- The attributes that existingTest gives a rule.
pub mod Sets
use mathlib.Core.List.Memᴰ.{head, tail}
use rules_closure.Prelude.{
  Bool, true, false, not, ◌&&◌, ◌||◌, none, some, ◌≡◌, ◌≢◌, arith, sym, ap, ◌∙◌, inl, inr, List, [],
  ◌∷◌, Memᴰ, Str, codes, Bool-cases, Option-cases, eq_str, eq_str_iff, eq_str-false, eq_str_of_ne,
  if_rule, if_cases, if◌then◌else◌,
}
use rules_closure.FileInfo.{FileInfo}
use rules_closure.Gazelle.{Rules}
use rules_closure.Sort.{sort_strings}
use rules_closure.Generate.Rules.{
  srcs_attr, entry_points_attr, level_attr, visibility_attr, html_attr, is_empty, names_of,
  provides_of, test_kind, set_list, copy_attr, copy_attrs, unset, existing_test,
}

and_left : (a b : Bool) → (a && b) ≡ true → a ≡ true
and_left a b h = ground arith

module _ (g : Rules) where
  open g use {Rule, Expr}

  -- The attribute has the value.
  abbrev Holds : Str → Expr → Rule → Type 0
  Holds a e r = g.attr r a ≡ some e

  set_other :
      (a b : Str) (e v : Expr) (r : Rule) → b ≢ a → Holds a e r → Holds a e (g.set_attr r b v)
  set_other a b e v r ne h = g.attr_set_ne r b a v ne ∙ h

  set_list_other :
      (a key : Str) (e : Expr) (l : List Str) (r : Rule)
      → key ≢ a
      → Holds a e r
      → Holds a e (set_list g key l r)
  unfolding set_list
  set_list_other a key e l r ne h =
      if_rule (Holds a e) (is_empty l) _ _ h (set_other a key e (g.strings l) r ne h)

  -- An attribute of the old rule, other than the two that are computed anew.
  module _ (old : Rule) (a : Str) (e : Expr) (known : Holds a e old) (not_srcs : srcs_attr ≢ a)
      (not_points : entry_points_attr ≢ a) where
    copy_attr_self : (r : Rule) → Holds a e (copy_attr g old a r)
    unfolding copy_attr
    copy_attr_self r =
        rw
          (
            eq_str_of_ne a srcs_attr (λ q. not_srcs (sym q)),
            eq_str_of_ne a entry_points_attr (λ q. not_points (sym q)),
            known,
          )
          (g.attr_set_self r a e)

    copy_attr_other :
        (key : Str) (r : Rule) → key ≢ a → Holds a e r → Holds a e (copy_attr g old key r)
    unfolding copy_attr
    copy_attr_other key r ne h =
        if_rule (Holds a e) (eq_str key srcs_attr || eq_str key entry_points_attr) _ _ h
          (elim (Option-cases (g.attr old key)) [
            | inl f ↦
                ap
                  (λ o. g.attr (elim o as (λ _. Rule) [ none ↦ r | some v ↦ g.set_attr r key v ]) a)
                  f
                ∙ h
            | inr (v, f) ↦
                ap
                  (λ o. g.attr (elim o as (λ _. Rule) [ none ↦ r | some w ↦ g.set_attr r key w ]) a)
                  f
                ∙ set_other a key e v r ne h
          ])

    copied : (key : Str) (r : Rule) → Holds a e r → Holds a e (copy_attr g old key r)
    copied key r h = elim (Bool-cases (eq_str key a)) [
      | inl q ↦ rw ((eq_str_iff key a).0 q) (copy_attr_self r)
      | inr q ↦ copy_attr_other key r (eq_str-false key a q) h
    ]

    copy_attrs-keeps :
        (keys : List Str) (r : Rule) → Holds a e r → Holds a e (copy_attrs g old keys r)
    unfolding copy_attrs
    copy_attrs-keeps [] r h = h
    copy_attrs-keeps (key ∷ keys) r h =
        copy_attrs-keeps keys (copy_attr g old key r) (copied key r h)

    copy_attrs-mem :
        (keys : List Str) (r : Rule) → Memᴰ a keys → Holds a e (copy_attrs g old keys r)
    unfolding copy_attrs
    copy_attrs-mem [] r m = elim m [ ]
    copy_attrs-mem (key ∷ keys) r (tail m) = copy_attrs-mem keys (copy_attr g old key r) m
    copy_attrs-mem (key ∷ keys) r (head is) =
        copy_attrs-keeps keys (copy_attr g old key r)
          (ap (λ k. g.attr (copy_attr g old k r) a) (sym is) ∙ copy_attr_self r)

    -- What is set only where the old rule has nothing leaves the attribute alone.
    set_unset :
        (key : Str) (test : Bool) (v : Expr) (r : Rule)
        → (test ≡ true → unset g old key ≡ true)
        → Holds a e r
        → Holds a e (if test then g.set_attr r key v else r)
    set_unset key test v r only h =
        if_cases (Holds a e) test _ _
          (λ t.
            set_other a key e v r
              (λ (q : key ≡ a).
                let is_set : unset g old key ≡ false = rw q (rw (unset, known)) in cc (only t))
              h)
          (λ t. h)

  -- An attribute that the existing test has, other than `srcs` and `entry_points`, stays as it is,
  -- the compilation level, the visibility and the HTML file included.
  pub existing_test_keeps :
      (old : Rule) (js : List FileInfo) (html : FileInfo) (vis : Str) (a : Str) (e : Expr)
      → Memᴰ a (g.attr_keys old)
      → g.attr old a ≡ some e
      → a ≢ srcs_attr
      → a ≢ entry_points_attr
      → g.attr (existing_test g old js html vis) a ≡ some e
  unfolding existing_test
  existing_test_keeps old js html vis a e m known ns np =
      let not_srcs = λ (q : srcs_attr ≡ a). ns (sym q) in
      let not_points = λ (q : entry_points_attr ≡ a). np (sym q) in
      let copied =
        copy_attrs-mem old a e known not_srcs not_points (g.attr_keys old)
          (g.new_rule (test_kind (names_of js)) (g.name old)) m in
      let with_srcs = set_list_other a srcs_attr e (sort_strings (names_of js)) _ not_srcs copied in
      let with_points =
        set_list_other a entry_points_attr e (sort_strings (provides_of js)) _ not_points
          with_srcs in
      let with_level =
        set_unset old a e known not_srcs not_points level_attr (unset g old level_attr)
          (g.string (codes "ADVANCED")) _ (λ t. t) with_points in
      let with_visibility =
        set_unset old a e known not_srcs not_points visibility_attr
          (unset g old visibility_attr && not (is_empty vis)) (g.strings (vis ∷ [])) _
          (and_left _ (not (is_empty vis))) with_level in
      set_unset old a e known not_srcs not_points html_attr
        (unset g old html_attr && not (is_empty html.path)) (g.string html.name) _
        (and_left _ (not (is_empty html.path))) with_visibility
