-- ===== src/Generate/Attrs/Sets.antt =====
-- What existingTest computes anew: the kind, the sources and the entry points.
use rules_closure.Prelude.{
  false, not, ◌&&◌, ◌||◌, none, some, ◌≡◌, ◌≢◌, refl, ap, ◌∙◌, inl, inr, List, [], ◌∷◌, Str, codes,
  Option-cases, eq_str, eq_str-false, if_rule, if◌then◌else◌,
}
use rules_closure.FileInfo.{FileInfo}
use rules_closure.Gazelle.{Rules}
use rules_closure.Sort.{sort_strings, insert, str_le}
use rules_closure.Generate.Rules.{
  srcs_attr, entry_points_attr, level_attr, visibility_attr, html_attr, is_empty, names_of,
  provides_of, test_kind, set_list, copy_attr, copy_attrs, unset, existing_test,
}
use rules_closure.Generate.Attrs.{Holds, set_other, set_list_other}

abbrev IsSome : List Str → Type 0
IsSome l = is_empty l ≡ false

inserted : (s : Str) (ss : List Str) → is_empty (insert s ss) ≡ false
unfolding insert
inserted s [] = refl
inserted s (t ∷ ts) = if_rule IsSome (str_le s t) (s ∷ t ∷ ts) (t ∷ insert s ts) refl refl

-- Sorting loses nothing where there is something.
sort-is_empty : (s : Str) (ss : List Str) → is_empty (sort_strings (s ∷ ss)) ≡ false
unfolding sort_strings
sort-is_empty s ss = inserted s (sort_strings ss)

sorted : (ss : List Str) → is_empty ss ≡ false → is_empty (sort_strings ss) ≡ false
sorted [] h = cc
sorted (s ∷ ss) h = sort-is_empty s ss

sorted_names :
    (js : List FileInfo) → is_empty js ≡ false → is_empty (sort_strings (names_of js)) ≡ false
sorted_names [] h = cc
sorted_names (fi ∷ fis) h = sort-is_empty fi.name (names_of fis)

module _ (g : Rules) where
  open g use {Rule, Expr}

  abbrev pub OfKind : Str → Rule → Type 0
  OfKind k r = g.kind r ≡ k

  pub set-OfKind : (k key : Str) (v : Expr) (r : Rule) → OfKind k r → OfKind k (g.set_attr r key v)
  set-OfKind k key v r h = g.kind_set r key v ∙ h

  pub set_list-OfKind :
      (k key : Str) (l : List Str) (r : Rule) → OfKind k r → OfKind k (set_list g key l r)
  unfolding set_list
  set_list-OfKind k key l r h =
      if_rule (OfKind k) (is_empty l) _ _ h (set-OfKind k key (g.strings l) r h)

  copy_attr-OfKind :
      (k : Str) (old : Rule) (key : Str) (r : Rule) → OfKind k r → OfKind k (copy_attr g old key r)
  unfolding copy_attr
  copy_attr-OfKind k old key r h =
      if_rule (OfKind k) (eq_str key srcs_attr || eq_str key entry_points_attr) _ _ h
        (elim (Option-cases (g.attr old key)) [
          | inl e ↦
              ap (λ o. g.kind (elim o as (λ _. Rule) [ none ↦ r | some v ↦ g.set_attr r key v ])) e
              ∙ h
          | inr (v, e) ↦
              ap (λ o. g.kind (elim o as (λ _. Rule) [ none ↦ r | some w ↦ g.set_attr r key w ])) e
              ∙ set-OfKind k key v r h
        ])

  copy_attrs-OfKind :
      (k : Str) (old : Rule) (keys : List Str) (r : Rule)
      → OfKind k r
      → OfKind k (copy_attrs g old keys r)
  unfolding copy_attrs
  copy_attrs-OfKind k old [] r h = h
  copy_attrs-OfKind k old (key ∷ keys) r h =
      copy_attrs-OfKind k old keys (copy_attr g old key r) (copy_attr-OfKind k old key r h)

  set_list_self :
      (key : Str) (l : List Str) (r : Rule)
      → is_empty l ≡ false
      → Holds g key (g.strings l) (set_list g key l r)
  unfolding set_list
  set_list_self key l r h = rw h (g.attr_set_self r key (g.strings l))

  -- The last three tests of existingTest.
  abbrev finish : Rule → FileInfo → Str → Rule → Rule
  finish old html vis r =
      let with_level =
        if unset g old level_attr
        then g.set_attr r level_attr (g.string (codes "ADVANCED"))
        else r in
      let with_visibility =
        if unset g old visibility_attr && not (is_empty vis)
        then g.set_attr with_level visibility_attr (g.strings (vis ∷ []))
        else with_level in
      if unset g old html_attr && not (is_empty html.path)
      then g.set_attr with_visibility html_attr (g.string html.name)
      else with_visibility

  -- What setting an attribute keeps, the last three tests keep.
  finish_rule :
      (P : Rule → Type 0) (old : Rule) (html : FileInfo) (vis : Str) (r : Rule)
      → ((v : Expr) (q : Rule) → P q → P (g.set_attr q level_attr v))
      → ((v : Expr) (q : Rule) → P q → P (g.set_attr q visibility_attr v))
      → ((v : Expr) (q : Rule) → P q → P (g.set_attr q html_attr v))
      → P r
      → P (finish old html vis r)
  finish_rule P old html vis r sl sv sh h =
      let with_level =
        if_rule P (unset g old level_attr) (g.set_attr r level_attr (g.string (codes "ADVANCED"))) r
          (sl _ r h) h in
      let with_visibility =
        if_rule P (unset g old visibility_attr && not (is_empty vis)) _ _
          (sv (g.strings (vis ∷ [])) _ with_level) with_level in
      if_rule P (unset g old html_attr && not (is_empty html.path)) _ _
        (sh (g.string html.name) _ with_visibility) with_visibility

  rest_keeps :
      (a : Str) (e : Expr) (old : Rule) (html : FileInfo) (vis : Str) (r : Rule)
      → level_attr ≢ a
      → visibility_attr ≢ a
      → html_attr ≢ a
      → Holds g a e r
      → Holds g a e (finish old html vis r)
  rest_keeps a e old html vis r nl nv nh h =
      finish_rule (Holds g a e) old html vis r (λ v q k. set_other g a level_attr e v q nl k)
        (λ v q k. set_other g a visibility_attr e v q nv k)
        (λ v q k. set_other g a html_attr e v q nh k) h

  -- Of tests that provide something, existingTest makes a rule whose kind is that of a test of their
  -- names, whose sources are their names in order, and whose entry points are what they provide, in
  -- order, whatever the rule had before.
  pub existing_test_sets :
      (old : Rule) (js : List FileInfo) (html : FileInfo) (vis : Str)
      → is_empty js ≡ false
      → is_empty (provides_of js) ≡ false
      → (g.kind (existing_test g old js html vis) ≡ test_kind (names_of js))
        × (g.attr (existing_test g old js html vis) srcs_attr
            ≡ some (g.strings (sort_strings (names_of js))))
        × (g.attr (existing_test g old js html vis) entry_points_attr
            ≡ some (g.strings (sort_strings (provides_of js))))
  unfolding existing_test eq_str
  existing_test_sets old js html vis n m =
      let kind = test_kind (names_of js) in
      let srcs = sort_strings (names_of js) in
      let points = sort_strings (provides_of js) in
      let copied = copy_attrs g old (g.attr_keys old) (g.new_rule kind (g.name old)) in
      let with_srcs = set_list g srcs_attr srcs copied in
      let with_points = set_list g entry_points_attr points with_srcs in
      (
        finish_rule (OfKind kind) old html vis with_points (set-OfKind kind level_attr)
            (set-OfKind kind visibility_attr) (set-OfKind kind html_attr)
            (set_list-OfKind kind entry_points_attr points with_srcs (
              set_list-OfKind kind srcs_attr srcs copied
                (copy_attrs-OfKind kind old (g.attr_keys old) _ (g.kind_new kind (g.name old))))),
        rest_keeps srcs_attr (g.strings srcs) old html vis with_points
            (eq_str-false level_attr srcs_attr refl) (eq_str-false visibility_attr srcs_attr refl)
            (eq_str-false html_attr srcs_attr refl)
            (set_list_other g srcs_attr entry_points_attr (g.strings srcs) points with_srcs
              (eq_str-false entry_points_attr srcs_attr refl)
              (set_list_self srcs_attr srcs copied (sorted_names js n))),
        rest_keeps entry_points_attr (g.strings points) old html vis with_points
            (eq_str-false level_attr entry_points_attr refl)
            (eq_str-false visibility_attr entry_points_attr refl)
            (eq_str-false html_attr entry_points_attr refl)
            (set_list_self entry_points_attr points with_srcs (sorted (provides_of js) m)),
      )
