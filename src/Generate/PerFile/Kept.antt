-- ===== src/Generate/PerFile/Kept.antt =====
-- Where each file has a rule, no source of an existing rule is kept for the directory.
use rules_closure.Generate.Existing.{
  Sources, collect, no_sources, html_or_zero, emit_test, emit_existing, note_srcs, place_existing,
  visit_existing, visit_all,
}
use rules_closure.Generate.Rules.{is_empty, existing_test}
use rules_closure.Prelude.{
  Bool, true, false, not, ◌&&◌, ◌≡◌, refl, List, [], ◌∷◌, ◌∙◌, eq_str, codes, if◌then◌else◌,
}
use rules_closure.Resolve.{is_js_library, is_js_test}
use rules_closure.Gazelle.{Rules}
use rules_closure.Generate.State.{Setting, State, HtmlLookup, add_rule, add_empty}

module _ (g : Rules) where
  open g use {Rule}

  -- No source and no test has been kept for the directory.
  pub record Free (s : State g) : Type 0 where
    pub no_sources : s.lib_sources ≡ []
    pub no_imports : s.lib_imports ≡ []
    pub no_tests : s.lib_test_file_infos ≡ []

  same-Free :
      (s t : State g)
      → t.lib_sources ≡ s.lib_sources
      → t.lib_imports ≡ s.lib_imports
      → t.lib_test_file_infos ≡ s.lib_test_file_infos
      → Free s
      → Free t
  same-Free s t e f h v = record {
    no_sources = e ∙ v.no_sources;
    no_imports = f ∙ v.no_imports;
    no_tests = h ∙ v.no_tests;
  }

  if-Free : (b : Bool) (s t : State g) → Free s → Free t → Free (if b then s else t)
  if-Free true s t v w = v
  if-Free false s t v w = w

  module _ (c : Setting) (lookup : HtmlLookup) where
    emit_existing-Free :
        (r : Rule) (found : Sources) (s : State g)
        → Free s
        → Free (emit_existing g c lookup r found s)
    unfolding emit_existing emit_test add_rule add_empty
    emit_existing-Free r found s v =
        if-Free (is_empty found.srcs) _ _ (same-Free s _ refl refl refl v) (
          if-Free (is_js_test (g.kind r)) _ _
            (if-Free
              (eq_str (g.kind r) (
                g.kind (
                  existing_test g r found.file_infos (html_or_zero (g.name r) lookup)
                    c.visibility)))
              _ _ (same-Free s _ refl refl refl v) (same-Free s _ refl refl refl v))
            (same-Free s _ refl refl refl v))

    place_existing-Free :
        (r : Rule) (found : Sources) (s : State g)
        → c.rule_per_file ≡ true
        → Free s
        → Free (place_existing g c lookup r found s)
    unfolding place_existing
    place_existing-Free r found s p v = simp p (emit_existing-Free r found s v)

    pub visit_all-Free :
        (rs : List Rule) (s : State g)
        → c.rule_per_file ≡ true
        → Free s
        → Free (visit_all g c lookup rs s)
    unfolding visit_all visit_existing
    visit_all-Free [] s p v = v
    visit_all-Free (r ∷ rs) s p v =
        let found = collect c.info (g.attr_strings r (codes "srcs")) no_sources in
        visit_all-Free rs (visit_existing g c lookup r s) p (
          if-Free (not (is_js_library (g.kind r)) && not (is_js_test (g.kind r))) _ _ v (
            if-Free (is_empty (g.attr_strings r (codes "srcs"))) _ _ v (
              place_existing-Free r found (note_srcs g c lookup found s) p
                (same-Free s _ refl refl refl v))))
