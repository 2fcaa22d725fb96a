-- ===== src/Resolve/EndToEnd.antt =====
-- From what the files of a library provide to the deps of the rules that import it.

use rules_closure.Prelude.{
  true, false, Option, none, some, ◌≡◌, ◌≢◌, refl, ap, ◌∙◌, inl, inr, List, [], ◌∷◌, ◌++◌, Str,
  codes, All, if◌then◌else◌,
}
use rules_closure.Distinct.{contains, mem→contains}
use rules_closure.Path
use rules_closure.Config.{JsConfig}
use rules_closure.Gazelle.{Labels, Rules, FindResult, Index as RuleIndex}
use rules_closure.Library.{Row}
use rules_closure.Resolve.{
  is_closure_library, is_js_library, resolve_js, skip_import, not_found_is_nil,
}
use rules_closure.Resolve.Index.{Answer, resolve_with_index_lem}
use rules_closure.Resolve.Provides.{imports, Provides, imports_lem}

module _ (read : Str → Option Str) (repo_root : Str) (jsc : JsConfig) (g : Labels) (r : Rules) where
  open g use {Label, no_label}

  -- A rule that Gazelle has put in its index, with the BUILD file that it stands in.
  pub record Entry : Type 0 where
    pub result : FindResult Label
    pub rule : r.Rule
    pub file_path : Str

  -- The names under which Imports puts it there.
  abbrev pub names : Entry → List Str
  names e = elim (imports read repo_root jsc r e.file_path e.rule) [ none ↦ [] | some out ↦ out ]

  -- FindRulesByImport: the rules that were put there under the name.
  abbrev pub found_in : List Entry → Str → List (FindResult Label)
  found_in [] x = []
  found_in (e ∷ es) x = if contains (names e) x then e.result ∷ found_in es x else found_in es x

  -- No rule of the list provides the name.
  abbrev pub Absent : List Entry → Str → Type 0
  Absent es x = All (λ d. contains (names d) x ≡ false) es

  found_in-Absent : (es : List Entry) (x : Str) → Absent es x → found_in es x ≡ []
  found_in-Absent [] x h = refl
  found_in-Absent (e ∷ es) x h = rw h.0 (found_in-Absent es x h.1)

  found_in_one :
      (before after : List Entry) (e : Entry) (x : Str)
      → contains (names e) x ≡ true
      → Absent before x
      → Absent after x
      → found_in (before ++ e ∷ after) x ≡ e.result ∷ []
  found_in_one [] after e x h b a = rw h (ap (λ l. e.result ∷ l) (found_in-Absent after x a))
  found_in_one (d ∷ before) after e x h b a = rw b.0 (found_in_one before after e x h b.1 a)

  names_provided :
      (e : Entry) (x : Str)
      → is_js_library (r.kind e.rule) ≡ true
      → Provides read repo_root jsc (Path.dir e.file_path) (r.attr_strings e.rule (codes "srcs")) x
      → contains (names e) x ≡ true
  names_provided e x lib p = elim (imports_lem read repo_root jsc r e.file_path e.rule) [
    | inl (not_lib, _) ↦ cc
    | inr (_, (out, is, iff)) ↦ rw (names, is) (mem→contains out x ((iff x).1 p))
  ]

  -- A name that a file of a library provides, and no other rule of the index, resolves to the label
  -- of the library from any other rule, unless it starts with `goog.` or is overridden, where the
  -- index holds each rule under the names that Imports gives and that label is not empty.
  pub resolve_js-provided :
      (provides : List Row) (ix : RuleIndex Label) (before after : List Entry) (e : Entry) (x : Str)
      (from : Label)
      → ((y : Str) → ix.find_by_import y ≡ found_in (before ++ e ∷ after) y)
      → ix.find_override x ≡ none
      → is_closure_library x ≡ false
      → is_js_library (r.kind e.rule) ≡ true
      → Provides read repo_root jsc (Path.dir e.file_path) (r.attr_strings e.rule (codes "srcs")) x
      → Absent before x
      → Absent after x
      → e.result.label ≢ no_label
      → e.result.is_self_import from ≡ false
      → resolve_js g provides ix x from ≡ some (e.result.label, none)
  unfolding resolve_js
  resolve_js-provided provides ix before after e x from index override name lib p b a labelled
        other =
      let one = index x ∙ found_in_one before after e x (names_provided e x lib p) b a in
      let all : All (λ (m : FindResult Label). m.label ≢ no_label) (ix.find_by_import x) =
        rw one (labelled, tt) in
      let answer = resolve_with_index_lem g provides ix x from all in
      let taken =
        ap (λ self. if self then (no_label, some skip_import) else (e.result.label, none)) other in
      let full = answer ∙ ap (Answer g provides from) one ∙ taken in
      rw (name, override) (ap (λ res. some (not_found_is_nil g provides res)) full)
