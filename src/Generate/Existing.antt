-- ===== src/Generate/Existing.antt =====
-- The first two loops of GenerateRules: the HTML files of the directory, and its existing rules.
use rules_closure.Prelude.{
  Bool, true, false, not, ◌&&◌, ◌||◌, none, some, List, [], ◌∷◌, ◌++◌, Str, codes, if◌then◌else◌,
  eq_str, has_prefix,
}
use rules_closure.Path
use rules_closure.FileInfo.{FileInfo, Ext, html_ext}
use rules_closure.Resolve.{ImportInfo, is_js_library, is_js_test}
use rules_closure.Gazelle.{Rules}
use rules_closure.Generate.Imports.{dedupe}
use rules_closure.Generate.Rules.{zero_info, is_empty, existing_lib, existing_test}
use rules_closure.Generate.State.{
  Reader, Setting, lib_test_name, HtmlLookup, get_html, is_js, State, add_rule, add_empty,
}

abbrev pub is_html : Ext → Bool
is_html html_ext = true
is_html _ = false

-- The loop over the HTML files: htmlLookup, and the names that are accounted for.
unfoldable pub index_html : Reader → List Str → HtmlLookup × List Str → HtmlLookup × List Str
unfolding Path.ext Path.no_ext eq_str
index_html info [] found = found
index_html info (filename ∷ files) (lookup, srcs) =
    let (fi, ok) = info filename in
    index_html info files (
      if eq_str (Path.ext filename) (codes ".html") && ok && fi.is_test && is_html fi.ext
      then ((Path.no_ext fi.name, fi) ∷ lookup, srcs ++ fi.name ∷ [])
      else (lookup, srcs))

-- What the sources of a rule come to.
pub record Sources : Type 0 where
  pub srcs : List Str
  pub requires : List Str
  pub deps : List Str
  pub file_infos : List FileInfo

abbrev pub no_sources : Sources
no_sources = record { srcs = []; requires = []; deps = []; file_infos = [] }

unfoldable pub is_label : Str → Bool
unfolding has_prefix
is_label src = has_prefix src (codes ":") || has_prefix src (codes "//")

abbrev pub add_file : Str → FileInfo → Sources → Sources
add_file src fi c = record {
  srcs = c.srcs ++ src ∷ [];
  requires = if is_js fi.ext then c.requires ++ fi.imports else c.requires;
  deps = if is_js fi.ext then c.deps ++ fi.deps else c.deps;
  file_infos = c.file_infos ++ fi ∷ [];
}

-- Labels stand as they are; a file that cannot be read is left out.
unfoldable pub collect : Reader → List Str → Sources → Sources
unfolding is_label
collect info [] c = c
collect info (src ∷ srcs) c = collect info srcs (
    if is_label src
    then record c { srcs = c.srcs ++ src ∷ [] }
    else if (info src).1
    then add_file src (info src).0 c
    else c)

abbrev pub html_or_zero : Str → HtmlLookup → FileInfo
html_or_zero name lookup = elim (get_html name lookup) [ none ↦ zero_info | some fi ↦ fi ]

module _ (g : Rules) (c : Setting) (lookup : HtmlLookup) where
  open g use {Rule}

  -- The rule of the library or of the tests of the directory: its sources are kept for later.
  unfoldable pub keep_lib : Rule → Sources → State g → State g
  keep_lib r found s = record s {
    lib_existing_rule = some (existing_lib g r found.srcs c.visibility);
    lib_sources = s.lib_sources ++ found.srcs;
    lib_imports = s.lib_imports ++ record { imports = found.requires; deps = found.deps } ∷ [];
  }

  unfoldable pub keep_test : Rule → Sources → State g → State g
  keep_test r found s = record s {
    lib_test_existing_rule = some r;
    lib_test_file_infos = s.lib_test_file_infos ++ found.file_infos;
  }

  abbrev pub found_imports : Sources → ImportInfo
  found_imports found = record { imports = found.requires; deps = dedupe found.deps }

  -- A rule of its own: empty if none of its sources is left, else as it is or, for a test, with its
  -- kind, sources and entry points computed anew.
  unfoldable pub emit_test : Rule → Sources → State g → State g
  unfolding eq_str
  emit_test r found s =
      let made = existing_test g r found.file_infos (html_or_zero (g.name r) lookup) c.visibility in
      let added = add_rule g made (found_imports found) s in
      if eq_str (g.kind r) (g.kind made)
      then added
      else add_empty g (some (g.new_rule (g.kind r) (g.name r))) added

  unfoldable pub emit_existing : Rule → Sources → State g → State g
  unfolding is_js_test
  emit_existing r found s =
      if is_empty found.srcs
      then add_empty g (some (existing_lib g r [] c.visibility)) s
      else if is_js_test (g.kind r)
      then emit_test r found s
      else add_rule g (existing_lib g r found.srcs c.visibility) (found_imports found) s

  -- `switch r.Name()`, for a directory with one rule for all files.
  unfoldable pub place_existing : Rule → Sources → State g → State g
  unfolding eq_str
  place_existing r found s =
      if not c.rule_per_file && eq_str (g.name r) c.lib_name
      then keep_lib r found s
      else if not c.rule_per_file && eq_str (g.name r) (lib_test_name c)
      then keep_test r found s
      else emit_existing r found s

  abbrev pub note_srcs : Sources → State g → State g
  note_srcs found s = record s { existing_rule_srcs = s.existing_rule_srcs ++ found.srcs }

  -- One round of the loop over the existing rules. Other kinds are skipped, and so is a rule whose
  -- `srcs` is missing or a glob.
  unfoldable pub visit_existing : Rule → State g → State g
  unfolding is_js_library is_js_test
  visit_existing r s =
      let found = collect c.info (g.attr_strings r (codes "srcs")) no_sources in
      if not (is_js_library (g.kind r)) && not (is_js_test (g.kind r))
      then s
      else if is_empty (g.attr_strings r (codes "srcs"))
      then s
      else place_existing r found (note_srcs found s)

  unfoldable pub visit_all : List Rule → State g → State g
  visit_all [] s = s
  visit_all (r ∷ rs) s = visit_all rs (visit_existing r s)
