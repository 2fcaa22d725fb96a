-- ===== src/Generate/Emit.antt =====
-- The last part of GenerateRules: the rules of the libraries and of the tests.
use rules_closure.Prelude.{
  Option, none, some, List, [], ◌∷◌, ◌++◌, Str, if◌then◌else◌, eq_str, ◌>>=◌,
}
use rules_closure.Path
use rules_closure.FileInfo.{FileInfo}
use rules_closure.Resolve.{ImportInfo}
use rules_closure.Gazelle.{Rules}
use rules_closure.Generate.Imports.{new_import_info, file_info_imports, combine_imports}
use rules_closure.Generate.Rules.{
  zero_info, is_empty, html_attr, existing_lib, generate_lib, generate_multi_test, generate_test,
  generate_combined_test,
}
use rules_closure.Generate.State.{
  Setting, lib_test_name, HtmlLookup, get_html, State, add_rule, add_empty,
}

module _ (g : Rules) (c : Setting) (lookup : HtmlLookup) where
  open g use {Rule}

  -- A library for each source, with the imports at its index: a panic where there are none.
  unfoldable pub emit_libs : List Str → List ImportInfo → State g → Option (State g)
  unfolding add_rule generate_lib Path.no_ext
  emit_libs [] iis s = some s
  emit_libs (src ∷ srcs) [] s = none
  emit_libs (src ∷ srcs) (ii ∷ iis) s =
      emit_libs srcs iis
        (add_rule g (generate_lib g (Path.no_ext src) (src ∷ []) c.visibility) ii s)

  -- If the kind of a rule has changed, the old one is emitted empty.
  unfoldable pub retire_lib : Option Rule → Rule → State g → State g
  unfolding eq_str
  retire_lib none made s = s
  retire_lib (some old) made s =
      if eq_str (g.kind old) (g.kind made)
      then s
      else add_empty g (some (existing_lib g old [] c.visibility)) s

  unfoldable pub emit_lib : State g → State g
  emit_lib s =
      let made = generate_lib g c.lib_name s.lib_sources c.visibility in
      if is_empty s.lib_imports
      then s
      else if is_empty s.lib_sources
      then add_empty g s.lib_existing_rule s
      else retire_lib s.lib_existing_rule made (add_rule g made (combine_imports s.lib_imports) s)

  unfoldable pub emit_libraries : State g → Option (State g)
  emit_libraries s =
      if c.rule_per_file then emit_libs s.lib_sources s.lib_imports s else some (emit_lib s)

  -- A test for each file, with the HTML file of its name where there is one.
  abbrev pub test_rule : FileInfo → Option Rule
  test_rule fi = elim (get_html (Path.no_ext fi.name) lookup) [
    | some html ↦ generate_combined_test g fi html c.visibility
    | none ↦ generate_test g fi c.visibility
  ]

  unfoldable pub emit_tests : List FileInfo → State g → Option (State g)
  emit_tests [] s = some s
  emit_tests (fi ∷ fis) s = do
    r ← test_rule fi
    emit_tests fis (add_rule g r (new_import_info fi) s)

  -- The tests with no HTML file, `dirHTML`, and the state.
  pub record Shared : Type 0 where
    pub no_html : List FileInfo
    pub dir_html : FileInfo
    pub state : State g

  unfoldable pub share : FileInfo → Shared → Option Shared
  unfolding eq_str
  share fi p = elim (get_html (Path.no_ext fi.name) lookup) [
    | some html ↦
        if eq_str (Path.no_ext fi.name) (lib_test_name c)
        then some (record p { dir_html = html; no_html = p.no_html ++ fi ∷ [] })
        else do
          r ← generate_combined_test g fi html c.visibility
          some (record p { state = add_rule g r (file_info_imports (fi ∷ [])) p.state })
    | none ↦ some (record p { no_html = p.no_html ++ fi ∷ [] })
  ]

  unfoldable pub share_all : List FileInfo → Shared → Option Shared
  share_all [] p = some p
  share_all (fi ∷ fis) p = do p' ← share fi p; share_all fis p'

  unfoldable pub retire_test : Option Rule → Rule → State g → State g
  unfolding eq_str
  retire_test none made s = s
  retire_test (some old) made s =
      if eq_str (g.kind old) (g.kind made)
      then s
      else add_empty g (some (g.new_rule (g.kind old) (g.name old))) s

  abbrev pub multi_test : List FileInfo → FileInfo → Rule
  multi_test fis html =
      let made = generate_multi_test g (lib_test_name c) fis c.visibility in
      if is_empty html.path then made else g.set_attr made html_attr (g.string html.name)

  unfoldable pub emit_shared : Shared → State g
  emit_shared p =
      let made = multi_test p.no_html p.dir_html in
      if is_empty p.no_html
      then p.state
      else retire_test p.state.lib_test_existing_rule made
          (add_rule g made (file_info_imports p.no_html) p.state)

  unfoldable pub emit_dir_tests : State g → Option (State g)
  emit_dir_tests s =
      if is_empty s.lib_test_file_infos
      then some (add_empty g (some (generate_multi_test g (lib_test_name c) [] c.visibility)) s)
      else do
        p ←
            share_all s.lib_test_file_infos
              (record { no_html = []; dir_html = zero_info; state = s })
        some (emit_shared p)

  unfoldable pub emit_all_tests : State g → Option (State g)
  emit_all_tests s =
      if c.rule_per_file then emit_tests s.lib_test_file_infos s else emit_dir_tests s
