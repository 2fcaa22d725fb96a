-- ===== src/Tests/Generate.antt =====
-- Runs of generate.go on a directory, and the theorems of its parts there.
use rules_closure.Generate.Total.{SourcesNamed}
use rules_closure.Generate.Named.{read_info-IsNamed}
use rules_closure.Generate.Extension.{IsNamed}
use rules_closure.Generate.PerFile.Result.{per_file_lem}
use rules_closure.Generate.Visit.{imports_of, after_existing, lookup_of, new_sources, new_tests}
use rules_closure.Generate.PerFile.{test_of, library_of}
use rules_closure.Generate.Rules.{
  generate_lib, generate_combined_test, generate_multi_test, existing_lib, generate_test,
}
use rules_closure.Generate.Files.{visit_files}
use rules_closure.Generate.Emit.{
  emit_libraries, emit_lib, emit_all_tests, emit_dir_tests, share_all, share, emit_shared,
  retire_lib, retire_test, emit_libs, emit_tests,
}
use rules_closure.Generate.Existing.{
  index_html, visit_all, visit_existing, is_label, emit_existing, place_existing, collect,
}
use rules_closure.Prelude.{
  false, some, ◌≡◌, ◌↔◌, refl, List, [], ◌∷◌, Memᴰ, Str, codes, length, All, has_prefix, has_suffix,
  map, ◌++◌, true,
}
use rules_closure.Distinct.{Distinct, contains, not-mem}
use rules_closure.Path
use rules_closure.Regexp.{find_all, match}
use rules_closure.Patterns.{decl_regexp, es6_import_regexp, testonly_regexp, token_regexp}
use rules_closure.Config.{new_extern_grep}
use rules_closure.FileInfo.{js_file_info}
use rules_closure.Resolve.{is_js_library, is_js_test}
use rules_closure.Generate.Imports.{dedupe, combine_imports, file_info_imports, new_import_info}
use rules_closure.Generate.Imports.Dedupe.{dedupe_lem, dedupe_stable}
use rules_closure.Generate.State.{Reader, get_html, add_rule, add_empty}
use rules_closure.Tests.Files.{react, root, files, read_in}
use rules_closure.Generate.Run.{
  Args, read_info, generate_rules, lib_name_of, run_state, setting, GenerateResult, rules_of,
}
use rules_closure.Generate.Invariant.{IsRule}
use rules_closure.Generate.Result.{generate_rules_lem}
use rules_closure.Samples.Build.{generated, texts, sample_rules, find}

abbrev repeated : List Str
repeated = codes "b" ∷ codes "a" ∷ codes "b" ∷ []

dedupe_run : dedupe repeated ≡ codes "b" ∷ codes "a" ∷ []
unfolding dedupe contains
dedupe_run = refl

dedupe_lem_example :
    Distinct (dedupe repeated)
    × ((x : Str) → Memᴰ x (dedupe repeated) ↔ Memᴰ x repeated)
    × (dedupe (dedupe repeated) ≡ dedupe repeated)
dedupe_lem_example = dedupe_lem repeated

abbrev single : List Str
single = codes "b" ∷ codes "a" ∷ []

single-Distinct : Distinct single
unfolding contains
single-Distinct = (not-mem (codes "a" ∷ []) (codes "b") refl, (not-mem [] (codes "a") refl, tt))

dedupe_stable_example : dedupe single ≡ single
dedupe_stable_example = dedupe_stable single single-Distinct

-- The directory ui: its rule for the library has lost a source, and its test has an HTML file.
abbrev ui_args : Args sample_rules
ui_args = record {
  rel = codes "ui";
  regular_files =
      codes "README" ∷ codes "widget.js" ∷ codes "widget_test.html" ∷ codes "widget_test.js" ∷ [];
  file = some (record {
    rules =
        record {
          kind = codes "closure_js_library";
          name = codes "deleted";
          attrs = (codes "srcs", texts (codes "gone.js" ∷ [])) ∷ [];
        }
        ∷ [];
    has_default_visibility = false;
  });
  visibility = codes "//visibility:public";
}

abbrev ui_reader : Reader
ui_reader = read_info (read_in files) root react (codes "/r/ui")

generate_run :
    generated (generate_rules sample_rules ui_reader false ui_args)
    ≡ some (
        (codes "closure_js_library", codes "ui")
        ∷ (codes "closure_js_test", codes "widget_test")
        ∷ [])
unfolding generated generate_rules index_html read_info js_file_info read_in find_all match
    decl_regexp es6_import_regexp testonly_regexp new_extern_grep token_regexp Path.join lib_name_of
    run_state visit_all visit_existing is_label find emit_existing place_existing visit_files
    emit_libraries emit_lib emit_all_tests emit_dir_tests share_all share get_html emit_shared
    retire_lib retire_test add_rule add_empty generate_lib generate_combined_test
    generate_multi_test existing_lib collect combine_imports file_info_imports is_js_library
    is_js_test has_prefix has_suffix contains
generate_run = refl

per_file_run :
    generated (generate_rules sample_rules ui_reader true ui_args)
    ≡ some (
        (codes "closure_js_library", codes "widget")
        ∷ (codes "closure_js_test", codes "widget_test")
        ∷ [])
unfolding generated generate_rules index_html read_info js_file_info read_in find_all match
    decl_regexp es6_import_regexp testonly_regexp new_extern_grep token_regexp Path.join lib_name_of
    run_state visit_all visit_existing is_label find emit_existing place_existing visit_files
    emit_libraries emit_lib emit_libs emit_tests generate_test emit_all_tests emit_dir_tests
    share_all share get_html emit_shared retire_lib retire_test add_rule add_empty generate_lib
    generate_combined_test generate_multi_test existing_lib collect combine_imports
    file_info_imports is_js_library is_js_test has_prefix has_suffix contains
per_file_run = refl

ui_reader-IsNamed : IsNamed ui_reader
ui_reader-IsNamed = read_info-IsNamed (read_in files) root react (codes "/r/ui")

ui_sources-SourcesNamed : SourcesNamed sample_rules ui_reader (rules_of sample_rules ui_args.file)
unfolding read_info js_file_info read_in is_label has_prefix Path.join Path.ext find
ui_sources-SourcesNamed = ((refl, tt), tt)

generate_rules_lem_example :
    (out : GenerateResult sample_rules) × (generate_rules sample_rules ui_reader false ui_args
      ≡ some out)
    × (length out.gen ≡ length out.imports)
    × All IsRule out.empty
generate_rules_lem_example =
    generate_rules_lem sample_rules ui_reader false ui_args ui_reader-IsNamed
      ui_sources-SourcesNamed

per_file_lem_example :
    let c = setting sample_rules ui_reader true ui_args in
    let v = after_existing sample_rules ui_reader true ui_args in
    let srcs = new_sources sample_rules ui_reader true ui_args in
    let tsts = new_tests sample_rules ui_reader true ui_args in
    generate_rules sample_rules ui_reader true ui_args
    ≡ some (record {
      gen =
          v.rules
          ++ (map (library_of sample_rules c) srcs
              ++ map (test_of sample_rules c (lookup_of sample_rules ui_reader ui_args)) tsts);
      imports = v.imports ++ (map (imports_of ui_reader) srcs ++ map new_import_info tsts);
      empty = v.empty;
    })
per_file_lem_example = per_file_lem sample_rules ui_reader ui_args ui_reader-IsNamed
