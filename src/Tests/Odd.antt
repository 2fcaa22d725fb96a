-- ===== src/Tests/Odd.antt =====
-- Existing tests of a directory whose sources are not JavaScript.
use rules_closure.Generate.Panic.{Panics}
use rules_closure.Kinds.{js_kinds, kind_info}
use rules_closure.Generate.Visit.{after_existing, lookup_of, new_tests}
use rules_closure.Generate.Rules.{
  generate_lib, generate_combined_test, generate_multi_test, existing_lib,
}
use rules_closure.Generate.Files.{visit_files}
use rules_closure.Generate.Emit.{
  emit_libraries, emit_lib, emit_all_tests, emit_dir_tests, share_all, share, emit_shared,
  retire_lib, retire_test,
}
use rules_closure.Generate.Existing.{
  index_html, visit_all, visit_existing, is_label, emit_existing, place_existing, collect,
  keep_test,
}
use rules_closure.Prelude.{
  false, some, ◌≡◌, ◌↔◌, refl, List, [], ◌∷◌, Memᴰ, Str, codes, has_prefix, has_suffix, ◌++◌, none,
  String,
}
use rules_closure.Distinct.{contains}
use rules_closure.Path
use rules_closure.Regexp.{find_all, match}
use rules_closure.Patterns.{decl_regexp, es6_import_regexp, testonly_regexp, token_regexp}
use rules_closure.Config.{new_extern_grep}
use rules_closure.FileInfo.{js_file_info, FileInfo}
use rules_closure.Resolve.{is_js_library, is_js_test}
use rules_closure.Generate.Imports.{combine_imports, file_info_imports}
use rules_closure.Generate.State.{Reader, get_html, add_rule, add_empty}
use rules_closure.Tests.Files.{react, root, read_in}
use rules_closure.Generate.Run.{Args, read_info, generate_rules, lib_name_of, run_state, setting}
use rules_closure.Samples.Build.{generated, texts, sample_rules, find}
use rules_closure.Generate.Panic.Run.{generate_rules-none}
use rules_closure.Generate.Visit.{after_existing, lookup_of, new_tests}

-- A test with no extension beside an HTML file of its name: Go panics.
abbrev odd_files : List (String × Str)
odd_files = ("/r/ui/foo_test", codes "") ∷ ("/r/ui/foo_test.html", codes "") ∷ []

abbrev odd_args : Args sample_rules
odd_args = record {
  rel = codes "ui";
  regular_files = codes "foo_test" ∷ codes "foo_test.html" ∷ [];
  file = some (record {
    rules =
        record {
          kind = codes "closure_js_test";
          name = codes "ui_test";
          attrs = (codes "srcs", texts (codes "foo_test" ∷ [])) ∷ [];
        }
        ∷ [];
    has_default_visibility = false;
  });
  visibility = codes "//visibility:public";
}

abbrev odd_reader : Reader
odd_reader = read_info (read_in odd_files) root react (codes "/r/ui")

odd_run : generated (generate_rules sample_rules odd_reader false odd_args) ≡ none
unfolding generated generate_rules index_html read_info js_file_info read_in find_all match
    decl_regexp es6_import_regexp testonly_regexp new_extern_grep token_regexp Path.join lib_name_of
    run_state visit_all visit_existing is_label find emit_existing place_existing keep_test
    visit_files emit_libraries emit_lib emit_all_tests emit_dir_tests share_all share get_html
    emit_shared retire_lib retire_test add_rule add_empty generate_lib generate_combined_test
    generate_multi_test existing_lib collect combine_imports file_info_imports is_js_library
    is_js_test has_prefix has_suffix contains
odd_run = refl

generate_rules-none_example : (generate_rules sample_rules odd_reader false odd_args ≡ none) ↔ (
    (fi : FileInfo) × Memᴰ fi (
      (after_existing sample_rules odd_reader false odd_args).lib_test_file_infos
      ++ new_tests sample_rules odd_reader false odd_args)
    × Panics
        (setting sample_rules odd_reader false odd_args)
        (lookup_of sample_rules odd_reader odd_args)
        fi)
generate_rules-none_example = generate_rules-none sample_rules odd_reader odd_args

-- A test in another language beside an HTML file of its name: its rule has a kind that no table
-- knows.
abbrev ts_files : List (String × Str)
ts_files = ("/r/ui/foo_test.ts", codes "") ∷ ("/r/ui/foo_test.html", codes "") ∷ []

abbrev ts_args : Args sample_rules
ts_args = record {
  rel = codes "ui";
  regular_files = codes "foo_test.ts" ∷ codes "foo_test.html" ∷ [];
  file = some (record {
    rules =
        record {
          kind = codes "closure_js_test";
          name = codes "ui_test";
          attrs = (codes "srcs", texts (codes "foo_test.ts" ∷ [])) ∷ [];
        }
        ∷ [];
    has_default_visibility = false;
  });
  visibility = codes "//visibility:public";
}

abbrev ts_reader : Reader
ts_reader = read_info (read_in ts_files) root react (codes "/r/ui")

ts_run :
    generated (generate_rules sample_rules ts_reader false ts_args)
    ≡ some ((codes "closure_ts_test", codes "foo_test") ∷ [])
unfolding generated generate_rules index_html read_info js_file_info read_in find_all match
    decl_regexp es6_import_regexp testonly_regexp new_extern_grep token_regexp Path.join lib_name_of
    run_state visit_all visit_existing is_label find emit_existing place_existing keep_test
    visit_files emit_libraries emit_lib emit_all_tests emit_dir_tests share_all share get_html
    emit_shared retire_lib retire_test add_rule add_empty generate_lib generate_combined_test
    generate_multi_test existing_lib collect combine_imports file_info_imports is_js_library
    is_js_test has_prefix has_suffix contains
ts_run = refl

ts_kind_unknown : kind_info (codes "closure_ts_test") js_kinds ≡ none
unfolding kind_info
ts_kind_unknown = refl
