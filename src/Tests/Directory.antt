-- ===== src/Tests/Directory.antt =====
-- A run of generate.go on a directory with tests of every sort, and the theorem on it.
use mathlib.Core.List.Memᴰ.{head, tail}
use rules_closure.Generate.Known.{IsKnown, added_rules-IsKnown}
use rules_closure.Generate.Covered.{InLibrary, InTest, per_file_covers, dir_covers}
use rules_closure.Generate.PerFile.{library_of, test_of}
use rules_closure.Generate.Run.{
  Args, read_info, generate_rules, GenerateResult, setting, lib_name_of, run_state,
}
use rules_closure.Generate.Extension.{IsNamed}
use rules_closure.Generate.Named.{read_info-IsNamed}
use rules_closure.Generate.Existing.{
  emit_test, index_html, visit_all, visit_existing, is_label, place_existing, collect, keep_test,
}
use rules_closure.Generate.State.{Reader, get_html}
use rules_closure.Generate.Imports.{combine_imports, file_info_imports}
use rules_closure.Generate.Files.{visit_files}
use rules_closure.Generate.Visit.{
  is_new, imports_of, after_existing, lookup_of, new_sources, new_tests, IsJs,
}
use rules_closure.Generate.Directory.Adds.{dir_rules, dir_imports}
use rules_closure.Generate.Directory.Result.{dir_lem, test_rules, test_imports}
use rules_closure.Generate.Rules.{
  existing_test, generate_lib, generate_combined_test, generate_multi_test, existing_lib,
}
use rules_closure.Generate.Emit.{
  emit_libraries, emit_lib, emit_all_tests, emit_dir_tests, share_all, share, emit_shared,
  retire_lib, retire_test,
}
use rules_closure.Generate.State.{add_rule, add_empty}
use rules_closure.Generate.Existing.{emit_existing}
use rules_closure.Prelude.{
  true, Bool, Memᴰ, ◌⊎◌, false, some, ◌≡◌, refl, List, [], ◌∷◌, ◌++◌, Str, codes, All, map, String,
  has_prefix, has_suffix,
}
use rules_closure.Path
use rules_closure.Sort.{sort_strings}
use rules_closure.Distinct.{contains}
use rules_closure.Regexp.{find_all, match}
use rules_closure.Patterns.{decl_regexp, es6_import_regexp, testonly_regexp, token_regexp}
use rules_closure.Config.{new_extern_grep}
use rules_closure.FileInfo.{js_file_info}
use rules_closure.Resolve.{is_js_library, is_js_test}
use rules_closure.Tests.Files.{react, root, read_in}
use rules_closure.Samples.Build.{BuildRule, generated, texts, sample_rules, find}

-- Two tests have HTML files, one of them named like the directory's test.
abbrev page_files : List (String × Str)
page_files =
    ("/r/page/a.js", codes "goog.provide('a');")
    ∷ ("/r/page/b_test.html", codes "")
    ∷ ("/r/page/b_test.js", codes "goog.require('a');")
    ∷ ("/r/page/c_test.js", codes "")
    ∷ ("/r/page/page_test.html", codes "")
    ∷ ("/r/page/page_test.js", codes "")
    ∷ []

abbrev page_reader : Reader
page_reader = read_info (read_in page_files) root react (codes "/r/page")

abbrev page_args : Args sample_rules
page_args = record {
  rel = codes "page";
  regular_files =
      codes "a.js"
      ∷ codes "b_test.html"
      ∷ codes "b_test.js"
      ∷ codes "c_test.js"
      ∷ codes "page_test.html"
      ∷ codes "page_test.js"
      ∷ [];
  file = some (record {
    rules =
        record {
          kind = codes "closure_js_test";
          name = codes "page_test";
          attrs = (codes "srcs", texts (codes "page_test.js" ∷ [])) ∷ [];
        }
        ∷ [];
    has_default_visibility = false;
  });
  visibility = codes "//visibility:public";
}

page_reader-IsNamed : IsNamed page_reader
page_reader-IsNamed = read_info-IsNamed (read_in page_files) root react (codes "/r/page")

page_tests-IsJs :
    All IsJs (after_existing sample_rules page_reader false page_args).lib_test_file_infos
unfolding lib_name_of read_info js_file_info read_in is_label has_prefix Path.join Path.ext find
    index_html visit_all visit_existing place_existing keep_test collect get_html is_js_library
    is_js_test has_suffix find_all match decl_regexp es6_import_regexp testonly_regexp
    new_extern_grep token_regexp contains
page_tests-IsJs = ((refl, refl), tt)

page_run :
    generated (generate_rules sample_rules page_reader false page_args)
    ≡ some (
        (codes "closure_js_library", codes "page")
        ∷ (codes "closure_js_test", codes "b_test")
        ∷ (codes "closure_js_test", codes "page_test")
        ∷ [])
unfolding sort_strings generated generate_rules index_html read_info js_file_info read_in find_all
    match decl_regexp es6_import_regexp testonly_regexp new_extern_grep token_regexp Path.join
    lib_name_of run_state visit_all visit_existing is_label find emit_existing place_existing
    keep_test visit_files emit_libraries emit_lib emit_all_tests emit_dir_tests share_all share
    get_html emit_shared retire_lib retire_test add_rule add_empty generate_lib
    generate_combined_test generate_multi_test existing_lib collect combine_imports
    file_info_imports is_js_library is_js_test has_prefix has_suffix contains
page_run = refl

dir_lem_example :
    let g = sample_rules in
    let c = setting g page_reader false page_args in
    let v = after_existing g page_reader false page_args in
    let srcs = v.lib_sources ++ new_sources g page_reader false page_args in
    let iis =
      v.lib_imports ++ map (imports_of page_reader) (new_sources g page_reader false page_args) in
    let tsts = v.lib_test_file_infos ++ new_tests g page_reader false page_args in
    (out : GenerateResult g) × (generate_rules g page_reader false page_args ≡ some out)
    × (out.gen
        ≡ v.rules
          ++ (dir_rules g c srcs iis ++ test_rules g c (lookup_of g page_reader page_args) tsts))
    × (out.imports
        ≡ v.imports
          ++ (dir_imports g srcs iis ++ test_imports g c (lookup_of g page_reader page_args) tsts))
dir_lem_example = dir_lem sample_rules page_reader page_args page_reader-IsNamed page_tests-IsJs

page_member : Memᴰ (codes "c_test.js") page_args.regular_files
page_member = tail (tail (tail (head refl)))

page_new :
    (per_file : Bool)
    → is_new page_reader
        (after_existing sample_rules page_reader per_file page_args).existing_rule_srcs
        (codes "c_test.js")
      ≡ true
unfolding emit_existing emit_test existing_test sort_strings add_rule lib_name_of read_info
    js_file_info read_in is_label has_prefix Path.join Path.ext find index_html visit_all
    visit_existing place_existing keep_test collect get_html is_js_library is_js_test has_suffix
    find_all match decl_regexp es6_import_regexp testonly_regexp new_extern_grep token_regexp
    contains
page_new true = refl
page_new false = refl

per_file_covers_example :
    let c = setting sample_rules page_reader true page_args in
    (out : GenerateResult sample_rules) × (generate_rules sample_rules page_reader true page_args
      ≡ some out)
    × (Memᴰ (library_of sample_rules c (codes "c_test.js")) out.gen
        ⊎ Memᴰ
            (test_of sample_rules c
              (lookup_of sample_rules page_reader page_args)
              (page_reader (codes "c_test.js")).0)
            out.gen)
per_file_covers_example =
    per_file_covers sample_rules page_reader page_args (codes "c_test.js") page_reader-IsNamed
      page_member (page_new true)

dir_covers_example :
    let c = setting sample_rules page_reader false page_args in
    (out : GenerateResult sample_rules) × (generate_rules sample_rules page_reader false page_args
      ≡ some out)
    × (InLibrary sample_rules c (codes "c_test.js") out.gen
        ⊎ InTest sample_rules c
            (lookup_of sample_rules page_reader page_args)
            (page_reader (codes "c_test.js")).0
            out.gen)
dir_covers_example =
    dir_covers sample_rules page_reader page_args (codes "c_test.js") page_reader-IsNamed
      page_tests-IsJs page_member (page_new false)

added_rules-IsKnown_example :
    (out : GenerateResult sample_rules) × (added : List BuildRule) × (generate_rules sample_rules
        page_reader false page_args
      ≡ some out)
    × (out.gen ≡ (after_existing sample_rules page_reader false page_args).rules ++ added)
    × All (IsKnown sample_rules) added
added_rules-IsKnown_example =
    added_rules-IsKnown sample_rules page_reader false page_args page_reader-IsNamed page_tests-IsJs
