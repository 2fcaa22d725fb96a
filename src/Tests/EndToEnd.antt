-- ===== src/Tests/EndToEnd.antt =====
-- From the files of a library to the deps of another rule, and the order of the deps.
use mathlib.Core.List.Memᴰ.{head}
use rules_closure.Prelude.{
  true, false, none, some, ◌≡◌, refl, List, Str, [], ◌∷◌, codes, has_prefix, has_suffix, eq_str,
  eq_str-false,
}
use rules_closure.Path
use rules_closure.Gazelle.{Index}
use rules_closure.Library.Lookup.{listed_rows}
use rules_closure.Resolve.{is_closure_library, is_js_library, resolve_js, resolve_deps}
use rules_closure.Resolve.Provides.{Provides}
use rules_closure.Resolve.EndToEnd.{Entry, found_in, resolve_js-provided}
use rules_closure.Resolve.Order.{Written, resolve_deps-Written}
use rules_closure.Generate.Rules.{existing_test, test_kind, provides_of}
use rules_closure.Sort.{sort_strings}
use rules_closure.Generate.Attrs.Sets.{existing_test_sets}
use rules_closure.Generate.Attrs.{existing_test_keeps}
use rules_closure.Samples.Build.{BuildRule, text, texts, sample_rules, find}
use rules_closure.Samples.Label.{TextLabel, sample_labels, rotated, rotated-IsOrder}
use rules_closure.Tests.Files.{read_in, files, root, react, widget_info, js_file_info_widget}
use rules_closure.Tests.Resolve.{ui_library, app, label_of, sample_index, app_imports, named}

abbrev ui_entry : Entry (read_in files) root react sample_labels sample_rules
ui_entry = record {
  result = record { label = label_of "ui" "ui"; is_self_import = λ l. false };
  rule = ui_library;
  file_path = codes "/r/ui/BUILD";
}

abbrev ui_index : Index TextLabel
ui_index = record {
  find_override = λ x. none;
  find_by_import = found_in (read_in files) root react sample_labels sample_rules (ui_entry ∷ []);
}

widget_provided :
    Provides
      (read_in files)
      root
      react
      (Path.dir (codes "/r/ui/BUILD"))
      (sample_rules.attr_strings ui_library (codes "srcs"))
      (codes "corp.ui.widget")
unfolding Path.dir Path.join find
widget_provided = (codes "widget.js", widget_info, true, head refl, js_file_info_widget, head refl)

not_goog : is_closure_library (codes "corp.ui.widget") ≡ false
unfolding is_closure_library has_prefix
not_goog = refl

ui_library_kind : is_js_library ui_library.kind ≡ true
unfolding is_js_library has_prefix has_suffix
ui_library_kind = refl

resolve_js-provided_example :
    resolve_js sample_labels listed_rows ui_index (codes "corp.ui.widget") app
    ≡ some (label_of "ui" "ui", none)
resolve_js-provided_example =
    resolve_js-provided (read_in files) root react sample_labels sample_rules listed_rows ui_index
      [] [] ui_entry (codes "corp.ui.widget") app (λ y. refl) refl not_goog ui_library_kind
      widget_provided tt tt (named (label_of "ui" "ui") refl) refl

resolve_deps-Written_example :
    (out : List Str) × (resolve_deps sample_labels listed_rows rotated sample_index app app_imports
      ≡ some out)
    × Written sample_labels listed_rows sample_index app app_imports out
resolve_deps-Written_example =
    resolve_deps-Written sample_labels listed_rows rotated sample_index app app_imports
      rotated-IsOrder

abbrev simple_test : BuildRule
simple_test = record {
  kind = codes "closure_js_test";
  name = codes "widget_test";
  attrs =
      (codes "compilation_level", text (codes "SIMPLE"))
      ∷ (codes "srcs", texts (codes "old.js" ∷ []))
      ∷ [];
}

level_known :
    sample_rules.attr simple_test (codes "compilation_level") ≡ some (text (codes "SIMPLE"))
unfolding find
level_known = refl

existing_test_keeps_example :
    sample_rules.attr
      (existing_test sample_rules simple_test
        (widget_info ∷ [])
        widget_info
        (codes "//visibility:public"))
      (codes "compilation_level")
    ≡ some (text (codes "SIMPLE"))
unfolding eq_str
existing_test_keeps_example =
    existing_test_keeps sample_rules simple_test (widget_info ∷ []) widget_info
      (codes "//visibility:public") (codes "compilation_level") (text (codes "SIMPLE")) (head refl)
      level_known (eq_str-false (codes "compilation_level") (codes "srcs") refl)
      (eq_str-false (codes "compilation_level") (codes "entry_points") refl)

existing_test_sets_example :
    let made =
      existing_test sample_rules simple_test (widget_info ∷ []) widget_info (codes "//v") in
    (made.kind ≡ test_kind (widget_info.name ∷ []))
    × (sample_rules.attr made (codes "srcs") ≡ some (texts (sort_strings (widget_info.name ∷ []))))
    × (sample_rules.attr made (codes "entry_points")
        ≡ some (texts (sort_strings (provides_of (widget_info ∷ [])))))
existing_test_sets_example =
    existing_test_sets sample_rules simple_test (widget_info ∷ []) widget_info (codes "//v") refl
      refl
