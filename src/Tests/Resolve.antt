-- ===== src/Tests/Resolve.antt =====
-- Runs of resolve.go on small indexes, and the theorems of its parts there.
use rules_closure.Tests.Files.{react, root, files, read_in}
use rules_closure.Samples.Build.{BuildRule, texts, sample_rules}
use rules_closure.Resolve.Provides.{Provides, imports, imports_lem}
use mathlib.Core.List.Memᴰ.{head}
use rules_closure.Prelude.{
  ℕ, true, false, Option, none, some, ◌≡◌, ◌≢◌, ◌↔◌, ◌⊎◌, refl, List, [], ◌∷◌, Memᴰ, String, Str,
  codes, All, eq_str, has_prefix, if◌then◌else◌, has_suffix, ap,
}
use rules_closure.Distinct.{Distinct, contains, not-mem}
use rules_closure.Gazelle.{FindResult, Index}
use rules_closure.Library.{Row, lookup, row}
use rules_closure.Library.Lookup.{listed_rows}
use rules_closure.Library.Targets.{target_text}
use rules_closure.Resolve
use rules_closure.Path
use rules_closure.Resolve.{
  ResolveError, ImportInfo, is_js_library, is_js_test, resolve_closure_library, resolve_with_index,
  resolve_js, from_label, resolve_deps,
}
use rules_closure.Resolve.Kinds.{kinds_apart}
use rules_closure.Resolve.Index.{Answer, resolve_with_index_lem}
use rules_closure.Resolve.Deps.{Imported, resolve_js-total, resolve_deps_lem}
use rules_closure.Resolve.Listed.{resolve_closure_library-listed}
use rules_closure.Samples.Label.{
  TextLabel, sample_labels, as_is, as_is-IsOrder, no_text_label, parse_label, same_label,
}

extern_library : is_js_library (codes "closure_js_extern_library") ≡ true
unfolding is_js_library has_prefix has_suffix
extern_library = refl

kinds_apart_example : is_js_test (codes "closure_js_extern_library") ≡ false
kinds_apart_example = kinds_apart (codes "closure_js_extern_library") extern_library

-- The row of the map that resolve_test.go looks up.
message_format :
    lookup (codes "goog.i18n.MessageFormat") listed_rows
    ≡ some (codes "//closure/library/i18n:messageformat")
unfolding lookup
message_format = refl

abbrev async_delay : Row
async_delay = row "goog.Delay" "//closure/library/async:delay"

delay_listed : Memᴰ async_delay listed_rows
delay_listed = head refl

delay_prefix : has_prefix async_delay.0 (codes "goog.") ≡ true
unfolding has_prefix
delay_prefix = refl

resolve_closure_library-listed_example :
    (l : TextLabel) × (resolve_closure_library sample_labels listed_rows async_delay.0 ≡ some l)
    × (l.repo ≡ codes "io_bazel_rules_closure")
    × (target_text (l.pkg, l.name) ≡ async_delay.1)
resolve_closure_library-listed_example =
    resolve_closure_library-listed sample_labels async_delay delay_listed delay_prefix

abbrev pub label_of : String → String → TextLabel
label_of p n = record { repo = []; pkg = codes p; name = codes n }

abbrev found : TextLabel → FindResult TextLabel
found l = record { label = l; is_self_import = λ _. false }

-- `corp.msg` is provided by two rules, and any other name by one.
abbrev pub sample_index : Index TextLabel
sample_index = record {
  find_override = λ imp. none;
  find_by_import = λ imp.
      if eq_str imp (codes "corp.msg")
      then found (label_of "" "msg") ∷ found (label_of "other" "msg") ∷ []
      else found (label_of "ui" "widget") ∷ [];
}

abbrev pub app : TextLabel
app = label_of "app" "app"

pub named : (l : TextLabel) {c : ℕ} {n : Str} → l.name ≡ c ∷ n → l ≢ no_text_label
named l h e = let nil : l.name ≡ [] = ap (λ (k : TextLabel). k.name) e in cc

msg_labels :
    All
      (λ (m : FindResult TextLabel). m.label ≢ no_text_label)
      (sample_index.find_by_import (codes "corp.msg"))
unfolding eq_str
msg_labels = (named (label_of "" "msg") refl, (named (label_of "other" "msg") refl, tt))

resolve_with_index_lem_example :
    resolve_with_index sample_labels [] sample_index (codes "corp.msg") app
    ≡ Answer sample_labels [] app (sample_index.find_by_import (codes "corp.msg"))
resolve_with_index_lem_example =
    resolve_with_index_lem sample_labels [] sample_index (codes "corp.msg") app msg_labels

resolve_js-total_example :
    (res : TextLabel × Option ResolveError) × (resolve_js sample_labels listed_rows sample_index
        (codes "goog.nothing")
        app
      ≡ some res)
resolve_js-total_example =
    resolve_js-total sample_labels listed_rows sample_index (codes "goog.nothing") app

abbrev pub app_imports : ImportInfo
app_imports = record {
  imports = codes "goog.Delay" ∷ codes "corp.ui.widget" ∷ codes "corp.msg" ∷ [];
  deps = codes "//js/externs:react" ∷ codes "//app:app" ∷ [];
}

resolve_deps_run :
    resolve_deps sample_labels listed_rows as_is sample_index app app_imports
    ≡ some (
        codes "//js/externs:react"
        ∷ codes "@io_bazel_rules_closure//closure/library/async:delay"
        ∷ codes "@//ui:widget"
        ∷ [])
unfolding resolve_deps Resolve.dep_map Resolve.resolve_js Resolve.is_closure_library
    Resolve.resolve_closure_library Resolve.resolve_with_index Resolve.best_match Resolve.put_key
    Resolve.delete_keys Resolve.other_deps lookup has_prefix parse_label same_label contains
resolve_deps_run = refl

app_deps-Distinct : Distinct app_imports.deps
unfolding contains
app_deps-Distinct = (
  not-mem (codes "//app:app" ∷ []) (codes "//js/externs:react") refl,
  (not-mem [] (codes "//app:app") refl, tt),
)

resolve_deps_lem_example :
    (out : List Str) × (resolve_deps sample_labels listed_rows as_is sample_index app app_imports
      ≡ some out)
    × Distinct out
    × ((x : Str)
        → Memᴰ x out ↔ (
            (Memᴰ x app_imports.deps × (x ≢ from_label sample_labels listed_rows app))
            ⊎ Imported sample_labels listed_rows sample_index app app_imports.imports x))
resolve_deps_lem_example =
    resolve_deps_lem sample_labels listed_rows as_is sample_index app app_imports as_is-IsOrder
      app_deps-Distinct

-- A library whose BUILD file is in the directory ui.
abbrev pub ui_library : BuildRule
ui_library = record {
  kind = codes "closure_js_library";
  name = codes "ui";
  attrs = (codes "srcs", texts (codes "widget.js" ∷ [])) ∷ [];
}

imports_lem_example :
    ((is_js_library ui_library.kind ≡ false)
      × (imports (read_in files) root react sample_rules (codes "/r/ui/BUILD") ui_library
          ≡ some []))
    ⊎ ((is_js_library ui_library.kind ≡ true)
        × ((out : List Str) × (imports
                (read_in files)
                root
                react
                sample_rules
                (codes "/r/ui/BUILD")
                ui_library
              ≡ some out)
            × ((x : Str)
                → Memᴰ x out
                  ↔ Provides
                      (read_in files)
                      root
                      react
                      (Path.dir (codes "/r/ui/BUILD"))
                      (sample_rules.attr_strings ui_library (codes "srcs"))
                      x)))
imports_lem_example =
    imports_lem (read_in files) root react sample_rules (codes "/r/ui/BUILD") ui_library
