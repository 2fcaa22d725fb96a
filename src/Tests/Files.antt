-- ===== src/Tests/Files.antt =====
-- Runs of fileinfo.go on a file, and the theorems of its parts at that file.
use rules_closure.FileInfo.SideEffect.{holds, add_imports-no_from}
use rules_closure.FileInfo.RoundTrip.{Declares, add_decls-render}
use rules_closure.Patterns.RoundTrip.{render, captures_of, find_all-render}
use mathlib.Core.List.Memᴰ.{head}
use rules_closure.Prelude.{
  true, false, Option, none, some, ◌≡◌, ◌↔◌, ◌⊎◌, refl, List, [], ◌∷◌, Memᴰ, String, Str, codes,
  eq_str, has_prefix, if◌then◌else◌, has_suffix, map, All,
}
use rules_closure.Distinct.{Distinct}
use rules_closure.Regexp.{Captures, find_all, match}
use rules_closure.Patterns.{decl_regexp, es6_import_regexp, testonly_regexp, token_regexp}
use rules_closure.Patterns.TestOnly.{set_test_only}
use rules_closure.Patterns.Extern.{Stands, match-token}
use rules_closure.Patterns.Declarations.{
  DeclKind, IsIdentifier, decl_captures, decl_captures_shape, require, declare_module,
}
use rules_closure.Config.{new_extern_grep, JsConfig}
use rules_closure.FileInfo.{
  FileInfo, js_ext, goog_module, file_name_info, js_file_info, add_decls, add_imports,
}
use rules_closure.Path
use rules_closure.FileInfo.Named.{file_name_info-is_test}
use rules_closure.FileInfo.Total.{js_file_info-total}
use rules_closure.FileInfo.Externs.{Found}
use rules_closure.FileInfo.Result.{
  Keeps, js_file_info-Keeps, js_file_info-is_test_only, js_file_info-deps,
}

-- A file system of four files.
abbrev widget : Str
widget =
    codes
      "goog.module('corp.ui.widget');\n\nconst msg = goog.require('corp.msg');\nReact.render();\n"

abbrev pub files : List (String × Str)
files =
    ("/r/ui/widget.js", widget)
    ∷ (
      "/r/ui/widget_test.js",
      codes "goog.module('corp.ui.widgetTest');\ngoog.require('corp.ui.widget');\n",
    )
    ∷ ("/r/ui/widget_test.html", codes "<html></html>")
    ∷ ("/r/ui/README", codes "")
    ∷ []

unfoldable pub read_in : List (String × Str) → Str → Option Str
unfolding eq_str
read_in [] path = none
read_in ((name, b) ∷ fs) path = if eq_str (codes name) path then some b else read_in fs path

abbrev pub react : JsConfig
react = record {
  grep_externs = new_extern_grep (codes "React") (codes "//js/externs:react") ∷ [];
  rule_per_file = false;
}

abbrev pub root : Str
root = codes "/r"

abbrev widget_path : Str
widget_path = codes "/r/ui/widget.js"

abbrev pub widget_info : FileInfo
widget_info = record {
  path = widget_path;
  name = codes "widget.js";
  ext = js_ext;
  provides = codes "corp.ui.widget" ∷ [];
  is_test = false;
  is_test_only = false;
  module_type = goog_module;
  imports = codes "corp.msg" ∷ [];
  deps = codes "//js/externs:react" ∷ [];
}

widget_read : read_in files widget_path ≡ some widget
unfolding read_in
widget_read = refl

pub js_file_info_widget :
    js_file_info (read_in files) root react widget_path ≡ some (widget_info, true)
unfolding js_file_info read_in find_all match decl_regexp es6_import_regexp testonly_regexp
    new_extern_grep token_regexp
js_file_info_widget = refl

-- An import of an ES6 module is resolved against the directory of its file.
es6_imports :
    js_file_info
      (λ p. some (codes "import {\n  a,\n} from '../../shapes';\nimport w from 'goog:corp.w';\n"))
      root
      react
      (codes "/r/path/to/app/ListEdit.jsx")
    ≡ some (
      record (file_name_info (codes "/r/path/to/app/ListEdit.jsx")) {
        provides = codes "/path/to/app/ListEdit" ∷ [];
        imports = codes "/path/shapes" ∷ codes "corp.w" ∷ [];
      },
      true,
    )
unfolding js_file_info read_in find_all match decl_regexp es6_import_regexp testonly_regexp
    new_extern_grep token_regexp
es6_imports = refl

js_file_info-total_example :
    ((read_in files (codes "/r/none.js") ≡ none)
      × (js_file_info (read_in files) root react (codes "/r/none.js")
          ≡ some (file_name_info (codes "/r/none.js"), false)))
    ⊎ ((b : Str) × (info : FileInfo) × (read_in files (codes "/r/none.js") ≡ some b)
        × (js_file_info (read_in files) root react (codes "/r/none.js") ≡ some (info, true)))
js_file_info-total_example = js_file_info-total (read_in files) root react (codes "/r/none.js")

js_file_info-Keeps_example : Keeps (file_name_info widget_path) widget_info
js_file_info-Keeps_example =
    js_file_info-Keeps (read_in files) root react widget_path widget_read js_file_info_widget

js_file_info-is_test_only_example :
    (widget_info.is_test_only ≡ true) ↔ (has_prefix widget set_test_only ≡ true)
js_file_info-is_test_only_example =
    js_file_info-is_test_only (read_in files) root react widget_path widget_read js_file_info_widget

js_file_info-deps_example :
    Distinct widget_info.deps
    × ((l : Str) → Memᴰ l widget_info.deps ↔ Found widget react.grep_externs l)
js_file_info-deps_example =
    js_file_info-deps (read_in files) root react widget_path widget_read js_file_info_widget

match-token_example :
    (match (token_regexp (codes "React")) widget ≡ true) ↔ Stands (codes "React") widget
match-token_example = match-token (codes "React") widget

abbrev module_captures : Captures
module_captures = (1, codes "module") ∷ (2, codes "corp.ui.widget") ∷ []

widget_captures :
    find_all decl_regexp widget
    ≡ module_captures ∷ ((1, codes "require") ∷ (2, codes "corp.msg") ∷ []) ∷ []
unfolding find_all decl_regexp
widget_captures = refl

module_captured : Memᴰ module_captures (find_all decl_regexp widget)
module_captured = rw widget_captures (head refl)

decl_captures_shape_example :
    (k : DeclKind) × (id : Str) × IsIdentifier id × (module_captures ≡ decl_captures k id)
decl_captures_shape_example = decl_captures_shape widget module_captures module_captured

file_name_info-is_test_example :
    ((file_name_info (codes "/r/ui/widget_test.js")).is_test ≡ true)
    ↔ (has_suffix (Path.no_ext (Path.base (codes "/r/ui/widget_test.js"))) (codes "_test") ≡ true)
file_name_info-is_test_example = file_name_info-is_test (codes "/r/ui/widget_test.js")

abbrev two_decls : List (DeclKind × Str)
two_decls = (declare_module, codes "corp.a") ∷ (require, codes "corp.b") ∷ []

two_decls-IsIdentifier : All (λ d. IsIdentifier d.1) two_decls
two_decls-IsIdentifier = (
  ((λ e. cc), (refl, (refl, (refl, (refl, (refl, (refl, tt))))))),
  (((λ e. cc), (refl, (refl, (refl, (refl, (refl, (refl, tt))))))), tt),
)

find_all-render_example : find_all decl_regexp (render two_decls) ≡ map captures_of two_decls
find_all-render_example = find_all-render two_decls two_decls-IsIdentifier

add_decls-render_example :
    (out : FileInfo) × (add_decls widget_info (find_all decl_regexp (render two_decls)) ≡ some out)
    × Declares widget_info two_decls out
add_decls-render_example = add_decls-render widget_info two_decls two_decls-IsIdentifier

abbrev side_effect : Str
side_effect = codes "import './polyfill';\n"

add_imports-no_from_example :
    add_imports root widget_path widget_info (find_all es6_import_regexp side_effect) ≡ widget_info
unfolding holds has_prefix
add_imports-no_from_example = add_imports-no_from root widget_path widget_info side_effect refl
