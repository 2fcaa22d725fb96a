-- ===== src/Tests/Modules.antt =====
-- An ES6 import of one file by another, and the extension of a name, by their theorems.
use rules_closure.Prelude.{
  true, some, ◌≡◌, refl, List, [], ◌∷◌, ◌++◌, Str, codes, String, ◌≤◌, length, eq_str,
}
use rules_closure.Path
use rules_closure.Path.{slash, join_with}
use rules_closure.Path.Elements.{IsElement}
use rules_closure.Path.Extension.{no_ext-ext}
use rules_closure.Regexp.{find_all}
use rules_closure.Patterns.{decl_regexp}
use rules_closure.FileInfo.{FileInfo, js_file_info, module_name}
use rules_closure.FileInfo.Modules.{module_name-provided}
use rules_closure.Tests.Files.{react, read_in}

abbrev util_text : Str
util_text = codes "export const x = 1;"

abbrev util_files : List (String × Str)
util_files = ("/r/ui/lib/util.js", util_text) ∷ []

r-IsElement : IsElement (codes "r")
unfolding eq_str
r-IsElement = record { no_slash = (refl, tt); not_empty = refl; not_dot = refl; not_up = refl }

ui-IsElement : IsElement (codes "ui")
unfolding eq_str
ui-IsElement = record {
  no_slash = (refl, (refl, tt));
  not_empty = refl;
  not_dot = refl;
  not_up = refl;
}

lib-IsElement : IsElement (codes "lib")
unfolding eq_str
lib-IsElement = record {
  no_slash = (refl, (refl, (refl, tt)));
  not_empty = refl;
  not_dot = refl;
  not_up = refl;
}

util-IsElement : IsElement (codes "util")
unfolding eq_str
util-IsElement = record {
  no_slash = (refl, (refl, (refl, (refl, tt))));
  not_empty = refl;
  not_dot = refl;
  not_up = refl;
}

util_read : read_in util_files (codes "/r/ui/lib/util.js") ≡ some util_text
unfolding read_in
util_read = refl

util_plain : find_all decl_regexp util_text ≡ []
unfolding find_all decl_regexp
util_plain = refl

module_name-provided_example :
    (info : FileInfo) × (js_file_info
        (read_in util_files)
        (codes "/r")
        react
        (codes "/r/ui/lib/util.js")
      ≡ some (info, true))
    × (info.provides ≡ codes "/ui/lib/util" ∷ [])
    × (module_name (codes "/r") (codes "/r/ui/app.js") (codes "./lib/util")
        ≡ some (codes "/ui/lib/util"))
unfolding join_with
module_name-provided_example =
    module_name-provided (read_in util_files) react (codes "r" ∷ []) (codes "ui" ∷ [])
      (codes "lib" ∷ []) (codes "app.js") (codes "util") util_text (r-IsElement, tt)
      (ui-IsElement, tt) (lib-IsElement, tt) util-IsElement
      (refl, (refl, (refl, (refl, (refl, (refl, tt)))))) util_read util_plain

no_ext-ext_example :
    (length (Path.ext (codes "a_test.js")) ≤ length (codes "a_test.js"))
    × (Path.no_ext (codes "a_test.js") ++ Path.ext (codes "a_test.js") ≡ codes "a_test.js")
no_ext-ext_example = no_ext-ext (codes "a_test.js")
