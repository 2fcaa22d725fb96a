-- ===== src/FileInfo.antt =====
-- gazelle/closure_js/fileinfo.go: what the name and the text of a file say of it.
-- The file system is a function from paths to contents, `none` where the file cannot be read. A
-- panic is `none`. Messages to the log are left out.
pub mod Total
pub mod Named
pub mod Modules
pub mod RoundTrip
pub mod SideEffect
pub mod Externs
pub mod Result
use mathlib.Core.List.{reverse}
use rules_closure.Prelude.{
  ℕ, Bool, true, false, ◌&&◌, ◌||◌, Option, none, some, List, [], ◌∷◌, ◌++◌, Str, codes,
  if◌then◌else◌, ◌==◌, eq_str, has_prefix, trim_prefix, length, leb, head?,
}
use rules_closure.Distinct.{contains}
use rules_closure.Path
use rules_closure.Regexp.{Captures, find_all, match}
use rules_closure.Patterns.{decl_regexp, es6_import_regexp, testonly_regexp}
use rules_closure.Config.{GrepExtern, JsConfig, matches}

pub data ModuleType : Type 0 where
  es6 goog_provide goog_module : ModuleType

pub data Ext : Type 0 where
  unknown_ext js_ext jsx_ext html_ext : Ext

pub record FileInfo : Type 0 where
  pub path : Str
  pub name : Str
  pub ext : Ext
  pub provides : List Str
  pub is_test : Bool
  pub is_test_only : Bool
  pub module_type : ModuleType
  pub imports : List Str
  pub deps : List Str

-- The `switch` on path.Ext(name), then the two prefixes.
unfoldable pub file_ext : Str → Ext
unfolding eq_str has_prefix
file_ext name =
    if has_prefix name (codes ".") || has_prefix name (codes "_")
    then unknown_ext
    else if eq_str (Path.ext name) (codes ".js")
    then js_ext
    else if eq_str (Path.ext name) (codes ".jsx")
    then jsx_ext
    else if eq_str (Path.ext name) (codes ".html")
    then html_ext
    else unknown_ext

abbrev pub last_is : Str → List Str → Bool
last_is w l = elim (head? (reverse l)) [ none ↦ false | some v ↦ eq_str v w ]

-- Whether the part before the extension has two or more parts by `_`, and the last is `test`.
unfoldable pub name_is_test : Str → Bool
unfolding Path.no_ext Path.split eq_str
name_is_test name =
    let l = Path.split b'_' (Path.no_ext name) in leb 2 (length l) && last_is (codes "test") l

unfoldable pub file_name_info : Str → FileInfo
unfolding Path.base file_ext name_is_test
file_name_info path = record {
  path = path;
  name = Path.base path;
  ext = file_ext (Path.base path);
  provides = [];
  is_test = name_is_test (Path.base path);
  is_test_only = false;
  module_type = es6;
  imports = [];
  deps = [];
}

-- `match[n]`
abbrev pub submatch : ℕ → Captures → Str
submatch n [] = []
submatch n ((k, w) ∷ cs) = if k == n then w else submatch n cs

abbrev pub add_provide : ModuleType → Str → FileInfo → FileInfo
add_provide m id info = record info { module_type = m; provides = info.provides ++ id ∷ [] }

-- The `switch` on the kind of a declaration, whose default is a panic.
unfoldable pub add_decl : FileInfo → Captures → Option FileInfo
unfolding eq_str
add_decl info cs =
    if eq_str (submatch 1 cs) (codes "provide")
    then some (add_provide goog_provide (submatch 2 cs) info)
    else if eq_str (submatch 1 cs) (codes "module")
    then some (add_provide goog_module (submatch 2 cs) info)
    else if eq_str (submatch 1 cs) (codes "require")
    then some (record info { imports = info.imports ++ submatch 2 cs ∷ [] })
    else none

unfoldable pub add_decls : FileInfo → List Captures → Option FileInfo
unfolding add_decl
add_decls info [] = some info
add_decls info (cs ∷ ms) = elim (add_decl info cs) [ none ↦ none | some info' ↦ add_decls info' ms ]

-- A file with neither goog.provide nor goog.module provides its path from the root of the
-- repository, without the extension.
unfoldable pub provide_path : Str → Str → FileInfo → FileInfo
unfolding Path.rel Path.no_ext
provide_path repo_root path info = elim info.module_type [
  | es6 ↦ elim (Path.rel repo_root path) [
    | none ↦ info
    | some rel_path ↦ record info { provides = info.provides ++ (b'/' ∷ Path.no_ext rel_path) ∷ [] }
  ]
  | _ ↦ info
]

-- The name that an ES6 import stands for: a relative one is resolved against the directory of the
-- file (`none` where that fails), and the prefix `goog:` is dropped.
unfoldable pub module_name : Str → Str → Str → Option Str
unfolding has_prefix trim_prefix Path.dir Path.join Path.rel
module_name repo_root path name =
    if has_prefix name (codes ".")
    then elim (Path.rel repo_root (Path.join (Path.dir path) name)) [
      | none ↦ none
      | some resolved ↦ some (trim_prefix (b'/' ∷ resolved) (codes "goog:"))
    ]
    else some (trim_prefix name (codes "goog:"))

unfoldable pub add_imports : Str → Str → FileInfo → List Captures → FileInfo
unfolding module_name
add_imports repo_root path info [] = info
add_imports repo_root path info (cs ∷ ms) =
    let added : FileInfo = elim (module_name repo_root path (submatch 1 cs)) [
      | none ↦ info
      | some name ↦ record info { imports = info.imports ++ name ∷ [] }
    ] in
    add_imports repo_root path added ms

-- The labels whose token the file holds, each once.
unfoldable pub add_externs : Str → List GrepExtern → FileInfo → FileInfo
unfolding matches contains
add_externs b [] info = info
add_externs b (ge ∷ ges) info = add_externs b ges (
    if matches ge b
    then if contains info.deps ge.label
      then info
      else record info { deps = info.deps ++ ge.label ∷ [] }
    else info)

-- What follows the declarations, on a file that was read.
unfoldable pub finish_info : Str → JsConfig → Str → Str → FileInfo → FileInfo
unfolding provide_path add_imports add_externs
finish_info repo_root jsc path b info =
    let provided = provide_path repo_root path info in
    let imported = add_imports repo_root path provided (find_all es6_import_regexp b) in
    add_externs b jsc.grep_externs (record imported { is_test_only = match testonly_regexp b })

-- jsFileInfo: the information, and whether the file was read.
unfoldable pub js_file_info : (Str → Option Str) → Str → JsConfig → Str → Option (FileInfo × Bool)
unfolding file_name_info add_decls finish_info
js_file_info read repo_root jsc path = elim (read path) [
  | none ↦ some (file_name_info path, false)
  | some b ↦ elim (add_decls (file_name_info path) (find_all decl_regexp b)) [
    | none ↦ none
    | some info ↦ some (finish_info repo_root jsc path b info, true)
  ]
]
