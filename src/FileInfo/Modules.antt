-- ===== src/FileInfo/Modules.antt =====
-- ES6 modules: the name that a file provides by its path, and the name of an import that is
-- relative to the file that has it.
use rules_closure.Prelude.{
  if_rule, ℕ, Bool, true, false, ◌&&◌, Option, none, some, ◌≡◌, refl, sym, ap, ◌∙◌, List, [], ◌∷◌,
  ◌++◌, Str, codes, eq_str, All, All-append, append_assoc, ◌==◌, trim_prefix, has_prefix,
}
use rules_closure.Path
use rules_closure.Path.{slash, join_with, dot_dot}
use rules_closure.Path.Elements.{NoSlash, IsElement, under, join-append}
use rules_closure.Path.Below.{absolute, rel-below, join-below, dir-file, no_ext-js}
use rules_closure.Regexp.{Captures, find_all}
use rules_closure.Patterns.{decl_regexp, es6_import_regexp}
use rules_closure.Config.{GrepExtern, JsConfig, matches}
use rules_closure.Distinct.{contains}
use rules_closure.FileInfo.{
  FileInfo, es6, file_name_info, provide_path, module_name, add_imports, add_externs, add_decls,
  finish_info, js_file_info, submatch,
}

and_false : (b : Bool) → (b && false) ≡ false
and_false true = refl
and_false false = refl

longer : (m t : Str) (c : ℕ) → eq_str (m ++ c ∷ t) [] ≡ false
unfolding eq_str
longer [] t c = refl
longer (d ∷ m) t c = refl

not_one_dot : (m : Str) → eq_str (m ++ codes ".js") (codes ".") ≡ false
unfolding eq_str
not_one_dot [] = refl
not_one_dot (d ∷ m) = rw (longer m (codes "js") b'.') (and_false (d == b'.'))

-- An element with an extension is an element.
js-IsElement : (m : Str) → IsElement m → IsElement (m ++ codes ".js")
unfolding eq_str
js-IsElement [] h = cc
js-IsElement (c ∷ m) h = record {
  no_slash =
      All-append (λ c'. (c' == slash) ≡ false) (c ∷ m) (codes ".js") h.no_slash
        (refl, (refl, (refl, tt)));
  not_empty = refl;
  not_dot = rw (longer m (codes "js") b'.') (and_false (c == b'.'));
  not_up = rw (not_one_dot m) (and_false (c == b'.'));
}

provide_path-below :
    (rs xs : List Str) (m : Str) (info : FileInfo)
    → All IsElement rs
    → All IsElement (rs ++ (xs ++ (m ++ codes ".js") ∷ []))
    → info.module_type ≡ es6
    → (provide_path (absolute rs) (absolute (rs ++ (xs ++ (m ++ codes ".js") ∷ []))) info).provides
      ≡ info.provides ++ absolute (xs ++ m ∷ []) ∷ []
unfolding provide_path
provide_path-below rs xs m info h k e =
    let text : join_with slash (xs ++ (m ++ codes ".js") ∷ []) ≡ (under xs ++ m) ++ codes ".js" =
      join-append xs (m ++ codes ".js") ∙ sym (append_assoc (under xs) m (codes ".js")) in
    let name : Path.no_ext (join_with slash (xs ++ (m ++ codes ".js") ∷ []))
        ≡ join_with slash (xs ++ m ∷ []) =
      ap Path.no_ext text ∙ no_ext-js (under xs ++ m) ∙ sym (join-append xs m) in
    rw (e, provide_path, rel-below rs xs (m ++ codes ".js") h k, name) refl

module_name-below :
    (rs ds qs : List Str) (f m : Str)
    → All IsElement rs
    → All IsElement ds
    → All IsElement (qs ++ m ∷ [])
    → NoSlash f
    → module_name
        (absolute rs)
        (absolute ((rs ++ ds) ++ f ∷ []))
        (codes "./" ++ join_with slash (qs ++ m ∷ []))
      ≡ some (absolute ((ds ++ qs) ++ m ∷ []))
unfolding module_name has_prefix trim_prefix
module_name-below rs ds qs f m h k l n =
    let target = (ds ++ qs) ++ m ∷ [] in
    let up = dir-file (rs ++ ds) f (All-append IsElement rs ds h k) n in
    let same : (rs ++ ds) ++ (qs ++ m ∷ []) ≡ rs ++ target = simp append_assoc refl in
    let joined : Path.join (Path.dir (absolute ((rs ++ ds) ++ f ∷ [])))
          (codes "./" ++ join_with slash (qs ++ m ∷ []))
        ≡ absolute (rs ++ target) =
      ap (λ d. Path.join d (codes "./" ++ join_with slash (qs ++ m ∷ []))) up
      ∙ join-below (rs ++ ds) (qs ++ m ∷ []) (All-append IsElement rs ds h k) l
      ∙ ap absolute same in
    let elements : All IsElement target =
      rw (append_assoc ds qs (m ∷ [])) (All-append IsElement ds (qs ++ m ∷ []) k l) in
    ap
      (λ t. elim (Path.rel (absolute rs) t) as (λ _. Option Str) [
        | none ↦ none
        | some resolved ↦ some (trim_prefix (b'/' ∷ resolved) (codes "goog:"))
      ])
      joined
    ∙ ap
        (λ o. elim o as (λ _. Option Str) [
          | none ↦ none
          | some resolved ↦ some (trim_prefix (b'/' ∷ resolved) (codes "goog:"))
        ])
        (rel-below rs (ds ++ qs) m h (All-append IsElement rs target h elements))

added-provides :
    (info : FileInfo) (o : Option Str)
    → (elim o as (λ _. FileInfo) [
      | none ↦ info
      | some name ↦ record info { imports = info.imports ++ name ∷ [] }
    ]).provides
      ≡ info.provides
added-provides info none = refl
added-provides info (some name) = refl

add_imports-provides :
    (root path : Str) (ms : List Captures) (info : FileInfo)
    → (add_imports root path info ms).provides ≡ info.provides
unfolding add_imports
add_imports-provides root path [] info = refl
add_imports-provides root path (cs ∷ ms) info =
    add_imports-provides root path ms _
    ∙ added-provides info (module_name root path (submatch 1 cs))

add_externs-provides :
    (b : Str) (ges : List GrepExtern) (info : FileInfo)
    → (add_externs b ges info).provides ≡ info.provides
unfolding add_externs
add_externs-provides b [] info = refl
add_externs-provides b (ge ∷ ges) info =
    add_externs-provides b ges _
    ∙ if_rule (λ (i : FileInfo). i.provides ≡ info.provides) (matches ge b) _ _
        (if_rule (λ (i : FileInfo). i.provides ≡ info.provides) (contains info.deps ge.label) _ _
          refl refl)
        refl

finish_info-provides :
    (root : Str) (jsc : JsConfig) (path b : Str) (info : FileInfo)
    → (finish_info root jsc path b info).provides ≡ (provide_path root path info).provides
unfolding finish_info
finish_info-provides root jsc path b info =
    add_externs-provides b jsc.grep_externs _
    ∙ add_imports-provides root path (find_all es6_import_regexp b) (provide_path root path info)

-- A file with no declaration.
js_file_info-plain :
    (read : Str → Option Str) (root : Str) (jsc : JsConfig) (path b : Str)
    → read path ≡ some b
    → find_all decl_regexp b ≡ []
    → js_file_info read root jsc path
      ≡ some (finish_info root jsc path b (file_name_info path), true)
unfolding js_file_info add_decls
js_file_info-plain read root jsc path b reads plain =
    let none_found : add_decls (file_name_info path) (find_all decl_regexp b)
        ≡ some (file_name_info path) =
      ap (add_decls (file_name_info path)) plain in
    rw (reads, js_file_info, none_found) refl

-- An import `./q/m` in a file of a directory below the root of the repository stands for the one
-- name that the file q/m.js of that directory provides, where that file can be read and has no
-- declaration, and the elements of the paths are not empty, not `.` or `..`, and have no separator.
pub module_name-provided :
    (read : Str → Option Str) (jsc : JsConfig) (rs ds qs : List Str) (f m b : Str)
    → All IsElement rs
    → All IsElement ds
    → All IsElement qs
    → IsElement m
    → NoSlash f
    → read (absolute (rs ++ ((ds ++ qs) ++ (m ++ codes ".js") ∷ []))) ≡ some b
    → find_all decl_regexp b ≡ []
    → (info : FileInfo) × (js_file_info read
          (absolute rs)
          jsc
          (absolute (rs ++ ((ds ++ qs) ++ (m ++ codes ".js") ∷ [])))
        ≡ some (info, true))
      × (info.provides ≡ absolute ((ds ++ qs) ++ m ∷ []) ∷ [])
      × (module_name
            (absolute rs)
            (absolute ((rs ++ ds) ++ f ∷ []))
            (codes "./" ++ join_with slash (qs ++ m ∷ []))
          ≡ some (absolute ((ds ++ qs) ++ m ∷ [])))
unfolding file_name_info
module_name-provided read jsc rs ds qs f m b h k l n o reads plain =
    let path = absolute (rs ++ ((ds ++ qs) ++ (m ++ codes ".js") ∷ [])) in
    let start = file_name_info path in
    let elements : All IsElement (rs ++ ((ds ++ qs) ++ (m ++ codes ".js") ∷ [])) =
      All-append IsElement rs _ h (
        All-append IsElement (ds ++ qs) _ (All-append IsElement ds qs k l)
          (js-IsElement m n, tt)) in
    (
      finish_info (absolute rs) jsc path b start,
      js_file_info-plain read (absolute rs) jsc path b reads plain,
      finish_info-provides (absolute rs) jsc path b start
          ∙ provide_path-below rs (ds ++ qs) m start h elements refl,
      module_name-below rs ds qs f m h k (All-append IsElement qs (m ∷ []) l (n, tt)) o,
    )
