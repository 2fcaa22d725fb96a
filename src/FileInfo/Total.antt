-- ===== src/FileInfo/Total.antt =====
-- The panic of jsFileInfo, and the kinds of declarations that its `switch` has.
use mathlib.Core.List.Memᴰ.{head, tail}
use rules_closure.Prelude.{
  true, false, Option, none, some, ◌≡◌, refl, List, [], ◌∷◌, ◌++◌, Memᴰ, Str, inl, inr,
  Option-cases, ◌⊎◌,
}
use rules_closure.Regexp.{Captures, find_all}
use rules_closure.Patterns.{decl_regexp}
use rules_closure.Patterns.Declarations.{
  DeclKind, require, provide, declare_module, decl_captures, IsIdentifier, decl_captures_shape,
}
use rules_closure.Config.{JsConfig}
use rules_closure.FileInfo.{
  FileInfo, goog_provide, goog_module, add_provide, add_decl, add_decls, file_name_info,
  finish_info, js_file_info,
}

-- What a declaration adds.
abbrev pub declare : DeclKind → Str → FileInfo → FileInfo
declare require id info = record info { imports = info.imports ++ id ∷ [] }
declare provide id info = add_provide goog_provide id info
declare declare_module id info = add_provide goog_module id info

pub add_decl_lem :
    (k : DeclKind) (id : Str) (info : FileInfo)
    → add_decl info (decl_captures k id) ≡ some (declare k id info)
unfolding add_decl
add_decl_lem require id info = refl
add_decl_lem provide id info = refl
add_decl_lem declare_module id info = refl

-- The declarations of the expression's matches, in order.
pub add_decls_total :
    (info : FileInfo) (ms : List Captures)
    → ((cs : Captures)
        → Memᴰ cs ms
        → (k : DeclKind) × (id : Str) × IsIdentifier id × (cs ≡ decl_captures k id))
    → (out : FileInfo) × (add_decls info ms ≡ some out)
unfolding add_decls
add_decls_total info [] h = (info, refl)
add_decls_total info (cs ∷ ms) h =
    let (k, id, _, e) = h cs (head refl) in
    let (out, rest) = add_decls_total (declare k id info) ms (λ ds m. h ds (tail m)) in
    let one : add_decl info cs ≡ some (declare k id info) = rw e (add_decl_lem k id info) in
    (out, rw (one, add_decls) rest)

-- Whatever the file system, the configuration and the path, jsFileInfo returns. It reports a file
-- as read exactly when it can be read, and knows of any other file what its name says.
pub js_file_info-total :
    (read : Str → Option Str) (repo_root : Str) (jsc : JsConfig) (path : Str)
    → ((read path ≡ none)
        × (js_file_info read repo_root jsc path ≡ some (file_name_info path, false)))
      ⊎ ((b : Str) × (info : FileInfo) × (read path ≡ some b)
          × (js_file_info read repo_root jsc path ≡ some (info, true)))
unfolding js_file_info
js_file_info-total read repo_root jsc path = elim (Option-cases (read path)) [
  | inl e ↦ inl (e, rw (e, js_file_info))
  | inr (b, e) ↦
      let (out, h) =
        add_decls_total (file_name_info path) (find_all decl_regexp b) (decl_captures_shape b) in
      inr (b, finish_info repo_root jsc path b out, e, rw (e, js_file_info) (rw h))
]
