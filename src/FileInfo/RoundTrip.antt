-- ===== src/FileInfo/RoundTrip.antt =====
-- The loop of jsFileInfo over the declarations, on a file that holds nothing else.
use rules_closure.Prelude.{
  some, ◌≡◌, refl, sym, ap, ◌∙◌, List, [], ◌∷◌, ◌++◌, map, append-nil, append_assoc, Str, All,
}
use rules_closure.Regexp.{find_all}
use rules_closure.Patterns.{decl_regexp}
use rules_closure.Patterns.Declarations.{DeclKind, require, provide, declare_module, IsIdentifier}
use rules_closure.Patterns.RoundTrip.{render, captures_of, find_all-render}
use rules_closure.FileInfo.{FileInfo, ModuleType, goog_provide, goog_module, add_decls}
use rules_closure.FileInfo.Total.{declare, add_decl_lem}

abbrev pub required : List (DeclKind × Str) → List Str
required [] = []
required ((require, id) ∷ ds) = id ∷ required ds
required ((_, id) ∷ ds) = required ds

abbrev pub declared : List (DeclKind × Str) → List Str
declared [] = []
declared ((require, id) ∷ ds) = declared ds
declared ((_, id) ∷ ds) = id ∷ declared ds

-- The last goog.provide or goog.module decides.
abbrev pub last_module : ModuleType → List (DeclKind × Str) → ModuleType
last_module m [] = m
last_module m ((require, id) ∷ ds) = last_module m ds
last_module m ((provide, id) ∷ ds) = last_module goog_provide ds
last_module m ((declare_module, id) ∷ ds) = last_module goog_module ds

abbrev pub Declares : FileInfo → List (DeclKind × Str) → FileInfo → Type 0
Declares info ds out =
    (out.imports ≡ info.imports ++ required ds)
    × (out.provides ≡ info.provides ++ declared ds)
    × (out.module_type ≡ last_module info.module_type ds)

Declares-cons :
    (info : FileInfo) (k : DeclKind) (id : Str) (ds : List (DeclKind × Str)) (out : FileInfo)
    → Declares (declare k id info) ds out
    → Declares info ((k, id) ∷ ds) out
Declares-cons info require id ds out (i, p, m) =
    (i ∙ append_assoc info.imports (id ∷ []) (required ds), p, m)
Declares-cons info provide id ds out (i, p, m) =
    (i, p ∙ append_assoc info.provides (id ∷ []) (declared ds), m)
Declares-cons info declare_module id ds out (i, p, m) =
    (i, p ∙ append_assoc info.provides (id ∷ []) (declared ds), m)

add_decls-captures :
    (info : FileInfo) (ds : List (DeclKind × Str))
    → (out : FileInfo) × (add_decls info (map captures_of ds) ≡ some out) × Declares info ds out
unfolding add_decls
add_decls-captures info [] =
    (info, refl, (sym (append-nil info.imports), sym (append-nil info.provides), refl))
add_decls-captures info ((k, id) ∷ ds) =
    let (out, e, d) = add_decls-captures (declare k id info) ds in
    (out, rw (add_decl_lem k id info, add_decls) e, Declares-cons info k id ds out d)

-- On rendered declarations the loop returns: the identifiers of goog.require are added to the
-- imports and the others to the provides, in order, and the last one that is no goog.require
-- decides the module type; the identifiers are not empty and have no quote.
pub add_decls-render :
    (info : FileInfo) (ds : List (DeclKind × Str))
    → All (λ d. IsIdentifier d.1) ds
    → (out : FileInfo) × (add_decls info (find_all decl_regexp (render ds)) ≡ some out)
      × Declares info ds out
add_decls-render info ds h =
    let (out, e, d) = add_decls-captures info ds in
    (out, ap (add_decls info) (find_all-render ds h) ∙ e, d)
