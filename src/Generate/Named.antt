-- ===== src/Generate/Named.antt =====
-- The reader that GenerateRules has.
use rules_closure.Prelude.{Option, refl, sym, ap, ◌∙◌, inl, inr, Str}
use rules_closure.Path
use rules_closure.Config.{JsConfig}
use rules_closure.FileInfo.{file_ext, file_name_info}
use rules_closure.FileInfo.Total.{js_file_info-total}
use rules_closure.FileInfo.Result.{js_file_info-Keeps}
use rules_closure.Generate.Extension.{IsNamed}
use rules_closure.Generate.Run.{read_info}

-- What jsFileInfo says of a file agrees with its name.
pub read_info-IsNamed :
    (read : Str → Option Str) (repo_root : Str) (jsc : JsConfig) (dir : Str)
    → IsNamed (read_info read repo_root jsc dir)
unfolding read_info file_name_info
read_info-IsNamed read repo_root jsc dir f =
    elim (js_file_info-total read repo_root jsc (Path.join dir f)) [
      | inl (_, e) ↦ rw (e, read_info) refl
      | inr (b, info, r, e) ↦
          let k = js_file_info-Keeps read repo_root jsc (Path.join dir f) r e in
          rw (e, read_info) (k.ext ∙ ap file_ext (sym k.name))
    ]
