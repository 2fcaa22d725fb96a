-- ===== src/Generate/Files.antt =====
-- The loop of GenerateRules over the files of the directory that no rule accounts for.
use rules_closure.Prelude.{Bool, true, false, not, List, [], ◌∷◌, ◌++◌, Str, if◌then◌else◌}
use rules_closure.Distinct.{contains}
use rules_closure.FileInfo.{FileInfo, Ext, unknown_ext}
use rules_closure.Gazelle.{Rules}
use rules_closure.Generate.Imports.{new_import_info}
use rules_closure.Generate.State.{Setting, is_js, State}

abbrev pub is_unknown : Ext → Bool
is_unknown unknown_ext = true
is_unknown _ = false

module _ (g : Rules) (c : Setting) where
  -- A test, or a source of the library; an HTML file is neither.
  unfoldable pub place_file : Str → FileInfo → State g → State g
  unfolding new_import_info
  place_file filename fi s =
      if not (is_js fi.ext)
      then s
      else if fi.is_test
      then record s { lib_test_file_infos = s.lib_test_file_infos ++ fi ∷ [] }
      else record s {
        lib_sources = s.lib_sources ++ filename ∷ [];
        lib_imports = s.lib_imports ++ new_import_info fi ∷ [];
      }

  -- One round: a file that is accounted for, cannot be read or has no known extension is skipped.
  unfoldable pub visit_file : Str → State g → State g
  unfolding contains place_file
  visit_file filename s =
      if contains s.existing_rule_srcs filename
      then s
      else if not (c.info filename).1
      then s
      else if is_unknown (c.info filename).0.ext
      then s
      else place_file filename (c.info filename).0 s

  unfoldable pub visit_files : List Str → State g → State g
  unfolding visit_file
  visit_files [] s = s
  visit_files (filename ∷ files) s = visit_files files (visit_file filename s)
