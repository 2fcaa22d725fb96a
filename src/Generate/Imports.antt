-- ===== src/Generate/Imports.antt =====
-- newImportInfo, fileInfoImports, combineImports and dedupe of gazelle/closure_js/generate.go.
pub mod Dedupe
use rules_closure.Prelude.{List, [], ◌∷◌, ◌++◌, Str, if◌then◌else◌}
use rules_closure.Distinct.{contains}
use rules_closure.FileInfo.{FileInfo}
use rules_closure.Resolve.{ImportInfo}

unfoldable pub new_import_info : FileInfo → ImportInfo
new_import_info fi = record { imports = fi.imports; deps = fi.deps }

-- The loop of dedupe, with what it has put out; the keys of `dict` are the elements of `out`.
unfoldable pub dedupe_from : List Str → List Str → List Str
dedupe_from out [] = out
dedupe_from out (dep ∷ deps) = dedupe_from (if contains out dep then out else out ++ dep ∷ []) deps

unfoldable pub dedupe : List Str → List Str
unfolding dedupe_from
dedupe deps = dedupe_from [] deps

abbrev pub all_imports : List ImportInfo → List Str
all_imports [] = []
all_imports (ii ∷ iis) = ii.imports ++ all_imports iis

abbrev pub all_deps : List ImportInfo → List Str
all_deps [] = []
all_deps (ii ∷ iis) = ii.deps ++ all_deps iis

unfoldable pub combine_imports : List ImportInfo → ImportInfo
unfolding dedupe
combine_imports iis = record { imports = all_imports iis; deps = dedupe (all_deps iis) }

abbrev pub import_infos : List FileInfo → List ImportInfo
import_infos [] = []
import_infos (fi ∷ fis) = record { imports = fi.imports; deps = fi.deps } ∷ import_infos fis

unfoldable pub file_info_imports : List FileInfo → ImportInfo
unfolding dedupe
file_info_imports fis = record {
  imports = all_imports (import_infos fis);
  deps = dedupe (all_deps (import_infos fis));
}
