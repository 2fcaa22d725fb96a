-- ===== src/Library.antt =====
-- gazelle/closure_js/closure_library/closure_library.go: the generated map from the names that the
-- Closure Library provides to the targets that provide them, as an association list. Go refuses a
-- map literal that has a key twice, so the order of the rows is of no account.
-- The functions that read the map take it as an argument.
pub mod Lookup
pub mod Targets
pub mod Rows
use rules_closure.Prelude.{
  Option, none, some, List, [], ◌∷◌, ◌++◌, String, Str, codes, eq_str, true, false,
}

abbrev pub Row : Type 0
Row = Str × Str

-- Rows whose names start with `goog.` and whose targets are below //closure/library: the names of
-- the rows of each target. Rows that follow one another with the same target are written together.
abbrev pub same_target : Str → List String → List Row
same_target target [] = []
same_target target (name ∷ names) = (codes "goog." ++ codes name, target) ∷ same_target target names

abbrev pub goog_rows : List (String × List String) → List Row
goog_rows [] = []
goog_rows ((target, names) ∷ targets) =
    same_target (codes "//closure/library/" ++ codes target) names ++ goog_rows targets

-- Any other row.
abbrev pub row : String → String → Row
row name target = (codes name, codes target)

-- `PROVIDE_TO_TARGET[imp]`
unfoldable pub lookup : Str → List Row → Option Str
unfolding eq_str
lookup imp [] = none
lookup imp ((name, target) ∷ rows) = elim (eq_str name imp) [
  | true ↦ some target
  | false ↦ lookup imp rows
]
