-- ===== src/Lib.antt =====
-- The Gazelle plugin of the repository, gazelle/closure_js: it reads the JavaScript files of a
-- directory, generates closure_js_library and closure_js_test rules for them, and resolves their
-- imports to labels.
--
-- The parts, in the order in which Gazelle calls them:
--   Config      gazelle/closure_js/config.go. `configure` is Configure: from the configuration of
--               the parent directory and the directives of a BUILD file to the configuration of a
--               directory. `new_extern_grep` and `matches` are the searches for a token.
--               Slices, Append, Store and Walk have Configure again over a heap of arrays, as
--               clone shares the array of a slice and append may write in place.
--   FileInfo    gazelle/closure_js/fileinfo.go. `file_name_info` and `js_file_info` are
--               fileNameInfo and jsFileInfo, in the steps of the source. Modules is about ES6
--               modules, which provide their path.
--   Generate    gazelle/closure_js/generate.go. `generate_rules` is GenerateRules: State is the
--               record of its variables, Existing, Files and Emit are its loops, Rules makes the
--               rules, and Imports has dedupe, combineImports and fileInfoImports. Emit has a
--               function for each branch. Visit, PerFile and Directory are about the loops in
--               the two modes, Covered about the files that are taken up, Known about the kinds
--               of the new rules, and Panic and Total about runs that panic and runs that return.
--   Resolve     gazelle/closure_js/resolve.go. `resolve` is Resolve, `resolve_deps` the deps that
--               it sets, `resolve_js`, `resolve_closure_library` and `resolve_with_index` are
--               resolveJs, resolveClosureLibrary and resolveWithIndexJs, and
--               Resolve/Provides is Imports. EndToEnd joins Imports to Resolve, and Order is
--               about the deps as they may be written in any order of the map.
--   Library     gazelle/closure_js/closure_library/closure_library.go: the rows of
--               the map, those of one target together where they follow one another.
--   Kinds       gazelle/closure_js/kinds.go, the tables of kinds and of loads.
-- What the plugin takes from elsewhere:
--   Regexp      the regular expressions of Go that the plugin uses, as data with a matcher that
--               tries alternatives in Go's order (Regexp), an independent meaning (Meaning), and
--               the lemmas that relate the two (Correct, Scan).
--               Patterns has the four expressions of the source.
--   Path, Sort  the functions of path, path/filepath and sort that the source calls, by their
--               documentation, with Sort an insertion sort. Path/Elements and Path/Below have
--               the lemmas on paths below a root.
--   Gazelle     labels, rules, the rule index and the order in which Go walks a map, as records of
--               operations with the laws that the proofs use. Samples has an instance of each.
-- Prelude has the shared lists, texts and tests, Distinct the lists with no repetition, and Tests
-- the runs on small inputs and the theorems at concrete inputs.
--
-- A text is the list of its bytes; tests on letters and blanks are those on ASCII. A panic is
-- `none`. There is no fuel: each loop is a recursion on the list or the expression it walks.
--
-- Not modelled: messages to the log; sharing of slices outside of Config/Store, so that a slice is
-- its elements; Sprintf with a package or a name that holds `%`; Unicode blanks in a directive;
-- the panic of regexp.MustCompile on a token that is not valid UTF-8; Fix, Embeds and CheckFlags,
-- which do nothing. The Java tools, the Bazel rules and the web assets of the repository are other
-- programs.
pub mod Prelude
pub mod Regexp
pub mod Patterns
pub mod Path
pub mod Config
pub mod FileInfo
pub mod Distinct
pub mod Gazelle
pub mod Library
pub mod Resolve
pub mod Kinds
pub mod Sort
pub mod Generate
pub mod Samples
mod Tests
