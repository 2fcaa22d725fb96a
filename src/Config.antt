-- ===== src/Config.antt =====
-- gazelle/closure_js/config.go: the configuration of a directory, and the directives of a BUILD
-- file that change it. The entry for this language in the map `c.Exts` is an `Option JsConfig`.
-- Messages to the log are left out.
pub mod Directives
pub mod Slices
pub mod Append
pub mod Store
pub mod Walk
use rules_closure.Prelude.{
  ℕ, Bool, true, false, ◌||◌, Option, none, some, List, [], ◌∷◌, ◌++◌, Str, codes, if◌then◌else◌,
  ◌==◌, eq_str,
}
use rules_closure.Regexp.{Regexp, match}
use rules_closure.Patterns.{token_regexp}

pub record GrepExtern : Type 0 where
  pub token : Regexp
  pub label : Str

unfoldable pub new_extern_grep : Str → Str → GrepExtern
new_extern_grep token label = record { token = token_regexp token; label = label }

unfoldable pub matches : GrepExtern → Str → Bool
matches ge file = match ge.token file

pub record JsConfig : Type 0 where
  pub grep_externs : List GrepExtern
  pub rule_per_file : Bool

abbrev pub new_js_config : JsConfig
new_js_config = record { grep_externs = []; rule_per_file = false }

-- The copy shares the array behind `grepExterns`; here a slice is its elements, and Config/Store
-- has the arrays.
abbrev pub clone : JsConfig → JsConfig
clone gc = gc

pub record Directive : Type 0 where
  pub key : Str
  pub value : Str

-- unicode.IsSpace on ASCII
abbrev pub is_blank : ℕ → Bool
is_blank c = c == 9 || c == 10 || c == 11 || c == 12 || c == 13 || c == 32

abbrev pub emit : Str → List Str
emit [] = []
emit (c ∷ w) = (c ∷ w) ∷ []

-- strings.Fields, with the word that is being read.
unfoldable pub fields_from : Str → Str → List Str
fields_from word [] = emit word
fields_from word (c ∷ s) = elim (is_blank c) [
  | true ↦ emit word ++ fields_from [] s
  | false ↦ fields_from (word ++ c ∷ []) s
]

unfoldable pub fields : Str → List Str
unfolding fields_from
fields s = fields_from [] s

abbrev pub any_of : Str → List Str → Bool
any_of s [] = false
any_of s (w ∷ ws) = eq_str s w || any_of s ws

-- strconv.ParseBool, `none` for its error.
unfoldable pub parse_bool : Str → Option Bool
unfolding eq_str
parse_bool s =
    if any_of s
      (codes "1" ∷ codes "t" ∷ codes "T" ∷ codes "true" ∷ codes "TRUE" ∷ codes "True" ∷ [])
    then some true
    else if any_of s
        (codes "0" ∷ codes "f" ∷ codes "F" ∷ codes "false" ∷ codes "FALSE" ∷ codes "False" ∷ [])
    then some false
    else none

abbrev pub grep_extern_key : Str
grep_extern_key = codes "js_grep_extern"

abbrev pub rule_per_file_key : Str
rule_per_file_key = codes "js_rule_per_file"

abbrev pub known_directives : List Str
known_directives = grep_extern_key ∷ rule_per_file_key ∷ []

-- `js_grep_extern (token) (extern label)`
unfoldable pub add_extern : JsConfig → List Str → JsConfig
unfolding new_extern_grep
add_extern gc (token ∷ label ∷ []) = record gc {
  grep_externs = gc.grep_externs ++ new_extern_grep token label ∷ [];
}
add_extern gc _ = gc

-- `js_rule_per_file [true|false]`
unfoldable pub set_rule_per_file : JsConfig → List Str → JsConfig
unfolding parse_bool
set_rule_per_file gc [] = record gc { rule_per_file = true }
set_rule_per_file gc (w ∷ []) = elim (parse_bool w) [
  | none ↦ gc
  | some b ↦ record gc { rule_per_file = b }
]
set_rule_per_file gc _ = gc

-- One round of the loop over the directives.
unfoldable pub apply_directive : JsConfig → Directive → JsConfig
unfolding fields add_extern set_rule_per_file eq_str
apply_directive gc d =
    if eq_str d.key grep_extern_key
    then add_extern gc (fields d.value)
    else if eq_str d.key rule_per_file_key
    then set_rule_per_file gc (fields d.value)
    else gc

unfoldable pub apply_directives : JsConfig → List Directive → JsConfig
unfolding apply_directive
apply_directives gc [] = gc
apply_directives gc (d ∷ ds) = apply_directives (apply_directive gc d) ds

abbrev pub inherited : Option JsConfig → JsConfig
inherited none = new_js_config
inherited (some raw) = clone raw

-- Configure, from the entry that the parent directory left and the directives of the BUILD file,
-- where there is one, to the new entry.
unfoldable pub configure : Option JsConfig → Option (List Directive) → JsConfig
unfolding apply_directives
configure raw none = inherited raw
configure raw (some ds) = apply_directives (inherited raw) ds

-- RegisterFlags
abbrev pub register_flags : JsConfig
register_flags = new_js_config
