-- ===== src/Config/Directives.antt =====
-- What the directives of a BUILD file come to.
use rules_closure.Prelude.{
  Bool, true, false, Option, none, some, ◌≡◌, refl, ap, List, [], ◌∷◌, ◌++◌, Str, if◌then◌else◌,
  append-nil, append_assoc, eq_str, eq_str_iff, arith, inl, inr, Bool-cases,
}
use rules_closure.Config.{
  GrepExtern, new_extern_grep, JsConfig, Directive, fields, parse_bool, grep_extern_key,
  rule_per_file_key, add_extern, set_rule_per_file, apply_directive, apply_directives, inherited,
  configure,
}

-- The searches that one directive asks for: none, or one.
abbrev two_fields : List Str → List GrepExtern
two_fields (token ∷ label ∷ []) = new_extern_grep token label ∷ []
two_fields _ = []

abbrev pub externs_of : List Directive → List GrepExtern
externs_of [] = []
externs_of (d ∷ ds) =
    (if eq_str d.key grep_extern_key then two_fields (fields d.value) else []) ++ externs_of ds

-- What one directive says of `rulePerFile`, if it says anything.
abbrev at_most_one : List Str → Option Bool
at_most_one [] = some true
at_most_one (w ∷ []) = parse_bool w
at_most_one _ = none

abbrev pub setting_of : Directive → Option Bool
setting_of d = if eq_str d.key rule_per_file_key then at_most_one (fields d.value) else none

abbrev pub last_setting : Bool → List Directive → Bool
last_setting b [] = b
last_setting b (d ∷ ds) = last_setting (elim (setting_of d) [ none ↦ b | some v ↦ v ]) ds

add_extern_lem :
    (gc : JsConfig) (ws : List Str)
    → add_extern gc ws ≡ record gc { grep_externs = gc.grep_externs ++ two_fields ws }
unfolding add_extern
add_extern_lem gc [] = rw append-nil
add_extern_lem gc (a ∷ []) = rw append-nil
add_extern_lem gc (a ∷ b ∷ []) = refl
add_extern_lem gc (a ∷ b ∷ c ∷ ws) = rw append-nil

set_rule_per_file_lem :
    (gc : JsConfig) (ws : List Str)
    → set_rule_per_file gc ws
      ≡ record gc { rule_per_file = elim (at_most_one ws) [ none ↦ gc.rule_per_file | some v ↦ v ] }
unfolding set_rule_per_file
set_rule_per_file_lem gc [] = refl
set_rule_per_file_lem gc (a ∷ []) = ground arith
set_rule_per_file_lem gc (a ∷ b ∷ ws) = refl

keys_differ : (k : Str) → eq_str k grep_extern_key ≡ true → eq_str k rule_per_file_key ≡ false
unfolding eq_str
keys_differ k h = let e : k ≡ grep_extern_key = (eq_str_iff k grep_extern_key).0 h in rw e

apply_directive_lem :
    (gc : JsConfig) (d : Directive)
    → apply_directive gc d ≡ record {
      grep_externs = gc.grep_externs ++ externs_of (d ∷ []);
      rule_per_file = elim (setting_of d) [ none ↦ gc.rule_per_file | some v ↦ v ];
    }
unfolding apply_directive
apply_directive_lem gc d = elim (Bool-cases (eq_str d.key grep_extern_key)) [
  | inl e ↦ rw (e, keys_differ d.key e, append-nil) (add_extern_lem gc (fields d.value))
  | inr e ↦ elim (Bool-cases (eq_str d.key rule_per_file_key)) [
    | inl f ↦ rw (e, f, append-nil) (set_rule_per_file_lem gc (fields d.value))
    | inr f ↦ rw (e, f, append-nil)
  ]
]

-- The searches are those inherited, then one for each directive of two fields, in order. The last
-- valid `js_rule_per_file` decides whether each file has a rule. All else changes nothing.
pub apply_directives_lem :
    (gc : JsConfig) (ds : List Directive)
    → apply_directives gc ds ≡ record {
      grep_externs = gc.grep_externs ++ externs_of ds;
      rule_per_file = last_setting gc.rule_per_file ds;
    }
unfolding apply_directives
apply_directives_lem gc [] = rw append-nil
apply_directives_lem gc (d ∷ ds) =
    rw (apply_directives_lem (apply_directive gc d) ds, apply_directive_lem gc d)
      (simp (append_assoc, append-nil))

-- The configuration of a directory from the one above it.
pub configure_lem :
    (raw : Option JsConfig) (ds : List Directive)
    → ((configure raw (some ds)).grep_externs ≡ (inherited raw).grep_externs ++ externs_of ds)
      × ((configure raw (some ds)).rule_per_file ≡ last_setting (inherited raw).rule_per_file ds)
      × (configure raw none ≡ inherited raw)
unfolding configure
configure_lem raw ds =
    let e = apply_directives_lem (inherited raw) ds in
    (ap (λ (c : JsConfig). c.grep_externs) e, ap (λ (c : JsConfig). c.rule_per_file) e, refl)
