-- ===== src/Config/Store.antt =====
-- Configure of gazelle/closure_js/config.go over a heap, where clone copies the slice and shares
-- its array, and the loop over the directives appends to the copy.
use rules_closure.Prelude.{
  ℕ, Bool, true, false, Option, none, some, ◌≡◌, refl, ap, ◌∙◌, List, [], ◌∷◌, Str, if◌then◌else◌,
  eq_str, Bool-cases, inl, inr,
}
use rules_closure.Config.{
  GrepExtern, new_extern_grep, JsConfig, Directive, fields, parse_bool, grep_extern_key,
  rule_per_file_key, add_extern, set_rule_per_file, apply_directive, apply_directives, configure,
}
use rules_closure.Config.Append.{append-Appends}
use rules_closure.Config.Slices.{
  Slice, Cells, Heap, view, append, Valid, Grows, Grows-refl, Grows-trans,
}

-- `jsConfig`, by the slice that it holds.
pub record SharedConfig : Type 0 where
  pub grep_externs : Slice
  pub rule_per_file : Bool

-- `*gc`
abbrev pub shallow_copy : SharedConfig → SharedConfig
shallow_copy gc = gc

-- The slice with no array: array 0 has no room.
abbrev pub nil_slice : Slice
nil_slice = record { array = 0; len = 0 }

abbrev pub no_cells : ℕ → Cells GrepExtern
no_cells a = record { written = []; cap = 0 }

abbrev pub empty_heap : Heap GrepExtern
empty_heap = record { next = 1; cells = no_cells }

abbrev pub new_shared : SharedConfig
new_shared = record { grep_externs = nil_slice; rule_per_file = false }

-- The configuration as a value.
abbrev pub value : Heap GrepExtern → SharedConfig → JsConfig
value h c = record { grep_externs = view h c.grep_externs; rule_per_file = c.rule_per_file }

module _ (room : ℕ → ℕ) where
  abbrev pub Store : Type 0
  Store = Heap GrepExtern × SharedConfig

  abbrev pub append_extern : Store → GrepExtern → Store
  append_extern (h, gc) x =
      let (h', s) = append room h gc.grep_externs x in (h', record gc { grep_externs = s })

  unfoldable pub add_extern_to : Store → List Str → Store
  add_extern_to p (token ∷ label ∷ []) = append_extern p (new_extern_grep token label)
  add_extern_to p _ = p

  unfoldable pub set_rule_to : Store → List Str → Store
  unfolding parse_bool
  set_rule_to p [] = (p.0, record p.1 { rule_per_file = true })
  set_rule_to p (w ∷ []) = elim (parse_bool w) [
    | none ↦ p
    | some b ↦ (p.0, record p.1 { rule_per_file = b })
  ]
  set_rule_to p _ = p

  unfoldable pub apply_to : Store → Directive → Store
  unfolding add_extern_to set_rule_to
  apply_to p d =
      if eq_str d.key grep_extern_key
      then add_extern_to p (fields d.value)
      else if eq_str d.key rule_per_file_key
      then set_rule_to p (fields d.value)
      else p

  unfoldable pub apply_all_to : Store → List Directive → Store
  unfolding apply_to
  apply_all_to p [] = p
  apply_all_to p (d ∷ ds) = apply_all_to (apply_to p d) ds

  -- Configure below a directory that has a configuration.
  unfoldable pub configure_in : Heap GrepExtern → SharedConfig → Option (List Directive) → Store
  unfolding apply_all_to
  configure_in h raw none = (h, shallow_copy raw)
  configure_in h raw (some ds) = apply_all_to (h, shallow_copy raw) ds

  -- The later store stands for the value, and the slice has grown from that of the earlier one.
  pub record Reaches (p : Store) (v : JsConfig) (q : Store) : Type 0 where
    pub stands : value q.0 q.1 ≡ v
    pub grows : Grows p.0 p.1.grep_externs q.0 q.1.grep_externs

  abbrev with_externs : Bool → List GrepExtern → JsConfig
  with_externs b l = record { grep_externs = l; rule_per_file = b }

  Reaches-refl : (p : Store) → Valid p.0 p.1.grep_externs → Reaches p (value p.0 p.1) p
  Reaches-refl p v = record { stands = refl; grows = Grows-refl p.0 p.1.grep_externs v }

  add_extern_to-Reaches :
      (p : Store) (ws : List Str)
      → Valid p.0 p.1.grep_externs
      → Reaches p (add_extern (value p.0 p.1) ws) (add_extern_to p ws)
  unfolding add_extern add_extern_to
  add_extern_to-Reaches p [] v = Reaches-refl p v
  add_extern_to-Reaches p (a ∷ []) v = Reaches-refl p v
  add_extern_to-Reaches p (a ∷ b ∷ []) v =
      let (e, g) = append-Appends room p.0 p.1.grep_externs (new_extern_grep a b) v in
      record { stands = ap (with_externs p.1.rule_per_file) e; grows = g }
  add_extern_to-Reaches p (a ∷ b ∷ c ∷ ws) v = Reaches-refl p v

  parsed-Reaches :
      (p : Store) (o : Option Bool)
      → Valid p.0 p.1.grep_externs
      → Reaches p
          (elim o [ none ↦ value p.0 p.1 | some b ↦ record (value p.0 p.1) { rule_per_file = b } ])
          (elim o [ none ↦ p | some b ↦ (p.0, record p.1 { rule_per_file = b }) ])
  parsed-Reaches p none v = Reaches-refl p v
  parsed-Reaches p (some b) v = record { stands = refl; grows = Grows-refl p.0 p.1.grep_externs v }

  set_rule_to-Reaches :
      (p : Store) (ws : List Str)
      → Valid p.0 p.1.grep_externs
      → Reaches p (set_rule_per_file (value p.0 p.1) ws) (set_rule_to p ws)
  unfolding set_rule_per_file set_rule_to
  set_rule_to-Reaches p [] v = record { stands = refl; grows = Grows-refl p.0 p.1.grep_externs v }
  set_rule_to-Reaches p (w ∷ []) v = parsed-Reaches p (parse_bool w) v
  set_rule_to-Reaches p (a ∷ b ∷ ws) v = Reaches-refl p v

  apply_to-Reaches :
      (p : Store) (d : Directive)
      → Valid p.0 p.1.grep_externs
      → Reaches p (apply_directive (value p.0 p.1) d) (apply_to p d)
  unfolding apply_directive apply_to
  apply_to-Reaches p d v = elim (Bool-cases (eq_str d.key grep_extern_key)) [
    | inl e ↦ rw e (add_extern_to-Reaches p (fields d.value) v)
    | inr e ↦ elim (Bool-cases (eq_str d.key rule_per_file_key)) [
      | inl f ↦ rw (e, f) (set_rule_to-Reaches p (fields d.value) v)
      | inr f ↦ rw (e, f) (Reaches-refl p v)
    ]
  ]

  apply_all_to-Reaches :
      (p : Store) (ds : List Directive)
      → Valid p.0 p.1.grep_externs
      → Reaches p (apply_directives (value p.0 p.1) ds) (apply_all_to p ds)
  unfolding apply_directives apply_all_to
  apply_all_to-Reaches p [] v = Reaches-refl p v
  apply_all_to-Reaches p (d ∷ ds) v =
      let one = apply_to-Reaches p d v in
      let rest = apply_all_to-Reaches (apply_to p d) ds one.grows.valid in
      record {
        stands = rest.stands ∙ ap (λ c. apply_directives c ds) one.stands;
        grows = Grows-trans _ _ _ _ _ _ one.grows rest.grows;
      }

  pub configure_in-Reaches :
      (h : Heap GrepExtern) (c : SharedConfig) (file : Option (List Directive))
      → Valid h c.grep_externs
      → Reaches (h, c) (configure (some (value h c)) file) (configure_in h c file)
  unfolding configure configure_in
  configure_in-Reaches h c none v = Reaches-refl (h, c) v
  configure_in-Reaches h c (some ds) v = apply_all_to-Reaches (h, c) ds v
