-- ===== src/Config/Walk.antt =====
-- The configurations of a walk over the directories, as Gazelle drives Configure: a directory is
-- entered from the one above it, and left before its neighbour is entered.
use rules_closure.Prelude.{
  ℕ, Bool, Option, some, ◌≡◌, refl, ap, ap₂, ◌∙◌, List, [], ◌∷◌, map, All, arith,
}
use rules_closure.Config.{GrepExtern, JsConfig, Directive, register_flags, configure}
use rules_closure.Config.Slices.{Heap, Valid, Within}
use rules_closure.Config.Store.{
  SharedConfig, empty_heap, new_shared, value, Reaches, configure_in, configure_in-Reaches,
}

module _ (room : ℕ → ℕ) where
  -- The heap, the configurations from the directory that is visited up to the root, and the same
  -- by value.
  pub data Walk : Heap GrepExtern → List SharedConfig → List JsConfig → Type 0 where
    registered : Walk empty_heap (new_shared ∷ []) (register_flags ∷ [])
    enter :
        {h : Heap GrepExtern} {c : SharedConfig} {v : JsConfig} {cs : List SharedConfig}
        {vs : List JsConfig} (file : Option (List Directive))
        → Walk h (c ∷ cs) (v ∷ vs)
        → Walk
            (configure_in room h c file).0
            ((configure_in room h c file).1 ∷ c ∷ cs)
            (configure (some v) file ∷ v ∷ vs)
    leave :
        {h : Heap GrepExtern} {c : SharedConfig} {v : JsConfig} {cs : List SharedConfig}
        {vs : List JsConfig}
        → Walk h (c ∷ cs) (v ∷ vs)
        → Walk h cs vs

  -- Each configuration stands for its value, and none above reaches beyond it in its array.
  abbrev Stands : Heap GrepExtern → List SharedConfig → List JsConfig → Type 0
  Stands h [] [] = Unit
  Stands h [] (v ∷ vs) = ⊥
  Stands h (c ∷ cs) [] = ⊥
  Stands h (c ∷ cs) (v ∷ vs) =
      Valid h c.grep_externs
      × (value h c ≡ v)
      × All (λ d. Within c.grep_externs d.grep_externs) cs
      × Stands h cs vs

  abbrev with_view : Bool → List GrepExtern → JsConfig
  with_view b l = record { grep_externs = l; rule_per_file = b }

  -- What has grown from `c` leaves the configurations that lie within `c` as they are.
  Stands-Reaches :
      (h h' : Heap GrepExtern) (c c' : SharedConfig) (v : JsConfig) (cs : List SharedConfig)
      (vs : List JsConfig)
      → Reaches room (h, c) v (h', c')
      → All (λ d. Within c.grep_externs d.grep_externs) cs
      → Stands h cs vs
      → Stands h' cs vs × All (λ d. Within c'.grep_externs d.grep_externs) cs
  Stands-Reaches h h' c c' v [] [] r w s = (tt, tt)
  Stands-Reaches h h' c c' v [] (u ∷ vs) r w s = absurd s
  Stands-Reaches h h' c c' v (d ∷ cs) [] r w s = absurd s
  Stands-Reaches h h' c c' v (d ∷ cs) (u ∷ vs) r w s =
      let (valid, e, within) = r.grows.keeps d.grep_externs s.0 w.0 in
      let (rest, above) = Stands-Reaches h h' c c' v cs vs r w.1 s.3 in
      ((valid, ap (with_view d.rule_per_file) e ∙ s.1, s.2, rest), (within, above))

  Walk-Stands :
      (h : Heap GrepExtern) (cs : List SharedConfig) (vs : List JsConfig)
      → Walk h cs vs
      → Stands h cs vs
  Walk-Stands h cs vs registered =
      (record { known = omega arith; bounded = omega arith }, refl, tt, tt)
  Walk-Stands h cs vs (enter {h = h'} {c = c} {v = v} {cs = cs'} {vs = vs'} file w) =
      let s = Walk-Stands h' (c ∷ cs') (v ∷ vs') w in
      let (h'', c'') = configure_in room h' c file in
      let r = configure_in-Reaches room h' c file s.0 in
      let (above, within) =
        Stands-Reaches h' h'' c c'' _ (c ∷ cs') (v ∷ vs') r ((λ g. omega arith), s.2) s in
      (r.grows.valid, r.stands ∙ ap (λ x. configure (some x) file) s.1, within, above)
  Walk-Stands h cs vs (leave w) = (Walk-Stands _ _ _ w).3

  Stands-map :
      (h : Heap GrepExtern) (cs : List SharedConfig) (vs : List JsConfig)
      → Stands h cs vs
      → map (value h) cs ≡ vs
  Stands-map h [] [] s = refl
  Stands-map h [] (v ∷ vs) s = absurd s
  Stands-map h (c ∷ cs) [] s = absurd s
  Stands-map h (c ∷ cs) (v ∷ vs) s = ap₂ (λ x xs. x ∷ xs) s.1 (Stands-map h cs vs s.3)

  -- Whatever directories are entered and left, and whatever room the runtime gives to the arrays,
  -- the configurations of the directory that is visited and of those above it are what they would
  -- be if a slice were copied with its elements.
  pub walk_lem :
      (h : Heap GrepExtern) (cs : List SharedConfig) (vs : List JsConfig)
      → Walk h cs vs
      → map (value h) cs ≡ vs
  walk_lem h cs vs w = Stands-map h cs vs (Walk-Stands h cs vs w)
