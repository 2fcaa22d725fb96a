-- ===== src/Resolve/Keys.antt =====
-- The keys of the maps of Resolve: what is deleted, what is added, and what is merged.
use mathlib.Core.List.Memᴰ
use mathlib.Core.List.Memᴰ.{head, tail}
use rules_closure.Prelude.{
  true, Option, none, some, ◌≡◌, ◌≢◌, refl, sym, ap, ◌∙◌, ◌↔◌, ◌⊎◌, inl, inr, List, [], ◌∷◌, ◌++◌,
  Memᴰ, Str, arith, eq_str, eq_str_iff, eq_str_refl, Bool-cases,
}
use rules_closure.Distinct.{
  contains, contains→mem, not-mem, Distinct, mem-concat, Distinct-concat, Distinct-append,
}
use rules_closure.Gazelle.{IsOrder}
use rules_closure.Resolve.{put_key, delete_key, delete_keys, other_deps}

put_key-Distinct : (k : Str) (keys : List Str) → Distinct keys → Distinct (put_key k keys)
unfolding put_key
put_key-Distinct k keys d = elim (Bool-cases (contains keys k)) [
  | inl e ↦ rw e d
  | inr e ↦ rw e (Distinct-concat keys k d (not-mem keys k e))
]

put_key_iff : (k x : Str) (keys : List Str) → Memᴰ x (put_key k keys) ↔ (Memᴰ x keys ⊎ (x ≡ k))
unfolding put_key
put_key_iff k x keys = elim (Bool-cases (contains keys k)) [
  | inl e ↦ rw e (λ m. inl m, λ h. elim h [ inl m ↦ m | inr s ↦ rw s (contains→mem keys k e) ])
  | inr e ↦ rw e (
    λ m. mem-concat keys m,
    λ h. elim h [ inl m ↦ Memᴰ.append_left (k ∷ []) m | inr s ↦ Memᴰ.append_right keys (head s) ],
  )
]

pub delete_key_iff :
    (k x : Str) (keys : List Str) → Memᴰ x (delete_key k keys) ↔ (Memᴰ x keys × (x ≢ k))
unfolding delete_key
delete_key_iff k x [] = (λ m. elim m [ ], λ h. elim h.0 [ ])
delete_key_iff k x (y ∷ keys) =
    let (there, back) = delete_key_iff k x keys in
    elim (Bool-cases (eq_str y k)) [
      | inl e ↦
          let same : y ≡ k = (eq_str_iff y k).0 e in
          rw (e, delete_key)
            (
              λ m. (tail (there m).0, (there m).1),
              λ (m, ne). elim (Memᴰ.cases_cons m) [
                | inl f ↦ absurd (ne (f ∙ same))
                | inr n ↦ back (n, ne)
              ],
            )
      | inr e ↦
          rw (e, delete_key)
            (
              λ m. elim (Memᴰ.cases_cons m) [
                | inl f ↦
                    (head f, λ g. let h : eq_str y k ≡ true = rw (← f, g) (eq_str_refl k) in cc)
                | inr n ↦ (tail (there n).0, (there n).1)
              ],
              λ (m, ne). elim (Memᴰ.cases_cons m) [ inl f ↦ head f | inr n ↦ tail (back (n, ne)) ],
            )
    ]

pub delete_key-Distinct : (k : Str) (keys : List Str) → Distinct keys → Distinct (delete_key k keys)
unfolding delete_key
delete_key-Distinct k [] d = tt
delete_key-Distinct k (y ∷ keys) (h, d) = elim (Bool-cases (eq_str y k)) [
  | inl e ↦ rw (e, delete_key) (delete_key-Distinct k keys d)
  | inr e ↦
      rw (e, delete_key) (λ m. h ((delete_key_iff k y keys).0 m).0, delete_key-Distinct k keys d)
]

pub delete_keys-Distinct : (ks keys : List Str) → Distinct keys → Distinct (delete_keys ks keys)
unfolding delete_keys
delete_keys-Distinct [] keys d = d
delete_keys-Distinct (k ∷ ks) keys d =
    delete_keys-Distinct ks (delete_key k keys) (delete_key-Distinct k keys d)

pub delete_keys_iff :
    (ks : List Str) (x : Str) (keys : List Str)
    → Memᴰ x (delete_keys ks keys) ↔ (Memᴰ x keys × (¬ Memᴰ x ks))
unfolding delete_keys
delete_keys_iff [] x keys = (λ m. (m, λ i. elim i [ ]), λ h. h.0)
delete_keys_iff (k ∷ ks) x keys =
    let (there, back) = delete_keys_iff ks x (delete_key k keys) in
    let (there', back') = delete_key_iff k x keys in
    (
      λ m. (
        (there' (there m).0).0,
        λ i. elim (Memᴰ.cases_cons i) [ inl e ↦ (there' (there m).0).1 e | inr j ↦ (there m).1 j ],
      ),
      λ (m, n). back (back' (m, λ e. n (head e)), λ j. n (tail j)),
    )

pub other_deps-delete : (self : Str) (deps : List Str) → other_deps self deps ≡ delete_key self deps
unfolding other_deps delete_key
other_deps-delete self [] = refl
other_deps-delete self (y ∷ deps) = ground (arith, other_deps-delete self deps)

-- The keys after one import.
abbrev pub grow : List Str → Option Str → List Str
grow keys none = keys
grow keys (some k) = put_key k keys

pub grow-Distinct : (keys : List Str) (o : Option Str) → Distinct keys → Distinct (grow keys o)
grow-Distinct keys none d = d
grow-Distinct keys (some k) d = put_key-Distinct k keys d

pub grow_iff :
    (keys : List Str) (x : Str) (o : Option Str)
    → Memᴰ x (grow keys o) ↔ (Memᴰ x keys ⊎ (o ≡ some x))
grow_iff keys x none = (λ m. inl m, λ h. elim h [ inl m ↦ m | inr e ↦ cc ])
grow_iff keys x (some k) =
    let (there, back) = put_key_iff k x keys in
    (
      λ m. elim (there m) [ inl i ↦ inl i | inr e ↦ inr (ap some (sym e)) ],
      λ h. elim h [ inl m ↦ back (inl m) | inr e ↦ back (inr (cc)) ],
    )

-- The deps with the keys of the map that are not among them.
pub merged-Distinct :
    (order : List Str → List Str) (deps keys : List Str)
    → IsOrder order
    → Distinct deps
    → Distinct keys
    → Distinct (deps ++ order (delete_keys deps keys))
merged-Distinct order deps keys o d k =
    let left = delete_keys deps keys in
    Distinct-append deps (order left) d (o.once left (delete_keys-Distinct deps keys k))
      (λ x m n. ((delete_keys_iff deps x keys).0 ((o.visits left x).0 n)).1 m)

pub merged_iff :
    (order : List Str → List Str) (deps keys : List Str) (x : Str)
    → IsOrder order
    → Memᴰ x (deps ++ order (delete_keys deps keys)) ↔ (Memᴰ x deps ⊎ Memᴰ x keys)
merged_iff order deps keys x o =
    let left = delete_keys deps keys in
    let (there, back) = o.visits left x in
    let (there', back') = delete_keys_iff deps x keys in
    (
      λ m. elim (Memᴰ.append_cases deps m) [ inl i ↦ inl i | inr i ↦ inr (there' (there i)).0 ],
      λ c. elim c [
        | inl i ↦ Memᴰ.append_left (order left) i
        | inr i ↦ elim (Bool-cases (contains deps x)) [
          | inl e ↦ Memᴰ.append_left (order left) (contains→mem deps x e)
          | inr e ↦ Memᴰ.append_right deps (back (back' (i, not-mem deps x e)))
        ]
      ],
    )
