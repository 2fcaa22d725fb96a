-- ===== src/FileInfo/Externs.antt =====
-- The labels that the token searches add.
use mathlib.Core.List.Memᴰ
use mathlib.Core.List.Memᴰ.{head, tail}
use rules_closure.Prelude.{
  true, ◌≡◌, refl, sym, ◌⊎◌, List, [], ◌∷◌, ◌++◌, Memᴰ, Str, inl, inr, Bool-cases, if◌then◌else◌,
  ◌↔◌,
}
use rules_closure.Distinct.{contains, contains→mem, not-mem, Distinct, mem-concat, Distinct-concat}
use rules_closure.Config.{GrepExtern, matches}
use rules_closure.FileInfo.{FileInfo, add_externs}

-- One round of the loop.
abbrev pub added : Str → GrepExtern → FileInfo → FileInfo
added b ge info =
    if matches ge b
    then if contains info.deps ge.label
      then info
      else record info { deps = info.deps ++ ge.label ∷ [] }
    else info

-- A search with this label succeeds.
abbrev pub Found : Str → List GrepExtern → Str → Type 0
Found b ges l = (ge : GrepExtern) × Memᴰ ge ges × (matches ge b ≡ true) × (ge.label ≡ l)

added-Distinct :
    (b : Str) (ge : GrepExtern) (info : FileInfo)
    → Distinct info.deps
    → Distinct (added b ge info).deps
added-Distinct b ge info d = elim (Bool-cases (matches ge b)) [
  | inr e ↦ rw e d
  | inl e ↦ elim (Bool-cases (contains info.deps ge.label)) [
    | inl old ↦ rw (e, old) d
    | inr new ↦ rw (e, new) (Distinct-concat info.deps ge.label d (not-mem info.deps ge.label new))
  ]
]

pub add_externs-Distinct :
    (b : Str) (ges : List GrepExtern) (info : FileInfo)
    → Distinct info.deps
    → Distinct (add_externs b ges info).deps
unfolding add_externs
add_externs-Distinct b [] info d = d
add_externs-Distinct b (ge ∷ ges) info d =
    add_externs-Distinct b ges (added b ge info) (added-Distinct b ge info d)

added-keeps :
    (b : Str) (ge : GrepExtern) (info : FileInfo) (l : Str)
    → Memᴰ l info.deps
    → Memᴰ l (added b ge info).deps
added-keeps b ge info l m = elim (Bool-cases (matches ge b)) [
  | inr e ↦ rw e m
  | inl e ↦ elim (Bool-cases (contains info.deps ge.label)) [
    | inl old ↦ rw (e, old) m
    | inr new ↦ rw (e, new) (Memᴰ.append_left (ge.label ∷ []) m)
  ]
]

added-label :
    (b : Str) (ge : GrepExtern) (info : FileInfo)
    → matches ge b ≡ true
    → Memᴰ ge.label (added b ge info).deps
added-label b ge info e = elim (Bool-cases (contains info.deps ge.label)) [
  | inl old ↦ rw (e, old) (contains→mem info.deps ge.label old)
  | inr new ↦ rw (e, new) (Memᴰ.append_right info.deps (head refl))
]

added-cases :
    (b : Str) (ge : GrepExtern) (info : FileInfo) (l : Str)
    → Memᴰ l (added b ge info).deps
    → Memᴰ l info.deps ⊎ ((matches ge b ≡ true) × (ge.label ≡ l))
added-cases b ge info l m = elim (Bool-cases (matches ge b)) [
  | inr e ↦ inl (rw e at m)
  | inl e ↦ elim (Bool-cases (contains info.deps ge.label)) [
    | inl old ↦ inl (rw (e, old) at m)
    | inr new ↦ elim (mem-concat info.deps (rw (e, new) at m)) [
      | inl i ↦ inl i
      | inr same ↦ inr (e, sym same)
    ]
  ]
]

mem-add_externs :
    (b : Str) (ges : List GrepExtern) (info : FileInfo) (l : Str)
    → Memᴰ l info.deps ⊎ Found b ges l
    → Memᴰ l (add_externs b ges info).deps
unfolding add_externs
mem-add_externs b [] info l (inl m) = m
mem-add_externs b [] info l (inr (ge, m, _, _)) = elim m [ ]
mem-add_externs b (ge ∷ ges) info l (inl m) =
    mem-add_externs b ges (added b ge info) l (inl (added-keeps b ge info l m))
mem-add_externs b (ge ∷ ges) info l (inr (x, head e, h, is)) =
    let same : matches ge b ≡ true = rw e at h in
    let label_is : l ≡ ge.label = cc in
    mem-add_externs b ges (added b ge info) l (inl (rw label_is (added-label b ge info same)))
mem-add_externs b (ge ∷ ges) info l (inr (x, tail m, h, is)) =
    mem-add_externs b ges (added b ge info) l (inr (x, m, h, is))

add_externs-mem :
    (b : Str) (ges : List GrepExtern) (info : FileInfo) (l : Str)
    → Memᴰ l (add_externs b ges info).deps
    → Memᴰ l info.deps ⊎ Found b ges l
unfolding add_externs
add_externs-mem b [] info l m = inl m
add_externs-mem b (ge ∷ ges) info l m = elim (add_externs-mem b ges (added b ge info) l m) [
  | inr (x, i, h, is) ↦ inr (x, tail i, h, is)
  | inl i ↦ elim (added-cases b ge info l i) [
    | inl old ↦ inl old
    | inr (h, is) ↦ inr (ge, head refl, h, is)
  ]
]

-- The labels of a file after the searches: those before, and those of the searches that succeed.
pub add_externs_iff :
    (b : Str) (ges : List GrepExtern) (info : FileInfo) (l : Str)
    → Memᴰ l (add_externs b ges info).deps ↔ (Memᴰ l info.deps ⊎ Found b ges l)
add_externs_iff b ges info l = (add_externs-mem b ges info l, mem-add_externs b ges info l)
