-- ===== src/Samples/Build.antt =====
-- Rules as records, with their attributes as an association list.
use rules_closure.Generate.Run.{GenerateResult}
use rules_closure.Prelude.{
  false, Option, none, some, ◌≡◌, ◌≢◌, refl, List, [], ◌∷◌, Str, if◌then◌else◌, eq_str, eq_str_iff,
  eq_str_refl, Bool-cases, inl, inr, eq_str_of_ne,
}
use rules_closure.Gazelle.{Rules}

pub data Expr : Type 0 where
  texts : List Str → Expr
  text : Str → Expr

abbrev pub Attrs : Type 0
Attrs = List (Str × Expr)

pub record BuildRule : Type 0 where
  pub kind : Str
  pub name : Str
  pub attrs : Attrs

unfoldable pub find : Str → Attrs → Option Expr
unfolding eq_str
find k [] = none
find k ((a, v) ∷ m) = if eq_str a k then some v else find k m

unfoldable pub remove : Str → Attrs → Attrs
unfolding eq_str
remove k [] = []
remove k ((a, v) ∷ m) = if eq_str a k then remove k m else (a, v) ∷ remove k m

pub find-cons_self : (k : Str) (v : Expr) (m : Attrs) → find k ((k, v) ∷ m) ≡ some v
unfolding find
find-cons_self k v m = rw (eq_str_refl k)

pub find-cons_ne : (a b : Str) (v : Expr) (m : Attrs) → a ≢ b → find b ((a, v) ∷ m) ≡ find b m
unfolding find
find-cons_ne a b v m n = rw (eq_str_of_ne a b n)

pub find-remove_self : (k : Str) (m : Attrs) → find k (remove k m) ≡ none
unfolding remove find
find-remove_self k [] = refl
find-remove_self k ((a, v) ∷ m) = elim (Bool-cases (eq_str a k)) [
  | inl e ↦ rw (e, remove) (find-remove_self k m)
  | inr e ↦ rw (e, remove) (rw e (find-remove_self k m))
]

pub find-nil : (k : Str) → find k [] ≡ none
unfolding find
find-nil k = refl

pub find-remove_ne : (k b : Str) (m : Attrs) → k ≢ b → find b (remove k m) ≡ find b m
unfolding remove find
find-remove_ne k b [] n = refl
find-remove_ne k b ((a, v) ∷ m) n = elim (Bool-cases (eq_str a k)) [
  | inl e ↦
      let other : eq_str a b ≡ false = rw ((eq_str_iff a k).0 e) (eq_str_of_ne k b n) in
      rw (e, remove, other) (find-remove_ne k b m n)
  | inr e ↦ elim (Bool-cases (eq_str a b)) [
    | inl f ↦ rw (e, remove) (rw f)
    | inr f ↦ rw (e, remove) (rw f (find-remove_ne k b m n))
  ]
]

abbrev pub keys : Attrs → List Str
keys [] = []
keys ((a, v) ∷ m) = a ∷ keys m

abbrev pub texts_of : Option Expr → List Str
texts_of (some (texts l)) = l
texts_of _ = []

abbrev pub sample_rules : Rules
sample_rules = record {
  Rule = BuildRule;
  Expr = Expr;
  strings = texts;
  string = text;
  new_rule = λ k n. record { kind = k; name = n; attrs = [] };
  kind = λ r. r.kind;
  name = λ r. r.name;
  attr = λ r a. find a r.attrs;
  attr_keys = λ r. keys r.attrs;
  attr_strings = λ r a. texts_of (find a r.attrs);
  set_attr = λ r a v. record r { attrs = (a, v) ∷ r.attrs };
  del_attr = λ r a. record r { attrs = remove a r.attrs };
  kind_new = λ k n. refl;
  name_new = λ k n. refl;
  attr_new = λ k n a h. find-nil a;
  kind_set = λ r a v. refl;
  attr_set_self = λ r a v. find-cons_self a v r.attrs;
  attr_set_ne = λ r a b v n. find-cons_ne a b v r.attrs n;
  kind_del = λ r a. refl;
  attr_del_self = λ r a. find-remove_self a r.attrs;
  attr_del_ne = λ r a b n. find-remove_ne a b r.attrs n;
}

-- The kinds and the names of the rules that were generated.
abbrev kinds_and_names : List BuildRule → List (Str × Str)
kinds_and_names [] = []
kinds_and_names (r ∷ rs) = (r.kind, r.name) ∷ kinds_and_names rs

unfoldable pub generated : Option (GenerateResult sample_rules) → Option (List (Str × Str))
generated none = none
generated (some out) = some (kinds_and_names out.gen)
