-- ===== src/Samples/Label.antt =====
-- Labels as triples of texts. The parser reads the absolute labels of one repository.
use mathlib.Core.List.Memᴰ
use mathlib.Core.List.Memᴰ.{head, tail}
use rules_closure.Distinct.{mem-concat, Distinct, Distinct-concat}
use rules_closure.Prelude.{
  Bool, true, false, ◌&&◌, ◌||◌, Option, none, some, ◌≡◌, ◌↔◌, refl, List, [], ◌∷◌, ◌++◌, Str,
  codes, arith, if◌then◌else◌, eq_str, eq_str_iff, eq_str_refl, has_prefix, trim_prefix, ◌==◌, ap,
  Memᴰ, inl, inr,
}
use rules_closure.Gazelle.{Labels, IsOrder, is_package, has_only, element_byte}

pub record TextLabel : Type 0 where
  pub repo : Str
  pub pkg : Str
  pub name : Str

unfoldable pub same_label : TextLabel → TextLabel → Bool
unfolding eq_str
same_label a b = eq_str a.repo b.repo && eq_str a.pkg b.pkg && eq_str a.name b.name

pub same_label_iff : (a b : TextLabel) → (same_label a b ≡ true) ↔ (a ≡ b)
unfolding same_label
same_label_iff a b = (
  λ h.
      let r : a.repo ≡ b.repo = (eq_str_iff a.repo b.repo).0 (ground arith) in
      let p : a.pkg ≡ b.pkg = (eq_str_iff a.pkg b.pkg).0 (ground arith) in
      let n : a.name ≡ b.name = (eq_str_iff a.name b.name).0 (ground arith) in
      λ i. record { repo = r i; pkg = p i; name = n i },
  λ e. rw e (ground (arith, eq_str_refl b.repo, eq_str_refl b.pkg, eq_str_refl b.name)),
)

unfoldable pub cut : Str → Str × Str
cut [] = ([], [])
cut (c ∷ s) = if c == b':' then ([], s) else (c ∷ (cut s).0, (cut s).1)

cut-append :
    (p n : Str)
    → has_only (λ c. element_byte c || c == b'/') p ≡ true
    → cut (p ++ (b':' ∷ n)) ≡ (p, n)
unfolding cut
cut-append [] n h = refl
cut-append (c ∷ p) n h = ground (arith, cut-append p n)

abbrev pub closure_prefix : Str
closure_prefix = codes "@io_bazel_rules_closure//"

abbrev pub parsed : Str × Str → TextLabel
parsed (p, n) = record { repo = codes "io_bazel_rules_closure"; pkg = p; name = n }

unfoldable pub parse_label : Str → Option TextLabel
unfolding cut trim_prefix has_prefix
parse_label s =
    if has_prefix s closure_prefix then some (parsed (cut (trim_prefix s closure_prefix))) else none

and_left : (a b : Bool) → (a && b) ≡ true → a ≡ true
and_left true b h = refl
and_left false b h = cc

pub parse_label-absolute :
    (p n : Str)
    → is_package p ≡ true
    → parse_label (closure_prefix ++ (p ++ (b':' ∷ n))) ≡ some (parsed (p, n))
unfolding parse_label
parse_label-absolute p n h = ap (λ q. some (parsed q)) (cut-append p n (and_left _ _ h))

abbrev pub show_label : TextLabel → Str
show_label l = codes "@" ++ (l.repo ++ (codes "//" ++ (l.pkg ++ (codes ":" ++ l.name))))

abbrev pub no_text_label : TextLabel
no_text_label = record { repo = []; pkg = []; name = [] }

abbrev pub sample_labels : Labels
sample_labels = record {
  Label = TextLabel;
  no_label = no_text_label;
  repo = λ l. l.repo;
  pkg = λ l. l.pkg;
  name = λ l. l.name;
  parse = parse_label;
  equal = same_label;
  same = same_label;
  rel = λ l r p. l;
  show = show_label;
  equal_iff = same_label_iff;
  same_iff = same_label_iff;
  no_label_name = refl;
  parse_absolute = λ p n hp hn. (parsed (p, n), parse_label-absolute p n hp, refl, refl, refl);
}

abbrev pub as_is : List Str → List Str
as_is xs = xs

pub as_is-IsOrder : IsOrder as_is
as_is-IsOrder = record { visits = λ xs x. (λ m. m, λ m. m); once = λ xs d. d }

-- Another order: the first key comes last.
abbrev pub rotated : List Str → List Str
rotated [] = []
rotated (x ∷ xs) = xs ++ x ∷ []

rotated-visits : (xs : List Str) (x : Str) → Memᴰ x (rotated xs) ↔ Memᴰ x xs
rotated-visits [] x = (λ m. m, λ m. m)
rotated-visits (y ∷ ys) x = (
  λ m. elim (mem-concat ys m) [ inl i ↦ tail i | inr e ↦ head e ],
  λ m. elim (Memᴰ.cases_cons m) [
    | inl e ↦ Memᴰ.append_right ys (head e)
    | inr i ↦ Memᴰ.append_left (y ∷ []) i
  ],
)

rotated-once : (xs : List Str) → Distinct xs → Distinct (rotated xs)
rotated-once [] d = d
rotated-once (x ∷ xs) d = Distinct-concat xs x d.1 d.0

pub rotated-IsOrder : IsOrder rotated
rotated-IsOrder = record { visits = rotated-visits; once = rotated-once }
