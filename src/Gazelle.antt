-- ===== src/Gazelle.antt =====
-- The packages of Gazelle that gazelle/closure_js is written against (label, resolve and rule), and
-- what else it takes from outside: an interface, whose fields have the names of the Go functions
-- and whose laws state what their documentation says.
use rules_closure.Prelude.{
  Bool, true, Option, none, some, ◌≡◌, ◌≢◌, ◌↔◌, List, Memᴰ, Str, codes, ℕ, leb, ◌&&◌, ◌||◌, [],
  ◌∷◌, ◌==◌, false, ◌++◌,
}
use rules_closure.Distinct.{Distinct}
use rules_closure.Path

-- The bytes of an element of a package or of a target's name, and such an element: not empty, and
-- beginning with a letter or a digit.
abbrev pub alnum : ℕ → Bool
alnum c = leb b'a' c && leb c b'z' || leb b'A' c && leb c b'Z' || leb b'0' c && leb c b'9'

abbrev pub element_byte : ℕ → Bool
element_byte c = alnum c || c == b'_' || c == b'-' || c == b'.'

abbrev pub has_only : (ℕ → Bool) → Str → Bool
has_only p [] = true
has_only p (c ∷ s) = p c && has_only p s

abbrev pub is_element : Str → Bool
is_element [] = false
is_element (c ∷ s) = alnum c && has_only element_byte s

abbrev pub all_elements : List Str → Bool
all_elements [] = true
all_elements (w ∷ ws) = is_element w && all_elements ws

abbrev pub is_package : Str → Bool
is_package p = has_only (λ c. element_byte c || c == b'/') p && all_elements (Path.split b'/' p)

-- Package label: `parse` is label.Parse (`none` for its error), `equal` the method Equal, `same` is
-- `==` on the structure, `rel` and `show` are the methods Rel and String.
pub record Labels : Type 1 where
  pub Label : Type 0
  pub no_label : Label
  pub repo : Label → Str
  pub pkg : Label → Str
  pub name : Label → Str
  pub parse : Str → Option Label
  pub equal : Label → Label → Bool
  pub same : Label → Label → Bool
  pub rel : Label → Str → Str → Label
  pub show : Label → Str
  pub equal_iff : (a b : Label) → (equal a b ≡ true) ↔ (a ≡ b)
  pub same_iff : (a b : Label) → (same a b ≡ true) ↔ (a ≡ b)
  pub no_label_name : name no_label ≡ []
  pub parse_absolute :
      (p n : Str)
      → is_package p ≡ true
      → is_element n ≡ true
      → (l : Label) × (parse (codes "@io_bazel_rules_closure//" ++ (p ++ (b':' ∷ n))) ≡ some l)
        × (repo l ≡ codes "io_bazel_rules_closure")
        × (pkg l ≡ p)
        × (name l ≡ n)

-- Package rule: NewRule, Kind, Name, Attr (`none` for nil), AttrKeys, AttrStrings, SetAttr and
-- DelAttr. `strings` and `string` are the expressions that SetAttr makes of its argument.
pub record Rules : Type 1 where
  pub Rule : Type 0
  pub Expr : Type 0
  pub strings : List Str → Expr
  pub string : Str → Expr
  pub new_rule : Str → Str → Rule
  pub kind : Rule → Str
  pub name : Rule → Str
  pub attr : Rule → Str → Option Expr
  pub attr_keys : Rule → List Str
  pub attr_strings : Rule → Str → List Str
  pub set_attr : Rule → Str → Expr → Rule
  pub del_attr : Rule → Str → Rule
  pub kind_new : (k n : Str) → kind (new_rule k n) ≡ k
  pub name_new : (k n : Str) → name (new_rule k n) ≡ n
  pub attr_new : (k n a : Str) → a ≢ codes "name" → attr (new_rule k n) a ≡ none
  pub kind_set : (r : Rule) (a : Str) (v : Expr) → kind (set_attr r a v) ≡ kind r
  pub attr_set_self : (r : Rule) (a : Str) (v : Expr) → attr (set_attr r a v) a ≡ some v
  pub attr_set_ne : (r : Rule) (a b : Str) (v : Expr) → a ≢ b → attr (set_attr r a v) b ≡ attr r b
  pub kind_del : (r : Rule) (a : Str) → kind (del_attr r a) ≡ kind r
  pub attr_del_self : (r : Rule) (a : Str) → attr (del_attr r a) a ≡ none
  pub attr_del_ne : (r : Rule) (a b : Str) → a ≢ b → attr (del_attr r a) b ≡ attr r b

-- What the index finds: a label, and the method IsSelfImport.
pub record FindResult (Label : Type 0) : Type 0 where
  pub label : Label
  pub is_self_import : Label → Bool

-- What a directive `# gazelle:resolve` says of an import, and the rules that the index holds for it
-- (resolve.FindRuleWithOverride and RuleIndex.FindRulesByImport, for this language).
pub record Index (Label : Type 0) : Type 0 where
  pub find_override : Str → Option Label
  pub find_by_import : Str → List (FindResult Label)

-- The order in which Go walks the keys of a map: each key once, in any order.
pub record IsOrder (order : List Str → List Str) : Type 0 where
  pub visits : (xs : List Str) (x : Str) → Memᴰ x (order xs) ↔ Memᴰ x xs
  pub once : (xs : List Str) → Distinct xs → Distinct (order xs)
