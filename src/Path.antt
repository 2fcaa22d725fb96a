-- ===== src/Path.antt =====
-- The functions of Go's packages path and path/filepath that gazelle/closure_js calls, on a system
-- whose separator is `/`.
pub mod Elements
pub mod Below
pub mod Extension
use mathlib.Core.List.{reverse}
use rules_closure.Prelude.{
  ℕ, Bool, true, false, Option, none, some, List, [], ◌∷◌, ◌++◌, ◌-◌, ◌||◌, not, Str, codes, length,
  if◌then◌else◌, ◌==◌, eq_str, zero, suc,
}

abbrev pub slash : ℕ
slash = b'/'

abbrev pub take {ℓ} : {A : Type ℓ} → ℕ → List A → List A
take zero xs = []
take (suc n) [] = []
take (suc n) (x ∷ xs) = x ∷ take n xs

-- path.Ext and filepath.Ext: the loop from the end of the text, over the bytes reversed.
pub ext_loop : Str → Str → Str
ext_loop [] seen = []
ext_loop (c ∷ r) seen =
    if c == slash then [] else if c == b'.' then c ∷ seen else ext_loop r (c ∷ seen)

unfoldable pub ext : Str → Str
unfolding ext_loop
ext s = ext_loop (reverse s) []

-- `s[:len(s)-len(path.Ext(s))]`
unfoldable pub no_ext : Str → Str
unfolding ext
no_ext s = take (length s - length (ext s)) s

-- The elements between separators. There is always one, which may be empty.
unfoldable pub split : ℕ → Str → List Str
split sep [] = [] ∷ []
split sep (c ∷ s) = elim (split sep s) [
  | [] ↦ []
  | w ∷ ws ↦ if c == sep then [] ∷ w ∷ ws else (c ∷ w) ∷ ws
]

unfoldable pub join_with : ℕ → List Str → Str
join_with sep [] = []
join_with sep (w ∷ []) = w
join_with sep (w ∷ v ∷ ws) = w ++ (sep ∷ join_with sep (v ∷ ws))

-- A path that Clean has brought to normal form: whether it starts at the root, and its elements.
pub record Cleaned : Type 0 where
  pub rooted : Bool
  pub parts : List Str

abbrev pub dot_dot : Str
dot_dot = codes ".."

-- One element after the stack of those before it (the last one first): empty elements and `.` are
-- dropped, `..` takes back the element before it, or stands if there is none and the path is not
-- rooted.
pub back_up : Bool → List Str → List Str
back_up rooted [] = if rooted then [] else dot_dot ∷ []
back_up rooted (w ∷ stack) = if eq_str w dot_dot then dot_dot ∷ w ∷ stack else stack

unfoldable pub clean_step : Bool → List Str → Str → List Str
unfolding back_up eq_str
clean_step rooted stack w =
    if eq_str w [] || eq_str w (codes ".")
    then stack
    else if eq_str w dot_dot
    then back_up rooted stack
    else w ∷ stack

unfoldable pub clean_parts : Bool → List Str → List Str → List Str
unfolding clean_step
clean_parts rooted stack [] = reverse stack
clean_parts rooted stack (w ∷ ws) = clean_parts rooted (clean_step rooted stack w) ws

pub is_rooted : Str → Bool
is_rooted [] = false
is_rooted (c ∷ s) = c == slash

unfoldable pub cleaned : Str → Cleaned
unfolding clean_parts split is_rooted
cleaned s = record { rooted = is_rooted s; parts = clean_parts (is_rooted s) [] (split slash s) }

unfoldable pub show : Cleaned → Str
unfolding join_with
show p = elim p.parts [
  | [] ↦ if p.rooted then codes "/" else codes "."
  | w ∷ ws ↦ (if p.rooted then codes "/" else []) ++ join_with slash (w ∷ ws)
]

-- filepath.Clean
unfoldable pub clean : Str → Str
unfolding cleaned show
clean s = show (cleaned s)

pub after_slash : Str → Str → Str
after_slash [] seen = seen
after_slash (c ∷ r) seen = if c == slash then seen else after_slash r (c ∷ seen)

pub strip_slashes : Str → Str
strip_slashes [] = []
strip_slashes (c ∷ r) = if c == slash then strip_slashes r else c ∷ r

-- path.Base and filepath.Base
unfoldable pub base : Str → Str
unfolding after_slash strip_slashes
base [] = codes "."
base (c ∷ s) = elim (after_slash (strip_slashes (reverse (c ∷ s))) []) [
  | [] ↦ codes "/"
  | x ∷ w ↦ x ∷ w
]

-- The bytes up to and including the last separator.
pub upto_slash : Str → Str
upto_slash [] = []
upto_slash (c ∷ r) = if c == slash then c ∷ r else upto_slash r

-- filepath.Dir
unfoldable pub dir : Str → Str
unfolding clean upto_slash
dir s = clean (reverse (upto_slash (reverse s)))

-- filepath.Join of two elements: empty ones are left out.
unfoldable pub join : Str → Str → Str
unfolding clean
join [] [] = []
join [] (c ∷ b) = clean (c ∷ b)
join (c ∷ a) [] = clean (c ∷ a)
join (c ∷ a) (d ∷ b) = clean ((c ∷ a) ++ (slash ∷ d ∷ b))

-- What is left of both lists after the elements that they share at the front.
pub differ : List Str → List Str → List Str × List Str
unfolding eq_str
differ [] ts = ([], ts)
differ (b ∷ bs) [] = (b ∷ bs, [])
differ (b ∷ bs) (t ∷ ts) = if eq_str b t then differ bs ts else (b ∷ bs, t ∷ ts)

-- One `..` for each element.
pub climb : List Str → List Str
climb [] = []
climb (b ∷ bs) = dot_dot ∷ climb bs

pub begins_up : List Str → Bool
begins_up [] = false
begins_up (b ∷ bs) = eq_str b dot_dot

unfoldable pub rel_parts : List Str → List Str → Option (List Str)
unfolding differ climb begins_up
rel_parts bs ts =
    let (base_left, targ_left) = differ bs ts in
    if begins_up base_left then none else some (climb base_left ++ targ_left)

pub same_root : Bool → Bool → Bool
same_root true b = b
same_root false b = not b

abbrev pub relative : List Str → Cleaned
relative ws = record { rooted = false; parts = ws }

-- filepath.Rel, `none` where it returns an error.
unfoldable pub rel : Str → Str → Option Str
unfolding cleaned rel_parts show same_root
rel b t =
    let p = cleaned b in
    let q = cleaned t in
    if same_root p.rooted q.rooted
    then elim (rel_parts p.parts q.parts) [ none ↦ none | some ws ↦ some (show (relative ws)) ]
    else none
