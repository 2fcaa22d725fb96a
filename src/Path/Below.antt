-- ===== src/Path/Below.antt =====
-- Dir, Join and Rel on paths below a root, and the names without their extensions.
use mathlib.Core.List.{reverse, reverse-cons, reverse-append, reverse-reverse}
use rules_closure.Prelude.{
  true, false, ◌≡◌, refl, sym, ap, ap₂, ◌∙◌, List, [], ◌∷◌, ◌++◌, Str, codes, if◌then◌else◌, ◌==◌,
  eq_str, All, All-append, append_assoc, none, some, Option, eq_str_refl, length, ◌-◌,
  length-append, arith,
}
use rules_closure.Path.{
  slash, split, join_with, Cleaned, dot_dot, cleaned, is_rooted, show, clean, upto_slash, dir, join,
  differ, climb, begins_up, rel_parts, rel, same_root, relative, ext, ext_loop, no_ext,
}
use rules_closure.Path.Extension.{take-length}
use rules_closure.Path.Elements.{
  NoSlash, IsElement, under, split-append, split-NoSlash, join-append, kept, kept-append,
  kept-elements, cleaned-kept,
}

-- The text of an absolute path.
abbrev pub absolute : List Str → Str
absolute ws = slash ∷ join_with slash ws

-- A text whose elements go nowhere up, and that Clean brings down to these.
abbrev Spells : Str → List Str → Type 0
Spells s ws = (kept (split slash s) ≡ ws) × All (λ w. eq_str w dot_dot ≡ false) (split slash s)

Spells-append :
    (a s : Str) (xs ys : List Str)
    → Spells a xs
    → Spells s ys
    → Spells (a ++ (slash ∷ s)) (xs ++ ys)
Spells-append a s xs ys h k = rw (split-append a s) (
  kept-append (split slash a) (split slash s) ∙ ap₂ (λ us vs. us ++ vs) h.0 k.0,
  All-append (λ w. eq_str w dot_dot ≡ false) (split slash a) (split slash s) h.1 k.1,
)

Spells-nil : Spells [] []
unfolding split eq_str
Spells-nil = (refl, (refl, tt))

Spells-dot : Spells (codes ".") []
unfolding split eq_str
Spells-dot = (refl, (refl, tt))

Spells-element : (w : Str) → IsElement w → Spells w (w ∷ [])
Spells-element w h =
    rw (split-NoSlash w h.no_slash) (kept-elements (w ∷ []) (h, tt), (h.not_up, tt))

Spells-join : (ws : List Str) → All IsElement ws → Spells (join_with slash ws) ws
unfolding join_with
Spells-join [] h = Spells-nil
Spells-join (w ∷ []) h = Spells-element w h.0
Spells-join (w ∷ v ∷ ws) h =
    Spells-append w (join_with slash (v ∷ ws)) (w ∷ []) (v ∷ ws) (Spells-element w h.0)
      (Spells-join (v ∷ ws) h.1)

Spells-under : (ds : List Str) → All IsElement ds → Spells (under ds) ds
Spells-under [] h = Spells-nil
Spells-under (d ∷ ds) h =
    Spells-append d (under ds) (d ∷ []) ds (Spells-element d h.0) (Spells-under ds h.1)

abbrev rooted_at : List Str → Cleaned
rooted_at ws = record { rooted = true; parts = ws }

cleaned-Spells :
    (s : Str) (ws : List Str)
    → Spells s ws
    → cleaned (slash ∷ s) ≡ record { rooted = true; parts = ws }
unfolding is_rooted split
cleaned-Spells s ws h =
    let (e, k) = Spells-append [] s [] ws Spells-nil h in
    cleaned-kept (slash ∷ s) k ∙ ap (λ l. rooted_at l) e

show-rooted : (ws : List Str) → show (record { rooted = true; parts = ws }) ≡ absolute ws
unfolding show join_with
show-rooted [] = refl
show-rooted (w ∷ ws) = refl

differ-append : (rs xs : List Str) → differ rs (rs ++ xs) ≡ ([], xs)
unfolding differ
differ-append [] xs = refl
differ-append (r ∷ rs) xs = rw (eq_str_refl r) (differ-append rs xs)

clean-Spells : (s : Str) (ws : List Str) → Spells s ws → clean (slash ∷ s) ≡ absolute ws
unfolding clean
clean-Spells s ws h = ap show (cleaned-Spells s ws h) ∙ show-rooted ws

rel_parts-append : (rs xs : List Str) → rel_parts rs (rs ++ xs) ≡ some xs
unfolding rel_parts climb begins_up
rel_parts-append rs xs = rw (rel_parts, differ-append rs xs) refl

show-relative :
    (xs : List Str) (x : Str) → show (relative (xs ++ x ∷ [])) ≡ join_with slash (xs ++ x ∷ [])
unfolding show
show-relative [] x = refl
show-relative (y ∷ xs) x = refl

-- What Rel does with the cleaned paths.
abbrev rel_of : Cleaned → Cleaned → Option Str
rel_of p q =
    if same_root p.rooted q.rooted
    then elim (rel_parts p.parts q.parts) [ none ↦ none | some ws ↦ some (show (relative ws)) ]
    else none

-- Rel from a directory to a path below it.
pub rel-below :
    (rs xs : List Str) (x : Str)
    → All IsElement rs
    → All IsElement (rs ++ (xs ++ x ∷ []))
    → rel (absolute rs) (absolute (rs ++ (xs ++ x ∷ []))) ≡ some (join_with slash (xs ++ x ∷ []))
unfolding rel same_root
rel-below rs xs x h k =
    ap₂ rel_of (cleaned-Spells (join_with slash rs) rs (Spells-join rs h)) (
      cleaned-Spells (join_with slash (rs ++ (xs ++ x ∷ []))) (rs ++ (xs ++ x ∷ []))
        (Spells-join (rs ++ (xs ++ x ∷ [])) k))
    ∙ ap (λ o. elim o as (λ _. Option Str) [ none ↦ none | some ws ↦ some (show (relative ws)) ])
        (rel_parts-append rs (xs ++ x ∷ []))
    ∙ ap some (show-relative xs x)

-- Join with a name that starts with `./`.
pub join-below :
    (ds ms : List Str)
    → All IsElement ds
    → All IsElement ms
    → join (absolute ds) (b'.' ∷ slash ∷ join_with slash ms) ≡ absolute (ds ++ ms)
unfolding join
join-below ds ms h k =
    clean-Spells (join_with slash ds ++ (slash ∷ b'.' ∷ slash ∷ join_with slash ms)) (ds ++ ms) (
      Spells-append (join_with slash ds) (b'.' ∷ slash ∷ join_with slash ms) ds ms
        (Spells-join ds h)
        (Spells-append (codes ".") (join_with slash ms) [] ms Spells-dot (Spells-join ms k)))

upto_slash-skips : (a s : Str) → NoSlash a → upto_slash (a ++ (slash ∷ s)) ≡ slash ∷ s
unfolding upto_slash
upto_slash-skips [] s h = refl
upto_slash-skips (c ∷ a) s h = rw h.0 (upto_slash-skips a s h.1)

NoSlash-reverse : (f : Str) → NoSlash f → NoSlash (reverse f)
NoSlash-reverse [] h = tt
NoSlash-reverse (c ∷ f) h = rw (reverse-cons c f) (
    All-append (λ c'. (c' == slash) ≡ false) (reverse f) (c ∷ []) (NoSlash-reverse f h.1) (h.0, tt))

ends : (ds : List Str) → (v : Str) × (slash ∷ under ds ≡ v ++ slash ∷ [])
ends [] = ([], refl)
ends (d ∷ ds) =
    let (v, e) = ends ds in
    (
      slash ∷ (d ++ v),
      ap (λ t. slash ∷ (d ++ t)) e ∙ ap (λ t. slash ∷ t) (sym (append_assoc d v (slash ∷ []))),
    )

upto_slash-under :
    (ds : List Str) (f : Str)
    → NoSlash f
    → reverse (upto_slash (reverse (slash ∷ (under ds ++ f)))) ≡ slash ∷ under ds
upto_slash-under ds f k =
    let u = slash ∷ under ds in
    let (v, e) = ends ds in
    let back : reverse u ≡ slash ∷ reverse v = ap reverse e ∙ reverse-append v (slash ∷ []) in
    ap (λ t. reverse (upto_slash t)) (reverse-append u f ∙ ap (λ t. reverse f ++ t) back)
    ∙ ap reverse (upto_slash-skips (reverse f) (reverse v) (NoSlash-reverse f k) ∙ sym back)
    ∙ reverse-reverse u

-- Dir of a file.
pub dir-file :
    (ds : List Str) (f : Str)
    → All IsElement ds
    → NoSlash f
    → dir (absolute (ds ++ f ∷ [])) ≡ absolute ds
unfolding dir
dir-file ds f h k =
    ap (λ t. clean (reverse (upto_slash (reverse (slash ∷ t))))) (join-append ds f)
    ∙ ap clean (upto_slash-under ds f k)
    ∙ clean-Spells (under ds) ds (Spells-under ds h)

-- A text with an extension of JavaScript.
pub ext-js : (s : Str) → ext (s ++ codes ".js") ≡ codes ".js"
unfolding ext ext_loop
ext-js s = ap (λ r. ext_loop r []) (reverse-append s (codes ".js"))

-- The text before the extension.
pub no_ext-js : (s : Str) → no_ext (s ++ codes ".js") ≡ s
unfolding no_ext
no_ext-js s =
    let size : length (s ++ codes ".js") - length (ext (s ++ codes ".js")) ≡ length s =
      rw (ext-js s) (omega (arith, length-append s (codes ".js"))) in
    rw size (take-length s (codes ".js"))
