-- ===== src/FileInfo/SideEffect.antt =====
-- ES6 imports: es6ImportRegexp of gazelle/closure_js/fileinfo.go and the loop over its matches.
use rules_closure.Prelude.{
  none, Bool, true, false, ◌||◌, has_prefix, has_prefix-append, ◌≡◌, refl, sym, ap, ◌∙◌, ◌++◌,
  append_assoc, Str, codes, [], ◌∷◌,
}
use rules_closure.Regexp.{find_all, last_of}
use rules_closure.Regexp.Meaning.{Occurs}
use rules_closure.Regexp.Literal.{Matches-literal}
use rules_closure.Regexp.Scan.{find_all_nil}
use rules_closure.Patterns.{es6_import_regexp}
use rules_closure.FileInfo.{FileInfo, add_imports}

-- Whether the text holds the word.
unfoldable pub holds : Str → Str → Bool
unfolding has_prefix
holds w [] = has_prefix [] w
holds w (c ∷ s) = has_prefix (c ∷ s) w || holds w s

abbrev Holds : Str → Str → Type 0
Holds w s = (a : Str) × (b : Str) × (s ≡ a ++ (w ++ b))

or_right : (a : Bool) → a || true ≡ true
or_right true = refl
or_right false = refl

holds_here : (w s : Str) → has_prefix s w ≡ true → holds w s ≡ true
unfolding holds
holds_here w [] h = h
holds_here w (c ∷ s) h = rw h refl

append-holds : (a w b : Str) → holds w (a ++ (w ++ b)) ≡ true
unfolding holds
append-holds [] w b = holds_here w (w ++ b) (has_prefix-append w b)
append-holds (c ∷ a) w b = rw (append-holds a w b) (or_right (has_prefix (c ∷ (a ++ (w ++ b))) w))

regroup :
    (pre u v w x y post : Str)
    → pre ++ ((u ++ (v ++ ((w ++ x) ++ y))) ++ post)
      ≡ (pre ++ (u ++ (v ++ w))) ++ (x ++ (y ++ post))
regroup pre u v w x y post = simp append_assoc refl

occurs→from : (s : Str) → Occurs es6_import_regexp none s → Holds (codes " from ") s
unfolding es6_import_regexp
occurs→from s
      (
        pre,
        w,
        post,
        cs,
        (
          u,
          v,
          _,
          _,
          _,
          (u₂, v₂, _, _, _, (u₃, v₃, _, _, (a, b, _, _, _, from, u₃_is, _), _, v₂_is, _), v_is, _),
          w_is,
          _,
        ),
        e,
      ) =
    let from_is =
      (Matches-literal (codes " from ") (last_of (last_of (last_of (last_of none pre) u) u₂) a) b _
        from).0 in
    (
      pre ++ (u ++ (u₂ ++ a)),
      v₃ ++ post,
      e
          ∙ rw (w_is, v_is, v₂_is, u₃_is)
              (regroup pre u u₂ a b v₃ post
                ∙ ap (λ x. (pre ++ (u ++ (u₂ ++ a))) ++ (x ++ (v₃ ++ post))) from_is),
    )

absurd_bool : false ≡ true → ⊥
absurd_bool e = cc

-- A file in which the word `from` between blanks does not occur has no ES6 imports, whatever lines of the form
-- `import "module-name";` it holds.
pub add_imports-no_from :
    (root path : Str) (info : FileInfo) (s : Str)
    → holds (codes " from ") s ≡ false
    → add_imports root path info (find_all es6_import_regexp s) ≡ info
unfolding add_imports
add_imports-no_from root path info s absent = ap (add_imports root path info) (
    find_all_nil es6_import_regexp s (λ o.
      let (a, b, e) = occurs→from s o in
      absurd_bool
        (sym absent ∙ (ap (holds (codes " from ")) e ∙ append-holds a (codes " from ") b))))
