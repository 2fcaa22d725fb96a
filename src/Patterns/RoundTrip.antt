-- ===== src/Patterns/RoundTrip.antt =====
-- The declarations of a file that holds nothing else.
use mathlib.Core.List.{map}
use rules_closure.Prelude.{
  ℕ, true, Option, none, some, ◌≡◌, ◌≢◌, refl, ap, ◌∙◌, List, [], ◌∷◌, ◌++◌, Str, codes, Bool-cases,
  inl, inr, All,
}
use rules_closure.Regexp.{Captures, find_all, find_from, match_at, at_line_start, last_of}
use rules_closure.Regexp.Scan.{find_from_hit, find_from_miss}
use rules_closure.Patterns.{decl_regexp}
use rules_closure.Patterns.Declarations.{DeclKind, decl_captures, decl_head, IsIdentifier, decl_at}

-- A line `goog.require('id');`, or the like, for each.
abbrev pub render : List (DeclKind × Str) → Str
render [] = []
render ((k, id) ∷ ds) = decl_head k id ++ (codes "');\n" ++ render ds)

abbrev pub captures_of : DeclKind × Str → Captures
captures_of (k, id) = decl_captures k id

miss_quote : (before : Option ℕ) (s : Str) → match_at decl_regexp before (b'\'' ∷ s) ≡ none
unfolding match_at decl_regexp
miss_quote before s = elim (Bool-cases (at_line_start before)) [
  | inl e ↦ rw e refl
  | inr e ↦ rw e refl
]

miss_close :
    (s : Str)
    → (match_at decl_regexp (some b'\'') (b')' ∷ s) ≡ none)
      × (match_at decl_regexp (some b')') (b';' ∷ s) ≡ none)
      × (match_at decl_regexp (some b';') (b'\n' ∷ s) ≡ none)
unfolding match_at decl_regexp
miss_close s = (refl, refl, refl)

-- After the identifier of a declaration the search passes over the rest of the line.
close_line :
    (before : Option ℕ) (s : Str)
    → find_from decl_regexp before 0 (codes "');\n" ++ s) ≡ find_from decl_regexp (some b'\n') 0 s
close_line before s =
    let (paren, semicolon, newline) = miss_close s in
    find_from_miss decl_regexp before b'\'' (codes ");\n" ++ s)
      (miss_quote before (codes ");\n" ++ s))
    ∙ find_from_miss decl_regexp (some b'\'') b')' (codes ";\n" ++ s)
        (miss_close (codes ";\n" ++ s)).0
    ∙ find_from_miss decl_regexp (some b')') b';' (codes "\n" ++ s) (miss_close (codes "\n" ++ s)).1
    ∙ find_from_miss decl_regexp (some b';') b'\n' s newline

head_some : (k : DeclKind) (id : Str) → decl_head k id ≢ []
head_some k id e = cc

render_from :
    (before : Option ℕ) (ds : List (DeclKind × Str))
    → at_line_start before ≡ true
    → All (λ d. IsIdentifier d.1) ds
    → find_from decl_regexp before 0 (render ds) ≡ map captures_of ds
unfolding find_from
render_from before [] start h = refl
render_from before ((k, id) ∷ ds) start h =
    find_from_hit decl_regexp before (decl_head k id) (codes "');\n" ++ render ds)
      (decl_captures k id) (head_some k id)
      (decl_at before k id (codes ");\n" ++ render ds) start h.0)
    ∙ ap (λ m. decl_captures k id ∷ m)
        (close_line (last_of before (decl_head k id)) (render ds)
          ∙ render_from (some b'\n') ds refl h.1)

-- The search finds the declarations of a rendered list, each with its kind and its identifier, in
-- their order, where the identifiers are not empty and have no quote.
pub find_all-render :
    (ds : List (DeclKind × Str))
    → All (λ d. IsIdentifier d.1) ds
    → find_all decl_regexp (render ds) ≡ map captures_of ds
unfolding find_all
find_all-render ds h = render_from none ds refl h
