-- ===== src/Patterns/Declarations.antt =====
-- declRegexp of gazelle/closure_js/fileinfo.go on one declaration, and what it captures.
use rules_closure.Prelude.{
  ℕ, true, Option, none, some, ◌≡◌, ◌≢◌, refl, ◌∙◌, [], ◌∷◌, ◌++◌, Str, codes, All, ==_iff, inl,
  inr, Memᴰ,
}
use rules_closure.Regexp.{
  Captures, Parse, last_of, match_at, find_all, at_line_start, literal, optional,
}
use rules_closure.Regexp.Literal.{
  greedy_parses_longest, Matches-literal, Matches-plus, Matches-no_groups,
}
use rules_closure.Regexp.Meaning.{Matches}
use rules_closure.Regexp.Scan.{find_all_sound}
use rules_closure.Patterns.{decl_regexp, decl_kind, binding, not_quote}

pub data DeclKind : Type 0 where
  require provide declare_module : DeclKind

abbrev pub kind_name : DeclKind → Str
kind_name require = codes "require"
kind_name provide = codes "provide"
kind_name declare_module = codes "module"

abbrev pub decl_captures : DeclKind → Str → Captures
decl_captures k id = (1, kind_name k) ∷ (2, id) ∷ []

-- goog.<kind>('<id>
abbrev pub decl_head : DeclKind → Str → Str
decl_head k id = codes "goog." ++ (kind_name k ++ (codes "('" ++ id))

abbrev pub IsIdentifier : Str → Type 0
IsIdentifier id = (id ≢ []) × All (λ c. not_quote c ≡ true) id

abbrev decl_parse : DeclKind → Str → Str → Parse
decl_parse k id rest = record {
  word = decl_head k id;
  captures = decl_captures k id;
  rest = b'\'' ∷ rest;
}

decl_at_text_start :
    (k : DeclKind) (c : ℕ) (id rest : Str)
    → not_quote c ≡ true
    → All (λ c. not_quote c ≡ true) id
    → match_at decl_regexp none (decl_head k (c ∷ id) ++ (b'\'' ∷ rest))
      ≡ some (decl_parse k (c ∷ id) rest)
unfolding match_at decl_regexp
decl_at_text_start require c id rest h t =
    rw (h, (greedy_parses_longest not_quote id (b'\'' ∷ rest) t refl).1)
decl_at_text_start provide c id rest h t =
    rw (h, (greedy_parses_longest not_quote id (b'\'' ∷ rest) t refl).1)
decl_at_text_start declare_module c id rest h t =
    rw (h, (greedy_parses_longest not_quote id (b'\'' ∷ rest) t refl).1)

match_at_newline : (s : Str) → match_at decl_regexp (some b'\n') s ≡ match_at decl_regexp none s
unfolding match_at decl_regexp
match_at_newline s = refl

at_line_start-cases :
    (before : Option ℕ)
    → at_line_start before ≡ true
    → (s : Str) → match_at decl_regexp before s ≡ match_at decl_regexp none s
at_line_start-cases none h s = refl
at_line_start-cases (some c) h s =
    let e : c ≡ b'\n' = (==_iff c b'\n').0 h in rw e (match_at_newline s)

-- At the start of a line the expression takes the whole identifier of the declaration.
pub decl_at :
    (before : Option ℕ) (k : DeclKind) (id rest : Str)
    → at_line_start before ≡ true
    → IsIdentifier id
    → match_at decl_regexp before (decl_head k id ++ (b'\'' ∷ rest)) ≡ some (decl_parse k id rest)
decl_at before k [] rest start (ne, h) = absurd (ne refl)
decl_at before k (c ∷ id) rest start (ne, h) =
    at_line_start-cases before start (decl_head k (c ∷ id) ++ (b'\'' ∷ rest))
    ∙ decl_at_text_start k c id rest h.0 h.1

decl_kind_shape :
    (before : Option ℕ) (w : Str) (cs : Captures)
    → Matches decl_kind before w cs
    → (k : DeclKind) × (w ≡ kind_name k) × (cs ≡ [])
unfolding decl_kind
decl_kind_shape before w cs (inl m) =
    let (e, d) = Matches-literal (codes "require") before w cs m in (require, e, d)
decl_kind_shape before w cs (inr (inl m)) =
    let (e, d) = Matches-literal (codes "provide") before w cs m in (provide, e, d)
decl_kind_shape before w cs (inr (inr m)) =
    let (e, d) = Matches-literal (codes "module") before w cs m in (declare_module, e, d)

-- The two groups of a match.
Matches-decl :
    (before : Option ℕ) (w : Str) (cs : Captures)
    → Matches decl_regexp before w cs
    → (k : DeclKind) × (id : Str) × IsIdentifier id × (cs ≡ decl_captures k id)
unfolding decl_regexp binding
Matches-decl before w cs
      (
        w₁,
        v₁,
        c₁,
        d₁,
        (_, _, c₁_is),
        (
          w₂,
          v₂,
          c₂,
          d₂,
          m₂,
          (
            w₃,
            v₃,
            c₃,
            d₃,
            m₃,
            (
              w₄,
              v₄,
              c₄,
              d₄,
              (g₄, m₄, c₄_is),
              (
                w₅,
                v₅,
                c₅,
                d₅,
                m₅,
                (w₆, v₆, c₆, d₆, (_, _, _, c₆_is), (g₇, m₇, d₆_is), _, d₅_is),
                _,
                d₄_is,
              ),
              _,
              d₃_is,
            ),
            _,
            d₂_is,
          ),
          _,
          d₁_is,
        ),
        _,
        cs_is,
      ) =
    let b₁ = last_of before w₁ in
    let b₂ = last_of b₁ w₂ in
    let b₃ = last_of b₂ w₃ in
    let b₄ = last_of b₃ w₄ in
    let b₅ = last_of b₄ w₅ in
    let e₂ : c₂ ≡ [] = Matches-no_groups (optional binding) b₁ w₂ c₂ refl m₂ in
    let e₃ : c₃ ≡ [] = Matches-no_groups (literal (codes "goog.")) b₂ w₃ c₃ refl m₃ in
    let e₅ : c₅ ≡ [] = Matches-no_groups (literal (codes "(")) b₄ w₅ c₅ refl m₅ in
    let (k, w₄_is, g₄_is) = decl_kind_shape b₃ w₄ g₄ m₄ in
    let (ne, all, g₇_is) = Matches-plus not_quote (last_of b₅ w₆) v₆ g₇ m₇ in
    (
      k,
      v₆,
      (ne, all),
      rw (
        cs_is, c₁_is, d₁_is, e₂, d₂_is, e₃, d₃_is, c₄_is, w₄_is, g₄_is, d₄_is, e₅, d₅_is, c₆_is,
        d₆_is, g₇_is,
      ),
    )

-- Whatever the file, a match captures one of the three kinds and a nonempty identifier with no
-- quote in it.
pub decl_captures_shape :
    (s : Str) (cs : Captures)
    → Memᴰ cs (find_all decl_regexp s)
    → (k : DeclKind) × (id : Str) × IsIdentifier id × (cs ≡ decl_captures k id)
decl_captures_shape s cs m =
    let (pre, w, post, h, _) = find_all_sound decl_regexp s cs m in
    Matches-decl (last_of none pre) w cs h
