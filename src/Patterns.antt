-- ===== src/Patterns.antt =====
-- The expressions of gazelle/closure_js/fileinfo.go (declRegexp, testonlyRegexp, es6ImportRegexp)
-- and of config.go (the token search that newExternGrep compiles), written as they stand there.
pub mod TestOnly
pub mod Extern
pub mod Declarations
pub mod RoundTrip
use rules_closure.Prelude.{ℕ, Bool, not, ◌&&◌, ◌||◌, Str, codes, ◌==◌, leb}
use rules_closure.Regexp.{
  Regexp, byte, text_start, line_start, cat, alt, greedy, lazy, group, literal, plus, optional,
}

-- `['"]`
abbrev pub is_quote : ℕ → Bool
is_quote c = c == b'\'' || c == b'"'

abbrev pub not_quote : ℕ → Bool
not_quote c = not (is_quote c)

-- `[^;]`
abbrev pub not_semicolon : ℕ → Bool
not_semicolon c = not (c == b';')

-- `\s` is `[\t\n\f\r ]`
abbrev pub is_space : ℕ → Bool
is_space c = c == b'\t' || c == b'\n' || c == 12 || c == b'\r' || c == b' '

-- `[^a-zA-Z0-9]`
abbrev pub not_alnum : ℕ → Bool
not_alnum c = not (leb b'a' c && leb c b'z' || leb b'A' c && leb c b'Z' || leb b'0' c && leb c b'9')

-- (?m)^(?:(?:const|var) [^;]*?\s*=\s*)?goog\.(require|provide|module)\(['"]([^'"]+)
unfoldable pub binding : Regexp
unfolding literal
binding = cat (alt (literal (codes "const")) (literal (codes "var"))) (
    cat (literal (codes " ")) (
      cat (lazy not_semicolon)
        (cat (greedy is_space) (cat (literal (codes "=")) (greedy is_space)))))

unfoldable pub decl_kind : Regexp
unfolding literal
decl_kind =
    alt (literal (codes "require")) (alt (literal (codes "provide")) (literal (codes "module")))

unfoldable pub decl_regexp : Regexp
unfolding literal plus optional binding decl_kind
decl_regexp = cat line_start (
    cat (optional binding) (
      cat (literal (codes "goog.")) (
        cat (group 1 decl_kind)
          (cat (literal (codes "(")) (cat (byte is_quote) (group 2 (plus not_quote)))))))

-- ^goog\.setTestOnly\(
unfoldable pub testonly_regexp : Regexp
unfolding literal
testonly_regexp = cat text_start (literal (codes "goog.setTestOnly("))

-- (?m)^import (?:[^;]*? from )['"]([^'"]+)['"];
unfoldable pub es6_import_regexp : Regexp
unfolding literal plus
es6_import_regexp = cat line_start (
    cat (literal (codes "import ")) (
      cat (cat (lazy not_semicolon) (literal (codes " from "))) (
        cat (byte is_quote)
          (cat (group 1 (plus not_quote)) (cat (byte is_quote) (literal (codes ";")))))))

-- b + regexp.QuoteMeta(token) + b
unfoldable pub token_regexp : Str → Regexp
unfolding literal
token_regexp token = cat (byte not_alnum) (cat (literal token) (byte not_alnum))
