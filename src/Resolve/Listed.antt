-- ===== src/Resolve/Listed.antt =====
-- resolveClosureLibrary on the names that the Closure Library provides.
use rules_closure.Prelude.{true, some, ◌≡◌, sym, Memᴰ, codes, has_prefix}
use rules_closure.Gazelle.{Labels}
use rules_closure.Library.{Row}
use rules_closure.Library.Lookup.{listed_rows, lookup-listed}
use rules_closure.Library.Targets.{target_text, listed_row}
use rules_closure.Resolve.{resolve_closure_library}

module _ (g : Labels) where
  -- The name of a row of the map that starts with `goog.` resolves to the label of its target in
  -- the repository of these rules: it is found, it parses, and neither the panic nor the parse error
  -- comes to pass.
  pub resolve_closure_library-listed :
      (t : Row)
      → Memᴰ t listed_rows
      → has_prefix t.0 (codes "goog.") ≡ true
      → (l : g.Label) × (resolve_closure_library g listed_rows t.0 ≡ some l)
        × (g.repo l ≡ codes "io_bazel_rules_closure")
        × (target_text (g.pkg l, g.name l) ≡ t.1)
  unfolding resolve_closure_library
  resolve_closure_library-listed t m prefix =
      let (p, n, e, hp, hn) = listed_row t m in
      let (l, parsed, repo_is, pkg_is, name_is) = g.parse_absolute p n hp hn in
      (l, rw (prefix, lookup-listed t m, e) (rw parsed), repo_is, rw (pkg_is, name_is) (sym e))
