-- ===== src/Generate/Directory/Adds.antt =====
-- What the last part of GenerateRules adds to the rules and the imports of a directory.
use rules_closure.Prelude.{
  Bool, true, false, Option, none, some, ◌≡◌, refl, sym, ap, ◌∙◌, List, [], ◌∷◌, ◌++◌, append-nil,
  append_assoc, Str, if◌then◌else◌, eq_str,
}
use rules_closure.FileInfo.{FileInfo}
use rules_closure.Resolve.{ImportInfo}
use rules_closure.Gazelle.{Rules}
use rules_closure.Generate.Imports.{combine_imports, file_info_imports}
use rules_closure.Generate.Rules.{generate_lib}
use rules_closure.Generate.State.{Setting, HtmlLookup, State, add_rule, add_empty}
use rules_closure.Generate.Emit.{emit_lib, retire_lib, retire_test, multi_test, emit_shared}

module _ (g : Rules) where
  open g use {Rule}

  -- `t` is `s` with these rules, with these imports, and perhaps with rules to empty.
  pub record Adds (rs : List Rule) (iis : List ImportInfo) (s t : State g) : Type 0 where
    pub rules : t.rules ≡ s.rules ++ rs
    pub imports : t.imports ≡ s.imports ++ iis
    pub tests : t.lib_test_file_infos ≡ s.lib_test_file_infos

  pub Adds-nil : (s : State g) → Adds [] [] s s
  Adds-nil s = record {
    rules = sym (append-nil s.rules);
    imports = sym (append-nil s.imports);
    tests = refl;
  }

  pub Adds-add_empty :
      (r : Option Rule) (rs : List Rule) (iis : List ImportInfo) (s t : State g)
      → Adds rs iis s t
      → Adds rs iis s (add_empty g r t)
  unfolding add_empty
  Adds-add_empty r rs iis s t v = record { rules = v.rules; imports = v.imports; tests = v.tests }

  pub Adds-trans :
      (rs rs' : List Rule) (iis iis' : List ImportInfo) (s t u : State g)
      → Adds rs iis s t
      → Adds rs' iis' t u
      → Adds (rs ++ rs') (iis ++ iis') s u
  Adds-trans rs rs' iis iis' s t u v w = record {
    rules = w.rules ∙ ap (λ l. l ++ rs') v.rules ∙ append_assoc s.rules rs rs';
    imports = w.imports ∙ ap (λ l. l ++ iis') v.imports ∙ append_assoc s.imports iis iis';
    tests = w.tests ∙ v.tests;
  }

  Adds-add_rule :
      (r : Rule) (ii : ImportInfo) (s : State g) → Adds (r ∷ []) (ii ∷ []) s (add_rule g r ii s)
  unfolding add_rule
  Adds-add_rule r ii s = record { rules = refl; imports = refl; tests = refl }

  Adds-if :
      (b : Bool) (rs : List Rule) (iis : List ImportInfo) (s t u : State g)
      → Adds rs iis s t
      → Adds rs iis s u
      → Adds rs iis s (if b then t else u)
  Adds-if true rs iis s t u v w = v
  Adds-if false rs iis s t u v w = w

  -- The library of the directory, where it has sources and files with imports.
  abbrev pub dir_rules : Setting → List Str → List ImportInfo → List Rule
  dir_rules c srcs [] = []
  dir_rules c [] (ii ∷ iis) = []
  dir_rules c (src ∷ srcs) (ii ∷ iis) = generate_lib g c.lib_name (src ∷ srcs) c.visibility ∷ []

  abbrev pub dir_imports : List Str → List ImportInfo → List ImportInfo
  dir_imports srcs [] = []
  dir_imports [] (ii ∷ iis) = []
  dir_imports (src ∷ srcs) (ii ∷ iis) = combine_imports (ii ∷ iis) ∷ []

  -- The test of the directory, for the tests that have no rule of their own.
  abbrev pub multi_rules : Setting → HtmlLookup → FileInfo → List FileInfo → List Rule
  multi_rules c lookup html [] = []
  multi_rules c lookup html (fi ∷ fis) = multi_test g c lookup (fi ∷ fis) html ∷ []

  abbrev pub multi_imports : List FileInfo → List ImportInfo
  multi_imports [] = []
  multi_imports (fi ∷ fis) = file_info_imports (fi ∷ fis) ∷ []

  module _ (c : Setting) (lookup : HtmlLookup) where
    retire_lib-Adds :
        (old : Option Rule) (made : Rule) (rs : List Rule) (iis : List ImportInfo) (s t : State g)
        → Adds rs iis s t
        → Adds rs iis s (retire_lib g c lookup old made t)
    unfolding retire_lib
    retire_lib-Adds none made rs iis s t v = v
    retire_lib-Adds (some old) made rs iis s t v =
        Adds-if (eq_str (g.kind old) (g.kind made)) rs iis s _ _ v (Adds-add_empty _ rs iis s t v)

    retire_test-Adds :
        (old : Option Rule) (made : Rule) (rs : List Rule) (iis : List ImportInfo) (s t : State g)
        → Adds rs iis s t
        → Adds rs iis s (retire_test g c lookup old made t)
    unfolding retire_test
    retire_test-Adds none made rs iis s t v = v
    retire_test-Adds (some old) made rs iis s t v =
        Adds-if (eq_str (g.kind old) (g.kind made)) rs iis s _ _ v (Adds-add_empty _ rs iis s t v)

    pub emit_lib-Adds :
        (srcs : List Str) (iis : List ImportInfo) (s : State g)
        → s.lib_sources ≡ srcs
        → s.lib_imports ≡ iis
        → Adds (dir_rules c srcs iis) (dir_imports srcs iis) s (emit_lib g c lookup s)
    unfolding emit_lib
    emit_lib-Adds srcs [] s e f = simp f (Adds-nil s)
    emit_lib-Adds [] (ii ∷ iis) s e f = simp (e, f) (Adds-add_empty _ [] [] s s (Adds-nil s))
    emit_lib-Adds (src ∷ srcs) (ii ∷ iis) s e f =
        simp (e, f)
          (retire_lib-Adds s.lib_existing_rule _ _ _ s _ (
            Adds-add_rule (generate_lib g c.lib_name (src ∷ srcs) c.visibility)
              (combine_imports (ii ∷ iis)) s))

    pub emit_shared-Adds :
        (fis : List FileInfo) (html : FileInfo) (t : State g)
        → Adds
            (multi_rules c lookup html fis)
            (multi_imports fis)
            t
            (emit_shared g c lookup (record { no_html = fis; dir_html = html; state = t }))
    unfolding emit_shared
    emit_shared-Adds [] html t = Adds-nil t
    emit_shared-Adds (fi ∷ fis) html t =
        retire_test-Adds t.lib_test_existing_rule _ _ _ t _ (Adds-add_rule _ _ t)
