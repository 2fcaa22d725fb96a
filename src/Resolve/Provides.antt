-- ===== src/Resolve/Provides.antt =====
-- Imports of gazelle/closure_js/resolve.go: what a rule provides, for Gazelle's index.
use mathlib.Core.List.Memᴰ
use mathlib.Core.List.Memᴰ.{head, tail}
use rules_closure.Prelude.{
  Bool, true, false, not, Option, none, some, ◌≡◌, ◌↔◌, ◌⊎◌, inl, inr, refl, List, [], ◌∷◌, ◌++◌,
  Memᴰ, Str, codes, if◌then◌else◌, Bool-cases, ◌∙◌, sym, ap,
}
use rules_closure.Path
use rules_closure.Config.{JsConfig}
use rules_closure.FileInfo.{FileInfo, file_name_info, js_file_info}
use rules_closure.FileInfo.Total.{js_file_info-total}
use rules_closure.Gazelle.{Rules}
use rules_closure.Resolve.{is_js_library}

module _ (read : Str → Option Str) (repo_root : Str) (jsc : JsConfig) where
  -- The loop over the sources, in the directory of the BUILD file.
  unfoldable pub provided : Str → List Str → Option (List Str)
  provided dir [] = some []
  provided dir (src ∷ srcs) = elim (js_file_info read repo_root jsc (Path.join dir src)) [
    | none ↦ none
    | some (fi, ok) ↦ elim (provided dir srcs) [
      | none ↦ none
      | some rest ↦ some (fi.provides ++ rest)
    ]
  ]

  -- Imports, of the rule of a BUILD file at a path; an ImportSpec is its name. A panic is `none`.
  unfoldable pub imports : (g : Rules) → Str → g.Rule → Option (List Str)
  unfolding is_js_library provided Path.dir
  imports g file_path r =
      if not (is_js_library (g.kind r))
      then some []
      else provided (Path.dir file_path) (g.attr_strings r (codes "srcs"))

  -- A source of the directory whose file provides the name.
  abbrev pub Provides : Str → List Str → Str → Type 0
  Provides dir srcs x =
      (src : Str) × (info : FileInfo) × (ok : Bool) × Memᴰ src srcs
      × (js_file_info read repo_root jsc (Path.join dir src) ≡ some (info, ok))
      × Memᴰ x info.provides

  report :
      (path : Str)
      → (info : FileInfo) × (ok : Bool) × (js_file_info read repo_root jsc path ≡ some (info, ok))
  report path = elim (js_file_info-total read repo_root jsc path) [
    | inl (_, e) ↦ (file_name_info path, false, e)
    | inr (b, info, _, e) ↦ (info, true, e)
  ]

  provided-cons :
      (dir src : Str) (srcs : List Str) (info : FileInfo) (ok : Bool) (rest : List Str)
      → js_file_info read repo_root jsc (Path.join dir src) ≡ some (info, ok)
      → provided dir srcs ≡ some rest
      → provided dir (src ∷ srcs) ≡ some (info.provides ++ rest)
  unfolding provided
  provided-cons dir src srcs info ok rest e f = rw (e, provided) (rw f refl)

  report_unique :
      (path : Str) (a b : FileInfo) (k l : Bool)
      → js_file_info read repo_root jsc path ≡ some (a, k)
      → js_file_info read repo_root jsc path ≡ some (b, l)
      → a ≡ b
  report_unique path a b k l e f = cc

  provided_iff :
      (dir : Str) (srcs : List Str)
      → (out : List Str) × (provided dir srcs ≡ some out)
        × ((x : Str) → Memᴰ x out ↔ Provides dir srcs x)
  unfolding provided
  provided_iff dir [] = ([], refl, λ x. (λ m. elim m [ ], λ p. elim p.3 [ ]))
  provided_iff dir (src ∷ srcs) =
      let (info, ok, e) = report (Path.join dir src) in
      let (rest, f, iff) = provided_iff dir srcs in
      (
        info.provides ++ rest,
        provided-cons dir src srcs info ok rest e f,
        λ x. (
          λ m. elim (Memᴰ.append_cases info.provides m) [
            | inl i ↦ (src, info, ok, head refl, e, i)
            | inr i ↦
                let (src', info', ok', at, e', i') = (iff x).0 i in
                (src', info', ok', tail at, e', i')
          ],
          λ (src', info', ok', at, e', i'). elim (Memᴰ.cases_cons at) [
            | inl same ↦
                let moved =
                  ap (λ d. js_file_info read repo_root jsc (Path.join dir d)) (sym same) ∙ e' in
                let eq = report_unique (Path.join dir src) info' info ok' ok moved e in
                Memᴰ.append_left rest (rw eq at i')
            | inr at' ↦ Memᴰ.append_right info.provides ((iff x).1 (src', info', ok', at', e', i'))
          ],
        ),
      )

  -- Imports returns, and on a library it gives the names that the files of its sources provide; on any
  -- other rule it gives none.
  pub imports_lem :
      (g : Rules) (file_path : Str) (r : g.Rule)
      → ((is_js_library (g.kind r) ≡ false) × (imports g file_path r ≡ some []))
        ⊎ ((is_js_library (g.kind r) ≡ true)
            × ((out : List Str) × (imports g file_path r ≡ some out)
                × ((x : Str)
                    → Memᴰ x out
                      ↔ Provides (Path.dir file_path) (g.attr_strings r (codes "srcs")) x)))
  unfolding imports
  imports_lem g file_path r = elim (Bool-cases (is_js_library (g.kind r))) [
    | inl e ↦
        let (out, f, iff) = provided_iff (Path.dir file_path) (g.attr_strings r (codes "srcs")) in
        inr (e, (out, rw (e, f), iff))
    | inr e ↦ inl (e, rw e)
  ]
