-- ===== src/Generate/Extension.antt =====
-- The extensions of the names that generateTest slices.
use rules_closure.Prelude.{
  true, ◌||◌, some, ◌≡◌, ◌≢◌, refl, sym, ap, ◌∙◌, [], ◌∷◌, Str, codes, Bool-cases, inl, inr, eq_str,
  eq_str_iff, has_prefix,
}
use rules_closure.Path
use rules_closure.FileInfo.{FileInfo, Ext, unknown_ext, js_ext, jsx_ext, html_ext, file_ext}
use rules_closure.Generate.Rules.{ext_name, after_first}
use rules_closure.Generate.State.{Reader, is_js}

-- The reader tells the type of a file from its name, as jsFileInfo does.
abbrev pub IsNamed : Reader → Type 0
IsNamed info = (f : Str) → (info f).0.ext ≡ file_ext (info f).0.name

abbrev pub HasExt : FileInfo → Type 0
HasExt fi = Path.ext fi.name ≢ []

abbrev pub ext_text : Ext → Str
ext_text js_ext = codes "js"
ext_text jsx_ext = codes "jsx"
ext_text _ = []

after_first-some : (e : Str) → e ≢ [] → (r : Str) × (after_first e ≡ some r)
after_first-some [] h = absurd (h refl)
after_first-some (c ∷ e) h = (e, refl)

pub ext_name-some : (n : Str) → Path.ext n ≢ [] → (e : Str) × (ext_name n ≡ some e)
unfolding ext_name
ext_name-some n h = after_first-some (Path.ext n) h

-- A name of JavaScript has the extension that its type says.
pub ext_name-js : (n : Str) → is_js (file_ext n) ≡ true → ext_name n ≡ some (ext_text (file_ext n))
unfolding file_ext ext_name
ext_name-js n h = elim (Bool-cases (has_prefix n (codes ".") || has_prefix n (codes "_"))) [
  | inl p ↦
      let is : file_ext n ≡ unknown_ext = rw p in
      let k : is_js unknown_ext ≡ true = sym (ap is_js is) ∙ h in cc
  | inr p ↦ elim (Bool-cases (eq_str (Path.ext n) (codes ".js"))) [
    | inl e ↦
        let is : file_ext n ≡ js_ext = rw (p, e) in
        let dot = (eq_str_iff (Path.ext n) (codes ".js")).0 e in
        ap after_first dot ∙ ap (λ x. some (ext_text x)) (sym is)
    | inr e ↦ elim (Bool-cases (eq_str (Path.ext n) (codes ".jsx"))) [
      | inl f ↦
          let is : file_ext n ≡ jsx_ext = rw (p, e, f) in
          let dot = (eq_str_iff (Path.ext n) (codes ".jsx")).0 f in
          ap after_first dot ∙ ap (λ x. some (ext_text x)) (sym is)
      | inr f ↦ elim (Bool-cases (eq_str (Path.ext n) (codes ".html"))) [
        | inl t ↦
            let is : file_ext n ≡ html_ext = rw (p, e, f, t) in
            let k : is_js html_ext ≡ true = sym (ap is_js is) ∙ h in cc
        | inr t ↦
            let is : file_ext n ≡ unknown_ext = rw (p, e, f, t) in
            let k : is_js unknown_ext ≡ true = sym (ap is_js is) ∙ h in cc
      ]
    ]
  ]
]
