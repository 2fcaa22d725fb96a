-- ===== src/FileInfo/Result.antt =====
-- What jsFileInfo reports of a file that it has read.
use rules_closure.Prelude.{
  Bool, true, Option, some, ◌≡◌, refl, sym, ◌∙◌, List, [], ◌∷◌, ◌++◌, Memᴰ, Str, inl, inr,
  Option-cases, arith, ◌↔◌, has_prefix,
}
use rules_closure.Distinct.{Distinct}
use rules_closure.Regexp.{Captures, find_all, match}
use rules_closure.Patterns.{decl_regexp, es6_import_regexp, testonly_regexp}
use rules_closure.Patterns.TestOnly.{set_test_only, match-testonly}
use rules_closure.Config.{GrepExtern, JsConfig}
use rules_closure.FileInfo.{
  FileInfo, submatch, add_decl, add_decls, provide_path, module_name, add_imports, add_externs,
  file_name_info, finish_info, js_file_info,
}
use rules_closure.FileInfo.Externs.{added, Found, add_externs-Distinct, add_externs_iff}

-- What the later steps leave as it is.
pub record Keeps (a b : FileInfo) : Type 0 where
  pub path : b.path ≡ a.path
  pub name : b.name ≡ a.name
  pub ext : b.ext ≡ a.ext
  pub is_test : b.is_test ≡ a.is_test

Keeps-trans : {a b c : FileInfo} → Keeps a b → Keeps b c → Keeps a c
Keeps-trans h k = record {
  path = k.path ∙ h.path;
  name = k.name ∙ h.name;
  ext = k.ext ∙ h.ext;
  is_test = k.is_test ∙ h.is_test;
}

Keeps-refl : (a : FileInfo) → Keeps a a
Keeps-refl a = record { path = refl; name = refl; ext = refl; is_test = refl }

add_decl-Keeps :
    (info out : FileInfo) (cs : Captures)
    → add_decl info cs ≡ some out
    → Keeps info out × (out.deps ≡ info.deps)
unfolding add_decl
add_decl-Keeps info out cs h = ground arith

add_decls-Keeps :
    (info out : FileInfo) (ms : List Captures)
    → add_decls info ms ≡ some out
    → Keeps info out × (out.deps ≡ info.deps)
unfolding add_decls
add_decls-Keeps info out [] h = ground arith
add_decls-Keeps info out (cs ∷ ms) h = elim (Option-cases (add_decl info cs)) [
  | inl e ↦ cc (rw (e, add_decls) at h)
  | inr (next, e) ↦
      let (k, d) = add_decl-Keeps info next cs e in
      let (k', d') = add_decls-Keeps next out ms (rw (e, add_decls) at h) in
      (Keeps-trans k k', d' ∙ d)
]

provide_path-Keeps :
    (root path : Str) (info : FileInfo)
    → Keeps info (provide_path root path info) × ((provide_path root path info).deps ≡ info.deps)
unfolding provide_path
provide_path-Keeps root path info = ground arith

add_imports-Keeps :
    (root path : Str) (ms : List Captures) (info : FileInfo)
    → Keeps info (add_imports root path info ms)
      × ((add_imports root path info ms).deps ≡ info.deps)
unfolding add_imports
add_imports-Keeps root path [] info = (Keeps-refl info, refl)
add_imports-Keeps root path (cs ∷ ms) info =
    elim (Option-cases (module_name root path (submatch 1 cs))) [
      | inl e ↦ rw (e, add_imports) (add_imports-Keeps root path ms info)
      | inr (name, e) ↦
          let next = record info { imports = info.imports ++ name ∷ [] } in
          let (k, d) = add_imports-Keeps root path ms next in
          rw (e, add_imports)
            (record { path = k.path; name = k.name; ext = k.ext; is_test = k.is_test }, d)
    ]

added-Keeps :
    (b : Str) (ge : GrepExtern) (info : FileInfo)
    → Keeps info (added b ge info) × ((added b ge info).is_test_only ≡ info.is_test_only)
added-Keeps b ge info = ground arith

add_externs-Keeps :
    (b : Str) (ges : List GrepExtern) (info : FileInfo)
    → Keeps info (add_externs b ges info)
      × ((add_externs b ges info).is_test_only ≡ info.is_test_only)
unfolding add_externs
add_externs-Keeps b [] info = (Keeps-refl info, refl)
add_externs-Keeps b (ge ∷ ges) info =
    let (k, t) = added-Keeps b ge info in
    let (k', t') = add_externs-Keeps b ges (added b ge info) in (Keeps-trans k k', t' ∙ t)

read_injective :
    (a b : FileInfo) → ◌≡◌ {A = Option (FileInfo × Bool)} (some (a, true)) (some (b, true)) → a ≡ b
read_injective a b e = cc

-- How a report of a file that was read comes about.
pub js_file_info_inv :
    (read : Str → Option Str) (root : Str) (jsc : JsConfig) (path : Str) {b : Str} {info : FileInfo}
    → read path ≡ some b
    → js_file_info read root jsc path ≡ some (info, true)
    → (out : FileInfo) × (add_decls (file_name_info path) (find_all decl_regexp b) ≡ some out)
      × (info ≡ finish_info root jsc path b out)
unfolding js_file_info
js_file_info_inv read root jsc path {b} {info} r h =
    elim (Option-cases (add_decls (file_name_info path) (find_all decl_regexp b))) [
      | inl e ↦ cc (rw (r, js_file_info, e) at h)
      | inr (out, e) ↦ (
        out,
        e,
        sym (read_injective (finish_info root jsc path b out) info (rw (r, js_file_info, e) at h)),
      )
    ]

module _ (read : Str → Option Str) (root : Str) (jsc : JsConfig) (path : Str) {b : Str}
    {info : FileInfo} where
  -- The path, the name, the extension and the mark of a test are those of the file's name.
  pub js_file_info-Keeps :
      read path ≡ some b
      → js_file_info read root jsc path ≡ some (info, true)
      → Keeps (file_name_info path) info
  unfolding finish_info
  js_file_info-Keeps r h =
      let (out, e, is) = js_file_info_inv read root jsc path r h in
      let (k₁, _) = add_decls-Keeps (file_name_info path) out (find_all decl_regexp b) e in
      let provided = provide_path root path out in
      let (k₂, _) = provide_path-Keeps root path out in
      let imported = add_imports root path provided (find_all es6_import_regexp b) in
      let (k₃, _) = add_imports-Keeps root path (find_all es6_import_regexp b) provided in
      let marked = record imported { is_test_only = match testonly_regexp b } in
      let (k₄, _) = add_externs-Keeps b jsc.grep_externs marked in
      let k₄' : Keeps imported (add_externs b jsc.grep_externs marked) = record {
        path = k₄.path;
        name = k₄.name;
        ext = k₄.ext;
        is_test = k₄.is_test;
      } in
      rw is (Keeps-trans k₁ (Keeps-trans k₂ (Keeps-trans k₃ k₄')))

  -- Only a file that begins with `goog.setTestOnly(` is marked as for tests only.
  pub js_file_info-is_test_only :
      read path ≡ some b
      → js_file_info read root jsc path ≡ some (info, true)
      → (info.is_test_only ≡ true) ↔ (has_prefix b set_test_only ≡ true)
  unfolding finish_info
  js_file_info-is_test_only r h =
      let (out, e, is) = js_file_info_inv read root jsc path r h in
      let imported =
        add_imports root path (provide_path root path out) (find_all es6_import_regexp b) in
      let marked = record imported { is_test_only = match testonly_regexp b } in
      let (_, t) = add_externs-Keeps b jsc.grep_externs marked in rw (is, t) (match-testonly b)

  -- The labels of a file have no repetition, and are those of the searches that succeed on it.
  pub js_file_info-deps :
      read path ≡ some b
      → js_file_info read root jsc path ≡ some (info, true)
      → Distinct info.deps × ((l : Str) → Memᴰ l info.deps ↔ Found b jsc.grep_externs l)
  unfolding finish_info
  js_file_info-deps r h =
      let (out, e, is) = js_file_info_inv read root jsc path r h in
      let (_, d₁) = add_decls-Keeps (file_name_info path) out (find_all decl_regexp b) e in
      let (_, d₂) = provide_path-Keeps root path out in
      let (_, d₃) =
        add_imports-Keeps root path (find_all es6_import_regexp b) (provide_path root path out) in
      let imported =
        add_imports root path (provide_path root path out) (find_all es6_import_regexp b) in
      let marked = record imported { is_test_only = match testonly_regexp b } in
      let none_yet : marked.deps ≡ [] = d₃ ∙ d₂ ∙ d₁ ∙ unfold file_name_info in refl in
      rw is (
        add_externs-Distinct b jsc.grep_externs marked (rw none_yet tt),
        λ l.
            let (there, back) = add_externs_iff b jsc.grep_externs marked l in
            (
              λ m. elim (there m) [ inl i ↦ elim (rw none_yet at i) [ ] | inr f ↦ f ],
              λ f. back (inr f),
            ),
      )
