-- ===== src/Kinds.antt =====
-- gazelle/closure_js/kinds.go: the kinds of rules that the plugin tells Gazelle of, and the symbols
-- that a BUILD file loads for them.
pub mod Generated
use rules_closure.Prelude.{Option, none, some, List, [], ◌∷◌, Str, codes, true, false, eq_str}

-- rule.KindInfo, the fields that the tables set. A Go set is the list of its elements.
pub record KindInfo : Type 0 where
  pub match_attrs : List Str
  pub non_empty_attrs : List Str
  pub mergeable_attrs : List Str
  pub resolve_attrs : List Str

-- The entry that the four kinds of this plugin share.
abbrev pub js_kind : KindInfo
js_kind = record {
  match_attrs = codes "srcs" ∷ [];
  non_empty_attrs = codes "deps" ∷ codes "srcs" ∷ [];
  mergeable_attrs = codes "srcs" ∷ [];
  resolve_attrs = codes "deps" ∷ [];
}

abbrev pub filegroup_kind : KindInfo
filegroup_kind = record {
  match_attrs = [];
  non_empty_attrs = codes "srcs" ∷ [];
  mergeable_attrs = codes "srcs" ∷ [];
  resolve_attrs = [];
}

abbrev pub js_kinds : List (Str × KindInfo)
js_kinds =
    (codes "filegroup", filegroup_kind)
    ∷ (codes "closure_js_library", js_kind)
    ∷ (codes "closure_js_test", js_kind)
    ∷ (codes "closure_jsx_library", js_kind)
    ∷ (codes "closure_jsx_test", js_kind)
    ∷ []

-- `jsKinds[kind]`
unfoldable pub kind_info : Str → List (Str × KindInfo) → Option KindInfo
unfolding eq_str
kind_info kind [] = none
kind_info kind ((name, info) ∷ kinds) = elim (eq_str name kind) [
  | true ↦ some info
  | false ↦ kind_info kind kinds
]

-- rule.LoadInfo
pub record LoadInfo : Type 0 where
  pub name : Str
  pub symbols : List Str

abbrev pub js_loads : List LoadInfo
js_loads =
    record {
      name = codes "@io_bazel_rules_closure//closure:defs.bzl";
      symbols =
          codes "closure_js_library"
          ∷ codes "closure_js_test"
          ∷ codes "closure_jsx_library"
          ∷ codes "closure_jsx_test"
          ∷ [];
    }
    ∷ []
