-- ===== src/Tests/Config.antt =====
-- Runs of Configure on a BUILD file and on directories that nest, and its theorems there.
use rules_closure.Prelude.{true, none, some, ◌≡◌, refl, List, [], ◌∷◌, ◌++◌, codes}
use rules_closure.Config.{Directive, inherited, configure}
use rules_closure.Config.{register_flags, GrepExtern, fields, new_extern_grep}
use rules_closure.Config.Slices.{append}
use rules_closure.Config.Store.{Store, value, empty_heap, new_shared, configure_in}
use rules_closure.Config.Walk.{walk_lem, registered, enter, leave}
use rules_closure.Prelude.{ℕ, zero, suc, ◌+◌, Str, Option, map}
use rules_closure.Config.Directives.{externs_of, last_setting, configure_lem}

abbrev directives : List Directive
directives =
    record { key = codes "js_grep_extern"; value = codes "React //js/externs:react" }
    ∷ record { key = codes "js_rule_per_file"; value = codes "maybe" }
    ∷ record { key = codes "js_rule_per_file"; value = codes "" }
    ∷ []

configure_run : (configure none (some directives)).rule_per_file ≡ true
unfolding configure
configure_run = refl

configure_lem_example :
    ((configure none (some directives)).grep_externs
      ≡ (inherited none).grep_externs ++ externs_of directives)
    × ((configure none (some directives)).rule_per_file
        ≡ last_setting (inherited none).rule_per_file directives)
    × (configure none none ≡ inherited none)
configure_lem_example = configure_lem none directives

-- The runtime doubles the room, and gives the first element one place.
abbrev doubled : ℕ → ℕ
doubled zero = 1
doubled (suc n) = suc n + suc n

abbrev externs : Str → Option (List Directive)
externs label = some (record { key = codes "js_grep_extern"; value = codes "x " ++ label } ∷ [])

abbrev three : Option (List Directive)
three = some (directives ++ directives ++ directives)

-- A directory whose slice has room to spare, and two below it.
abbrev parent : Store doubled
parent = configure_in doubled empty_heap new_shared three

abbrev left : Store doubled
left = configure_in doubled parent.0 parent.1 (externs (codes "//a"))

abbrev right : Store doubled
right = configure_in doubled left.0 parent.1 (externs (codes "//b"))

abbrev labels : List GrepExtern → List Str
labels [] = []
labels (ge ∷ ges) = ge.label ∷ labels ges

-- The configuration of the left directory, once it has been left and the right one entered.
overwritten_run :
    labels (value right.0 left.1).grep_externs
    ≡ codes "//js/externs:react"
      ∷ codes "//js/externs:react"
      ∷ codes "//js/externs:react"
      ∷ codes "//b"
      ∷ []
unfolding configure_in append fields new_extern_grep
overwritten_run = refl

walk_lem_example :
    let v = configure (some register_flags) three in
    map (value right.0) (right.1 ∷ parent.1 ∷ new_shared ∷ [])
    ≡ configure (some v) (externs (codes "//b")) ∷ v ∷ register_flags ∷ []
walk_lem_example =
    walk_lem doubled right.0 (right.1 ∷ parent.1 ∷ new_shared ∷ [])
      (configure (some (configure (some register_flags) three)) (externs (codes "//b"))
        ∷ configure (some register_flags) three
        ∷ register_flags
        ∷ [])
      (enter (externs (codes "//b"))
        (leave (enter (externs (codes "//a")) (enter three registered))))
