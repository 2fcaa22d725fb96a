-- ===== src/Generate/Result.antt =====
-- What GenerateRules returns: a rule and its imports at each place, and no nil rule.
use rules_closure.Generate.Existing.{index_html}
use rules_closure.Generate.PerFile.Result.{per_file_lem}
use rules_closure.Generate.Total.{SourcesNamed, run_state_total}
use rules_closure.Generate.Extension.{IsNamed}
use rules_closure.Prelude.{
  true, false, Option, none, some, ◌≡◌, [], Ensures, >>=-eq-some, length, All, Bool,
}
use rules_closure.Gazelle.{Rules}
use rules_closure.Generate.State.{State, Reader}
use rules_closure.Generate.Run.{
  run_state, GenerateResult, result, generate_rules, rules_of, setting, Args,
}
use rules_closure.Generate.Invariant.{IsRule, Inv}
use rules_closure.Generate.Invariant.Emit.{run_state-Inv}

Ensures_at {ℓ} :
    {A : Type ℓ} (P : A → Type 0) (o : Option A) (a : A) → Ensures P o → o ≡ some a → P a
Ensures_at P none a h e = cc
Ensures_at P (some b) a h e = let same : b ≡ a = cc in rw same at h

loops_of_result :
    (g : Rules) (info : Reader) (rule_per_file : Bool) (args : Args g) {out : GenerateResult g}
    → generate_rules g info rule_per_file args ≡ some out
    → (s : State g) × (run_state g
          (setting g info rule_per_file args)
          (index_html info args.regular_files ([], []))
          (rules_of g args.file)
          args.regular_files
        ≡ some s)
unfolding generate_rules
loops_of_result g info rule_per_file args h =
    let (s, e, _) = >>=-eq-some _ (λ s. some (result g s)) h in (s, e)

loops_return :
    (g : Rules) (info : Reader) (rule_per_file : Bool) (args : Args g)
    → IsNamed info
    → SourcesNamed g info (rules_of g args.file)
    → (s : State g) × (run_state g
          (setting g info rule_per_file args)
          (index_html info args.regular_files ([], []))
          (rules_of g args.file)
          args.regular_files
        ≡ some s)
loops_return g info false args named known = run_state_total g info args named known
loops_return g info true args named known =
    loops_of_result g info true args (per_file_lem g info args named)

-- Where the types of the files are those of their names, and the sources of the existing rules are
-- labels or have an extension, GenerateRules returns: as many imports as rules, as Gazelle demands,
-- and never a nil rule to delete.
pub generate_rules_lem :
    (g : Rules) (info : Reader) (rule_per_file : Bool) (args : Args g)
    → IsNamed info
    → SourcesNamed g info (rules_of g args.file)
    → (out : GenerateResult g) × (generate_rules g info rule_per_file args ≡ some out)
      × (length out.gen ≡ length out.imports)
      × All IsRule out.empty
unfolding generate_rules
generate_rules_lem g info rule_per_file args named known =
    let (lookup, names) = index_html info args.regular_files ([], []) in
    let (s, e) = loops_return g info rule_per_file args named known in
    let v =
      Ensures_at (Inv g) _ s
        (run_state-Inv g (setting g info rule_per_file args) lookup names (rules_of g args.file)
          args.regular_files)
        e in
    (result g s, rw e, v.parallel, v.no_nil)
