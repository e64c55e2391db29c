-- ===== src/Budget/Examples.antt =====
-- The budget at concrete limits: runs of its operations, and its theorems applied.
use extrio.Base.{ℕ, ◌+◌, ◌/◌, ◌≡◌, refl, ◌↔◌, true, none, some, List, [], ◌∷◌, arith}
use extrio.Base.Int.{pos, ◌-ℤ◌, ◌+ℤ◌}
use extrio.Budget.{
  LimitsConfig, TaskBudget, from_config, new, reserve, check, fail, fail_if, check_consumption,
  charge, remaining_seconds, input_budget, model_output_budget_exceeded, ◌>>=◌,
}
use extrio.Budget.Gates.{succeeds, refused}
use extrio.Budget.Limits.{IsAffordable, charged, reserve-iff-IsAffordable}
use extrio.Budget.Accounts.{Event, reserving, settling, opened, run}
use extrio.Budget.Accounts.Totals.{IsBalanced, run-IsBalanced_from}

-- a twentieth, rounded up
abbrev twentieth : ℕ → ℕ
twentieth n = (n + 19) / 20

abbrev no_config : LimitsConfig
no_config = record {
  context_tokens = none;
  max_input_tokens = none;
  max_output_tokens = none;
  reasoning_tokens = none;
}

abbrev task : TaskBudget
task = new (from_config no_config) (pos 100)

let_through :
    reserve twentieth (pos 110) (pos 20000) (pos 4096) task ≡ charged task (pos 20000) (pos 4096)
unfolding reserve check check_consumption charge fail fail_if ◌>>=◌ new from_config
    remaining_seconds input_budget ◌-ℤ◌ ◌+ℤ◌
let_through = refl

too_much_output :
    reserve twentieth (pos 110) (pos 20000) (pos 4097) task
    ≡ refused task model_output_budget_exceeded
unfolding reserve check check_consumption charge fail fail_if ◌>>=◌ new from_config
    remaining_seconds ◌-ℤ◌
too_much_output = refl

reserve-iff-IsAffordable_example :
    (succeeds (reserve twentieth (pos 110) (pos 20000) (pos 4096) task) ≡ true)
    ↔ IsAffordable twentieth task (pos 110) (pos 20000) (pos 4096)
reserve-iff-IsAffordable_example =
    reserve-iff-IsAffordable twentieth task (pos 110) (pos 20000) (pos 4096)

abbrev events : List Event
events =
    reserving (pos 110) (pos 20000) (pos 4096)
    ∷ settling 0 (some (pos 15000)) none
    ∷ reserving (pos 120) (pos 5000) (pos 1000)
    ∷ []

run-IsBalanced_from_example : IsBalanced task (run twentieth (opened task) events)
unfolding new
run-IsBalanced_from_example = run-IsBalanced_from twentieth task events (omega arith) (omega arith)
