-- ===== src/Budget/Accounts/Totals.antt =====
-- The counters against the calls placed, after any events.
use extrio.Base.{ℕ, ◌+◌, ◌≤◌, ◌≡◌, ◌∙◌, refl, inl, inr, List, [], ◌∷◌, arith, length, All}
use extrio.Base.Int.{ℤ, pos, ◌+ℤ◌, ◌-ℤ◌, ◌≤ℤ◌, parts_of_eq, int_laws}
use extrio.Budget.{TaskBudget}
use extrio.Budget.Limits.{IsAffordable, reserve-iff-IsAffordable, charged, reserve_cases}
use extrio.Budget.Accounts.{
  Call, Ledger, Event, placed, step, run, opened, input_costs, output_costs, input_overruns,
  IsReserved, reserving, settling,
}
use extrio.Budget.Accounts.Settling.{le-max_ℤ, settle_nth-Shifts}

pub record IsBalanced (start : TaskBudget) (l : Ledger) : Type 0 where
  pub input_sum : l.budget.input_used ≡ start.input_used +ℤ input_costs l.calls
  pub output_sum : l.budget.output_used ≡ start.output_used +ℤ output_costs l.calls
  pub call_count : l.budget.calls ≡ start.calls + length l.calls
  pub same_max : l.budget.max_calls ≡ start.max_calls
  pub same_input_max : l.budget.max_input_tokens ≡ start.max_input_tokens
  pub capped : l.budget.calls ≤ start.max_calls
  pub within : l.budget.input_used ≤ℤ pos start.max_input_tokens +ℤ input_overruns l.calls
  pub reserved : All IsReserved l.calls

-- Overruns only ever add.
overrun-nonneg : (calls : List Call) → pos 0 ≤ℤ input_overruns calls
unfolding input_overruns
overrun-nonneg [] = omega arith
overrun-nonneg (c ∷ calls) =
    omega (
      int_laws,
      overrun-nonneg calls,
      le-max_ℤ (pos 0) (c.input_cost -ℤ c.reservation.input_tokens),
    )

module _ (margin : ℕ → ℕ) (start : TaskBudget) where
  placed-IsBalanced :
      (l : Ledger) (now i o : ℤ)
      → IsBalanced start l
      → IsAffordable margin l.budget now i o
      → IsBalanced start (placed (charged l.budget i o).0 (charged l.budget i o).1 l.calls)
  unfolding placed input_costs output_costs input_overruns
  placed-IsBalanced l now i o h a = record {
    input_sum = omega (int_laws, parts_of_eq h.input_sum);
    output_sum = omega (int_laws, parts_of_eq h.output_sum);
    call_count = omega (arith, h.call_count);
    same_max = h.same_max;
    same_input_max = h.same_input_max;
    capped = omega (arith, a.calls_left, h.same_max);
    within = omega (
      int_laws,
      a.input_left,
      h.within,
      h.same_input_max,
      overrun-nonneg l.calls,
      le-max_ℤ (pos 0) (i -ℤ i),
    );
    reserved = ((λ _. (refl, refl)), h.reserved);
  }

  step-IsBalanced :
      (l : Ledger) (e : Event) → IsBalanced start l → IsBalanced start (step margin l e)
  unfolding step placed
  step-IsBalanced l (reserving now i o) h = elim (reserve_cases margin l.budget now i o) [
    | inl e ↦ rw e (
        placed-IsBalanced l now i o h ((reserve-iff-IsAffordable margin l.budget now i o).0 (rw e)))
    | inr (c, e) ↦ rw e (record {
      input_sum = h.input_sum;
      output_sum = h.output_sum;
      call_count = h.call_count;
      same_max = h.same_max;
      same_input_max = h.same_input_max;
      capped = h.capped;
      within = h.within;
      reserved = h.reserved;
    })
  ]
  step-IsBalanced l (settling k i o) h =
      let m = settle_nth-Shifts k i o l.budget l.calls h.reserved in
      record {
        input_sum = omega (int_laws, parts_of_eq m.input_shifted, parts_of_eq h.input_sum);
        output_sum = omega (int_laws, parts_of_eq m.output_shifted, parts_of_eq h.output_sum);
        call_count = omega (arith, m.calls_kept, h.call_count, m.length_kept);
        same_max = m.max_kept ∙ h.same_max;
        same_input_max = m.input_max_kept ∙ h.same_input_max;
        capped = omega (arith, m.calls_kept, h.capped);
        within = omega (int_laws, m.overrun_shifted, h.within);
        reserved = m.reserved;
      }

  run-IsBalanced :
      (l : Ledger) (es : List Event) → IsBalanced start l → IsBalanced start (run margin l es)
  unfolding run
  run-IsBalanced l [] h = h
  run-IsBalanced l (e ∷ es) h = run-IsBalanced (step margin l e) es (step-IsBalanced l e h)

  opened-IsBalanced :
      start.calls ≤ start.max_calls
      → start.input_used ≤ℤ pos start.max_input_tokens
      → IsBalanced start (opened start)
  unfolding input_costs output_costs input_overruns
  opened-IsBalanced c u = record {
    input_sum = omega int_laws;
    output_sum = omega int_laws;
    call_count = omega arith;
    same_max = refl;
    same_input_max = refl;
    capped = c;
    within = omega int_laws;
    reserved = tt;
  }

  -- From a budget within its call and input limits, after any reservations and settlements in any
  -- order: each token counter is what it was plus the costs of the calls let through, the call
  -- counter is what it was plus their number and at most the limit, the limits of calls and of input
  -- are as they were, the input counter is above its limit by at most what providers reported beyond
  -- the calls' reservations, and a call that is not settled costs what it reserved.
  pub run-IsBalanced_from :
      (es : List Event)
      → start.calls ≤ start.max_calls
      → start.input_used ≤ℤ pos start.max_input_tokens
      → IsBalanced start (run margin (opened start) es)
  run-IsBalanced_from es c u = run-IsBalanced (opened start) es (opened-IsBalanced c u)
