-- ===== src/Budget/Limits.antt =====
-- When a call is let through, and what a refusal leaves behind.
use extrio.Base.{
  ℕ, ◌+◌, ◌<◌, ◌≡◌, ◌↔◌, ◌⊎◌, inl, inr, true, false, arith, leb, Bool-cases, Outcome, ok,
}
use extrio.Base.Int.{ℤ, pos, ◌+ℤ◌, ◌≤ℤ◌, ◌<ℤ◌, ltb_ℤ, leb_ℤ}
use extrio.Budget.Gates.{succeeds, refused, refused_of_fails}
use extrio.Budget.{Code, TaskBudget, Reservation, ◌>>=◌, remaining_seconds, input_budget, reserve}

-- What `reserve` asks of the budget before it lets a call through.
pub record IsAffordable (margin : ℕ → ℕ) (b : TaskBudget) (now i o : ℤ) : Type 0 where
  pub in_time : pos 0 <ℤ remaining_seconds b now
  pub input_kept : b.input_used ≤ℤ pos b.max_input_tokens
  pub output_kept : b.output_used ≤ℤ pos b.max_output_tokens
  pub calls_left : b.calls < b.max_calls
  pub some_output : pos 1 ≤ℤ o
  pub output_fits : o ≤ℤ pos b.limits.max_output_tokens
  pub some_input : pos 0 ≤ℤ i
  pub context_fits : i ≤ℤ input_budget margin b.limits o
  pub input_left : b.input_used +ℤ i ≤ℤ pos b.max_input_tokens
  pub output_left : b.output_used +ℤ o ≤ℤ pos b.max_output_tokens

-- What a call that is let through does: the task pays for it at once.
abbrev pub charged : TaskBudget → ℤ → ℤ → Outcome Code Reservation × TaskBudget
charged b i o = (
  ok (record { input_tokens = i; output_tokens = o; settled = false }),
  record b {
    calls = b.calls + 1;
    input_used = b.input_used +ℤ i;
    output_used = b.output_used +ℤ o;
  },
)

module _ (margin : ℕ → ℕ) (b : TaskBudget) (now i o : ℤ) where
  reserve-IsAffordable : succeeds (reserve margin now i o b) ≡ true → IsAffordable margin b now i o
  unfolding reserve ◌>>=◌
  reserve-IsAffordable h = ground arith

  IsAffordable-reserve : IsAffordable margin b now i o → reserve margin now i o b ≡ charged b i o
  unfolding reserve ◌>>=◌
  IsAffordable-reserve h =
      let t1 : leb_ℤ (remaining_seconds b now) (pos 0) ≡ false = ground (arith, h.in_time) in
      let t2 : ltb_ℤ (pos b.max_input_tokens) b.input_used ≡ false = ground (arith, h.input_kept) in
      let t3 : ltb_ℤ (pos b.max_output_tokens) b.output_used ≡ false =
        ground (arith, h.output_kept) in
      let t4 : leb b.max_calls b.calls ≡ false = ground (arith, h.calls_left) in
      let t5 : ltb_ℤ o (pos 1) ≡ false = ground (arith, h.some_output) in
      let t6 : ltb_ℤ (pos b.limits.max_output_tokens) o ≡ false = ground (arith, h.output_fits) in
      let t7 : ltb_ℤ i (pos 0) ≡ false = ground (arith, h.some_input) in
      let t8 : ltb_ℤ (input_budget margin b.limits o) i ≡ false = ground (arith, h.context_fits) in
      let t9 : ltb_ℤ (pos b.max_input_tokens) (b.input_used +ℤ i) ≡ false =
        ground (arith, h.input_left) in
      let t10 : ltb_ℤ (pos b.max_output_tokens) (b.output_used +ℤ o) ≡ false =
        ground (arith, h.output_left) in
      rw (t1, t2, t3, t4) (rw (t5, t6, t7, t8, t9, t10))

  -- A call is let through exactly when it is affordable: time is left, neither counter is over its
  -- limit, a call is left, the output request is between 1 and the model's limit, the input is not
  -- negative and fits the model's context, and with it neither counter goes over its limit.
  pub reserve-iff-IsAffordable :
      (succeeds (reserve margin now i o b) ≡ true) ↔ IsAffordable margin b now i o
  reserve-iff-IsAffordable = (reserve-IsAffordable, λ h. rw (IsAffordable-reserve h))

  -- A call that is let through adds its tokens to the counters and one to the calls; a refused call
  -- changes nothing but the stop reason, which is then the reason of the refusal.
  pub reserve_cases :
      (reserve margin now i o b ≡ charged b i o)
      ⊎ ((e : Code) × (reserve margin now i o b ≡ refused b e))
  reserve_cases = elim (Bool-cases (succeeds (reserve margin now i o b))) [
    | inl h ↦ inl (IsAffordable-reserve (reserve-IsAffordable h))
    | inr h ↦ inr (refused_of_fails b margin now i o h)
  ]
