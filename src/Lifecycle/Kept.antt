-- ===== src/Lifecycle/Kept.antt =====
-- What holds after any sequence of commands and new schedules.
use extrio.Base.{
  Bool-cases, ℕ, String, Bool, true, false, Option, List, ◌≡◌, refl, sym, subst, ◌∙◌, inl, inr,
  arith, ◌=ₛ◌, eq_iff, ok,
}
use extrio.Lifecycle.Tables.{Collector, Tables, Work}
use extrio.Lifecycle.Values.{Command, Host, Call, Answer, target_of}
use extrio.Lifecycle.Commands.{command}
use extrio.Lifecycle.Store.{require_active, save_schedule, ScheduleValues}
use extrio.Lifecycle.Effects.{is_on, IsRead, rescheduled}
use extrio.Lifecycle.Pause.{maybe_pause_schedule_after_failures, IsQuieter, quieter}
use extrio.Lifecycle.Steps.{IsStep, manages}
use extrio.Lifecycle.Effects.{IsRescheduled, IsQuiet}
use extrio.Lifecycle.Refines.{
  active, deleted, life, life_of, next_life, step_refines, command_cases,
}

-- every schedule that is on is that of an active source
abbrev pub OnlyActiveRun : Tables → Type 0
OnlyActiveRun t = (id : String) → is_on id t ≡ true → life id t ≡ active

-- a source of a deleted life is in the list of the deleted ones
pub gone_of : (b : Bool) (m : Option (String × ℕ)) → life_of b m ≡ deleted → b ≡ true
gone_of b m e = ground (arith, e)

active_next : (body : Command) → manages body ≡ false → next_life body active ≡ active
active_next body e = ground (arith, e)

on_before : (a b : Bool) → (a ≡ false → b ≡ false) → b ≡ true → a ≡ true
on_before a b keeps e = elim (Bool-cases a) [ inl y ↦ y | inr n ↦ absurd (cc (keeps n, e)) ]

step-OnlyActiveRun :
    (body : Command) (t after : Tables)
    → IsStep body t after
    → OnlyActiveRun t
    → OnlyActiveRun after
step-OnlyActiveRun body t after s before id on =
    let was : life id t ≡ active =
      before id (on_before (is_on id t) (is_on id after) (s.off_kept id) on) in
    let refines = step_refines body t after s id in
    elim (Bool-cases (target_of body =ₛ id)) [
      | inr n ↦ refines ∙ rw n was
      | inl y ↦ elim (Bool-cases (manages body)) [
        | inr m ↦ refines ∙ rw (y, was) (active_next body m)
        | inl m ↦ absurd (
            cc (
              subst (λ o. is_on o after ≡ false) ((eq_iff (target_of body) id).0 y) (s.silent m),
              on,
            ))
      ]
    ]

module _ (h : Host) where
  -- Commands, schedules that are saved, and pauses after failures, one after the other.
  pub data Later : Tables → Tables → Type 0 where
    stay : (t : Tables) → Later t t
    commanded :
        (call : Call) (body : Command) (answer : Answer) (t mid after : Tables)
        → command h call body t ≡ ok (answer, mid)
        → Later mid after
        → Later t after
    rescheduled_by :
        (id : String) (v : ScheduleValues) (now : ℕ) (c : Collector) (t mid after : Tables)
        → save_schedule h.cron id v now t ≡ ok (c, mid)
        → Later mid after
        → Later t after
    paused_by :
        (runs_of : Collector → Tables → List Work) (tenant_id event_id details id : String)
        (now : ℕ) (paused : Bool) (t mid after : Tables)
        → maybe_pause_schedule_after_failures h runs_of tenant_id event_id details id now t
          ≡ ok (paused, mid)
        → Later mid after
        → Later t after

  pub quieter_life : (t after : Tables) → IsQuieter t after → (o : String) → life o after ≡ life o t
  quieter_life t after q o = rw (q.deleted_kept, q.managed o) refl

  pub quiet_life :
      (id : String) (t after : Tables) → IsQuiet id t after → (o : String) → life o after ≡ life o t
  quiet_life id t after q o = rw (q.deleted_kept, q.managed o) refl

  active_life :
      (id : String) (t : Tables) (c : Collector)
      → IsRead id t c
      → require_active c ≡ ok tt
      → life id t ≡ active
  active_life id t c read permitted = rw (read.alive, read.managed) (ground (arith, permitted))

  rescheduled-OnlyActiveRun :
      (id : String) (v : ScheduleValues) (now : ℕ) (t after : Tables)
      → IsRescheduled h.cron id v now t after
      → OnlyActiveRun t
      → OnlyActiveRun after
  rescheduled-OnlyActiveRun id v now t after r before o on = elim (Bool-cases (id =ₛ o)) [
    | inl y ↦
        let same = (eq_iff id o).0 y in
        let (c, read, permitted) = r.active (sym r.stored ∙ rw same on) in
        quiet_life id t after r.quiet o ∙ rw⁻¹ same (active_life id t c read permitted)
    | inr n ↦ quiet_life id t after r.quiet o ∙ before o (sym (r.quiet.others o n) ∙ on)
  ]

  kept-OnlyActiveRun : (t after : Tables) → Later t after → OnlyActiveRun t → OnlyActiveRun after
  kept-OnlyActiveRun t after (stay _) before = before
  kept-OnlyActiveRun t after (commanded call body answer _ mid _ e l) before =
      kept-OnlyActiveRun mid after l (elim (command_cases h call body answer t mid e) [
        | inl (again, same) ↦ rw same before
        | inr (fresh, (next, (step, same))) ↦ rw same (step-OnlyActiveRun body t next step before)
      ])
  kept-OnlyActiveRun t after (rescheduled_by id v now c _ mid _ e l) before =
      kept-OnlyActiveRun mid after l
        (rescheduled-OnlyActiveRun id v now t mid (rescheduled h.cron id v now t c mid e) before)
  kept-OnlyActiveRun t after (paused_by runs_of tenant event details id now b _ mid _ e l) before =
      let q = quieter h runs_of tenant event details id now t b mid e in
      kept-OnlyActiveRun mid after l (λ o on. quieter_life t mid q o ∙ before o (q.on_before o on))

  -- Nothing but saving a schedule switches one on.
  abbrev pub NeverSwitchesOn : Tables → Type 0
  NeverSwitchesOn t =
      ((call : Call) (body : Command) (answer : Answer) (next : Tables)
        → command h call body t ≡ ok (answer, next)
        → (id : String) → is_on id next ≡ true
        → is_on id t ≡ true)
      × ((runs_of : Collector → Tables → List Work) (tenant_id event_id details o : String)
            (now : ℕ) (paused : Bool) (next : Tables)
          → maybe_pause_schedule_after_failures h runs_of tenant_id event_id details o now t
            ≡ ok (paused, next)
          → (id : String) → is_on id next ≡ true
          → is_on id t ≡ true)

  never-NeverSwitchesOn : (t : Tables) → NeverSwitchesOn t
  never-NeverSwitchesOn t = (
    λ call body answer next e id on. elim (command_cases h call body answer t next e) [
      | inl (again, same) ↦ subst (λ x. is_on id x ≡ true) same on
      | inr (fresh, (mid, (step, same))) ↦
          on_before (is_on id t) (is_on id mid) (step.off_kept id)
            (subst (λ x. is_on id x ≡ true) same on)
    ],
    λ runs_of tenant event details o now b next e id on.
        (quieter h runs_of tenant event details o now t b next e).on_before id on,
  )

  -- If the schedules that are on are those of active sources, so are they after any commands, any
  -- schedules that are saved and any pauses after failures; and then again no command, restoring an
  -- archived source included, and no pause switches a schedule on: only saving one does.
  pub later-OnlyActiveRun :
      (t after : Tables)
      → Later t after
      → OnlyActiveRun t
      → OnlyActiveRun after × NeverSwitchesOn after
  later-OnlyActiveRun t after l before =
      (kept-OnlyActiveRun t after l before, never-NeverSwitchesOn after)
