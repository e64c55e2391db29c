-- ===== src/Lifecycle/Stale.antt =====
-- The management revision keeps two people from overwriting each other's changes of a source.
use extrio.Base.{
  Bool-cases, bind-ok, ℕ, ◌+◌, ◌≤◌, String, false, Option, none, some, ◌≡◌, ◌≢◌, ap, ◌∙◌, inl, inr,
  arith, ◌=ₛ◌, eq_iff, ok,
}
use extrio.Lifecycle.Tables.{Tables}
use extrio.Lifecycle.Values.{
  Command, define, Host, Call, Answer, Definition, target_of, scope_of, find_receipt,
}
use extrio.Lifecycle.Commands.{changed, command}
use extrio.Lifecycle.Effects.{management, rescheduled}
use extrio.Lifecycle.Steps.{IsStep, next_lifecycle, next_revision}
use extrio.Lifecycle.Refines.{life, command_cases}
use extrio.Lifecycle.Kept.{Later, stay, commanded, rescheduled_by, paused_by}
use extrio.Lifecycle.Pause.{quieter}
use extrio.Lifecycle.Effects.{read-IsRead}
use extrio.Lifecycle.Parts.{definition_command-IsDefined}

-- the source is there, at this revision or a later one
abbrev Grows : String → ℕ → Tables → Type 0
Grows id n t = (l : String) × ((m : ℕ) × ((management id t ≡ some (l, m)) × (n ≤ m)))

next_grows : (body : Command) (n m : ℕ) → n ≤ m → n ≤ next_revision body m
next_grows body n m le = ground arith

same_pair :
    (m : Option (String × ℕ)) (a b : String) (n k : ℕ) → m ≡ some (a, n) → m ≡ some (b, k) → n ≡ k
same_pair m a b n k e f = ground (arith, e, f)

step-Grows :
    (body : Command) (id : String) (n : ℕ) (t after : Tables)
    → IsStep body t after
    → Grows id n t
    → Grows id n after
step-Grows body id n t after s (l, (m, (e, le))) = elim (Bool-cases (target_of body =ₛ id)) [
  | inr f ↦ (l, (m, (s.others id f ∙ e, le)))
  | inl y ↦
      let same = (eq_iff (target_of body) id).0 y in
      let k = s.source.management_revision in
      let is_m : k ≡ m =
        same_pair (management id t) s.source.lifecycle l k m (rw⁻¹ same s.read.managed) e in
      (
        next_lifecycle body s.source.lifecycle,
        (next_revision body k, (rw⁻¹ same s.mine, next_grows body n k (rw is_m le))),
      )
]

module _ (h : Host) where
  later-Grows :
      (id : String) (n : ℕ) (t after : Tables) → Later h t after → Grows id n t → Grows id n after
  later-Grows id n t after (stay _) g = g
  later-Grows id n t after (commanded call body answer _ mid _ e l) g =
      later-Grows id n mid after l (elim (command_cases h call body answer t mid e) [
        | inl (again, same) ↦ rw same g
        | inr (fresh, (next, (step, same))) ↦ rw same (step-Grows body id n t next step g)
      ])
  later-Grows id n t after (rescheduled_by o v now c _ mid _ e l) (life, (m, (f, le))) =
      let quiet = (rescheduled h.cron o v now t c mid e).quiet in
      later-Grows id n mid after l (life, (m, (quiet.managed id ∙ f, le)))
  later-Grows id n t after (paused_by runs_of tenant event details o now b _ mid _ e l)
        (life, (m, (f, le))) =
      let q = quieter h runs_of tenant event details o now t b mid e in
      later-Grows id n mid after l (life, (m, (q.managed id ∙ f, le)))

  refused_define :
      (call : Call) (id text : String) (d : Definition) (revision : ℕ) (t : Tables)
      → find_receipt (scope_of (define id text d revision)) call.key t.idempotency ≡ none
      → Grows id (revision + 1) t
      → (x : Answer × Tables) → command h call (define id text d revision) t ≢ ok x
  unfolding command
  refused_define call id text d revision t new (l, (m, (managed, le))) (answer, after) e =
      let ((v, mid), change, e1) =
        bind-ok (changed h (define id text d revision) call.now t) _ _ (rw (new, command) at e) in
      let p = definition_command-IsDefined h id d revision call.now t v mid change in
      let read = read-IsRead id t p.c p.got in
      let same =
        same_pair (management id t) p.c.lifecycle l p.c.management_revision m read.managed
          managed in
      absurd (omega (arith, same, p.current, le))

  -- After a command other than a migration has written a source whose management revision was `n`, no
  -- definition that was read at the revision `n` or an earlier one is accepted for it, whatever commands,
  -- schedules and pauses come between, unless it repeats a key that has its receipt.
  pub stale_definition :
      (call : Call) (body : Command) (answer : Answer) (t mid after : Tables)
      → command h call body t ≡ ok (answer, mid)
      → answer.is_replay ≡ false
      → (n : ℕ) → next_revision body n ≡ n + 1
      → (l : String) → management (target_of body) t ≡ some (l, n)
      → Later h mid after
      → (again : Call) (text : String) (d : Definition) (revision : ℕ) → revision ≤ n
      → find_receipt
          (scope_of (define (target_of body) text d revision))
          again.key
          after.idempotency
        ≡ none
      → (x : Answer × Tables)
      → command h again (define (target_of body) text d revision) after ≢ ok x
  stale_definition call body answer t mid after e fresh n up l was later again text d revision old
        new =
      let grown : Grows (target_of body) (n + 1) mid =
        elim (command_cases h call body answer t mid e) [
          | inl (replayed, _) ↦ absurd (cc (replayed, fresh))
          | inr (_, (next, (step, same))) ↦
              let is_n =
                same_pair (management (target_of body) t) step.source.lifecycle l
                  step.source.management_revision n step.read.managed was in
              rw same (
                next_lifecycle body step.source.lifecycle,
                (
                  next_revision body step.source.management_revision,
                  (step.mine, omega (arith, ap (next_revision body) is_n, up)),
                ),
              )
        ] in
      let (life_now, (m, (managed, le))) =
        later-Grows (target_of body) (n + 1) mid after later grown in
      refused_define again (target_of body) text d revision after new
        (life_now, (m, (managed, omega (arith, le, old))))
