-- ===== src/Lifecycle/Refines.antt =====
-- The life of a source: an abstract machine that the commands implement.
use extrio.Base.{
  Bool-cases, Option-cases, bind-ok, ℕ, String, Bool, true, false, not, ◌&&◌, Option, none, some,
  ◌≡◌, ◌⊎◌, refl, sym, ◌∙◌, inl, inr, arith, ◌=ₛ◌, eq_iff, if◌then◌else◌, ok,
}
use extrio.Lifecycle.Tables.{Tables, is_in}
use extrio.Lifecycle.Values.{
  Command, manage, define, reassign, migrate, cancel, Host, Call, Answer, target_of, scope_of,
  find_receipt,
}
use extrio.Lifecycle.Commands.{changed, finished, command}
use extrio.Lifecycle.Effects.{management}
use extrio.Lifecycle.Steps.{IsStep, deletes, next_lifecycle, next_revision}
use extrio.Lifecycle.Moved.{changed-IsStep}

pub data Life : Type 0 where
  absent active archived deleted : Life

abbrev pub life_of : Bool → Option (String × ℕ) → Life
life_of true m = deleted
life_of false none = absent
life_of false (some m) = if m.0 =ₛ "archived" then archived else active

-- what the tables say of a source
abbrev pub life : String → Tables → Life
life id t = life_of (is_in id t.deleted_collectors) (management id t)

-- The machine: a source that is deleted or was never created stays so, one that is managed becomes
-- what the action says, and no other command changes a life.
abbrev act : String → Life
act action =
    if action =ₛ "delete" then deleted else if action =ₛ "restore" then active else archived

abbrev pub next_life : Command → Life → Life
next_life (manage id action digest) active = act action
next_life (manage id action digest) archived = act action
next_life _ l = l

known_life :
    (m : Option (String × ℕ)) (life : String) (n : ℕ)
    → m ≡ some (life, n)
    → (life_of false m ≡ active) ⊎ (life_of false m ≡ archived)
known_life m life n e = elim (Bool-cases (life =ₛ "archived")) [
  | inl y ↦ inr (rw (e, y) refl)
  | inr f ↦ inl (rw (e, f) refl)
]

acted :
    (action : String) (k : ℕ)
    → life_of (action =ₛ "delete") (some (if action =ₛ "restore" then "active" else "archived", k))
      ≡ act action
acted action k = elim (Bool-cases (action =ₛ "delete")) [
  | inl y ↦ rw y refl
  | inr n ↦ elim (Bool-cases (action =ₛ "restore")) [
    | inl r ↦ rw (n, r) refl
    | inr r ↦ rw (n, r) refl
  ]
]

step_life :
    (body : Command) (l : String) (n k : ℕ)
    → life_of (deletes body) (some (next_lifecycle body l, k))
      ≡ next_life body (life_of false (some (l, n)))
step_life (manage id action digest) l n k = elim (Bool-cases (l =ₛ "archived")) [
  | inl y ↦ rw y (acted action k)
  | inr f ↦ rw f (acted action k)
]
step_life (define id body d revision) l n k = refl
step_life (reassign id target digest confirmed) l n k = refl
step_life (migrate id target digest confirmed) l n k = refl
step_life (cancel id target) l n k = refl

and_false : (b : Bool) → (b && false) ≡ false
and_false b = ground arith

-- a step moves its source in the machine, and leaves the others
pub step_refines :
    (body : Command) (t after : Tables)
    → IsStep body t after
    → (o : String)
    → life o after ≡ (if target_of body =ₛ o then next_life body (life o t) else life o t)
step_refines body t after s o = elim (Bool-cases (target_of body =ₛ o)) [
  | inl y ↦
      let same : o ≡ target_of body = sym ((eq_iff (target_of body) o).0 y) in
      let gone : is_in (target_of body) after.deleted_collectors ≡ deletes body =
        s.gone (target_of body) ∙ ground (arith, s.read.alive, rw same at y) in
      rw (y, same, gone, s.mine, s.read.alive, s.read.managed)
        (step_life body s.source.lifecycle s.source.management_revision
          (next_revision body s.source.management_revision))
  | inr n ↦
      let gone : is_in o after.deleted_collectors ≡ is_in o t.deleted_collectors =
        s.gone o ∙ ground (arith, n) in
      rw (n, gone, s.others o n) refl
]

module _ (h : Host) where
  -- a command is answered from its receipt and changes nothing, or is a step
  pub command_cases :
      (call : Call) (body : Command) (answer : Answer) (t after : Tables)
      → command h call body t ≡ ok (answer, after)
      → ((answer.is_replay ≡ true) × (after ≡ t))
        ⊎ ((answer.is_replay ≡ false)
            × ((mid : Tables) × (IsStep body t mid
                  × (after ≡ finished h call body answer.value mid))))
  unfolding command
  command_cases call body answer t after e =
      elim (Option-cases (find_receipt (scope_of body) call.key t.idempotency)) [
        | inr (r, found) ↦ inl (ground (arith, e, found), ground (arith, e, found))
        | inl new ↦
            let ((v, mid), change, e1) =
              bind-ok (changed h body call.now t) _ _ (rw (new, command) at e) in
            inr (
              ground (arith, e1),
              (mid, (changed-IsStep h body call.now t v mid change, ground (arith, e1))),
            )
      ]

  -- A command, repeated or not, does to the life of every source what the machine does.
  pub command-refines :
      (call : Call) (body : Command) (answer : Answer) (t after : Tables)
      → command h call body t ≡ ok (answer, after)
      → (o : String)
      → life o after ≡ (
          if not answer.is_replay && (target_of body =ₛ o)
          then next_life body (life o t)
          else life o t)
  command-refines call body answer t after e o = elim (command_cases call body answer t after e) [
    | inl (again, same) ↦ rw (again, same) refl
    | inr (fresh, (mid, (step, same))) ↦ rw (fresh, same) (step_refines body t mid step o)
  ]
