-- ===== src/Lifecycle/Commanded.antt =====
-- Each command that is not a repetition is a step of its source.
use extrio.Base.{
  Bool-cases, bind-ok, ℕ, ◌+◌, String, true, false, not, ◌&&◌, ◌≡◌, refl, subst, ap, ◌∙◌, inl, inr,
  arith, ◌=ₛ◌, eq_iff, if◌then◌else◌, Outcome, ok, raise_if,
}
use extrio.Lifecycle.Tables.{
  Collector, Tables, LifecycleError, Response, collector_conflict, lifecycle_action_invalid,
  remove_text,
}
use extrio.Lifecycle.Store.{lock_collector, the_collector, save_collector, disable_schedule}
use extrio.Lifecycle.Plans.{lifecycle_plan}
use extrio.Lifecycle.Values.{manage, define, Host, Definition, refuse_blocked, invalidated, defined}
use extrio.Lifecycle.Commands.{
  delete, set_lifecycle, is_action, lifecycle_command, invalidate_execution, definition_command,
}
use extrio.Lifecycle.Rows.{is_in-append}
use extrio.Lifecycle.Effects.{IsRead, read-IsRead, IsQuiet, disabled}
use extrio.Lifecycle.Writes.{IsWritten, managed_write, quiet_same}
use extrio.Lifecycle.Steps.{IsStep, written-IsStep, idle_write, set_lifecycle-writes, delete-writes}
use extrio.Lifecycle.Parts.{definition_command-IsDefined}

module _ (h : Host) where
  abbrev lifecycle_of : String → String
  lifecycle_of action = if action =ₛ "archive" then "archived" else "active"

  same_lifecycle :
      (a : String)
      → is_action h a ≡ true
      → (a =ₛ "delete") ≡ false
      → lifecycle_of a ≡ (if a =ₛ "restore" then "active" else "archived")
  same_lifecycle a e n = elim (Bool-cases (a =ₛ "archive")) [
    | inl y ↦ rw ((eq_iff a "archive").0 y) refl
    | inr m ↦ rw (m, (eq_iff a "restore").0 (ground (arith, e, n, m))) refl
  ]

  delete-IsStep :
      (id action digest : String) (c : Collector) (now : ℕ) (t : Tables) (v : Response)
      (after : Tables)
      → (action =ₛ "delete") ≡ true
      → IsRead id t c
      → delete h id c now t ≡ ok (v, after)
      → IsStep (manage id action digest) t after
  delete-IsStep id action digest c now t v after y read e =
      let (last, is_last, (w, off)) = delete-writes h id c now t v after read e in
      let is_delete = (eq_iff action "delete").0 y in
      rw (is_last, is_delete)
        record {
          source = c;
          read = read;
          mine = w.mine;
          others = w.others;
          gone = λ o. rw w.deleted_kept (is_in-append o id t.deleted_collectors);
          off_kept = w.off_kept;
          silent = λ _. off;
        }

  set-IsStep :
      (id action digest : String) (c : Collector) (now : ℕ) (t : Tables) (v : Response)
      (after : Tables)
      → (action =ₛ "delete") ≡ false
      → is_action h action ≡ true
      → IsRead id t c
      → set_lifecycle h (lifecycle_of action) c now t ≡ ok (v, after)
      → IsStep (manage id action digest) t after
  set-IsStep id action digest c now t v after n known read e =
      let (w, off) = set_lifecycle-writes h (lifecycle_of action) id c now t v after read e in
      written-IsStep (manage id action digest) t after after c read n (λ _. off)
        (subst (λ l. IsWritten id l (c.management_revision + 1) t after)
          (same_lifecycle action known n) w)
        refl

  pub lifecycle-IsStep :
      (id action digest : String) (now : ℕ) (t : Tables) (v : Response) (after : Tables)
      → lifecycle_command h id action digest now t ≡ ok (v, after)
      → IsStep (manage id action digest) t after
  unfolding lifecycle_command
  lifecycle-IsStep id action digest now t v after e =
      let (_, locked, e1) = bind-ok (lock_collector id t) _ _ e in
      let (plan, planned, e2) = bind-ok (lifecycle_plan h.hash_lifecycle id t) _ _ e1 in
      let (_, known, e3) =
        bind-ok (raise_if (not (is_action h action)) lifecycle_action_invalid) _ _ e2 in
      let (_, free, e4) =
        bind-ok
          (refuse_blocked (if action =ₛ "delete" then plan.delete_blockers else plan.blockers)) _ _
          e3 in
      let (_, agreed, e5) =
        bind-ok (raise_if (not (plan.plan_digest =ₛ digest)) collector_conflict) _ _ e4 in
      let (c, got, e6) = bind-ok (the_collector id t) _ _ e5 in
      let read = read-IsRead id t c got in
      elim (Bool-cases (action =ₛ "delete")) as (λ _. IsStep (manage id action digest) t after) [
        | inl y ↦ delete-IsStep id action digest c now t v after y read (ground (arith, e6, y))
        | inr n ↦
            set-IsStep id action digest c now t v after n (ground (arith, known)) read
              (ground (arith, e6, n))
      ]

  -- an invalidated source: its schedule is off, and its checkpoint is removed
  pub invalidate_parts :
      (c : Collector) (now : ℕ) (t : Tables) (c2 : Collector) (after : Tables)
      → invalidate_execution h c now t ≡ ok (c2, after)
      → (idle : Collector) × ((mid : Tables) × ((disable_schedule h.cron c now t ≡ ok (idle, mid))
            × ((c2 ≡ invalidated idle)
                × (after ≡ record mid { checkpoints = remove_text c.id mid.checkpoints }))))
  unfolding invalidate_execution
  invalidate_parts c now t c2 after e =
      let ((idle, mid), d, e1) = bind-ok (disable_schedule h.cron c now t) _ _ e in
      (idle, (mid, (d, (ground (arith, e1), ground (arith, e1)))))

  pub invalidated_write :
      (id : String) (now : ℕ) (t before mid : Tables) (source c2 c row : Collector) (after : Tables)
      → IsRead id t source
      → IsQuiet source.id t before
      → invalidate_execution h source now before ≡ ok (c2, mid)
      → c.id ≡ c2.id
      → c.lifecycle ≡ c2.lifecycle
      → save_collector true c mid ≡ ok (row, after)
      → IsWritten id source.lifecycle (source.management_revision + 1) t after
  invalidated_write id now t before mid source c2 c row after read first e same life w =
      let (idle, (first_mid, (d, (is_c2, is_mid)))) = invalidate_parts source now before c2 mid e in
      let quieted = disabled h.cron source now before idle first_mid d in
      let idle_life : c.lifecycle ≡ source.lifecycle =
        life ∙ ap (λ x. x.lifecycle) is_c2 ∙ ap (λ x. x.lifecycle) quieted.same_source in
      let (written, off) =
        idle_write h id now t before first_mid mid source idle c row after read first d
          (quiet_same source.id first_mid mid (rw is_mid refl) (rw is_mid refl) (rw is_mid refl))
          (rw is_mid refl) (same ∙ ap (λ x. x.id) is_c2) w in
      subst (λ l. IsWritten id l (source.management_revision + 1) t after) idle_life written

  kept_write :
      (id : String) (d : Definition) (now : ℕ) (t mid : Tables) (c c2 row : Collector)
      (last : Tables)
      → IsRead id t c
      → ◌≡◌ {A = Outcome LifecycleError (Collector × Tables)} (ok (c, t)) (ok (c2, mid))
      → save_collector true (defined d (h.iso now) c2) mid ≡ ok (row, last)
      → IsWritten id c.lifecycle (c.management_revision + 1) t last
  kept_write id d now t mid c c2 row last read e w =
      let same : c2 ≡ c = ground (arith, e) in
      let stays : mid ≡ t = ground (arith, e) in
      subst (λ l. IsWritten id l (c.management_revision + 1) t last) (ap (λ x. x.lifecycle) same)
        (managed_write id t mid c (defined d (h.iso now) c2) row last read
          (quiet_same id t mid (rw stays refl) (rw stays refl) (rw stays refl))
          (ap (λ x. x.id) same ∙ read.same_id) (λ o. rw stays o) w)

  pub definition-IsStep :
      (id body : String) (d : Definition) (revision now : ℕ) (t : Tables) (v : Response)
      (after : Tables)
      → definition_command h id d revision now t ≡ ok (v, after)
      → IsStep (define id body d revision) t after
  definition-IsStep id body d revision now t v after e =
      let p = definition_command-IsDefined h id d revision now t v after e in
      let read = read-IsRead id t p.c p.got in
      let written : IsWritten id p.c.lifecycle (p.c.management_revision + 1) t after =
        elim (Bool-cases ((p.c.intent =ₛ d.intent) && (p.c.source_url =ₛ d.source_url)))
          as (λ _. IsWritten id p.c.lifecycle (p.c.management_revision + 1) t after) [
            | inl y ↦
                kept_write id d now t p.mid p.c p.idle p.row after read (ground (arith, p.idled, y))
                  p.written
            | inr n ↦
                invalidated_write id now t t p.mid p.c p.idle (defined d (h.iso now) p.idle) p.row
                  after read (quiet_same p.c.id t t refl refl refl) (ground (arith, p.idled, n))
                  refl refl p.written
          ] in
      written-IsStep (define id body d revision) t after after p.c read refl (λ f. absurd (cc f))
        written refl
