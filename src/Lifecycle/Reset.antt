-- ===== src/Lifecycle/Reset.antt =====
-- A source that is moved, or defined anew, starts over.
use extrio.Base.{
  ℕ, String, Bool, true, false, not, ◌&&◌, Option, none, some, List, [], ◌≡◌, refl, sym, subst, ap,
  ◌∙◌, arith, ◌=ₛ◌, ok,
}
use extrio.Lifecycle.Tables.{Collector, Tables, Response, find_collector, is_in, remove_text}
use extrio.Lifecycle.Store.{the_collector, revised, save_collector}
use extrio.Lifecycle.History.{freeze_history, history_snapshot}
use extrio.Lifecycle.Values.{
  Command, manage, define, reassign, migrate, cancel, Host, Definition, target_of, invalidated,
  defined, moved,
}
use extrio.Lifecycle.Commands.{
  invalidate_execution, definition_command, reassignment_command, changed,
}
use extrio.Lifecycle.Effects.{
  is_on, IsRead, read-IsRead, save_collector-IsSaved, saved_row, disabled,
}
use extrio.Lifecycle.Writes.{saved_on}
use extrio.Lifecycle.Commanded.{invalidate_parts}
use extrio.Lifecycle.Rows.{is_in-remove}
use extrio.Lifecycle.Writes.{saved_on}
use extrio.Lifecycle.Parts.{definition_command-IsDefined, reassignment_command-IsReassigned}

-- a source that nothing was compiled, reviewed or collected for
abbrev IsBlank : Collector → Type 0
IsBlank c =
    (c.status ≡ "draft")
    × (c.active_rule_version ≡ none)
    × (c.candidate ≡ none)
    × (c.preview_items ≡ [])
    × (c.review_decisions ≡ none)
    × (c.checkpoint ≡ none)
    × (c.active_operation_id ≡ none)

pub record IsReset (id : String) (t : Tables) : Type 0 where
  pub row : Collector
  pub found : find_collector id t.collectors ≡ some row
  pub blank : IsBlank row
  pub off : is_on id t ≡ false
  pub no_stored_checkpoint : is_in id t.checkpoints ≡ false

invalidated-IsBlank : (c : Collector) → IsBlank (invalidated c)
invalidated-IsBlank c = (refl, refl, refl, refl, refl, refl, refl)

revised-IsBlank : (o : Option Collector) (c : Collector) → IsBlank c → IsBlank (revised true o c)
revised-IsBlank none c b = b
revised-IsBlank (some r) c b = b

-- a change of the collection, of the intent or of the address
abbrev starts_over : Command → Collector → Bool
starts_over (reassign id target digest confirmed) c = true
starts_over (define id body d revision) c =
    not ((c.intent =ₛ d.intent) && (c.source_url =ₛ d.source_url))
starts_over _ c = false

module _ (h : Host) where
  -- what is saved is what was invalidated, under other names
  blank_write :
      (id : String) (now : ℕ) (t before mid : Tables) (source c2 c row : Collector)
      (after last : Tables)
      → IsRead id t source
      → invalidate_execution h source now before ≡ ok (c2, mid)
      → (IsBlank c2 → IsBlank c) × (c.id ≡ c2.id)
      → save_collector true c mid ≡ ok (row, last)
      → after ≡ last
      → IsReset id after
  blank_write id now t before mid source c2 c row after last read e (keeps, same) w is_last =
      let (idle, (first, (d, (is_c2, is_mid)))) = invalidate_parts h source now before c2 mid e in
      let quieted = disabled h.cron source now before idle first d in
      let s = save_collector-IsSaved true c mid row last w in
      let c_id : c.id ≡ id =
        same ∙ ap (λ x. x.id) is_c2 ∙ ap (λ x. x.id) quieted.same_source ∙ read.same_id in
      let blank : IsBlank c = keeps (rw is_c2 (invalidated-IsBlank idle)) in
      rw is_last record {
        row = row;
        found =
            subst (λ i. find_collector i last.collectors ≡ some row) c_id
              (saved_row true c mid row last s);
        blank = rw s.is_row (revised-IsBlank (find_collector c.id mid.collectors) c blank);
        off =
            saved_on true c mid row last w id
            ∙ ap (λ x. is_on id x) is_mid
            ∙ subst (λ i. is_on i first ≡ false) read.same_id quieted.off;
        no_stored_checkpoint =
            ap (λ x. is_in id x.checkpoints) s.is_after
            ∙ ap (λ x. is_in id x.checkpoints) is_mid
            ∙ subst (λ i. is_in i (remove_text source.id first.checkpoints) ≡ false) read.same_id
                (is_in-remove source.id first.checkpoints);
      }

  redefined-IsReset :
      (id body : String) (d : Definition) (revision now : ℕ) (t : Tables) (v : Response)
      (after : Tables) (c : Collector)
      → definition_command h id d revision now t ≡ ok (v, after)
      → the_collector id t ≡ ok c
      → starts_over (define id body d revision) c ≡ true
      → IsReset id after
  redefined-IsReset id body d revision now t v after c e got differs =
      let p = definition_command-IsDefined h id d revision now t v after e in
      let same : p.c ≡ c = ground (arith, got, p.got) in
      let other : ((p.c.intent =ₛ d.intent) && (p.c.source_url =ₛ d.source_url)) ≡ false =
        subst (λ x. ((x.intent =ₛ d.intent) && (x.source_url =ₛ d.source_url)) ≡ false) (sym same)
          (ground (arith, differs)) in
      blank_write id now t t p.mid p.c p.idle (defined d (h.iso now) p.idle) p.row after after
        (read-IsRead id t p.c p.got) (ground (arith, p.idled, other)) (λ b. b, refl) p.written refl

  reassigned-IsReset :
      (id target digest : String) (confirmed : List String) (now : ℕ) (t : Tables) (v : Response)
      (after : Tables)
      → reassignment_command h id target digest confirmed now t ≡ ok (v, after)
      → IsReset id after
  reassigned-IsReset id target digest confirmed now t v after e =
      let p = reassignment_command-IsReassigned h id target digest confirmed now t v after e in
      blank_write id now t (freeze_history p.c (history_snapshot p.c t) t) p.mid p.c p.idle
        (moved p.plan (h.iso now) p.idle) p.row after after (read-IsRead id t p.c p.got) p.idled
        (λ b. b, refl) p.written refl

  -- When a source is moved to another collection, or its intent or its address changes, it is a draft
  -- afterwards: no rule, candidate, preview, review or checkpoint is left of it, its schedule is off and
  -- its stored checkpoint is gone.
  pub changed-IsReset :
      (body : Command) (now : ℕ) (t : Tables) (v : Response) (after : Tables) (c : Collector)
      → changed h body now t ≡ ok (v, after)
      → the_collector (target_of body) t ≡ ok c
      → starts_over body c ≡ true
      → IsReset (target_of body) after
  changed-IsReset (define id body d revision) now t v after c e got s =
      redefined-IsReset id body d revision now t v after c e got s
  changed-IsReset (reassign id target digest confirmed) now t v after c e got s =
      reassigned-IsReset id target digest confirmed now t v after e
  changed-IsReset (manage id action digest) now t v after c e got s = absurd (cc s)
  changed-IsReset (migrate id target digest confirmed) now t v after c e got s = absurd (cc s)
  changed-IsReset (cancel id target) now t v after c e got s = absurd (cc s)
