-- ===== src/Lifecycle/Steps.antt =====
-- What each command does to the lifecycle, the revision and the schedule of its source.
use extrio.Base.{
  bind-ok, ℕ, ◌+◌, String, Bool, true, false, ◌&&◌, ◌||◌, some, [], ◌∷◌, ◌++◌, ◌≡◌, refl, sym, ◌∙◌,
  arith, ◌=ₛ◌, if◌then◌else◌, ok,
}
use extrio.Lifecycle.Tables.{Collector, Tables, Response, is_in}
use extrio.Lifecycle.Store.{save_collector, disable_schedule}
use extrio.Lifecycle.History.{freeze_history, history_snapshot, History}
use extrio.Lifecycle.Values.{Command, manage, migrate, cancel, Host, target_of}
use extrio.Lifecycle.Commands.{delete, set_lifecycle}
use extrio.Lifecycle.Effects.{management, is_on, IsRead, IsQuiet, disabled}
use extrio.Lifecycle.Writes.{IsWritten, managed_write, saved_on, quiet_then, quiet_same}

abbrev pub deletes : Command → Bool
deletes (manage id action digest) = action =ₛ "delete"
deletes _ = false

abbrev pub manages : Command → Bool
manages (manage id action digest) = true
manages _ = false

-- the lifecycle after a command, from the one before it
abbrev pub next_lifecycle : Command → String → String
next_lifecycle (manage id action digest) l = if action =ₛ "restore" then "active" else "archived"
next_lifecycle _ l = l

-- a migration is not a write of the management
abbrev pub next_revision : Command → ℕ → ℕ
next_revision (migrate id target digest confirmed) n = n
next_revision (cancel id target) n = n
next_revision _ n = n + 1

pub record IsStep (body : Command) (t after : Tables) : Type 0 where
  pub source : Collector
  pub read : IsRead (target_of body) t source
  pub mine :
      management (target_of body) after
      ≡ some (next_lifecycle body source.lifecycle, next_revision body source.management_revision)
  pub others : (o : String) → (target_of body =ₛ o) ≡ false → management o after ≡ management o t
  pub gone :
      (o : String)
      → is_in o after.deleted_collectors
        ≡ (is_in o t.deleted_collectors || (deletes body && (target_of body =ₛ o)))
  pub off_kept : (o : String) → is_on o t ≡ false → is_on o after ≡ false
  pub silent : manages body ≡ true → is_on (target_of body) after ≡ false

or_false : (b : Bool) → b ≡ (b || false)
or_false b = ground arith

-- a command that writes the source and deletes nothing
pub written-IsStep :
    (body : Command) (t after last : Tables) (source : Collector)
    → IsRead (target_of body) t source
    → deletes body ≡ false
    → (manages body ≡ true → is_on (target_of body) last ≡ false)
    → IsWritten
        (target_of body)
        (next_lifecycle body source.lifecycle)
        (next_revision body source.management_revision)
        t
        last
    → after ≡ last
    → IsStep body t after
written-IsStep body t after last source read stays silent w same = rw same record {
  source = source;
  read = read;
  mine = w.mine;
  others = w.others;
  gone = λ o. rw (w.deleted_kept, stays) (or_false (is_in o t.deleted_collectors));
  off_kept = w.off_kept;
  silent = silent;
}

pub freeze-IsQuiet :
    (id : String) (c : Collector) (s : History) (t : Tables) → IsQuiet id t (freeze_history c s t)
unfolding freeze_history
freeze-IsQuiet id c s t = quiet_same id t _ refl refl refl

module _ (h : Host) where
  -- a source whose schedule is disabled, and then saved by the management
  pub idle_write :
      (id : String) (now : ℕ) (t before mid last : Tables) (source idle c row : Collector)
      (after : Tables)
      → IsRead id t source
      → IsQuiet source.id t before
      → disable_schedule h.cron source now before ≡ ok (idle, mid)
      → IsQuiet source.id mid last
      → is_on source.id last ≡ is_on source.id mid
      → c.id ≡ idle.id
      → save_collector true c last ≡ ok (row, after)
      → IsWritten id c.lifecycle (source.management_revision + 1) t after × (is_on id after ≡ false)
  idle_write id now t before mid last source idle c row after read first d next on same w =
      let quieted = disabled h.cron source now before idle mid d in
      let quiet : IsQuiet source.id t last =
        quiet_then source.id t mid last (quiet_then source.id t before mid first quieted.quiet)
          next in
      let off : is_on id last ≡ false = rw (sym read.same_id) (on ∙ quieted.off) in
      let idle_id : idle.id ≡ source.id = rw quieted.same_source refl in
      (
        managed_write id t last source c row after read (rw (sym read.same_id) quiet)
            (same ∙ idle_id ∙ read.same_id) (λ _. off) w,
        saved_on true c last row after w id ∙ off,
      )

  pub set_lifecycle-writes :
      (lifecycle id : String) (source : Collector) (now : ℕ) (t : Tables) (v : Response)
      (after : Tables)
      → IsRead id t source
      → set_lifecycle h lifecycle source now t ≡ ok (v, after)
      → IsWritten id lifecycle (source.management_revision + 1) t after × (is_on id after ≡ false)
  set_lifecycle-writes lifecycle id source now t v after read e =
      let ((idle, mid), d, e1) = bind-ok (disable_schedule h.cron source now t) _ _ e in
      let c : Collector = record idle { lifecycle = lifecycle; updated_at = h.iso now } in
      let ((row, last), w, e2) = bind-ok (save_collector true c mid) _ _ e1 in
      let same : after ≡ last = ground (arith, e2) in
      rw same (
        idle_write id now t t mid mid source idle c row last read
          (quiet_same source.id t t refl refl refl) d (quiet_same source.id mid mid refl refl refl)
          refl refl w)

  pub delete-writes :
      (id : String) (source : Collector) (now : ℕ) (t : Tables) (v : Response) (after : Tables)
      → IsRead id t source
      → delete h id source now t ≡ ok (v, after)
      → (last : Tables) × (after
          ≡ record last { deleted_collectors = last.deleted_collectors ++ id ∷ [] })
        × (IsWritten id "archived" (source.management_revision + 1) t last
            × (is_on id last ≡ false))
  delete-writes id source now t v after read e =
      let frozen = freeze_history source (history_snapshot source t) t in
      let ((idle, mid), d, e1) = bind-ok (disable_schedule h.cron source now frozen) _ _ e in
      let c : Collector = record idle { lifecycle = "archived"; updated_at = h.iso now } in
      let ((row, last), w, e2) = bind-ok (save_collector true c mid) _ _ e1 in
      (
        last,
        ground (arith, e2),
        idle_write id now t frozen mid mid source idle c row last read
            (freeze-IsQuiet source.id source (history_snapshot source t) t) d
            (quiet_same source.id mid mid refl refl refl) refl refl w,
      )
