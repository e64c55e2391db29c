-- ===== src/Lifecycle/Examples.antt =====
-- A source that is archived, deleted, defined anew, moved and migrated.
use extrio.Base.{
  Bool-cases, inl, inr, eq_iff, arith, ℕ, ◌+◌, String, true, false, none, some, List, [], ◌∷◌, ◌≡◌,
  ◌≢◌, refl, ◌=ₛ◌, Outcome, ok, err,
}
use extrio.Schedules.{Schedule}
use extrio.Audit.{append_audit_event}
use extrio.Collections.{Collection, Version}
use extrio.Fields.{Contract}
use extrio.Lifecycle.Tables.{
  Work, Collector, Tables, LifecycleError, Response, collector_not_found, write_collector,
  write_schedule, remove_text,
}
use extrio.Lifecycle.Store.{
  ScheduleValues, the_collector, get_collector, save_collector, save_schedule, disable_schedule,
  validate_schedule,
}
use extrio.Lifecycle.History.{
  attribution, save_attribution, resolve_works, resolve_operations, history_snapshot, save_all,
  freeze_history,
}
use extrio.Lifecycle.Plans.{active_blockers, lifecycle_blockers, history_kinds, lifecycle_plan}
use extrio.Lifecycle.Values.{
  Command, manage, define, Host, Call, Answer, Definition, target_of, scope_of, find_receipt,
  source_exists,
}
use extrio.Lifecycle.Commands.{
  command, changed, lifecycle_command, invalidate_execution, definition_command, start_migration,
}
use extrio.Lifecycle.Refines.{life, deleted, command-refines}
use extrio.Lifecycle.Pause.{maybe_pause_schedule_after_failures, recent_run_statuses, pause}
use extrio.Lifecycle.Kept.{
  Later, stay, paused_by, OnlyActiveRun, NeverSwitchesOn, later-OnlyActiveRun,
}
use extrio.Lifecycle.Final.{deleted-IsFinal}
use extrio.Lifecycle.Stale.{stale_definition}
use extrio.Lifecycle.Reset.{IsReset, changed-IsReset}

abbrev host : Host
host = record {
  cron = record {
    is_valid = λ s. true;
    next = λ s n. n + 60;
    strip = λ s. s;
    split = λ s. "0" ∷ "8" ∷ "*" ∷ "*" ∷ "*" ∷ [];
    schedule_id = λ s. s;
  };
  iso = λ n. "2026-01-01";
  sha256 = λ s. s;
  json = λ e p. e.action;
  hash_body = λ c. "body";
  hash_value = λ v. "value";
  hash_lifecycle = λ c b k n. "plan";
  hash_move = λ c p r v u n. "plan";
  hash_migration = λ c v n. "plan";
  default_fields = [];
}

abbrev schedule : Schedule
schedule = record {
  id = "s1";
  collector_id = "c1";
  revision = 1;
  enabled = true;
  cron_expression = "0 8 * * *";
  last_triggered_at = none;
  next_run_at = some 9;
  updated_at = 1;
}

abbrev source : Collector
source = record {
  id = "c1";
  name = "City";
  intent = "notices";
  source_url = "https://city.example/";
  source_host = "city.example";
  collection_id = "tenders";
  collection_name = "Tenders";
  collection_version = "v1";
  lifecycle = "active";
  management_revision = 3;
  status = "published";
  active_rule_version = some "r1";
  candidate = none;
  preview_items = "p" ∷ [];
  review_decisions = some "yes";
  checkpoint = some "page 3";
  active_operation_id = none;
  latest_run_id = some "run1";
  pending_collection_version = none;
  collection_migration = none;
  has_reassignment_history = false;
  schedule = some schedule;
  updated_at = "2025-12-01";
}

abbrev collection : String → String → Collection
collection id name = record {
  id = id;
  name = name;
  intent = "notices";
  collection_version = "v1";
  status = "active";
  revision = 1;
  created_at = 1;
  updated_at = 1;
  field_draft = none;
  active_version_id = none;
  latest_version_number = 2;
}

abbrev contract : Contract
contract = record {
  fields = [];
  schema = record { properties = []; required = [] };
  identity_fields = [];
  fingerprint_fields = [];
  digest = "d";
}

abbrev version : String → ℕ → Version
version id n = record {
  id = id;
  collection_id = "tenders";
  version_number = n;
  contract = contract;
  published_at = 1;
  published_by = "ann";
  note = "";
}

abbrev stored : Tables
stored = record {
  collectors = source ∷ [];
  deleted_collectors = [];
  collections = collection "tenders" "Tenders" ∷ collection "grants" "Grants" ∷ [];
  versions = version "v1" 1 ∷ version "v2" 2 ∷ [];
  rule_versions = [];
  schedules = schedule ∷ [];
  operations = [];
  ai_runs = [];
  runs = [];
  jobs = [];
  migrations = [];
  checkpoints = "c1" ∷ [];
  occurrences = [];
  sinks = [];
  deliveries = [];
  items = [];
  policies = [];
  ownership = [];
  idempotency = [];
  audit = [];
}

abbrev call : String → ℕ → Call
call key now = record {
  key = key;
  tenant_id = "t";
  actor_id = "ann";
  request_id = "q";
  details = "{}";
  event_id = key;
  now = now;
}

abbrev tables_of {ℓ} : {A : Type ℓ} → Outcome LifecycleError (A × Tables) → Tables
tables_of (ok (a, t)) = t
tables_of (err e) = stored

abbrev deletion : Command
deletion = manage "c1" "delete" "sha256:plan"

abbrev after_deletion : Tables
after_deletion = tables_of (command host (call "k1" 5) deletion stored)

abbrev fresh_answer : Response → Answer
fresh_answer v = record { status_code = 200; value = v; is_replay = false }

deletes_it :
    command host (call "k1" 5) deletion stored
    ≡ ok (fresh_answer (Response.deleted "c1"), after_deletion)
unfolding command lifecycle_command lifecycle_plan lifecycle_blockers active_blockers history_kinds
    get_collector history_snapshot freeze_history save_all resolve_works resolve_operations
    attribution save_attribution disable_schedule save_schedule save_collector write_collector
    write_schedule find_receipt append_audit_event
deletes_it = refl

command-refines_example : life "c1" after_deletion ≡ deleted
command-refines_example =
    command-refines host (call "k1" 5) deletion (fresh_answer (Response.deleted "c1")) stored
      after_deletion deletes_it "c1"

stored-OnlyActiveRun : OnlyActiveRun stored
stored-OnlyActiveRun id on = elim (Bool-cases ("c1" =ₛ id)) [
  | inl y ↦ rw⁻¹ ((eq_iff "c1" id).0 y) refl
  | inr n ↦ absurd (ground (arith, on, n))
]

abbrev failed_run : Work
failed_run = record {
  id = "run";
  collector_id = "c1";
  status = "failed";
  operation_id = none;
  rule_version = none;
}

abbrev three_failures : Collector → Tables → List Work
three_failures c t = failed_run ∷ failed_run ∷ failed_run ∷ []

abbrev after_failures : Tables
after_failures =
    tables_of (maybe_pause_schedule_after_failures host three_failures "t" "e" "{}" "c1" 5 stored)

pauses_it :
    maybe_pause_schedule_after_failures host three_failures "t" "e" "{}" "c1" 5 stored
    ≡ ok (true, after_failures)
unfolding maybe_pause_schedule_after_failures recent_run_statuses pause get_collector save_schedule
    save_collector write_collector write_schedule append_audit_event
pauses_it = refl

was_paused : Later host stored after_failures
was_paused =
    paused_by three_failures "t" "e" "{}" "c1" 5 true stored after_failures after_failures pauses_it
      (stay after_failures)

later-OnlyActiveRun_example : OnlyActiveRun after_failures × NeverSwitchesOn host after_failures
later-OnlyActiveRun_example =
    later-OnlyActiveRun host stored after_failures was_paused stored-OnlyActiveRun

is_deleted : life "c1" after_deletion ≡ deleted
unfolding command lifecycle_command lifecycle_plan lifecycle_blockers active_blockers history_kinds
    get_collector history_snapshot freeze_history save_all resolve_works resolve_operations
    attribution save_attribution disable_schedule save_schedule save_collector write_collector
    write_schedule find_receipt append_audit_event
is_deleted = refl

deleted-IsFinal_example :
    (life "c1" after_deletion ≡ deleted)
    × (((again : Call) (body : Command)
          → target_of body ≡ "c1"
          → find_receipt (scope_of body) again.key after_deletion.idempotency ≡ none
          → command host again body after_deletion ≡ err collector_not_found)
        × ((v w : ScheduleValues) (now : ℕ)
            → validate_schedule host.cron v ≡ ok w
            → save_schedule host.cron "c1" v now after_deletion ≡ err collector_not_found))
deleted-IsFinal_example =
    deleted-IsFinal host "c1" after_deletion after_deletion (stay after_deletion) is_deleted

abbrev renaming : Definition
renaming = record {
  name = "The city";
  intent = "notices of tenders";
  source_url = "https://city.example/";
  source_host = "city.example";
}

abbrev redefinition : Command
redefinition = define "c1" "{}" renaming 3

abbrev after_definition : Tables
after_definition = tables_of (changed host redefinition 5 stored)

abbrev value_of : Outcome LifecycleError (Response × Tables) → Response
value_of (ok (v, t)) = v
value_of (err e) = Response.deleted ""

defines_it :
    changed host redefinition 5 stored
    ≡ ok (value_of (changed host redefinition 5 stored), after_definition)
unfolding definition_command invalidate_execution active_blockers source_exists get_collector
    disable_schedule save_schedule save_collector write_collector write_schedule remove_text
defines_it = refl

reads_it : the_collector "c1" stored ≡ ok source
unfolding get_collector
reads_it = refl

changed-IsReset_example : IsReset "c1" after_definition
changed-IsReset_example =
    changed-IsReset host redefinition 5 stored (value_of (changed host redefinition 5 stored))
      after_definition source defines_it reads_it refl

abbrev definition_answer : Answer
definition_answer = fresh_answer (value_of (changed host redefinition 5 stored))

abbrev after_command : Tables
after_command = tables_of (command host (call "k1" 5) redefinition stored)

commands_it : command host (call "k1" 5) redefinition stored ≡ ok (definition_answer, after_command)
unfolding command find_receipt append_audit_event definition_command invalidate_execution
    active_blockers source_exists get_collector disable_schedule save_schedule save_collector
    write_collector write_schedule remove_text
commands_it = refl

not_repeated : find_receipt (scope_of redefinition) "k2" after_command.idempotency ≡ none
unfolding command find_receipt append_audit_event definition_command invalidate_execution
    active_blockers source_exists get_collector disable_schedule save_schedule save_collector
    write_collector write_schedule remove_text
not_repeated = refl

stale_definition_example :
    command host (call "k2" 6) redefinition after_command ≢ ok (definition_answer, after_command)
stale_definition_example =
    stale_definition host (call "k1" 5) redefinition definition_answer stored after_command
      after_command commands_it refl 3 refl "active" refl (stay after_command) (call "k2" 6) "{}"
      renaming 3 (omega arith) not_repeated (definition_answer, after_command)

abbrev after_start : Tables
after_start = tables_of (start_migration host "c1" "v2" "sha256:plan" [] 5 stored)
