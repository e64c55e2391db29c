-- ===== src/Collections/Commands.antt =====
-- The commands: a repeated one is answered from its receipt, and a new one leaves its audit event and
-- its receipt in the transaction of its change. `hash_body` and `hash_value` stand for `payload_hash`.
use Prim.Native.String.{◌++◌ as ◌++ₛ◌}
use extrio.Base.{
  ℕ, String, Bool, true, false, Option, none, some, List, [], ◌∷◌, ◌++◌, not, ◌=ₛ◌, if◌then◌else◌,
  Outcome, ok, raise_if, ◌>>=◌, ◌>>◌,
}
use extrio.Fields.{Schema}
use extrio.Audit.{Row, Event, append_audit_event}
use extrio.Collections.Tables.{
  Response, Receipt, Tables, CollectionError, find_collection, find_receipt, view, viewed,
  published, deleted, idempotency_conflict,
}
use extrio.Collections.Store.{
  lock_collection, create_collection, Changes, change_collection, delete_collection,
  publish_collection_version,
}

pub record Actor : Type 0 where
  pub tenant_id : String
  pub actor_id : String
  pub request_id : String
  pub details : String

-- what a command is given beside its body: the key, who sends it, fresh identifiers and the clock
pub record Call : Type 0 where
  pub key : String
  pub actor : Option Actor
  pub fresh_id : String
  pub event_id : String
  pub now : ℕ

-- the method, the collection and the body
pub data Command : Type 0 where
  post : String → String → Command
  patch : String → ℕ → Changes → Command
  delete : String → ℕ → Command
  publish : String → ℕ → Option String → Command

abbrev pub scope_of : Command → String
scope_of (post name intent) = "POST:/collections/"
scope_of (patch id revision changes) = "PATCH:/collections/" ++ₛ id
scope_of (delete id revision) = "DELETE:/collections/" ++ₛ id
scope_of (publish id revision remark) = "POST:/collections/" ++ₛ id ++ₛ "/publish-version"

abbrev pub status_of : Command → ℕ
status_of (post name intent) = 201
status_of (patch id revision changes) = 200
status_of (delete id revision) = 200
status_of (publish id revision remark) = 201

-- what a command answers: the status, the value and whether it was answered before
pub record Answer : Type 0 where
  pub status_code : ℕ
  pub value : Response
  pub is_replay : Bool

abbrev pub actor_of : Option Actor → String
actor_of none = "system"
actor_of (some a) = a.actor_id

abbrev pub status_action : Option String → String
status_action none = "updated"
status_action (some s) = if s =ₛ "archived" then "archived" else "restored"

module _ (sha256 : String → String) (json : Event → Option String → String)
    (hash_body : Command → String) (hash_value : Response → String)
    (digest : Schema → List String → List String → String) where
  -- the receipt of the key, compared with the body
  unfoldable pub replay : String → Command → Receipt → Outcome CollectionError Answer
  replay key body r = do
    raise_if (not (r.request_hash =ₛ hash_body body)) idempotency_conflict
    ok (record { status_code = r.status_code; value = r.response; is_replay = true })

  abbrev pub digest_of : Response → String
  digest_of value = "sha256:" ++ₛ hash_value value

  abbrev pub audited :
      Call → String → String → String → Option String → Option String → List Row → List Row
  audited call target_type target_id action before after rows = elim call.actor as (λ _. List Row) [
    | none ↦ rows
    | some a ↦
        append_audit_event sha256 json call.event_id a.tenant_id target_type target_id
          (record {
            actor_id = a.actor_id;
            action = action;
            request_id = a.request_id;
            details = a.details;
          })
          before after call.now rows
  ]

  -- the audit event and the receipt, at the end of a command
  abbrev pub recorded : Call → Command → Response → List Row → Tables → Tables
  recorded call body value rows t = record {
    collections = t.collections;
    versions = t.versions;
    sources = t.sources;
    deleted_collectors = t.deleted_collectors;
    suggested = t.suggested;
    owned = t.owned;
    idempotency =
        t.idempotency
        ++ record {
          scope = scope_of body;
          key = call.key;
          request_hash = hash_body body;
          status_code = status_of body;
          response = value;
        }
          ∷ [];
    audit = rows;
  }

  -- the change of `publish_collection_version_command`
  abbrev pub publish_version :
      Call → String → ℕ → Option String → Tables → Outcome CollectionError (Response × Tables)
  publish_version call id revision remark t = do
    let before = find_collection id t.collections
    (v, after) ←
        publish_collection_version digest call.fresh_id id revision (actor_of call.actor) remark
          call.now t
    let value = published v
    let digest_before = elim before as (λ _. Option String) [
      | none ↦ none
      | some c ↦ some (digest_of (viewed (view t c)))
    ]
    let rows =
        audited call "collection_version" v.id "collection_version.published" digest_before
          (some (digest_of value)) after.audit
    ok (value, recorded call (publish id revision remark) value rows after)

  -- the change of a command, with the target and the action of its audit event
  unfoldable pub apply : Call → Command → Tables → Outcome CollectionError (Response × Tables)
  apply call (post name intent) t = do
    (v, after) ← create_collection call.fresh_id name intent call.now t
    let value = viewed v
    let rows =
        audited call "collection" v.stored.id "collection.created" none (some (digest_of value))
          after.audit
    ok (value, recorded call (post name intent) value rows after)
  apply call (patch id revision changes) t = do
    c ← lock_collection id t
    (v, after) ← change_collection id revision changes call.now t
    let value = viewed v
    let action = "collection." ++ₛ status_action changes.status
    let before = some (digest_of (viewed (view t c)))
    let rows =
        audited call "collection" v.stored.id action before (some (digest_of value)) after.audit
    ok (value, recorded call (patch id revision changes) value rows after)
  apply call (delete id revision) t = do
    c ← lock_collection id t
    (_, after) ← delete_collection id revision t
    let value = deleted id
    let before = some (digest_of (viewed (view t c)))
    let rows = audited call "collection" id "collection.deleted" before none after.audit
    ok (value, recorded call (delete id revision) value rows after)
  apply call (publish id revision remark) t = publish_version call id revision remark t

  -- `collection_command` and `publish_collection_version_command`
  unfoldable pub collection_command :
      Call → Command → Tables → Outcome CollectionError (Answer × Tables)
  collection_command call body t =
      elim (find_receipt (scope_of body) call.key t.idempotency)
        as (λ _. Outcome CollectionError (Answer × Tables)) [
          | some r ↦ replay call.key body r >>= λ a. ok (a, t)
          | none ↦ apply call body t >>= λ p.
              ok (record { status_code = status_of body; value = p.0; is_replay = false }, p.1)
        ]
