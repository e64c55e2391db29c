-- ===== src/Audit.antt =====
-- The audit trail: `_append_audit_event` and `verify_audit_chain` of backend/src/extrio/store.py.
-- The table is the list of its rows in the order of their sequence numbers. `sha256` and `json`, the
-- canonical text of an event with the hash of the event before it, are parameters.
use Prim.Native.String.{◌++◌ as ◌++ₛ◌}
use extrio.Base.{
  ℕ, String, Bool, true, false, ◌&&◌, ◌||◌, not, Option, none, some, List, [], ◌∷◌, ◌++◌, ◌=ₛ◌,
  if◌then◌else◌,
}
mod Chain
mod Examples

pub record Event : Type 0 where
  pub id : String
  pub tenant_id : String
  pub actor_id : String
  pub action : String
  pub target_type : String
  pub target_id : String
  pub before_digest : Option String
  pub after_digest : Option String
  pub request_id : String
  pub occurred_at : ℕ
  pub previous_event_id : Option String
  pub details : String  -- as canonical JSON

-- `event` and `recorded_hash` are what the column `data` holds: the event, and its "eventHash".
pub record Row : Type 0 where
  pub id : String
  pub tenant_id : String
  pub event_hash : String
  pub event : Event
  pub recorded_hash : Option String

-- what the caller gives
pub record Audit : Type 0 where
  pub actor_id : String
  pub action : String
  pub request_id : String
  pub details : String

abbrev pub same_text : Option String → Option String → Bool
same_text none none = true
same_text (some a) (some b) = a =ₛ b
same_text _ _ = false

-- WHERE tenant_id=? ORDER BY sequence
unfoldable pub of_tenant : String → List Row → List Row
of_tenant tenant [] = []
of_tenant tenant (r ∷ rs) =
    let rest = of_tenant tenant rs in if r.tenant_id =ₛ tenant then r ∷ rest else rest

-- the id and the hash of the last row; where there is none, those that are given
unfoldable pub last_id : Option String → List Row → Option String
last_id id [] = id
last_id id (r ∷ rs) = last_id (some r.id) rs

unfoldable pub last_hash : Option String → List Row → Option String
last_hash hash [] = hash
last_hash hash (r ∷ rs) = last_hash (some r.event_hash) rs

module _ (sha256 : String → String) (json : Event → Option String → String) where
  abbrev pub event_hash : Event → Option String → String
  event_hash event previous = "sha256:" ++ₛ sha256 (json event previous)

  abbrev pub new_row :
      String → String → String → String → Audit → Option String → Option String → ℕ → List Row → Row
  new_row fresh_id tenant target_type target_id audit before after now rows =
      let chain = of_tenant tenant rows in
      let event : Event = record {
        id = fresh_id;
        tenant_id = tenant;
        actor_id = audit.actor_id;
        action = audit.action;
        target_type = target_type;
        target_id = target_id;
        before_digest = before;
        after_digest = after;
        request_id = audit.request_id;
        occurred_at = now;
        previous_event_id = last_id none chain;
        details = audit.details;
      } in
      let hash = event_hash event (last_hash none chain) in
      record {
        id = fresh_id;
        tenant_id = tenant;
        event_hash = hash;
        event = event;
        recorded_hash = some hash;
      }

  unfoldable pub append_audit_event :
      String
      → String
      → String
      → String
      → Audit
      → Option String
      → Option String
      → ℕ
      → List Row
      → List Row
  append_audit_event fresh_id tenant target_type target_id audit before after now rows =
      rows ++ new_row fresh_id tenant target_type target_id audit before after now rows ∷ []

  -- the loop over the rows, with the id and the hash of the row before
  unfoldable pub verify_from : Option String → Option String → List Row → Bool
  verify_from previous_id previous_hash [] = true
  verify_from previous_id previous_hash (r ∷ rs) =
      let expected = event_hash r.event previous_hash in
      let rest = verify_from (some r.id) (some expected) rs in
      if not (same_text r.recorded_hash (some expected))
        || not (r.event_hash =ₛ expected)
        || not (same_text r.event.previous_event_id previous_id)
      then false
      else rest

  unfoldable pub verify_audit_chain : String → List Row → Bool
  verify_audit_chain tenant rows = verify_from none none (of_tenant tenant rows)
