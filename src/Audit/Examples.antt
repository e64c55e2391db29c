-- ===== src/Audit/Examples.antt =====
-- Two events of one tenant.
use Prim.Native.String.{◌++◌ as ◌++ₛ◌, count}
use text.Mathlib.TextLemmas.{append_cancel_left, length-append}
use extrio.Base.{String, ◌≡◌, refl, ◌⊎◌, true, Option, none, some, List, [], arith, ap, length}
use extrio.Audit.{
  Event, Row, Audit, of_tenant, last_id, last_hash, append_audit_event, verify_from,
  verify_audit_chain,
}
use extrio.Audit.Chain.{append-verifies, tip_vouches, texts, Collision}

abbrev digest : String → String
digest s = s

-- a text that tells the hash that it is written with
abbrev json : Event → Option String → String
json event none = ""
json event (some hash) = "s" ++ₛ hash

tells_previous :
    (event event' : Event) (hash hash' : Option String)
    → json event hash ≡ json event' hash'
    → hash ≡ hash'
tells_previous event event' none none e = refl
tells_previous event event' none (some h) e =
    absurd (omega (arith, length-append "s" h, ap count e))
tells_previous event event' (some h) none e =
    absurd (omega (arith, length-append "s" h, ap count e))
tells_previous event event' (some h) (some h') e = ap some (append_cancel_left "s" h h' e)

abbrev audit : Audit
audit = record { actor_id = "admin"; action = "publish"; request_id = "r1"; details = "{}" }

abbrev one_event : List Row
one_event = append_audit_event digest json "e1" "tenant" "Collector" "c1" audit none none 5 []

one_event-verifies : verify_audit_chain digest json "tenant" one_event ≡ true
unfolding verify_audit_chain verify_from of_tenant append_audit_event last_id last_hash
one_event-verifies = refl

append-verifies_example :
    verify_audit_chain digest json "tenant"
      (append_audit_event digest json "e2" "tenant" "Collector" "c1" audit none none 9 one_event)
    ≡ true
append-verifies_example =
    append-verifies digest json "e2" "tenant" "Collector" "c1" audit none none 9 one_event "tenant"
      one_event-verifies

-- the same events, and one of another tenant
abbrev two_tenants : List Row
two_tenants =
    append_audit_event digest json "e2" "other" "Collector" "c2" audit none none 9 one_event

two_tenants-verifies : verify_audit_chain digest json "tenant" two_tenants ≡ true
unfolding verify_audit_chain verify_from of_tenant append_audit_event last_id last_hash
two_tenants-verifies = refl

same_length : length (of_tenant "tenant" one_event) ≡ length (of_tenant "tenant" two_tenants)
unfolding of_tenant append_audit_event
same_length = refl

same_last :
    last_hash none (of_tenant "tenant" one_event) ≡ last_hash none (of_tenant "tenant" two_tenants)
unfolding of_tenant append_audit_event last_hash
same_last = refl

tip_vouches_example :
    (texts digest json none (of_tenant "tenant" one_event)
      ≡ texts digest json none (of_tenant "tenant" two_tenants))
    ⊎ Collision digest json
tip_vouches_example =
    tip_vouches digest json tells_previous "tenant" one_event two_tenants one_event-verifies
      two_tenants-verifies same_length same_last
