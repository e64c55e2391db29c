-- ===== src/Delivery/Tables.antt =====
-- The rows of the tables `deliveries`, `delivery_attempts` and `sinks`, and reads and writes by id.
use extrio.Base.{
  ℕ, String, ◌≡◌, Bool, Option, none, some, List, [], ◌∷◌, arith, ◌=ₛ◌, eq_iff, if◌then◌else◌,
}

pub data Status : Type 0 where
  pending delivering delivered failed dead_lettered : Status

pub record Delivery : Type 0 where
  pub id : String
  pub collector_id : String
  pub sink_id : String
  pub sink_version_id : String
  pub item_event_id : String
  pub status : Status
  pub attempt_count : ℕ
  pub next_attempt_at : Option ℕ
  pub lease_until : Option ℕ
  pub lease_token : Option String
  pub cycle_attempts : ℕ
  pub redelivery_count : ℕ
  pub last_status_code : Option ℕ
  pub last_error : Option String
  pub created_at : ℕ
  pub updated_at : ℕ

pub record Attempt : Type 0 where
  pub id : String
  pub delivery_id : String
  pub attempt_no : ℕ
  pub started_at : ℕ
  pub finished_at : ℕ
  pub status_code : Option ℕ
  pub error : Option String

pub record Sink : Type 0 where
  pub id : String
  pub collector_id : String
  pub kind : String  -- the column `type`
  pub url : String
  pub enabled : Bool
  pub version : ℕ
  pub secret : String

pub record Db : Type 0 where
  pub deliveries : List Delivery
  pub attempts : List Attempt
  pub sinks : List Sink

-- SELECT ... WHERE id=?
unfoldable pub find_delivery : String → List Delivery → Option Delivery
find_delivery id [] = none
find_delivery id (d ∷ ds) = if d.id =ₛ id then some d else find_delivery id ds

unfoldable pub find_sink : String → List Sink → Option Sink
find_sink id [] = none
find_sink id (s ∷ ss) = if s.id =ₛ id then some s else find_sink id ss

-- UPDATE ... WHERE id=?
unfoldable pub update_delivery : String → (Delivery → Delivery) → List Delivery → List Delivery
update_delivery id f [] = []
update_delivery id f (d ∷ ds) =
    let rest = update_delivery id f ds in (if d.id =ₛ id then f d else d) ∷ rest

abbrev pub map_found : (Delivery → Delivery) → Option Delivery → Option Delivery
map_found f none = none
map_found f (some d) = some (f d)

-- An update keeps ids; then a read of the row that was written gives the row as changed, and a read
-- of any other row gives it as it was.
pub find-update :
    (id k : String) (f : Delivery → Delivery) (ds : List Delivery)
    → ((d : Delivery) → (f d).id ≡ d.id)
    → find_delivery k (update_delivery id f ds)
      ≡ (if k =ₛ id then map_found f (find_delivery k ds) else find_delivery k ds)
unfolding find_delivery update_delivery
find-update id k f [] keeps = ground arith
find-update id k f (d ∷ ds) keeps = ground (
  arith,
  find-update id k f ds keeps,
  keeps d,
  eq_iff d.id id,
  eq_iff (f d).id k,
  eq_iff d.id k,
  eq_iff k id,
)
