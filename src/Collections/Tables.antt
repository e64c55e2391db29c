-- ===== src/Collections/Tables.antt =====
-- The rows of collections, their published versions, their sources, and the receipts of commands.
use extrio.Base.{
  ℕ, suc, String, Bool, false, ◌&&◌, not, Option, none, some, List, [], ◌∷◌, ◌=ₛ◌, if◌then◌else◌,
  any, max,
}
use extrio.Fields.{Field, FieldError, Contract}
use extrio.Audit.{Row}

pub record Collection : Type 0 where
  pub id : String
  pub name : String
  pub intent : String
  pub collection_version : String
  pub status : String
  pub revision : ℕ
  pub created_at : ℕ
  pub updated_at : ℕ
  pub field_draft : Option (List Field)
  pub active_version_id : Option String
  pub latest_version_number : ℕ

pub record Version : Type 0 where
  pub id : String
  pub collection_id : String
  pub version_number : ℕ
  pub contract : Contract
  pub published_at : ℕ
  pub published_by : String
  pub note : String

-- what a collection's counts read of a source
pub record Source : Type 0 where
  pub id : String
  pub collection_id : String
  pub active_rule_version : Option String
  pub lifecycle : String

-- what `get_collection` returns
pub record View : Type 0 where
  pub stored : Collection
  pub source_count : ℕ
  pub published_source_count : ℕ
  pub active_version : Option Version

pub data Response : Type 0 where
  viewed : View → Response
  published : Version → Response
  deleted : String → Response

pub record Receipt : Type 0 where
  pub scope : String
  pub key : String
  pub request_hash : String
  pub status_code : ℕ
  pub response : Response

pub record Tables : Type 0 where
  pub collections : List Collection
  pub versions : List Version
  pub sources : List Source
  pub deleted_collectors : List String
  pub suggested : List String  -- the collections of field_suggestions
  pub owned : List String  -- the collections of source_history_ownership
  pub idempotency : List Receipt
  pub audit : List Row

pub data CollectionError : Type 0 where
  idempotency_conflict collection_not_found collection_conflict collection_archived :
      CollectionError
  no_field_draft collection_has_sources collection_has_history : CollectionError
  invalid_fields : FieldError → CollectionError

abbrev pub find_collection : String → List Collection → Option Collection
find_collection id [] = none
find_collection id (c ∷ cs) = if c.id =ₛ id then some c else find_collection id cs

-- UPDATE collections SET data=? WHERE id=?
unfoldable pub write_collection : Collection → List Collection → List Collection
write_collection c [] = []
write_collection c (d ∷ ds) =
    let rest = write_collection c ds in if d.id =ₛ c.id then c ∷ rest else d ∷ rest

-- DELETE FROM collections WHERE id=?
unfoldable pub remove_collection : String → List Collection → List Collection
remove_collection id [] = []
remove_collection id (d ∷ ds) =
    let rest = remove_collection id ds in if d.id =ₛ id then rest else d ∷ rest

abbrev pub find_version : String → List Version → Option Version
find_version id [] = none
find_version id (v ∷ vs) = if v.id =ₛ id then some v else find_version id vs

-- COALESCE(MAX(version_number), 0) of a collection
unfoldable pub max_version : String → List Version → ℕ
max_version id [] = 0
max_version id (v ∷ vs) =
    let rest = max_version id vs in
    if v.collection_id =ₛ id then max v.version_number rest else rest

unfoldable pub find_receipt : String → String → List Receipt → Option Receipt
find_receipt scope key [] = none
find_receipt scope key (r ∷ rs) =
    if (r.scope =ₛ scope) && (r.key =ₛ key) then some r else find_receipt scope key rs

abbrev pub is_in : String → List String → Bool
is_in s ss = any (λ t. t =ₛ s) ss

abbrev pub count : (Source → Bool) → List Source → ℕ
count p [] = 0
count p (s ∷ ss) = if p s then suc (count p ss) else count p ss

abbrev pub truthy : Option String → Bool
truthy none = false
truthy (some s) = not (s =ₛ "")

-- a source of the collection that was not deleted
abbrev pub belongs : String → Tables → Source → Bool
belongs id t s = (s.collection_id =ₛ id) && not (is_in s.id t.deleted_collectors)

abbrev pub active_version_of : Option String → List Version → Option Version
active_version_of none vs = none
active_version_of (some id) vs = if id =ₛ "" then none else find_version id vs

-- `get_collection`, of a row
abbrev pub view : Tables → Collection → View
view t c = record {
  stored = c;
  source_count = count (belongs c.id t) t.sources;
  published_source_count =
      count (λ s. belongs c.id t s && (truthy s.active_rule_version && (s.lifecycle =ₛ "active")))
        t.sources;
  active_version = active_version_of c.active_version_id t.versions;
}
