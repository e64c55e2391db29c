-- ===== src/Collections/Store.antt =====
-- The operations on collections. Identifiers, which are random, are arguments, and so is the clock.
use extrio.Base.{
  ℕ, ◌+◌, String, Bool, ◌&&◌, ◌||◌, not, Option, none, some, List, [], ◌∷◌, ◌++◌, any, ◌==◌, ◌=ₛ◌,
  if◌then◌else◌, ltb, or_else, is_some, Outcome, ok, err, raise_if, ◌>>=◌, ◌>>◌,
}
use extrio.Fields.{
  Field, FieldError, Schema, validate_field_draft, build_collection_version_contract,
}
use extrio.Collections.Tables.{
  Collection, Version, View, Tables, CollectionError, find_collection, write_collection,
  remove_collection, max_version, is_in, view, collection_not_found, collection_conflict,
  collection_archived, no_field_draft, collection_has_sources, collection_has_history,
  invalid_fields,
}

-- the errors of a draft, as the store's
abbrev pub fields_checked {ℓ} : {A : Type ℓ} → Outcome FieldError A → Outcome CollectionError A
fields_checked (ok a) = ok a
fields_checked (err e) = err (invalid_fields e)

-- the row, where `_lock_collection` finds it
unfoldable pub lock_collection : String → Tables → Outcome CollectionError Collection
lock_collection id t = elim (find_collection id t.collections) [
  | none ↦ err collection_not_found
  | some c ↦ ok c
]

abbrev pub with_collections : List Collection → Tables → Tables
with_collections cs t = record {
  collections = cs;
  versions = t.versions;
  sources = t.sources;
  deleted_collectors = t.deleted_collectors;
  suggested = t.suggested;
  owned = t.owned;
  idempotency = t.idempotency;
  audit = t.audit;
}

abbrev pub new_collection : String → String → String → ℕ → Collection
new_collection id name intent now = record {
  id = id;
  name = name;
  intent = intent;
  collection_version = "tender_notice_v4";
  status = "active";
  revision = 1;
  created_at = now;
  updated_at = now;
  field_draft = none;
  active_version_id = none;
  latest_version_number = 0;
}

-- INSERT OR IGNORE INTO collections
unfoldable pub insert_collection : String → String → String → ℕ → Tables → Tables
insert_collection id name intent now t =
    if is_some (find_collection id t.collections)
    then t
    else with_collections (t.collections ++ new_collection id name intent now ∷ []) t

unfoldable pub create_collection :
    String → String → String → ℕ → Tables → Outcome CollectionError (View × Tables)
create_collection id name intent now t = do
  let after = insert_collection id name intent now t
  c ← lock_collection id after
  ok (view after c, after)

pub record Changes : Type 0 where
  pub name : Option String
  pub intent : Option String
  pub status : Option String
  pub field_draft : Option (List Field)

-- "name", "intent" or "fieldDraft" in changes
abbrev pub touches_content : Changes → Bool
touches_content k = is_some k.name || is_some k.intent || is_some k.field_draft

abbrev pub or_kept {ℓ} : {A : Type ℓ} → Option A → Option A → Option A
or_kept none kept = kept
or_kept (some a) kept = some a

abbrev pub changed : Changes → ℕ → Collection → Collection
changed k now c = record {
  id = c.id;
  name = or_else k.name c.name;
  intent = or_else k.intent c.intent;
  collection_version = c.collection_version;
  status = or_else k.status c.status;
  revision = c.revision + 1;
  created_at = c.created_at;
  updated_at = now;
  field_draft = or_kept k.field_draft c.field_draft;
  active_version_id = c.active_version_id;
  latest_version_number = c.latest_version_number;
}

abbrev pub check_draft : Option (List Field) → Outcome FieldError (Unit {0})
check_draft none = ok tt
check_draft (some fields) = validate_field_draft fields

abbrev pub is_archived : Collection → Bool
is_archived c = c.status =ₛ "archived"

unfoldable pub change_collection :
    String → ℕ → Changes → ℕ → Tables → Outcome CollectionError (View × Tables)
change_collection id revision k now t = do
  c ← lock_collection id t
  raise_if (not (c.revision == revision)) collection_conflict
  raise_if (is_archived c && touches_content k) collection_archived
  fields_checked (check_draft k.field_draft)
  let after = with_collections (write_collection (changed k now c) t.collections) t
  ok (view t (changed k now c), after)

abbrev pub has_history : String → Tables → Bool
has_history id t =
    any (λ v. v.collection_id =ₛ id) t.versions || is_in id t.suggested || is_in id t.owned

unfoldable pub delete_collection : String → ℕ → Tables → Outcome CollectionError (Unit {0} × Tables)
delete_collection id revision t = do
  c ← lock_collection id t
  raise_if (not (c.revision == revision)) collection_conflict
  raise_if (ltb 0 (view t c).source_count) collection_has_sources
  raise_if (has_history id t) collection_has_history
  ok (tt, with_collections (remove_collection id t.collections) t)

-- a draft with fields
abbrev pub draft_fields : Option (List Field) → Outcome CollectionError (List Field)
draft_fields none = err no_field_draft
draft_fields (some []) = err no_field_draft
draft_fields (some (f ∷ fs)) = ok (f ∷ fs)

abbrev pub published_from : Version → Collection → Collection
published_from v c = record {
  id = c.id;
  name = c.name;
  intent = c.intent;
  collection_version = c.collection_version;
  status = c.status;
  revision = c.revision + 1;
  created_at = c.created_at;
  updated_at = v.published_at;
  field_draft = c.field_draft;
  active_version_id = some v.id;
  latest_version_number = v.version_number;
}

abbrev pub with_version : Version → Collection → Tables → Tables
with_version v c t = record {
  collections = write_collection (published_from v c) t.collections;
  versions = t.versions ++ v ∷ [];
  sources = t.sources;
  deleted_collectors = t.deleted_collectors;
  suggested = t.suggested;
  owned = t.owned;
  idempotency = t.idempotency;
  audit = t.audit;
}

module _ (digest : Schema → List String → List String → String) where
  unfoldable pub publish_collection_version :
      String
      → String
      → ℕ
      → String
      → Option String
      → ℕ
      → Tables
      → Outcome CollectionError (Version × Tables)
  publish_collection_version version_id id revision actor_id note now t = do
    c ← lock_collection id t
    raise_if (not (c.revision == revision)) collection_conflict
    raise_if (is_archived c) collection_archived
    fields ← draft_fields c.field_draft
    contract ← fields_checked (build_collection_version_contract digest fields)
    let version : Version = record {
      id = version_id;
      collection_id = id;
      version_number = max_version id t.versions + 1;
      contract = contract;
      published_at = now;
      published_by = actor_id;
      note = or_else note "";
    }
    ok (version, with_version version c t)
