-- ===== src/Collections/Changing.antt =====
-- What the operations on collections leave as it was, and when a change is made.
use extrio.Base.{ok, ℕ, String, ◌≡◌, Option, List, arith}
use extrio.Fields.{Schema}
use extrio.Collections.Tables.{Version, View, Tables}
use extrio.Collections.Store.{
  insert_collection, create_collection, Changes, change_collection, delete_collection,
  publish_collection_version,
}

-- the same rows but for those of `collections`
pub record IsChangeOf (t after : Tables) : Type 0 where
  pub versions_kept : after.versions ≡ t.versions
  pub receipts_kept : after.idempotency ≡ t.idempotency

pub created-IsChangeOf :
    (id name intent : String) (now : ℕ) (t : Tables) (v : View) (after : Tables)
    → create_collection id name intent now t ≡ ok (v, after)
    → IsChangeOf t after
unfolding create_collection insert_collection
created-IsChangeOf id name intent now t v after h = record {
  versions_kept = ground (arith, h);
  receipts_kept = ground (arith, h);
}

pub changed-IsChangeOf :
    (id : String) (revision : ℕ) (k : Changes) (now : ℕ) (t : Tables) (v : View) (after : Tables)
    → change_collection id revision k now t ≡ ok (v, after)
    → IsChangeOf t after
unfolding change_collection
changed-IsChangeOf id revision k now t v after h = record {
  versions_kept = ground (arith, h);
  receipts_kept = ground (arith, h);
}

pub deleted-IsChangeOf :
    (id : String) (revision : ℕ) (t : Tables) (u : Unit {0}) (after : Tables)
    → delete_collection id revision t ≡ ok (u, after)
    → IsChangeOf t after
unfolding delete_collection
deleted-IsChangeOf id revision t u after h = record {
  versions_kept = ground (arith, h);
  receipts_kept = ground (arith, h);
}

module _ (digest : Schema → List String → List String → String) where
  pub published_receipts :
      (version_id id : String) (revision : ℕ) (actor_id : String) (note : Option String) (now : ℕ)
      (t : Tables) (v : Version) (after : Tables)
      → publish_collection_version digest version_id id revision actor_id note now t ≡ ok (v, after)
      → after.idempotency ≡ t.idempotency
  unfolding publish_collection_version
  published_receipts version_id id revision actor_id remark now t v after h = ground (arith, h)
