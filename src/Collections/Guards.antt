-- ===== src/Collections/Guards.antt =====
-- A stale revision changes nothing, and a collection in use is not deleted.
use extrio.Base.{
  ◌==◌, bind-ok, ok, err, ℕ, ◌+◌, String, ◌≡◌, sym, ap, subst, ◌∙◌, ◌↔◌, false, Option, some, List,
  arith,
}
use extrio.Fields.{Schema}
use extrio.Collections.Tables.{
  Collection, View, Tables, find_collection, write_collection, remove_collection, count, belongs,
  collection_conflict,
}
use extrio.Collections.Rows.{find-id, find-write_same}
use extrio.Collections.Numbers.{locked}
use extrio.Collections.Store.{
  lock_collection, with_collections, Changes, changed, change_collection, has_history,
  delete_collection, publish_collection_version,
}

-- the row of a collection, as a lock finds it
abbrev pub Holds : String → ℕ → Tables → Type 0
Holds id revision t =
    (c : Collection) × (find_collection id t.collections ≡ some c) × (c.revision ≡ revision)

module _ (digest : Schema → List String → List String → String) where
  -- Each operation on a collection refuses the revision.
  pub record IsStale (id : String) (revision : ℕ) (t : Tables) : Type 0 where
    pub no_change :
        (k : Changes) (now : ℕ) → change_collection id revision k now t ≡ err collection_conflict
    pub no_deletion : delete_collection id revision t ≡ err collection_conflict
    pub no_version :
        (version_id actor : String) (remark : Option String) (now : ℕ)
        → publish_collection_version digest version_id id revision actor remark now t
          ≡ err collection_conflict

  held-IsStale :
      (id : String) (revision : ℕ) (t : Tables) → Holds id (revision + 1) t → IsStale id revision t
  unfolding change_collection delete_collection publish_collection_version lock_collection
  held-IsStale id revision t (c, found, e) =
      let differs : (c.revision == revision) ≡ false = ground (arith, e) in
      record {
        no_change = λ k now. ground (arith, found, differs);
        no_deletion = ground (arith, found, differs);
        no_version = λ version_id actor remark now. ground (arith, found, differs);
      }

-- The collection is there at the revision, no source that is not deleted belongs to it, and it has left
-- no version, suggestion or history behind.
pub record IsDeletable (id : String) (revision : ℕ) (t : Tables) : Type 0 where
  pub held : Holds id revision t
  pub no_sources : count (belongs id t) t.sources ≡ 0
  pub no_history : has_history id t ≡ false

-- A collection is deleted exactly when it is there at the revision that was sent, no source belongs to
-- it and it has no version, no suggestion and no history; then its row is gone and nothing else
-- changes.
pub delete_collection_iff :
    (id : String) (revision : ℕ) (t after : Tables)
    → (delete_collection id revision t ≡ ok (tt, after)) ↔ (
        IsDeletable id revision t
        × (after ≡ with_collections (remove_collection id t.collections) t))
unfolding delete_collection lock_collection
delete_collection_iff id revision t after = (
  λ h.
      let (c, e, k) = bind-ok (lock_collection id t) _ _ h in
      let (found, same) = locked id t c e in
      let none_left : count (belongs c.id t) t.sources ≡ 0 = ground (arith, k) in
      (
        record {
          held = (c, found, ground (arith, k));
          no_sources = subst (λ x. count (belongs x t) t.sources ≡ 0) same none_left;
          no_history = ground (arith, k);
        },
        ground (arith, k),
      ),
  λ (d, e).
      let (c, found, r) = d.held in
      let same = find-id id t.collections c found in
      let none_left : count (belongs c.id t) t.sources ≡ 0 =
        subst (λ x. count (belongs x t) t.sources ≡ 0) (sym same) d.no_sources in
      ground (arith, found, r, none_left, d.no_history, e),
)

module _ (digest : Schema → List String → List String → String) where
  -- A change of a collection that succeeds at a revision leaves it at the next one, and from then on
  -- every change, deletion and publication that still names the old revision is refused as a conflict.
  pub change-IsStale :
      (id : String) (revision : ℕ) (k : Changes) (now : ℕ) (t : Tables) (v : View) (after : Tables)
      → change_collection id revision k now t ≡ ok (v, after)
      → (v.stored.revision ≡ revision + 1) × IsStale digest id revision after
  unfolding change_collection
  change-IsStale id revision k now t v after h =
      let (c, e, rest) = bind-ok (lock_collection id t) _ _ h in
      let (found, same) = locked id t c e in
      let row = changed k now c in
      let rows : after.collections ≡ write_collection row t.collections = ground (arith, rest) in
      let next : row.revision ≡ revision + 1 = ground (arith, rest) in
      let there : find_collection row.id t.collections ≡ some c = rw same found in
      let written = find-write_same row c t.collections there in
      let found_after : find_collection id after.collections ≡ some row =
        ap (find_collection id) rows
        ∙ subst (λ x. find_collection x (write_collection row t.collections) ≡ some row) same
            written in
      (ground (arith, rest), held-IsStale digest id revision after (row, found_after, next))
