-- ===== src/Worker/Deliveries.antt =====
-- `enqueue_run_deliveries`: the items of a run that are sent, and the sinks they are sent to.
use extrio.Base.{
  if◌then◌else◌, Outcome, ok, err, ℕ, ◌+◌, String, Bool, false, ◌&&◌, ◌||◌, none, some, List, [],
  ◌∷◌, ◌=ₛ◌,
}
use extrio.Worker.Values.{Item}
use extrio.Worker.Classify.{is_accepted}
use extrio.Delivery.Tables.{Delivery, Sink, Db}
use extrio.Delivery.Store.{StoreError, before}
use extrio.Delivery.Queue.{enqueue_delivery}

-- decision == "accepted" and changeType in DELIVERABLE_CHANGE_TYPES
abbrev pub is_deliverable : Item → Bool
is_deliverable i = is_accepted i && elim i.change_type as (λ _. Bool) [
  | none ↦ false
  | some t ↦ (t =ₛ "new") || (t =ₛ "updated")
]

-- the enabled ones of `list_sinks_for_collector`
unfoldable pub enabled_sinks : String → List Sink → List Sink
enabled_sinks collector_id [] = []
enabled_sinks collector_id (s ∷ ss) =
    let rest = enabled_sinks collector_id ss in
    if (s.collector_id =ₛ collector_id) && s.enabled then s ∷ rest else rest

module _ (sha256 : String → String) (show : ℕ → String) where
  -- An enqueueing that raises KeyError is skipped.
  abbrev pub kept_or_skipped : ℕ × Db → Outcome StoreError (Delivery × Db) → ℕ × Db
  kept_or_skipped before (err e) = before
  kept_or_skipped before (ok (d, db)) = (before.0 + 1, db)

  -- the loop over the sinks, for one item
  unfoldable pub enqueue_item : String → String → ℕ → List Sink → ℕ × Db → ℕ × Db
  enqueue_item collector_id item_event_id now [] before = before
  enqueue_item collector_id item_event_id now (s ∷ ss) before =
      enqueue_item collector_id item_event_id now ss (
        kept_or_skipped before
          (enqueue_delivery sha256 show collector_id s.id item_event_id now before.1))

  -- the loop over the items
  unfoldable pub enqueue_items : String → ℕ → List Sink → List Item → ℕ × Db → ℕ × Db
  enqueue_items collector_id now sinks [] before = before
  enqueue_items collector_id now sinks (i ∷ is) before =
      enqueue_items collector_id now sinks is
        (if is_deliverable i then enqueue_item collector_id i.id now sinks before else before)

  unfoldable pub enqueue_run_deliveries : String → List Item → ℕ → Db → ℕ × Db
  enqueue_run_deliveries collector_id items now db =
      enqueue_items collector_id now (enabled_sinks collector_id db.sinks) items (0, db)
