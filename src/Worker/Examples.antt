-- ===== src/Worker/Examples.antt =====
-- A notice that was collected before, and one that was not.
use extrio.Base.{String, ◌≡◌, refl, ◌↔◌, true, Option, none, some, [], ◌∷◌}
use extrio.Worker.Values.{Item, canonical, string}
use extrio.Worker.Classify.{latest_of, classify_item, final_run_status}
use extrio.Worker.Unchanged.{counted_value, classify_item_iff}
use extrio.Worker.Deliveries.{enqueue_run_deliveries}
use extrio.Worker.Sent.{IsAppended, IsSentFor, run-IsAppended}
use extrio.Delivery.Tables.{Sink, Db}

abbrev quote : String → String
quote s = s

abbrev notice : String → String → Option String → Item
notice id title change_type = record {
  id = id;
  collector_id = "source";
  decision = "accepted";
  entity_key = "k1";
  extracted_data = ("title", string title) ∷ [];
  columns = [];
  revision = some 2;
  change_type = change_type;
  change_summary = [];
}

abbrev earlier : Item
earlier = notice "i0" "Bridge" (some "new")

abbrev item : Item
item = notice "i1" "Bridge, part two" none

latest : latest_of "source" "k1" (earlier ∷ []) ≡ some earlier
unfolding latest_of
latest = refl

partly : final_run_status 3 1 "max_pages" ≡ "partially_succeeded"
unfolding final_run_status
partly = refl

-- another text in a field that is not declared as part of the fingerprint
abbrev reworded : Item
reworded = record earlier {
  extracted_data = ("title", string "Bridge") ∷ ("content", string "A new text") ∷ [];
}

classify_item_iff_example :
    let classified = classify_item quote ("title" ∷ []) "source" (earlier ∷ []) reworded in
    let agree =
      (g : String)
      → canonical quote (counted_value ("title" ∷ []) earlier g)
        ≡ canonical quote (counted_value ("title" ∷ []) reworded g) in
    ((classified.change_type ≡ some "unchanged") ↔ agree)
    × ((agree → classified.revision ≡ some 2)
        × (¬ agree → (classified.change_type ≡ some "updated") × (classified.revision ≡ some 3)))
classify_item_iff_example =
    classify_item_iff quote ("title" ∷ []) "source" (earlier ∷ []) earlier reworded refl latest

abbrev sink : Sink
sink = record {
  id = "sink";
  collector_id = "source";
  kind = "webhook";
  url = "https://example.org";
  enabled = true;
  version = 1;
  secret = "s";
}

abbrev db : Db
db = record { deliveries = []; attempts = []; sinks = sink ∷ [] }

run-IsAppended_example :
    IsAppended
      (IsSentFor "source" (earlier ∷ []))
      (0, db)
      (enqueue_run_deliveries (λ s. s) (λ n. "1") "source" (earlier ∷ []) 7 db)
run-IsAppended_example = run-IsAppended (λ s. s) (λ n. "1") "source" (earlier ∷ []) 7 db
