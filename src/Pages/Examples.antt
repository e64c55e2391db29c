-- ===== src/Pages/Examples.antt =====
-- Pages of a short list, and a source at work.
use extrio.Base.{ℕ, ◌≡◌, refl, true, none, some, List, [], ◌∷◌}
use extrio.Pages.{Collector, Run, pagination, numbered, needs_attention}

abbrev values : List ℕ
values = 10 ∷ 20 ∷ 30 ∷ 40 ∷ 50 ∷ []

last_page :
    numbered values 9 2
    ≡ some (50 ∷ [], record { page = 3; page_size = 2; total_pages = 3; total = 5 })
unfolding numbered pagination
last_page = refl

abbrev source : Collector
source = record {
  lifecycle = "active";
  status = "published";
  active_operation_id = none;
  pending_collection_version = none;
  active_rule_version = some "v1";
  latest_run_id = some "run";
}

abbrev rejecting : Run
rejecting = record { status = "succeeded"; rejected_count = 2 }

looked_at : needs_attention source (some rejecting) ≡ true
unfolding needs_attention
looked_at = refl
