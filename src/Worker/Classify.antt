-- ===== src/Worker/Classify.antt =====
-- `classify_items` and `final_run_status`. The observations that an item keeps are left out.
use extrio.Base.{
  ltb, ◌==◌, if◌then◌else◌, ℕ, ◌+◌, String, Bool, true, false, not, ◌&&◌, ◌||◌, Option, none, some,
  List, [], ◌∷◌, ◌=ₛ◌,
}
use extrio.Worker.Values.{Change, Item, is_empty, revision_values, changes}

pub record Metrics : Type 0 where
  pub new_items : ℕ
  pub updated_items : ℕ
  pub unchanged_items : ℕ

abbrev pub is_accepted : Item → Bool
is_accepted i = i.decision =ₛ "accepted"

-- latest_by_entity: the first accepted item of the source under the key
unfoldable pub latest_of : String → String → List Item → Option Item
latest_of collector_id key [] = none
latest_of collector_id key (p ∷ ps) =
    let rest = latest_of collector_id key ps in
    if (p.collector_id =ₛ collector_id) && is_accepted p && (p.entity_key =ₛ key)
    then some p
    else rest

abbrev with_change : Option String → Option ℕ → List Change → Item → Item
with_change change_type revision summary i = record {
  id = i.id;
  collector_id = i.collector_id;
  decision = i.decision;
  entity_key = i.entity_key;
  extracted_data = i.extracted_data;
  columns = i.columns;
  revision = revision;
  change_type = change_type;
  change_summary = summary;
}

-- `revision or default`, where zero counts as none
abbrev pub revision_or : ℕ → Option ℕ → ℕ
revision_or d none = d
revision_or d (some n) = if n == 0 then d else n

abbrev pub is_type : String → Item → Bool
is_type t i = is_accepted i && elim i.change_type as (λ _. Bool) [ none ↦ false | some s ↦ s =ₛ t ]

abbrev one_if : Bool → ℕ
one_if true = 1
one_if false = 0

-- the metrics with an item more, by the branch that it took
abbrev pub counted : Item → Metrics → Metrics
counted i m = record {
  new_items = one_if (is_type "new" i) + m.new_items;
  updated_items = one_if (is_type "updated" i) + m.updated_items;
  unchanged_items = one_if (is_type "unchanged" i) + m.unchanged_items;
}

module _ (quote : String → String) (fingerprint_fields : List String) where
  -- an accepted item beside the one that was collected before it
  unfoldable pub compared : Item → Item → Item
  compared previous i =
      let summary =
        changes quote (revision_values fingerprint_fields previous)
          (revision_values fingerprint_fields i) in
      if is_empty summary
      then with_change (some "unchanged") (some (revision_or 1 previous.revision)) summary i
      else with_change (some "updated") (some (revision_or 0 previous.revision + 1)) summary i

  abbrev pub classified_from : Option Item → Item → Item
  classified_from none i = with_change (some "new") (some 1) i.change_summary i
  classified_from (some previous) i = compared previous i

  -- one item in the loop
  abbrev pub classify_item : String → List Item → Item → Item
  classify_item collector_id previous i =
      if is_accepted i
      then classified_from (latest_of collector_id i.entity_key previous) i
      else with_change none i.revision i.change_summary i

  -- the items as they are left, and the metrics
  unfoldable pub classify_items : String → List Item → List Item → List Item × Metrics
  classify_items collector_id previous [] =
      ([], record { new_items = 0; updated_items = 0; unchanged_items = 0 })
  classify_items collector_id previous (i ∷ is) =
      let (rest, metrics) = classify_items collector_id previous is in
      let item = classify_item collector_id previous i in (item ∷ rest, counted item metrics)

abbrev pub is_normal_stop : String → Bool
is_normal_stop reason =
    (reason =ₛ "not_applicable")
    || (reason =ₛ "next_link_exhausted")
    || (reason =ₛ "time_window_reached")
    || (reason =ₛ "checkpoint_reached")
    || (reason =ₛ "max_pages")

unfoldable pub final_run_status : ℕ → ℕ → String → String
final_run_status accepted rejected stop_reason =
    if not (is_normal_stop stop_reason) || ltb 0 rejected
    then if ltb 0 accepted then "partially_succeeded" else "failed"
    else "succeeded"
