-- ===== src/Lifecycle/History.antt =====
-- collector_history.py: to which collection the work on a source belongs, resolved from what is stored
-- and frozen before the source is moved.
use extrio.Base.{
  ℕ, suc, String, Bool, true, false, ◌&&◌, not, Option, none, some, List, [], ◌∷◌, ◌++◌, map, ◌=ₛ◌,
  if◌then◌else◌, any, or_else, is_some, length, take,
}
use extrio.Collections.{find_collection}
use extrio.Lifecycle.Tables.{
  Collector, Tables, Work, RuleVersion, Owner, Ownership, Item, truthy, find_work, find_rule,
}

pub record Counts : Type 0 where
  pub rules : ℕ
  pub runs : ℕ
  pub ai_runs : ℕ
  pub operations : ℕ
  pub items : ℕ
  pub sinks : ℕ
  pub deliveries : ℕ

abbrev pub count_if {ℓ} : {A : Type ℓ} → (A → Bool) → List A → ℕ
count_if p [] = 0
count_if p (x ∷ xs) = if p x then suc (count_if p xs) else count_if p xs

abbrev pub works_on : String → Work → Bool
works_on id w = w.collector_id =ₛ id

-- the owner of what belongs to a version of a collection
unfoldable pub attribution : Option String → Option String → Tables → Option Owner
attribution none version t = none
attribution (some id) version t = elim (find_collection id t.collections) as (λ _. Option Owner) [
  | none ↦ none
  | some c ↦
      if truthy version
      then some (record {
        collection_id = id;
        collection_name = c.name;
        collection_version = or_else version "";
      })
      else none
]

abbrev rule_attribution : Option RuleVersion → Tables → Option Owner
rule_attribution none t = none
rule_attribution (some r) t = attribution r.ref_collection_id r.ref_version_id t

abbrev is_resource : String → String → Ownership → Bool
is_resource kind id o = (o.resource_type =ₛ kind) && (o.resource_id =ₛ id)

-- INSERT OR IGNORE, where a resource has one row
unfoldable pub save_attribution :
    String → String → String → Option Owner → List Ownership → List Ownership
save_attribution kind id collector_id none rows = rows
save_attribution kind id collector_id (some owner) rows =
    if any (is_resource kind id) rows
    then rows
    else rows
      ++ record {
        resource_type = kind;
        resource_id = id;
        collector_id = collector_id;
        owner = owner;
      }
        ∷ []

abbrev owner_of : String → String → List Ownership → Option Owner
owner_of kind id [] = none
owner_of kind id (o ∷ os) = if is_resource kind id o then some o.owner else owner_of kind id os

abbrev lookup_owner : String → List (String × Owner) → Option Owner
lookup_owner id [] = none
lookup_owner id (p ∷ ps) = if p.0 =ₛ id then some p.1 else lookup_owner id ps

-- the dictionaries that `history_snapshot` fills, `operation_owners` with the latest first
pub record Snap : Type 0 where
  pub owners : List Ownership
  pub operation_owners : List (String × Owner)
  pub unresolved : List (String × String)

abbrev first_of : Option Owner → Option Owner → Option Owner
first_of none b = b
first_of (some a) b = some a

-- work without a version, before the source was moved for the first time
abbrev original : Collector → Tables → Option Owner
original c t =
    if c.has_reassignment_history
    then none
    else attribution (some c.collection_id) (some c.collection_version) t

abbrev pub rule_in : Option String → List RuleVersion → Option RuleVersion
rule_in none rules = none
rule_in (some id) rules = find_rule id rules

abbrev noted : String → Collector → Work → Option Owner → Snap → Snap
noted kind c w none s = record s { unresolved = s.unresolved ++ (kind, w.id) ∷ [] }
noted kind c w (some o) s = record {
  owners = save_attribution kind w.id c.id (some o) s.owners;
  operation_owners = elim w.operation_id [
    | none ↦ s.operation_owners
    | some operation ↦
        if operation =ₛ "" then s.operation_owners else (operation, o) ∷ s.operation_owners
  ];
  unresolved = s.unresolved;
}

-- the loop over the runs, with `later` none, and over the AI runs
unfoldable pub resolve_works :
    String → Collector → List RuleVersion → Option Owner → Tables → List Work → Snap → Snap
resolve_works kind c rules later t [] s = s
resolve_works kind c rules later t (w ∷ ws) s =
    let by_rule = rule_attribution (rule_in w.rule_version rules) t in
    let owner = first_of (owner_of kind w.id s.owners) (first_of by_rule later) in
    resolve_works kind c rules later t ws (noted kind c w owner s)

abbrev noted_operation : Collector → Work → Option Owner → Snap → Snap
noted_operation c w none s = record s { unresolved = s.unresolved ++ ("operation", w.id) ∷ [] }
noted_operation c w (some o) s = record s {
  owners = save_attribution "operation" w.id c.id (some o) s.owners;
}

unfoldable pub resolve_operations : Collector → Tables → List Work → Snap → Snap
resolve_operations c t [] s = s
resolve_operations c t (w ∷ ws) s =
    let owner =
      first_of (owner_of "operation" w.id s.owners)
        (first_of (lookup_owner w.id s.operation_owners) (original c t)) in
    resolve_operations c t ws (noted_operation c w owner s)

abbrev unresolved_rules : Tables → List RuleVersion → List (String × String)
unresolved_rules t [] = []
unresolved_rules t (r ∷ rs) =
    let rest = unresolved_rules t rs in
    if is_some (rule_attribution (some r) t) then rest else ("rule", r.id) ∷ rest

-- an item of the source whose run is missing or another source's
abbrev is_bad_item : String → List Work → Item → Bool
is_bad_item id runs i =
    (i.collector_id =ₛ id)
    && elim (find_work i.run_id runs) [ none ↦ true | some r ↦ not (works_on id r) ]

abbrev filter_by {ℓ} : {A : Type ℓ} → (A → Bool) → List A → List A
filter_by p [] = []
filter_by p (x ∷ xs) = if p x then x ∷ filter_by p xs else filter_by p xs

pub record History : Type 0 where
  pub owners : List Ownership
  pub unresolved : List (String × String)
  pub counts : Counts

abbrev has_item_run : String → List Work → Item → Bool
has_item_run id runs i = elim (find_work i.run_id runs) [ none ↦ false | some r ↦ works_on id r ]

unfoldable pub history_snapshot : Collector → Tables → History
history_snapshot c t =
    let rules = filter_by (λ r. r.collector_id =ₛ c.id) t.rule_versions in
    let runs = filter_by (works_on c.id) t.runs in
    let ai_runs = filter_by (works_on c.id) t.ai_runs in
    let operations = filter_by (works_on c.id) t.operations in
    let started : Snap = record {
      owners = filter_by (λ o. o.collector_id =ₛ c.id) t.ownership;
      operation_owners = [];
      unresolved = unresolved_rules t rules;
    } in
    let after_runs = resolve_works "run" c rules none t runs started in
    let after_ai = resolve_works "ai_run" c rules (original c t) t ai_runs after_runs in
    let last = resolve_operations c t operations after_ai in
    let bad = take 20 (filter_by (is_bad_item c.id t.runs) t.items) in
    record {
      owners = last.owners;
      unresolved = last.unresolved ++ map (λ i. ("item", i.id)) bad;
      counts = record {
        rules = length rules;
        runs = length runs;
        ai_runs = length ai_runs;
        operations = length operations;
        items = count_if (has_item_run c.id t.runs) t.items;
        sinks = count_if (λ s. s =ₛ c.id) t.sinks;
        deliveries = count_if (λ s. s =ₛ c.id) t.deliveries;
      };
    }

unfoldable pub save_all : String → List Ownership → List Ownership → List Ownership
save_all id [] rows = rows
save_all id (o ∷ os) rows =
    save_all id os (save_attribution o.resource_type o.resource_id id (some o.owner) rows)

unfoldable pub freeze_history : Collector → History → Tables → Tables
freeze_history c h t = record t { ownership = save_all c.id h.owners t.ownership }
