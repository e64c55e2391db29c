-- ===== src/Fields/Project.antt =====
-- `project_source_contract`: the fields of a source, read back from the rule that it runs.
use text.Mathlib.Text.{starts_with}
use extrio.Base.{
  String, Bool, true, false, ◌&&◌, not, Option, none, some, List, [], ◌∷◌, ◌++◌, map, ◌=ₛ◌,
  if◌then◌else◌, or_else,
}
use extrio.Fields.{
  Field, Definition, SchemaType, single, several, Contract, Rule, is_field_type, is_one_of,
}

-- what a rule's "gatherSpec" holds of its fields
pub record GatherSpec : Type 0 where
  pub contract : Contract
  pub collection_version_id : String
  pub list_rules : List (String × Rule)
  pub detail_rules : List (String × Rule)

-- a rule that is active, as the version that holds its spec has it, and the candidate
pub record Source : Type 0 where
  pub active_rule_version : Option String
  pub version_spec : Option GatherSpec
  pub candidate_id : Option String
  pub candidate_spec : Option GatherSpec

pub data State : Type 0 where
  published candidate unavailable empty : State

pub record Projection : Type 0 where
  pub state : State
  pub rule_version : Option String
  pub fields : List Field

abbrev pub lookup {ℓ} : {A : Type ℓ} → String → List (String × A) → Option A
lookup k [] = none
lookup k (p ∷ ps) = if p.0 =ₛ k then some p.1 else lookup k ps

-- the first type that is not "null", or "string"
abbrev pub non_null : List String → String
non_null [] = "string"
non_null (t ∷ ts) = if t =ₛ "null" then non_null ts else t

abbrev pub schema_type : SchemaType → String
schema_type (single t) = t
schema_type (several ts) = non_null ts

-- the type that a format and the type beside it stand for
abbrev pub formatted : Option String → String → String
formatted none t = t
formatted (some f) t =
    if f =ₛ "date"
    then "date"
    else if f =ₛ "date-time"
    then "datetime"
    else if f =ₛ "uri"
    then "url"
    else t

abbrev pub value_type : Bool → Option Rule → Definition → String
value_type versioned rule d =
    let t = schema_type d.type in
    let v : String = elim rule [ none ↦ t | some r ↦ r.value_type ] in
    if versioned
    then formatted d.format (if (t =ₛ "string") && (v =ₛ "html") then "html" else t)
    else v

-- rule.get("label") or definition.get("title") or key
abbrev pub label_of : String → Option Rule → Definition → String
label_of key rule d =
    let title = if d.title =ₛ "" then key else d.title in
    elim rule [ none ↦ title | some r ↦ if r.label =ₛ "" then title else r.label ]

abbrev pub field_of : GatherSpec → String → Definition → Field
field_of spec key d =
    let rule = lookup key (spec.detail_rules ++ spec.list_rules) in
    let value = value_type (starts_with spec.collection_version_id "colver_") rule d in
    record {
      key = key;
      label = label_of key rule d;
      type = if is_field_type value then value else schema_type d.type;
      required = is_one_of key spec.contract.schema.required;
      identity = is_one_of key spec.contract.identity_fields;
      fingerprint = is_one_of key spec.contract.fingerprint_fields;
      description = or_else d.description "";
    }

abbrev pub spec_fields : Option GatherSpec → List Field
spec_fields none = []
spec_fields (some spec) = map (λ p. field_of spec p.0 p.1) spec.contract.schema.properties

abbrev pub truthy : Option String → Bool
truthy none = false
truthy (some s) = not (s =ₛ "")

abbrev pub state_of : Bool → Option GatherSpec → State
state_of true (some spec) = published
state_of true none = unavailable
state_of false (some spec) = candidate
state_of false none = empty

unfoldable pub project_source_contract : Source → Projection
project_source_contract s =
    let active = truthy s.active_rule_version in
    let spec = if active then s.version_spec else s.candidate_spec in
    record {
      state = state_of active spec;
      rule_version = if active then s.active_rule_version else s.candidate_id;
      fields = spec_fields spec;
    }
