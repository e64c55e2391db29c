-- ===== src/Fields/Plan.antt =====
-- `constrain_rule_plan`: of a rule that a model proposes only the extraction stays, the meaning of
-- the fields is the version's. The rules of a stage are its dictionary of fields; a version has no key
-- twice. What harvest.py does to a plan afterwards is outside this library: `_execution_field` strips
-- and cuts the labels of the rules that a source runs.
use Prim.Native.Char.{code}
use Prim.Native.String.{[] as []ₛ, ◌∷◌ as ◌∷ₛ◌}
use text.Mathlib.Text.{starts_with}
use extrio.Base.{
  String, Bool, false, ◌&&◌, ◌||◌, not, Option, none, some, List, [], ◌∷◌, ◌++◌, all, ◌==◌, ◌=ₛ◌,
  if◌then◌else◌, or_else, is_some,
}
use extrio.Fields.{Field, Contract, Rule, is_one_of, constrain_rule}
use extrio.Fields.Project.{lookup}

pub record Plan : Type 0 where
  pub is_list_detail : Bool
  pub list_rules : List (String × Rule)
  pub detail_rules : List (String × Rule)
  pub bindings : List (String × String)
  pub identity_fields : List String
  pub fingerprint_fields : List String

-- binding.split(".", 1)[1], where there is a dot
abbrev after_dot : String → Option String
after_dot []ₛ = none
after_dot (c ∷ₛ s) = if code c == 46 then some s else after_dot s

-- binding.split(".", 1)[-1]
abbrev pub last_part : String → String
last_part s = or_else (after_dot s) s

abbrev pub put {ℓ} : {A : Type ℓ} → String → A → List (String × A) → List (String × A)
put k a [] = (k, a) ∷ []
put k a (p ∷ ps) = if p.0 =ₛ k then (k, a) ∷ ps else p ∷ put k a ps

abbrev pub find_field : String → List Field → Option Field
find_field k [] = none
find_field k (f ∷ fs) = if f.key =ₛ k then some f else find_field k fs

-- A date of the list that is no field of the version moves to a key of its own.
abbrev pub keep_list_date : List Field → Plan → Plan
keep_list_date fields plan =
    let binding = or_else (lookup "listPublishedAt" plan.bindings) "" in
    let key = last_part binding in
    if plan.is_list_detail && starts_with binding "list." && not (is_some (find_field key fields))
    then elim (lookup key plan.list_rules) as (λ _. Plan) [
      | none ↦ plan
      | some rule ↦
          let moved : Rule = record {
            label = "列表日期";
            required = false;
            value_type = "string";
            on_error = "null";
            datetime_format = rule.datetime_format;
            default_timezone = rule.default_timezone;
          } in
          record {
            is_list_detail = plan.is_list_detail;
            list_rules = put "listPublishedAt" moved plan.list_rules;
            detail_rules = plan.detail_rules;
            bindings = put "listPublishedAt" "list.listPublishedAt" plan.bindings;
            identity_fields = plan.identity_fields;
            fingerprint_fields = plan.fingerprint_fields;
          }
    ]
    else plan

-- the keys of the list stage that stay although they are no fields
abbrev pub is_kept : Plan → String → Bool
is_kept plan key =
    plan.is_list_detail
    && ((key =ₛ "detailUrl")
        || (key =ₛ "listPublishedAt")
          && (or_else (lookup "listPublishedAt" plan.bindings) "" =ₛ "list.listPublishedAt"))

unfoldable pub constrain_stage :
    List Field → (String → Bool) → List (String × Rule) → List (String × Rule)
constrain_stage fields kept [] = []
constrain_stage fields kept (p ∷ ps) =
    let rest = constrain_stage fields kept ps in
    elim (find_field p.0 fields) as (λ _. List (String × Rule)) [
      | none ↦ if kept p.0 then p ∷ rest else rest
      | some f ↦ (p.0, constrain_rule f p.1) ∷ rest
    ]

unfoldable pub keep_bindings : List Field → Bool → List (String × String) → List (String × String)
keep_bindings fields is_list_detail [] = []
keep_bindings fields is_list_detail (p ∷ ps) =
    let rest = keep_bindings fields is_list_detail ps in
    if is_some (find_field (last_part p.1) fields)
      || is_one_of p.1 ("list.detailUrl" ∷ "list.listPublishedAt" ∷ []) && is_list_detail
    then p ∷ rest
    else rest

-- the rules of the plan's stages, those of the last stage first
abbrev pub stage_rules : Plan → List (String × Rule)
stage_rules plan = (if plan.is_list_detail then plan.detail_rules else []) ++ plan.list_rules

-- the stages, the bindings and the version's own lists
abbrev pub constrained : Contract → Plan → Plan
constrained version plan = record {
  is_list_detail = plan.is_list_detail;
  list_rules = constrain_stage version.fields (is_kept plan) plan.list_rules;
  detail_rules =
      if plan.is_list_detail
      then constrain_stage version.fields (λ _. false) plan.detail_rules
      else plan.detail_rules;
  bindings = keep_bindings version.fields plan.is_list_detail plan.bindings;
  identity_fields = version.identity_fields;
  fingerprint_fields = version.fingerprint_fields;
}

-- `none` where a field of the version has no rule
unfoldable pub constrain_rule_plan : Plan → Contract → Option Plan
constrain_rule_plan proposed version =
    let plan = keep_list_date version.fields proposed in
    if all (λ f. is_some (lookup f.key (stage_rules plan))) version.fields
    then some (constrained version plan)
    else none
