-- ===== src/Fields/Examples.antt =====
-- Notices with a title and a date, from the draft to a source's rule and back.
use extrio.Base.{◌≡◌, refl, String, true, false, none, some, List, [], ◌∷◌, ok, err, arith}
use extrio.Fields.{
  Field, bad_key, Schema, Contract, Rule, validate_field_draft, check_fields, check_field,
  is_field_type, contract_of, build_collection_version_contract,
}
use extrio.Fields.Project.{GatherSpec, Source, project_source_contract}
use extrio.Fields.Plan.{Plan, constrained, constrain_rule_plan}
use extrio.Fields.Constrained.{draft_comes_back}

abbrev title : Field
title = record {
  key = "title";
  label = "Notice title";
  type = "string";
  required = true;
  identity = true;
  fingerprint = true;
  description = "";
}

abbrev published_at : Field
published_at = record {
  key = "publishedAt";
  label = "Published";
  type = "datetime";
  required = false;
  identity = false;
  fingerprint = false;
  description = "when the notice appeared";
}

abbrev fields : List Field
fields = title ∷ published_at ∷ []

abbrev digest : Schema → List String → List String → String
digest schema identity fingerprint = "digest"

repeated_key : validate_field_draft (title ∷ title ∷ []) ≡ err bad_key
unfolding validate_field_draft check_fields check_field is_field_type
repeated_key = refl

abbrev proposed_rule : Rule
proposed_rule = record {
  label = "h1";
  required = false;
  value_type = "html";
  on_error = "null";
  datetime_format = none;
  default_timezone = none;
}

abbrev proposed : Plan
proposed = record {
  is_list_detail = true;
  list_rules =
      ("title", proposed_rule) ∷ ("detailUrl", proposed_rule) ∷ ("noise", proposed_rule) ∷ [];
  detail_rules = ("publishedAt", proposed_rule) ∷ [];
  bindings = ("title", "list.title") ∷ [];
  identity_fields = [];
  fingerprint_fields = [];
}

abbrev contract : Contract
contract = contract_of digest fields

abbrev plan : Plan
plan = constrained contract proposed

abbrev spec : GatherSpec
spec = record {
  contract = contract;
  collection_version_id = "colver_1";
  list_rules = plan.list_rules;
  detail_rules = plan.detail_rules;
}

abbrev source : Source
source = record {
  active_rule_version = some "rule_1";
  version_spec = some spec;
  candidate_id = none;
  candidate_spec = none;
}

built : build_collection_version_contract digest fields ≡ ok contract
unfolding build_collection_version_contract validate_field_draft check_fields check_field
    is_field_type
built = refl

passes : constrain_rule_plan proposed contract ≡ some plan
unfolding constrain_rule_plan
passes = refl

draft_comes_back_example : (project_source_contract source).fields ≡ fields
draft_comes_back_example =
    draft_comes_back digest fields contract proposed plan source spec built passes
      (omega arith, (omega arith, tt)) refl refl refl refl
