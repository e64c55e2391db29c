-- ===== src/Fields.antt =====
-- backend/src/extrio/collection_fields.py: the draft of a collection's fields, the contract of a
-- published version, and the fields that are read back from a rule. The keys of the JSON objects and
-- the types of their values are those of the records. `digest` stands for SHA-256 of canonical JSON.

use Prim.Native.String.{count, [] as []ₛ, ◌∷◌ as ◌∷ₛ◌}
use extrio.Base.{
  ℕ, zero, suc, ◌+◌, String, Bool, true, false, ◌&&◌, ◌||◌, not, Option, none, some, List, [], ◌∷◌,
  ◌++◌, map, ltb, leb, ◌==◌, ◌=ₛ◌, if◌then◌else◌, length, or_else, Outcome, ok, err, raise_if,
  ◌>>=◌, ◌>>◌,
}
mod Texts
pub use Texts.*
pub mod Project
mod Plan
mod Constrained
mod Valid
mod Types
mod Trip
mod Examples

pub record Field : Type 0 where
  pub key : String
  pub label : String
  pub type : String
  pub required : Bool
  pub identity : Bool
  pub fingerprint : Bool
  pub description : String

pub data FieldError : Type 0 where
  too_many_fields bad_key bad_label bad_description unknown_type optional_identity : FieldError
  no_fields bad_identity_count bad_fingerprint_count : FieldError

abbrev pub field_types : List String
field_types =
    "string" ∷ "number" ∷ "integer" ∷ "boolean" ∷ "date" ∷ "datetime" ∷ "url" ∷ "html" ∷ "object"
    ∷ "array" ∷ []

unfoldable pub is_field_type : String → Bool
is_field_type t = is_one_of t field_types

-- the checks on one field, where `keys` are those of the fields before it
unfoldable pub check_field : List String → Field → Outcome FieldError (Unit {0})
check_field keys f = do
  raise_if (not (is_key f.key) || is_one_of f.key keys) bad_key
  raise_if (is_blank f.label || ltb 100 (count f.label)) bad_label
  raise_if (ltb 2000 (count f.description)) bad_description
  raise_if (not (is_field_type f.type)) unknown_type
  raise_if (f.identity && not f.required) optional_identity

unfoldable pub check_fields : List String → List Field → Outcome FieldError (Unit {0})
check_fields keys [] = ok tt
check_fields keys (f ∷ fs) = check_field keys f >> check_fields (f.key ∷ keys) fs

unfoldable pub validate_field_draft : List Field → Outcome FieldError (Unit {0})
validate_field_draft fields =
    raise_if (ltb 100 (length fields)) too_many_fields >> check_fields [] fields

-- on the types of fields
abbrev pub json_schema_type : String → String
json_schema_type t =
    if is_one_of t ("integer" ∷ "number" ∷ "boolean" ∷ "object" ∷ "array" ∷ []) then t else "string"

pub data SchemaType : Type 0 where
  single : String → SchemaType
  several : List String → SchemaType

-- a property of a JSON schema
pub record Definition : Type 0 where
  pub type : SchemaType
  pub title : String
  pub min_length : Option ℕ
  pub format : Option String
  pub description : Option String

pub record Schema : Type 0 where
  pub properties : List (String × Definition)
  pub required : List String

abbrev pub keys_where : (Field → Bool) → List Field → List String
keys_where p [] = []
keys_where p (f ∷ fs) = if p f then f.key ∷ keys_where p fs else keys_where p fs

-- the "format" of a field's type
abbrev pub format_of : String → Option String
format_of t =
    if t =ₛ "date"
    then some "date"
    else if t =ₛ "datetime"
    then some "date-time"
    else if t =ₛ "url"
    then some "uri"
    else none

abbrev pub definition_of : Field → Definition
definition_of f = record {
  type =
      if f.required
      then single (json_schema_type f.type)
      else several (json_schema_type f.type ∷ "null" ∷ []);
  title = f.label;
  min_length = if f.required && (json_schema_type f.type =ₛ "string") then some 1 else none;
  format = format_of f.type;
  description = if f.description =ₛ "" then none else some f.description;
}

abbrev pub schema_of : List Field → Schema
schema_of fields = record {
  properties = map (λ f. (f.key, definition_of f)) fields;
  required = keys_where (λ f. f.required) fields;
}

pub record Contract : Type 0 where
  pub fields : List Field
  pub schema : Schema
  pub identity_fields : List String
  pub fingerprint_fields : List String
  pub digest : String

module _ (digest : Schema → List String → List String → String) where
  abbrev pub contract_of : List Field → Contract
  contract_of fields =
      let identity = keys_where (λ f. f.identity) fields in
      let fingerprint = keys_where (λ f. f.fingerprint) fields in
      record {
        fields = fields;
        schema = schema_of fields;
        identity_fields = identity;
        fingerprint_fields = fingerprint;
        digest = digest (schema_of fields) identity fingerprint;
      }

  unfoldable pub build_collection_version_contract : List Field → Outcome FieldError Contract
  build_collection_version_contract fields = do
    validate_field_draft fields
    raise_if (length fields == 0) no_fields
    let identity = length (keys_where (λ f. f.identity) fields)
    raise_if (not (leb 1 identity && leb identity 16)) bad_identity_count
    let fingerprint = length (keys_where (λ f. f.fingerprint) fields)
    raise_if (not (leb 1 fingerprint && leb fingerprint 64)) bad_fingerprint_count
    ok (contract_of fields)

-- an extraction rule of a stage
pub record Rule : Type 0 where
  pub label : String
  pub required : Bool
  pub value_type : String
  pub on_error : String
  pub datetime_format : Option String
  pub default_timezone : Option String

-- the value type that a rule must have for a field's type
abbrev pub rule_type : String → String
rule_type t =
    if t =ₛ "date" then "string" else if (t =ₛ "object") || (t =ₛ "array") then "json" else t

-- what `constrain_rule_plan` makes of the rule that a stage has for a field
abbrev pub constrain_rule : Field → Rule → Rule
constrain_rule f rule =
    let timed = f.type =ₛ "datetime" in
    record {
      label = prefix 64 f.label;
      required = f.required;
      value_type = rule_type f.type;
      on_error = if f.required then "reject_item" else "null";
      datetime_format = if timed then some (or_else rule.datetime_format "RFC3339") else none;
      default_timezone = if timed then some (or_else rule.default_timezone "UTC") else none;
    }
