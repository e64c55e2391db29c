-- ===== src/Worker/Values.antt =====
-- The values of an item's fields, and the fields in which two items differ. `quote` stands for the
-- canonical JSON of a string.
use Prim.Native.Nat.{Ordering}
use Prim.Native.String.{compare}
use extrio.Base.{if◌then◌else◌, ℕ, String, Bool, true, false, Option, List, [], ◌∷◌, ◌++◌, ◌=ₛ◌}

-- a value of JSON: a string, or any other by its canonical JSON
pub data Value : Type 0 where
  string : String → Value
  other : String → Value

pub record Change : Type 0 where
  pub field : String
  pub before : String
  pub after : String

pub record Item : Type 0 where
  pub id : String
  pub collector_id : String
  pub decision : String
  pub entity_key : String
  pub extracted_data : List (String × Value)
  pub columns : List (String × Value)  -- the item's own keys
  pub revision : Option ℕ
  pub change_type : Option String
  pub change_summary : List Change

abbrev pub value_at : String → List (String × Value) → Value
value_at f [] = other "null"
value_at f (p ∷ ps) = if p.0 =ₛ f then p.1 else value_at f ps

abbrev pub revision_fields : List String
revision_fields = "title" ∷ "publishedAt" ∷ "content" ∷ "buyer" ∷ "budget" ∷ "region" ∷ []

abbrev pub is_empty {ℓ} : {A : Type ℓ} → List A → Bool
is_empty [] = true
is_empty (x ∷ xs) = false

-- {field: values.get(field) for field in fields}
abbrev pub project : List String → List (String × Value) → List (String × Value)
project [] values = []
project (f ∷ fs) values = (f, value_at f values) ∷ project fs values

-- `_revision_values`
unfoldable pub revision_values : List String → Item → List (String × Value)
revision_values fingerprint_fields item =
    if is_empty item.extracted_data
    then project revision_fields item.columns
    else if is_empty fingerprint_fields
    then item.extracted_data
    else project fingerprint_fields item.extracted_data

abbrev pub precedes : String → String → Bool
precedes a b = elim (compare a b) [ Ordering.lt ↦ true | _ ↦ false ]

-- a sorted list without repetitions, with one more text
abbrev pub insert : String → List String → List String
insert f [] = f ∷ []
insert f (k ∷ ks) =
    let rest = insert f ks in
    if f =ₛ k then k ∷ ks else if precedes f k then f ∷ k ∷ ks else k ∷ rest

-- sorted({*values})
abbrev pub sorted_keys : List (String × Value) → List String
sorted_keys [] = []
sorted_keys (p ∷ ps) = insert p.0 (sorted_keys ps)

-- `_change_value`
abbrev pub change_value : Value → String
change_value (string s) = s
change_value (other json) = json

module _ (quote : String → String) where
  -- `canonical_bytes`
  abbrev pub canonical : Value → String
  canonical (string s) = quote s
  canonical (other json) = json

  abbrev pub changes_of : List String → List (String × Value) → List (String × Value) → List Change
  changes_of [] before after = []
  changes_of (f ∷ fs) before after =
      let rest = changes_of fs before after in
      if canonical (value_at f before) =ₛ canonical (value_at f after)
      then rest
      else record {
        field = f;
        before = change_value (value_at f before);
        after = change_value (value_at f after);
      }
        ∷ rest

  -- the changes between two items' values
  unfoldable pub changes : List (String × Value) → List (String × Value) → List Change
  changes before after = changes_of (sorted_keys (before ++ after)) before after
