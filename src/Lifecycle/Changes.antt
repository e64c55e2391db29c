-- ===== src/Lifecycle/Changes.antt =====
-- The fields in which two contracts differ, as a plan shows them and a person confirms them.
use extrio.Base.{
  String, Bool, true, false, ◌&&◌, ◌||◌, not, Option, none, some, List, [], ◌∷◌, ◌++◌, ◌=ₛ◌,
  if◌then◌else◌,
}
use extrio.Base.Same.{String_discrete, holds}
use extrio.Worker.Values.{insert}
use extrio.Fields.{Field}

-- A field of the one contract or the other that is not the same in both.
pub record FieldChange : Type 0 where
  pub key : String
  pub before : Option Field
  pub after : Option Field
  pub breaking : Bool

pub Field_discrete : Discrete Field
Field_discrete = hlevel String_discrete

abbrev same_field : Option Field → Option Field → Bool
same_field none none = true
same_field (some a) (some b) = holds (Field_discrete a b)
same_field _ _ = false

-- {field["key"]: field for field in fields}.get(key)
abbrev field_at : String → List Field → Option Field
field_at k [] = none
field_at k (f ∷ fs) = elim (field_at k fs) as (λ _. Option Field) [
  | some g ↦ some g
  | none ↦ if f.key =ₛ k then some f else none
]

abbrev same_flag : Bool → Bool → Bool
same_flag true b = b
same_flag false b = not b

abbrev is_breaking : Option Field → Option Field → Bool
is_breaking none none = false
is_breaking none (some new) = new.required
is_breaking (some old) none = true
is_breaking (some old) (some new) =
    not (old.type =ₛ new.type)
    || not (same_flag old.identity new.identity)
    || not (same_flag old.fingerprint new.fingerprint)
    || (new.required && not old.required)

abbrev field_keys : List Field → List String
field_keys [] = []
field_keys (f ∷ fs) = insert f.key (field_keys fs)

abbrev changes_at : List String → List Field → List Field → List FieldChange
changes_at [] before after = []
changes_at (k ∷ ks) before after =
    let rest = changes_at ks before after in
    if same_field (field_at k before) (field_at k after)
    then rest
    else record {
      key = k;
      before = field_at k before;
      after = field_at k after;
      breaking = is_breaking (field_at k before) (field_at k after);
    }
      ∷ rest

unfoldable pub field_changes : List Field → List Field → List FieldChange
field_changes before after = changes_at (field_keys (before ++ after)) before after
