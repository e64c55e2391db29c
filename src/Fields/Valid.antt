-- ===== src/Fields/Valid.antt =====
-- Which drafts are accepted, and which of them give a version.
use Prim.Native.String.{count}
use extrio.Base.{
  String, ◌≡◌, ◌↔◌, ◌≤◌, refl, Bool, true, false, List, [], ◌∷◌, ◌==◌, length, arith, All, ok,
}
use extrio.Fields.{
  Field, is_field_type, check_field, check_fields, validate_field_draft, Schema, Contract,
  keys_where, contract_of, build_collection_version_contract, is_key, is_blank, is_one_of,
}

-- A field that a person may ask for.
pub record IsSound (f : Field) : Type 0 where
  pub named : is_key f.key ≡ true
  pub labelled : is_blank f.label ≡ false
  pub short_label : count f.label ≤ 100
  pub short_description : count f.description ≤ 2000
  pub typed : is_field_type f.type ≡ true
  pub identifies : (f.identity ≡ true) → f.required ≡ true

-- no key of the fields is among the given ones, or stands twice
abbrev pub AreFresh : List String → List Field → Type 0
AreFresh keys [] = Unit
AreFresh keys (f ∷ fs) = (is_one_of f.key keys ≡ false) × AreFresh (f.key ∷ keys) fs

check_field_iff :
    (keys : List String) (f : Field)
    → (check_field keys f ≡ ok tt) ↔ ((is_one_of f.key keys ≡ false) × IsSound f)
unfolding check_field
check_field_iff keys f = (
  λ h. (
    ground (h, arith),
    record {
      named = ground (h, arith);
      labelled = ground (h, arith);
      short_label = ground (h, arith);
      short_description = ground (h, arith);
      typed = ground (h, arith);
      identifies = λ i. ground (h, i, arith);
    },
  ),
  λ (a, h).
      ground
        (a, h.named, h.labelled, h.short_label, h.short_description, h.typed, h.identifies, arith),
)

pub check_fields_iff :
    (keys : List String) (fields : List Field)
    → (check_fields keys fields ≡ ok tt) ↔ (AreFresh keys fields × All IsSound fields)
unfolding check_fields
check_fields_iff keys [] = (λ h. (tt, tt), λ h. refl)
check_fields_iff keys (f ∷ fs) =
    let one = check_field_iff keys f in
    let others = check_fields_iff (f.key ∷ keys) fs in
    (
      λ h.
          let (a, s) = one.0 (ground (h, arith)) in
          let (b, ss) = others.0 (ground (h, arith)) in ((a, b), (s, ss)),
      λ ((a, b), (s, ss)). rw (one.1 (a, s), others.1 (b, ss)),
    )

length-keys_where :
    (p : Field → Bool) (fields : List Field) → length (keys_where p fields) ≤ length fields
length-keys_where p [] = omega arith
length-keys_where p (f ∷ fs) = ground (arith, length-keys_where p fs)

-- what a draft must be for a version to be published from it
pub record IsPublishable (fields : List Field) : Type 0 where
  pub few : length fields ≤ 100
  pub sound : All IsSound fields
  pub distinct : AreFresh [] fields
  pub identified : 1 ≤ length (keys_where (λ f. f.identity) fields)
  pub few_identities : length (keys_where (λ f. f.identity) fields) ≤ 16
  pub fingerprinted : 1 ≤ length (keys_where (λ f. f.fingerprint) fields)
  pub few_fingerprints : length (keys_where (λ f. f.fingerprint) fields) ≤ 64

module _ (digest : Schema → List String → List String → String) where
  pub build_iff :
      (fields : List Field) (c : Contract)
      → (build_collection_version_contract digest fields ≡ ok c)
        ↔ (IsPublishable fields × (c ≡ contract_of digest fields))
  unfolding build_collection_version_contract validate_field_draft
  build_iff fields c =
      let checked = check_fields_iff [] fields in
      (
        λ h.
            let (fresh, sound) = checked.0 (ground (h, arith)) in
            (
              record {
                few = ground (h, arith);
                sound = sound;
                distinct = fresh;
                identified = ground (h, arith);
                few_identities = ground (h, arith);
                fingerprinted = ground (h, arith);
                few_fingerprints = ground (h, arith);
              },
              ground (h, arith),
            ),
        λ (p, e).
            let some_field : (length fields == 0) ≡ false =
              ground (arith, p.identified, length-keys_where (λ f. f.identity) fields) in
            ground (
              arith,
              checked.1 (p.distinct, p.sound),
              some_field,
              p.few,
              p.identified,
              p.few_identities,
              p.fingerprinted,
              p.few_fingerprints,
              e,
            ),
      )
