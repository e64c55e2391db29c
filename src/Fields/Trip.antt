-- ===== src/Fields/Trip.antt =====
-- From the draft of a collection to the rule of a source, and back.
use Prim.Native.String.{count}
use text.Mathlib.Text.{starts_with}
use extrio.Base.{
  differ_sym, String, ◌≡◌, ◌≤◌, refl, ap, subst, sym, inl, inr, Bool, true, false, Bool-cases, none,
  some, List, [], ◌∷◌, ◌++◌, map, ◌=ₛ◌, ◌∙◌, eq_iff, or_else, if◌then◌else◌, arith, All, ok,
}
use extrio.Fields.{
  Field, Definition, Rule, Contract, Schema, is_one_of, prefix, blank_empty, prefix_all, keys_where,
  definition_of, constrain_rule, contract_of, build_collection_version_contract,
}
use extrio.Fields.Valid.{IsSound, AreFresh, build_iff}
use extrio.Fields.Types.{type-ComesBack}
use extrio.Fields.Project.{
  GatherSpec, Source, lookup, field_of, value_type, label_of, truthy, spec_fields,
  project_source_contract,
}

-- no field with the key
abbrev pub Lacks : String → List Field → Type 0
Lacks k fields = All (λ g. (g.key =ₛ k) ≡ false) fields

pub fresh-Lacks :
    (k : String) (keys : List String) (fields : List Field)
    → is_one_of k keys ≡ true
    → AreFresh keys fields
    → Lacks k fields
fresh-Lacks k keys [] m h = tt
fresh-Lacks k keys (f ∷ fs) m (h, hs) = elim (Bool-cases (f.key =ₛ k)) [
  | inl y ↦ cc (subst (λ x. is_one_of x keys ≡ false) ((eq_iff f.key k).0 y) h, m)
  | inr n ↦ (n, fresh-Lacks k (f.key ∷ keys) fs (ground (arith, m)) hs)
]

unlisted :
    (p : Field → Bool) (k : String) (fields : List Field)
    → Lacks k fields
    → is_one_of k (keys_where p fields) ≡ false
unlisted p k [] h = refl
unlisted p k (f ∷ fs) (h, hs) = ground (arith, differ_sym f.key k h, unlisted p k fs hs)

-- A key is listed exactly where its field satisfies the test: keys are distinct.
listed :
    (p : Field → Bool) (keys : List String) (fields : List Field)
    → AreFresh keys fields
    → All (λ f. is_one_of f.key (keys_where p fields) ≡ p f) fields
listed p keys [] h = tt
listed p keys (f ∷ fs) (h, hs) =
    let lacks = fresh-Lacks f.key (f.key ∷ keys) fs (rw ((eq_iff f.key f.key).1 refl)) hs in
    (
      ground (arith, unlisted p f.key fs lacks, (eq_iff f.key f.key).1 refl),
      others fs lacks (listed p (f.key ∷ keys) fs hs),
    )
  where
    others :
        (gs : List Field)
        → Lacks f.key gs
        → All (λ g. is_one_of g.key (keys_where p fs) ≡ p g) gs
        → All (λ g. is_one_of g.key (keys_where p (f ∷ fs)) ≡ p g) gs
    others [] l a = tt
    others (g ∷ gs) (l, ls) (a, bs) = (ground (arith, l, a), others gs ls bs)

-- The rules of a spec have, for each field, a rule that was constrained to it.
abbrev pub AreConstrained : List (String × Rule) → List Field → Type 0
AreConstrained rules = All (λ f. (r : Rule) × (lookup f.key rules ≡ some (constrain_rule f r)))

description_comes_back : (t : String) → or_else (if t =ₛ "" then none else some t) "" ≡ t
description_comes_back t = elim (Bool-cases (t =ₛ "")) [
  | inl y ↦ rw y (sym ((eq_iff t "").0 y))
  | inr n ↦ rw n
]

field_comes_back :
    (spec : GatherSpec) (f : Field) (r : Rule)
    → IsSound f
    → count f.label ≤ 64
    → starts_with spec.collection_version_id "colver_" ≡ true
    → lookup f.key (spec.detail_rules ++ spec.list_rules) ≡ some (constrain_rule f r)
    → is_one_of f.key spec.contract.schema.required ≡ f.required
    → is_one_of f.key spec.contract.identity_fields ≡ f.identity
    → is_one_of f.key spec.contract.fingerprint_fields ≡ f.fingerprint
    → field_of spec f.key (definition_of f) ≡ f
field_comes_back spec f r sound short versioned found a b c =
    let rule = constrain_rule f r in
    let d = definition_of f in
    let long : prefix 64 f.label ≡ f.label = prefix_all 64 f.label short in
    let label : label_of f.key (some rule) d ≡ f.label =
      rw (long, label_of, blank_empty f.label sound.labelled) in
    let type : value_type true (some rule) d ≡ f.type =
      type-ComesBack f.required f.type sound.typed in
    let description : or_else d.description "" ≡ f.description =
      description_comes_back f.description in
    cc (label, type, description, found, a, b, c)

-- The fields of a list of definitions, each of which comes back.
each_back :
    (spec : GatherSpec) (fields : List Field)
    → All IsSound fields
    → All (λ f. count f.label ≤ 64) fields
    → starts_with spec.collection_version_id "colver_" ≡ true
    → AreConstrained (spec.detail_rules ++ spec.list_rules) fields
    → All (λ f. is_one_of f.key spec.contract.schema.required ≡ f.required) fields
    → All (λ f. is_one_of f.key spec.contract.identity_fields ≡ f.identity) fields
    → All (λ f. is_one_of f.key spec.contract.fingerprint_fields ≡ f.fingerprint) fields
    → map {A = String × Definition}
        (λ p. field_of spec p.0 p.1)
        (map (λ f. (f.key, definition_of f)) fields)
      ≡ fields
each_back spec [] ss ls v rs qs is fs = refl
each_back spec (f ∷ gs) (s, ss) (l, ls) v ((r, e), rs) (q, qs) (i, is) (p, ps) =
    let one = field_comes_back spec f r s l v e q i p in
    let others = each_back spec gs ss ls v rs qs is ps in cc (one, others)

module _ (digest : Schema → List String → List String → String) where
  -- Where a version was published from a draft whose labels have at most 64 characters, and a source
  -- runs, or has as its candidate, a rule of that version with a rule constrained to each field, the
  -- fields read back from the source's rule are those of the draft: the keys, labels, types, flags and
  -- descriptions, in their order.
  pub fields_come_back :
      (fields : List Field) (c : Contract) (s : Source) (spec : GatherSpec)
      → build_collection_version_contract digest fields ≡ ok c
      → All (λ f. count f.label ≤ 64) fields
      → (if truthy s.active_rule_version then s.version_spec else s.candidate_spec) ≡ some spec
      → spec.contract ≡ c
      → starts_with spec.collection_version_id "colver_" ≡ true
      → AreConstrained (spec.detail_rules ++ spec.list_rules) fields
      → (project_source_contract s).fields ≡ fields
  unfolding project_source_contract
  fields_come_back fields c s spec built labels runs of_version versioned constrained =
      let (p, e) = (build_iff digest fields c).0 built in
      let same : spec.contract ≡ contract_of digest fields = of_version ∙ e in
      let required : All (λ f. is_one_of f.key spec.contract.schema.required ≡ f.required) fields =
        rw same (listed (λ f. f.required) [] fields p.distinct) in
      let identity : All (λ f. is_one_of f.key spec.contract.identity_fields ≡ f.identity) fields =
        rw same (listed (λ f. f.identity) [] fields p.distinct) in
      let fingerprint : All (λ f. is_one_of f.key spec.contract.fingerprint_fields ≡ f.fingerprint)
          fields =
        rw same (listed (λ f. f.fingerprint) [] fields p.distinct) in
      let back =
        each_back spec fields p.sound labels versioned constrained required identity fingerprint in
      let properties = ap (λ k. k.schema.properties) (sym same) in
      let all : spec_fields (some spec) ≡ fields =
        subst (λ ps. map {A = String × Definition} (λ p. field_of spec p.0 p.1) ps ≡ fields)
          properties back in
      rw runs all
