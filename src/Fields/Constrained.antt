-- ===== src/Fields/Constrained.antt =====
-- What `constrain_rule_plan` leaves of the rules of a plan, and what a source then says of its fields.
use Prim.Native.String.{count}
use text.Mathlib.Text.{starts_with}
use mathlib.Core.Option.{map as map_option}
use extrio.Base.{
  differ_sym, ◌≤◌, ok, String, ◌≡◌, refl, ap, subst, sym, inl, inr, Bool, true, false, Bool-cases,
  Option-cases, Option, none, some, List, [], ◌∷◌, ◌++◌, all, All, ◌=ₛ◌, eq_iff, if◌then◌else◌,
  is_some, arith,
}
use extrio.Fields.{Field, Contract, Schema, Rule, constrain_rule, build_collection_version_contract}
use extrio.Fields.Valid.{AreFresh, build_iff}
use extrio.Fields.Trip.{AreConstrained, fields_come_back, Lacks, fresh-Lacks}
use extrio.Fields.Project.{lookup, GatherSpec, Source, truthy, project_source_contract}
use extrio.Fields.Plan.{
  Plan, find_field, keep_list_date, is_kept, constrain_stage, stage_rules, constrained,
  constrain_rule_plan,
}

lookup-append :
    (k : String) (ps qs : List (String × Rule))
    → lookup k (ps ++ qs)
      ≡ (elim (lookup k ps) as (λ _. Option Rule) [ none ↦ lookup k qs | some r ↦ some r ])
lookup-append k [] qs = refl
lookup-append k (p ∷ ps) qs = ground (arith, lookup-append k ps qs)

-- where a stage has a rule for a field, it is constrained to the field
lookup-constrain_stage :
    (fields : List Field) (kept : String → Bool) (k : String) (f : Field)
    (ps : List (String × Rule))
    → find_field k fields ≡ some f
    → lookup k (constrain_stage fields kept ps) ≡ map_option (constrain_rule f) (lookup k ps)
unfolding constrain_stage
lookup-constrain_stage fields kept k f [] e = refl
lookup-constrain_stage fields kept k f (p ∷ ps) e =
    let rest = lookup-constrain_stage fields kept k f ps e in
    elim (Bool-cases (p.0 =ₛ k)) [
      | inl y ↦
          let found = subst (λ x. find_field x fields ≡ some f) (sym ((eq_iff p.0 k).0 y)) e in
          ground (arith, y, found)
      | inr n ↦ elim (Option-cases (find_field p.0 fields)) [
        | inl h ↦ ground (arith, n, h, rest)
        | inr (g, h) ↦ ground (arith, n, h, rest)
      ]
    ]

find_each :
    (keys : List String) (fields : List Field)
    → AreFresh keys fields
    → All (λ f. find_field f.key fields ≡ some f) fields
find_each keys [] h = tt
find_each keys (f ∷ fs) (h, hs) =
    let here = (eq_iff f.key f.key).1 refl in
    (
      rw here,
      later fs (fresh-Lacks f.key (f.key ∷ keys) fs (rw here) hs) (find_each (f.key ∷ keys) fs hs),
    )
  where
    later :
        (gs : List Field)
        → Lacks f.key gs
        → All (λ g. find_field g.key fs ≡ some g) gs
        → All (λ g. find_field g.key (f ∷ fs) ≡ some g) gs
    later [] l a = tt
    later (g ∷ gs) (l, ls) (a, bs) = (ground (arith, differ_sym g.key f.key l, a), later gs ls bs)

-- `all` over a list, at each member
all-each :
    (p : Field → Bool) (fields : List Field) → all p fields ≡ true → All (λ f. p f ≡ true) fields
all-each p [] h = tt
all-each p (f ∷ fs) h = (ground (arith, h), all-each p fs (ground (arith, h)))

some_of : {A : Type 0} (o : Option A) → is_some o ≡ true → (a : A) × (o ≡ some a)
some_of none h = cc h
some_of (some a) h = (a, refl)

constrained_at :
    (fields : List Field) (k1 k2 : String → Bool) (ds ls : List (String × Rule)) (f : Field)
    → find_field f.key fields ≡ some f
    → is_some (lookup f.key (ds ++ ls)) ≡ true
    → (r : Rule) × (lookup f.key (constrain_stage fields k1 ds ++ constrain_stage fields k2 ls)
        ≡ some (constrain_rule f r))
constrained_at fields k1 k2 ds ls f found has =
    let first = lookup-constrain_stage fields k1 f.key f ds found in
    let second = lookup-constrain_stage fields k2 f.key f ls found in
    let raw = lookup-append f.key ds ls in
    let joined =
      lookup-append f.key (constrain_stage fields k1 ds) (constrain_stage fields k2 ls) in
    elim (Option-cases (lookup f.key ds)) [
      | inl n ↦
          let (r, e) = some_of (lookup f.key ls) (ground (arith, has, raw, n)) in
          (r, ground (arith, joined, first, second, n, e))
      | inr (r, e) ↦ (r, ground (arith, joined, first, e))
    ]

each-AreConstrained :
    (fields : List Field) (k1 k2 : String → Bool) (ds ls : List (String × Rule)) (gs : List Field)
    → All (λ g. find_field g.key fields ≡ some g) gs
    → All (λ g. is_some (lookup g.key (ds ++ ls)) ≡ true) gs
    → AreConstrained (constrain_stage fields k1 ds ++ constrain_stage fields k2 ls) gs
each-AreConstrained fields k1 k2 ds ls [] a b = tt
each-AreConstrained fields k1 k2 ds ls (g ∷ gs) (a, rest) (b, has) =
    (constrained_at fields k1 k2 ds ls g a b, each-AreConstrained fields k1 k2 ds ls gs rest has)

-- the rules that the stages of a plan have after it was constrained
constrained_rules :
    (fields : List Field) (b : Bool) (k1 k2 : String → Bool) (ds ls : List (String × Rule))
    (gs : List Field)
    → All (λ g. find_field g.key fields ≡ some g) gs
    → All (λ g. is_some (lookup g.key ((if b then ds else []) ++ ls)) ≡ true) gs
    → AreConstrained
        ((if b then if b then constrain_stage fields k1 ds else ds else [])
          ++ constrain_stage fields k2 ls)
        gs
unfolding constrain_stage
constrained_rules fields true k1 k2 ds ls gs = each-AreConstrained fields k1 k2 ds ls gs
constrained_rules fields false k1 k2 ds ls gs = each-AreConstrained fields k1 k2 [] ls gs

-- Where a plan passes, each field of the version has a rule that is constrained to it.
pub constrained_plan :
    (proposed plan : Plan) (version : Contract)
    → AreFresh [] version.fields
    → constrain_rule_plan proposed version ≡ some plan
    → AreConstrained (stage_rules plan) version.fields
unfolding constrain_rule_plan
constrained_plan proposed plan version distinct h =
    let fields = version.fields in
    let p = keep_list_date fields proposed in
    let found = find_each [] fields distinct in
    elim (Bool-cases (all (λ f. is_some (lookup f.key (stage_rules p))) fields)) [
      | inl y ↦
          let has = all-each (λ f. is_some (lookup f.key (stage_rules p))) fields y in
          let rules =
            constrained_rules fields p.is_list_detail (λ _. false) (is_kept p) p.detail_rules
              p.list_rules fields found has in
          let same : constrained version p ≡ plan = ground (arith, h, y) in
          subst (λ q. AreConstrained (stage_rules q) fields) same rules
      | inr n ↦ cc (rw n at h)
    ]

module _ (digest : Schema → List String → List String → String) where
  -- Where a version is published from a draft whose labels have at most 64 characters, a proposed plan
  -- is constrained to the version, and a source runs, or has as its candidate, a rule with the
  -- version's contract and the plan's rules, then the fields read back from the source's rule are those
  -- of the draft: keys, labels, types, flags and descriptions, in their order, whatever was proposed.
  pub draft_comes_back :
      (fields : List Field) (c : Contract) (proposed plan : Plan) (s : Source) (spec : GatherSpec)
      → build_collection_version_contract digest fields ≡ ok c
      → constrain_rule_plan proposed c ≡ some plan
      → All (λ f. count f.label ≤ 64) fields
      → (if truthy s.active_rule_version then s.version_spec else s.candidate_spec) ≡ some spec
      → spec.contract ≡ c
      → spec.detail_rules ++ spec.list_rules ≡ stage_rules plan
      → starts_with spec.collection_version_id "colver_" ≡ true
      → (project_source_contract s).fields ≡ fields
  draft_comes_back fields c proposed plan s spec built planned labels runs of_version rules
        versioned =
      let (p, e) = (build_iff digest fields c).0 built in
      let same : c.fields ≡ fields = ap (λ k. k.fields) e in
      let distinct : AreFresh [] c.fields = rw same p.distinct in
      let constrained_to = constrained_plan proposed plan c distinct planned in
      let for_fields : AreConstrained (spec.detail_rules ++ spec.list_rules) fields =
        rw rules (subst (AreConstrained (stage_rules plan)) same constrained_to) in
      fields_come_back digest fields c s spec built labels runs of_version versioned for_fields
