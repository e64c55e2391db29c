-- ===== src/Worker/Unchanged.antt =====
-- When an item counts as unchanged.
use mathlib.Core.List.{append-nil}
use extrio.Base.{
  if◌then◌else◌, Bool-cases, any, ◌+◌, String, ◌≡◌, refl, sym, ap, subst, ◌∙◌, ◌↔◌, inl, inr, Bool,
  true, false, Option, none, some, List, [], ◌∷◌, ◌++◌, arith, ◌=ₛ◌, eq_iff,
}
use extrio.Worker.Values.{
  Value, Item, value_at, is_empty, project, revision_fields, revision_values, precedes, insert,
  sorted_keys, canonical, changes_of, changes, other,
}
use extrio.Worker.Classify.{is_accepted, latest_of, revision_or, compared, classify_item}

abbrev has : String → List String → Bool
has g ks = any (λ k. k =ₛ g) ks

insert_lacks :
    (f g : String) (ks : List String)
    → has g (insert f ks) ≡ false
    → (f =ₛ g) ≡ false × (has g ks ≡ false)
insert_lacks f g [] h = (ground (arith, h), refl)
insert_lacks f g (k ∷ ks) h = elim (Bool-cases (f =ₛ k)) [
  | inl y ↦ let same = (eq_iff f k).0 y in (rw same (ground (arith, h, y)), ground (arith, h, y))
  | inr n ↦ elim (Bool-cases (precedes f k)) [
    | inl z ↦ (ground (arith, h, n, z), ground (arith, h, n, z))
    | inr z ↦
        let (a, b) = insert_lacks f g ks (ground (arith, h, n, z)) in
        (a, ground (arith, h, n, z, b))
  ]
]

-- a field that is no key has no value
keys_lack :
    (g : String) (ps qs : List (String × Value))
    → has g (sorted_keys (ps ++ qs)) ≡ false
    → (value_at g ps ≡ other "null") × (has g (sorted_keys qs) ≡ false)
keys_lack g [] qs h = (refl, h)
keys_lack g (p ∷ ps) qs h =
    let (n, rest) = insert_lacks p.0 g (sorted_keys (ps ++ qs)) h in
    let (v, k) = keys_lack g ps qs rest in (ground (arith, n, v), k)

-- The value of a field that counts for an item: of its extracted data, where it has any, if the field is
-- declared as part of the fingerprint or none is; otherwise of its own columns, if it is one of the six
-- revision fields. A field that does not count, or that is missing, has the value null.
abbrev pub counted_value : List String → Item → String → Value
counted_value fingerprint_fields item f =
    if is_empty item.extracted_data
    then (if has f revision_fields then value_at f item.columns else other "null")
    else if is_empty fingerprint_fields
    then value_at f item.extracted_data
    else if has f fingerprint_fields
    then value_at f item.extracted_data
    else other "null"

value_at-project :
    (f : String) (fs : List String) (values : List (String × Value))
    → value_at f (project fs values) ≡ (if has f fs then value_at f values else other "null")
value_at-project f [] values = refl
value_at-project f (g ∷ fs) values = elim (Bool-cases (g =ₛ f)) [
  | inl y ↦ rw y (ap (λ k. value_at k values) ((eq_iff g f).0 y))
  | inr n ↦ rw n (value_at-project f fs values)
]

value_at-revision_values :
    (fingerprint_fields : List String) (item : Item) (f : String)
    → value_at f (revision_values fingerprint_fields item) ≡ counted_value fingerprint_fields item f
unfolding revision_values
value_at-revision_values fs item f = elim (Bool-cases (is_empty item.extracted_data)) [
  | inl y ↦ rw y (value_at-project f revision_fields item.columns)
  | inr n ↦ elim (Bool-cases (is_empty fs)) [
    | inl z ↦ rw (n, z) refl
    | inr z ↦ rw (n, z) (value_at-project f fs item.extracted_data)
  ]
]

is_updated : Option String → Bool
is_updated none = false
is_updated (some s) = s =ₛ "updated"

updated_differs : ◌≡◌ {A = Option String} (some "updated") (some "unchanged") → ⊥
unfolding is_updated
updated_differs e = let b : true ≡ false = ap is_updated e in cc b

module _ (quote : String → String) where
  same_at_keys :
      (ks : List String) (before after : List (String × Value))
      → is_empty (changes_of quote ks before after) ≡ true
      → (g : String) → has g ks ≡ true
      → canonical quote (value_at g before) ≡ canonical quote (value_at g after)
  same_at_keys [] before after h g m = cc m
  same_at_keys (k ∷ ks) before after h g m =
      elim (Bool-cases
        (canonical quote (value_at k before) =ₛ canonical quote (value_at k after))) [
          | inr n ↦ absurd (ground (arith, h, n))
          | inl y ↦ elim (Bool-cases (k =ₛ g)) [
            | inl z ↦
                subst
                  (λ x. canonical quote (value_at x before) ≡ canonical quote (value_at x after))
                  ((eq_iff k g).0 z) ((eq_iff _ _).0 y)
            | inr z ↦ same_at_keys ks before after (ground (arith, h, y)) g (ground (arith, m, z))
          ]
        ]

  none_differ :
      (ks : List String) (before after : List (String × Value))
      → ((g : String) → canonical quote (value_at g before) ≡ canonical quote (value_at g after))
      → is_empty (changes_of quote ks before after) ≡ true
  none_differ [] before after h = refl
  none_differ (k ∷ ks) before after h =
      ground (arith, none_differ ks before after h, (eq_iff _ _).1 (h k))

  no_changes_iff :
      (before after : List (String × Value))
      → (is_empty (changes quote before after) ≡ true)
        ↔ ((g : String) → canonical quote (value_at g before) ≡ canonical quote (value_at g after))
  unfolding changes
  no_changes_iff before after =
      let keys = sorted_keys (before ++ after) in
      (
        λ h g. elim (Bool-cases (has g keys)) [
          | inl y ↦ same_at_keys keys before after h g y
          | inr n ↦
              let (a, rest) = keys_lack g before after n in
              let (b, _) = keys_lack g after [] (rw (append-nil after) rest) in
              ap (canonical quote) (a ∙ sym b)
        ],
        λ h. none_differ keys before after h,
      )

  agree_iff :
      (fs : List String) (a b : Item)
      → (is_empty (changes quote (revision_values fs a) (revision_values fs b)) ≡ true) ↔ (
          (g : String)
          → canonical quote (counted_value fs a g) ≡ canonical quote (counted_value fs b g))
  agree_iff fs a b =
      let iff = no_changes_iff (revision_values fs a) (revision_values fs b) in
      (
        λ y g. sym (value_of fs a g) ∙ (iff.0 y g ∙ value_of fs b g),
        λ agree. iff.1 (λ g. value_of fs a g ∙ (agree g ∙ sym (value_of fs b g))),
      )
    where
      value_of :
          (fs : List String) (x : Item) (g : String)
          → canonical quote (value_at g (revision_values fs x))
            ≡ canonical quote (counted_value fs x g)
      value_of fs x g = ap (canonical quote) (value_at-revision_values fs x g)

  module _ (fingerprint_fields : List String) where
    -- An accepted item that follows an accepted one of its source and key counts as unchanged exactly
    -- when every field that counts has the same canonical JSON in both, and then keeps the revision
    -- before it (one, where there was none); otherwise it counts as updated, with the next revision.
    -- The fields that count are the declared fingerprint fields of the extracted data, or all of them
    -- where none is declared, and the revision fields of an item without extracted data.
    pub classify_item_iff :
        (collector_id : String) (items : List Item) (previous i : Item)
        → is_accepted i ≡ true
        → latest_of collector_id i.entity_key items ≡ some previous
        → let classified = classify_item quote fingerprint_fields collector_id items i in
          let agree =
            (g : String)
            → canonical quote (counted_value fingerprint_fields previous g)
              ≡ canonical quote (counted_value fingerprint_fields i g) in
          ((classified.change_type ≡ some "unchanged") ↔ agree)
          × ((agree → classified.revision ≡ some (revision_or 1 previous.revision))
              × (¬ agree
                  → (classified.change_type ≡ some "updated")
                    × (classified.revision ≡ some (revision_or 0 previous.revision + 1))))
    unfolding compared
    classify_item_iff collector_id items previous i accepted latest =
        let before = revision_values fingerprint_fields previous in
        let after = revision_values fingerprint_fields i in
        let iff = agree_iff fingerprint_fields previous i in
        elim (Bool-cases (is_empty (changes quote before after))) [
          | inl y ↦ (
            (λ h. iff.0 y, λ agree. ground (arith, accepted, latest, y)),
            (λ agree. ground (arith, accepted, latest, y), λ differ. absurd (differ (iff.0 y))),
          )
          | inr n ↦ (
            (
              λ h. absurd (updated_differs (ground (arith, h, accepted, latest, n))),
              λ agree. cc (iff.1 agree, n),
            ),
            (
              λ agree. cc (iff.1 agree, n),
              λ differ. (ground (arith, accepted, latest, n), ground (arith, accepted, latest, n)),
            ),
          )
        ]
