-- ===== src/Fields/Types.antt =====
-- The type of a field, through its schema and its rule and back.
use extrio.Base.{
  String, ◌≡◌, refl, subst, sym, inl, inr, Bool, true, false, ◌&&◌, Bool-cases, List, [], ◌∷◌, ◌=ₛ◌,
  eq_iff, if◌then◌else◌, arith,
}
use extrio.Fields.{
  SchemaType, single, several, field_types, is_field_type, is_one_of, json_schema_type, format_of,
  rule_type,
}
use extrio.Fields.Project.{schema_type, formatted}

module _ {ℓ} (P : String → Type ℓ) where
  -- the predicate at each member of a list
  abbrev AtEach : List String → Type ℓ
  AtEach [] = Unit
  AtEach (k ∷ ks) = P k × AtEach ks

  one_of-at : (ks : List String) (t : String) → AtEach ks → is_one_of t ks ≡ true → P t
  one_of-at [] t h e = cc e
  one_of-at (k ∷ ks) t (h, hs) e = elim (Bool-cases (t =ₛ k)) [
    | inl y ↦ subst P (sym ((eq_iff t k).0 y)) h
    | inr n ↦ one_of-at ks t hs (ground (arith, e, n))
  ]

abbrev schema_entry : Bool → String → SchemaType
schema_entry required t =
    if required then single (json_schema_type t) else several (json_schema_type t ∷ "null" ∷ [])

-- A field's type is what its schema, its format and the value type of its rule stand for.
abbrev pub ComesBack : Bool → String → Type 0
ComesBack required t =
    let schema = schema_type (schema_entry required t) in
    formatted (format_of t)
      (if (schema =ₛ "string") && (rule_type t =ₛ "html") then "html" else schema)
    ≡ t

abbrev ComesBackBoth : String → Type 0
ComesBackBoth t = ComesBack true t × ComesBack false t

each_comes_back : AtEach ComesBackBoth field_types
each_comes_back = (r, (r, (r, (r, (r, (r, (r, (r, (r, (r, tt))))))))))
  where
    r : {t : String} → (t ≡ t) × (t ≡ t)
    r = (refl, refl)

pub type-ComesBack : (required : Bool) (t : String) → is_field_type t ≡ true → ComesBack required t
unfolding is_field_type
type-ComesBack true t e = (one_of-at ComesBackBoth field_types t each_comes_back e).0
type-ComesBack false t e = (one_of-at ComesBackBoth field_types t each_comes_back e).1
