-- ===== src/Property/Json/Members.antt =====
-- The members of the JSON object of a property map, of MessageProperty.cpp.
use tiny_mq.Prelude.{
  ◌≡◌, inl, inr, refl, sym, ap, subst, ◌∙◌, arith, true, none, some, [], ◌∷◌, Bytes, bytes_eq,
  bytes_eq→eq, Bool-cases, if◌then◌else◌,
}
use tiny_mq.Prelude.Maps.{none_differs, some_injective}
use tiny_mq.Message.{PropertyValue, Properties, property, set_property}
use tiny_mq.Property.{RawValue, raw_string, value_type_name, property_type, raw_value}
use tiny_mq.Property.Poco.{Poco}
use tiny_mq.Property.Json.{
  type_key, value_key, value_var, extract_value, add_properties, to_json, member_object,
}
use tiny_mq.Property.Json.Load.{IsReadable}

-- A map holds a name once, as emplace keeps it.
abbrev pub Unique : Properties → Type 0
Unique [] = Unit
Unique ((k, v) ∷ ps) = (property ps k ≡ none) × Unique ps

-- Every property has a value that is not null, and no byte array is empty.
abbrev pub AllReadable : Properties → Type 0
AllReadable [] = Unit
AllReadable ((k, v) ∷ ps) =
    ((r : RawValue) × (raw_value v ≡ some r) × IsReadable r) × AllReadable ps

pub AllReadable-property :
    (ps : Properties) (name : Bytes) (v : PropertyValue)
    → AllReadable ps
    → property ps name ≡ some v
    → (r : RawValue) × (raw_value v ≡ some r) × IsReadable r
unfolding property
AllReadable-property [] name v a h = absurd (none_differs h)
AllReadable-property ((k, w) ∷ ps) name v (x, a) h = elim (Bool-cases (bytes_eq k name)) [
  | inl e ↦
      subst (λ u. (r : RawValue) × (raw_value u ≡ some r) × IsReadable r)
        (some_injective (sym (rw e refl) ∙ h)) x
  | inr e ↦ AllReadable-property ps name v a (sym (rw e refl) ∙ h)
]

-- What emplace does to a lookup.
pub property-set_property_other :
    (ps : Properties) (name m : Bytes) (v : PropertyValue)
    → property (set_property ps name v) m
      ≡ (elim (property ps m) [ none ↦ if bytes_eq name m then some v else none | some w ↦ some w ])
unfolding property set_property
property-set_property_other [] name m v = refl
property-set_property_other ((k, w) ∷ ps) name m v =
    ground (arith, property-set_property_other ps name m v, bytes_eq→eq k name, bytes_eq→eq k m)

pub property-bytes_eq :
    (ps : Properties) (n m : Bytes) → bytes_eq n m ≡ true → property ps n ≡ property ps m
property-bytes_eq ps n m e = ap (property ps) (bytes_eq→eq n m e)

module _ (poco : Poco) where
  -- The two members of the object that stands for v.
  pub record Describes (e : poco.Object) (v : PropertyValue) : Type 0 where
    pub typed :
        poco.get e type_key ≡ some (poco.var_of (raw_string (value_type_name (property_type v))))
    pub valued : poco.get e value_key ≡ some (value_var poco (raw_value v))

  extract_value-Describes :
      (value : poco.Object) (v : PropertyValue) → Describes (extract_value poco value v) v
  unfolding extract_value bytes_eq
  extract_value-Describes value v =
      let typed =
        poco.set value type_key (poco.var_of (raw_string (value_type_name (property_type v)))) in
      record {
        typed =
            poco.get-set typed value_key (value_var poco (raw_value v)) type_key
            ∙ (poco.get-set value type_key
                (poco.var_of (raw_string (value_type_name (property_type v)))) type_key);
        valued = poco.get-set typed value_key (value_var poco (raw_value v)) value_key;
      }

  pub get-add_properties_other :
      (ps : Properties) (o value : poco.Object) (m : Bytes)
      → property ps m ≡ none
      → poco.get (add_properties poco o value ps) m ≡ poco.get o m
  unfolding property add_properties
  get-add_properties_other [] o value m h = refl
  get-add_properties_other ((k, v) ∷ ps) o value m h = elim (Bool-cases (bytes_eq k m)) [
    | inl e ↦ absurd (none_differs {x = v} (sym h ∙ rw e refl))
    | inr e ↦
        let value' = extract_value poco value v in
        get-add_properties_other ps (poco.set o k (poco.of_object value')) value' m
          (sym (rw e refl) ∙ h)
        ∙ (poco.get-set o k (poco.of_object value') m ∙ rw e refl)
  ]

  pub get-add_properties :
      (ps : Properties) (o value : poco.Object) (m : Bytes) (v : PropertyValue)
      → Unique ps
      → property ps m ≡ some v
      → (e : poco.Object) × (poco.get (add_properties poco o value ps) m ≡ some (poco.of_object e))
        × Describes e v
  unfolding property add_properties
  get-add_properties [] o value m v u h = absurd (none_differs h)
  get-add_properties ((k, w) ∷ ps) o value m v (n, u) h =
      let value' = extract_value poco value w in
      elim (Bool-cases (bytes_eq k m)) [
        | inl e ↦ (
          value',
          get-add_properties_other ps (poco.set o k (poco.of_object value')) value' m
                (subst (λ x. property ps x ≡ none) (bytes_eq→eq k m e) n)
              ∙ (poco.get-set o k (poco.of_object value') m ∙ rw e refl),
          subst (Describes value') (some_injective (sym (rw e refl) ∙ h))
              (extract_value-Describes value w),
        )
        | inr e ↦
            get-add_properties ps (poco.set o k (poco.of_object value')) value' m v u
              (sym (rw e refl) ∙ h)
      ]

  -- The member of the parsed map under the name of a property.
  pub member-to_json :
      (ps : Properties) (m : Bytes) (v : PropertyValue)
      → Unique ps
      → property ps m ≡ some v
      → (e : poco.Object) × (member_object poco (poco.get (poco.reread_object (to_json poco ps)) m)
          ≡ some (poco.reread_object e))
        × Describes e v
  unfolding to_json member_object
  member-to_json ps m v u h =
      let (e, g, d) = get-add_properties ps poco.new_object poco.new_object m v u h in
      (
        e,
        rw (poco.get-reread_object (add_properties poco poco.new_object poco.new_object ps) m, g)
            (poco.as_object-reread e),
        d,
      )
