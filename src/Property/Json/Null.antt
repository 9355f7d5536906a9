-- ===== src/Property/Json/Null.antt =====
-- Null properties through toJSON and fromJSON, of MessageProperty.cpp.
use tiny_mq.Prelude.{
  ◌≡◌, ◌≢◌, inl, inr, refl, sym, ◌∙◌, arith, true, none, some, List, [], ◌∷◌, Bytes, bytes_eq,
  bytes_eq→eq, Bool-cases,
}
use tiny_mq.Message.{PropertyValue, Properties, property}
use tiny_mq.Property.{
  byte_array_type, value_type_name, property_type, raw_value, raw_string, raw_type,
  value_type_from_string-value_type_name,
}
use tiny_mq.Property.Poco.{Poco}
use tiny_mq.Property.Names.{listed}
use tiny_mq.Property.Json.{
  decode, failed, decode_typed, decode_value, convert_member, named_type, read, threw, continue,
  type_key, value_key, value_var, to_json, member_object, load_property, load_names, from_json,
  set_decoded, load_text, load_parsed, to_text,
}
use tiny_mq.Property.Json.Members.{Unique, Describes, member-to_json}
use tiny_mq.Property.Json.RoundTrip.{listed-names_lem}

module _ (poco : Poco) where
  -- No scalar type converts from a null.
  decode_typed_null :
      (v : PropertyValue)
      → property_type v ≢ byte_array_type
      → decode_typed poco (some (property_type v)) (some (poco.reread poco.null_var)) ≡ failed
  unfolding decode_typed convert_member decode_value property_type
  decode_typed_null v t = ground (arith, poco.convert_null (property_type v))

  decode_null :
      (e : poco.Object) (v : PropertyValue)
      → Describes poco e v
      → raw_value v ≡ none
      → property_type v ≢ byte_array_type
      → decode poco (poco.reread_object e) ≡ failed
  unfolding decode convert_member named_type value_var value_type_name raw_type
  decode_null e v d h t =
      rw
        (
          poco.get-reread_object e type_key,
          poco.get-reread_object e value_key,
          d.typed,
          d.valued,
          h,
          poco.convert-reread (raw_string (value_type_name (property_type v))) refl,
          value_type_from_string-value_type_name (property_type v),
        )
        (decode_typed_null v t)

  load_property_null :
      (e : poco.Object) (v : PropertyValue) (qs : Properties) (name : Bytes)
      → Describes poco e v
      → raw_value v ≡ none
      → property_type v ≢ byte_array_type
      → load_property poco qs name (some (poco.reread_object e)) ≡ threw qs
  unfolding load_property set_decoded
  load_property_null e v qs name d h t = rw (decode_null e v d h t) refl

  -- The loop ends at the first of its names that throws, at the latest at `name`.
  load_names_null :
      (o e : poco.Object) (v : PropertyValue) (name : Bytes)
      → member_object poco (poco.get o name) ≡ some (poco.reread_object e)
      → Describes poco e v
      → raw_value v ≡ none
      → property_type v ≢ byte_array_type
      → (ns : List Bytes) → listed name ns ≡ true
      → (qs : Properties) → (rs : Properties) × (load_names poco o qs ns ≡ threw rs)
  unfolding load_names
  load_names_null o e v name g d h t [] l qs = absurd (ground arith)
  load_names_null o e v name g d h t (n ∷ ns) l qs = elim (Bool-cases (bytes_eq n name)) [
    | inl b ↦ (qs, rw (bytes_eq→eq n name b, g, load_property_null e v qs name d h t) refl)
    | inr b ↦
        let rest = load_names_null o e v name g d h t ns (sym (rw b refl) ∙ l) in
        elim (load_property poco qs n (member_object poco (poco.get o n)))
          as (λ r. (rs : Properties) × (continue r (λ ps. load_names poco o ps ns) ≡ threw rs)) [
            | read ps ↦ rest ps
            | threw ps ↦ (ps, refl)
          ]
  ]

  -- A map of unique names in which some property that is not a byte array is null, when its text
  -- is JSON, is not read back from that text: the reading leaves by an exception.
  pub load_text-null :
      (ps : Properties) (name : Bytes) (v : PropertyValue)
      → Unique ps
      → property ps name ≡ some v
      → raw_value v ≡ none
      → property_type v ≢ byte_array_type
      → poco.IsPrintable (to_json poco ps)
      → (rs : Properties) × (load_text poco [] (to_text poco ps) ≡ threw rs)
  unfolding load_text to_text load_parsed from_json
  load_text-null ps name v u h n t p =
      let (e, g, d) = member-to_json poco ps name v u h in
      let o = poco.reread_object (to_json poco ps) in
      let (rs, l) =
        load_names_null o e v name g d n t (poco.names o)
          (listed-names_lem poco ps name u ∙ rw h refl) [] in
      (rs, rw (poco.parse-stringify (to_json poco ps) p) l)
