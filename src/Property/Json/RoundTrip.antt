-- ===== src/Property/Json/RoundTrip.antt =====
-- Properties::toJSON, its text, and Properties::fromJSON over the text, of MessageProperty.cpp.
use tiny_mq.Prelude.{
  ◌≡◌, inl, inr, refl, sym, ◌∙◌, arith, true, none, some, List, [], ◌∷◌, Bytes, bytes_eq_refl,
  Option-cases, if◌then◌else◌,
}
use tiny_mq.Message.{PropertyValue, Properties, property, set_property}
use tiny_mq.Property.{RawValue, raw_value, raw_type-raw_value}
use tiny_mq.Property.Poco.{Poco}
use tiny_mq.Property.Names.{listed, is_some}
use tiny_mq.Property.Json.{
  read, value_var, add_properties, to_json, load_property, load_names, from_json, set_decoded,
  load_text, to_text,
}
use tiny_mq.Property.Json.Load.{IsReadable, decode-reread_object}
use tiny_mq.Property.Json.Members.{
  Unique, AllReadable, AllReadable-property, property-set_property_other, property-bytes_eq,
  Describes, get-add_properties_other, get-add_properties, member-to_json,
}

module _ (poco : Poco) where
  load_property_lem :
      (e : poco.Object) (v : PropertyValue) (r : RawValue) (qs : Properties) (name : Bytes)
      → Describes poco e v
      → raw_value v ≡ some r
      → IsReadable r
      → load_property poco qs name (some (poco.reread_object e)) ≡ read (set_property qs name v)
  unfolding load_property value_var set_decoded
  load_property_lem e v r qs name d h i =
      let (t, n) = raw_type-raw_value v r h in
      rw (decode-reread_object poco e r (rw t d.typed) (d.valued ∙ rw h refl) i, n) refl

  pub listed-names_lem :
      (ps : Properties) (m : Bytes)
      → Unique ps
      → listed m (poco.names (poco.reread_object (to_json poco ps))) ≡ is_some (property ps m)
  unfolding to_json
  listed-names_lem ps m u =
      let o = add_properties poco poco.new_object poco.new_object ps in
      rw (poco.listed-names (poco.reread_object o) m, poco.get-reread_object o m)
        (elim (Option-cases (property ps m)) [
          | inl h ↦
              rw
                (
                  h,
                  get-add_properties_other poco ps poco.new_object poco.new_object m h,
                  poco.get-new_object m,
                )
                refl
          | inr (v, h) ↦
              let (e, g, d) = get-add_properties poco ps poco.new_object poco.new_object m v u h in
              rw (h, g) refl
        ])

  -- Over names of readable properties the loop comes to its end, and emplaces each of them.
  load_names_lem :
      (ps : Properties)
      → Unique ps
      → AllReadable ps
      → (ns : List Bytes) → ((m : Bytes) → listed m ns ≡ true → is_some (property ps m) ≡ true)
      → (qs : Properties)
      → (rs : Properties) × (load_names poco (poco.reread_object (to_json poco ps)) qs ns ≡ read rs)
        × ((m : Bytes)
            → property rs m ≡ (elim (property qs m) [
              | none ↦ if listed m ns then property ps m else none
              | some w ↦ some w
            ]))
  unfolding load_names
  load_names_lem ps u a [] f qs = (qs, refl, λ m. ground arith)
  load_names_lem ps u a (n ∷ ns) f qs = elim (Option-cases (property ps n)) [
    | inl h ↦ absurd (ground (arith, f n, bytes_eq_refl n))
    | inr (v, h) ↦
        let (e, g, d) = member-to_json poco ps n v u h in
        let (r, w, i) = AllReadable-property ps n v a h in
        let (rs, l, k) =
          load_names_lem ps u a ns (λ m t. f m (ground arith)) (set_property qs n v) in
        (
          rs,
          rw (g, load_property_lem e v r qs n d w i) l,
          λ m.
              k m
              ∙ rw (property-set_property_other qs n m v)
                  (ground (arith, h, property-bytes_eq ps n m)),
        )
  ]

  pub from_json-to_json :
      (ps : Properties)
      → Unique ps
      → AllReadable ps
      → (rs : Properties) × (from_json poco [] (poco.reread_object (to_json poco ps)) ≡ read rs)
        × ((m : Bytes) → property rs m ≡ property ps m)
  unfolding from_json property
  from_json-to_json ps u a =
      let ns = poco.names (poco.reread_object (to_json poco ps)) in
      let (rs, l, k) = load_names_lem ps u a ns (λ m t. sym (listed-names_lem ps m u) ∙ t) [] in
      (rs, l, λ m. k m ∙ rw (listed-names_lem ps m u) (ground arith))

  -- A map of unique names whose values are not null and whose byte arrays are not empty, when its
  -- text is JSON, is read back from that text into an empty map: the reading comes to its end, and
  -- every name has the value it had, or none where it had none.
  pub load_text-to_text :
      (ps : Properties)
      → Unique ps
      → AllReadable ps
      → poco.IsPrintable (to_json poco ps)
      → (rs : Properties) × (load_text poco [] (to_text poco ps) ≡ read rs)
        × ((m : Bytes) → property rs m ≡ property ps m)
  unfolding load_text to_text
  load_text-to_text ps u a p =
      let (rs, l, k) = from_json-to_json ps u a in
      (rs, rw (poco.parse-stringify (to_json poco ps) p) l, k)
