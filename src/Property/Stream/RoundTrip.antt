-- ===== src/Property/Stream/RoundTrip.antt =====
-- PropertiesStream::toJSON, its text, and PropertiesStream::fromJSON, of MessageProperty.cpp.
use tiny_mq.Prelude.{
  ◌≡◌, ◌⊎◌, inl, inr, refl, ap, ◌∙◌, List, [], ◌∷◌, ◌++◌, map, append-nil, append_assoc, bytes_eq,
}
use tiny_mq.Property.{
  RawValue, raw_boolean, raw_byte, raw_short, raw_integer, raw_long, raw_character, raw_floating,
  raw_double, raw_string, raw_byte_array, raw_type, value_type_name, byte_array_type,
}
use tiny_mq.Property.Poco.{Poco}
use tiny_mq.Property.Names.{AreBytes}
use tiny_mq.Property.Json.{decoded, nothing, read, type_key, value_key, decode, member_array}
use tiny_mq.Property.Json.Load.{IsReadable, decode-reread_object, decode-empty_array}
use tiny_mq.Property.Stream.{
  PropertiesStream, write, write_decoded, extract_raw, array_of, to_json, load_object,
  load_elements, load_stream, from_json, load_stream_text, stream_text, stream_key,
}

-- The arrays of a stream are of bytes.
abbrev pub ArraysAreBytes : List RawValue → Type 0
ArraysAreBytes [] = Unit
ArraysAreBytes (raw_byte_array bs ∷ rs) = AreBytes bs × ArraysAreBytes rs
ArraysAreBytes (r ∷ rs) = ArraysAreBytes rs

-- All but the empty byte arrays.
unfoldable pub without_empty : List RawValue → List RawValue
without_empty [] = []
without_empty (raw_byte_array [] ∷ rs) = without_empty rs
without_empty (r ∷ rs) = r ∷ without_empty rs

-- What one element adds to the values that are kept.
without_empty-cases :
    (r : RawValue) (rs : List RawValue)
    → ArraysAreBytes (r ∷ rs)
    → ArraysAreBytes rs
      × ((IsReadable r × (without_empty (r ∷ rs) ≡ r ∷ without_empty rs))
          ⊎ ((r ≡ raw_byte_array []) × (without_empty (r ∷ rs) ≡ without_empty rs)))
unfolding without_empty
without_empty-cases (raw_boolean x) rs h = (h, inl (tt, refl))
without_empty-cases (raw_byte x) rs h = (h, inl (tt, refl))
without_empty-cases (raw_short x) rs h = (h, inl (tt, refl))
without_empty-cases (raw_integer x) rs h = (h, inl (tt, refl))
without_empty-cases (raw_long x) rs h = (h, inl (tt, refl))
without_empty-cases (raw_character x) rs h = (h, inl (tt, refl))
without_empty-cases (raw_floating x) rs h = (h, inl (tt, refl))
without_empty-cases (raw_double x) rs h = (h, inl (tt, refl))
without_empty-cases (raw_string x) rs h = (h, inl (tt, refl))
without_empty-cases (raw_byte_array []) rs (a, h) = (h, inr (refl, refl))
without_empty-cases (raw_byte_array (b ∷ bs)) rs (a, h) = (h, inl (a, refl))

module _ (poco : Poco) where
  extract_raw-decode :
      (value : poco.Object) (r : RawValue)
      → IsReadable r
      → decode poco (poco.reread_object (extract_raw poco value r)) ≡ decoded r
  unfolding extract_raw bytes_eq
  extract_raw-decode value r h =
      let typed =
        poco.set value type_key (poco.var_of (raw_string (value_type_name (raw_type r)))) in
      decode-reread_object poco (poco.set typed value_key (poco.var_of r)) r
        (poco.get-set typed value_key (poco.var_of r) type_key
          ∙ (poco.get-set value type_key (poco.var_of (raw_string (value_type_name (raw_type r))))
              type_key))
        (poco.get-set typed value_key (poco.var_of r) value_key) h

  decode-extract_empty :
      (value : poco.Object)
      → decode poco (poco.reread_object (extract_raw poco value (raw_byte_array []))) ≡ nothing
  unfolding extract_raw bytes_eq raw_type
  decode-extract_empty value =
      let name = poco.var_of (raw_string (value_type_name byte_array_type)) in
      let typed = poco.set value type_key name in
      let empty = poco.var_of (raw_byte_array []) in
      decode-empty_array poco (poco.set typed value_key empty)
        (poco.get-set typed value_key empty type_key ∙ poco.get-set value type_key name type_key)
        (poco.get-set typed value_key empty value_key)

  load_elements-array_of :
      (rs : List RawValue) (value : poco.Object) (s : PropertiesStream)
      → ArraysAreBytes rs
      → load_elements poco s (map poco.reread (array_of poco value rs))
        ≡ read (record s { values = s.values ++ without_empty rs })
  unfolding load_elements array_of load_object without_empty write_decoded write
  load_elements-array_of [] value s h = rw (append-nil s.values) refl
  load_elements-array_of (r ∷ rs) value s h =
      let value' = extract_raw poco value r in
      let (a, c) = without_empty-cases r rs h in
      elim c [
        | inl (i, k) ↦
            rw (k, poco.as_object-reread value', extract_raw-decode value r i)
              (load_elements-array_of rs value' (write s r) a
                ∙ rw (append_assoc s.values (r ∷ []) (without_empty rs)) refl)
        | inr (e, k) ↦
            rw
              (
                k,
                poco.as_object-reread value',
                ap (λ x. decode poco (poco.reread_object (extract_raw poco value x))) e
                    ∙ decode-extract_empty value,
              )
              (load_elements-array_of rs value' s a)
      ]

  -- A stream whose byte arrays are of bytes, when its text is JSON, is read back from that text
  -- onto a stream: all its values but the empty byte arrays are appended, in order, and the read
  -- position of the stream stays where it was.
  pub load_stream_text-stream_text :
      (s q : PropertiesStream)
      → ArraysAreBytes s.values
      → poco.IsPrintable (to_json poco s)
      → load_stream_text poco q (stream_text poco s)
        ≡ read (record q { values = q.values ++ without_empty s.values })
  unfolding load_stream_text stream_text from_json to_json load_stream member_array bytes_eq
  load_stream_text-stream_text s q h p =
      let vs = array_of poco poco.new_object s.values in
      let o = poco.set poco.new_object stream_key (poco.of_array vs) in
      rw
        (
          poco.parse-stringify o p,
          poco.get-reread_object o stream_key,
          poco.get-set poco.new_object stream_key (poco.of_array vs) stream_key,
          poco.as_array-reread vs,
        )
        (load_elements-array_of s.values poco.new_object q h)
