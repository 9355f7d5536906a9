-- ===== src/Property/Json/Load.antt =====
-- One typed value through toJSON, the text and fromJSON, of MessageProperty.cpp.
use tiny_mq.Prelude.{◌≡◌, refl, some, [], ◌∷◌, Bytes, map}
use tiny_mq.Property.{
  RawValue, raw_string, raw_byte, raw_byte_array, raw_boolean, raw_short, raw_integer, raw_long,
  raw_character, raw_floating, raw_double, value_type_name, raw_type,
  value_type_from_string-value_type_name, byte_array_type,
}
use tiny_mq.Property.Poco.{Poco}
use tiny_mq.Property.Names.{int8, byte_of-int8, AreBytes}
use tiny_mq.Property.Json.{
  decoded, nothing, decode, decode_typed, decode_array, decode_bytes, decode_value, convert_member,
  member_array, array_bytes, cons_element, named_type, type_key, value_key,
}

-- A value whose JSON form reads back: a byte array is of bytes and not empty.
abbrev pub IsReadable : RawValue → Type 0
IsReadable (raw_byte_array []) = ⊥
IsReadable (raw_byte_array (b ∷ bs)) = AreBytes (b ∷ bs)
IsReadable _ = Unit

module _ (poco : Poco) where
  pub array_bytes_lem :
      (bs : Bytes)
      → AreBytes bs
      → array_bytes poco (map (λ b. poco.reread (poco.var_of (raw_byte (int8 b)))) bs) ≡ some bs
  unfolding array_bytes cons_element raw_type
  array_bytes_lem [] h = refl
  array_bytes_lem (b ∷ bs) (h, hs) =
      rw (poco.convert-reread (raw_byte (int8 b)) refl, array_bytes_lem bs hs, byte_of-int8 b h)
        refl

  decode_typed_array :
      (b : _) (bs : Bytes)
      → AreBytes (b ∷ bs)
      → decode_typed poco
          (some byte_array_type)
          (some (poco.reread (poco.var_of (raw_byte_array (b ∷ bs)))))
        ≡ decoded (raw_byte_array (b ∷ bs))
  unfolding decode_typed decode_array member_array decode_bytes
  decode_typed_array b bs h = rw (poco.as_array_bytes (b ∷ bs), array_bytes_lem (b ∷ bs) h) refl

  pub decode_typed_lem :
      (r : RawValue)
      → IsReadable r
      → decode_typed poco (some (raw_type r)) (some (poco.reread (poco.var_of r))) ≡ decoded r
  unfolding decode_typed convert_member decode_value raw_type
  decode_typed_lem (raw_boolean x) h = rw (poco.convert-reread (raw_boolean x) refl) refl
  decode_typed_lem (raw_byte x) h = rw (poco.convert-reread (raw_byte x) refl) refl
  decode_typed_lem (raw_short x) h = rw (poco.convert-reread (raw_short x) refl) refl
  decode_typed_lem (raw_integer x) h = rw (poco.convert-reread (raw_integer x) refl) refl
  decode_typed_lem (raw_long x) h = rw (poco.convert-reread (raw_long x) refl) refl
  decode_typed_lem (raw_character x) h = rw (poco.convert-reread (raw_character x) refl) refl
  decode_typed_lem (raw_floating x) h = rw (poco.convert-reread (raw_floating x) refl) refl
  decode_typed_lem (raw_double x) h = rw (poco.convert-reread (raw_double x) refl) refl
  decode_typed_lem (raw_string x) h = rw (poco.convert-reread (raw_string x) refl) refl
  decode_typed_lem (raw_byte_array []) h = absurd h
  decode_typed_lem (raw_byte_array (b ∷ bs)) h = decode_typed_array b bs h

  -- The object that the parser makes of one that names the type of r and holds r gives r.
  pub decode-reread_object :
      (o : poco.Object) (r : RawValue)
      → poco.get o type_key ≡ some (poco.var_of (raw_string (value_type_name (raw_type r))))
      → poco.get o value_key ≡ some (poco.var_of r)
      → IsReadable r
      → decode poco (poco.reread_object o) ≡ decoded r
  unfolding decode convert_member named_type value_type_name raw_type
  decode-reread_object o r t v h =
      rw
        (
          poco.get-reread_object o type_key,
          poco.get-reread_object o value_key,
          t,
          v,
          poco.convert-reread (raw_string (value_type_name (raw_type r))) refl,
          value_type_from_string-value_type_name (raw_type r),
        )
        (decode_typed_lem r h)

  pub decode-empty_array :
      (o : poco.Object)
      → poco.get o type_key ≡ some (poco.var_of (raw_string (value_type_name byte_array_type)))
      → poco.get o value_key ≡ some (poco.var_of (raw_byte_array []))
      → decode poco (poco.reread_object o) ≡ nothing
  unfolding decode decode_typed convert_member named_type value_type_name raw_type member_array
      decode_array decode_bytes array_bytes
  decode-empty_array o t v =
      rw
        (
          poco.get-reread_object o type_key,
          poco.get-reread_object o value_key,
          t,
          v,
          poco.convert-reread (raw_string (value_type_name byte_array_type)) refl,
          value_type_from_string-value_type_name byte_array_type,
          poco.as_array_bytes [],
        )
        refl
