-- ===== src/Property/Json.antt =====
-- MessageProperty.cpp: Properties::toJSON and Properties::fromJSON. The visitor of toJSON has a
-- function for each of the ten property types, so that it finds one for every property.
pub mod Load
pub mod Members
pub mod RoundTrip
pub mod Null
use tiny_mq.Prelude.{Option, none, some, List, [], ◌∷◌, Bytes, ℕ, ℤ}
use tiny_mq.Message.{PropertyValue, Properties, set_property}
use tiny_mq.Selector.Tokenizer.{codes}
use tiny_mq.Property.{
  ValueType, null_type, boolean_type, byte_type, char_type, short_type, integer_type, long_type,
  double_type, float_type, string_type, byte_array_type, unknown_type, RawValue, raw_string,
  raw_byte, raw_byte_array, value_type_name, value_type_from_string, property_type, raw_value,
  nullable,
}
use tiny_mq.Property.Poco.{Poco}
use tiny_mq.Property.Names.{byte_of}

-- fromJSON comes to its end, or leaves by an exception with what was set before it.
pub data Reading {ℓ} (A : Type ℓ) : Type ℓ where
  read threw : A → Reading A

-- What one object with the members "type" and "value" gives.
pub data Decoded : Type 0 where
  nothing failed : Decoded
  decoded : RawValue → Decoded

abbrev pub continue {ℓ} : {A : Type ℓ} → Reading A → (A → Reading A) → Reading A
continue (read a) k = k a
continue (threw a) k = threw a

abbrev pub type_key : Bytes
type_key = codes "type"

abbrev pub value_key : Bytes
value_key = codes "value"

-- data[i] = arr->getElement<byte>(i), `none` where one of them throws.
unfoldable pub cons_element : Option RawValue → Option Bytes → Option Bytes
cons_element (some (raw_byte z)) (some bs) = some (byte_of z ∷ bs)
cons_element _ _ = none

-- getValueTypeFromString of the member "type".
unfoldable pub named_type : Option RawValue → Option ValueType
named_type (some (raw_string s)) = some (value_type_from_string s)
named_type _ = none

-- The case of BYTE_ARRAY_TYPE: nothing comes of an array that is null or empty.
unfoldable pub decode_bytes : Option Bytes → Decoded
decode_bytes none = failed
decode_bytes (some []) = nothing
decode_bytes (some (b ∷ bs)) = decoded (raw_byte_array (b ∷ bs))

unfoldable pub decode_value : Option RawValue → Decoded
decode_value none = failed
decode_value (some r) = decoded r

unfoldable pub set_decoded : Properties → Bytes → Decoded → Reading Properties
set_decoded ps name nothing = read ps
set_decoded ps name failed = threw ps
set_decoded ps name (decoded r) = read (set_property ps name (nullable r))

module _ (poco : Poco) where
  unfoldable pub value_var : Option RawValue → poco.Var
  value_var none = poco.null_var
  value_var (some r) = poco.var_of r

  -- The body of the visitors: both keys of the shared object `value` are set anew.
  unfoldable pub extract_value : poco.Object → PropertyValue → poco.Object
  unfolding value_var
  extract_value value v =
      let typed =
        poco.set value type_key (poco.var_of (raw_string (value_type_name (property_type v)))) in
      poco.set typed value_key (value_var (raw_value v))

  -- The loop over the properties; set copies `value`.
  unfoldable pub add_properties : poco.Object → poco.Object → Properties → poco.Object
  add_properties properties value [] = properties
  add_properties properties value ((name, v) ∷ ps) =
      let value' = extract_value value v in
      add_properties (poco.set properties name (poco.of_object value')) value' ps

  unfoldable pub to_json : Properties → poco.Object
  unfolding add_properties
  to_json ps = add_properties poco.new_object poco.new_object ps

  -- Object::getValue: an absent key is an empty Var, which no type converts from.
  unfoldable pub convert_member : ValueType → Option poco.Var → Option RawValue
  convert_member t none = none
  convert_member t (some v) = poco.convert t v

  -- Object::getArray and Object::getObject: a null pointer where the key is absent.
  unfoldable pub member_array : Option poco.Var → Option (List poco.Var)
  member_array none = none
  member_array (some v) = poco.as_array v

  unfoldable pub member_object : Option poco.Var → Option poco.Object
  member_object none = none
  member_object (some v) = poco.as_object v

  unfoldable pub array_bytes : List poco.Var → Option Bytes
  unfolding cons_element
  array_bytes [] = some []
  array_bytes (v ∷ vs) = cons_element (poco.convert byte_type v) (array_bytes vs)

  unfoldable pub decode_array : Option (List poco.Var) → Decoded
  unfolding decode_bytes
  decode_array none = nothing
  decode_array (some vs) = decode_bytes (array_bytes vs)

  -- The switch over the type, the same in both fromJSON.
  unfoldable pub decode_typed : Option ValueType → Option poco.Var → Decoded
  unfolding decode_array decode_value
  decode_typed none v = failed
  decode_typed (some null_type) v = nothing
  decode_typed (some unknown_type) v = nothing
  decode_typed (some byte_array_type) v = decode_array (member_array v)
  decode_typed (some boolean_type) v = decode_value (convert_member boolean_type v)
  decode_typed (some byte_type) v = decode_value (convert_member byte_type v)
  decode_typed (some char_type) v = decode_value (convert_member char_type v)
  decode_typed (some short_type) v = decode_value (convert_member short_type v)
  decode_typed (some integer_type) v = decode_value (convert_member integer_type v)
  decode_typed (some long_type) v = decode_value (convert_member long_type v)
  decode_typed (some string_type) v = decode_value (convert_member string_type v)
  decode_typed (some float_type) v = decode_value (convert_member float_type v)
  decode_typed (some double_type) v = decode_value (convert_member double_type v)

  unfoldable pub decode : poco.Object → Decoded
  unfolding decode_typed
  decode o =
      decode_typed (named_type (convert_member string_type (poco.get o type_key)))
        (poco.get o value_key)

  -- A member that is no object is passed over.
  unfoldable pub load_property : Properties → Bytes → Option poco.Object → Reading Properties
  unfolding decode set_decoded
  load_property ps name none = read ps
  load_property ps name (some o) = set_decoded ps name (decode o)

  unfoldable pub load_names : poco.Object → Properties → List Bytes → Reading Properties
  unfolding load_property
  load_names o ps [] = read ps
  load_names o ps (name ∷ rest) =
      continue (load_property ps name (member_object (poco.get o name)))
        (λ ps'. load_names o ps' rest)

  unfoldable pub from_json : Properties → poco.Object → Reading Properties
  unfolding load_names
  from_json ps o = load_names o ps (poco.names o)

  -- The text that a message stores of a property map, and fromJSON over what parses of it.
  unfoldable pub to_text : Properties → Bytes
  to_text ps = poco.stringify (to_json ps)

  unfoldable pub load_parsed : Properties → Option poco.Object → Reading Properties
  unfolding from_json
  load_parsed ps none = threw ps
  load_parsed ps (some o) = from_json ps o

  unfoldable pub load_text : Properties → Bytes → Reading Properties
  unfolding load_parsed
  load_text ps text = load_parsed ps (poco.parse text)
