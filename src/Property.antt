-- ===== src/Property.antt =====
-- MessageProperty.h, MessageProperty.cpp: the types of property values and their names. The
-- property map itself is Message.Properties; its JSON form is Property/Json, the stream of values
-- Property/Stream.
pub mod Names
pub mod Poco
pub mod Json
pub mod Stream
pub mod Sample
pub mod Tests
use tiny_mq.Prelude.{
  ℕ, ◌≡◌, refl, arith, Bool, true, false, Option, none, some, Bytes, ℤ, if◌then◌else◌, bytes_eq,
  List, [], ◌∷◌,
}
use tiny_mq.Selector.Tokenizer.{codes}
use tiny_mq.Message.{
  PropertyValue, boolean, byte, short, integer, long, character, floating, double, string,
  byte_array, Properties, property, set_property,
}

pub data ValueType : Type 0 where
  null_type boolean_type byte_type char_type short_type integer_type : ValueType
  long_type double_type float_type string_type byte_array_type unknown_type : ValueType

unfoldable pub value_type_name : ValueType → Bytes
value_type_name null_type = codes "NULL"
value_type_name boolean_type = codes "BOOLEAN"
value_type_name byte_type = codes "BYTE"
value_type_name char_type = codes "CHAR"
value_type_name short_type = codes "SHORT"
value_type_name integer_type = codes "INTEGER"
value_type_name long_type = codes "LONG"
value_type_name double_type = codes "DOUBLE"
value_type_name float_type = codes "FLOAT"
value_type_name string_type = codes "STRING"
value_type_name byte_array_type = codes "BYTE_ARRAY"
value_type_name unknown_type = codes "UNKNOWN"

unfoldable pub value_type_from_string : Bytes → ValueType
value_type_from_string name =
    if bytes_eq name (codes "NULL")
    then null_type
    else if bytes_eq name (codes "BOOLEAN")
    then boolean_type
    else if bytes_eq name (codes "BYTE")
    then byte_type
    else if bytes_eq name (codes "CHAR")
    then char_type
    else if bytes_eq name (codes "SHORT")
    then short_type
    else if bytes_eq name (codes "INTEGER")
    then integer_type
    else if bytes_eq name (codes "LONG")
    then long_type
    else if bytes_eq name (codes "DOUBLE")
    then double_type
    else if bytes_eq name (codes "FLOAT")
    then float_type
    else if bytes_eq name (codes "STRING")
    then string_type
    else if bytes_eq name (codes "BYTE_ARRAY")
    then byte_array_type
    else unknown_type

-- A value of one of the raw types: what a Nullable holds, and what a stream is made of.
pub data RawValue : Type 0 where
  raw_boolean : Bool → RawValue
  raw_byte raw_short raw_integer raw_long : ℤ → RawValue
  raw_character raw_floating raw_double : ℕ → RawValue
  raw_string raw_byte_array : Bytes → RawValue

-- getValueType of a raw value, by the specialisations of Value.
unfoldable pub raw_type : RawValue → ValueType
raw_type (raw_boolean b) = boolean_type
raw_type (raw_byte z) = byte_type
raw_type (raw_short z) = short_type
raw_type (raw_integer z) = integer_type
raw_type (raw_long z) = long_type
raw_type (raw_character c) = char_type
raw_type (raw_floating x) = float_type
raw_type (raw_double x) = double_type
raw_type (raw_string s) = string_type
raw_type (raw_byte_array bs) = byte_array_type

-- getValueType of a Nullable, which does not ask whether it is null.
unfoldable pub property_type : PropertyValue → ValueType
property_type (boolean o) = boolean_type
property_type (byte o) = byte_type
property_type (short o) = short_type
property_type (integer o) = integer_type
property_type (long o) = long_type
property_type (character o) = char_type
property_type (floating o) = float_type
property_type (double o) = double_type
property_type (string o) = string_type
property_type (byte_array o) = byte_array_type

abbrev pub map_option {ℓ κ} : {A : Type ℓ} {B : Type κ} → (A → B) → Option A → Option B
map_option f none = none
map_option f (some a) = some (f a)

-- Nullable::value, `none` where isNull.
unfoldable pub raw_value : PropertyValue → Option RawValue
raw_value (boolean o) = map_option raw_boolean o
raw_value (byte o) = map_option raw_byte o
raw_value (short o) = map_option raw_short o
raw_value (integer o) = map_option raw_integer o
raw_value (long o) = map_option raw_long o
raw_value (character o) = map_option raw_character o
raw_value (floating o) = map_option raw_floating o
raw_value (double o) = map_option raw_double o
raw_value (string o) = map_option raw_string o
raw_value (byte_array o) = map_option raw_byte_array o

-- The Nullable made of a raw value.
unfoldable pub nullable : RawValue → PropertyValue
nullable (raw_boolean b) = boolean (some b)
nullable (raw_byte z) = byte (some z)
nullable (raw_short z) = short (some z)
nullable (raw_integer z) = integer (some z)
nullable (raw_long z) = long (some z)
nullable (raw_character c) = character (some c)
nullable (raw_floating x) = floating (some x)
nullable (raw_double x) = double (some x)
nullable (raw_string s) = string (some s)
nullable (raw_byte_array bs) = byte_array (some bs)

-- setBoolProperty and the other typed setters of Message.
unfoldable pub set_raw_property : Properties → Bytes → RawValue → Properties
unfolding nullable
set_raw_property ps name r = set_property ps name (nullable r)

unfoldable pub has_property : Properties → Bytes → Bool
has_property ps name = elim (property ps name) [ none ↦ false | some v ↦ true ]

-- `none` where at() throws, as there is no such property.
unfoldable pub property_value_type : Properties → Bytes → Option ValueType
property_value_type ps name = map_option property_type (property ps name)

pub value_type_from_string-value_type_name :
    (t : ValueType) → value_type_from_string (value_type_name t) ≡ t
unfolding value_type_from_string value_type_name bytes_eq
value_type_from_string-value_type_name null_type = refl
value_type_from_string-value_type_name boolean_type = refl
value_type_from_string-value_type_name byte_type = refl
value_type_from_string-value_type_name char_type = refl
value_type_from_string-value_type_name short_type = refl
value_type_from_string-value_type_name integer_type = refl
value_type_from_string-value_type_name long_type = refl
value_type_from_string-value_type_name double_type = refl
value_type_from_string-value_type_name float_type = refl
value_type_from_string-value_type_name string_type = refl
value_type_from_string-value_type_name byte_array_type = refl
value_type_from_string-value_type_name unknown_type = refl

pub raw_type-raw_value :
    (v : PropertyValue) (r : RawValue)
    → raw_value v ≡ some r
    → (raw_type r ≡ property_type v) × (nullable r ≡ v)
unfolding raw_type raw_value property_type nullable
raw_type-raw_value v r h = ground arith
