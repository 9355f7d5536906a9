-- ===== src/Property/Stream.antt =====
-- MessageProperty.h, MessageProperty.cpp: PropertiesStream, the payload of a stream message.
-- `offset` is an iterator into a std::list: the index of an element, or `none` for end(). What
-- push_back appends goes in front of end(), so that an offset at the end stays there.
pub mod Cursor
pub mod RoundTrip
use tiny_mq.Prelude.{
  ℕ, zero, suc, ◌≡◌, Bool, true, false, Option, none, some, List, [], ◌∷◌, ◌++◌, Bytes, bytes_eq,
  ltb, if◌then◌else◌, length,
}
use tiny_mq.Selector.Tokenizer.{codes}
use tiny_mq.Property.{
  ValueType, boolean_type, byte_type, char_type, short_type, integer_type, long_type, double_type,
  float_type, string_type, byte_array_type, RawValue, raw_string, value_type_name, raw_type,
  nullable,
}
use tiny_mq.Property.Poco.{Poco}
use tiny_mq.Property.Json.{
  Decoded, decoded, nothing, failed, Reading, read, threw, continue, type_key, value_key, decode,
  member_array,
}

abbrev pub stream_key : Bytes
stream_key = codes "stream"

pub record PropertiesStream : Type 0 where
  pub values : List RawValue
  pub offset : Option ℕ

-- _properties.begin(), which is end() of an empty list.
unfoldable pub begin_of : List RawValue → Option ℕ
begin_of [] = none
begin_of (r ∷ rs) = some 0

unfoldable pub new_stream : PropertiesStream
new_stream = record { values = []; offset = none }

unfoldable pub write : PropertiesStream → RawValue → PropertiesStream
write s r = record s { values = s.values ++ r ∷ [] }

unfoldable pub empty : PropertiesStream → Bool
empty s = elim (s.values) [ [] ↦ true | r ∷ rs ↦ false ]

unfoldable pub reset : PropertiesStream → PropertiesStream
unfolding begin_of
reset s = record s { offset = begin_of s.values }

unfoldable pub clear : PropertiesStream → PropertiesStream
clear s = record { values = []; offset = none }

unfoldable pub eof : PropertiesStream → Bool
eof s = elim (s.offset) [ none ↦ true | some i ↦ false ]

-- The element at an index, `none` past the last.
unfoldable pub get_elem? : List RawValue → ℕ → Option RawValue
get_elem? [] i = none
get_elem? (r ∷ rs) zero = some r
get_elem? (r ∷ rs) (suc i) = get_elem? rs i

unfoldable pub element : PropertiesStream → Option RawValue
unfolding get_elem?
element s = elim (s.offset) [ none ↦ none | some i ↦ get_elem? s.values i ]

-- std::next(offset).
unfoldable pub next_offset : PropertiesStream → Option ℕ
next_offset s = elim (s.offset) [
  | none ↦ none
  | some i ↦ if ltb (suc i) (length s.values) then some (suc i) else none
]

-- A read at the end dereferences end(), which is undefined; one of another type than the element's
-- throws Poco::BadCastException and moves nothing.
pub data Next : Type 0 where
  undefined bad_cast : Next
  found : RawValue → PropertiesStream → Next

unfoldable pub same_type : ValueType → RawValue → Bool
same_type t r = bytes_eq (value_type_name t) (value_type_name (raw_type r))

unfoldable pub next_value : ValueType → PropertiesStream → Next
unfolding element next_offset same_type
next_value t s = elim (element s) [
  | none ↦ undefined
  | some r ↦ if same_type t r then found r (record s { offset = next_offset s }) else bad_cast
]

-- `none` at the end, where *offset is undefined.
unfoldable pub next_value_type : PropertiesStream → Option ValueType
unfolding element
next_value_type s = elim (element s) [ none ↦ none | some r ↦ some (raw_type r) ]

unfoldable pub write_decoded : PropertiesStream → Decoded → Reading PropertiesStream
write_decoded s nothing = read s
write_decoded s failed = threw s
write_decoded s (decoded r) = read (write s r)

module _ (poco : Poco) where
  -- The body of the visitors of PropertiesStream::toJSON.
  unfoldable pub extract_raw : poco.Object → RawValue → poco.Object
  extract_raw value r =
      let typed =
        poco.set value type_key (poco.var_of (raw_string (value_type_name (raw_type r)))) in
      poco.set typed value_key (poco.var_of r)

  unfoldable pub array_of : poco.Object → List RawValue → List poco.Var
  unfolding extract_raw
  array_of value [] = []
  array_of value (r ∷ rs) =
      let value' = extract_raw value r in poco.of_object value' ∷ array_of value' rs

  unfoldable pub to_json : PropertiesStream → poco.Object
  unfolding array_of
  to_json s =
      poco.set poco.new_object stream_key (poco.of_array (array_of poco.new_object s.values))

  -- stream->getObject(i): a null pointer throws Poco::NullPointerException where it is used.
  unfoldable pub load_object : PropertiesStream → Option poco.Object → Reading PropertiesStream
  unfolding write_decoded
  load_object s none = threw s
  load_object s (some o) = write_decoded s (decode poco o)

  unfoldable pub load_elements : PropertiesStream → List poco.Var → Reading PropertiesStream
  unfolding load_object
  load_elements s [] = read s
  load_elements s (v ∷ vs) = continue (load_object s (poco.as_object v)) (λ s'. load_elements s' vs)

  unfoldable pub load_stream : PropertiesStream → Option (List poco.Var) → Reading PropertiesStream
  unfolding load_elements
  load_stream s none = read s
  load_stream s (some vs) = load_elements s vs

  unfoldable pub from_json : PropertiesStream → poco.Object → Reading PropertiesStream
  unfolding load_stream
  from_json s o = load_stream s (member_array poco (poco.get o stream_key))

  -- The text that a stream message stores, and fromJSON over what parses of it.
  unfoldable pub stream_text : PropertiesStream → Bytes
  unfolding to_json
  stream_text s = poco.stringify (to_json s)

  unfoldable pub load_parsed_stream :
      PropertiesStream → Option poco.Object → Reading PropertiesStream
  unfolding from_json
  load_parsed_stream s none = threw s
  load_parsed_stream s (some o) = from_json s o

  unfoldable pub load_stream_text : PropertiesStream → Bytes → Reading PropertiesStream
  unfolding load_parsed_stream
  load_stream_text s text = load_parsed_stream s (poco.parse text)
