-- ===== src/Property/Tests.antt =====
-- The theorems on properties and streams at concrete values.
use tiny_mq.Prelude.{◌≡◌, ◌≢◌, refl, arith, none, some, [], ◌∷◌, ◌++◌, Bytes, bytes_eq, map, pos}
use tiny_mq.Message.{Properties, property, integer, byte_array, string}
use tiny_mq.Selector.Tokenizer.{codes}
use tiny_mq.Property.{
  raw_byte_array, raw_integer, raw_string, raw_type, value_type_name, property_type, raw_value,
  byte_array_type, property_type, raw_value, byte_array_type,
}
use tiny_mq.Property.Json
use tiny_mq.Property.Json.Members.{Unique, AllReadable}
use tiny_mq.Property.Json.Null.{load_text-null}
use tiny_mq.Property.Stream
use tiny_mq.Property.Stream.{PropertiesStream}
use tiny_mq.Property.Stream.Cursor
use tiny_mq.Property.Stream.RoundTrip.{without_empty, load_stream_text-stream_text}
use tiny_mq.Property.Sample.{Var, null, raw, obj, arr, nil, cons, Fields, end, field, poco_of}

abbrev pub member : Bytes → Var → Fields
member type_name v = field (codes "type") (raw (raw_string type_name)) (field (codes "value") v end)

abbrev pub colour : Properties
colour =
    (codes "size", integer (some (pos 3))) ∷ (codes "key", byte_array (some (200 ∷ 1 ∷ []))) ∷ []

abbrev pub colour_json : Fields
colour_json = field (codes "size") (obj (member (codes "INTEGER") (raw (raw_integer (pos 3))))) (
    field (codes "key") (obj (member (codes "BYTE_ARRAY") (raw (raw_byte_array (200 ∷ 1 ∷ [])))))
      end)

pub colour_printed : Json.to_json (poco_of colour_json) colour ≡ colour_json
unfolding Json.to_json Json.extract_value Json.value_var value_type_name bytes_eq property_type
    raw_value
colour_printed = refl

pub colour-Unique : Unique colour
unfolding property bytes_eq
colour-Unique = (refl, (refl, tt))

pub colour-AllReadable : AllReadable colour
unfolding raw_value
colour-AllReadable = (
  (raw_integer (pos 3), refl, tt),
  ((raw_byte_array (200 ∷ 1 ∷ []), refl, (omega arith, (omega arith, tt))), tt),
)

abbrev nulls : Properties
nulls = (codes "a", string none) ∷ []

abbrev nulls_json : Fields
nulls_json = field (codes "a") (obj (member (codes "STRING") null)) end

nulls_printed : Json.to_json (poco_of nulls_json) nulls ≡ nulls_json
unfolding Json.to_json Json.extract_value Json.value_var value_type_name bytes_eq property_type
    raw_value
nulls_printed = refl

nulls-Unique : Unique nulls
unfolding property
nulls-Unique = (refl, tt)

find_null : property nulls (codes "a") ≡ some (string none)
unfolding property bytes_eq
find_null = refl

is_null : raw_value (string none) ≡ none
unfolding raw_value
is_null = refl

no_array : property_type (string none) ≢ byte_array_type
unfolding property_type
no_array h = ground arith

load_text-null_example :
    (rs : Properties) × (Json.load_text
        (poco_of nulls_json)
        []
        (Json.to_text (poco_of nulls_json) nulls)
      ≡ Json.threw rs)
load_text-null_example =
    load_text-null (poco_of nulls_json) nulls (codes "a") (string none) nulls-Unique find_null
      is_null no_array nulls_printed

abbrev pub spoken : PropertiesStream
spoken = record { values = raw_byte_array [] ∷ raw_string (codes "x") ∷ []; offset = some 1 }

abbrev pub spoken_json : Fields
spoken_json =
    field (codes "stream")
      (arr (
        cons (obj (member (codes "BYTE_ARRAY") (raw (raw_byte_array []))))
          (cons (obj (member (codes "STRING") (raw (raw_string (codes "x"))))) nil)))
      end

pub spoken_printed : Stream.to_json (poco_of spoken_json) spoken ≡ spoken_json
unfolding Stream.to_json Stream.extract_raw value_type_name bytes_eq raw_type
spoken_printed = refl

load_stream_text-stream_text_example :
    Stream.load_stream_text
      (poco_of spoken_json)
      Stream.new_stream
      (Stream.stream_text (poco_of spoken_json) spoken)
    ≡ Json.read (record (Stream.new_stream) {
      values = Stream.new_stream.values ++ without_empty spoken.values;
    })
load_stream_text-stream_text_example =
    load_stream_text-stream_text (poco_of spoken_json) spoken Stream.new_stream (tt, tt)
      spoken_printed

read_all-reset_example :
    Cursor.read_all (map raw_type spoken.values) (Stream.reset spoken)
    ≡ some (spoken.values, record spoken { offset = none })
read_all-reset_example = Cursor.read_all-reset spoken
