-- ===== src/Message/Wire/Legacy/Tests.antt =====
-- The wire format with JSON properties, and a legacy record, at concrete messages.
use tiny_mq.Prelude.{
  ℕ, ◌%◌, ◌<◌, ◌≡◌, ◌≢◌, refl, ap, arith, true, false, ◌||◌, ◌==◌, some, [], ◌∷◌, Bytes, le_bytes,
  of_le, length, bytes_eq, length-le_bytes, of_le-le_bytes, ltb, ltb→lt, pos,
}
use tiny_mq.Message.{Message, Properties, property, shell, text_message, map_message, persistent}
use tiny_mq.Message.Wire.{to_bytes, from_bytes, loaded}
use tiny_mq.Message.Wire.Legacy.{Library, properties_to_json, properties_as_bytes}
use tiny_mq.Message.Wire.RoundTrip.{Fits, restored}
use tiny_mq.Message.Wire.Json.{json_codec, from_bytes-to_bytes_json}
use tiny_mq.Message.Wire.Legacy.Load.{legacy_record, reloaded, from_bytes-legacy_record}
use tiny_mq.Property.Poco.{Poco}
use tiny_mq.Body.{Body, text, map_of, type_of, data_as_bytes}
use tiny_mq.Body.Restore.{Restores}
use tiny_mq.Property.Json.{read, to_json, to_text, extract_value}
use tiny_mq.Property.Sample.{Fields, end, reread_fields, poco_of}
use tiny_mq.Property.Tests.{colour, colour_json, colour_printed, colour-Unique, colour-AllReadable}

below : (n : ℕ) → ltb n 1000 ≡ true → n < 9223372036854775808
below n h = omega (arith, ltb→lt n 1000 h)

abbrev lib : Library
lib = record {
  copy_to = le_bytes 16;
  copy_from = of_le;
  uuid_string = le_bytes 16;
  parse_uuid = λ bs. some (of_le bs);
  allocates = λ n. ltb n 1000;
  length-copy_to = length-le_bytes 16;
  copy_from-copy_to = λ u h. of_le-le_bytes 16 u h;
  parse_uuid-uuid_string = λ u h. ap some (of_le-le_bytes 16 u h);
  allocates-lt = below;
}

-- A map message, whose body and properties are one map.
abbrev sample : Message
sample = record (shell map_message) {
  number = pos 12;
  uuid = 77;
  reliability = persistent;
  properties = colour;
  body = data_as_bytes (poco_of colour_json) (map_of colour);
}

short : length (to_text (poco_of colour_json) colour) < 4294967296
unfolding to_text
short = omega arith

sample-Fits : Fits (json_codec (poco_of colour_json) lib) sample
sample-Fits = record {
  number = (omega arith, omega arith);
  uuid = omega arith;
  timestamp = (omega arith, omega arith);
  expiration = (omega arith, omega arith);
  delivery_time = (omega arith, omega arith);
  priority = (omega arith, omega arith);
  delivery_count = (omega arith, omega arith);
  message_id = omega arith;
  reply_to = omega arith;
  correlation_id = omega arith;
  type = omega arith;
  properties = short;
}

same_class : type_of (map_of colour) ≡ map_message
unfolding type_of
same_class = refl

from_bytes-to_bytes_json_example :
    (rs : Properties) × (r : Body) × (from_bytes
        (json_codec (poco_of colour_json) lib)
        (shell map_message)
        (to_bytes (json_codec (poco_of colour_json) lib) sample)
      ≡ loaded
          (record (restored (json_codec (poco_of colour_json) lib) (shell map_message) sample rs) {
            body = data_as_bytes (poco_of colour_json) r;
          }))
    × ((name : Bytes) → property rs name ≡ property colour name)
    × Restores (poco_of colour_json) (map_of colour) (read r)
from_bytes-to_bytes_json_example =
    from_bytes-to_bytes_json (poco_of colour_json) lib (shell map_message) sample (map_of colour)
      sample-Fits colour-Unique colour-AllReadable (λ h. colour_printed) refl same_class refl
      (colour-Unique, colour-AllReadable, colour_printed) (λ h. refl)

abbrev old_sample : Message
old_sample = record sample { kind = text_message; body = 1 ∷ 2 ∷ [] }

abbrev old_json : Fields
old_json = properties_to_json (poco_of end) lib old_sample

abbrev old_poco : Poco
old_poco = poco_of old_json

old_printed : properties_to_json old_poco lib old_sample ≡ old_json
unfolding properties_to_json to_json reread_fields bytes_eq extract_value
old_printed = refl

filled : colour ≢ []
filled h = cc

one_fits : lib.allocates (length (properties_as_bytes old_poco lib old_sample)) ≡ true
unfolding properties_as_bytes
one_fits = refl

no_magic :
    (length (properties_as_bytes old_poco lib old_sample) % 256 == 1
      || length (properties_as_bytes old_poco lib old_sample) % 256 == 2)
    ≡ false
unfolding properties_as_bytes
no_magic = refl

same_text : type_of (text (1 ∷ 2 ∷ [])) ≡ text_message
unfolding type_of
same_text = refl

from_bytes-legacy_record_example :
    (rs : Properties) × (r : Body) × (from_bytes
        (json_codec old_poco lib)
        (shell text_message)
        (legacy_record old_poco lib old_sample)
      ≡ loaded (record (reloaded old_poco lib (shell text_message) old_sample rs) {
        body = data_as_bytes old_poco r;
      }))
    × ((name : Bytes) → property rs name ≡ property colour name)
    × Restores old_poco (text (1 ∷ 2 ∷ [])) (read r)
unfolding data_as_bytes
from_bytes-legacy_record_example =
    from_bytes-legacy_record old_poco lib (shell text_message) old_sample (text (1 ∷ 2 ∷ [])) filled
      colour-Unique colour-AllReadable old_printed (omega arith) one_fits no_magic same_text refl tt
      (λ h. refl)
