-- ===== src/Message/Wire/Tests.antt =====
-- A codec that satisfies the laws, and the theorems on the wire format at a message with one
-- property and a delivery time.
use tiny_mq.Prelude.{
  ◌≡◌, refl, [], ◌∷◌, some, arith, pos, le_bytes, of_le, length-le_bytes, of_le-le_bytes,
}
use tiny_mq.Message.{Message, Properties, PropertyValue, shell, text_message, persistent}
use tiny_mq.Property.Json.{read}
use tiny_mq.Message.Wire.{
  Codec, to_bytes, stored_form, tail_bytes, loaded, patch_delivery_time_in_bytes,
}
use tiny_mq.Message.Wire.RoundTrip.{Fits, JsonLoads}
use tiny_mq.Message.Wire.Patch.{patch_delivery_time_in_bytes-stored_form, InSync}

abbrev colour : Properties
colour = (99 ∷ [], PropertyValue.integer (some (pos 3))) ∷ []

-- The JSON text `c` stands for the one property map of the tests.
abbrev pub codec : Codec
codec = record {
  copy_to = le_bytes 16;
  copy_from = of_le;
  stringify = λ ps. 99 ∷ [];
  load_json = λ ps b. read colour;
  from_legacy = λ m b. loaded m;
  set_data = λ kind b. read b;
  length-copy_to = length-le_bytes 16;
  copy_from-copy_to = λ u h. of_le-le_bytes 16 u h;
}

abbrev sample : Message
sample = record (shell text_message) {
  number = pos 12;
  uuid = 77;
  reliability = persistent;
  headers = record ((shell text_message).headers) {
    delivery_time = pos 2000;
    priority = pos 12;
    expiration = pos 9000;
    reply_to = 113 ∷ [];
  };
  properties = colour;
  body = 1 ∷ 2 ∷ [];
}

sample-Fits : Fits codec sample
sample-Fits = record {
  number = (omega arith, omega arith);
  uuid = omega arith;
  timestamp = (omega arith, omega arith);
  expiration = (omega arith, omega arith);
  delivery_time = (omega arith, omega arith);
  priority = (omega arith, omega arith);
  delivery_count = (omega arith, omega arith);
  message_id = omega arith;
  reply_to = omega arith;
  correlation_id = omega arith;
  type = omega arith;
  properties = omega arith;
}

sample-JsonLoads : JsonLoads codec sample.properties colour
sample-JsonLoads = (omega arith, refl)

patch_delivery_time_in_bytes_example :
    patch_delivery_time_in_bytes (stored_form codec sample) (pos 0)
    ≡ stored_form codec
        (record sample { headers = record (sample.headers) { delivery_time = pos 0 } })
patch_delivery_time_in_bytes_example = patch_delivery_time_in_bytes-stored_form codec sample (pos 0)

abbrev pub cached : Message
cached = record sample { cached_storage_bytes = stored_form codec sample }

pub cached-InSync : InSync codec cached
unfolding stored_form to_bytes tail_bytes
cached-InSync = refl
