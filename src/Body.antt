-- ===== src/Body.antt =====
-- TextMessage, BytesMessage, ObjectMessage, MapMessage, StreamMessage: the payload that each
-- subclass of Message adds, its accessors, and its bytes in a stored record.
pub mod ByteArray
pub mod Restore
mod Tests
use tiny_mq.Prelude.{
  ℕ, ◌+◌, ◌%◌, ◌^◌, ◌≤◌, Bool, true, false, Option, none, some, List, [], ◌∷◌, ◌++◌, ltb,
  if◌then◌else◌, Bytes, le_bytes, of_le, length, take, drop,
}
use tiny_mq.Prelude.Maps.{keys, bytes_key}
use tiny_mq.Message.{
  Properties, PropertyValue, property, set_property, MessageType, undefined, text_message,
  stream_message, bytes_message, map_message, object_message,
}
use tiny_mq.Property.{RawValue}
use tiny_mq.Property.Poco.{Poco}
use tiny_mq.Property.Json
use tiny_mq.Property.Json.{Reading, read, threw}
use tiny_mq.Property.Stream
use tiny_mq.Property.Stream.{PropertiesStream, new_stream}

pub data Body : Type 0 where
  text bytes : Bytes → Body
  -- the serialized object and its class name
  object : Bytes → Bytes → Body
  map_of : Properties → Body
  stream : PropertiesStream → Body

-- What a default constructor gives.
unfoldable pub new_body : MessageType → Option Body
unfolding new_stream
new_body undefined = none
new_body text_message = some (text [])
new_body stream_message = some (stream new_stream)
new_body bytes_message = some (bytes [])
new_body map_message = some (map_of [])
new_body object_message = some (object [] [])

unfoldable pub type_of : Body → MessageType
type_of (text s) = text_message
type_of (bytes bs) = bytes_message
type_of (object bs name) = object_message
type_of (map_of ps) = map_message
type_of (stream s) = stream_message

unfoldable pub clear_data : Body → Body
clear_data (text s) = text []
clear_data (bytes bs) = bytes []
clear_data (object bs name) = object [] []
clear_data (map_of ps) = map_of []
clear_data (stream s) = stream (Stream.clear s)

-- setText, setBytes, setBody, MapMessage::set and StreamMessage::write; of another class of message
-- they do not exist, and nothing changes.
unfoldable pub set_text : Bytes → Body → Body
set_text s (text old) = text s
set_text s b = b

unfoldable pub set_bytes : Bytes → Body → Body
set_bytes bs (bytes old) = bytes bs
set_bytes bs b = b

unfoldable pub set_body : Bytes → Bytes → Body → Body
set_body serialized class_name (object old name) = object serialized class_name
set_body serialized class_name b = b

unfoldable pub set_member : Bytes → PropertyValue → Body → Body
set_member name v (map_of ps) = map_of (set_property ps name v)
set_member name v b = b

unfoldable pub write_value : RawValue → Body → Body
write_value r (stream s) = stream (Stream.write s r)
write_value r b = b

-- MapMessage::names.
abbrev pub names : Properties → List Bytes
names ps = keys ps

-- [uint32 LE class name length][class name][body]: the length is cut to 32 bits, and as much of the
-- name is written.
unfoldable pub object_bytes : Bytes → Bytes → Bytes
object_bytes body name = le_bytes 4 (length name) ++ (take (length name % 2 ^ 32) name ++ body)

-- Both are left empty where the bytes do not hold the length, or not the class name.
unfoldable pub set_object_bytes : Bytes → Body
set_object_bytes bs =
    if ltb (length bs) 4
    then object [] []
    else if ltb (length (drop 4 bs)) (of_le (take 4 bs))
    then object [] []
    else object (drop (of_le (take 4 bs)) (drop 4 bs)) (take (of_le (take 4 bs)) (drop 4 bs))

abbrev pub wrap {ℓ κ} : {A : Type ℓ} {B : Type κ} → (A → B) → Reading A → Reading B
wrap f (read a) = read (f a)
wrap f (threw a) = threw (f a)

module _ (poco : Poco) where
  abbrev pub map_bytes : Properties → Bytes
  map_bytes [] = []
  map_bytes (p ∷ ps) = Json.to_text poco (p ∷ ps)

  unfoldable pub data_as_bytes : Body → Bytes
  unfolding object_bytes
  data_as_bytes (text s) = s
  data_as_bytes (bytes bs) = bs
  data_as_bytes (object bs name) = object_bytes bs name
  data_as_bytes (map_of ps) = map_bytes ps
  data_as_bytes (stream s) = if Stream.empty s then [] else Stream.stream_text poco s

  unfoldable pub set_map_bytes : Bytes → Reading Properties
  set_map_bytes [] = read []
  set_map_bytes (b ∷ bs) = Json.load_text poco [] (b ∷ bs)

  unfoldable pub set_stream_bytes : PropertiesStream → Bytes → Reading PropertiesStream
  set_stream_bytes s [] = read (Stream.clear s)
  set_stream_bytes s (b ∷ bs) = Stream.load_stream_text poco (Stream.clear s) (b ∷ bs)

  unfoldable pub set_data_from_bytes : Body → Bytes → Reading Body
  unfolding set_object_bytes set_map_bytes set_stream_bytes
  set_data_from_bytes (text s) bs = read (text bs)
  set_data_from_bytes (bytes d) bs = read (bytes bs)
  set_data_from_bytes (object d name) bs = read (set_object_bytes bs)
  set_data_from_bytes (map_of ps) bs = wrap map_of (set_map_bytes bs)
  set_data_from_bytes (stream s) bs = wrap stream (set_stream_bytes s bs)

  abbrev pub reset_body : Option Body → Bytes → Reading Bytes
  reset_body none bs = read bs
  reset_body (some b) bs = wrap data_as_bytes (set_data_from_bytes b bs)

  -- setDataFromBytes by the class, on a message whose body is kept as its bytes: what is set does not
  -- depend on what the body was.
  unfoldable pub set_data : MessageType → Bytes → Reading Bytes
  unfolding new_body data_as_bytes set_data_from_bytes
  set_data kind bs = reset_body (new_body kind) bs
