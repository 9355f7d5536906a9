-- ===== src/Message.antt =====
-- Message.h, Message.cpp, MessageProperty.h: the message record, its JMS headers and its typed
-- properties. The storage and delivery fields that Consumer, Producer and Destination write as
-- friends are fields here. The in-flight link is not: see Consumer/InFlight.
pub mod Wire
mod Tests
use tiny_mq.Prelude.{
  ℕ, zero, ◌-◌, ◌^◌, ◌≡◌, refl, Bool, true, false, ◌&&◌, not, Option, none, some, List, [], ◌∷◌,
  ◌++◌, arith, ltb, if◌then◌else◌, ℤ, pos, negsuc, ltb_ℤ, leb_ℤ, Bytes, bytes_eq, bytes_eq_refl,
}

pub data Reliability : Type 0 where
  not_persistent persistent : Reliability

pub data MessageType : Type 0 where
  undefined text_message stream_message bytes_message map_message object_message : MessageType

-- Poco::Nullable<T> for each property type; `none` is the null value. A float or a double is its
-- IEEE bit pattern.
pub data PropertyValue : Type 0 where
  boolean : Option Bool → PropertyValue
  byte short integer long : Option ℤ → PropertyValue
  character : Option ℕ → PropertyValue
  floating double : Option ℕ → PropertyValue
  string byte_array : Option Bytes → PropertyValue

-- std::unordered_map<std::string, Poco::Any>, in insertion order.
abbrev pub Properties : Type 0
Properties = List (Bytes × PropertyValue)

unfoldable pub property : Properties → Bytes → Option PropertyValue
property [] name = none
property ((k, v) ∷ ps) name = if bytes_eq k name then some v else property ps name

-- `emplace`: a name that is there keeps its value.
unfoldable pub set_property : Properties → Bytes → PropertyValue → Properties
set_property [] name value = (name, value) ∷ []
set_property ((k, v) ∷ ps) name value =
    if bytes_eq k name then (k, v) ∷ ps else (k, v) ∷ set_property ps name value

pub record Headers : Type 0 where
  pub message_id : Bytes
  pub timestamp : ℤ
  pub expiration : ℤ
  pub delivery_time : ℤ
  pub priority : ℤ
  pub delivery_count : ℤ
  pub redelivered : Bool
  pub reply_to : Bytes
  pub correlation_id : Bytes
  pub type : Bytes

abbrev pub default_headers : Headers
default_headers = record {
  message_id = [];
  timestamp = pos 0;
  expiration = pos 0;
  delivery_time = pos 0;
  priority = pos 4;
  delivery_count = pos 0;
  redelivered = false;
  reply_to = [];
  correlation_id = [];
  type = [];
}

-- std::numeric_limits<Poco::UInt32>::max(): no record location is cached.
abbrev pub no_tom : ℕ
no_tom = 2 ^ 32 - 1

-- The paths that older records carry; nothing else reads them.
pub record Paths : Type 0 where
  pub data_path : Bytes
  pub properties_path : Bytes

pub record PersistentInfo : Type 0 where
  pub transaction : Paths
  pub payload : Paths
  pub sent : Paths

abbrev pub no_paths : Paths
no_paths = record { data_path = []; properties_path = [] }

-- `body` is what dataAsBytes() gives of the subclass's payload. A Poco::UUID is a number below
-- 2 ^ 128, the null UUID is 0.
pub record Message : Type 0 where
  pub number : ℤ
  pub uuid : ℕ
  pub reliability : Reliability
  pub kind : MessageType
  pub headers : Headers
  pub properties : Properties
  pub body : Bytes
  pub cached_storage_bytes : Bytes
  pub storage_tom_id : ℕ
  pub storage_offset : ℕ
  pub pending_delivery_delay : ℤ
  pub persistent_info : PersistentInfo

-- What make_shared<...Message>() gives, before a field is set.
abbrev pub shell : MessageType → Message
shell kind = record {
  number = pos 0;
  uuid = 0;
  reliability = not_persistent;
  kind = kind;
  headers = default_headers;
  properties = [];
  body = [];
  cached_storage_bytes = [];
  storage_tom_id = no_tom;
  storage_offset = 0;
  pending_delivery_delay = pos 0;
  persistent_info = record { transaction = no_paths; payload = no_paths; sent = no_paths };
}

abbrev pub is_persistent_mode : Reliability → Bool
is_persistent_mode not_persistent = false
is_persistent_mode persistent = true

abbrev pub is_persistent : Message → Bool
is_persistent m = is_persistent_mode m.reliability

abbrev pub is_zero : ℤ → Bool
is_zero (pos zero) = true
is_zero _ = false

-- An expiration of 0 means never.
unfoldable pub is_expired : Message → ℤ → Bool
is_expired m now_ms = not (is_zero m.headers.expiration) && leb_ℤ m.headers.expiration now_ms

-- The tag of Message::Type, which is the first byte of a stored record.
abbrev pub type_tag : MessageType → ℕ
type_tag undefined = 0
type_tag text_message = 1
type_tag stream_message = 2
type_tag bytes_message = 3
type_tag map_message = 4
type_tag object_message = 5

-- std::clamp(priority, 0, 9).
unfoldable pub clamp_priority : ℤ → ℕ
clamp_priority (negsuc n) = 0
clamp_priority (pos n) = if ltb 9 n then 9 else n

-- A property that is set for the first time reads back; one that is there keeps its first value.
pub property-set_property :
    (ps : Properties) (name : Bytes) (value : PropertyValue)
    → property (set_property ps name value) name
      ≡ (elim (property ps name) [ none ↦ some value | some old ↦ some old ])
unfolding property set_property
property-set_property [] name value = ground (arith, bytes_eq_refl name)
property-set_property ((k, v) ∷ ps) name value = ground (arith, property-set_property ps name value)
