-- ===== src/Producer.antt =====
-- Producer.h, Producer.cpp: the options of a send and what a producer writes into a message before
-- the destination gets it. A clock reading is an argument; `uuid_text` is Poco's text of a UUID.
pub mod Options
mod Tests
use tiny_mq.Prelude.{
  ℕ, Bool, true, false, ◌&&◌, ◌||◌, not, Option, none, some, [], ◌∷◌, if◌then◌else◌, is_empty, ℤ,
  pos, ltb_ℤ, ◌+ℤ◌, Bytes,
}
use tiny_mq.Message.{Message, Headers, Reliability, not_persistent, is_zero}
use tiny_mq.Message.Wire.{max_future_header_ms}

pub record SendOptions : Type 0 where
  pub delivery_mode : Reliability
  pub priority : ℤ
  pub time_to_live : ℤ
  pub delivery_delay : ℤ

abbrev pub default_options : SendOptions
default_options = record {
  delivery_mode = not_persistent;
  priority = pos 4;
  time_to_live = pos 0;
  delivery_delay = pos 0;
}

-- What a producer keeps beside its queue of uncommitted messages.
pub record Producer : Type 0 where
  pub disable_message_id : Bool
  pub disable_message_timestamp : Bool
  pub defaults : Option SendOptions

-- validateSendOptions: `false` is std::invalid_argument.
unfoldable pub validate_send_options : SendOptions → Bool
validate_send_options opts =
    if ltb_ℤ opts.priority (pos 0) || ltb_ℤ (pos 9) opts.priority
    then false
    else if ltb_ℤ opts.time_to_live (pos 0) || ltb_ℤ opts.delivery_delay (pos 0)
    then false
    else if ltb_ℤ (pos max_future_header_ms) opts.time_to_live
        || ltb_ℤ (pos max_future_header_ms) opts.delivery_delay
    then false
    else true

-- `ms > 0 ? nowMs + ms : 0`.
abbrev pub from_now : ℤ → ℤ → ℤ
from_now now ms = if ltb_ℤ (pos 0) ms then now +ℤ ms else pos 0

-- The delay of a transactional send waits for the commit.
unfoldable pub apply_options : ℤ → SendOptions → Bool → Message → Message
apply_options now opts transactional m =
    let h : Headers = record (m.headers) {
      priority = opts.priority;
      expiration = from_now now opts.time_to_live;
      delivery_time = if transactional then pos 0 else from_now now opts.delivery_delay;
    } in
    record m {
      reliability = opts.delivery_mode;
      headers = h;
      pending_delivery_delay = if transactional then opts.delivery_delay else pos 0;
    }

-- setDefault; `none` is std::invalid_argument, the producer being as it was.
unfoldable pub set_default : Producer → SendOptions → Option Producer
unfolding validate_send_options
set_default p opts =
    if validate_send_options opts then some (record p { defaults = some opts }) else none

-- The headers that dispatch fills in.
unfoldable pub stamp : (ℕ → Bytes) → ℤ → Producer → Message → Message
stamp uuid_text now p m =
    let id =
      (if p.disable_message_id
        then []
        else if is_empty m.headers.message_id
        then b'I' ∷ b'D' ∷ b':' ∷ uuid_text m.uuid
        else m.headers.message_id) in
    let timestamp =
      (if p.disable_message_timestamp
        then pos 0
        else if is_zero m.headers.timestamp
        then now
        else m.headers.timestamp) in
    record m { headers = record (m.headers) { message_id = id; timestamp = timestamp } }

-- The message that send(message) hands to the destination.
unfoldable pub prepare_send : (ℕ → Bytes) → ℤ → Producer → Bytes → Message → Message
unfolding stamp apply_options
prepare_send uuid_text now p id m = elim p.defaults [
  | none ↦ stamp uuid_text now p m
  | some opts ↦ stamp uuid_text now p (apply_options now opts (not (is_empty id)) m)
]

-- The one that send(message, opts) hands over; `none` is std::invalid_argument.
unfoldable pub prepare_send_with :
    (ℕ → Bytes) → ℤ → Producer → Bytes → SendOptions → Message → Option Message
unfolding stamp apply_options validate_send_options
prepare_send_with uuid_text now p id opts m =
    if validate_send_options opts
    then some (stamp uuid_text now p (apply_options now opts (not (is_empty id)) m))
    else none
