-- ===== src/Consumer.antt =====
-- Consumer.h, Consumer.cpp, RedeliveryPolicy.h: one consumer of a destination. The environment
-- holds what its functions change beside the consumer itself: the store, the destination's
-- scheduler, the queue, and the messages that were handed to Destination::deadLetter. Clock
-- readings are arguments; one reading serves a redelivery and its scheduling.
pub mod InFlight
pub mod Receive
pub mod Acknowledge
pub mod Send
pub mod Laws
pub mod Redelivery
mod Tests
use tiny_mq.Prelude.{
  ℕ, zero, suc, ◌+◌, ◌-◌, ◌*◌, ◌^◌, Bool, true, false, ◌&&◌, not, Option, none, some, List, [], ◌∷◌,
  ◌==◌, if◌then◌else◌, ℤ, pos, negsuc, ◌+ℤ◌, ltb_ℤ, Bytes,
}
use tiny_mq.Message.{Message, Headers, is_persistent, no_tom}
use tiny_mq.Message.Wire.{Codec, refresh_cached_storage_bytes}
use tiny_mq.PriorityQueue.{PriorityQueue, enqueue}
use tiny_mq.PriorityQueue.Bands.{Moodycamel}
use tiny_mq.Scheduler.{Scheduler, Delivery, enqueue_or_schedule}

-- linear_storage::Record: the file and the offset of a record.
pub record Location : Type 0 where
  pub tom_id : ℕ
  pub offset : ℕ

-- What a consumer asks of ConcurrentLinearStorage; `none` is a record that is not found, whose tomId
-- is the largest UInt32.
pub record Storage : Type 1 where
  pub Store : Type 0
  pub record_of : Store → ℕ → Option Location
  pub data_of : Store → Location → Bytes
  pub append : Store → ℕ → Bytes → Store × Location
  pub append_batch : Store → List (ℕ × Bytes) → Store
  pub scan : Store → List ((ℕ × Location) × Bytes)
  pub remove_async : Store → ℕ → Location → Store

-- Session::AcknowledgeMode.
pub data AcknowledgeMode : Type 0 where
  session_transacted auto_acknowledge client_acknowledge individual_acknowledge : AcknowledgeMode
  dups_ok_acknowledge : AcknowledgeMode

pub record RedeliveryPolicy : Type 0 where
  pub max_redeliveries : ℤ
  pub backoff_ms : ℤ
  pub max_backoff_ms : ℤ

-- The milliseconds that pow(2.0, deliveryCount - 1) and the product give, which are exact as long as
-- backoffMs is below 2 ^ 53. redeliver has counted at least one delivery before.
unfoldable pub raw_delay_ms : ℤ → ℤ → ℤ
raw_delay_ms (pos backoff) (pos count) = pos (backoff * 2 ^ (count - 1))
raw_delay_ms _ _ = pos 0

-- min(backoffMs * 2^(deliveryCount-1), maxBackoffMs).
unfoldable pub backoff_delay_ms : RedeliveryPolicy → ℤ → ℤ
unfolding raw_delay_ms
backoff_delay_ms policy count =
    let raw = raw_delay_ms policy.backoff_ms count in
    if ltb_ℤ raw policy.max_backoff_ms then raw else policy.max_backoff_ms

module _ (lib : Moodycamel) (storage : Storage) (codec : Codec) where
  pub record Environment : Type 0 where
    pub store : storage.Store
    pub scheduler : Scheduler
    pub queue_id : ℕ
    pub queue : PriorityQueue lib
    pub dead_letters : List Message

  -- The record's location: the cached one, or a lookup by uuid.
  unfoldable pub location : storage.Store → Message → Option Location
  location store m =
      if m.storage_tom_id == no_tom
      then storage.record_of store m.uuid
      else some (record { tom_id = m.storage_tom_id; offset = m.storage_offset })

  unfoldable pub remove_record : storage.Store → Message → storage.Store
  unfolding location
  remove_record store m = elim (location store m) [
    | none ↦ store
    | some l ↦ storage.remove_async store m.uuid l
  ]

  unfoldable pub remove_persistent : storage.Store → Message → storage.Store
  unfolding remove_record
  remove_persistent store m = if is_persistent m then remove_record store m else store

  unfoldable pub enqueue_all : PriorityQueue lib → List Delivery → PriorityQueue lib
  enqueue_all q [] = q
  enqueue_all q (d ∷ ds) = enqueue_all (enqueue lib q d.msg) ds

  -- The destination's enqueueOrSchedule onto the consumer's queue.
  unfoldable pub deliver_later : ℤ → Environment → Message → Environment
  unfolding enqueue_all
  deliver_later now env m =
      let (scheduler', deliveries) = enqueue_or_schedule now now env.scheduler env.queue_id m in
      record env { scheduler = scheduler'; queue = enqueue_all env.queue deliveries }

  abbrev marked_redelivered : Message → Message
  marked_redelivered m = record m {
    headers = record (m.headers) {
      redelivered = true;
      delivery_count = m.headers.delivery_count +ℤ pos 1;
    };
  }

  abbrev with_delivery_time : ℤ → Message → Message
  with_delivery_time t m = record m { headers = record (m.headers) { delivery_time = t } }

  abbrev exhausted : RedeliveryPolicy → Message → Bool
  exhausted policy m =
      not (ltb_ℤ policy.max_redeliveries (pos 0))
      && ltb_ℤ policy.max_redeliveries m.headers.delivery_count

  -- Destination::deadLetter is Destination/DeadLetter: without a dead-letter queue it drops the message.
  unfoldable pub dead_letter : Environment → Message → Environment
  unfolding remove_persistent
  dead_letter env m = record env {
    dead_letters = m ∷ env.dead_letters;
    store = remove_persistent env.store m;
  }

  abbrev backs_off : RedeliveryPolicy → Bool → Bool
  backs_off policy session_closing = not session_closing && ltb_ℤ (pos 0) policy.backoff_ms

  unfoldable pub requeue : RedeliveryPolicy → ℤ → Bool → Environment → Message → Environment
  unfolding backoff_delay_ms deliver_later
  requeue policy now session_closing env m =
      if backs_off policy session_closing
      then deliver_later now env (
          refresh_cached_storage_bytes codec
            (with_delivery_time (now +ℤ backoff_delay_ms policy m.headers.delivery_count) m))
      else record env {
        queue =
            enqueue lib env.queue
              (refresh_cached_storage_bytes codec (with_delivery_time (pos 0) m));
      }

  unfoldable pub redeliver : RedeliveryPolicy → ℤ → Bool → Environment → Message → Environment
  unfolding dead_letter requeue
  redeliver policy now session_closing env m =
      let m' = marked_redelivered m in
      if exhausted policy m' then dead_letter env m' else requeue policy now session_closing env m'
