-- ===== src/Destination.antt =====
-- Destination.h, Destination.cpp: a queue or a topic, with its consumers, its durable
-- subscriptions, its store, transaction buffer and scheduler. Queues and stores are shared between
-- objects, and are named by numbers here; the destination's own store is 0. The hash maps are lists
-- of pairs, in the order in which a loop over the map meets them; new keys go to the end. `now` is
-- the clock reading of a call and `fresh` gives the random UUIDs that it creates.
pub mod Consumers
pub mod Names
pub mod Registry
pub mod Keeps
pub mod Steps
pub mod Lifecycle
pub mod Subscriptions
pub mod DeadLetter
pub mod Transactions
pub mod Sends
pub mod Fanout
pub mod Replay
mod Tests
use tiny_mq.Prelude.{
  ℕ, ◌+◌, Bool, true, false, ◌&&◌, not, Option, none, some, List, [], ◌∷◌, ◌==◌, if◌then◌else◌, ℤ,
  pos, is_empty, Bytes,
}
use tiny_mq.Message.{
  Message, MessageType, text_message, stream_message, bytes_message, map_message, object_message,
  persistent, is_persistent, shell,
}
use tiny_mq.Message.Wire.{
  Codec, stored_form, patch_cached_delivery_time, priority_from_storage_bytes,
  delivery_time_from_storage_bytes,
}
use tiny_mq.PriorityQueue.{PriorityQueue, enqueue, empty, update}
use tiny_mq.PriorityQueue.Bands.{Moodycamel}
use tiny_mq.Scheduler.{Scheduler, new_scheduler, Delivery, enqueue_or_schedule}
use tiny_mq.TransactionBuffer.{TransactionBuffer, recover}
use tiny_mq.Consumer.{Storage, Location, Environment}
use tiny_mq.Consumer.Send.{push}

-- destination::Type.
pub data DestinationType : Type 0 where
  queue topic temporary_queue temporary_topic : DestinationType

abbrev pub is_queue_family : DestinationType → Bool
is_queue_family queue = true
is_queue_family temporary_queue = true
is_queue_family topic = false
is_queue_family temporary_topic = false

-- What a destination uses of a consumer. A missing selector matches everything.
pub record Endpoint : Type 0 where
  pub queue : ℕ
  pub store : ℕ
  pub selects : Message → Bool

-- DurableSubState; `active` is the uuid of the connected consumer, 0 while there is none.
pub record DurableSub : Type 0 where
  pub name : Bytes
  pub path : Bytes
  pub store : ℕ
  pub active : ℕ
  pub selects : Message → Bool

abbrev pub is_offline : DurableSub → Bool
is_offline sub = sub.active == 0

module _ (lib : Moodycamel) (storage : Storage) (codec : Codec) where
  pub record Destination : Type 0 where
    pub kind : DestinationType
    pub message_counter : ℕ
    pub consumers : List (ℕ × Endpoint)
    pub producers : List (ℕ × Bool)
    pub queue : Option ℕ
    pub default_consumer : Option ℕ
    pub durable_subs : List (Bytes × DurableSub)
    pub consumer_to_sub : List (ℕ × Bytes)
    pub queues : ℕ → PriorityQueue lib
    pub next_queue : ℕ
    pub stores : ℕ → storage.Store
    pub next_store : ℕ
    pub buffer : TransactionBuffer
    pub scheduler : Scheduler

  -- The constructor, over the store of its directory, whose transactions a restart has rolled back.
  abbrev pub new_destination : DestinationType → storage.Store → TransactionBuffer → Destination
  new_destination kind store buffer = record {
    kind = kind;
    message_counter = 0;
    consumers = [];
    producers = [];
    queue = none;
    default_consumer = none;
    durable_subs = [];
    consumer_to_sub = [];
    queues = λ q. empty lib;
    next_queue = 0;
    stores = λ s. store;
    next_store = 1;
    buffer = recover buffer;
    scheduler = new_scheduler;
  }

  abbrev pub environment : Destination → Endpoint → Environment lib storage codec
  environment d c = record {
    store = d.stores c.store;
    scheduler = d.scheduler;
    queue_id = c.queue;
    queue = d.queues c.queue;
    dead_letters = [];
  }

  abbrev or_else : Option TransactionBuffer → TransactionBuffer → TransactionBuffer
  or_else none old = old
  or_else (some b) old = b

  abbrev pub pushed :
      Destination
      → Endpoint
      → (Option TransactionBuffer × Environment lib storage codec) × PriorityQueue lib
      → Destination × PriorityQueue lib
  pushed d c ((buffer, env), waiting) = (
    record d {
      buffer = or_else buffer d.buffer;
      scheduler = env.scheduler;
      stores = update d.stores c.store env.store;
      queues = update d.queues c.queue env.queue;
    },
    waiting,
  )

  -- One turn of the loop of save: push to a consumer. `waiting` is the producer's queue.
  unfoldable pub push_to :
      ℤ
      → (ℕ → ℕ)
      → Bytes
      → ℤ
      → Message
      → ℕ × Endpoint
      → Destination × PriorityQueue lib
      → Destination × PriorityQueue lib
  unfolding push
  push_to now fresh id number m (uuid, c) (d, waiting) = pushed d c (
      push lib storage codec c.selects now number (fresh uuid) id (some d.buffer) (environment d c)
        waiting m)

  unfoldable pub push_all :
      ℤ
      → (ℕ → ℕ)
      → Bytes
      → ℤ
      → Message
      → List (ℕ × Endpoint)
      → Destination × PriorityQueue lib
      → Destination × PriorityQueue lib
  unfolding push_to
  push_all now fresh id number m [] s = s
  push_all now fresh id number m (c ∷ cs) s =
      push_all now fresh id number m cs (push_to now fresh id number m c s)

  unfoldable pub push_first :
      ℤ
      → (ℕ → ℕ)
      → Bytes
      → ℤ
      → Message
      → List (ℕ × Endpoint)
      → Destination × PriorityQueue lib
      → Destination × PriorityQueue lib
  unfolding push_to
  push_first now fresh id number m [] s = s
  push_first now fresh id number m (c ∷ cs) s = push_to now fresh id number m c s

  -- The uuid of a message that has none is created.
  abbrev with_uuid : ℕ → Message → Message
  with_uuid fresh m = record m { uuid = if m.uuid == 0 then fresh else m.uuid }

  unfoldable pub persist_to_offline_sub : ℕ → Message → DurableSub → Destination → Destination
  persist_to_offline_sub fresh m sub d =
      let copy = with_uuid fresh m in
      record d {
        stores =
            update d.stores sub.store
              (storage.append (d.stores sub.store) copy.uuid (stored_form codec copy)).0;
      }

  -- The loop over the durable subscriptions that are offline; the others have a consumer.
  unfoldable pub persist_offline :
      (ℕ → ℕ) → Message → List (Bytes × DurableSub) → Destination → Destination
  unfolding persist_to_offline_sub
  persist_offline fresh m [] d = d
  persist_offline fresh m ((key, sub) ∷ subs) d = persist_offline fresh m subs (
      if is_offline sub && sub.selects m
      then persist_to_offline_sub (fresh sub.store) m sub d
      else d)

  -- save: `id` is the producer's transaction, empty outside of one.
  unfoldable pub save :
      ℤ
      → (ℕ → ℕ)
      → Bytes
      → Message
      → Destination × PriorityQueue lib
      → Destination × PriorityQueue lib
  unfolding push_all push_first persist_offline
  save now fresh id m (d, waiting) =
      let number = pos d.message_counter in
      let d0 : Destination = record d { message_counter = d.message_counter + 1 } in
      let (d1, waiting1) = push_all now fresh id number m d.consumers (d0, waiting) in
      if is_queue_family d.kind
      then push_first now fresh id number m d.consumers (d0, waiting)
      else if is_persistent m && is_empty id
      then (persist_offline fresh m d1.durable_subs d1, waiting1)
      else (d1, waiting1)

  unfoldable pub deliver_all : List Delivery → (ℕ → PriorityQueue lib) → ℕ → PriorityQueue lib
  deliver_all [] queues = queues
  deliver_all (r ∷ rs) queues =
      deliver_all rs (update queues r.queue (enqueue lib (queues r.queue) r.msg))

  -- enqueueOrSchedule.
  unfoldable pub enqueue_or_schedule_on : ℤ → ℕ → Message → Destination → Destination
  unfolding deliver_all
  enqueue_or_schedule_on now q m d =
      let (scheduler', deliveries) = enqueue_or_schedule now now d.scheduler q m in
      record d { scheduler = scheduler'; queues = deliver_all deliveries d.queues }

  unfoldable pub deliver_each : ℤ → Message → List (ℕ × Endpoint) → Destination → Destination
  unfolding enqueue_or_schedule_on
  deliver_each now m [] d = d
  deliver_each now m ((uuid, c) ∷ cs) d =
      deliver_each now m cs (enqueue_or_schedule_on now c.queue m d)

  unfoldable pub deliver_first : ℤ → Message → List (ℕ × Endpoint) → Destination → Destination
  unfolding enqueue_or_schedule_on
  deliver_first now m [] d = d
  deliver_first now m ((uuid, c) ∷ cs) d = enqueue_or_schedule_on now c.queue m d

  unfoldable pub deliver_committed : ℤ → (ℕ → ℕ) → Message → Destination → Destination
  unfolding deliver_each deliver_first persist_offline
  deliver_committed now fresh m d =
      let d1 = deliver_each now m d.consumers d in
      if is_queue_family d.kind
      then deliver_first now m d.consumers d
      else if is_persistent m
      then persist_offline fresh m d1.durable_subs d1
      else d1
