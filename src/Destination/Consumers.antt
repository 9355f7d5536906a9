-- ===== src/Destination/Consumers.antt =====
-- Destination.cpp: creating and deleting consumers, durable subscriptions and producers, the replay
-- of stored messages, and the dead-letter queue.
use tiny_mq.Prelude.{
  ℕ, ◌+◌, Bool, true, Option, none, some, List, [], ◌∷◌, ◌++◌, ◌==◌, if◌then◌else◌, ℤ, pos, Bytes,
}
use tiny_mq.Prelude.Maps.{erase, nat_eq, bytes_key}
use tiny_mq.Message.{
  Message, MessageType, text_message, stream_message, bytes_message, map_message, object_message,
  persistent, shell,
}
use tiny_mq.Message.Wire.{
  Codec, patch_cached_delivery_time, priority_from_storage_bytes, delivery_time_from_storage_bytes,
}
use tiny_mq.PriorityQueue.{empty, update}
use tiny_mq.PriorityQueue.Bands.{Moodycamel}
use tiny_mq.Consumer.{Storage, Location}
use tiny_mq.Destination.{Destination, Endpoint, is_queue_family, enqueue_or_schedule_on}

-- makeMessageShell, by the tag of a stored record.
unfoldable pub kind_of_tag : ℕ → Option MessageType
kind_of_tag tag =
    if tag == 1
    then some text_message
    else if tag == 2
    then some stream_message
    else if tag == 3
    then some bytes_message
    else if tag == 4
    then some map_message
    else if tag == 5
    then some object_message
    else none

-- The message that replay makes of a stored record.
unfoldable pub replayed : ℤ → ℕ → Location → Bytes → MessageType → Message
replayed now uuid l data_ kind =
    let delivery_time = delivery_time_from_storage_bytes now data_ in
    let blank : Message = shell kind in
    patch_cached_delivery_time
      (record blank {
        uuid = uuid;
        reliability = persistent;
        cached_storage_bytes = data_;
        headers = record (blank.headers) {
          priority = pos (priority_from_storage_bytes data_);
          delivery_time = delivery_time;
        };
        storage_tom_id = l.tom_id;
        storage_offset = l.offset;
      })
      delivery_time

-- A record without data, or of no known kind, is skipped.
unfoldable pub replay_record : ℤ → (ℕ × Location) × Bytes → Option Message
unfolding kind_of_tag replayed
replay_record now ((uuid, l), []) = none
replay_record now ((uuid, l), tag ∷ rest) = elim (kind_of_tag tag) [
  | none ↦ none
  | some kind ↦ some (replayed now uuid l (tag ∷ rest) kind)
]

module _ (lib : Moodycamel) (storage : Storage) (codec : Codec) where
  abbrev Dest : Type 0
  Dest = Destination lib storage codec

  abbrev pub replay_one : ℤ → ℕ → Option Message → Dest → Dest
  replay_one now q none d = d
  replay_one now q (some m) d = enqueue_or_schedule_on lib storage codec now q m d

  unfoldable pub replay_records : ℤ → ℕ → List ((ℕ × Location) × Bytes) → Dest → Dest
  unfolding replay_record
  replay_records now q [] d = d
  replay_records now q (r ∷ rs) d =
      replay_records now q rs (replay_one now q (replay_record now r) d)

  -- replayFromStorage: into queue `q`, from the store of that name.
  unfoldable pub replay_from_storage : ℤ → ℕ → ℕ → Dest → Dest
  unfolding replay_records
  replay_from_storage now q store d = replay_records now q (storage.scan (d.stores store)) d

  -- make_shared<QueueT>().
  abbrev pub with_new_queue : Dest → Dest
  with_new_queue d = record d {
    queues = update d.queues d.next_queue (empty lib);
    next_queue = d.next_queue + 1;
  }

  -- _consumers.emplace.
  abbrev pub with_consumer : ℕ → Endpoint → Dest → Dest
  with_consumer id c d = record d { consumers = d.consumers ++ (id, c) ∷ [] }

  abbrev pub all_messages : Message → Bool
  all_messages m = true

  abbrev pub with_shared_queue : Dest → Dest
  with_shared_queue d = elim d.queue [
    | some q ↦ d
    | none ↦ record (with_new_queue d) { queue = some d.next_queue }
  ]

  abbrev pub default_on : ℕ → Option ℕ → Dest → Dest
  default_on id none d = d
  default_on id (some q) d =
      record (with_consumer id (record { queue = q; store = 0; selects = all_messages }) d) {
        default_consumer = some id;
      }

  -- createDefaultConsumer, with the new uuid. A topic has none.
  unfoldable pub create_default_consumer : ℕ → Dest → Dest
  create_default_consumer id d =
      let d1 = with_shared_queue d in
      if is_queue_family d.kind then default_on id d1.queue d1 else d

  abbrev pub without_default : Dest → Dest
  without_default d = record d {
    consumers = elim d.default_consumer [ none ↦ d.consumers | some id ↦ erase id d.consumers ];
    default_consumer = none;
  }

  abbrev pub consumer_on : ℤ → ℕ → (Message → Bool) → Option ℕ → Dest → Option Dest
  consumer_on now id selects none d = none
  consumer_on now id selects (some q) d = some (
      with_consumer id (record { queue = q; store = 0; selects = selects })
        (replay_from_storage now q 0 d))

  -- createConsumer, with the new uuid. `none` is a queue whose shared queue does not exist, which
  -- createDestination's default consumer rules out.
  unfoldable pub create_consumer : ℤ → ℕ → (Message → Bool) → Dest → Option Dest
  unfolding replay_from_storage
  create_consumer now id selects d =
      let d1 = without_default d in
      if is_queue_family d.kind
      then consumer_on now id selects d1.queue d1
      else some (
          with_consumer id (record { queue = d.next_queue; store = 0; selects = selects })
            (with_new_queue d))
