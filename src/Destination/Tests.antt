-- ===== src/Destination/Tests.antt =====
-- The theorems on a destination at small topics and queues.
use tiny_mq.Prelude.{
  ℕ, ◌+◌, ◌*◌, ◌≡◌, ◌≢◌, refl, ap, Bool, true, false, none, some, List, [], ◌∷◌, ◌++◌, arith, pos,
  length, Bytes, map,
}
use tiny_mq.Prelude.Maps.{find, nat_eq}
use tiny_mq.Message.{Message, shell, text_message, undefined}
use tiny_mq.Message.Wire.{stored_form}
use tiny_mq.Message.Wire.Tests.{codec}
use tiny_mq.PriorityQueue.{empty}
use tiny_mq.PriorityQueue.Bands.{sequential}
use tiny_mq.PriorityQueue.Copies.{enqueue_times}
use tiny_mq.Consumer.{Storage, Location}
use tiny_mq.Destination.{Destination, topic, queue, new_destination, save}
use tiny_mq.Destination.Names.{durable_key, dir_name, dir_name-durable_key}
use tiny_mq.Destination.Sends.{selecting, prepared}
use tiny_mq.Destination.Fanout.{count_on, save-commit_producer}
use tiny_mq.Destination.Transactions.{commit_producer}
use tiny_mq.Destination.Consumers.{create_consumer}
use tiny_mq.Destination.Replay.{enqueue_list, replayed_from, create_consumer-stored}
use tiny_mq.Destination.Subscriptions.{
  create_durable_consumer, attach, new_sub, delete_consumer, done,
}
use tiny_mq.Destination.Steps.{Valid, subscribe, leave, start, step}
use tiny_mq.Destination.Lifecycle.{start-Reach-Valid}

abbrev place : Location
place = record { tom_id = 1; offset = 0 }

-- A store that is its records.
abbrev storage : Storage
storage = record {
  Store = List ((ℕ × Location) × Bytes);
  record_of = λ s u. none;
  data_of = λ s l. [];
  append = λ s u b. (s ++ ((u, place), b) ∷ [], place);
  append_batch = λ s b. s;
  scan = λ s. s;
  remove_async = λ s u l. s;
}

abbrev Dest : Type 0
Dest = Destination sequential storage codec

abbrev everything : Message → Bool
everything m = true

abbrev nothing : Message → Bool
nothing m = false

abbrev fresh_topic : Dest
fresh_topic = new_destination sequential storage codec topic [] tiny_mq.TransactionBuffer.empty

-- Two consumers that want all messages and one that wants none.
abbrev crowded : Dest
crowded = record fresh_topic {
  consumers =
      (11, (record { queue = 0; store = 0; selects = everything }))
      ∷ (12, (record { queue = 1; store = 0; selects = everything }))
      ∷ (13, (record { queue = 2; store = 0; selects = nothing }))
      ∷ [];
}

abbrev fresh : ℕ → ℕ
fresh n = 900 + n

abbrev hello : Message
hello = record (shell text_message) { uuid = 77 }

save-commit_producer_example :
    let sent =
      save sequential storage codec (pos 5) fresh (1 ∷ []) hello (crowded, empty sequential) in
    (commit_producer sequential storage codec 3 (pos 9) fresh (1 ∷ []) sent).0.queues 2
    ≡ enqueue_times sequential
        (selecting hello crowded.consumers * count_on 2 crowded.consumers)
        (crowded.queues 2)
        (prepared codec crowded.message_counter hello)
unfolding selecting
save-commit_producer_example =
    save-commit_producer sequential storage codec 3 (pos 5) (pos 9) fresh 1 [] hello crowded refl
      refl refl refl (omega arith) 2

known : text_message ≢ undefined
known e = cc

abbrev shared : Dest
shared =
    record (new_destination sequential storage codec queue
      (((77, place), stored_form codec hello) ∷ []) tiny_mq.TransactionBuffer.empty) {
        queue = some 0;
        default_consumer = some 11;
        consumers = (11, (record { queue = 0; store = 0; selects = everything })) ∷ [];
      }

create_consumer-stored_example :
    (d' : Dest) × (create_consumer sequential storage codec (pos 5) 12 everything shared ≡ some d')
    × (d'.queues 0
        ≡ enqueue_list sequential
            (shared.queues 0)
            (map (replayed_from sequential storage codec) ((hello, place) ∷ [])))
create_consumer-stored_example =
    create_consumer-stored sequential storage codec (pos 5) 12 everything shared 0
      ((hello, place) ∷ []) refl refl refl (known, (omega arith, omega arith), refl, tt)

none_linked : find 21 fresh_topic.consumer_to_sub ≡ none
unfolding find
none_linked = refl

-- The topic with a durable subscription and its consumer.
abbrev subscribed : Dest
subscribed =
    attach sequential storage codec (pos 5) 21 (durable_key [] (115 ∷ [])) everything
      (new_sub sequential storage codec [] (115 ∷ []) [] everything fresh_topic)

subscribed_topic :
    create_durable_consumer sequential storage codec
      (pos 5)
      21
      []
      []
      (115 ∷ [])
      everything
      fresh_topic
    ≡ done subscribed
unfolding create_durable_consumer find
subscribed_topic = refl

start-Reach-Valid_example : Valid (delete_consumer sequential storage codec 21 subscribed)
start-Reach-Valid_example =
    start-Reach-Valid sequential storage codec topic [] tiny_mq.TransactionBuffer.empty
      (delete_consumer sequential storage codec 21 subscribed) refl
      (step
        (step start (
          subscribe (pos 5) 21 [] [] (115 ∷ []) everything (λ e. ground arith) none_linked
            subscribed_topic))
        (leave 21))

dir_name-durable_key_example :
    (dir_name ((97 ∷ []) ++ b'-' ∷ 98 ∷ []) (99 ∷ [])
      ≡ dir_name (97 ∷ []) ((98 ∷ []) ++ b'-' ∷ 99 ∷ []))
    × (durable_key ((97 ∷ []) ++ b'-' ∷ 98 ∷ []) (99 ∷ [])
        ≢ durable_key (97 ∷ []) ((98 ∷ []) ++ b'-' ∷ 99 ∷ []))
dir_name-durable_key_example =
    dir_name-durable_key (97 ∷ []) (98 ∷ []) (99 ∷ []) (λ e. ground (arith, ap length e))
      (ground arith, tt) (ground arith, tt) (ground arith, tt)
