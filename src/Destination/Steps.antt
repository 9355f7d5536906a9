-- ===== src/Destination/Steps.antt =====
-- Destination.cpp: a topic in the course of its calls. The steps are what sessions call on it, one
-- call after another; a new consumer has a uuid that is new.
use tiny_mq.Prelude.{ℕ, ◌≡◌, ◌≢◌, Bool, false, none, some, ℤ, Bytes}
use tiny_mq.Prelude.Maps.{find, nat_eq, bytes_key}
use tiny_mq.Message.{Message}
use tiny_mq.Message.Wire.{Codec}
use tiny_mq.PriorityQueue.{PriorityQueue}
use tiny_mq.PriorityQueue.Bands.{Moodycamel}
use tiny_mq.Consumer.{Storage}
use tiny_mq.Destination.{Destination, is_queue_family, save}
use tiny_mq.Destination.Consumers.{create_consumer, create_default_consumer}
use tiny_mq.Destination.Subscriptions.{
  create_durable_consumer, delete_consumer, delete_subscription, done,
}
use tiny_mq.Destination.Transactions.{commit_producer, rollback_producer}
use tiny_mq.Destination.Registry.{Consistent}
use tiny_mq.Destination.Keeps.{Registry, registry}

-- A topic without a default consumer whose maps fit together.
abbrev pub ValidRegistry : Registry → Type 0
ValidRegistry (kind, default_, subs, links, consumers) =
    (is_queue_family kind ≡ false) × (default_ ≡ none) × Consistent subs links consumers

module _ {lib : Moodycamel} {storage : Storage} {codec : Codec} where
  abbrev pub Valid : Destination lib storage codec → Type 0
  Valid d = ValidRegistry (registry lib storage codec d)

  pub data Step : Destination lib storage codec → Destination lib storage codec → Type 0 where
    subscribe :
        {d d' : Destination lib storage codec} (now : ℤ) (id : ℕ) (opened : storage.Store)
        (client_id name : Bytes) (selects : Message → Bool)
        → id ≢ 0
        → find id d.consumer_to_sub ≡ none
        → create_durable_consumer lib storage codec now id opened client_id name selects d ≡ done d'
        → Step d d'
    join :
        {d d' : Destination lib storage codec} (now : ℤ) (id : ℕ) (selects : Message → Bool)
        → create_consumer lib storage codec now id selects d ≡ some d'
        → Step d d'
    join_default :
        {d : Destination lib storage codec} (id : ℕ)
        → Step d (create_default_consumer lib storage codec id d)
    leave :
        {d : Destination lib storage codec} (id : ℕ)
        → Step d (delete_consumer lib storage codec id d)
    unsubscribe :
        {d : Destination lib storage codec} (client_id name : Bytes)
        → Step d (delete_subscription lib storage codec client_id name d)
    send :
        {d : Destination lib storage codec} (now : ℤ) (fresh : ℕ → ℕ) (id : Bytes) (m : Message)
        (waiting : PriorityQueue lib)
        → Step d (save lib storage codec now fresh id m (d, waiting)).0
    commit :
        {d : Destination lib storage codec} (fuel : ℕ) (now : ℤ) (fresh : ℕ → ℕ) (id : Bytes)
        (waiting : PriorityQueue lib)
        → Step d (commit_producer lib storage codec fuel now fresh id (d, waiting)).0
    rollback :
        {d : Destination lib storage codec} (fuel : ℕ) (id : Bytes) (waiting : PriorityQueue lib)
        → Step d (rollback_producer lib storage codec fuel id (d, waiting)).0

  pub data Reach : Destination lib storage codec → Destination lib storage codec → Type 0 where
    start : {d : Destination lib storage codec} → Reach d d
    step : {d d1 d2 : Destination lib storage codec} → Reach d d1 → Step d1 d2 → Reach d d2
