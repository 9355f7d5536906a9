-- ===== src/Consumer/Tests.antt =====
-- The theorems on the consumer at a queue with one message and a small store.
use tiny_mq.Prelude.{false, none, ℕ, ◌≡◌, refl, ◌<◌, [], ◌∷◌, List, arith, pos, length}
use tiny_mq.Prelude.Maps.{find, insert, erase, nat_eq}
use tiny_mq.Message.{clamp_priority}
use tiny_mq.Message.Wire.Tests.{codec, cached}
use tiny_mq.PriorityQueue.{PriorityQueue, enqueue, empty}
use tiny_mq.PriorityQueue.Bands.{sequential}
use tiny_mq.PriorityQueue.Order.{down, ordered}
use tiny_mq.PriorityQueue.Dequeue.{WellFormed, empty-WellFormed, enqueue-WellFormed}
use tiny_mq.Scheduler.{new_scheduler}
use tiny_mq.Consumer.{
  RedeliveryPolicy, redeliver, Storage, Location, Environment, client_acknowledge,
  dups_ok_acknowledge,
}
use tiny_mq.Consumer.Receive.{recv_loop}
use tiny_mq.Consumer.Receive.Loop.{Outcome, recv_loop-Outcome}
use tiny_mq.Consumer.Acknowledge.{commit, acknowledge_record, flush_pending_acks, Ack, batch_size}
use tiny_mq.Consumer.InFlight.{Chain, Links, no_chain, untracked, track, take_all, write}
use tiny_mq.Consumer.InFlight.Order.{IsChain, track-IsChain, take_all-IsChain}
use tiny_mq.Consumer.Redelivery.{Redelivered, redeliver-Back}
use tiny_mq.Consumer.Laws.{Removed, commit-ordered, acknowledge_record-flush_pending_acks}

abbrev place : Location
place = record { tom_id = 1; offset = 64 }

-- A store of locations by uuid.
abbrev storage : Storage
storage = record {
  Store = List (ℕ × Location);
  record_of = λ s u. find u s;
  data_of = λ s l. [];
  append = λ s u b. (insert u place s, place);
  append_batch = λ s b. s;
  scan = λ s. [];
  remove_async = λ s u l. erase u s;
}

abbrev queue : PriorityQueue sequential
queue = enqueue sequential (empty sequential) cached

queue-WellFormed : WellFormed sequential queue
queue-WellFormed = (enqueue-WellFormed sequential _ cached (empty-WellFormed sequential)).0

one_message : length (ordered sequential queue) < 2
unfolding enqueue down clamp_priority
one_message = omega arith

abbrev env : Environment sequential storage codec
env = record {
  store = (77, place) ∷ [];
  scheduler = new_scheduler;
  queue_id = 0;
  queue = queue;
  dead_letters = [];
}

commit-ordered_example :
    Removed sequential storage codec
      ((77, place) ∷ [])
      (ordered sequential queue)
      (commit sequential storage codec 2 ((77, place) ∷ []) queue).0
    × (ordered sequential (commit sequential storage codec 2 ((77, place) ∷ []) queue).1 ≡ [])
commit-ordered_example =
    commit-ordered sequential storage codec 2 ((77, place) ∷ []) queue queue-WellFormed one_message

recv_loop-Outcome_example :
    Outcome sequential storage codec
      (λ turn. pos 1000)
      (λ turn. pos 10)
      (pos 500)
      0
      env
      (recv_loop sequential storage codec (λ turn. pos 1000) (λ turn. pos 10) (pos 500) 2 0 env)
recv_loop-Outcome_example =
    recv_loop-Outcome sequential storage codec (λ turn. pos 1000) (λ turn. pos 10) (pos 500) 2 0 env
      queue-WellFormed one_message

abbrev ack : Ack
ack = (77, place)

acknowledge_record_example :
    (length (acknowledge_record storage dups_ok_acknowledge (ack ∷ []) [] ack).1 < batch_size)
    × (flush_pending_acks storage
          (acknowledge_record storage dups_ok_acknowledge (ack ∷ []) [] ack).0
          (acknowledge_record storage dups_ok_acknowledge (ack ∷ []) [] ack).1
        ≡ (acknowledge_record storage client_acknowledge
            (flush_pending_acks storage (ack ∷ []) [])
            []
            ack).0)
acknowledge_record_example =
    acknowledge_record-flush_pending_acks storage (ack ∷ []) [] ack (omega arith)

abbrev flight : Chain × Links
flight = track 1 4 (no_chain, λ m. untracked)

flight-IsChain : IsChain 1 (4 ∷ []) flight
flight-IsChain =
    track-IsChain 1 4 [] (no_chain, λ m. untracked)
      (record { head = refl; tail = refl; linked = tt; distinct = tt }) tt refl

unlinked : (flight.1 9).next ≡ none
unfolding track write
unlinked = refl

track-IsChain_example : IsChain 1 (4 ∷ 9 ∷ []) (track 1 9 flight)
track-IsChain_example = track-IsChain 1 9 (4 ∷ []) flight flight-IsChain (refl, tt) unlinked

take_all-IsChain_example : (take_all 2 flight.0.head flight.1).0 ≡ 4 ∷ []
take_all-IsChain_example = take_all-IsChain 1 2 (4 ∷ []) flight flight-IsChain (omega arith)

abbrev policy : RedeliveryPolicy
policy = record { max_redeliveries = pos 0; backoff_ms = pos 100; max_backoff_ms = pos 60000 }

redeliver-Back_example :
    Redelivered sequential storage codec 0 cached env
      (redeliver sequential storage codec policy (pos 1000) false env cached)
redeliver-Back_example =
    redeliver-Back sequential storage codec policy (pos 1000) false env cached 0 queue-WellFormed
      refl (omega arith) refl
