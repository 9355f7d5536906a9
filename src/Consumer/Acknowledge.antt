-- ===== src/Consumer/Acknowledge.antt =====
-- Consumer.cpp: acknowledgeOn, flushPendingAcks, commit, rollback and recover.
use tiny_mq.Prelude.{
  ℕ, zero, suc, Bool, false, none, some, List, [], ◌∷◌, ◌++◌, leb, if◌then◌else◌, ℤ, length, map,
}
use tiny_mq.Message.{Message, is_persistent}
use tiny_mq.Message.Wire.{Codec}
use tiny_mq.PriorityQueue.{PriorityQueue, try_dequeue}
use tiny_mq.PriorityQueue.Bands.{Moodycamel}
use tiny_mq.Consumer.{
  AcknowledgeMode, session_transacted, dups_ok_acknowledge, Storage, Location, RedeliveryPolicy,
  Environment, location, remove_persistent, redeliver,
}
use tiny_mq.Consumer.InFlight.{Chain, Links, no_chain, release, take_all}

-- kDupsOkBatch.
abbrev pub batch_size : ℕ
batch_size = 100

abbrev pub Ack : Type 0
Ack = ℕ × Location

module _ (storage : Storage) where
  unfoldable pub flush_pending_acks : storage.Store → List Ack → storage.Store
  flush_pending_acks store [] = store
  flush_pending_acks store ((uuid, l) ∷ acks) =
      flush_pending_acks (storage.remove_async store uuid l) acks

  abbrev flush_batch : storage.Store → List Ack → storage.Store × List Ack
  flush_batch store acks =
      if leb batch_size (length acks) then (flush_pending_acks store acks, []) else (store, acks)

  -- The record of an acknowledged message is removed, or waits in the batch.
  unfoldable pub acknowledge_record :
      AcknowledgeMode → storage.Store → List Ack → Ack → storage.Store × List Ack
  unfolding flush_pending_acks
  acknowledge_record dups_ok_acknowledge store acks ack = flush_batch store (acks ++ ack ∷ [])
  acknowledge_record _ store acks (uuid, l) = (storage.remove_async store uuid l, acks)

module _ (lib : Moodycamel) where
  -- The loop over the transaction's queue: all its messages, in order. The fuel is their number
  -- and one more.
  unfoldable pub drain_queue : ℕ → PriorityQueue lib → List Message × PriorityQueue lib
  drain_queue zero q = ([], q)
  drain_queue (suc n) q =
      let (first, q') = try_dequeue lib q in
      elim first [ none ↦ ([], q') | some m ↦ let (ms, rest) = drain_queue n q' in (m ∷ ms, rest) ]

module _ (lib : Moodycamel) (storage : Storage) (codec : Codec) where
  abbrev acknowledge_persistent :
      AcknowledgeMode → storage.Store → List Ack → Message → storage.Store × List Ack
  acknowledge_persistent mode store acks m = elim (location lib storage codec store m) [
    | none ↦ (store, acks)
    | some l ↦ acknowledge_record storage mode store acks (m.uuid, l)
  ]

  abbrev acknowledge_store :
      AcknowledgeMode → storage.Store → List Ack → Message → storage.Store × List Ack
  acknowledge_store mode store acks m =
      if is_persistent m then acknowledge_persistent mode store acks m else (store, acks)

  abbrev State : Type 0
  State = (storage.Store × List Ack) × (Chain × Links)

  -- A transacted session acknowledges by its commit. `at` names the message object.
  unfoldable pub acknowledge_on : AcknowledgeMode → ℕ → ℕ → Message → State → State
  unfolding acknowledge_record release location
  acknowledge_on session_transacted self at m s = s
  acknowledge_on mode self at m ((store, acks), flight) =
      (acknowledge_store mode store acks m, release self at flight)

  unfoldable pub commit_all : storage.Store → List Message → storage.Store
  commit_all store [] = store
  commit_all store (m ∷ ms) = commit_all (remove_persistent lib storage codec store m) ms

  unfoldable pub commit : ℕ → storage.Store → PriorityQueue lib → storage.Store × PriorityQueue lib
  unfolding drain_queue commit_all
  commit fuel store q = let (ms, q') = drain_queue lib fuel q in (commit_all store ms, q')

  abbrev Env : Type 0
  Env = Environment lib storage codec

  unfoldable pub redeliver_all : RedeliveryPolicy → ℤ → Bool → Env → List Message → Env
  redeliver_all policy now session_closing env [] = env
  redeliver_all policy now session_closing env (m ∷ ms) =
      redeliver_all policy now session_closing
        (redeliver lib storage codec policy now session_closing env m) ms

  unfoldable pub rollback_queue :
      ℕ → RedeliveryPolicy → ℤ → Bool → Env → PriorityQueue lib → Env × PriorityQueue lib
  unfolding drain_queue redeliver_all
  rollback_queue fuel policy now session_closing env q =
      let (ms, q') = drain_queue lib fuel q in (redeliver_all policy now session_closing env ms, q')

  -- recover: the messages of the chain, in the order of receipt, are redelivered; the chain is
  -- empty then. `object` gives the messages by their names.
  unfoldable pub recover :
      ℕ → RedeliveryPolicy → ℤ → (ℕ → Message) → Env → Chain × Links → Env × (Chain × Links)
  unfolding take_all redeliver_all
  recover fuel policy now object env (chain, links) =
      let (taken, links') = take_all fuel chain.head links in
      (redeliver_all policy now false env (map object taken), (no_chain, links'))
