-- ===== src/Destination/Subscriptions.antt =====
-- Destination.cpp: the durable subscriptions of a topic.
use tiny_mq.Prelude.{
  ℕ, ◌+◌, Bool, false, Option, none, some, [], ◌∷◌, ◌++◌, if◌then◌else◌, ℤ, Bytes,
}
use tiny_mq.Prelude.Maps.{find, insert, erase, nat_eq, bytes_key}
use tiny_mq.Message.{Message}
use tiny_mq.Message.Wire.{Codec}
use tiny_mq.PriorityQueue.{update}
use tiny_mq.PriorityQueue.Bands.{Moodycamel}
use tiny_mq.Consumer.{Storage}
use tiny_mq.Destination.{Destination, DurableSub, is_queue_family, is_offline}
use tiny_mq.Destination.Names.{durable_key, dir_name}
use tiny_mq.Destination.Consumers.{with_new_queue, with_consumer, replay_from_storage}

-- The exceptions of createDurableConsumer.
pub data Refusal : Type 0 where
  not_a_topic already_active : Refusal

pub data Result {ℓ} (A : Type ℓ) : Type ℓ where
  done : A → Result A
  refused : Refusal → Result A

module _ (lib : Moodycamel) (storage : Storage) (codec : Codec) where
  abbrev Dest : Type 0
  Dest = Destination lib storage codec

  -- A subscription that was not there before, over the store that its directory holds.
  abbrev pub new_sub : Bytes → Bytes → storage.Store → (Message → Bool) → Dest → Dest × DurableSub
  new_sub client_id name opened selects d = (
    record d { stores = update d.stores d.next_store opened; next_store = d.next_store + 1 },
    record {
      name = name;
      path = dir_name client_id name;
      store = d.next_store;
      active = 0;
      selects = selects;
    },
  )

  abbrev pub with_sub : Bytes → DurableSub → Dest → Dest
  with_sub key sub d = record d { durable_subs = insert key sub d.durable_subs }

  -- The consumer with the new uuid, on a queue of its own that gets what was stored meanwhile.
  unfoldable pub attach : ℤ → ℕ → Bytes → (Message → Bool) → Dest × DurableSub → Dest
  unfolding replay_from_storage
  attach now id key selects (d, sub) =
      let d1 =
        with_consumer lib storage codec id
          (record { queue = d.next_queue; store = sub.store; selects = selects })
          (replay_from_storage lib storage codec now d.next_queue sub.store
            (with_new_queue lib storage codec d)) in
      with_sub key (record sub { active = id; selects = selects })
        (record d1 { consumer_to_sub = d1.consumer_to_sub ++ (id, key) ∷ [] })

  -- createDurableConsumer, with the new uuid and the store that a new directory would hold.
  unfoldable pub create_durable_consumer :
      ℤ → ℕ → storage.Store → Bytes → Bytes → (Message → Bool) → Dest → Result Dest
  unfolding attach durable_key dir_name
  create_durable_consumer now id opened client_id name selects d =
      let key = durable_key client_id name in
      if is_queue_family d.kind then refused not_a_topic else elim (find key d.durable_subs) [
        | none ↦ done (attach now id key selects (new_sub client_id name opened selects d))
        | some sub ↦
            if is_offline sub
            then done (attach now id key selects (d, sub))
            else refused already_active
      ]

  abbrev pub went_offline : Bytes → Dest → Dest
  went_offline key d = elim (find key d.durable_subs) [
    | none ↦ d
    | some sub ↦ with_sub key (record sub { active = 0 }) d
  ]

  unfoldable pub delete_consumer : ℕ → Dest → Dest
  delete_consumer id d =
      let d1 : Dest = record d { consumers = erase id d.consumers } in
      elim (find id d.consumer_to_sub) [
        | none ↦ d1
        | some key ↦ record (went_offline key d1) { consumer_to_sub = erase id d.consumer_to_sub }
      ]

  abbrev pub without_sub : Bytes → Dest → Dest
  without_sub key d = record d { durable_subs = erase key d.durable_subs }

  -- deleteSubscription; the subscription's directory is removed with its store.
  unfoldable pub delete_subscription : Bytes → Bytes → Dest → Dest
  unfolding delete_consumer durable_key
  delete_subscription client_id name d =
      let key = durable_key client_id name in
      elim (find key d.durable_subs) [
        | none ↦ d
        | some sub ↦ without_sub key (if is_offline sub then d else delete_consumer sub.active d)
      ]

  -- createProducer: on a queue it takes the first consumer's token, and there has to be one.
  unfoldable pub create_producer : ℕ → Dest → Option Dest
  create_producer id d =
      let made : Bool → Option Dest =
        λ token. some (record d { producers = d.producers ++ (id, token) ∷ [] }) in
      elim d.consumers [
        | [] ↦ if is_queue_family d.kind then none else made false
        | _ ∷ _ ↦ made (is_queue_family d.kind)
      ]

  unfoldable pub delete_producer : ℕ → Dest → Dest
  delete_producer id d = record d { producers = erase id d.producers }
