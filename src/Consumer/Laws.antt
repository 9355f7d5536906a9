-- ===== src/Consumer/Laws.antt =====
-- Consumer.cpp: the loop over the transaction's queue, and the batched acknowledgements.
use tiny_mq.Prelude.{
  ℕ, zero, suc, ◌<◌, ◌≡◌, refl, sym, ap, ◌∙◌, subst, ◌⊎◌, ◌==◌, Option, none, some, inl, inr, true,
  false, List, [], ◌∷◌, ◌++◌, arith, Bool-cases, length, leb,
}
use tiny_mq.Message.{Message, is_persistent, no_tom}
use tiny_mq.Message.Wire.{Codec}
use tiny_mq.PriorityQueue.{PriorityQueue, try_dequeue}
use tiny_mq.PriorityQueue.Bands.{Moodycamel}
use tiny_mq.PriorityQueue.Order.{ordered}
use tiny_mq.PriorityQueue.Dequeue.{WellFormed, try_dequeue-Dequeues}
use tiny_mq.Consumer.{
  Location, location, remove_record, remove_persistent, client_acknowledge, dups_ok_acknowledge,
  Storage,
}
use tiny_mq.Consumer.Acknowledge.{
  drain_queue, commit, commit_all, flush_pending_acks, acknowledge_record, Ack, batch_size,
}

module _ (lib : Moodycamel) where
  pub drain_queue-ordered :
      (n : ℕ) (q : PriorityQueue lib)
      → WellFormed lib q
      → length (ordered lib q) < n
      → ((drain_queue lib n q).0 ≡ ordered lib q) × (ordered lib (drain_queue lib n q).1 ≡ [])
  unfolding drain_queue
  drain_queue-ordered zero q w h = elim h [ ]
  drain_queue-ordered (suc n) q w h =
      let (w', cases) = try_dequeue-Dequeues lib q w in
      elim cases [
        | inl (e, f, g) ↦ rw (f, drain_queue) (sym e, g)
        | inr (msg, e, f) ↦
            let (all, left) =
              drain_queue-ordered n (try_dequeue lib q).1 w' (omega (arith, ap length e)) in
            rw (f, drain_queue) (ap (◌∷◌ msg) all ∙ sym e, left)
      ]

module _ (lib : Moodycamel) (storage : Storage) (codec : Codec) where
  -- Where a message's record is: the place that the message knows, or else what the store says.
  abbrev pub Place : storage.Store → Message → Location → Type 0
  Place store m l =
      (((m.storage_tom_id == no_tom) ≡ false)
        × (l ≡ record { tom_id = m.storage_tom_id; offset = m.storage_offset }))
      ⊎ (((m.storage_tom_id == no_tom) ≡ true) × (storage.record_of store m.uuid ≡ some l))

  -- The record of each persistent message of a list is removed, unless the store has none of a
  -- message that does not know its place; nothing else is done to the store.
  abbrev pub Removed : storage.Store → List Message → storage.Store → Type 0
  Removed store [] store' = store' ≡ store
  Removed store (m ∷ ms) store' =
      ((is_persistent m ≡ false) × Removed store ms store')
      ⊎ ((is_persistent m ≡ true)
          × ((m.storage_tom_id == no_tom) ≡ true)
          × (storage.record_of store m.uuid ≡ none)
          × Removed store ms store')
      ⊎ ((l : Location) × (is_persistent m ≡ true)
          × Place store m l
          × Removed (storage.remove_async store m.uuid l) ms store')

  -- What the removal of one message's record does, by those three cases.
  looked_up :
      (store : storage.Store) (m : Message) (o : Option Location)
      → storage.record_of store m.uuid ≡ o
      → is_persistent m ≡ true
      → (m.storage_tom_id == no_tom) ≡ true
      → remove_persistent lib storage codec store m
        ≡ (elim o [ none ↦ store | some l ↦ storage.remove_async store m.uuid l ])
  unfolding remove_persistent remove_record location
  looked_up store m none e p t = rw (p, remove_record, location, t, e) refl
  looked_up store m (some l) e p t = rw (p, remove_record, location, t, e) refl

  cached_place :
      (store : storage.Store) (m : Message)
      → is_persistent m ≡ true
      → (m.storage_tom_id == no_tom) ≡ false
      → remove_persistent lib storage codec store m
        ≡ storage.remove_async store m.uuid
            (record { tom_id = m.storage_tom_id; offset = m.storage_offset })
  unfolding remove_persistent remove_record location
  cached_place store m p t = rw (p, remove_record, location, t) refl

  not_stored :
      (store : storage.Store) (m : Message)
      → is_persistent m ≡ false
      → remove_persistent lib storage codec store m ≡ store
  unfolding remove_persistent
  not_stored store m p = rw p refl

  from_there :
      (a b : storage.Store) (ms : List Message)
      → a ≡ b
      → Removed b ms (commit_all lib storage codec b ms)
      → Removed b ms (commit_all lib storage codec a ms)
  from_there a b ms e r = subst (λ s. Removed b ms (commit_all lib storage codec s ms)) (sym e) r

  pub commit_all-Removed :
      (store : storage.Store) (ms : List Message)
      → Removed store ms (commit_all lib storage codec store ms)
  unfolding commit_all
  commit_all-Removed store [] = refl
  commit_all-Removed store (m ∷ ms) =
      by_record (storage.record_of store m.uuid) refl (λ s. commit_all-Removed s ms)
    where
      missing_or_found :
          (o : Option Location)
          → storage.record_of store m.uuid ≡ o
          → ((s : storage.Store) → Removed s ms (commit_all lib storage codec s ms))
          → is_persistent m ≡ true
          → (m.storage_tom_id == no_tom) ≡ true
          → Removed store
              (m ∷ ms)
              (commit_all lib storage codec (remove_persistent lib storage codec store m) ms)
      missing_or_found none e k p t =
          inr (inl (p, t, e, from_there _ store ms (looked_up store m none e p t) (k store)))
      missing_or_found (some l) e k p t =
          inr (inr (l, p, inr (t, e), from_there _ _ ms (looked_up store m (some l) e p t) (k _)))

      by_record :
          (o : Option Location)
          → storage.record_of store m.uuid ≡ o
          → ((s : storage.Store) → Removed s ms (commit_all lib storage codec s ms))
          → Removed store
              (m ∷ ms)
              (commit_all lib storage codec (remove_persistent lib storage codec store m) ms)
      by_record o e k = elim (Bool-cases (is_persistent m)) [
        | inr p ↦ inl (p, from_there _ store ms (not_stored store m p) (k store))
        | inl p ↦ elim (Bool-cases (m.storage_tom_id == no_tom)) [
          | inr t ↦
              inr (inr (_, p, inl (t, refl), from_there _ _ ms (cached_place store m p t) (k _)))
          | inl t ↦ missing_or_found o e k p t
        ]
      ]

  -- With fuel for one turn more than there are messages, a commit goes over all messages of the
  -- transaction's queue, in the order in which it gives them out, and leaves the queue empty. The
  -- record of each persistent one is removed at the place that the message knows, or else where the
  -- store then has it; if the store has none it stays as it is, as it does for any other message.
  pub commit-ordered :
      (n : ℕ) (store : storage.Store) (q : PriorityQueue lib)
      → WellFormed lib q
      → length (ordered lib q) < n
      → Removed store (ordered lib q) (commit lib storage codec n store q).0
        × (ordered lib (commit lib storage codec n store q).1 ≡ [])
  unfolding commit
  commit-ordered n store q w h =
      let (all, left) = drain_queue-ordered lib n q w h in
      (
        subst (λ ms. Removed store ms (commit_all lib storage codec store (drain_queue lib n q).0))
            all (commit_all-Removed store (drain_queue lib n q).0),
        left,
      )

module _ (storage : Storage) where
  flush_pending_acks_snoc :
      (store : storage.Store) (acks : List Ack) (ack : Ack)
      → flush_pending_acks storage store (acks ++ ack ∷ [])
        ≡ storage.remove_async (flush_pending_acks storage store acks) ack.0 ack.1
  unfolding flush_pending_acks
  flush_pending_acks_snoc store [] ack = refl
  flush_pending_acks_snoc store ((u, l) ∷ acks) ack =
      flush_pending_acks_snoc (storage.remove_async store u l) acks ack

  length-snoc : (acks : List Ack) (ack : Ack) → length (acks ++ ack ∷ []) ≡ suc (length acks)
  length-snoc [] ack = refl
  length-snoc (a ∷ acks) ack = ap suc (length-snoc acks ack)

  -- DUPS_OK_ACKNOWLEDGE: where fewer than a hundred acknowledgements wait, fewer than a hundred wait
  -- after another one, and once those are flushed the store is as if each had been carried out at
  -- once.
  pub acknowledge_record-flush_pending_acks :
      (store : storage.Store) (acks : List Ack) (ack : Ack)
      → length acks < batch_size
      → (length (acknowledge_record storage dups_ok_acknowledge store acks ack).1 < batch_size)
        × (flush_pending_acks storage
              (acknowledge_record storage dups_ok_acknowledge store acks ack).0
              (acknowledge_record storage dups_ok_acknowledge store acks ack).1
            ≡ (acknowledge_record storage client_acknowledge
                (flush_pending_acks storage store acks)
                []
                ack).0)
  unfolding acknowledge_record flush_pending_acks
  acknowledge_record-flush_pending_acks store acks ack h =
      elim (Bool-cases (leb batch_size (length (acks ++ ack ∷ [])))) [
        | inl e ↦ rw e (omega arith, flush_pending_acks_snoc store acks ack)
        | inr e ↦ rw e (ground arith, flush_pending_acks_snoc store acks ack)
      ]
