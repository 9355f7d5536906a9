-- ===== src/Destination/Keeps.antt =====
-- Destination.cpp, Producer.cpp: sends, commits, rollbacks and replays leave the consumers and the
-- durable subscriptions as they are.
use tiny_mq.Prelude.{
  ℕ, ◌≡◌, refl, ◌∙◌, Bool, true, false, Option, none, some, List, [], ◌∷◌, ◌+◌, ◌&&◌, is_empty,
  if◌then◌else◌, ℤ, pos, Bool-cases, inl, inr, Bytes,
}
use tiny_mq.Prelude.Maps.{nat_eq, bytes_key}
use tiny_mq.Message.{Message, is_persistent}
use tiny_mq.Message.Wire.{Codec}
use tiny_mq.PriorityQueue.{PriorityQueue}
use tiny_mq.PriorityQueue.Bands.{Moodycamel}
use tiny_mq.TransactionBuffer.{TransactionBuffer, Batch}
use tiny_mq.Consumer.{Storage, Location, Environment}
use tiny_mq.Destination.{
  Destination, DestinationType, Endpoint, DurableSub, is_queue_family, is_offline, environment,
  pushed, push_to, push_all, push_first, save, persist_offline, persist_to_offline_sub,
  deliver_each, deliver_first, enqueue_or_schedule_on, deliver_committed,
}
use tiny_mq.Destination.Consumers.{replay_records, replay_record, replay_one}
use tiny_mq.Destination.Transactions.{
  resolve_all, commit_producer, rollback_producer, deliver_staged, commit_transaction, flushed,
}
use tiny_mq.Destination.Registry.{Subs, Links, Endpoints}
use tiny_mq.Consumer.Send.{push}
use tiny_mq.Consumer.Acknowledge.{drain_queue}

-- What is registered at a destination.
abbrev pub Registry : Type 0
Registry = DestinationType × Option ℕ × Subs × Links × Endpoints

module _ (lib : Moodycamel) (storage : Storage) (codec : Codec) where
  abbrev Dest : Type 0
  Dest = Destination lib storage codec

  abbrev pub registry : Dest → Registry
  registry d = (d.kind, d.default_consumer, d.durable_subs, d.consumer_to_sub, d.consumers)

  enqueue_keeps :
      (now : ℤ) (q : ℕ) (m : Message) (d : Dest)
      → registry (enqueue_or_schedule_on lib storage codec now q m d) ≡ registry d
  unfolding enqueue_or_schedule_on
  enqueue_keeps now q m d = refl

  pub replay_keeps :
      (now : ℤ) (q : ℕ) (rs : List ((ℕ × Location) × Bytes)) (d : Dest)
      → registry (replay_records lib storage codec now q rs d) ≡ registry d
  unfolding replay_records
  replay_keeps now q [] d = refl
  replay_keeps now q (r ∷ rs) d =
      replay_keeps now q rs (replay_one lib storage codec now q (replay_record now r) d)
      ∙ one (replay_record now r)
    where
      one : (m : Option Message) → registry (replay_one lib storage codec now q m d) ≡ registry d
      one none = refl
      one (some m) = enqueue_keeps now q m d

  pushed_keeps :
      (d : Dest) (c : Endpoint)
      (r : (Option TransactionBuffer × Environment lib storage codec) × PriorityQueue lib)
      → registry (pushed lib storage codec d c r).0 ≡ registry d
  pushed_keeps d c ((b, env), w) = refl

  push_to_keeps :
      (now : ℤ) (fresh : ℕ → ℕ) (id : Bytes) (number : ℤ) (m : Message) (c : ℕ × Endpoint)
      (s : Dest × PriorityQueue lib)
      → registry (push_to lib storage codec now fresh id number m c s).0 ≡ registry s.0
  unfolding push_to
  push_to_keeps now fresh id number m (uuid, c) (d, w) = pushed_keeps d c (
      push lib storage codec c.selects now number (fresh uuid) id (some d.buffer)
        (environment lib storage codec d c) w m)

  push_all_keeps :
      (now : ℤ) (fresh : ℕ → ℕ) (id : Bytes) (number : ℤ) (m : Message) (cs : List (ℕ × Endpoint))
      (s : Dest × PriorityQueue lib)
      → registry (push_all lib storage codec now fresh id number m cs s).0 ≡ registry s.0
  unfolding push_all push_to
  push_all_keeps now fresh id number m [] s = refl
  push_all_keeps now fresh id number m ((uuid, c) ∷ cs) (d, w) =
      push_all_keeps now fresh id number m cs
        (push_to lib storage codec now fresh id number m (uuid, c) (d, w))
      ∙ push_to_keeps now fresh id number m (uuid, c) (d, w)

  if_keeps :
      (b : Bool) (d d' : Dest)
      → registry d' ≡ registry d
      → registry (if b then d' else d) ≡ registry d
  if_keeps true d d' e = e
  if_keeps false d d' e = refl

  persist_keeps :
      (fresh : ℕ → ℕ) (m : Message) (subs : List (Bytes × DurableSub)) (d : Dest)
      → registry (persist_offline lib storage codec fresh m subs d) ≡ registry d
  unfolding persist_offline persist_to_offline_sub
  persist_keeps fresh m [] d = refl
  persist_keeps fresh m ((key, sub) ∷ subs) d =
      persist_keeps fresh m subs (
        if is_offline sub && sub.selects m
        then persist_to_offline_sub lib storage codec (fresh sub.store) m sub d
        else d)
      ∙ (if_keeps (is_offline sub && sub.selects m) d
          (persist_to_offline_sub lib storage codec (fresh sub.store) m sub d) refl)

  push_first_keeps :
      (now : ℤ) (fresh : ℕ → ℕ) (id : Bytes) (number : ℤ) (m : Message) (cs : List (ℕ × Endpoint))
      (s : Dest × PriorityQueue lib)
      → registry (push_first lib storage codec now fresh id number m cs s).0 ≡ registry s.0
  unfolding push_first
  push_first_keeps now fresh id number m [] s = refl
  push_first_keeps now fresh id number m (c ∷ cs) s = push_to_keeps now fresh id number m c s

  pub save_keeps :
      (now : ℤ) (fresh : ℕ → ℕ) (id : Bytes) (m : Message) (d : Dest) (w : PriorityQueue lib)
      → registry (save lib storage codec now fresh id m (d, w)).0 ≡ registry d
  unfolding save
  save_keeps now fresh id m d w =
      let d0 : Dest = record d { message_counter = d.message_counter + 1 } in
      let number = pos d.message_counter in
      let r = push_all lib storage codec now fresh id number m d.consumers (d0, w) in
      let all = push_all_keeps now fresh id number m d.consumers (d0, w) in
      elim (Bool-cases (is_queue_family d.kind)) [
        | inl t ↦ rw t (push_first_keeps now fresh id number m d.consumers (d0, w))
        | inr t ↦ elim (Bool-cases (is_persistent m && is_empty id)) [
          | inl p ↦ rw (t, p) (persist_keeps fresh m r.0.durable_subs r.0 ∙ all)
          | inr p ↦ rw (t, p) all
        ]
      ]

  deliver_each_keeps :
      (now : ℤ) (m : Message) (cs : List (ℕ × Endpoint)) (d : Dest)
      → registry (deliver_each lib storage codec now m cs d) ≡ registry d
  unfolding deliver_each
  deliver_each_keeps now m [] d = refl
  deliver_each_keeps now m ((uuid, c) ∷ cs) d =
      deliver_each_keeps now m cs (enqueue_or_schedule_on lib storage codec now c.queue m d)
      ∙ enqueue_keeps now c.queue m d

  deliver_first_keeps :
      (now : ℤ) (m : Message) (cs : List (ℕ × Endpoint)) (d : Dest)
      → registry (deliver_first lib storage codec now m cs d) ≡ registry d
  unfolding deliver_first
  deliver_first_keeps now m [] d = refl
  deliver_first_keeps now m ((uuid, c) ∷ cs) d = enqueue_keeps now c.queue m d

  deliver_committed_keeps :
      (now : ℤ) (fresh : ℕ → ℕ) (m : Message) (d : Dest)
      → registry (deliver_committed lib storage codec now fresh m d) ≡ registry d
  unfolding deliver_committed
  deliver_committed_keeps now fresh m d =
      let d1 = deliver_each lib storage codec now m d.consumers d in
      let each = deliver_each_keeps now m d.consumers d in
      elim (Bool-cases (is_queue_family d.kind)) [
        | inl t ↦ rw t (deliver_first_keeps now m d.consumers d)
        | inr t ↦ elim (Bool-cases (is_persistent m)) [
          | inl p ↦ rw (t, p) (persist_keeps fresh m d1.durable_subs d1 ∙ each)
          | inr p ↦ rw (t, p) each
        ]
      ]

  deliver_staged_keeps :
      (now : ℤ) (fresh : ℕ → ℕ) (ms : List Message) (d : Dest)
      → registry (deliver_staged lib storage codec now fresh ms d) ≡ registry d
  unfolding deliver_staged
  deliver_staged_keeps now fresh [] d = refl
  deliver_staged_keeps now fresh (m ∷ ms) d =
      deliver_staged_keeps now fresh ms (deliver_committed lib storage codec now fresh m d)
      ∙ deliver_committed_keeps now fresh m d

  flushed_keeps :
      (d : Dest) (r : TransactionBuffer × Batch)
      → registry (flushed lib storage codec d r) ≡ registry d
  flushed_keeps d (b, []) = refl
  flushed_keeps d (b, x ∷ xs) = refl

  commit_transaction_keeps :
      (id : Bytes) (d : Dest) → registry (commit_transaction lib storage codec id d) ≡ registry d
  unfolding commit_transaction
  commit_transaction_keeps [] d = refl
  commit_transaction_keeps (c ∷ id) d =
      flushed_keeps d (tiny_mq.TransactionBuffer.commit_transaction d.buffer (c ∷ id))

  pub commit_producer_keeps :
      (fuel : ℕ) (now : ℤ) (fresh : ℕ → ℕ) (id : Bytes) (d : Dest) (w : PriorityQueue lib)
      → registry (commit_producer lib storage codec fuel now fresh id (d, w)).0 ≡ registry d
  unfolding commit_producer
  commit_producer_keeps fuel now fresh id d w =
      let ms = (drain_queue lib fuel w).0 in
      let (staged, b) = resolve_all lib storage codec now ms d.buffer in
      let d1 : Dest = record d { buffer = b } in
      deliver_staged_keeps now fresh staged (commit_transaction lib storage codec id d1)
      ∙ commit_transaction_keeps id d1

  pub rollback_producer_keeps :
      (fuel : ℕ) (id : Bytes) (d : Dest) (w : PriorityQueue lib)
      → registry (rollback_producer lib storage codec fuel id (d, w)).0 ≡ registry d
  unfolding rollback_producer
  rollback_producer_keeps fuel [] d w = refl
  rollback_producer_keeps fuel (c ∷ id) d w = refl
