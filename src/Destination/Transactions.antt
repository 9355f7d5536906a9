-- ===== src/Destination/Transactions.antt =====
-- Producer.cpp, Destination.cpp: the commit and the rollback of a producer.
use tiny_mq.Prelude.{ℕ, List, [], ◌∷◌, if◌then◌else◌, is_empty, ℤ, pos, ltb_ℤ, ◌+ℤ◌, Bytes}
use tiny_mq.Message.{Message, is_persistent}
use tiny_mq.Message.Wire.{Codec, patch_cached_delivery_time}
use tiny_mq.PriorityQueue.{PriorityQueue, update}
use tiny_mq.PriorityQueue.Bands.{Moodycamel}
use tiny_mq.TransactionBuffer.{TransactionBuffer, Batch, patch_delivery_time, rollback_transaction}
use tiny_mq.Consumer.{Storage}
use tiny_mq.Consumer.Acknowledge.{drain_queue}
use tiny_mq.Destination.{Destination, deliver_committed}

module _ (lib : Moodycamel) (storage : Storage) (codec : Codec) where
  abbrev Dest : Type 0
  Dest = Destination lib storage codec

  abbrev delayed_from : ℤ → Message → Message
  delayed_from now m = record m {
    headers = record (m.headers) { delivery_time = now +ℤ m.pending_delivery_delay };
    pending_delivery_delay = pos 0;
  }

  -- The message and the buffer after the delay of a send is counted from the commit.
  unfoldable pub resolve : ℤ → Message → TransactionBuffer → Message × TransactionBuffer
  resolve now m b =
      let m' = delayed_from now m in
      let t = m'.headers.delivery_time in
      if ltb_ℤ (pos 0) m.pending_delivery_delay
      then (if is_persistent m
          then (patch_cached_delivery_time m' t, patch_delivery_time b m.uuid t)
          else (m', b))
      else (m, b)

  unfoldable pub resolve_all :
      ℤ → List Message → TransactionBuffer → List Message × TransactionBuffer
  unfolding resolve
  resolve_all now [] b = ([], b)
  resolve_all now (m ∷ ms) b =
      let (m', b') = resolve now m b in let (ms', b'') = resolve_all now ms b' in (m' ∷ ms', b'')

  -- What the commit hands over goes to the store in one batch.
  abbrev pub flushed : Dest → TransactionBuffer × Batch → Dest
  flushed d (b, []) = record d { buffer = b }
  flushed d (b, x ∷ xs) = record d {
    buffer = b;
    stores = update d.stores 0 (storage.append_batch (d.stores 0) (x ∷ xs));
  }

  unfoldable pub commit_transaction : Bytes → Dest → Dest
  commit_transaction id d =
      if is_empty id
      then d
      else flushed d (tiny_mq.TransactionBuffer.commit_transaction d.buffer id)

  unfoldable pub deliver_staged : ℤ → (ℕ → ℕ) → List Message → Dest → Dest
  unfolding deliver_committed
  deliver_staged now fresh [] d = d
  deliver_staged now fresh (m ∷ ms) d =
      deliver_staged now fresh ms (deliver_committed lib storage codec now fresh m d)

  -- Producer::commit, over the producer's queue.
  unfoldable pub commit_producer :
      ℕ → ℤ → (ℕ → ℕ) → Bytes → Dest × PriorityQueue lib → Dest × PriorityQueue lib
  unfolding drain_queue resolve_all commit_transaction deliver_staged
  commit_producer fuel now fresh id (d, waiting) =
      let (ms, waiting') = drain_queue lib fuel waiting in
      let (staged, b) = resolve_all now ms d.buffer in
      (deliver_staged now fresh staged (commit_transaction id (record d { buffer = b })), waiting')

  -- Producer::rollback.
  unfoldable pub rollback_producer : ℕ → Bytes → Dest × PriorityQueue lib → Dest × PriorityQueue lib
  unfolding drain_queue
  rollback_producer fuel id (d, waiting) =
      let (ms, waiting') = drain_queue lib fuel waiting in
      let d' : Dest =
        (if is_empty id then d else record d { buffer = rollback_transaction d.buffer id }) in
      (d', waiting')
