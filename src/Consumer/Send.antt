-- ===== src/Consumer/Send.antt =====
-- Consumer.cpp: preparePush and push, the way of a message from a producer to the consumer's queue.
use tiny_mq.Prelude.{ℕ, ◌==◌, Bool, Option, none, some, [], ◌∷◌, if◌then◌else◌, ℤ, Bytes}
use tiny_mq.Message.{Message, is_persistent, is_zero}
use tiny_mq.Message.Wire.{Codec, stored_form}
use tiny_mq.PriorityQueue.{PriorityQueue, enqueue}
use tiny_mq.PriorityQueue.Bands.{Moodycamel}
use tiny_mq.TransactionBuffer.{TransactionBuffer, add_message}
use tiny_mq.Consumer.{Storage, Location, Environment, deliver_later}

module _ (lib : Moodycamel) (storage : Storage) (codec : Codec) where
  -- Both copies: the destination's store and the session's buffer, which may be missing.
  pub record Target : Type 0 where
    pub store : storage.Store
    pub buffer : Option TransactionBuffer

  -- createRandomUUID gives `fresh`.
  abbrev numbered : ℤ → ℕ → Message → Message
  numbered number fresh m = record m {
    uuid = if m.uuid == 0 then fresh else m.uuid;
    number = number;
  }

  abbrev appended : Target → Message → storage.Store × Location → Target × Message
  appended t m (store', l) = (
    record t { store = store' },
    record m { storage_tom_id = l.tom_id; storage_offset = l.offset },
  )

  unfoldable pub store_message : Target → Message → Target × Message
  store_message t m = appended t m (storage.append t.store m.uuid m.cached_storage_bytes)

  -- `id` is the producer's transaction, empty outside of one.
  unfoldable pub persist : Bytes → Target → Message → Target × Message
  unfolding store_message
  persist [] t m = store_message t m
  persist (c ∷ id) t m = elim t.buffer [
    | none ↦ store_message t m
    | some b ↦
        (record t { buffer = some (add_message b (c ∷ id) m.uuid m.cached_storage_bytes) }, m)
  ]

  unfoldable pub prepare_push : ℤ → ℕ → Bytes → Target → Message → Target × Message
  unfolding persist
  prepare_push number fresh id t m =
      let m' = numbered number fresh m in
      if is_persistent m'
      then persist id t (record m' { cached_storage_bytes = stored_form codec m' })
      else (t, m')

  -- Outside of a transaction the message goes to the consumer's queue, or to the scheduler; inside
  -- of one it waits on the producer's queue.
  unfoldable pub route :
      ℤ
      → Bytes
      → Environment lib storage codec
      → PriorityQueue lib
      → Message
      → Environment lib storage codec × PriorityQueue lib
  route now [] env waiting m =
      if is_zero m.headers.delivery_time
      then (record env { queue = enqueue lib env.queue m }, waiting)
      else (deliver_later lib storage codec now env m, waiting)
  route now (c ∷ id) env waiting m = (env, enqueue lib waiting m)

  -- A message that the consumer's selector does not match is not taken.
  unfoldable pub push :
      (Message → Bool)
      → ℤ
      → ℤ
      → ℕ
      → Bytes
      → Option TransactionBuffer
      → Environment lib storage codec
      → PriorityQueue lib
      → Message
      → (Option TransactionBuffer × Environment lib storage codec) × PriorityQueue lib
  unfolding prepare_push route
  push selects now number fresh id buffer env waiting m =
      let (t, m') =
        prepare_push number fresh id (record { store = env.store; buffer = buffer }) m in
      let (env', waiting') = route now id (record env { store = t.store }) waiting m' in
      if selects m then ((t.buffer, env'), waiting') else ((buffer, env), waiting)
