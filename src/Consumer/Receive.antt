-- ===== src/Consumer/Receive.antt =====
-- Consumer.cpp, recv. The queue has no other user until recv returns. The clocks give the reading
-- of each turn of the loop: milliseconds since the epoch, and microseconds since the first drop.
pub mod Loop
use tiny_mq.Prelude.{
  ℕ, zero, suc, Bool, ◌&&◌, Option, none, some, [], ◌∷◌, if◌then◌else◌, ℤ, pos, ◌-ℤ◌, leb_ℤ, ltb_ℤ,
  drop,
}
use tiny_mq.Message.{Message, is_persistent, is_expired}
use tiny_mq.Message.Wire.{Codec, Loaded, loaded, thrown, from_bytes}
use tiny_mq.PriorityQueue.{PriorityQueue, enqueue, try_dequeue}
use tiny_mq.PriorityQueue.Bands.{Moodycamel}
use tiny_mq.Consumer.{
  AcknowledgeMode, session_transacted, auto_acknowledge, client_acknowledge, individual_acknowledge,
  dups_ok_acknowledge, Storage, Environment, remove_persistent,
}
use tiny_mq.Consumer.InFlight.{Chain, Links, track}

-- `failed` is an exception of the JSON parser; the message is off the queue by then. `waits` is the
-- wait of a negative timeout on an empty queue, which only another thread ends.
pub data Received : Type 0 where
  received : Message → Received
  nothing failed waits no_fuel : Received

module _ (lib : Moodycamel) (storage : Storage) (codec : Codec) where
  abbrev pub Env : Type 0
  Env = Environment lib storage codec

  -- A persistent message takes its contents from the cached bytes, which are then cleared, or else
  -- from its record.
  unfoldable pub load_message : storage.Store → Message → Loaded
  load_message store m = elim m.cached_storage_bytes [
    | c ∷ cached ↦ clear (from_bytes codec m cached)
    | [] ↦ elim (storage.record_of store m.uuid) [
      | none ↦ loaded m
      | some l ↦ from_bytes codec m (drop 1 (storage.data_of store l))
    ]
  ]
    where
      clear : Loaded → Loaded
      clear (loaded m) = loaded (record m { cached_storage_bytes = [] })
      clear (thrown m) = thrown m

  unfoldable pub load : storage.Store → Message → Loaded
  unfolding load_message
  load store m = if is_persistent m then load_message store m else loaded m

  abbrev pub drop_expired : Env → Message → Env
  drop_expired env m = record env { store = remove_persistent lib storage codec env.store m }

  -- After a drop: a timeout of 0 or more leaves its rest, and none left ends the wait.
  abbrev pub time_is_up : ℤ → ℤ → Bool
  time_is_up timeout elapsed = leb_ℤ (pos 0) timeout && leb_ℤ (timeout -ℤ elapsed) (pos 0)

  -- One turn of the loop: it returns, or goes on after a drop.
  pub data Turn : Type 0 where
    returns : Received → Env → Turn
    again : Env → Turn

  abbrev check_expired : ℤ → ℤ → ℤ → Env → Message → Turn
  check_expired now elapsed timeout env m =
      if is_expired m now
      then (if time_is_up timeout elapsed
          then returns nothing (drop_expired env m)
          else again (drop_expired env m))
      else returns (received m) env

  abbrev pub loaded_turn : ℤ → ℤ → ℤ → Env → Loaded → Turn
  loaded_turn now elapsed timeout env (thrown m) = returns failed env
  loaded_turn now elapsed timeout env (loaded m) = check_expired now elapsed timeout env m

  -- A queue that stays empty: moodycamel takes a negative timeout for one without end.
  abbrev pub on_empty : ℤ → Received
  on_empty timeout = if ltb_ℤ timeout (pos 0) then waits else nothing

  abbrev dequeued_turn : ℤ → ℤ → ℤ → Env → Option Message × PriorityQueue lib → Turn
  dequeued_turn now elapsed timeout env (none, q) =
      returns (on_empty timeout) (record env { queue = q })
  dequeued_turn now elapsed timeout env (some m, q) =
      loaded_turn now elapsed timeout (record env { queue = q }) (load env.store m)

  unfoldable pub recv_turn : ℤ → ℤ → ℤ → Env → Turn
  unfolding load is_expired
  recv_turn now elapsed timeout env =
      dequeued_turn now elapsed timeout env (try_dequeue lib env.queue)

  -- The loop; `turn` counts its turns. Each turn that goes on has taken a message off the queue.
  unfoldable pub recv_loop : (ℕ → ℤ) → (ℕ → ℤ) → ℤ → ℕ → ℕ → Env → Received × Env
  unfolding recv_turn
  recv_loop now elapsed timeout zero turn env = (no_fuel, env)
  recv_loop now elapsed timeout (suc fuel) turn env =
      elim (recv_turn (now turn) (elapsed turn) timeout env) [
        | returns r env' ↦ (r, env')
        | again env' ↦ recv_loop now elapsed timeout fuel (suc turn) env'
      ]

  -- What the mode keeps of a received message: a transacted one is put on the transaction's queue,
  -- and with CLIENT_, INDIVIDUAL_ or DUPS_OK_ACKNOWLEDGE the message `at` is tracked in flight.
  unfoldable pub track_received :
      AcknowledgeMode
      → ℕ
      → ℕ
      → Message
      → PriorityQueue lib
      → Chain × Links
      → PriorityQueue lib × (Chain × Links)
  unfolding track
  track_received session_transacted self at m q s = (enqueue lib q m, s)
  track_received auto_acknowledge self at m q s = (q, s)
  track_received client_acknowledge self at m q s = (q, track self at s)
  track_received individual_acknowledge self at m q s = (q, track self at s)
  track_received dups_ok_acknowledge self at m q s = (q, track self at s)
