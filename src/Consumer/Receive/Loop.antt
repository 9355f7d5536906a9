-- ===== src/Consumer/Receive/Loop.antt =====
-- The whole loop of recv, of Consumer.cpp: what it drops, and what it returns.
use tiny_mq.Prelude.{
  ℕ, zero, suc, ◌<◌, ◌≡◌, refl, sym, ap, ◌∙◌, ◌⊎◌, inl, inr, true, false, List, [], ◌∷◌, ◌++◌,
  arith, Bool-cases, ℤ, pos, ◌≤ℤ◌, ◌<ℤ◌, -ℤ_parts, ltb_ℤ, length,
}
use tiny_mq.Message.{Message, is_expired}
use tiny_mq.Message.Wire.{Codec, Loaded, loaded, thrown}
use tiny_mq.PriorityQueue.{PriorityQueue, try_dequeue}
use tiny_mq.PriorityQueue.Bands.{Moodycamel}
use tiny_mq.PriorityQueue.Order.{ordered}
use tiny_mq.PriorityQueue.Dequeue.{WellFormed, try_dequeue-Dequeues}
use tiny_mq.Consumer.{Storage, Environment, remove_persistent}
use tiny_mq.Consumer.Receive.{
  Received, received, nothing, failed, waits, no_fuel, Turn, returns, again, recv_turn, recv_loop,
  load, loaded_turn, time_is_up, on_empty, drop_expired,
}

module _ (lib : Moodycamel) (storage : Storage) (codec : Codec) where
  abbrev Env : Type 0
  Env = Environment lib storage codec

  -- Messages that are dropped one after another, from a turn and a store on to another turn and
  -- store: each has expired at its own turn, and its record is removed.
  abbrev pub Dropped : (ℕ → ℤ) → ℕ → storage.Store → List Message → ℕ → storage.Store → Type 0
  Dropped now turn store [] turn' store' = (turn' ≡ turn) × (store' ≡ store)
  Dropped now turn store (x ∷ xs) turn' store' =
      (m : Message) × (load lib storage codec store x ≡ loaded m)
      × (is_expired m (now turn) ≡ true)
      × Dropped now (suc turn) (remove_persistent lib storage codec store m) xs turn' store'

  -- What is returned at a turn where the messages `rest` are left, and the queue then.
  abbrev pub Returned : (ℕ → ℤ) → (ℕ → ℤ) → ℤ → ℕ → List Message → Received → Env → Type 0
  Returned now elapsed timeout turn rest (received m) env =
      (x : Message) × (rest ≡ x ∷ ordered lib env.queue)
      × (load lib storage codec env.store x ≡ loaded m)
      × (is_expired m (now turn) ≡ false)
  Returned now elapsed timeout turn rest failed env =
      (x m : Message) × (rest ≡ x ∷ ordered lib env.queue)
      × (load lib storage codec env.store x ≡ thrown m)
  Returned now elapsed timeout turn rest nothing env =
      (pos 0 ≤ℤ timeout)
      × (rest ≡ ordered lib env.queue)
      × ((rest ≡ []) ⊎ ((last : ℕ) × (turn ≡ suc last) × (timeout ≤ℤ elapsed last)))
  Returned now elapsed timeout turn rest waits env =
      (timeout <ℤ pos 0) × (rest ≡ []) × (ordered lib env.queue ≡ [])
  Returned now elapsed timeout turn rest no_fuel env = ⊥

  abbrev pub Outcome : (ℕ → ℤ) → (ℕ → ℤ) → ℤ → ℕ → Env → Received × Env → Type 0
  Outcome now elapsed timeout turn env (r, env') =
      (dropped rest : List Message) × (turn' : ℕ) × (ordered lib env.queue ≡ dropped ++ rest)
      × Dropped now turn env.store dropped turn' env'.store
      × Returned now elapsed timeout turn' rest r env'

  abbrev go : (Env → Received × Env) → Turn lib storage codec → Received × Env
  go continue_ (returns r env) = (r, env)
  go continue_ (again env) = continue_ env

  time_left :
      (timeout e : ℤ)
      → time_is_up lib storage codec timeout e ≡ true
      → (pos 0 ≤ℤ timeout) × (timeout ≤ℤ e)
  time_left timeout e h = (ground (arith, -ℤ_parts timeout e), ground (arith, -ℤ_parts timeout e))

  module _ (now elapsed : ℕ → ℤ) (timeout : ℤ) (turn : ℕ) (env : Env) where
    empty_turn :
        (env' : Env)
        → ordered lib env.queue ≡ []
        → ordered lib env'.queue ≡ []
        → env'.store ≡ env.store
        → Outcome now elapsed timeout turn env (on_empty lib storage codec timeout, env')
    empty_turn env' e g s = elim (Bool-cases (ltb_ℤ timeout (pos 0))) [
      | inl h ↦ rw h ([], [], turn, e, (refl, s), (ground arith, refl, g))
      | inr h ↦ rw h ([], [], turn, e, (refl, s), (ground arith, sym g, inl refl))
    ]

    -- What the loop makes of a message, once its contents were loaded.
    loaded_outcome :
        (continue_ : Env → Received × Env) (x : Message) (q : PriorityQueue lib) (r : Loaded)
        → ordered lib env.queue ≡ x ∷ ordered lib q
        → load lib storage codec env.store x ≡ r
        → ((m : Message)
            → Outcome now elapsed timeout
                (suc turn)
                (drop_expired lib storage codec (record env { queue = q }) m)
                (continue_ (drop_expired lib storage codec (record env { queue = q }) m)))
        → Outcome now elapsed timeout turn env (
            go continue_ (
              loaded_turn lib storage codec
                (now turn)
                (elapsed turn)
                timeout
                (record env { queue = q })
                r))
    loaded_outcome continue_ x q (thrown m) o l k =
        ([], x ∷ ordered lib q, turn, o, (refl, refl), (x, m, refl, l))
    loaded_outcome continue_ x q (loaded m) o l k = elim (Bool-cases (is_expired m (now turn))) [
      | inl e ↦ elim (Bool-cases (time_is_up lib storage codec timeout (elapsed turn))) [
        | inl u ↦
            let (positive, passed) = time_left timeout (elapsed turn) u in
            rw (e, u)
              (
                x ∷ [],
                ordered lib q,
                suc turn,
                o,
                (m, l, e, (refl, refl)),
                (positive, refl, inr (turn, refl, passed)),
              )
        | inr u ↦
            let (dropped, rest, turn', split, d, end) = k m in
            rw (e, u) (x ∷ dropped, rest, turn', o ∙ ap (◌∷◌ x) split, (m, l, e, d), end)
      ]
      | inr e ↦ rw e ([], x ∷ ordered lib q, turn, o, (refl, refl), (x, refl, l, e))
    ]

  -- recv on a well-formed queue that nothing else uses, with fuel for one turn more than the queue
  -- has messages, comes to one of four ends. Before it, it has dropped the first messages in priority
  -- order, each expired at its own reading of the clock when its contents were loaded, and removed
  -- their records. Then: it gives the next message, loaded, and not expired at its reading of the
  -- clock; or that message's bytes made the loading throw, and in both cases the messages behind it
  -- stay queued; or, with a timeout of 0 or more, it gives nothing, and all other messages stay
  -- queued, because there is none or the time since the first drop has reached the timeout at the
  -- last drop; or, with a negative timeout, all messages were dropped and it waits.
  pub recv_loop-Outcome :
      (now elapsed : ℕ → ℤ) (timeout : ℤ) (fuel turn : ℕ) (env : Env)
      → WellFormed lib env.queue
      → length (ordered lib env.queue) < fuel
      → Outcome now elapsed timeout turn env
          (recv_loop lib storage codec now elapsed timeout fuel turn env)
  unfolding recv_loop recv_turn
  recv_loop-Outcome now elapsed timeout zero turn env w h = elim h [ ]
  recv_loop-Outcome now elapsed timeout (suc fuel) turn env w h =
      let (w', cases) = try_dequeue-Dequeues lib env.queue w in
      let q = (try_dequeue lib env.queue).1 in
      elim cases [
        | inl (e, f, g) ↦
            rw (f, recv_loop)
              (empty_turn now elapsed timeout turn env (record env { queue = q }) e g refl)
        | inr (x, o, f) ↦
            rw (f, recv_loop)
              (loaded_outcome now elapsed timeout turn env
                (λ env'. recv_loop lib storage codec now elapsed timeout fuel (suc turn) env') x q
                (load lib storage codec env.store x) o refl
                (λ m.
                  recv_loop-Outcome now elapsed timeout fuel (suc turn)
                    (drop_expired lib storage codec (record env { queue = q }) m) w'
                    (omega (arith, ap length o))))
      ]
