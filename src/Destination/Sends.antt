-- ===== src/Destination/Sends.antt =====
-- Destination.cpp, Consumer.cpp: a send in a transaction puts copies of the message on the
-- producer's queue, and changes no queue of the destination.
use tiny_mq.Prelude.{
  ℕ, suc, ◌+◌, ◌≡◌, refl, ap, ◌∙◌, Bool, true, false, Option, some, List, [], ◌∷◌, ◌==◌, arith,
  if◌then◌else◌, ℤ, pos, Bool-cases, inl, inr, Bytes,
}
use tiny_mq.Message.{Message, is_persistent}
use tiny_mq.Message.Wire.{Codec, stored_form}
use tiny_mq.PriorityQueue.{PriorityQueue, enqueue, empty, update}
use tiny_mq.PriorityQueue.Bands.{Moodycamel}
use tiny_mq.PriorityQueue.Copies.{enqueue_times}
use tiny_mq.TransactionBuffer.{TransactionBuffer}
use tiny_mq.Consumer.{Storage, Environment}
use tiny_mq.Consumer.Send.{push, prepare_push, persist, route}
use tiny_mq.Destination.{
  Destination, Endpoint, is_queue_family, environment, pushed, push_to, push_all, save,
}

-- How many consumers want the message.
unfoldable pub selecting : Message → List (ℕ × Endpoint) → ℕ
selecting m [] = 0
selecting m ((uuid, c) ∷ cs) = if c.selects m then suc (selecting m cs) else selecting m cs

module _ (codec : Codec) where
  -- The copy of a message that preparePush makes in a transaction.
  unfoldable pub prepared : ℕ → Message → Message
  prepared number m =
      let m1 : Message = record m { number = pos number } in
      if is_persistent m then record m1 { cached_storage_bytes = stored_form codec m1 } else m1

  pub prepared_fields :
      (n : ℕ) (m : Message)
      → ((prepared n m).headers ≡ m.headers)
        × ((prepared n m).pending_delivery_delay ≡ m.pending_delivery_delay)
  unfolding prepared
  prepared_fields n m = elim (Bool-cases (is_persistent m)) [
    | inl p ↦ rw p (refl, refl)
    | inr p ↦ rw p (refl, refl)
  ]

module _ {lib : Moodycamel} {storage : Storage} {codec : Codec} where
  -- What a commit reads of a destination is unchanged.
  abbrev pub Same : Destination lib storage codec → Destination lib storage codec → Type 0
  Same d d' =
      (d'.kind ≡ d.kind)
      × (d'.consumers ≡ d.consumers)
      × (d'.scheduler ≡ d.scheduler)
      × ((q : ℕ) → d'.queues q ≡ d.queues q)

  pub Same-trans : (a b c : Destination lib storage codec) → Same a b → Same b c → Same a c
  Same-trans a b c (k, l, s, q) (k', l', s', q') = (k' ∙ k, l' ∙ l, s' ∙ s, λ j. q' j ∙ q j)

module _ (lib : Moodycamel) (storage : Storage) (codec : Codec) where
  abbrev Dest : Type 0
  Dest = Destination lib storage codec

  push_in_transaction :
      (selects : Message → Bool) (now : ℤ) (number fresh : ℕ) (c : ℕ) (id : Bytes)
      (b : TransactionBuffer) (env : Environment lib storage codec) (waiting : PriorityQueue lib)
      (m : Message)
      → (m.uuid == 0) ≡ false
      → let r =
          push lib storage codec selects now (pos number) fresh (c ∷ id) (some b) env waiting m in
        (r.0.1 ≡ env)
        × (r.1 ≡ (if selects m then enqueue lib waiting (prepared codec number m) else waiting))
  unfolding push prepare_push persist route prepared
  push_in_transaction selects now number fresh c id b env waiting m h =
      elim (Bool-cases (selects m)) [
        | inl e ↦ elim (Bool-cases (is_persistent m)) [
          | inl p ↦ rw (h, e, p) (refl, refl)
          | inr p ↦ rw (h, e, p) (refl, refl)
        ]
        | inr e ↦ rw e (refl, refl)
      ]

  update_same :
      (f : ℕ → PriorityQueue lib) (i : ℕ) (x : PriorityQueue lib) (j : ℕ)
      → x ≡ f i
      → update f i x j ≡ f j
  update_same f i x j e = elim (Bool-cases (i == j)) [
    | inl h ↦ let k : i ≡ j = ground arith in rw h (e ∙ ap f k)
    | inr h ↦ rw h refl
  ]

  pushed-Same :
      (d : Dest) (c : Endpoint)
      (r : (Option TransactionBuffer × Environment lib storage codec) × PriorityQueue lib)
      → r.0.1 ≡ environment lib storage codec d c
      → Same d (pushed lib storage codec d c r).0 × ((pushed lib storage codec d c r).1 ≡ r.1)
  pushed-Same d c ((b, env), w) e = (
    (
      refl,
      refl,
      ap (λ x. x.scheduler) e,
      λ q. update_same d.queues c.queue env.queue q (ap (λ x. x.queue) e),
    ),
    refl,
  )

  enqueue_times_if :
      (b : Bool) (n : ℕ) (q : PriorityQueue lib) (m : Message)
      → enqueue_times lib n (if b then enqueue lib q m else q) m
        ≡ enqueue_times lib (if b then suc n else n) q m
  unfolding enqueue_times
  enqueue_times_if true n q m = refl
  enqueue_times_if false n q m = refl

  push_all-Same :
      (now : ℤ) (fresh : ℕ → ℕ) (c : ℕ) (id : Bytes) (number : ℕ) (m : Message)
      (cs : List (ℕ × Endpoint)) (d : Dest) (waiting : PriorityQueue lib)
      → (m.uuid == 0) ≡ false
      → let r = push_all lib storage codec now fresh (c ∷ id) (pos number) m cs (d, waiting) in
        Same d r.0 × (r.1 ≡ enqueue_times lib (selecting m cs) waiting (prepared codec number m))
  unfolding push_all push_to selecting enqueue_times
  push_all-Same now fresh c id number m [] d waiting h = ((refl, refl, refl, λ q. refl), refl)
  push_all-Same now fresh c id number m ((uuid, e) ∷ cs) d waiting h =
      let (same, w) =
        push_in_transaction e.selects now number (fresh uuid) c id d.buffer
          (environment lib storage codec d e) waiting m h in
      let r =
        push lib storage codec e.selects now (pos number) (fresh uuid) (c ∷ id) (some d.buffer)
          (environment lib storage codec d e) waiting m in
      let (s, v) = pushed-Same d e r same in
      let (d1, waiting1) = pushed lib storage codec d e r in
      let (s', w') = push_all-Same now fresh c id number m cs d1 waiting1 h in
      (
        Same-trans d d1
            (push_all lib storage codec now fresh (c ∷ id) (pos number) m cs (d1, waiting1)).0 s s',
        w'
            ∙ (ap (λ q. enqueue_times lib (selecting m cs) q (prepared codec number m)) (v ∙ w)
                ∙ enqueue_times_if (e.selects m) (selecting m cs) waiting
                    (prepared codec number m)),
      )

  pub save-Same :
      (now : ℤ) (fresh : ℕ → ℕ) (c : ℕ) (id : Bytes) (m : Message) (d : Dest)
      → is_queue_family d.kind ≡ false
      → (m.uuid == 0) ≡ false
      → let r = save lib storage codec now fresh (c ∷ id) m (d, empty lib) in
        Same d r.0
        × (r.1
            ≡ enqueue_times lib
                (selecting m d.consumers)
                (empty lib)
                (prepared codec d.message_counter m))
  unfolding save
  save-Same now fresh c id m d t u =
      let all =
        push_all-Same now fresh c id d.message_counter m d.consumers
          (record d { message_counter = d.message_counter + 1 }) (empty lib) u in
      elim (Bool-cases (is_persistent m)) [ inl p ↦ rw (t, p) all | inr p ↦ rw (t, p) all ]
