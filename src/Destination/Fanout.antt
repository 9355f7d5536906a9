-- ===== src/Destination/Fanout.antt =====
-- Destination.cpp, Producer.cpp: a message to a topic in a transaction, from the send to the commit.
use tiny_mq.Prelude.{
  ℕ, zero, suc, ◌+◌, ◌*◌, ◌<◌, ◌≡◌, refl, sym, ap, ◌∙◌, Bool, true, false, List, [], ◌∷◌, ◌&&◌,
  ◌==◌, arith, if◌then◌else◌, ℤ, pos, replicate, length, length-replicate, Bool-cases, inl, inr,
  Bytes,
}
use tiny_mq.Message.{Message, is_persistent}
use tiny_mq.Message.Wire.{Codec}
use tiny_mq.PriorityQueue.{PriorityQueue, enqueue, empty, update}
use tiny_mq.PriorityQueue.Bands.{Moodycamel}
use tiny_mq.PriorityQueue.Copies.{enqueue_times, enqueue_times_add, ordered-enqueue_times}
use tiny_mq.Scheduler.{enqueue_or_schedule, sanitize, too_far, due}
use tiny_mq.TransactionBuffer.{TransactionBuffer, Batch}
use tiny_mq.Consumer.{Storage}
use tiny_mq.Consumer.Laws.{drain_queue-ordered}
use tiny_mq.Destination.{
  Destination, Endpoint, DurableSub, is_offline, is_queue_family, persist_to_offline_sub, save,
  deliver_each, enqueue_or_schedule_on, deliver_committed, deliver_all, persist_offline,
}
use tiny_mq.Destination.Sends.{selecting, prepared, Same, Same-trans, save-Same, prepared_fields}
use tiny_mq.Destination.Transactions.{
  resolve, resolve_all, flushed, commit_transaction, deliver_staged, commit_producer,
}

-- How many consumers take from a queue.
unfoldable pub count_on : ℕ → List (ℕ × Endpoint) → ℕ
count_on q [] = 0
count_on q ((uuid, c) ∷ cs) = if c.queue == q then suc (count_on q cs) else count_on q cs

module _ (lib : Moodycamel) (storage : Storage) (codec : Codec) where
  abbrev Dest : Type 0
  Dest = Destination lib storage codec

  -- A message without a delivery time goes to the queue at once.
  pub enqueue_undelayed :
      (now : ℤ) (q : ℕ) (m : Message) (d : Dest)
      → m.headers.delivery_time ≡ pos 0
      → enqueue_or_schedule_on lib storage codec now q m d
        ≡ record d { queues = update d.queues q (enqueue lib (d.queues q) m) }
  unfolding enqueue_or_schedule_on enqueue_or_schedule sanitize too_far due deliver_all
  enqueue_undelayed now q m d h = rw h refl

  enqueue_times-update :
      (f : ℕ → PriorityQueue lib) (i j n : ℕ) (m : Message)
      → enqueue_times lib n (update f i (enqueue lib (f i) m) j) m
        ≡ enqueue_times lib (if i == j then suc n else n) (f j) m
  unfolding enqueue_times
  enqueue_times-update f i j n m = elim (Bool-cases (i == j)) [
    | inl h ↦
        let k : i ≡ j = ground arith in
        rw h (ap (λ x. enqueue_times lib n (enqueue lib (f x) m) m) k)
    | inr h ↦ rw h refl
  ]

  deliver_each-Same :
      (now : ℤ) (m : Message) (cs : List (ℕ × Endpoint)) (d : Dest)
      → m.headers.delivery_time ≡ pos 0
      → let d' = deliver_each lib storage codec now m cs d in
        (d'.kind ≡ d.kind)
        × (d'.consumers ≡ d.consumers)
        × ((q : ℕ) → d'.queues q ≡ enqueue_times lib (count_on q cs) (d.queues q) m)
  unfolding deliver_each count_on enqueue_times
  deliver_each-Same now m [] d h = (refl, refl, λ q. refl)
  deliver_each-Same now m ((uuid, c) ∷ cs) d h =
      let e = enqueue_undelayed now c.queue m d h in
      let (k, l, f) =
        deliver_each-Same now m cs (enqueue_or_schedule_on lib storage codec now c.queue m d) h in
      (
        k ∙ ap (λ x. x.kind) e,
        l ∙ ap (λ x. x.consumers) e,
        λ q.
            f q
            ∙ (ap (λ x. enqueue_times lib (count_on q cs) (x.queues q) m) e
                ∙ enqueue_times-update d.queues c.queue q (count_on q cs) m),
      )

  Same-if : (b : Bool) (d d' : Dest) → Same d d' → Same d (if b then d' else d)
  Same-if true d d' s = s
  Same-if false d d' s = (refl, refl, refl, λ q. refl)

  persist_offline-Same :
      (fresh : ℕ → ℕ) (m : Message) (subs : List (Bytes × DurableSub)) (d : Dest)
      → Same d (persist_offline lib storage codec fresh m subs d)
  unfolding persist_offline persist_to_offline_sub
  persist_offline-Same fresh m [] d = (refl, refl, refl, λ q. refl)
  persist_offline-Same fresh m ((key, sub) ∷ subs) d =
      let stored = persist_to_offline_sub lib storage codec (fresh sub.store) m sub d in
      let d1 : Dest = (if is_offline sub && sub.selects m then stored else d) in
      Same-trans d d1 (persist_offline lib storage codec fresh m subs d1)
        (Same-if (is_offline sub && sub.selects m) d stored (refl, refl, refl, λ q. refl))
        (persist_offline-Same fresh m subs d1)

  -- One committed message of a topic.
  deliver_committed-Same :
      (now : ℤ) (fresh : ℕ → ℕ) (m : Message) (d : Dest)
      → is_queue_family d.kind ≡ false
      → m.headers.delivery_time ≡ pos 0
      → let d' = deliver_committed lib storage codec now fresh m d in
        (d'.kind ≡ d.kind)
        × (d'.consumers ≡ d.consumers)
        × ((q : ℕ) → d'.queues q ≡ enqueue_times lib (count_on q d.consumers) (d.queues q) m)
  unfolding deliver_committed
  deliver_committed-Same now fresh m d t h =
      let (k, l, f) = deliver_each-Same now m d.consumers d h in
      let d1 = deliver_each lib storage codec now m d.consumers d in
      let (k', l', s', f') = persist_offline-Same fresh m d1.durable_subs d1 in
      elim (Bool-cases (is_persistent m)) [
        | inl p ↦ rw (t, p) (k' ∙ k, l' ∙ l, λ q. f' q ∙ f q)
        | inr p ↦ rw (t, p) (k, l, f)
      ]

  deliver_staged-Same :
      (now : ℤ) (fresh : ℕ → ℕ) (n : ℕ) (m : Message) (d : Dest)
      → is_queue_family d.kind ≡ false
      → m.headers.delivery_time ≡ pos 0
      → (q : ℕ)
      → (deliver_staged lib storage codec now fresh (replicate n m) d).queues q
        ≡ enqueue_times lib (n * count_on q d.consumers) (d.queues q) m
  unfolding deliver_staged enqueue_times
  deliver_staged-Same now fresh zero m d t h q =
      let none_more : 0 * count_on q d.consumers ≡ 0 = omega arith in
      sym (ap (λ n. enqueue_times lib n (d.queues q) m) none_more)
  deliver_staged-Same now fresh (suc n) m d t h q =
      let (k, l, f) = deliver_committed-Same now fresh m d t h in
      let d1 = deliver_committed lib storage codec now fresh m d in
      let more : count_on q d.consumers + n * count_on q d.consumers
          ≡ suc n * count_on q d.consumers =
        grind arith in
      let t1 : is_queue_family d1.kind ≡ false = ap is_queue_family k ∙ t in
      deliver_staged-Same now fresh n m d1 t1 h q
      ∙ (ap (λ cs. enqueue_times lib (n * count_on q cs) (d1.queues q) m) l
          ∙ (ap (λ x. enqueue_times lib (n * count_on q d.consumers) x m) (f q)
              ∙ (enqueue_times_add lib (count_on q d.consumers) (n * count_on q d.consumers)
                    (d.queues q) m
                  ∙ ap (λ j. enqueue_times lib j (d.queues q) m) more)))

  resolve_idle :
      (now : ℤ) (m : Message) (b : TransactionBuffer)
      → m.pending_delivery_delay ≡ pos 0
      → resolve lib storage codec now m b ≡ (m, b)
  unfolding resolve
  resolve_idle now m b h = rw h refl

  resolve_all-replicate :
      (now : ℤ) (n : ℕ) (m : Message) (b : TransactionBuffer)
      → m.pending_delivery_delay ≡ pos 0
      → resolve_all lib storage codec now (replicate n m) b ≡ (replicate n m, b)
  unfolding resolve_all
  resolve_all-replicate now zero m b h = refl
  resolve_all-replicate now (suc n) m b h =
      ap
        (λ r. (
          r.0 ∷ (resolve_all lib storage codec now (replicate n m) r.1).0,
          (resolve_all lib storage codec now (replicate n m) r.1).1,
        ))
        (resolve_idle now m b h)
      ∙ ap (λ r. (m ∷ r.0, r.1)) (resolve_all-replicate now n m b h)

  flushed-Same : (d : Dest) (r : TransactionBuffer × Batch) → Same d (flushed lib storage codec d r)
  flushed-Same d (b, []) = (refl, refl, refl, λ q. refl)
  flushed-Same d (b, x ∷ xs) = (refl, refl, refl, λ q. refl)

  commit_transaction-Same :
      (id : Bytes) (d : Dest) → Same d (commit_transaction lib storage codec id d)
  unfolding commit_transaction
  commit_transaction-Same [] d = (refl, refl, refl, λ q. refl)
  commit_transaction-Same (c ∷ id) d =
      flushed-Same d (tiny_mq.TransactionBuffer.commit_transaction d.buffer (c ∷ id))

  -- The commit of a producer whose queue holds copies of one message.
  commit_copies :
      (fuel n : ℕ) (later : ℤ) (fresh : ℕ → ℕ) (id : Bytes) (m : Message) (d : Dest)
      → is_queue_family d.kind ≡ false
      → m.headers.delivery_time ≡ pos 0
      → m.pending_delivery_delay ≡ pos 0
      → n < fuel
      → (q : ℕ)
      → (commit_producer lib storage codec fuel later fresh id
            (d, enqueue_times lib n (empty lib) m)).0.queues
          q
        ≡ enqueue_times lib (n * count_on q d.consumers) (d.queues q) m
  unfolding commit_producer
  commit_copies fuel n later fresh id m d t h k f q =
      let (well, all) = ordered-enqueue_times lib n m in
      let (drained, _) =
        drain_queue-ordered lib fuel (enqueue_times lib n (empty lib) m) well
          (omega (arith, ap length all, length-replicate n m)) in
      let (kind, consumers, _, queues) = commit_transaction-Same id d in
      ap
        (λ ms.
          (deliver_staged lib storage codec later fresh
              (resolve_all lib storage codec later ms d.buffer).0
              (commit_transaction lib storage codec id
                (record d { buffer = (resolve_all lib storage codec later ms d.buffer).1 }))).queues
            q)
        (drained ∙ all)
      ∙ (ap
            (λ x.
              (deliver_staged lib storage codec later fresh x.0
                  (commit_transaction lib storage codec id (record d { buffer = x.1 }))).queues
                q)
            (resolve_all-replicate later n m d.buffer k)
          ∙ (deliver_staged-Same later fresh n m (commit_transaction lib storage codec id d)
                (ap is_queue_family kind ∙ t) h q
              ∙ (ap
                    (λ cs.
                      enqueue_times lib (n * count_on q cs)
                        ((commit_transaction lib storage codec id d).queues q) m)
                    consumers
                  ∙ ap (λ x. enqueue_times lib (n * count_on q d.consumers) x m) (queues q))))

  -- What the consumers of a topic get of a message that is sent in a transaction, without a delay,
  -- and then committed: each of them gets as many copies as there are consumers whose selector
  -- matches the message, also a consumer whose own selector does not match it.
  pub save-commit_producer :
      (fuel : ℕ) (now later : ℤ) (fresh : ℕ → ℕ) (c : ℕ) (id : Bytes) (m : Message) (d : Dest)
      → is_queue_family d.kind ≡ false
      → (m.uuid == 0) ≡ false
      → m.headers.delivery_time ≡ pos 0
      → m.pending_delivery_delay ≡ pos 0
      → selecting m d.consumers < fuel
      → let sent = save lib storage codec now fresh (c ∷ id) m (d, empty lib) in
        let committed = commit_producer lib storage codec fuel later fresh (c ∷ id) sent in
        (q : ℕ)
        → committed.0.queues q
          ≡ enqueue_times lib
              (selecting m d.consumers * count_on q d.consumers)
              (d.queues q)
              (prepared codec d.message_counter m)
  save-commit_producer fuel now later fresh c id m d t u h k f q =
      let ((kind, consumers, _, queues), waiting) =
        save-Same lib storage codec now fresh c id m d t u in
      let sent = save lib storage codec now fresh (c ∷ id) m (d, empty lib) in
      let (headers, delay) = prepared_fields codec d.message_counter m in
      let copy = prepared codec d.message_counter m in
      let n = selecting m d.consumers in
      ap (λ w. (commit_producer lib storage codec fuel later fresh (c ∷ id) (sent.0, w)).0.queues q)
        waiting
      ∙ (commit_copies fuel n later fresh (c ∷ id) copy sent.0 (ap is_queue_family kind ∙ t)
            (ap (λ x. x.delivery_time) headers ∙ h) (delay ∙ k) f q
          ∙ (ap (λ cs. enqueue_times lib (n * count_on q cs) (sent.0.queues q) copy) consumers
              ∙ ap (λ x. enqueue_times lib (n * count_on q d.consumers) x copy) (queues q)))
