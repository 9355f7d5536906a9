-- ===== src/Destination/Lifecycle.antt =====
-- Destination.cpp: that the calls of a topic keep its subscriptions and consumers together.
use tiny_mq.Prelude.{
  ℕ, ◌≡◌, ◌≢◌, refl, sym, ap, subst, ◌∙◌, Bool, true, false, Option, none, some, [], ◌∷◌, ◌++◌,
  arith, if◌then◌else◌, ℤ, Bool-cases, ◌⊎◌, inl, inr, Bytes,
}
use tiny_mq.Prelude.Maps.{
  find, insert, erase, nat_eq, bytes_key, some_injective, none_differs, find-insert_same,
}
use tiny_mq.Message.{Message}
use tiny_mq.Message.Wire.{Codec}
use tiny_mq.PriorityQueue.Bands.{Moodycamel}
use tiny_mq.TransactionBuffer.{TransactionBuffer}
use tiny_mq.Consumer.{Storage}
use tiny_mq.Destination.{
  Destination, DestinationType, Endpoint, DurableSub, new_destination, is_queue_family, is_offline,
}
use tiny_mq.Destination.Names.{durable_key}
use tiny_mq.Destination.Consumers.{
  create_consumer, create_default_consumer, replay_from_storage, with_new_queue, with_consumer,
}
use tiny_mq.Destination.Subscriptions.{
  create_durable_consumer, attach, new_sub, without_sub, went_offline, Refusal, delete_consumer,
  delete_subscription, done, refused,
}
use tiny_mq.Destination.Registry.{
  Free, attach-Consistent, erase-Consistent, offline-Consistent, unsubscribe-Consistent,
  join-Consistent, empty-Consistent,
}
use tiny_mq.Destination.Keeps.{
  Registry, registry, replay_keeps, save_keeps, commit_producer_keeps, rollback_producer_keeps,
}
use tiny_mq.Destination.Steps.{
  ValidRegistry, Valid, Step, Reach, subscribe, join, join_default, leave, unsubscribe, send,
  commit, rollback, start, step,
}

module _ (lib : Moodycamel) (storage : Storage) (codec : Codec) where
  abbrev Dest : Type 0
  Dest = Destination lib storage codec

  done_injective {ℓ} : {A : Type ℓ} {x y : A} → done x ≡ done y → x ≡ y
  done_injective {x} h = ap (λ o. elim o [ done v ↦ v | refused r ↦ x ]) h

  registry-attach :
      (now : ℤ) (id : ℕ) (key : Bytes) (selects : Message → Bool) (d : Dest) (sub : DurableSub)
      → registry lib storage codec (attach lib storage codec now id key selects (d, sub)) ≡ (
        d.kind,
        d.default_consumer,
        insert key (record sub { active = id; selects = selects }) d.durable_subs,
        d.consumer_to_sub ++ (id, key) ∷ [],
        d.consumers
            ++ (id, (record { queue = d.next_queue; store = sub.store; selects = selects })) ∷ [],
      )
  unfolding attach replay_from_storage
  registry-attach now id key selects d sub =
      let d1 = with_new_queue lib storage codec d in
      ap
        (λ (x : Registry). (
          x.0,
          x.1,
          insert key (record sub { active = id; selects = selects }) x.2,
          x.3 ++ (id, key) ∷ [],
          x.4 ++ (id, (record { queue = d.next_queue; store = sub.store; selects = selects })) ∷ [],
        ))
        (replay_keeps lib storage codec now d.next_queue (storage.scan (d1.stores sub.store)) d1)

  attach-Valid :
      (now : ℤ) (id : ℕ) (key : Bytes) (selects : Message → Bool) (d : Dest) (sub : DurableSub)
      → Valid d
      → Free d.durable_subs key
      → id ≢ 0
      → find id d.consumer_to_sub ≡ none
      → Valid (attach lib storage codec now id key selects (d, sub))
  attach-Valid now id key selects d sub (kind, default_, h) free nonzero fresh =
      subst ValidRegistry (sym (registry-attach now id key selects d sub)) (
        kind,
        default_,
        attach-Consistent d.durable_subs d.consumer_to_sub d.consumers key id
            (record sub { active = id; selects = selects })
            (record { queue = d.next_queue; store = sub.store; selects = selects }) h free nonzero
            fresh refl,
      )

  refused_done {ℓ} : {A : Type ℓ} {x : A} {r : Refusal} → refused r ≡ done x → ⊥
  refused_done h = ground arith

  -- Where a creation succeeded, this subscription was attached.
  subscribed :
      (now : ℤ) (id : ℕ) (opened : storage.Store) (client_id name : Bytes)
      (selects : Message → Bool) (d d' : Dest)
      → is_queue_family d.kind ≡ false
      → create_durable_consumer lib storage codec now id opened client_id name selects d ≡ done d'
      → let key = durable_key client_id name in
        ((find key d.durable_subs ≡ none)
          × (attach lib storage codec now id key selects
                (new_sub lib storage codec client_id name opened selects d)
              ≡ d'))
        ⊎ ((sub : DurableSub) × (find key d.durable_subs ≡ some sub)
            × (is_offline sub ≡ true)
            × (attach lib storage codec now id key selects (d, sub) ≡ d'))
  unfolding create_durable_consumer
  subscribed now id opened client_id name selects d d' t e =
      go (find (durable_key client_id name) d.durable_subs) refl
    where
      Result' : Type 0
      Result' =
          let key = durable_key client_id name in
          ((find key d.durable_subs ≡ none)
            × (attach lib storage codec now id key selects
                  (new_sub lib storage codec client_id name opened selects d)
                ≡ d'))
          ⊎ ((sub : DurableSub) × (find key d.durable_subs ≡ some sub)
              × (is_offline sub ≡ true)
              × (attach lib storage codec now id key selects (d, sub) ≡ d'))

      go : (o : Option DurableSub) → find (durable_key client_id name) d.durable_subs ≡ o → Result'
      go none f = inl (f, done_injective (rw (t, f) at e))
      go (some sub) f = elim (Bool-cases (is_offline sub)) [
        | inl a ↦ inr (sub, f, a, done_injective (rw (t, f, a) at e))
        | inr a ↦ absurd (refused_done (rw (t, f, a) at e))
      ]

  subscribe-Valid :
      (now : ℤ) (id : ℕ) (opened : storage.Store) (client_id name : Bytes)
      (selects : Message → Bool) (d d' : Dest)
      → Valid d
      → id ≢ 0
      → find id d.consumer_to_sub ≡ none
      → create_durable_consumer lib storage codec now id opened client_id name selects d ≡ done d'
      → Valid d'
  subscribe-Valid now id opened client_id name selects d d' v nonzero fresh e =
      let key = durable_key client_id name in
      elim (subscribed now id opened client_id name selects d d' v.0 e) [
        | inl (f, made) ↦
            let (d1, sub) = new_sub lib storage codec client_id name opened selects d in
            subst Valid {x = attach lib storage codec now id key selects (d1, sub)} made (
              attach-Valid now id key selects d1 sub v (λ s g. absurd (none_differs (sym f ∙ g)))
                nonzero fresh)
        | inr (sub, f, a, made) ↦
            subst Valid {x = attach lib storage codec now id key selects (d, sub)} made (
              attach-Valid now id key selects d sub v
                (λ s g. ap (λ x. x.active) (some_injective (sym g ∙ f)) ∙ ground arith) nonzero
                fresh)
      ]

  joined :
      (now : ℤ) (id : ℕ) (selects : Message → Bool) (d : Dest)
      → is_queue_family d.kind ≡ false
      → d.default_consumer ≡ none
      → create_consumer lib storage codec now id selects d
        ≡ some (
            with_consumer lib storage codec id
              (record { queue = d.next_queue; store = 0; selects = selects })
              (with_new_queue lib storage codec d))
  unfolding create_consumer
  joined now id selects d t e = rw (t, e) refl

  join-Valid :
      (now : ℤ) (id : ℕ) (selects : Message → Bool) (d d' : Dest)
      → Valid d
      → create_consumer lib storage codec now id selects d ≡ some d'
      → Valid d'
  join-Valid now id selects d d' (kind, default_, h) e =
      let c : Endpoint = record { queue = d.next_queue; store = 0; selects = selects } in
      let d1 = with_consumer lib storage codec id c (with_new_queue lib storage codec d) in
      subst Valid {x = d1} (some_injective (sym (joined now id selects d kind default_) ∙ e))
        (kind, default_, join-Consistent d.durable_subs d.consumer_to_sub d.consumers id c h)

  -- What the consumer's departure does where it holds a subscription.
  left :
      (id : ℕ) (key : Bytes) (sub : DurableSub) (d : Dest)
      → find id d.consumer_to_sub ≡ some key
      → find key d.durable_subs ≡ some sub
      → registry lib storage codec (delete_consumer lib storage codec id d) ≡ (
        d.kind,
        d.default_consumer,
        insert key (record sub { active = 0 }) d.durable_subs,
        erase id d.consumer_to_sub,
        erase id d.consumers,
      )
  unfolding delete_consumer
  left id key sub d e f = rw (e, f, delete_consumer, went_offline) refl

  left_free :
      (id : ℕ) (d : Dest)
      → find id d.consumer_to_sub ≡ none
      → delete_consumer lib storage codec id d ≡ record d { consumers = erase id d.consumers }
  unfolding delete_consumer
  left_free id d e = rw (e, delete_consumer) refl

  leave-Valid : (id : ℕ) (d : Dest) → Valid d → Valid (delete_consumer lib storage codec id d)
  leave-Valid id d (kind, default_, h) = go (find id d.consumer_to_sub) refl
    where
      go :
          (o : Option Bytes)
          → find id d.consumer_to_sub ≡ o
          → Valid (delete_consumer lib storage codec id d)
      go none e =
          subst Valid (sym (left_free id d e))
            (kind, default_, erase-Consistent d.durable_subs d.consumer_to_sub d.consumers id h e)
      go (some key) e =
          let (sub, f, a) = h.held id key e in
          subst ValidRegistry (sym (left id key sub d e f)) (
            kind,
            default_,
            offline-Consistent d.durable_subs d.consumer_to_sub d.consumers id key
                (record sub { active = 0 }) h e refl,
          )

  without-Valid :
      (key : Bytes) (d : Dest)
      → Valid d
      → Free d.durable_subs key
      → Valid (without_sub lib storage codec key d)
  without-Valid key d (kind, default_, h) free = (
    kind,
    default_,
    unsubscribe-Consistent d.durable_subs d.consumer_to_sub d.consumers key h free,
  )

  -- What deleteSubscription does, by what it finds.
  unsubscribed :
      (client_id name : Bytes) (d : Dest) (sub : DurableSub)
      → find (durable_key client_id name) d.durable_subs ≡ some sub
      → delete_subscription lib storage codec client_id name d
        ≡ without_sub lib storage codec
            (durable_key client_id name)
            (if is_offline sub then d else delete_consumer lib storage codec sub.active d)
  unfolding delete_subscription
  unsubscribed client_id name d sub e = rw (e, delete_subscription) refl

  not_subscribed :
      (client_id name : Bytes) (d : Dest)
      → find (durable_key client_id name) d.durable_subs ≡ none
      → delete_subscription lib storage codec client_id name d ≡ d
  unfolding delete_subscription
  not_subscribed client_id name d e = rw (e, delete_subscription) refl

  found-Valid :
      (key : Bytes) (d : Dest) (sub : DurableSub)
      → Valid d
      → find key d.durable_subs ≡ some sub
      → Valid (
          without_sub lib storage codec key
            (if is_offline sub then d else delete_consumer lib storage codec sub.active d))
  found-Valid key d sub v e = elim (Bool-cases (is_offline sub)) [
    | inl a ↦ rw a (
        without-Valid key d v
          (λ s g. ap (λ x. x.active) (some_injective (sym g ∙ e)) ∙ ground arith))
    | inr a ↦
        let d1 = delete_consumer lib storage codec sub.active d in
        let linked = v.2.registered key sub e (ground arith) in
        let subs = ap (λ (r : Registry). find key r.2) (left sub.active key sub d linked e) in
        rw a (
          without-Valid key d1 (leave-Valid sub.active d v) (λ s g.
            ap (λ x. x.active)
              (some_injective (
                sym g ∙ (subs ∙ find-insert_same key (record sub { active = 0 }) d.durable_subs)))))
  ]

  unsubscribe-Valid :
      (client_id name : Bytes) (d : Dest)
      → Valid d
      → Valid (delete_subscription lib storage codec client_id name d)
  unsubscribe-Valid client_id name d v = go (find (durable_key client_id name) d.durable_subs) refl
    where
      key : Bytes
      key = durable_key client_id name

      go :
          (o : Option DurableSub)
          → find key d.durable_subs ≡ o
          → Valid (delete_subscription lib storage codec client_id name d)
      go none e = subst Valid (sym (not_subscribed client_id name d e)) v
      go (some sub) e =
          subst Valid (sym (unsubscribed client_id name d sub e)) (found-Valid key d sub v e)

  step-Valid : (d d' : Dest) → Step d d' → Valid d → Valid d'
  unfolding create_default_consumer
  step-Valid d d' (subscribe now id opened client_id name selects nonzero fresh e) v =
      subscribe-Valid now id opened client_id name selects d d' v nonzero fresh e
  step-Valid d d' (join now id selects e) v = join-Valid now id selects d d' v e
  step-Valid d d' (join_default id) v = rw v.0 v
  step-Valid d d' (leave id) v = leave-Valid id d v
  step-Valid d d' (unsubscribe client_id name) v = unsubscribe-Valid client_id name d v
  step-Valid d d' (send now fresh id m waiting) v =
      subst ValidRegistry (sym (save_keeps lib storage codec now fresh id m d waiting)) v
  step-Valid d d' (commit fuel now fresh id waiting) v =
      subst ValidRegistry
        (sym (commit_producer_keeps lib storage codec fuel now fresh id d waiting)) v
  step-Valid d d' (rollback fuel id waiting) v =
      subst ValidRegistry (sym (rollback_producer_keeps lib storage codec fuel id d waiting)) v

  reach-Valid : (d d' : Dest) → Reach d d' → Valid d → Valid d'
  reach-Valid d d' start v = v
  reach-Valid d d' (step {d1} r s) v = step-Valid d1 d' s (reach-Valid d d1 r v)

  -- After any calls on a new topic, one after another, where the consumer of a durable subscription
  -- gets a uuid that is not null and not in use: a subscription that is marked as active is linked to
  -- its consumer, every link leads from a consumer that is there to the subscription that is marked
  -- with it, and the topic has no default consumer.
  pub start-Reach-Valid :
      (kind : DestinationType) (store : storage.Store) (buffer : TransactionBuffer) (d : Dest)
      → is_queue_family kind ≡ false
      → Reach (new_destination lib storage codec kind store buffer) d
      → Valid d
  start-Reach-Valid kind store buffer d t r =
      reach-Valid (new_destination lib storage codec kind store buffer) d r
        (t, refl, empty-Consistent)
