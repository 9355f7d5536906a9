-- ===== src/Destination/Replay.antt =====
-- Destination.cpp: what a new consumer of a queue finds in it.
use tiny_mq.Prelude.{
  ℕ, ◌≡◌, ◌≢◌, refl, sym, ap, ◌∙◌, subst, Bool, true, false, map, if◌then◌else◌, InInt32, InInt64,
  Option, none, some, List, [], ◌∷◌, arith, ℤ, pos, Bytes,
}
use tiny_mq.Prelude.Maps.{nat_eq}
use tiny_mq.Message.{
  Message, MessageType, undefined, text_message, stream_message, bytes_message, map_message,
  object_message, persistent, shell, type_tag, clamp_priority,
}
use tiny_mq.Message.Wire.{
  Codec, stored_form, to_bytes, patch_cached_delivery_time, patch_delivery_time_in_bytes,
  delivery_time_from_storage_bytes,
}
use tiny_mq.Message.Wire.Patch.{
  patch_delivery_time_in_bytes-stored_form, priority_from_storage_bytes-stored_form,
  delivery_time_from_storage_bytes-stored_form,
}
use tiny_mq.PriorityQueue.{PriorityQueue, enqueue, update}
use tiny_mq.PriorityQueue.Bands.{Moodycamel}
use tiny_mq.Consumer.{Storage, Location}
use tiny_mq.Destination.{Destination, is_queue_family, enqueue_or_schedule_on}
use tiny_mq.Destination.Consumers.{
  create_consumer, without_default, with_consumer, replay_from_storage, replay_records,
  replay_record, replay_one, replayed, kind_of_tag,
}
use tiny_mq.Destination.Fanout.{enqueue_undelayed}

abbrev or_skip : Option Message → List Message → List Message
or_skip none ms = ms
or_skip (some m) ms = m ∷ ms

-- The messages that replay makes of stored records.
unfoldable pub replays : ℤ → List ((ℕ × Location) × Bytes) → List Message
replays now [] = []
replays now (r ∷ rs) = or_skip (replay_record now r) (replays now rs)

-- None of them has a delivery time.
abbrev pub Undelayed : List Message → Type 0
Undelayed [] = Unit
Undelayed (m ∷ ms) = (m.headers.delivery_time ≡ pos 0) × Undelayed ms

module _ (lib : Moodycamel) where
  unfoldable pub enqueue_list : PriorityQueue lib → List Message → PriorityQueue lib
  enqueue_list q [] = q
  enqueue_list q (m ∷ ms) = enqueue_list (enqueue lib q m) ms

module _ (lib : Moodycamel) (storage : Storage) (codec : Codec) where
  abbrev Dest : Type 0
  Dest = Destination lib storage codec

  update_own : (f : ℕ → PriorityQueue lib) (i : ℕ) (x : PriorityQueue lib) → update f i x i ≡ x
  update_own f i x = ground arith

  enqueued_own :
      (now : ℤ) (q : ℕ) (m : Message) (d : Dest)
      → m.headers.delivery_time ≡ pos 0
      → (enqueue_or_schedule_on lib storage codec now q m d).queues q ≡ enqueue lib (d.queues q) m
  enqueued_own now q m d u =
      ap (λ x. x.queues q) (enqueue_undelayed lib storage codec now q m d u)
      ∙ update_own d.queues q (enqueue lib (d.queues q) m)

  -- One record, or none, and then the messages of the others.
  replay_one_then :
      (now : ℤ) (q : ℕ) (o : Option Message) (ms : List Message) (d : Dest)
      → Undelayed (or_skip o ms)
      → enqueue_list lib ((replay_one lib storage codec now q o d).queues q) ms
        ≡ enqueue_list lib (d.queues q) (or_skip o ms)
  unfolding enqueue_list
  replay_one_then now q none ms d u = refl
  replay_one_then now q (some m) ms d (h, u) =
      ap (λ x. enqueue_list lib x ms) (enqueued_own now q m d h)

  or_skip-Undelayed :
      (o : Option Message) (ms : List Message) → Undelayed (or_skip o ms) → Undelayed ms
  or_skip-Undelayed none ms u = u
  or_skip-Undelayed (some m) ms (h, u) = u

  replay_queues :
      (now : ℤ) (q : ℕ) (rs : List ((ℕ × Location) × Bytes)) (d : Dest)
      → Undelayed (replays now rs)
      → (replay_records lib storage codec now q rs d).queues q
        ≡ enqueue_list lib (d.queues q) (replays now rs)
  unfolding replay_records replays enqueue_list
  replay_queues now q [] d u = refl
  replay_queues now q (r ∷ rs) d u =
      let o = replay_record now r in
      replay_queues now q rs (replay_one lib storage codec now q o d)
        (or_skip-Undelayed o (replays now rs) u)
      ∙ replay_one_then now q o (replays now rs) d u

  created :
      (now : ℤ) (id : ℕ) (selects : Message → Bool) (d : Dest) (q : ℕ)
      → is_queue_family d.kind ≡ true
      → d.queue ≡ some q
      → create_consumer lib storage codec now id selects d
        ≡ some (
            with_consumer lib storage codec id
              (record { queue = q; store = 0; selects = selects })
              (replay_from_storage lib storage codec now q 0 (without_default lib storage codec d)))
  unfolding create_consumer
  created now id selects d q t e = rw (t, e) refl

  -- The messages that replay makes of the store, none of which has a delivery time, are enqueued.
  create_consumer-replays :
      (now : ℤ) (id : ℕ) (selects : Message → Bool) (d : Dest) (q : ℕ)
      → is_queue_family d.kind ≡ true
      → d.queue ≡ some q
      → Undelayed (replays now (storage.scan (d.stores 0)))
      → (d' : Dest) × (create_consumer lib storage codec now id selects d ≡ some d')
        × (d'.queues q ≡ enqueue_list lib (d.queues q) (replays now (storage.scan (d.stores 0))))
  unfolding replay_from_storage
  create_consumer-replays now id selects d q t e u =
      let d1 = without_default lib storage codec d in
      (
        with_consumer lib storage codec id (record { queue = q; store = 0; selects = selects })
            (replay_from_storage lib storage codec now q 0 d1),
        created now id selects d q t e,
        replay_queues now q (storage.scan (d.stores 0)) d1 u,
      )

  -- The record of a message at a place in the store, as append left it.
  abbrev pub record_at : Message × Location → (ℕ × Location) × Bytes
  record_at (m, l) = ((m.uuid, l), stored_form codec m)

  -- A message as replay gives it back: its bytes are cached, its place is known, and it has its band.
  abbrev pub replayed_from : Message × Location → Message
  replayed_from (m, l) = record (shell m.kind) {
    uuid = m.uuid;
    reliability = persistent;
    cached_storage_bytes = stored_form codec m;
    headers = record ((shell m.kind).headers) {
      priority = pos (clamp_priority m.headers.priority);
      delivery_time = pos 0;
    };
    storage_tom_id = l.tom_id;
    storage_offset = l.offset;
  }

  -- Messages of one of the five classes, whose priority fits its type, without a delivery time.
  abbrev pub AllPlain : List (Message × Location) → Type 0
  AllPlain [] = Unit
  AllPlain ((m, l) ∷ ms) =
      (m.kind ≢ undefined)
      × InInt32 m.headers.priority
      × (m.headers.delivery_time ≡ pos 0)
      × AllPlain ms

  kind_of_tag-type_tag : (k : MessageType) → k ≢ undefined → kind_of_tag (type_tag k) ≡ some k
  unfolding kind_of_tag
  kind_of_tag-type_tag undefined h = absurd (h refl)
  kind_of_tag-type_tag text_message h = refl
  kind_of_tag-type_tag stream_message h = refl
  kind_of_tag-type_tag bytes_message h = refl
  kind_of_tag-type_tag map_message h = refl
  kind_of_tag-type_tag object_message h = refl

  zero_either : (b : Bool) → (if b then pos 0 else pos 0) ≡ pos 0
  zero_either true = refl
  zero_either false = refl

  delivery_time_none :
      (now : ℤ) (m : Message)
      → m.headers.delivery_time ≡ pos 0
      → delivery_time_from_storage_bytes now (stored_form codec m) ≡ pos 0
  delivery_time_none now m e =
      delivery_time_from_storage_bytes-stored_form codec m now
        (subst InInt64 (sym e) (omega arith, omega arith))
      ∙ rw e (zero_either _)

  patched_none :
      (m : Message)
      → m.headers.delivery_time ≡ pos 0
      → patch_delivery_time_in_bytes (stored_form codec m) (pos 0) ≡ stored_form codec m
  patched_none m e =
      patch_delivery_time_in_bytes-stored_form codec m (pos 0)
      ∙ ap
          (λ (t : ℤ).
            stored_form codec (record m { headers = record (m.headers) { delivery_time = t } }))
          (sym e)

  replay_known :
      (now : ℤ) (u : ℕ) (l : Location) (tag : ℕ) (rest : Bytes) (kind : MessageType)
      → kind_of_tag tag ≡ some kind
      → replay_record now ((u, l), tag ∷ rest) ≡ some (replayed now u l (tag ∷ rest) kind)
  unfolding replay_record
  replay_known now u l tag rest kind e = rw (e, replay_record) refl

  replayed-stored_form :
      (now : ℤ) (m : Message) (l : Location)
      → InInt32 m.headers.priority
      → m.headers.delivery_time ≡ pos 0
      → replayed now m.uuid l (stored_form codec m) m.kind ≡ replayed_from (m, l)
  unfolding replayed patch_cached_delivery_time
  replayed-stored_form now m l p e =
      rw
        (
          delivery_time_none now m e,
          patched_none m e,
          priority_from_storage_bytes-stored_form codec m p,
        )
        refl

  replay_record-record_at :
      (now : ℤ) (m : Message) (l : Location)
      → m.kind ≢ undefined
      → InInt32 m.headers.priority
      → m.headers.delivery_time ≡ pos 0
      → replay_record now (record_at (m, l)) ≡ some (replayed_from (m, l))
  unfolding stored_form
  replay_record-record_at now m l k p e = known ∙ ap some (replayed-stored_form now m l p e)
    where
      known :
          replay_record now (record_at (m, l))
          ≡ some (replayed now m.uuid l (stored_form codec m) m.kind)
      known =
          replay_known now m.uuid l (type_tag m.kind) (to_bytes codec m) m.kind
            (kind_of_tag-type_tag m.kind k)

  replays-record_at :
      (now : ℤ) (ms : List (Message × Location))
      → AllPlain ms
      → replays now (map record_at ms) ≡ map replayed_from ms
  unfolding replays
  replays-record_at now [] h = refl
  replays-record_at now ((m, l) ∷ ms) (k, p, e, h) =
      rw (replay_record-record_at now m l k p e)
        (ap (◌∷◌ (replayed_from (m, l))) (replays-record_at now ms h))

  replayed_from-Undelayed : (ms : List (Message × Location)) → Undelayed (map replayed_from ms)
  replayed_from-Undelayed [] = tt
  replayed_from-Undelayed ((m, l) ∷ ms) = (refl, replayed_from-Undelayed ms)

  -- A new consumer of a queue whose store holds the records of messages of the five classes, whose
  -- priority fits its type and which have no delivery time: every one of them is enqueued, in the
  -- order of the store, also those that the queue holds already. It is persistent, of the class,
  -- uuid and place of its record, with the clamped priority, no delivery time and the record's bytes
  -- cached.
  pub create_consumer-stored :
      (now : ℤ) (id : ℕ) (selects : Message → Bool) (d : Dest) (q : ℕ)
      (ms : List (Message × Location))
      → is_queue_family d.kind ≡ true
      → d.queue ≡ some q
      → storage.scan (d.stores 0) ≡ map record_at ms
      → AllPlain ms
      → (d' : Dest) × (create_consumer lib storage codec now id selects d ≡ some d')
        × (d'.queues q ≡ enqueue_list lib (d.queues q) (map replayed_from ms))
  create_consumer-stored now id selects d q ms t e s h =
      let made : replays now (storage.scan (d.stores 0)) ≡ map replayed_from ms =
        ap (replays now) s ∙ replays-record_at now ms h in
      let (d', c, f) =
        create_consumer-replays now id selects d q t e
          (subst Undelayed (sym made) (replayed_from-Undelayed ms)) in
      (d', c, f ∙ ap (enqueue_list lib (d.queues q)) made)
