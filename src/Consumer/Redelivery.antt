-- ===== src/Consumer/Redelivery.antt =====
-- Consumer.cpp: redelivery, and the delays of its backoff.
use native.Mathlib.Numerals.{unary_clauses}
use tiny_mq.Prelude.{
  not, ◌&&◌, ℕ, suc, ◌*◌, ◌-◌, ◌^◌, ◌≤◌, ◌≡◌, refl, subst, ◌⊎◌, inl, inr, Bool, true, false, List,
  [], ◌∷◌, ◌++◌, arith, if◌then◌else◌, Bool-cases, ℤ, pos, ◌≤ℤ◌, ltb_ℤ, ltb, ◌+ℤ◌, ◌<ℤ◌, +ℤ_parts,
}
use tiny_mq.Message.{Message, is_persistent}
use tiny_mq.Message.Wire.{Codec, refresh_cached_storage_bytes, patch_cached_delivery_time}
use tiny_mq.Scheduler.{emplace}
use tiny_mq.Scheduler.Sends.{entry_of, corrected, enqueue_or_schedule_once}
use tiny_mq.Consumer.Laws.{Removed, commit_all-Removed}
use tiny_mq.PriorityQueue.{enqueue}
use tiny_mq.PriorityQueue.Bands.{Moodycamel}
use tiny_mq.PriorityQueue.Order.{ordered}
use tiny_mq.PriorityQueue.Dequeue.{WellFormed, enqueue-WellFormed}
use tiny_mq.Consumer.{
  location, remove_record, remove_persistent, enqueue_all, Storage, RedeliveryPolicy, Environment,
  redeliver, exhausted, backs_off, dead_letter, requeue, deliver_later, marked_redelivered,
  backoff_delay_ms, raw_delay_ms,
}
use tiny_mq.Consumer.Acknowledge.{commit_all}

abbrev is_used_up : ℤ → ℤ → Bool
is_used_up limit count = not (ltb_ℤ limit (pos 0)) && ltb_ℤ limit (count +ℤ pos 1)

used_up : (limit : ℕ) (c : ℤ) → is_used_up (pos limit) c ≡ true → pos limit ≤ℤ c
used_up limit c e = ground (arith, +ℤ_parts c (pos 1))

not_used_up : (limit : ℕ) (c : ℤ) → is_used_up (pos limit) c ≡ false → c <ℤ pos limit
not_used_up limit c e = ground (arith, +ℤ_parts c (pos 1))

module _ (lib : Moodycamel) (storage : Storage) (codec : Codec) where
  abbrev Env : Type 0
  Env = Environment lib storage codec

  -- A message as redelivery gives it back: the same one, counted once more and marked.
  abbrev pub Again : Message → Message → Type 0
  Again m back =
      (back.uuid ≡ m.uuid)
      × (back.body ≡ m.body)
      × (back.properties ≡ m.properties)
      × (back.headers.redelivered ≡ true)
      × (back.headers.delivery_count ≡ m.headers.delivery_count +ℤ pos 1)

  -- One more message in the queue, with the others in the order they had, or one that waits.
  abbrev pub Back : Message → Env → Env → Type 0
  Back m env env' =
      (back : Message) × Again m back
      × (((ahead behind : List Message) × (ordered lib env.queue ≡ ahead ++ behind)
            × (ordered lib env'.queue ≡ ahead ++ back ∷ behind)
            × (env'.scheduler ≡ env.scheduler))
          ⊎ ((env'.queue ≡ env.queue)
              × (env'.scheduler.pending
                  ≡ emplace (entry_of env.queue_id back) env.scheduler.pending)))

  refresh-Again :
      (m back : Message) → Again m back → Again m (refresh_cached_storage_bytes codec back)
  unfolding refresh_cached_storage_bytes
  refresh-Again m back a = elim (Bool-cases (is_persistent back)) [
    | inl e ↦ rw e a
    | inr e ↦ rw e a
  ]

  corrected-Again : (m back : Message) → Again m back → Again m (corrected back)
  unfolding patch_cached_delivery_time
  corrected-Again m back a = a

  enqueued-Back :
      (m back : Message) (env : Env)
      → WellFormed lib env.queue
      → Again m back
      → Back m env (record env { queue = enqueue lib env.queue back })
  enqueued-Back m back env w a =
      let (w', before, after) = enqueue-WellFormed lib env.queue back w in
      (back, a, inl (_, _, before, after, refl))

  deliver_later-Back :
      (now : ℤ) (m back : Message) (env : Env)
      → WellFormed lib env.queue
      → env.scheduler.stopped ≡ false
      → pos 0 ≤ℤ now
      → Again m back
      → Back m env (deliver_later lib storage codec now env back)
  unfolding deliver_later enqueue_all
  deliver_later-Back now m back env w s h a =
      elim (enqueue_or_schedule_once now now env.scheduler env.queue_id back s h h) [
        | inl (l, k, e) ↦ rw e (enqueued-Back m back env w a)
        | inr (inl (l, e)) ↦
            rw e (enqueued-Back m (corrected back) env w (corrected-Again m back a))
        | inr (inr (l, k, none_now, pending, running)) ↦ rw none_now (back, a, inr (refl, pending))
      ]

  requeue_keeps :
      (policy : RedeliveryPolicy) (now : ℤ) (session_closing : Bool) (env : Env) (m : Message)
      → ((requeue lib storage codec policy now session_closing env m).dead_letters
          ≡ env.dead_letters)
        × ((requeue lib storage codec policy now session_closing env m).store ≡ env.store)
  unfolding requeue deliver_later
  requeue_keeps policy now session_closing env m =
      elim (Bool-cases (backs_off lib storage codec policy session_closing)) [
        | inl e ↦ rw e (refl, refl)
        | inr e ↦ rw e (refl, refl)
      ]

  abbrev timed : ℤ → Message → Message
  timed t m = record m { headers = record (m.headers) { delivery_time = t } }

  requeue-Back :
      (policy : RedeliveryPolicy) (now : ℤ) (session_closing : Bool) (env : Env)
      (m marked : Message)
      → WellFormed lib env.queue
      → env.scheduler.stopped ≡ false
      → pos 0 ≤ℤ now
      → Again m marked
      → Back m env (requeue lib storage codec policy now session_closing env marked)
  unfolding requeue
  requeue-Back policy now session_closing env m marked w s h a =
      elim (Bool-cases (backs_off lib storage codec policy session_closing)) [
        | inl e ↦
            let back =
              timed (now +ℤ backoff_delay_ms policy marked.headers.delivery_count) marked in
            rw e (
              deliver_later-Back now m (refresh_cached_storage_bytes codec back) env w s h
                (refresh-Again m back a))
        | inr e ↦
            let back = timed (pos 0) marked in
            rw e (
              enqueued-Back m (refresh_cached_storage_bytes codec back) env w
                (refresh-Again m back a))
      ]

  -- A dead letter, or a message given back, by the number of its deliveries.
  abbrev pub Redelivered : ℕ → Message → Env → Env → Type 0
  Redelivered limit m env env' =
      ((pos limit ≤ℤ m.headers.delivery_count)
        × ((dead : Message) × Again m dead × (env'.dead_letters ≡ dead ∷ env.dead_letters))
        × Removed lib storage codec env.store (m ∷ []) env'.store
        × (env'.queue ≡ env.queue)
        × (env'.scheduler ≡ env.scheduler))
      ⊎ ((m.headers.delivery_count <ℤ pos limit)
          × Back m env env'
          × (env'.dead_letters ≡ env.dead_letters)
          × (env'.store ≡ env.store))

  -- Where the redeliveries are limited, the scheduler runs, the queue is well formed and the clock is
  -- at or after the epoch: a message that was delivered as often
  -- as the limit allows, or more, is handed to Destination::deadLetter, counted once more, its record
  -- is removed if it has one, and neither queue nor scheduler changes. Any other one is given back, marked and
  -- counted once more, with its uuid, body and properties: it is one more message of the consumer's
  -- queue, whose others keep their order, or one more that waits in the scheduler. Then no record and
  -- no dead letter changes.
  pub redeliver-Back :
      (policy : RedeliveryPolicy) (now : ℤ) (session_closing : Bool) (env : Env) (m : Message)
      (limit : ℕ)
      → WellFormed lib env.queue
      → env.scheduler.stopped ≡ false
      → pos 0 ≤ℤ now
      → policy.max_redeliveries ≡ pos limit
      → Redelivered limit m env (redeliver lib storage codec policy now session_closing env m)
  unfolding redeliver dead_letter commit_all remove_persistent remove_record location
  redeliver-Back policy now session_closing env m limit w s h e =
      let marked = marked_redelivered lib storage codec m in
      elim (Bool-cases (exhausted lib storage codec policy marked)) [
        | inl x ↦ inl (
          used_up limit m.headers.delivery_count
              (subst (λ t. is_used_up t m.headers.delivery_count ≡ true) e x),
          (marked, (refl, refl, refl, refl, refl), (rw x refl)),
          (rw x (commit_all-Removed lib storage codec env.store (m ∷ []))),
          (rw x refl),
          (rw x refl),
        )
        | inr x ↦
            let (dead, store) = requeue_keeps policy now session_closing env marked in
            inr (
              not_used_up limit m.headers.delivery_count
                  (subst (λ t. is_used_up t m.headers.delivery_count ≡ false) e x),
              rw x (
                  requeue-Back policy now session_closing env m marked w s h
                    (refl, refl, refl, refl, refl)),
              (rw x dead),
              (rw x store),
            )
      ]

abbrev capped : ℕ → ℕ → ℤ
capped raw ceiling = if ltb_ℤ (pos raw) (pos ceiling) then pos raw else pos ceiling

capped-mono :
    (a b ceiling : ℕ)
    → a ≤ b
    → (capped a ceiling ≤ℤ capped b ceiling) × (capped a ceiling ≤ℤ pos ceiling)
capped-mono a b ceiling h = (ground arith, ground arith)

power_step : (n : ℕ) → 2 ^ (suc (suc n) - 1) ≡ 2 * 2 ^ (suc n - 1)
power_step n = simp unary_clauses (omega arith)

grows : (b p q : ℕ) → q ≡ 2 * p → b * p ≤ b * q
grows b p q e = rw e (grind arith)

power_grows :
    (backoff count : ℕ) → backoff * 2 ^ (suc count - 1) ≤ backoff * 2 ^ (suc (suc count) - 1)
power_grows backoff count =
    grows backoff (2 ^ (suc count - 1)) (2 ^ (suc (suc count) - 1)) (power_step count)

-- The backoff of a positive delay: it starts with the smaller of the delay and its ceiling, never
-- shrinks from one redelivery to the next, and never passes the ceiling.
pub backoff_delay_ms_bounds :
    (policy : RedeliveryPolicy) (backoff ceiling count : ℕ)
    → policy.backoff_ms ≡ pos backoff
    → policy.max_backoff_ms ≡ pos ceiling
    → (backoff_delay_ms policy (pos 1) ≡ (if ltb backoff ceiling then pos backoff else pos ceiling))
      × (backoff_delay_ms policy (pos (suc count))
          ≤ℤ backoff_delay_ms policy (pos (suc (suc count))))
      × (backoff_delay_ms policy (pos (suc count)) ≤ℤ pos ceiling)
unfolding backoff_delay_ms raw_delay_ms
backoff_delay_ms_bounds policy backoff ceiling count e f =
    let (mono, below) =
      capped-mono (backoff * 2 ^ (suc count - 1)) (backoff * 2 ^ (suc (suc count) - 1)) ceiling
        (power_grows backoff count) in
    rw (e, f) (ground arith, mono, below)
