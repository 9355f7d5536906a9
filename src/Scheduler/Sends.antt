-- ===== src/Scheduler/Sends.antt =====
-- enqueueOrSchedule: which messages go to the queue, which wait, and what happens after stop().
use tiny_mq.Prelude.{
  ℕ, ◌≡◌, refl, ◌⊎◌, inl, inr, Bool, true, false, ◌&&◌, not, List, [], arith, if◌then◌else◌,
  Bool-cases, ℤ, pos, ◌+ℤ◌, ◌≤ℤ◌, ◌<ℤ◌, +ℤ_parts, -ℤ_parts,
}
use tiny_mq.Message.{Message, is_persistent}
use tiny_mq.Message.Wire.{Codec, patch_cached_delivery_time, max_future_header_ms}
use tiny_mq.Message.Wire.Patch.{InSync, patch_cached_delivery_time-InSync}
use tiny_mq.Scheduler.{
  Entry, Delivery, Scheduler, emplace, too_far, sanitize, deliver, due, enqueue_or_schedule,
}

-- The message may be seen at time `t`: it has no delivery time, or one that has come.
abbrev pub Visible : ℤ → Message → Type 0
Visible t msg = (msg.headers.delivery_time ≡ pos 0) ⊎ (msg.headers.delivery_time ≤ℤ t)

due→Visible : (t : ℤ) (msg : Message) → due t msg ≡ true → Visible t msg
unfolding due
due→Visible t msg h = ground arith

not_due→later : (t : ℤ) (msg : Message) → due t msg ≡ false → t <ℤ msg.headers.delivery_time
unfolding due
not_due→later t msg h = ground arith

in_bounds :
    (now : ℤ) (msg : Message)
    → too_far now msg ≡ false
    → pos 0 <ℤ msg.headers.delivery_time
    → msg.headers.delivery_time ≤ℤ now +ℤ pos max_future_header_ms
unfolding too_far
in_bounds now msg e h =
    ground (arith, -ℤ_parts msg.headers.delivery_time now, +ℤ_parts now (pos max_future_header_ms))

sanitize_bound :
    (now : ℤ) (msg : Message)
    → pos 0 <ℤ (sanitize now msg).headers.delivery_time
    → (sanitize now msg).headers.delivery_time ≤ℤ now +ℤ pos max_future_header_ms
unfolding sanitize patch_cached_delivery_time
sanitize_bound now msg h = go (too_far now msg) refl h
  where
    go :
        (b : Bool)
        → too_far now msg ≡ b
        → pos 0 <ℤ (sanitize now msg).headers.delivery_time
        → (sanitize now msg).headers.delivery_time ≤ℤ now +ℤ pos max_future_header_ms
    go true e = rw (e, sanitize) (λ k. absurd (omega arith))
    go false e = rw (e, sanitize) (in_bounds now msg e)

abbrev pub entry_of : ℕ → Message → Entry
entry_of queue msg = record { time = msg.headers.delivery_time; queue = queue; msg = msg }

later→positive :
    (t : ℤ) (msg : Message) → due t msg ≡ false → pos 0 ≤ℤ t → pos 0 <ℤ msg.headers.delivery_time
later→positive t msg h k = let l = not_due→later t msg h in omega arith

-- What happens to the message as it is after its delivery time was checked.
pub enqueue_or_schedule_sanitized :
    (now later : ℤ) (s : Scheduler) (queue : ℕ) (msg : Message)
    → s.stopped ≡ false
    → pos 0 ≤ℤ later
    → ((enqueue_or_schedule now later s queue msg ≡ (s, deliver queue (sanitize now msg)))
        × Visible later (sanitize now msg))
      ⊎ (((enqueue_or_schedule now later s queue msg).1 ≡ [])
          × ((enqueue_or_schedule now later s queue msg).0.pending
              ≡ emplace (entry_of queue (sanitize now msg)) s.pending)
          × ((enqueue_or_schedule now later s queue msg).0.stopped ≡ false)
          × (later <ℤ (sanitize now msg).headers.delivery_time)
          × ((sanitize now msg).headers.delivery_time ≤ℤ now +ℤ pos max_future_header_ms))
unfolding enqueue_or_schedule
enqueue_or_schedule_sanitized now later s queue msg e k =
    elim (Bool-cases (due later (sanitize now msg))) [
      | inl d ↦ inl ((rw d refl), due→Visible later (sanitize now msg) d)
      | inr d ↦ inr (
        (rw (d, e) refl),
        (rw (d, e) refl),
        (rw (d, e) refl),
        not_due→later later (sanitize now msg) d,
        sanitize_bound now msg (later→positive later (sanitize now msg) d k),
      )
    ]

-- A message whose delivery time is taken for garbage: it has none then, also in its cached bytes.
abbrev pub corrected : Message → Message
corrected msg =
    patch_cached_delivery_time
      (record msg { headers = record (msg.headers) { delivery_time = pos 0 } }) (pos 0)

far :
    (now : ℤ) (msg : Message)
    → too_far now msg ≡ true
    → now +ℤ pos max_future_header_ms <ℤ msg.headers.delivery_time
unfolding too_far
far now msg e =
    ground (arith, -ℤ_parts msg.headers.delivery_time now, +ℤ_parts now (pos max_future_header_ms))

near :
    (now : ℤ) (msg : Message)
    → too_far now msg ≡ false
    → pos 0 ≤ℤ now
    → msg.headers.delivery_time ≤ℤ now +ℤ pos max_future_header_ms
unfolding too_far
near now msg e h =
    ground (arith, -ℤ_parts msg.headers.delivery_time now, +ℤ_parts now (pos max_future_header_ms))

due→come : (t : ℤ) (msg : Message) → due t msg ≡ true → pos 0 ≤ℤ t → msg.headers.delivery_time ≤ℤ t
unfolding due
due→come t msg h k = ground arith

due-corrected : (t : ℤ) (msg : Message) → due t (corrected msg) ≡ true
unfolding due patch_cached_delivery_time
due-corrected t msg = ground arith

-- While the scheduler runs, the clock having been read twice, both times at or after the epoch: a
-- message whose delivery time has come, or that has none, and one whose delivery time is more than
-- ten years ahead are enqueued at once, the first as it is, the second with its delivery time
-- cleared, and nothing is scheduled; any other one waits as it is under its own delivery time, and
-- nothing is enqueued.
pub enqueue_or_schedule_once :
    (now later : ℤ) (s : Scheduler) (queue : ℕ) (msg : Message)
    → s.stopped ≡ false
    → pos 0 ≤ℤ now
    → pos 0 ≤ℤ later
    → ((msg.headers.delivery_time ≤ℤ later)
        × (msg.headers.delivery_time ≤ℤ now +ℤ pos max_future_header_ms)
        × (enqueue_or_schedule now later s queue msg ≡ (s, deliver queue msg)))
      ⊎ ((now +ℤ pos max_future_header_ms <ℤ msg.headers.delivery_time)
          × (enqueue_or_schedule now later s queue msg ≡ (s, deliver queue (corrected msg))))
      ⊎ ((later <ℤ msg.headers.delivery_time)
          × (msg.headers.delivery_time ≤ℤ now +ℤ pos max_future_header_ms)
          × ((enqueue_or_schedule now later s queue msg).1 ≡ [])
          × ((enqueue_or_schedule now later s queue msg).0.pending
              ≡ emplace (entry_of queue msg) s.pending)
          × ((enqueue_or_schedule now later s queue msg).0.stopped ≡ false))
unfolding enqueue_or_schedule sanitize
enqueue_or_schedule_once now later s queue msg e h k = elim (Bool-cases (too_far now msg)) [
  | inl f ↦ inr (inl (far now msg f, (rw (f, due-corrected later msg) refl)))
  | inr f ↦ elim (Bool-cases (due later msg)) [
    | inl d ↦ inl (due→come later msg d k, near now msg f h, (rw (f, d) refl))
    | inr d ↦ inr (
        inr (
          not_due→later later msg d,
          near now msg f h,
          (rw (f, d, e) refl),
          (rw (f, d, e) refl),
          (rw (f, d, e) refl),
        ))
  ]
]

is_persistent-sanitize :
    (now : ℤ) (msg : Message) → is_persistent (sanitize now msg) ≡ is_persistent msg
unfolding sanitize patch_cached_delivery_time
is_persistent-sanitize now msg = elim (Bool-cases (too_far now msg)) [
  | inl e ↦ rw e refl
  | inr e ↦ rw e refl
]

-- After stop() nothing is scheduled any more: a message that is due, or not persistent, is
-- enqueued at once, and a persistent one that is not due is left to its storage record.
pub enqueue_or_schedule_stopped :
    (now later : ℤ) (s : Scheduler) (queue : ℕ) (msg : Message)
    → s.stopped ≡ true
    → enqueue_or_schedule now later s queue msg ≡ (
      s,
      (if is_persistent msg && not (due later (sanitize now msg))
          then []
          else deliver queue (sanitize now msg)),
    )
unfolding enqueue_or_schedule
enqueue_or_schedule_stopped now later s queue msg e =
    elim (Bool-cases (due later (sanitize now msg))) [
      | inl d ↦ rw d (go (is_persistent msg))
      | inr d ↦ simp (d, e, is_persistent-sanitize now msg) (go' (is_persistent msg))
    ]
  where
    sent : List Delivery
    sent = deliver queue (sanitize now msg)

    go :
        (b : Bool)
        → ◌≡◌ {A = Scheduler × List Delivery} (s, sent) (s, (if b && false then [] else sent))
    go true = refl
    go false = refl

    go' :
        (b : Bool)
        → ◌≡◌ {A = Scheduler × List Delivery}
            (if b then (s, []) else (s, sent))
            (s, (if b && true then [] else sent))
    go' true = refl
    go' false = refl

-- Where the cached bytes were the stored form of the message, they still are after its header was
-- corrected.
pub sanitize-InSync :
    (codec : Codec) (now : ℤ) (msg : Message) → InSync codec msg → InSync codec (sanitize now msg)
unfolding sanitize
sanitize-InSync codec now msg h = go (too_far now msg) refl
  where
    go : (b : Bool) → too_far now msg ≡ b → InSync codec (sanitize now msg)
    go true e = rw (e, sanitize) (patch_cached_delivery_time-InSync codec msg (pos 0) h)
    go false e = rw (e, sanitize) h
