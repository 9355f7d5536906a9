-- ===== src/Scheduler.antt =====
-- DeliveryScheduler.h, DeliveryScheduler.cpp: one timer for each destination. Times are
-- milliseconds since the epoch; the clock readings are arguments. A queue is named by a number,
-- and a call returns what it enqueued, in order. Message pointers are not null.
pub mod Waits
pub mod Sends
pub mod System
mod Tests
use tiny_mq.Prelude.{
  ℕ, ◌+◌, ◌≡◌, Bool, true, false, ◌&&◌, ◌||◌, List, [], ◌∷◌, if◌then◌else◌, ℤ, pos, ltb_ℤ, leb_ℤ,
  ◌+ℤ◌, ◌-ℤ◌,
}
use tiny_mq.Message.{Message, is_persistent, is_zero}
use tiny_mq.Message.Wire.{patch_cached_delivery_time, max_future_header_ms}

pub record Entry : Type 0 where
  pub time : ℤ
  pub queue : ℕ
  pub msg : Message

pub record Delivery : Type 0 where
  pub queue : ℕ
  pub msg : Message

-- `pending` is the multimap: by time, and equal times in the order of insertion.
pub record Scheduler : Type 0 where
  pub pending : List Entry
  pub thread_started : Bool
  pub stopped : Bool
  pub version : ℕ

abbrev pub new_scheduler : Scheduler
new_scheduler = record { pending = []; thread_started = false; stopped = false; version = 0 }

-- multimap::emplace goes behind the entries with an equal key.
unfoldable pub emplace : Entry → List Entry → List Entry
emplace e [] = e ∷ []
emplace e (x ∷ xs) = if ltb_ℤ e.time x.time then e ∷ (x ∷ xs) else x ∷ emplace e xs

unfoldable pub too_far : ℤ → Message → Bool
too_far now msg =
    ltb_ℤ (pos 0) msg.headers.delivery_time
    && ltb_ℤ (pos max_future_header_ms) (msg.headers.delivery_time -ℤ now)

-- A delivery time more than ten years ahead is garbage: deliver at once, and correct the header
-- and the cached bytes.
unfoldable pub sanitize : ℤ → Message → Message
sanitize now msg =
    if too_far now msg
    then patch_cached_delivery_time
        (record msg { headers = record (msg.headers) { delivery_time = pos 0 } }) (pos 0)
    else msg

abbrev pub deliver : ℕ → Message → List Delivery
deliver queue msg = record { queue = queue; msg = msg } ∷ []

-- After stop() a persistent message stays in storage only; any other is delivered late rather
-- than lost.
unfoldable pub schedule : Scheduler → ℕ → Message → Scheduler × List Delivery
schedule s queue msg =
    if s.stopped then (if is_persistent msg then (s, []) else (s, deliver queue msg)) else (
      record s {
        thread_started = true;
        pending =
            emplace (record { time = msg.headers.delivery_time; queue = queue; msg = msg })
              s.pending;
        version = s.version + 1;
      },
      [],
    )

unfoldable pub due : ℤ → Message → Bool
due now msg = is_zero msg.headers.delivery_time || leb_ℤ msg.headers.delivery_time now

-- enqueueOrSchedule reads the clock twice, at `now` and at `later`.
unfoldable pub enqueue_or_schedule : ℤ → ℤ → Scheduler → ℕ → Message → Scheduler × List Delivery
unfolding schedule
enqueue_or_schedule now later s queue msg =
    let msg' = sanitize now msg in
    if due later msg' then (s, deliver queue msg') else schedule s queue msg'

-- kMaxWaitMs: one day.
abbrev pub max_wait_ms : ℤ
max_wait_ms = pos 86400000

unfoldable pub capped_wait_delta_ms : ℤ → ℤ → ℤ
capped_wait_delta_ms deadline now =
    if leb_ℤ deadline now
    then pos 0
    else if leb_ℤ (now +ℤ max_wait_ms) deadline
    then max_wait_ms
    else deadline -ℤ now

-- The inner loop of run(): the entries due at `up_to`, from the front, and those that stay.
unfoldable pub drain : ℤ → List Entry → List Entry × List Entry
drain up_to [] = ([], [])
drain up_to (e ∷ es) =
    let (out, rest) = drain up_to es in if leb_ℤ e.time up_to then (e ∷ out, rest) else ([], e ∷ es)

-- stop() on a scheduler that is not stopped yet; the pending entries are discarded.
unfoldable pub stop : Scheduler → Scheduler
stop s = record s { stopped = true }
