-- ===== src/PriorityQueue.antt =====
-- Message.h, class PriorityQueueT: ten bands by JMSPriority, a bit mask of the bands that may hold
-- messages, and a counting semaphore. One thread at a time: each member function runs whole.
-- `non_empty` is the mask by its bits.
pub mod Bands
pub mod Dequeue
pub mod Order
pub mod Copies
mod Tests
use tiny_mq.Prelude.{
  ℕ, zero, suc, ◌-◌, Bool, true, false, Option, none, some, List, [], ◌∷◌, ◌==◌, if◌then◌else◌,
}
use tiny_mq.Message.{Message, clamp_priority}
use Bands.{Moodycamel}

module _ (lib : Moodycamel) where
  pub record PriorityQueue : Type 0 where
    pub bands : ℕ → lib.Band
    pub sema : lib.Sema
    pub non_empty : ℕ → Bool

  abbrev pub empty : PriorityQueue
  empty = record { bands = λ b. lib.new_band; sema = lib.new_sema; non_empty = λ b. false }

abbrev pub update {ℓ} : {A : Type ℓ} → (ℕ → A) → ℕ → A → ℕ → A
update f i x j = if i == j then x else f j

-- 15 - countl_zero(mask) for a mask of n bits, `none` for the mask 0.
unfoldable pub highest : ℕ → (ℕ → Bool) → Option ℕ
highest zero mask = none
highest (suc n) mask = if mask n then some n else highest n mask

module _ (lib : Moodycamel) where
  unfoldable pub enqueue : PriorityQueue lib → Message → PriorityQueue lib
  enqueue q msg =
      let prio = clamp_priority msg.headers.priority in
      record q {
        bands = update q.bands prio (lib.push (q.bands prio) msg);
        non_empty = update q.non_empty prio true;
        sema = lib.signal q.sema;
      }

  -- The second loop: every band from the top, whatever the mask says.
  unfoldable pub scan_bands : ℕ → PriorityQueue lib → Option Message × PriorityQueue lib
  scan_bands zero q = (none, q)
  scan_bands (suc band) q = elim (lib.try_dequeue (q.bands band)) [
    | some (msg, rest) ↦ (some msg, record q { bands = update q.bands band rest })
    | none ↦ scan_bands band q
  ]

  -- The first loop: the highest band whose bit is set; a bit whose band is empty is cleared.
  -- Each round but the last clears a bit, so that 17 rounds are enough for 16 bits.
  unfoldable pub mask_loop : ℕ → PriorityQueue lib → Option Message × PriorityQueue lib
  mask_loop zero q = (none, q)
  mask_loop (suc fuel) q = elim (highest 16 q.non_empty) [
    | none ↦ scan_bands 10 q
    | some band ↦ elim (lib.try_dequeue (q.bands band)) [
      | some (msg, rest) ↦ (some msg, record q { bands = update q.bands band rest })
      | none ↦ mask_loop fuel (record q { non_empty = update q.non_empty band false })
    ]
  ]

  unfoldable pub dequeue_from_bands : PriorityQueue lib → Option Message × PriorityQueue lib
  dequeue_from_bands q = mask_loop 17 q

  unfoldable pub or_return_token :
      Option Message × PriorityQueue lib → Option Message × PriorityQueue lib
  or_return_token (some msg, q) = (some msg, q)
  or_return_token (none, q) = (none, record q { sema = lib.signal q.sema })

  -- try_dequeue, and wait_dequeue_timed where no other thread enqueues before the timeout: no
  -- token, no message.
  unfoldable pub try_dequeue : PriorityQueue lib → Option Message × PriorityQueue lib
  try_dequeue q = elim (lib.wait q.sema) [
    | none ↦ (none, q)
    | some sema ↦ or_return_token (dequeue_from_bands (record q { sema = sema }))
  ]
