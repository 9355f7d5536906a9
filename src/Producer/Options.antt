-- ===== src/Producer/Options.antt =====
-- Producer.cpp: what the options of a send do to a message, and what the consumer's queue, its
-- check of the expiration and the scheduler make of it.
use tiny_mq.Prelude.{
  ℕ, zero, suc, ◌+◌, ◌-◌, ◌≤◌, ◌≡◌, refl, sym, subst, ap, true, false, ◌&&◌, ◌||◌, not, none, some,
  [], arith, ℤ, pos, negsuc, ltb_ℤ, leb_ℤ, ◌+ℤ◌, ◌-ℤ◌, Bytes, ◌⊎◌, inl, inr, Bool-cases,
}
use tiny_mq.Message.{Message, is_expired, is_zero, clamp_priority}
use tiny_mq.Message.Wire.{max_future_header_ms}
use tiny_mq.Scheduler.{sanitize, too_far, due}
use tiny_mq.Producer.{
  SendOptions, Producer, validate_send_options, apply_options, stamp, from_now, prepare_send_with,
}

-- Options that validateSendOptions lets pass.
pub record Valid (opts : SendOptions) : Type 0 where
  pub priority : ℕ
  pub is_priority : opts.priority ≡ pos priority
  pub band : priority ≤ 9
  pub ttl : ℕ
  pub is_ttl : opts.time_to_live ≡ pos ttl
  pub ttl_bound : ttl ≤ max_future_header_ms
  pub delay : ℕ
  pub is_delay : opts.delivery_delay ≡ pos delay
  pub delay_bound : delay ≤ max_future_header_ms

-- The parts of validateSendOptions, for integers.
in_range :
    (z : ℤ) (n : ℕ)
    → ltb_ℤ z (pos 0) ≡ false
    → ltb_ℤ (pos n) z ≡ false
    → (k : ℕ) × (z ≡ pos k) × (k ≤ n)
in_range (pos k) n a b = (k, refl, ground arith)
in_range (negsuc k) n a b = absurd (ground arith)

pub validate_send_options-Valid :
    (opts : SendOptions) → validate_send_options opts ≡ true → Valid opts
unfolding validate_send_options
validate_send_options-Valid opts h =
    let (p, ep, bp) = in_range opts.priority 9 (ground (arith, h)) (ground (arith, h)) in
    let (t, et, bt) =
      in_range opts.time_to_live max_future_header_ms (ground (arith, h)) (ground (arith, h)) in
    let (d, ed, bd) =
      in_range opts.delivery_delay max_future_header_ms (ground (arith, h)) (ground (arith, h)) in
    record {
      priority = p;
      is_priority = ep;
      band = bp;
      ttl = t;
      is_ttl = et;
      ttl_bound = bt;
      delay = d;
      is_delay = ed;
      delay_bound = bd;
    }

Valid→validate_send_options : (opts : SendOptions) → Valid opts → validate_send_options opts ≡ true
unfolding validate_send_options
Valid→validate_send_options opts v =
    rw (v.is_priority, v.is_ttl, v.is_delay) (ground (arith, v.band, v.ttl_bound, v.delay_bound))

-- A send of a valid message, seen at a later clock reading.
abbrev pub Sent : ℕ → ℕ → SendOptions → Message → Type 0
Sent now later opts m =
    (m.reliability ≡ opts.delivery_mode)
    × (pos (clamp_priority m.headers.priority) ≡ opts.priority)
    × (is_expired m (pos later)
        ≡ (ltb_ℤ (pos 0) opts.time_to_live && leb_ℤ (pos now +ℤ opts.time_to_live) (pos later)))
    × (sanitize (pos later) m ≡ m)
    × (due (pos later) m ≡ leb_ℤ opts.delivery_delay (pos (later - now)))

clamp_valid : (p : ℕ) → p ≤ 9 → clamp_priority (pos p) ≡ p
unfolding clamp_priority
clamp_valid p b = ground arith

from_now_pos : (now k : ℕ) → from_now (pos now) (pos (suc k)) ≡ pos (suc (now + k))
unfolding ◌+ℤ◌
from_now_pos now k = ground arith

from_now_expired :
    (now later : ℕ) (ttl : ℕ)
    → (not (is_zero (from_now (pos now) (pos ttl)))
        && leb_ℤ (from_now (pos now) (pos ttl)) (pos later))
      ≡ (ltb_ℤ (pos 0) (pos ttl) && leb_ℤ (pos now +ℤ pos ttl) (pos later))
unfolding ◌+ℤ◌
from_now_expired now later zero = refl
from_now_expired now later (suc ttl) = rw (from_now_pos now ttl) (ground arith)

from_now_due :
    (now later delay : ℕ)
    → now ≤ later
    → (is_zero (from_now (pos now) (pos delay))
        || leb_ℤ (from_now (pos now) (pos delay)) (pos later))
      ≡ leb_ℤ (pos delay) (pos (later - now))
unfolding ◌+ℤ◌
from_now_due now later zero h = ground arith
from_now_due now later (suc delay) h = rw (from_now_pos now delay) (ground arith)

from_now-too_far :
    (now later delay : ℕ)
    → now ≤ later
    → delay ≤ max_future_header_ms
    → ltb_ℤ (pos max_future_header_ms) (from_now (pos now) (pos delay) -ℤ pos later) ≡ false
unfolding ◌+ℤ◌ ◌-ℤ◌
from_now-too_far now later delay h k = ground arith

sanitize_near : (now : ℤ) (m : Message) → too_far now m ≡ false → sanitize now m ≡ m
unfolding sanitize
sanitize_near now m h = rw h refl

apply_options-Sent :
    (uuid_text : ℕ → Bytes) (now later : ℕ) (p : Producer) (opts : SendOptions) (m : Message)
    → Valid opts
    → now ≤ later
    → Sent now later opts (stamp uuid_text (pos now) p (apply_options (pos now) opts false m))
unfolding apply_options stamp is_expired too_far due
apply_options-Sent uuid_text now later p opts m v h = (
  refl,
  rw v.is_priority (ap pos (clamp_valid v.priority v.band)),
  subst
      (λ z.
        (not (is_zero (from_now (pos now) z)) && leb_ℤ (from_now (pos now) z) (pos later))
        ≡ (ltb_ℤ (pos 0) z && leb_ℤ (pos now +ℤ z) (pos later)))
      (sym v.is_ttl) (from_now_expired now later v.ttl),
  sanitize_near (pos later) (stamp uuid_text (pos now) p (apply_options (pos now) opts false m)) (
      subst
        (λ z.
          (ltb_ℤ (pos 0) (from_now (pos now) z)
            && ltb_ℤ (pos max_future_header_ms) (from_now (pos now) z -ℤ pos later))
          ≡ false)
        (sym v.is_delay)
        (let near = from_now-too_far now later v.delay h v.delay_bound in ground arith)),
  subst
      (λ z.
        (is_zero (from_now (pos now) z) || leb_ℤ (from_now (pos now) z) (pos later))
        ≡ leb_ℤ z (pos (later - now)))
      (sym v.is_delay) (from_now_due now later v.delay h),
)

-- A send with options outside of a transaction is refused exactly where a priority is not in 0..9 or
-- a time is negative or longer than ten years. Otherwise, at any clock reading from the send on, the
-- message has the given delivery mode, its band is the given priority, it is expired exactly if it
-- has a time to live that is over, and the scheduler, which does not correct its delivery time,
-- finds it due exactly if the delivery delay is over.
pub prepare_send_with-Sent :
    (uuid_text : ℕ → Bytes) (now : ℕ) (p : Producer) (opts : SendOptions) (m : Message)
    → ((prepare_send_with uuid_text (pos now) p [] opts m ≡ none) × ¬ Valid opts)
      ⊎ ((sent : Message) × (prepare_send_with uuid_text (pos now) p [] opts m ≡ some sent)
          × Valid opts
          × ((later : ℕ) → now ≤ later → Sent now later opts sent))
unfolding prepare_send_with
prepare_send_with-Sent uuid_text now p opts m = elim (Bool-cases (validate_send_options opts)) [
  | inl e ↦
      let v = validate_send_options-Valid opts e in
      inr (
        stamp uuid_text (pos now) p (apply_options (pos now) opts false m),
        rw e refl,
        v,
        λ later h. apply_options-Sent uuid_text now later p opts m v h,
      )
  | inr e ↦ inl (rw e refl, λ v. let k = Valid→validate_send_options opts v in ground arith)
]
