-- ===== src/Scheduler/System.antt =====
-- The scheduler with its worker thread, senders and the clock, as interleaved steps. The worker
-- holds the lock from one step to the next only between taking an entry off `pending` and the
-- enqueue, so that taking and enqueueing one entry is one step.
use mathlib.Core.List.{Perm, perm_middle}
use mathlib.Core.List.Perm
use tiny_mq.Prelude.{
  ℕ, ◌≡◌, refl, inl, inr, Bool, true, false, not, ◌&&◌, Option, none, some, List, [], ◌∷◌, ◌++◌,
  map, arith, if◌then◌else◌, Bool-cases, subst, ℤ, pos, ltb_ℤ, ◌≤ℤ◌,
}
use tiny_mq.Message.{Message, is_persistent}
use tiny_mq.Scheduler.{
  Entry, Delivery, Scheduler, emplace, sanitize, deliver, due, enqueue_or_schedule, stop,
  new_scheduler,
}
use tiny_mq.Scheduler.Waits.{IsSorted, emplace-IsSorted}
use tiny_mq.Scheduler.Sends.{
  Visible, enqueue_or_schedule_sanitized, enqueue_or_schedule_stopped, entry_of,
}

-- `accepted`, `delivered` and `dropped` record the history: what senders handed over (as the
-- scheduler corrected it), what reached a queue, latest first, and what was left to storage after
-- stop(). `draining t` is a worker that found its deadline passed at t.
pub record System : Type 0 where
  pub scheduler : Scheduler
  pub clock : ℤ
  pub draining : Option ℤ
  pub accepted : List Delivery
  pub delivered : List Delivery
  pub dropped : List Delivery

abbrev pub start : ℤ → System
start clock = record {
  scheduler = new_scheduler;
  clock = clock;
  draining = none;
  accepted = [];
  delivered = [];
  dropped = [];
}

abbrev pub as_delivery : Entry → Delivery
as_delivery e = record { queue = e.queue; msg = e.msg }

-- What a stopped scheduler leaves to storage.
abbrev pub left_over : System → ℕ → Message → List Delivery
left_over s queue msg =
    if s.scheduler.stopped && (is_persistent msg && not (due s.clock (sanitize s.clock msg)))
    then deliver queue (sanitize s.clock msg)
    else []

unfoldable pub send : System → ℕ → Message → System
send s queue msg =
    let r = enqueue_or_schedule s.clock s.clock s.scheduler queue msg in
    record s {
      scheduler = r.0;
      accepted = record { queue = queue; msg = sanitize s.clock msg } ∷ s.accepted;
      delivered = r.1 ++ s.delivered;
      dropped = left_over s queue msg ++ s.dropped;
    }

pub data Step : System → System → Type 0 where
  tick : (s : System) (t : ℤ) → s.clock ≤ℤ t → Step s (record s { clock = t })
  sends : (s : System) (queue : ℕ) (msg : Message) → Step s (send s queue msg)
  wakes : (s : System) → s.scheduler.stopped ≡ false → Step s (record s { draining = some s.clock })
  hands_out :
      (s : System) (t : ℤ) (e : Entry) (rest : List Entry)
      → s.draining ≡ some t
      → s.scheduler.pending ≡ e ∷ rest
      → e.time ≤ℤ t
      → Step s (record s {
        scheduler = record (s.scheduler) { pending = rest };
        delivered = as_delivery e ∷ s.delivered;
      })
  settles : (s : System) → Step s (record s { draining = none })
  stops : (s : System) → Step s (record s { scheduler = stop s.scheduler })

pub data Reach (s : System) : System → Type 0 where
  here : Reach s s
  next : {t u : System} → Reach s t → Step t u → Reach s u

abbrev pub AllVisible : ℤ → List Delivery → Type 0
AllVisible t [] = Unit
AllVisible t (d ∷ ds) = Visible t d.msg × AllVisible t ds

-- Each pending entry stands under its message's own delivery time.
abbrev pub Stamped : List Entry → Type 0
Stamped [] = Unit
Stamped (e ∷ es) = (e.time ≡ e.msg.headers.delivery_time) × Stamped es

abbrev pub Woken : ℤ → Option ℤ → Type 0
Woken clock none = Unit
Woken clock (some t) = t ≤ℤ clock

pub record Sound (s : System) : Type 0 where
  pub positive : pos 0 ≤ℤ s.clock
  pub sorted : IsSorted s.scheduler.pending
  pub stamped : Stamped s.scheduler.pending
  pub woken : Woken s.clock s.draining
  pub never_early : s.scheduler.stopped ≡ false → AllVisible s.clock s.delivered
  pub conserved :
      Perm s.accepted (s.delivered ++ (map as_delivery s.scheduler.pending ++ s.dropped))

Visible-mono : (t u : ℤ) (msg : Message) → t ≤ℤ u → Visible t msg → Visible u msg
Visible-mono t u msg h (inl e) = inl e
Visible-mono t u msg h (inr l) = inr (omega arith)

AllVisible-mono : (t u : ℤ) (ds : List Delivery) → t ≤ℤ u → AllVisible t ds → AllVisible u ds
AllVisible-mono t u [] h a = tt
AllVisible-mono t u (d ∷ ds) h a = (Visible-mono t u d.msg h a.0, AllVisible-mono t u ds h a.1)

Woken-mono : (t u : ℤ) (o : Option ℤ) → t ≤ℤ u → Woken t o → Woken u o
Woken-mono t u none h w = tt
Woken-mono t u (some x) h w = omega arith

Stamped-emplace :
    (e : Entry) (es : List Entry)
    → e.time ≡ e.msg.headers.delivery_time
    → Stamped es
    → Stamped (emplace e es)
unfolding emplace
Stamped-emplace e [] h s = (h, tt)
Stamped-emplace e (x ∷ xs) h s = elim (Bool-cases (ltb_ℤ e.time x.time)) [
  | inl l ↦ rw l (h, s)
  | inr l ↦ rw l (s.0, Stamped-emplace e xs h s.1)
]

emplace-perm :
    (e : Entry) (es : List Entry)
    → Perm (map as_delivery (emplace e es)) (as_delivery e ∷ map as_delivery es)
unfolding emplace
emplace-perm e [] = Perm.refl _
emplace-perm e (x ∷ xs) = elim (Bool-cases (ltb_ℤ e.time x.time)) [
  | inl l ↦ rw l (Perm.refl _)
  | inr l ↦ rw l (
      Perm.trans (Perm.cons (as_delivery x) (emplace-perm e xs))
        (Perm.swap (as_delivery e) (as_delivery x) _))
]

start-Sound : (clock : ℤ) → pos 0 ≤ℤ clock → Sound (start clock)
start-Sound clock h = record {
  positive = h;
  sorted = tt;
  stamped = tt;
  woken = tt;
  never_early = λ e. tt;
  conserved = Perm.refl [];
}

-- The state after a send, from what enqueueOrSchedule gave and what was left to storage.
abbrev sent : System → ℕ → Message → Scheduler × List Delivery → List Delivery → System
sent s queue msg r left = record s {
  scheduler = r.0;
  accepted = record { queue = queue; msg = sanitize s.clock msg } ∷ s.accepted;
  delivered = r.1 ++ s.delivered;
  dropped = left ++ s.dropped;
}

module _ (s : System) (queue : ℕ) (msg : Message) (h : Sound s) where
  the_delivery : Delivery
  the_delivery = record { queue = queue; msg = sanitize s.clock msg }

  at_once :
      (s.scheduler.stopped ≡ false → Visible s.clock (sanitize s.clock msg))
      → Sound (sent s queue msg (s.scheduler, deliver queue (sanitize s.clock msg)) [])
  at_once v = record {
    positive = h.positive;
    sorted = h.sorted;
    stamped = h.stamped;
    woken = h.woken;
    never_early = λ e. (v e, h.never_early e);
    conserved = Perm.cons _ h.conserved;
  }

  put_off :
      (r : Scheduler × List Delivery)
      → r.1 ≡ []
      → r.0.pending ≡ emplace (entry_of queue (sanitize s.clock msg)) s.scheduler.pending
      → s.scheduler.stopped ≡ false
      → Sound (sent s queue msg r [])
  put_off r none_out pending running = record {
    positive = h.positive;
    sorted = rw pending (emplace-IsSorted _ s.scheduler.pending h.sorted);
    stamped = rw pending (Stamped-emplace _ s.scheduler.pending refl h.stamped);
    woken = h.woken;
    never_early = λ e. rw none_out (h.never_early running);
    conserved =
        rw (none_out, pending)
          (Perm.trans (Perm.cons _ h.conserved) (
            Perm.trans (Perm.symm (perm_middle s.delivered _)) (
              Perm.append_left s.delivered (
                Perm.append_right s.dropped (
                  Perm.symm
                    (emplace-perm (entry_of queue (sanitize s.clock msg)) s.scheduler.pending))))));
  }

  left_to_storage :
      s.scheduler.stopped ≡ true
      → Sound (sent s queue msg (s.scheduler, []) (deliver queue (sanitize s.clock msg)))
  left_to_storage stopped = record {
    positive = h.positive;
    sorted = h.sorted;
    stamped = h.stamped;
    woken = h.woken;
    never_early = h.never_early;
    conserved = Perm.trans (Perm.cons _ h.conserved) (
        Perm.trans (Perm.symm (perm_middle s.delivered _)) (
          Perm.append_left s.delivered
            (Perm.symm (perm_middle (map as_delivery s.scheduler.pending) s.dropped))));
  }

  stopped_send :
      (b : Bool)
      → s.scheduler.stopped ≡ true
      → Sound (
          sent s queue msg
            (s.scheduler, (if b then [] else deliver queue (sanitize s.clock msg)))
            (if b then deliver queue (sanitize s.clock msg) else []))
  stopped_send true e = left_to_storage e
  stopped_send false e = at_once (λ f. absurd (cc))

  send-Sound : Sound (send s queue msg)
  unfolding send
  send-Sound = elim (Bool-cases s.scheduler.stopped) [
    | inl e ↦
        simp (enqueue_or_schedule_stopped s.clock s.clock s.scheduler queue msg e, e)
          (stopped_send _ e)
    | inr e ↦
        elim (enqueue_or_schedule_sanitized s.clock s.clock s.scheduler queue msg e h.positive) [
          | inl (r, v) ↦ simp (r, e) (at_once (λ _. v))
          | inr (none_out, pending, running, _, _) ↦ simp e (put_off _ none_out pending e)
        ]
  ]

AllVisible-drained :
    (s : System) (e : Entry) (t : ℤ)
    → e.time ≡ e.msg.headers.delivery_time
    → e.time ≤ℤ t
    → t ≤ℤ s.clock
    → Visible s.clock e.msg
AllVisible-drained s e t stamp l w = inr (rw (← stamp) (omega arith))

-- Each step keeps the system sound.
pub Step-Sound : {s t : System} → Step s t → Sound s → Sound t
unfolding stop
Step-Sound (tick s t l) h = record {
  positive = omega (arith, h.positive);
  sorted = h.sorted;
  stamped = h.stamped;
  woken = Woken-mono s.clock t s.draining l h.woken;
  never_early = λ e. AllVisible-mono s.clock t s.delivered l (h.never_early e);
  conserved = h.conserved;
}
Step-Sound (sends s queue msg) h = send-Sound s queue msg h
Step-Sound (wakes s e) h = record {
  positive = h.positive;
  sorted = h.sorted;
  stamped = h.stamped;
  woken = omega arith;
  never_early = h.never_early;
  conserved = h.conserved;
}
Step-Sound (hands_out s t e rest d p l) h =
    let sorted : IsSorted (e ∷ rest) = subst IsSorted p h.sorted in
    let stamped : Stamped (e ∷ rest) = subst Stamped p h.stamped in
    let woken : Woken s.clock (some t) = subst (Woken s.clock) d h.woken in
    record {
      positive = h.positive;
      sorted = sorted.1;
      stamped = stamped.1;
      woken = h.woken;
      never_early = λ r. (AllVisible-drained s e t stamped.0 l woken, h.never_early r);
      conserved =
          Perm.trans
            (subst
              (λ (es : List Entry).
                Perm s.accepted (s.delivered ++ (map as_delivery es ++ s.dropped)))
              p h.conserved)
            (perm_middle s.delivered _);
    }
Step-Sound (settles s) h = record {
  positive = h.positive;
  sorted = h.sorted;
  stamped = h.stamped;
  woken = tt;
  never_early = h.never_early;
  conserved = h.conserved;
}
Step-Sound (stops s) h = record {
  positive = h.positive;
  sorted = h.sorted;
  stamped = h.stamped;
  woken = h.woken;
  never_early = λ e. absurd (cc);
  conserved = h.conserved;
}

Reach-Sound : {s t : System} → Sound s → Reach s t → Sound t
Reach-Sound h here = h
Reach-Sound h (next r st) = Step-Sound st (Reach-Sound h r)

-- In every interleaving of senders, worker, clock and stop() from a new scheduler: the pending
-- entries are in the order of their messages' delivery times, no message reaches a queue before its
-- delivery time while the scheduler runs, and each accepted message is in exactly one place, as
-- often as it was accepted: on a queue, pending, or left to storage after stop().
pub start-Reach-Sound : (clock : ℤ) {t : System} → pos 0 ≤ℤ clock → Reach (start clock) t → Sound t
start-Reach-Sound clock h r = Reach-Sound (start-Sound clock h) r
