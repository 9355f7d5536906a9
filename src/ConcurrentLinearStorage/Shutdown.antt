-- ===== src/ConcurrentLinearStorage/Shutdown.antt =====
-- ConcurrentLinearStorage.cpp: start, stop and the worker's thread as steps that interleave. start is
-- called once, and of the calls of stop only the first after it counts: the others return at once.
-- What the worker does beside STOP changes nothing here.
use tiny_mq.Prelude.{◌≡◌, ◌≢◌, refl, Bool, true, false, Option, none, some, arith, ◌⊎◌, inl, inr}

-- The thread before its start, between its start and the first line of run(), in the loop, and gone.
pub data Thread : Type 0 where
  unstarted created looping exited : Thread

-- stop(): not called; past the test of _started; waiting for the event of STOP; in join(); returned.
pub data Stopper : Type 0 where
  absent called waiting joining returned : Stopper

pub record State : Type 0 where
  pub running : Bool
  pub thread : Thread
  pub stopper : Stopper
  pub stop_queued : Bool

abbrev pub initial : State
initial = record { running = false; thread = unstarted; stopper = absent; stop_queued = false }

pub data Event : Type 0 where
  start run_begins stop_called stop_looks worker_stops stop_woken joined : Event

abbrev if_unstarted : State → Thread → Option State
if_unstarted s unstarted = some (record s { thread = created })
if_unstarted s _ = none

abbrev if_created : State → Thread → Option State
if_created s created = some (record s { thread = looping; running = true })
if_created s _ = none

abbrev if_absent : State → Stopper → Thread → Option State
if_absent s absent unstarted = none
if_absent s absent _ = some (record s { stopper = called })
if_absent s _ _ = none

abbrev if_called : State → Stopper → Bool → Option State
if_called s called true = some (record s { stopper = waiting; stop_queued = true })
if_called s called false = some (record s { stopper = joining })
if_called s _ _ = none

abbrev if_looping : State → Thread → Bool → Option State
if_looping s looping true =
    some (record s { thread = exited; running = false; stop_queued = false })
if_looping s _ _ = none

abbrev if_waiting : State → Stopper → Thread → Option State
if_waiting s waiting exited = some (record s { stopper = joining })
if_waiting s _ _ = none

abbrev if_joining : State → Stopper → Thread → Option State
if_joining s joining exited = some (record s { stopper = returned })
if_joining s _ _ = none

-- What an event makes of a state; `none` where it cannot happen.
unfoldable pub next : Event → State → Option State
next start s = if_unstarted s s.thread
next run_begins s = if_created s s.thread
next stop_called s = if_absent s s.stopper s.thread
next stop_looks s = if_called s s.stopper s.running
next worker_stops s = if_looping s s.thread s.stop_queued
next stop_woken s = if_waiting s s.stopper s.thread
next joined s = if_joining s s.stopper s.thread

pub data Reach : State → State → Type 0 where
  here : {s : State} → Reach s s
  then : {s s1 s2 : State} (e : Event) → next e s ≡ some s1 → Reach s1 s2 → Reach s s2

-- stop() is in join(), and no STOP was sent to a worker that is not gone.
abbrev pub Lost : State → Type 0
Lost s =
    (s.stopper ≡ joining) × (s.thread ≢ exited) × (s.thread ≢ unstarted) × (s.stop_queued ≡ false)

next-Lost : (e : Event) (s s' : State) → next e s ≡ some s' → Lost s → Lost s'
unfolding next
next-Lost e s s' h l = ground arith

-- The combinations that can come about.
unfoldable sane : Thread → Stopper → Bool → Bool → Bool
sane unstarted absent false false = true
sane created absent false false = true
sane created called false false = true
sane created joining false false = true
sane looping absent true false = true
sane looping called true false = true
sane looping waiting true true = true
sane looping joining true false = true
sane exited waiting false false = true
sane exited joining false false = true
sane exited returned false false = true
sane _ _ _ _ = false

abbrev Sane : State → Type 0
Sane s = sane s.thread s.stopper s.running s.stop_queued ≡ true

next-Sane : (e : Event) (s s' : State) → next e s ≡ some s' → Sane s → Sane s'
unfolding next sane
next-Sane e s s' h k = ground arith

reach-Sane : (s s' : State) → Reach s s' → Sane s → Sane s'
reach-Sane s s' here k = k
reach-Sane s s' (then {s1} e h r) k = reach-Sane s1 s' r (next-Sane e s s1 h k)

reach-Lost : (s s' : State) → Reach s s' → Lost s → Lost s'
reach-Lost s s' here l = l
reach-Lost s s' (then {s1} e h r) l = reach-Lost s1 s' r (next-Lost e s s1 h l)

abbrev at : Thread → Stopper → Bool → Bool → State
at t p r q = record { running = r; thread = t; stopper = p; stop_queued = q }

-- stop() can return from here.
abbrev pub Returns : State → Type 0
Returns s = (s' : State) × Reach s s' × (s'.stopper ≡ returned)

from_joining : Returns (at exited joining false false)
unfolding next
from_joining = (at exited returned false false, then joined refl here, refl)

earlier : (e : Event) (s s1 : State) → next e s ≡ some s1 → Returns s1 → Returns s
earlier e s s1 h (s', r, p) = (s', then e h r, p)

from_waiting : Returns (at exited waiting false false)
unfolding next
from_waiting = earlier stop_woken _ (at exited joining false false) refl from_joining

from_queued : Returns (at looping waiting true true)
unfolding next
from_queued = earlier worker_stops _ (at exited waiting false false) refl from_waiting

from_called : Returns (at looping called true false)
unfolding next
from_called = earlier stop_looks _ (at looping waiting true true) refl from_queued

from_created : Returns (at created called false false)
unfolding next
from_created = earlier run_begins _ (at looping called true false) refl from_called

ends :
    (t : Thread) (p : Stopper) (r q : Bool)
    → sane t p r q ≡ true
    → p ≢ absent
    → Returns (at t p r q) ⊎ Lost (at t p r q)
unfolding sane
ends t absent r q h n = absurd (n refl)
ends created called r q h n =
    let (e, f) : (r ≡ false) × (q ≡ false) = ground arith in rw (e, f) (inl from_created)
ends looping called r q h n =
    let (e, f) : (r ≡ true) × (q ≡ false) = ground arith in rw (e, f) (inl from_called)
ends looping waiting r q h n =
    let (e, f) : (r ≡ true) × (q ≡ true) = ground arith in rw (e, f) (inl from_queued)
ends exited waiting r q h n =
    let (e, f) : (r ≡ false) × (q ≡ false) = ground arith in rw (e, f) (inl from_waiting)
ends exited joining r q h n =
    let (e, f) : (r ≡ false) × (q ≡ false) = ground arith in rw (e, f) (inl from_joining)
ends exited returned r q h n = inl (at exited returned r q, here, refl)
ends created joining r q h n = inr (ground arith)
ends looping joining r q h n = inr (ground arith)
ends unstarted called r q h n = absurd (ground arith)
ends unstarted waiting r q h n = absurd (ground arith)
ends unstarted joining r q h n = absurd (ground arith)
ends unstarted returned r q h n = absurd (ground arith)
ends created waiting r q h n = absurd (ground arith)
ends created returned r q h n = absurd (ground arith)
ends looping returned r q h n = absurd (ground arith)
ends exited called r q h n = absurd (ground arith)

-- From every state that start and a call of stop() can lead to, in any interleaving with the
-- worker: either stop() can still return, or it waits in join() for a worker that has no STOP in its
-- queue, and then this stays so whatever happens.
pub initial-Lost :
    (s : State)
    → Reach initial s
    → s.stopper ≢ absent
    → Returns s ⊎ (Lost s × ((s' : State) → Reach s s' → Lost s'))
unfolding sane
initial-Lost s r n =
    elim (ends s.thread s.stopper s.running s.stop_queued (reach-Sane initial s r refl) n) [
      | inl back ↦ inl back
      | inr lost ↦ inr (lost, λ s' r'. reach-Lost s s' r' lost)
    ]
