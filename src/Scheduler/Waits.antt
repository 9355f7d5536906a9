-- ===== src/Scheduler/Waits.antt =====
-- cappedWaitDeltaMs and the drain of the due entries.
use tiny_mq.Prelude.{
  ◌≡◌, refl, inl, inr, ap, List, [], ◌∷◌, ◌++◌, arith, Bool-cases, ℤ, pos, ltb_ℤ, leb_ℤ, ◌+ℤ◌, ◌-ℤ◌,
  ◌≤ℤ◌, ◌<ℤ◌,
}
use tiny_mq.Scheduler.{Entry, capped_wait_delta_ms, max_wait_ms, drain, emplace}

-- The worker never sleeps for more than a day nor past the deadline, sleeps for a positive time
-- until a deadline that is ahead, and not at all once it has passed. A deadline less than a day
-- ahead is met exactly.
pub capped_wait_delta_ms_bounds :
    (deadline now : ℤ)
    → (pos 0 ≤ℤ capped_wait_delta_ms deadline now)
      × (capped_wait_delta_ms deadline now ≤ℤ max_wait_ms)
      × (deadline ≤ℤ now → capped_wait_delta_ms deadline now ≡ pos 0)
      × (now <ℤ deadline
          → (pos 0 <ℤ capped_wait_delta_ms deadline now)
            × (now +ℤ capped_wait_delta_ms deadline now ≤ℤ deadline))
      × (now <ℤ deadline
          → deadline <ℤ now +ℤ max_wait_ms
          → now +ℤ capped_wait_delta_ms deadline now ≡ deadline)
unfolding capped_wait_delta_ms ◌+ℤ◌ ◌-ℤ◌
capped_wait_delta_ms_bounds deadline now = (
  ground arith,
  ground arith,
  λ h. ground arith,
  λ h. (ground arith, ground arith),
  λ h k. ground arith,
)

-- Every entry is due at `t`; every entry is later than `t`; every entry is at `t` or later.
abbrev pub AllDue : ℤ → List Entry → Type 0
AllDue t [] = Unit
AllDue t (e ∷ es) = (e.time ≤ℤ t) × AllDue t es

abbrev pub AllLater : ℤ → List Entry → Type 0
AllLater t [] = Unit
AllLater t (e ∷ es) = (t <ℤ e.time) × AllLater t es

abbrev pub AllFrom : ℤ → List Entry → Type 0
AllFrom t [] = Unit
AllFrom t (e ∷ es) = (t ≤ℤ e.time) × AllFrom t es

abbrev pub IsSorted : List Entry → Type 0
IsSorted [] = Unit
IsSorted (e ∷ es) = AllFrom e.time es × IsSorted es

AllFrom-AllLater : (t u : ℤ) (es : List Entry) → t <ℤ u → AllFrom u es → AllLater t es
AllFrom-AllLater t u [] h a = tt
AllFrom-AllLater t u (e ∷ es) h a = (omega arith, AllFrom-AllLater t u es h a.1)

AllFrom-mono : (t u : ℤ) (es : List Entry) → t ≤ℤ u → AllFrom u es → AllFrom t es
AllFrom-mono t u [] h a = tt
AllFrom-mono t u (e ∷ es) h a = (omega arith, AllFrom-mono t u es h a.1)

AllFrom-emplace :
    (t : ℤ) (e : Entry) (es : List Entry) → t ≤ℤ e.time → AllFrom t es → AllFrom t (emplace e es)
unfolding emplace
AllFrom-emplace t e [] h a = (h, tt)
AllFrom-emplace t e (x ∷ xs) h a = elim (Bool-cases (ltb_ℤ e.time x.time)) [
  | inl s ↦ rw s (h, a)
  | inr s ↦ rw s (a.0, AllFrom-emplace t e xs h a.1)
]

pub emplace-IsSorted : (e : Entry) (es : List Entry) → IsSorted es → IsSorted (emplace e es)
unfolding emplace
emplace-IsSorted e [] s = (tt, tt)
emplace-IsSorted e (x ∷ xs) s = elim (Bool-cases (ltb_ℤ e.time x.time)) [
  | inl l ↦
      let less : e.time ≤ℤ x.time = ground arith in
      rw l ((less, AllFrom-mono e.time x.time xs less s.0), s)
  | inr l ↦
      let ge : x.time ≤ℤ e.time = ground arith in
      rw l (AllFrom-emplace x.time e xs ge s.0, emplace-IsSorted e xs s.1)
]

-- From sorted entries, drain delivers exactly those that are due, in order, and leaves the rest in
-- order.
pub drain_lem :
    (t : ℤ) (es : List Entry)
    → IsSorted es
    → ((drain t es).0 ++ (drain t es).1 ≡ es)
      × AllDue t (drain t es).0
      × AllLater t (drain t es).1
      × IsSorted (drain t es).1
unfolding drain
drain_lem t [] s = (refl, tt, tt, tt)
drain_lem t (e ∷ es) s = elim (Bool-cases (leb_ℤ e.time t)) [
  | inl l ↦
      let (joined, due_, later, sorted) = drain_lem t es s.1 in
      rw l (ap (◌∷◌ e) joined, (ground arith, due_), later, sorted)
  | inr l ↦
      let ahead : t <ℤ e.time = ground arith in
      rw l (refl, tt, (ahead, AllFrom-AllLater t e.time es ahead s.0), s)
]
