-- ===== src/Consumer/InFlight.antt =====
-- Message.h, InFlightLink, and the chain of received messages in Consumer.cpp (the tails of recv
-- and acknowledgeOn, recover, clearInFlight). A message object and a consumer are named by numbers;
-- the store of links is shared by all consumers. Lifetimes are not modelled.
pub mod Order
use tiny_mq.Prelude.{ℕ, zero, suc, Bool, Option, none, some, List, [], ◌∷◌, ◌==◌, if◌then◌else◌}

pub record InFlightLink : Type 0 where
  pub next : Option ℕ
  pub prev : Option ℕ
  pub owner : Option ℕ

abbrev pub untracked : InFlightLink
untracked = record { next = none; prev = none; owner = none }

abbrev pub Links : Type 0
Links = ℕ → InFlightLink

-- _inFlightHead and _inFlightTail.
pub record Chain : Type 0 where
  pub head : Option ℕ
  pub tail : Option ℕ

abbrev pub no_chain : Chain
no_chain = record { head = none; tail = none }

unfoldable pub write : ℕ → (InFlightLink → InFlightLink) → Links → Links
write m f links x = if x == m then f (links x) else links x

abbrev pub owned : Option ℕ → ℕ → Bool
owned none self = Bool.false
owned (some o) self = o == self

-- recv: append at the tail.
unfoldable pub track : ℕ → ℕ → Chain × Links → Chain × Links
unfolding write
track self m (chain, links) = elim chain.tail [
  | some t ↦ (
    record chain { tail = some m },
    write m (λ l. record l { prev = some t; owner = some self })
        (write t (λ l. record l { next = some m }) links),
  )
  | none ↦ (
    record { head = some m; tail = some m },
    write m (λ l. record l { prev = none; owner = some self }) links,
  )
]

-- `p->next = n`, or `_inFlightHead = n` where p is null.
unfoldable pub set_next : Option ℕ → Option ℕ → Chain × Links → Chain × Links
unfolding write
set_next (some p) n (chain, links) = (chain, write p (λ l. record l { next = n }) links)
set_next none n (chain, links) = (record chain { head = n }, links)

-- `n->prev = p`, or `_inFlightTail = p` where n is null.
unfoldable pub set_prev : Option ℕ → Option ℕ → Chain × Links → Chain × Links
unfolding write
set_prev (some n) p (chain, links) = (chain, write n (λ l. record l { prev = p }) links)
set_prev none p (chain, links) = (record chain { tail = p }, links)

unfoldable pub reset : ℕ → Chain × Links → Chain × Links
unfolding write
reset m (chain, links) = (chain, write m (λ l. untracked) links)

unfoldable pub unlink : ℕ → Chain × Links → Chain × Links
unfolding set_next set_prev reset
unlink m s = let l = s.1 m in reset m (set_prev l.next l.prev (set_next l.prev l.next s))

-- acknowledgeOn: only a message of the consumer's own chain is unlinked.
unfoldable pub release : ℕ → ℕ → Chain × Links → Chain × Links
unfolding unlink
release self m s = if owned (s.1 m).owner self then unlink m s else s

-- The walk of recover and clearInFlight: each message from the head is unlinked, in order.
unfoldable pub take_all : ℕ → Option ℕ → Links → List ℕ × Links
unfolding write
take_all zero first links = ([], links)
take_all (suc n) none links = ([], links)
take_all (suc n) (some m) links =
    let (rest, links') = take_all n (links m).next (write m (λ l. untracked) links) in
    (m ∷ rest, links')
