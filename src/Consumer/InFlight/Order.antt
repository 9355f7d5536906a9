-- ===== src/Consumer/InFlight/Order.antt =====
-- Consumer.cpp: the chain of received messages is a list in the order of receipt, and recover and
-- clearInFlight walk all of it.
use tiny_mq.Prelude.{
  ℕ, zero, suc, ◌<◌, ◌≡◌, refl, sym, ap, ◌∙◌, false, Option, none, some, List, [], ◌∷◌, ◌++◌, ◌==◌,
  ==_refl, arith, length,
}
use tiny_mq.Consumer.InFlight.{InFlightLink, Links, Chain, untracked, write, track, take_all}

abbrev pub first : List ℕ → Option ℕ
first [] = none
first (x ∷ xs) = some x

abbrev pub last : ℕ → List ℕ → ℕ
last x [] = x
last x (y ∷ ys) = last y ys

abbrev pub final : List ℕ → Option ℕ
final [] = none
final (x ∷ xs) = some (last x xs)

abbrev pub Absent : ℕ → List ℕ → Type 0
Absent m [] = Unit
Absent m (x ∷ xs) = ((x == m) ≡ false) × Absent m xs

abbrev pub Distinct : List ℕ → Type 0
Distinct [] = Unit
Distinct (x ∷ xs) = Absent x xs × Distinct xs

-- The messages are linked in this order behind `p`, and belong to the consumer.
abbrev pub Linked : Links → ℕ → Option ℕ → List ℕ → Type 0
Linked links self p [] = Unit
Linked links self p (x ∷ xs) =
    ((links x).prev ≡ p)
    × ((links x).next ≡ first xs)
    × ((links x).owner ≡ some self)
    × Linked links self (some x) xs

pub record IsChain (self : ℕ) (xs : List ℕ) (s : Chain × Links) : Type 0 where
  pub head : s.0.head ≡ first xs
  pub tail : s.0.tail ≡ final xs
  pub linked : Linked s.1 self none xs
  pub distinct : Distinct xs

write_other :
    (m x : ℕ) (f : InFlightLink → InFlightLink) (links : Links)
    → (x == m) ≡ false
    → write m f links x ≡ links x
unfolding write
write_other m x f links h = rw h refl

write_same :
    (m : ℕ) (f : InFlightLink → InFlightLink) (links : Links) → write m f links m ≡ f (links m)
unfolding write
write_same m f links = rw (==_refl m) refl

Linked-write :
    (self m : ℕ) (f : InFlightLink → InFlightLink) (links : Links) (p : Option ℕ) (xs : List ℕ)
    → Absent m xs
    → Linked links self p xs
    → Linked (write m f links) self p xs
Linked-write self m f links p [] a l = tt
Linked-write self m f links p (x ∷ xs) (a, as_) (lp, ln, lo, ls) = (
  ap (λ (k : InFlightLink). k.prev) (write_other m x f links a) ∙ lp,
  ap (λ (k : InFlightLink). k.next) (write_other m x f links a) ∙ ln,
  ap (λ (k : InFlightLink). k.owner) (write_other m x f links a) ∙ lo,
  Linked-write self m f links (some x) xs as_ ls,
)

take_all-Linked :
    (self n : ℕ) (links : Links) (p : Option ℕ) (xs : List ℕ)
    → Distinct xs
    → Linked links self p xs
    → length xs < n
    → (take_all n (first xs) links).0 ≡ xs
unfolding take_all
take_all-Linked self zero links p xs d l h = elim h [ ]
take_all-Linked self (suc n) links p [] d l h = refl
take_all-Linked self (suc n) links p (x ∷ xs) (a, d) (lp, ln, lo, ls) h = rw ln (
    ap (◌∷◌ x) (
      take_all-Linked self n (write x (λ k. untracked) links) (some x) xs d
        (Linked-write self x (λ k. untracked) links (some x) xs a ls) (omega arith)))

-- With fuel for one more than the messages in flight, the walk of recover takes exactly those
-- messages, in the order of receipt.
pub take_all-IsChain :
    (self n : ℕ) (xs : List ℕ) (s : Chain × Links)
    → IsChain self xs s
    → length xs < n
    → (take_all n s.0.head s.1).0 ≡ xs
take_all-IsChain self n xs s c h =
    ap (λ (o : Option ℕ). (take_all n o s.1).0) c.head
    ∙ take_all-Linked self n s.1 none xs c.distinct c.linked h

abbrev points_to : ℕ → InFlightLink → InFlightLink
points_to m l = record l { next = some m }

abbrev follows : ℕ → Option ℕ → InFlightLink → InFlightLink
follows self p l = record l { prev = p; owner = some self }

Absent-last : (m x : ℕ) (xs : List ℕ) → Absent m (x ∷ xs) → (last x xs == m) ≡ false
Absent-last m x [] a = a.0
Absent-last m x (y ∷ ys) a = Absent-last m y ys a.1

flip : (a b : ℕ) → (a == b) ≡ false → (b == a) ≡ false
flip a b h = ground arith

-- Appending m behind the last message of a chain that is not empty.
Linked-append :
    (self m x : ℕ) (links : Links) (p : Option ℕ) (xs : List ℕ)
    → (links m).next ≡ none
    → Absent m (x ∷ xs)
    → Distinct (x ∷ xs)
    → Linked links self p (x ∷ xs)
    → Linked
        (write m (follows self (some (last x xs))) (write (last x xs) (points_to m) links))
        self
        p
        ((x ∷ xs) ++ m ∷ [])
Linked-append self m x links p [] fresh (a, _) d (lp, ln, lo, _) =
    let self_m = write_same m (follows self (some x)) (write x (points_to m) links) in
    let same_x =
      write_other m x (follows self (some x)) (write x (points_to m) links) a
      ∙ write_same x (points_to m) links in
    let other_m = write_other x m (points_to m) links (ground arith) in
    (
      ap (λ (k : InFlightLink). k.prev) same_x ∙ lp,
      ap (λ (k : InFlightLink). k.next) same_x,
      ap (λ (k : InFlightLink). k.owner) same_x ∙ lo,
      (
        ap (λ (k : InFlightLink). k.prev) self_m,
        ap (λ (k : InFlightLink). k.next) self_m
            ∙ (ap (λ (k : InFlightLink). k.next) other_m ∙ fresh),
        ap (λ (k : InFlightLink). k.owner) self_m,
        tt,
      ),
    )
Linked-append self m x links p (y ∷ ys) fresh (a, as_) (b, d) (lp, ln, lo, ls) =
    let t = last y ys in
    let t_not_x : (x == t) ≡ false = flip (last y ys) x (Absent-last x y ys b) in
    let same_x =
      write_other m x (follows self (some t)) (write t (points_to m) links) a
      ∙ write_other t x (points_to m) links t_not_x in
    (
      ap (λ (k : InFlightLink). k.prev) same_x ∙ lp,
      ap (λ (k : InFlightLink). k.next) same_x ∙ ln,
      ap (λ (k : InFlightLink). k.owner) same_x ∙ lo,
      Linked-append self m y links (some x) ys fresh as_ d ls,
    )

Absent-append : (m x : ℕ) (xs : List ℕ) → Absent x xs → (m == x) ≡ false → Absent x (xs ++ m ∷ [])
Absent-append m x [] a h = (h, tt)
Absent-append m x (y ∷ ys) (a, as_) h = (a, Absent-append m x ys as_ h)

Distinct-append : (m : ℕ) (xs : List ℕ) → Distinct xs → Absent m xs → Distinct (xs ++ m ∷ [])
Distinct-append m [] d a = (tt, tt)
Distinct-append m (x ∷ xs) (b, d) (a, as_) =
    (Absent-append m x xs b (ground arith), Distinct-append m xs d as_)

last-append : (m x : ℕ) (xs : List ℕ) → last x (xs ++ m ∷ []) ≡ m
last-append m x [] = refl
last-append m x (y ∷ ys) = last-append m y ys

-- Tracking a received message that is in no chain puts it behind all messages in flight.
pub track-IsChain :
    (self m : ℕ) (xs : List ℕ) (s : Chain × Links)
    → IsChain self xs s
    → Absent m xs
    → (s.1 m).next ≡ none
    → IsChain self (xs ++ m ∷ []) (track self m s)
unfolding track
track-IsChain self m [] (chain, links) c a fresh =
    let self_m = write_same m (follows self none) links in
    rw (c.tail, track)
      (record {
        head = refl;
        tail = refl;
        linked = (
          ap (λ (k : InFlightLink). k.prev) self_m,
          ap (λ (k : InFlightLink). k.next) self_m ∙ fresh,
          ap (λ (k : InFlightLink). k.owner) self_m,
          tt,
        );
        distinct = (tt, tt);
      })
track-IsChain self m (x ∷ xs) (chain, links) c a fresh =
    rw (c.tail, track)
      (record {
        head = c.head;
        tail = ap some (sym (last-append m x xs));
        linked = Linked-append self m x links none xs fresh a c.distinct c.linked;
        distinct = Distinct-append m (x ∷ xs) c.distinct a;
      })
