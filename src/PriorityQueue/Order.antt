-- ===== src/PriorityQueue/Order.antt =====
-- The queue as one list, in the order of delivery: band 9 first, each band oldest first.
use tiny_mq.Prelude.{
  ℕ, zero, suc, ◌≤◌, ◌<◌, ◌≡◌, refl, sym, ap, ◌∙◌, inl, inr, ◌≢◌, false, List, [], ◌∷◌, ◌++◌,
  append_assoc, append-nil, arith, leb, le→leb, ◌==◌, ==_refl, if◌then◌else◌, Bool-cases, ℤ, pos,
  negsuc,
}
use tiny_mq.Message.{Message, clamp_priority}
use tiny_mq.PriorityQueue.{PriorityQueue, enqueue}
use tiny_mq.PriorityQueue.Bands.{Moodycamel}

-- Bands n-1 down to 0, joined.
unfoldable pub down {ℓ} : {A : Type ℓ} → ℕ → (ℕ → List A) → List A
down zero v = []
down (suc n) v = v n ++ down n v

-- Of those, bands n-1 down to p.
unfoldable pub above {ℓ} : {A : Type ℓ} → ℕ → ℕ → (ℕ → List A) → List A
above zero p v = []
above (suc n) p v = if leb p n then v n ++ above n p v else []

module _ {ℓ} {A : Type ℓ} where
  -- Views that agree below n.
  pub down_cong : (n : ℕ) (v w : ℕ → List A) → ((b : ℕ) → b < n → v b ≡ w b) → down n v ≡ down n w
  unfolding down
  down_cong zero v w h = refl
  down_cong (suc n) v w h =
      ap (λ (x : List A). x ++ down n v) (h n (omega arith))
      ∙ ap (◌++◌ (w n)) (down_cong n v w (λ b l. h b (omega arith)))

  above_top : (n : ℕ) (v : ℕ → List A) (p : ℕ) → n ≤ p → above n p v ≡ []
  unfolding above
  above_top zero v p h = refl
  above_top (suc n) v p h = let e : leb p n ≡ false = ground arith in rw e refl

  pub down_split : (n p : ℕ) (v : ℕ → List A) → p < n → down n v ≡ above n p v ++ down p v
  unfolding down above
  down_split zero p v h = absurd (omega arith)
  down_split (suc n) p v h = elim (Bool-cases (p == n)) [
    | inl e ↦
        let k : p ≡ n = ground arith in
        rw (k, le→leb n n (omega arith), above_top n v n (omega arith), append-nil) refl
    | inr e ↦
        rw (le→leb p n (omega arith), append_assoc)
          (ap (◌++◌ (v n)) (down_split n p v (ground arith)))
  ]

  -- One more entry at the end of band p.
  pub down_insert :
      (n p : ℕ) (v w : ℕ → List A) (x : A)
      → p < n
      → w p ≡ v p ++ x ∷ []
      → ((b : ℕ) → b ≢ p → w b ≡ v b)
      → down n w ≡ above n p v ++ x ∷ down p v
  unfolding down above
  down_insert zero p v w x h e other = absurd (omega arith)
  down_insert (suc n) p v w x h e other = elim (Bool-cases (p == n)) [
    | inl s ↦
        let k : p ≡ n = ground arith in
        rw
          (
            ← k,
            le→leb p p (omega arith),
            above_top p v p (omega arith),
            append-nil,
            e,
            append_assoc,
          )
          (ap (λ (y : List A). v p ++ x ∷ y) (down_cong p w v (λ b l. other b (λ q. omega arith))))
    | inr s ↦
        rw (le→leb p n (omega arith), append_assoc, other n (λ q. ground arith))
          (ap (◌++◌ (v n)) (down_insert n p v w x (ground arith) e other))
  ]

  -- The first entry of the highest band that is not empty is taken.
  pub down_pop :
      (n p : ℕ) (v w : ℕ → List A) (x : A) (rest : List A)
      → p < n
      → ((b : ℕ) → p < b → b < n → v b ≡ [])
      → v p ≡ x ∷ rest
      → w p ≡ rest
      → ((b : ℕ) → b ≢ p → w b ≡ v b)
      → down n v ≡ x ∷ down n w
  unfolding down
  down_pop zero p v w x rest h up e e' other = absurd (omega arith)
  down_pop (suc n) p v w x rest h up e e' other = elim (Bool-cases (p == n)) [
    | inl s ↦
        let k : p ≡ n = ground arith in
        rw (← k, e, e')
          (ap (λ (y : List A). x ∷ (rest ++ y))
            (down_cong p v w (λ b l. sym (other b (λ q. omega arith)))))
    | inr s ↦
        rw (other n (λ q. ground arith), up n (ground arith) (omega arith))
          (down_pop n p v w x rest (ground arith) (λ b l m. up b l (omega arith)) e e' other)
  ]

  pub down_empty : (n : ℕ) (v : ℕ → List A) → ((b : ℕ) → b < n → v b ≡ []) → down n v ≡ []
  unfolding down
  down_empty zero v h = refl
  down_empty (suc n) v h = rw (h n (omega arith)) (down_empty n v (λ b l. h b (omega arith)))

pub clamp_priority-lt : (z : ℤ) → clamp_priority z < 10
unfolding clamp_priority
clamp_priority-lt (pos n) = ground arith
clamp_priority-lt (negsuc n) = omega arith

module _ (lib : Moodycamel) where
  abbrev pub view : PriorityQueue lib → ℕ → List Message
  view q b = lib.contents (q.bands b)

  -- The messages in the order in which the queue gives them out.
  abbrev pub ordered : PriorityQueue lib → List Message
  ordered q = down 10 (view q)

  pub view-enqueue :
      (q : PriorityQueue lib) (msg : Message) (b : ℕ)
      → view (enqueue lib q msg) b
        ≡ (if clamp_priority msg.headers.priority == b then view q b ++ msg ∷ [] else view q b)
  unfolding enqueue
  view-enqueue q msg b =
      ground (arith, lib.contents-push (q.bands (clamp_priority msg.headers.priority)) msg)

  -- A new message goes behind all messages of its own or a higher band and ahead of all lower ones.
  pub ordered-enqueue :
      (q : PriorityQueue lib) (msg : Message)
      → let p = clamp_priority msg.headers.priority in
        (ordered q ≡ above 10 p (view q) ++ down p (view q))
        × (ordered (enqueue lib q msg) ≡ above 10 p (view q) ++ msg ∷ down p (view q))
  ordered-enqueue q msg =
      let p = clamp_priority msg.headers.priority in
      let low : p < 10 = clamp_priority-lt msg.headers.priority in
      (
        down_split 10 p (view q) low,
        down_insert 10 p (view q) (view (enqueue lib q msg)) msg low
            (view-enqueue q msg p ∙ simp ==_refl) (λ b other. view-enqueue q msg b ∙ ground arith),
      )
