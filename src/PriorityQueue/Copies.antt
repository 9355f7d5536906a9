-- ===== src/PriorityQueue/Copies.antt =====
-- Copies of one message in a queue.
use tiny_mq.Prelude.{
  ℕ, zero, suc, ◌+◌, ◌≡◌, sym, ap, subst, ◌∙◌, List, [], ◌∷◌, ◌++◌, arith, replicate, length, drop,
}
use tiny_mq.Message.{Message, clamp_priority}
use tiny_mq.PriorityQueue.{PriorityQueue, enqueue, empty}
use tiny_mq.PriorityQueue.Bands.{Moodycamel}
use tiny_mq.PriorityQueue.Order.{ordered, above, down, view, down_empty}
use tiny_mq.PriorityQueue.Dequeue.{WellFormed, enqueue-WellFormed, empty-WellFormed}

abbrev first_or : Message → List Message → Message
first_or m [] = m
first_or m (x ∷ xs) = x

module _ (lib : Moodycamel) where
  unfoldable pub enqueue_times : ℕ → PriorityQueue lib → Message → PriorityQueue lib
  enqueue_times zero q m = q
  enqueue_times (suc n) q m = enqueue_times n (enqueue lib q m) m

  pub enqueue_times_add :
      (a b : ℕ) (q : PriorityQueue lib) (m : Message)
      → enqueue_times b (enqueue_times a q m) m ≡ enqueue_times (a + b) q m
  unfolding enqueue_times
  enqueue_times_add zero b q m =
      (let moved : b ≡ 0 + b = omega arith in ap (λ n. enqueue_times n q m) moved)
  enqueue_times_add (suc a) b q m =
      let moved : suc (a + b) ≡ suc a + b = omega arith in
      enqueue_times_add a b (enqueue lib q m) m ∙ ap (λ n. enqueue_times n q m) moved

  more_copies :
      (xs ys : List Message) (n : ℕ) (m : Message)
      → (xs ++ ys ≡ replicate n m)
      → (xs ++ m ∷ ys ≡ replicate (suc n) m)
  more_copies [] ys n m e = ap (λ zs. m ∷ zs) e
  more_copies (x ∷ xs) ys zero m e = absurd (ground (arith, ap length e))
  more_copies (x ∷ xs) ys (suc n) m e =
      let same : x ≡ m = ap (first_or m) e in
      rw same (ap (λ zs. m ∷ zs) (more_copies xs ys n m (ap (drop 1) e)))

  -- A queue of n copies of one message.
  abbrev Copies : ℕ → Message → PriorityQueue lib → Type 0
  Copies n m q = WellFormed lib q × (ordered lib q ≡ replicate n m)

  enqueue_times-Copies :
      (k n : ℕ) (m : Message) (q : PriorityQueue lib)
      → Copies n m q
      → Copies (k + n) m (enqueue_times k q m)
  unfolding enqueue_times
  enqueue_times-Copies zero n m q h =
      let same : n ≡ 0 + n = omega arith in subst (λ j. Copies j m q) same h
  enqueue_times-Copies (suc k) n m q (w, e) =
      let p = clamp_priority m.headers.priority in
      let (w', before, after) = enqueue-WellFormed lib q m w in
      let moved : k + suc n ≡ suc k + n = omega arith in
      subst (λ j. Copies j m (enqueue_times k (enqueue lib q m) m)) moved
        (enqueue_times-Copies k (suc n) m (enqueue lib q m) (
          w',
          after ∙ more_copies (above 10 p (view lib q)) (down p (view lib q)) n m (sym before ∙ e),
        ))

  -- A queue that gets n copies of one message gives out these.
  pub ordered-enqueue_times :
      (n : ℕ) (m : Message)
      → WellFormed lib (enqueue_times n (empty lib) m)
        × (ordered lib (enqueue_times n (empty lib) m) ≡ replicate n m)
  ordered-enqueue_times n m =
      let nothing : ordered lib (empty lib) ≡ [] =
        down_empty 10 (view lib (empty lib)) (λ b l. lib.contents-new_band) in
      let same : n + 0 ≡ n = omega arith in
      subst (λ j. Copies j m (enqueue_times n (empty lib) m)) same
        (enqueue_times-Copies n 0 m (empty lib) (empty-WellFormed lib, nothing))
