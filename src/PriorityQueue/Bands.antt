-- ===== src/PriorityQueue/Bands.antt =====
-- What PriorityQueueT relies on in the moodycamel library (external/concurrent_queue), used by one
-- thread at a time: a ConcurrentQueue is a FIFO queue whose try_dequeue fails on the empty queue
-- only, and a LightweightSemaphore counts its tokens.
use tiny_mq.Prelude.{ℕ, zero, suc, ◌≡◌, refl, ap, Option, none, some, List, [], ◌∷◌, ◌++◌}
use tiny_mq.Message.{Message}

pub record Moodycamel : Type 1 where
  pub Band : Type 0
  pub contents : Band → List Message
  pub new_band : Band
  pub push : Band → Message → Band
  pub try_dequeue : Band → Option (Message × Band)
  pub Sema : Type 0
  pub count : Sema → ℕ
  pub new_sema : Sema
  pub signal : Sema → Sema
  pub wait : Sema → Option Sema
  pub contents-new_band : contents new_band ≡ []
  pub contents-push : (b : Band) (msg : Message) → contents (push b msg) ≡ contents b ++ msg ∷ []
  pub try_dequeue_empty : (b : Band) → contents b ≡ [] → try_dequeue b ≡ none
  pub try_dequeue_cons :
      (b : Band) (msg : Message) (rest : List Message)
      → contents b ≡ msg ∷ rest
      → (b' : Band) × (try_dequeue b ≡ some (msg, b')) × (contents b' ≡ rest)
  pub count-new_sema : count new_sema ≡ 0
  pub count-signal : (s : Sema) → count (signal s) ≡ suc (count s)
  pub wait_zero : (s : Sema) → count s ≡ 0 → wait s ≡ none
  pub wait_suc :
      (s : Sema) (n : ℕ) → count s ≡ suc n → (s' : Sema) × (wait s ≡ some s') × (count s' ≡ n)

abbrev pub pop_front : List Message → Option (Message × List Message)
pop_front [] = none
pop_front (x ∷ xs) = some (x, xs)

abbrev pub down_count : ℕ → Option ℕ
down_count zero = none
down_count (suc n) = some n

pub pop_front_empty : (b : List Message) → b ≡ [] → pop_front b ≡ none
pop_front_empty b e = ap pop_front e

pub pop_front_cons :
    (b : List Message) (msg : Message) (rest : List Message)
    → b ≡ msg ∷ rest
    → (b' : List Message) × (pop_front b ≡ some (msg, b')) × (b' ≡ rest)
pop_front_cons b msg rest e = (rest, ap pop_front e, refl)

pub down_count-suc : (s n : ℕ) → s ≡ suc n → (s' : ℕ) × (down_count s ≡ some s') × (s' ≡ n)
down_count-suc s n e = (n, ap down_count e, refl)

-- Lists and numbers are such queues and semaphores.
abbrev pub sequential : Moodycamel
sequential = record {
  Band = List Message;
  contents = λ b. b;
  new_band = [];
  push = λ b msg. b ++ msg ∷ [];
  try_dequeue = pop_front;
  Sema = ℕ;
  count = λ s. s;
  new_sema = 0;
  signal = suc;
  wait = down_count;
  contents-new_band = refl;
  contents-push = λ b msg. refl;
  try_dequeue_empty = pop_front_empty;
  try_dequeue_cons = pop_front_cons;
  count-new_sema = refl;
  count-signal = λ s. refl;
  wait_zero = λ s e. ap down_count e;
  wait_suc = down_count-suc;
}
