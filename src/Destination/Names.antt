-- ===== src/Destination/Names.antt =====
-- Destination.cpp: the names under which a durable subscription is kept, in memory and on disk.
use tiny_mq.Prelude.{
  ℕ, ◌≡◌, ◌≢◌, refl, sym, ap, [], ◌∷◌, ◌++◌, if◌then◌else◌, is_empty, append_assoc, Bytes, get_or,
  drop, length, arith, length-append,
}
use tiny_mq.Selector.Tokenizer.{codes}

-- durableKey: the unit separator divides the parts.
unfoldable pub durable_key : Bytes → Bytes → Bytes
durable_key client_id subscription =
    if is_empty client_id then subscription else client_id ++ 31 ∷ subscription

-- The directory of the subscription's own store, below that of the topic.
unfoldable pub dir_name : Bytes → Bytes → Bytes
dir_name client_id subscription =
    if is_empty client_id
    then codes "durable-" ++ subscription
    else codes "durable-" ++ (client_id ++ b'-' ∷ subscription)

-- A text without the unit separator.
abbrev pub Plain : Bytes → Type 0
Plain [] = Unit
Plain (c ∷ cs) = (c ≢ 31) × Plain cs

cons_parts : (x y : ℕ) (a b : Bytes) → (x ∷ a ≡ y ∷ b) → (x ≡ y) × (a ≡ b)
cons_parts x y a b e = (ap (λ xs. get_or xs 0 0) e, ap (drop 1) e)

parts_of : (a b c d : Bytes) → Plain a → Plain c → (a ++ 31 ∷ b ≡ c ++ 31 ∷ d) → (a ≡ c) × (b ≡ d)
parts_of [] b [] d p q e = (refl, (cons_parts 31 31 b d e).1)
parts_of [] b (x ∷ c) d p (q, _) e = absurd (q (sym (cons_parts 31 x b (c ++ 31 ∷ d) e).0))
parts_of (x ∷ a) b [] d (p, _) q e = absurd (p (cons_parts x 31 (a ++ 31 ∷ b) d e).0)
parts_of (x ∷ a) b (y ∷ c) d (_, p) (_, q) e =
    let (h, t) = cons_parts x y (a ++ 31 ∷ b) (c ++ 31 ∷ d) e in
    let (l, r) = parts_of a b c d p q t in (rw (h, l) refl, r)

no_separator : (a b c : Bytes) → Plain c → (c ≡ a ++ 31 ∷ b) → ⊥
no_separator [] b [] q e = absurd (ground (arith, ap length e))
no_separator [] b (x ∷ c) (q, _) e = q (cons_parts x 31 c b e).0
no_separator (y ∷ a) b [] q e = absurd (ground (arith, ap length e))
no_separator (y ∷ a) b (x ∷ c) (_, q) e = no_separator a b c q (cons_parts x y c (a ++ 31 ∷ b) e).1

-- Two subscriptions whose names have no unit separator have one key only where both the client ids
-- and the names are equal.
pub durable_key_injective :
    (a b c d : Bytes)
    → Plain a
    → Plain b
    → Plain c
    → Plain d
    → durable_key a b ≡ durable_key c d
    → (a ≡ c) × (b ≡ d)
unfolding durable_key
durable_key_injective [] b [] d pa pb pc pd e = (refl, e)
durable_key_injective [] b (y ∷ c) d pa pb pc pd e = absurd (no_separator (y ∷ c) d b pb e)
durable_key_injective (x ∷ a) b [] d pa pb pc pd e = absurd (no_separator (x ∷ a) b d pd (sym e))
durable_key_injective (x ∷ a) b (y ∷ c) d pa pb pc pd e = parts_of (x ∷ a) b (y ∷ c) d pa pc e

Plain-append : (a b : Bytes) → Plain a → Plain b → Plain (a ++ b'-' ∷ b)
Plain-append [] b p q = (ground arith, q)
Plain-append (x ∷ a) b (h, p) q = (h, Plain-append a b p q)

-- A client id that is not empty, made longer by a dash and the first part of the name, gives another
-- subscription with the same directory, where the client id and both parts of the name are without
-- the separator of keys, character 31.
pub dir_name-durable_key :
    (a b c : Bytes)
    → a ≢ []
    → Plain a
    → Plain b
    → Plain c
    → (dir_name (a ++ b'-' ∷ b) c ≡ dir_name a (b ++ b'-' ∷ c))
      × (durable_key (a ++ b'-' ∷ b) c ≢ durable_key a (b ++ b'-' ∷ c))
unfolding dir_name
dir_name-durable_key [] b c h pa pb pc = absurd (h refl)
dir_name-durable_key (x ∷ a) b c h pa pb pc = (
  ap (λ xs. codes "durable-" ++ x ∷ xs) (append_assoc a (b'-' ∷ b) (b'-' ∷ c)),
  λ e.
      let (same, _) =
        durable_key_injective (x ∷ a ++ b'-' ∷ b) c (x ∷ a) (b ++ b'-' ∷ c)
          (Plain-append (x ∷ a) b pa pb) pc pa (Plain-append b c pb pc) e in
      absurd (omega (arith, ap length same, length-append (x ∷ a) (b'-' ∷ b))),
)
