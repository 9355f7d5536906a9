-- ===== src/Prelude/Maps.antt =====
-- std::map and std::unordered_map as association lists over a decidable key, and their laws.
use Prim.Native.Nat.{ℕ}
use mathlib.Core.Path.{◌≡◌, refl, sym, ap, ◌∙◌}
use mathlib.Core.Logic.{◌↔◌, ◌≢◌, ◌⊎◌, inl, inr}
use mathlib.Core.Bool.{Bool, true, false}
use mathlib.Core.Option.{Option, none, some}
use mathlib.Core.List.{List, [], ◌∷◌, ◌++◌}
use native.Mathlib.Omega.{arith}
use tiny_mq.Prelude.Tests.{◌==◌, ==_iff, Bool-cases, if◌then◌else◌}
use tiny_mq.Prelude.Words.{Bytes, bytes_eq, bytes_eq_refl, bytes_eq→eq}

pub record Eq {ℓ} (K : Type ℓ) : Type ℓ where
  pub beq : K → K → Bool
  pub beq_iff : (a b : K) → (beq a b ≡ true) ↔ (a ≡ b)

instance abbrev pub nat_eq : Eq ℕ
nat_eq = record { beq = ◌==◌; beq_iff = ==_iff }

pub bytes_eq_iff : (a b : Bytes) → (bytes_eq a b ≡ true) ↔ (a ≡ b)
bytes_eq_iff a b = (bytes_eq→eq a b, λ e. rw e (bytes_eq_refl b))

instance abbrev pub bytes_key : Eq Bytes
bytes_key = record { beq = bytes_eq; beq_iff = bytes_eq_iff }

pub some_injective {ℓ} : {A : Type ℓ} {x y : A} → some x ≡ some y → x ≡ y
some_injective {x} h = ap (λ o. elim o [ none ↦ x | some v ↦ v ]) h

pub none_differs {ℓ} : {A : Type ℓ} {x : A} → none ≡ some x → ⊥
none_differs h = ground arith

module _ {ℓ} {K : Type ℓ} ⦃e : Eq K⦄ where
  beq_other : (k j : K) → e.beq k j ≡ false → k ≢ j
  beq_other k j h = ground (arith, e.beq_iff k j)

  other_beq : (k j : K) → k ≢ j → e.beq k j ≡ false
  other_beq k j h = ground (arith, e.beq_iff k j)

module _ {ℓ κ} {K : Type ℓ} {V : Type κ} ⦃e : Eq K⦄ where
  -- m.find(k)
  unfoldable pub find : K → List (K × V) → Option V
  find k [] = none
  find k ((j, v) ∷ m) = if e.beq j k then some v else find k m

  -- m[k] = v
  unfoldable pub insert : K → V → List (K × V) → List (K × V)
  insert k v [] = (k, v) ∷ []
  insert k v ((j, w) ∷ m) = if e.beq j k then (k, v) ∷ m else (j, w) ∷ insert k v m

  -- m.erase(k)
  unfoldable pub erase : K → List (K × V) → List (K × V)
  erase k [] = []
  erase k ((j, w) ∷ m) = let rest = erase k m in if e.beq j k then rest else (j, w) ∷ rest

  unfoldable pub keys : List (K × V) → List K
  keys [] = []
  keys ((k, v) ∷ m) = k ∷ keys m

  pub find-insert :
      (j k : K) (v : V) (m : List (K × V))
      → find j (insert k v m) ≡ (if e.beq k j then some v else find j m)
  unfolding find insert
  find-insert j k v [] = refl
  find-insert j k v ((i, w) ∷ m) =
      ground (arith, e.beq_iff k j, e.beq_iff i k, e.beq_iff i j, find-insert j k v m)

  pub find-erase :
      (j k : K) (m : List (K × V)) → find j (erase k m) ≡ (if e.beq k j then none else find j m)
  unfolding find erase
  find-erase j k [] = ground arith
  find-erase j k ((i, w) ∷ m) =
      ground (arith, e.beq_iff k j, e.beq_iff i k, e.beq_iff i j, find-erase j k m)

  pub find-insert_same : (k : K) (v : V) (m : List (K × V)) → find k (insert k v m) ≡ some v
  find-insert_same k v m = find-insert k k v m ∙ rw ((e.beq_iff k k).1 refl) refl

  pub find-insert_other :
      (j k : K) (v : V) (m : List (K × V)) → k ≢ j → find j (insert k v m) ≡ find j m
  find-insert_other j k v m h = find-insert j k v m ∙ rw (other_beq k j h) refl

  find-erase_same : (k : K) (m : List (K × V)) → find k (erase k m) ≡ none
  find-erase_same k m = find-erase k k m ∙ rw ((e.beq_iff k k).1 refl) refl

  pub find-erase_other : (j k : K) (m : List (K × V)) → k ≢ j → find j (erase k m) ≡ find j m
  find-erase_other j k m h = find-erase j k m ∙ rw (other_beq k j h) refl

  -- What a lookup in a changed map tells of the map before.
  pub insert-cases :
      (j k : K) (v w : V) (m : List (K × V))
      → find j (insert k v m) ≡ some w
      → ((k ≡ j) × (v ≡ w)) ⊎ ((k ≢ j) × (find j m ≡ some w))
  insert-cases j k v w m h = elim (Bool-cases (e.beq k j)) [
    | inl b ↦
        let same = (e.beq_iff k j).0 b in
        inl (
          same,
          some_injective
              (sym (find-insert_same k v m) ∙ (ap (λ x. find x (insert k v m)) same ∙ h)),
        )
    | inr b ↦ inr (beq_other k j b, sym (find-insert_other j k v m (beq_other k j b)) ∙ h)
  ]

  pub erase-cases :
      (j k : K) (w : V) (m : List (K × V))
      → find j (erase k m) ≡ some w
      → (k ≢ j) × (find j m ≡ some w)
  erase-cases j k w m h = elim (Bool-cases (e.beq k j)) [
    | inl b ↦ absurd (
        none_differs
          (sym (find-erase_same k m) ∙ (ap (λ x. find x (erase k m)) ((e.beq_iff k j).0 b) ∙ h)))
    | inr b ↦ (beq_other k j b, sym (find-erase_other j k m (beq_other k j b)) ∙ h)
  ]

  -- m.emplace(k, v) of a new key, at the end.
  pub find-append_keeps :
      (j k : K) (v w : V) (m : List (K × V))
      → find j m ≡ some w
      → find j (m ++ (k, v) ∷ []) ≡ some w
  unfolding find
  find-append_keeps j k v w [] h = absurd (none_differs h)
  find-append_keeps j k v w ((i, x) ∷ m) h = ground (arith, find-append_keeps j k v w m)

  pub find-append_new :
      (k : K) (v : V) (m : List (K × V)) → find k m ≡ none → find k (m ++ (k, v) ∷ []) ≡ some v
  unfolding find
  find-append_new k v [] h = ground (arith, e.beq_iff k k)
  find-append_new k v ((i, x) ∷ m) h = ground (arith, find-append_new k v m)

  pub append-cases :
      (j k : K) (v w : V) (m : List (K × V))
      → find j (m ++ (k, v) ∷ []) ≡ some w
      → (find j m ≡ some w) ⊎ ((find j m ≡ none) × (k ≡ j) × (v ≡ w))
  unfolding find
  append-cases j k v w [] h = ground (arith, e.beq_iff k j)
  append-cases j k v w ((i, x) ∷ m) h = ground (arith, append-cases j k v w m)

  pub find-append_found : (k : K) (v : V) (m : List (K × V)) → find k (m ++ (k, v) ∷ []) ≢ none
  unfolding find
  find-append_found k v [] h = ground (arith, e.beq_iff k k)
  find-append_found k v ((i, x) ∷ m) h = ground (arith, find-append_found k v m)

  pub find-append_some :
      (j k : K) (v : V) (m : List (K × V)) → find j m ≢ none → find j (m ++ (k, v) ∷ []) ≢ none
  unfolding find
  find-append_some j k v [] h z = absurd (h refl)
  find-append_some j k v ((i, x) ∷ m) h z = ground (arith, find-append_some j k v m)
