-- ===== src/Exchange/Create.antt =====
-- Which destination a session gets under a type and a name, of Exchange.cpp and DestinationHash.cpp.
use tiny_mq.Prelude.{
  ℕ, ◌≡◌, ◌≢◌, refl, ap, ◌∙◌, subst, arith, ==_iff, none, some, List, [], ◌∷◌, ◌++◌, Bytes, inl,
  inr, Option-cases,
}
use tiny_mq.Prelude.Maps.{find, nat_eq, find-append_keeps, find-append_new}
use tiny_mq.Destination.{DestinationType}
use tiny_mq.Exchange.Address.{type_name, address, hash}
use tiny_mq.Exchange.{Exchange, create}

find-append_other :
    {V : Type 0} (j k : ℕ) (v : V) (m : List (ℕ × V)) → k ≢ j → find j (m ++ (k, v) ∷ []) ≡ find j m
unfolding find
find-append_other j k v [] h = ground (arith, ==_iff k j)
find-append_other j k v ((i, x) ∷ m) h = ground (arith, find-append_other j k v m h)

-- No two addresses are the same: a type's name has no colon and is not the start of another's.
pub address_injective :
    (k l : DestinationType) (m n : Bytes) → address k m ≡ address l n → (k ≡ l) × (m ≡ n)
unfolding address type_name
address_injective k l m n h = ground arith

module _ (hash_text : Bytes → ℕ) (to_string : ℕ → Bytes) {D : Type 0}
    (make_destination : DestinationType → Bytes → List Bytes → D) where
  -- Whether the exchange has the hash already or not, it has it after create, for the result.
  find-create :
      (k : DestinationType) (n : Bytes) (ex : Exchange D)
      → find
          (hash hash_text k n)
          (create hash_text to_string make_destination k n ex).0.destinations
        ≡ some (create hash_text to_string make_destination k n ex).1
  unfolding create
  find-create k n ex = elim (Option-cases (find (hash hash_text k n) ex.destinations)) [
    | inl h ↦ rw (create, h) (find-append_new (hash hash_text k n) _ ex.destinations h)
    | inr (d, h) ↦ rw (create, h) h
  ]

  create_found :
      (k : DestinationType) (n : Bytes) (ex : Exchange D) (d : D)
      → find (hash hash_text k n) ex.destinations ≡ some d
      → create hash_text to_string make_destination k n ex ≡ (ex, d)
  unfolding create
  create_found k n ex d h = rw (create, h) refl

  find-create_keeps :
      (l : DestinationType) (n : Bytes) (ex : Exchange D) (j : ℕ) (d : D)
      → find j ex.destinations ≡ some d
      → find j (create hash_text to_string make_destination l n ex).0.destinations ≡ some d
  unfolding create
  find-create_keeps l n ex j d h = elim (Option-cases (find (hash hash_text l n) ex.destinations)) [
    | inl e ↦ rw (create, e) (find-append_keeps j (hash hash_text l n) _ d ex.destinations h)
    | inr (x, e) ↦ rw (create, e) h
  ]

  create_missing :
      (k : DestinationType) (n : Bytes) (ex : Exchange D)
      → find (hash hash_text k n) ex.destinations ≡ none
      → (create hash_text to_string make_destination k n ex).1
        ≡ make_destination k n (ex.path ++ to_string (hash hash_text k n) ∷ [])
  unfolding create
  create_missing k n ex h = rw (create, h) refl

  path-create :
      (k : DestinationType) (n : Bytes) (ex : Exchange D)
      → (create hash_text to_string make_destination k n ex).0.path ≡ ex.path
  unfolding create
  path-create k n ex = elim (Option-cases (find (hash hash_text k n) ex.destinations)) [
    | inl h ↦ rw (create, h) refl
    | inr (d, h) ↦ rw (create, h) refl
  ]

  none_stays :
      (k : DestinationType) (m : Bytes) (j : ℕ) (ex : Exchange D)
      → hash hash_text k m ≢ j
      → find j ex.destinations ≡ none
      → find j (create hash_text to_string make_destination k m ex).0.destinations ≡ none
  unfolding create
  none_stays k m j ex e h = elim (Option-cases (find (hash hash_text k m) ex.destinations)) [
    | inl f ↦ rw (create, f) (find-append_other j (hash hash_text k m) _ ex.destinations e ∙ h)
    | inr (x, f) ↦ rw (create, f) h
  ]

  create_new :
      (k l : DestinationType) (m n : Bytes) (ex : Exchange D)
      → hash hash_text k m ≢ hash hash_text l n
      → find (hash hash_text l n) ex.destinations ≡ none
      → (create hash_text to_string make_destination l n
          (create hash_text to_string make_destination k m ex).0).1
        ≡ make_destination l n (ex.path ++ to_string (hash hash_text l n) ∷ [])
  create_new k l m n ex e h =
      let ex1 = (create hash_text to_string make_destination k m ex).0 in
      create_missing l n ex1 (none_stays k m (hash hash_text l n) ex e h)
      ∙ ap (λ p. make_destination l n (p ++ to_string (hash hash_text l n) ∷ []))
          (path-create k m ex)

  -- After a create, one under a type and name of the same hash, which are the same type and name or
  -- collide with them, returns the destination of the first and leaves the exchange as it is; and
  -- one under any type and name keeps that destination under its hash. Where the hashes differ and
  -- the exchange had none of the second, the second is made of its own type and name.
  pub create-create :
      (k l : DestinationType) (m n : Bytes) (ex : Exchange D)
      → let (ex1, d) = create hash_text to_string make_destination k m ex in
        let (ex2, d') = create hash_text to_string make_destination l n ex1 in
        (hash hash_text k m ≡ hash hash_text l n → (ex2 ≡ ex1) × (d' ≡ d))
        × (find (hash hash_text k m) ex2.destinations ≡ some d)
        × (hash hash_text k m ≢ hash hash_text l n
            → find (hash hash_text l n) ex.destinations ≡ none
            → d' ≡ make_destination l n (ex.path ++ to_string (hash hash_text l n) ∷ []))
  create-create k l m n ex =
      let (ex1, d) = create hash_text to_string make_destination k m ex in
      (
        λ e.
            let again =
              create_found l n ex1 d
                (subst (λ h. find h ex1.destinations ≡ some d) e (find-create k m ex)) in
            (ap (λ x. x.0) again, ap (λ x. x.1) again),
        find-create_keeps l n ex1 (hash hash_text k m) d (find-create k m ex),
        λ e h. create_new k l m n ex e h,
      )
