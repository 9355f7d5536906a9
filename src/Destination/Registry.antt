-- ===== src/Destination/Registry.antt =====
-- Destination.cpp: how the durable subscriptions, the consumers and the map between them fit
-- together.
use tiny_mq.Prelude.{ℕ, ◌≡◌, ◌≢◌, sym, ap, ◌∙◌, none, some, List, [], ◌∷◌, ◌++◌, inl, inr, Bytes}
use tiny_mq.Prelude.Maps.{
  find, insert, erase, nat_eq, bytes_key, insert-cases, erase-cases, append-cases,
  find-append_keeps, find-append_new, find-insert_same, find-insert_other, find-erase_other,
  some_injective, none_differs, find-append_some, find-append_found,
}
use tiny_mq.Destination.{Endpoint, DurableSub}

abbrev pub Subs : Type 0
Subs = List (Bytes × DurableSub)

abbrev pub Links : Type 0
Links = List (ℕ × Bytes)

abbrev pub Endpoints : Type 0
Endpoints = List (ℕ × Endpoint)

-- The subscription of a key is that of the consumer `id`.
abbrev pub HeldBy : Subs → Bytes → ℕ → Type 0
HeldBy subs key id = (sub : DurableSub) × (find key subs ≡ some sub) × (sub.active ≡ id)

-- Every subscription with a consumer is linked to it, and every link leads from a consumer that is
-- there to a subscription whose consumer it is.
pub record Consistent (subs : Subs) (links : Links) (consumers : Endpoints) : Type 0 where
  pub registered :
      (key : Bytes) (sub : DurableSub)
      → find key subs ≡ some sub
      → sub.active ≢ 0
      → find sub.active links ≡ some key
  pub held : (id : ℕ) (key : Bytes) → find id links ≡ some key → HeldBy subs key id
  pub named : (id : ℕ) (key : Bytes) → find id links ≡ some key → id ≢ 0
  pub connected : (id : ℕ) (key : Bytes) → find id links ≡ some key → find id consumers ≢ none

-- Nobody holds the subscription, if it is there at all.
abbrev pub Free : Subs → Bytes → Type 0
Free subs key = (sub : DurableSub) → find key subs ≡ some sub → sub.active ≡ 0

pub attach-Consistent :
    (subs : Subs) (links : Links) (consumers : Endpoints) (key : Bytes) (id : ℕ) (sub : DurableSub)
    (c : Endpoint)
    → Consistent subs links consumers
    → Free subs key
    → id ≢ 0
    → find id links ≡ none
    → sub.active ≡ id
    → Consistent (insert key sub subs) (links ++ (id, key) ∷ []) (consumers ++ (id, c) ∷ [])
attach-Consistent subs links consumers key id sub c h free nonzero fresh active = record {
  registered = λ key' sub' e a. elim (insert-cases key' key sub sub' subs e) [
    | inl (k, s) ↦
        ap (λ j. find j (links ++ (id, key) ∷ [])) (sym (ap (λ x. x.active) s) ∙ active)
        ∙ (find-append_new id key links fresh ∙ ap some k)
    | inr (k, s) ↦ find-append_keeps sub'.active id key key' links (h.registered key' sub' s a)
  ];
  held = λ id' key' e. elim (append-cases id' id key key' links e) [
    | inl old ↦
        let (sub', s, a) = h.held id' key' old in
        let other : key ≢ key' =
          λ k. h.named id' key' old (sym a ∙ free sub' (ap (λ x. find x subs) k ∙ s)) in
        (sub', find-insert_other key' key sub subs other ∙ s, a)
    | inr (_, i, k) ↦ (
      sub,
      ap (λ x. find x (insert key sub subs)) (sym k) ∙ find-insert_same key sub subs,
      active ∙ i,
    )
  ];
  named = λ id' key' e. elim (append-cases id' id key key' links e) [
    | inl old ↦ h.named id' key' old
    | inr (_, i, k) ↦ λ z. nonzero (i ∙ z)
  ];
  connected = λ id' key' e. elim (append-cases id' id key key' links e) [
    | inl old ↦ find-append_some id' id c consumers (h.connected id' key' old)
    | inr (_, i, k) ↦
        λ z. find-append_found id c consumers (ap (λ x. find x (consumers ++ (id, c) ∷ [])) i ∙ z)
  ];
}

-- A consumer without a link goes.
pub erase-Consistent :
    (subs : Subs) (links : Links) (consumers : Endpoints) (id : ℕ)
    → Consistent subs links consumers
    → find id links ≡ none
    → Consistent subs links (erase id consumers)
erase-Consistent subs links consumers id h fresh = record {
  registered = h.registered;
  held = h.held;
  named = h.named;
  connected = λ id' key e z.
      let other : id ≢ id' = λ i. none_differs (sym fresh ∙ (ap (λ x. find x links) i ∙ e)) in
      h.connected id' key e (sym (find-erase_other id' id consumers other) ∙ z);
}

-- The consumer of a subscription goes, and the subscription is offline.
pub offline-Consistent :
    (subs : Subs) (links : Links) (consumers : Endpoints) (id : ℕ) (key : Bytes) (sub : DurableSub)
    → Consistent subs links consumers
    → find id links ≡ some key
    → sub.active ≡ 0
    → Consistent (insert key sub subs) (erase id links) (erase id consumers)
offline-Consistent subs links consumers id key sub h link zero_ = record {
  registered = λ key' sub' e a. elim (insert-cases key' key sub sub' subs e) [
    | inl (k, s) ↦ absurd (a (sym (ap (λ x. x.active) s) ∙ zero_))
    | inr (k, s) ↦
        let linked = h.registered key' sub' s a in
        let other : id ≢ sub'.active =
          λ i. k (some_injective (sym link ∙ (ap (λ x. find x links) i ∙ linked))) in
        find-erase_other sub'.active id links other ∙ linked
  ];
  held = λ id' key' e.
      let (i, old) = erase-cases id' id key' links e in
      let (sub', s, a) = h.held id' key' old in
      let (sub1, s1, a1) = h.held id key link in
      let other : key ≢ key' = λ k. i (
        sym a1
        ∙ (ap (λ x. x.active) (some_injective (sym s1 ∙ (ap (λ x. find x subs) k ∙ s))) ∙ a)) in
      (sub', find-insert_other key' key sub subs other ∙ s, a);
  named = λ id' key' e. h.named id' key' (erase-cases id' id key' links e).1;
  connected = λ id' key' e z.
      let (i, old) = erase-cases id' id key' links e in
      h.connected id' key' old (sym (find-erase_other id' id consumers i) ∙ z);
}

-- A subscription that nobody holds goes.
pub unsubscribe-Consistent :
    (subs : Subs) (links : Links) (consumers : Endpoints) (key : Bytes)
    → Consistent subs links consumers
    → Free subs key
    → Consistent (erase key subs) links consumers
unsubscribe-Consistent subs links consumers key h free = record {
  registered = λ key' sub' e a. h.registered key' sub' (erase-cases key' key sub' subs e).1 a;
  held = λ id' key' e.
      let (sub', s, a) = h.held id' key' e in
      let other : key ≢ key' =
        λ k. h.named id' key' e (sym a ∙ free sub' (ap (λ x. find x subs) k ∙ s)) in
      (sub', find-erase_other key' key subs other ∙ s, a);
  named = h.named;
  connected = h.connected;
}

-- A consumer comes that holds no subscription.
pub join-Consistent :
    (subs : Subs) (links : Links) (consumers : Endpoints) (id : ℕ) (c : Endpoint)
    → Consistent subs links consumers
    → Consistent subs links (consumers ++ (id, c) ∷ [])
join-Consistent subs links consumers id c h = record {
  registered = h.registered;
  held = h.held;
  named = h.named;
  connected = λ id' key e. find-append_some id' id c consumers (h.connected id' key e);
}

pub empty-Consistent : Consistent [] [] []
unfolding find
empty-Consistent = record {
  registered = λ key sub e a. absurd (none_differs e);
  held = λ id key e. absurd (none_differs e);
  named = λ id key e. absurd (none_differs e);
  connected = λ id key e. absurd (none_differs e);
}
