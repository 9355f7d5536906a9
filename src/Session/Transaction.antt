-- ===== src/Session/Transaction.antt =====
-- commit, rollback and recover of Session.cpp, as the calls that they make.
use tiny_mq.Prelude.{
  ℕ, ◌≡◌, refl, sym, ap, ◌∙◌, subst, arith, Bool, true, false, List, [], ◌∷◌, Bytes, inl, inr, ◌⊎◌,
}
use tiny_mq.Session.{
  Outcome, returned, raised, after_all, world, Endpoints, Session, is_transacted, each,
  end_transaction, recover,
}

-- Every call of the list returns, each in the world that the one before it left.
pub data Each {A W : Type 0} (f : A → W → Outcome W) : List (ℕ × A) → W → W → Type 0 where
  done : {w : W} → Each f [] w w
  next :
      {k : ℕ} {a : A} {m : List (ℕ × A)} {w v u : W}
      → f a w ≡ returned v
      → Each f m v u
      → Each f ((k, a) ∷ m) w u

Outcome-cases :
    {W : Type 0} (o : Outcome W) → ((w : W) × (o ≡ returned w)) ⊎ ((w : W) × (o ≡ raised w))
Outcome-cases (returned w) = inl (w, refl)
Outcome-cases (raised w) = inr (w, refl)

returned_injective : {W : Type 0} {w v : W} → returned w ≡ returned v → w ≡ v
returned_injective h = ap world h

differs : {W : Type 0} {w v : W} → raised w ≡ returned v → ⊥
differs h = ground arith

module _ (env : Endpoints) where
  each-Each :
      {A : Type 0} (f : A → env.World → Outcome env.World) (m : List (ℕ × A)) (w u : env.World)
      → each env f m w ≡ returned u
      → Each f m w u
  unfolding each
  each-Each f [] w u h = subst (Each f [] w) (returned_injective h) done
  each-Each f ((k, a) ∷ m) w u h = elim (Outcome-cases (f a w)) [
    | inl (v, e) ↦ next e (each-Each f m v u (sym (rw e refl) ∙ h))
    | inr (v, e) ↦ absurd (differs {w = v} {v = u} (sym (rw e refl) ∙ h))
  ]

  after_all-returned :
      (o : Outcome env.World) (k : env.World → Outcome env.World) (u : env.World)
      → after_all o k ≡ returned u
      → (v : env.World) × (o ≡ returned v) × (k v ≡ returned u)
  after_all-returned (returned v) k u h = (v, refl, h)
  after_all-returned (raised v) k u h = absurd (ground arith)

  -- The end of a transaction that returns has called every producer with the transaction's id, then
  -- every consumer, each in the world that the call before it left, and the session has the fresh
  -- id, whatever its mode; one that leaves by an exception leaves the session with an empty id.
  -- Nothing else of the session changes.
  pub end_transaction-Each :
      (f : Bytes → env.Producer → env.World → Outcome env.World)
      (g : env.Consumer → env.World → Outcome env.World) (fresh : Bytes) (s : Session env)
      (w u : env.World)
      → ((end_transaction env f g fresh (s, w)).1 ≡ returned u
          → (v : env.World) × Each (f s.suffix) s.producers w v
            × Each g s.consumers v u
            × ((end_transaction env f g fresh (s, w)).0 ≡ record s { suffix = fresh }))
        × ((end_transaction env f g fresh (s, w)).1 ≡ raised u
            → (end_transaction env f g fresh (s, w)).0 ≡ record s { suffix = [] })
  unfolding end_transaction
  end_transaction-Each f g fresh s w u =
      elim (Outcome-cases
        (after_all (each env (f s.suffix) s.producers w) (λ w'. each env g s.consumers w'))) [
          | inl (x, e) ↦
              let (v, p, q) =
                after_all-returned (each env (f s.suffix) s.producers w)
                  (λ w'. each env g s.consumers w') x e in
              (
                λ h.
                    let same : x ≡ u =
                      returned_injective (sym (rw (end_transaction, e) refl) ∙ h) in
                    (
                      v,
                      each-Each (f s.suffix) s.producers w v p,
                      each-Each g s.consumers v u (q ∙ ap returned same),
                      rw (end_transaction, e) refl,
                    ),
                λ h. absurd (differs {w = u} {v = x} (sym h ∙ rw (end_transaction, e) refl)),
              )
          | inr (x, e) ↦ (
            λ h. absurd (differs {w = x} {v = u} (sym (rw (end_transaction, e) refl) ∙ h)),
            λ h. rw (end_transaction, e) refl,
          )
        ]

  recover_open :
      (s : Session env) (w : env.World) {r : Bool × Outcome env.World}
      → is_transacted s.mode ≡ false
      → recover env (s, w) ≡ r
      → (false, each env env.recover_consumer s.consumers w) ≡ r
  unfolding recover
  recover_open s w t h = sym (rw (recover, t) refl) ∙ h

  -- recover is refused on a transacted session, and the world is as it was; on any other, one that
  -- returns has called every consumer, each in the world that the call before it left.
  pub recover-Each :
      (s : Session env) (w u : env.World)
      → (is_transacted s.mode ≡ true → recover env (s, w) ≡ (true, returned w))
        × (is_transacted s.mode ≡ false
            → recover env (s, w) ≡ (false, returned u)
            → Each env.recover_consumer s.consumers w u)
  unfolding recover
  recover-Each s w u = (
    λ t. rw t refl,
    λ t h. each-Each env.recover_consumer s.consumers w u (ap (λ x. x.1) (recover_open s w t h)),
  )
