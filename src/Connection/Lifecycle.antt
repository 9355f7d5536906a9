-- ===== src/Connection/Lifecycle.antt =====
-- Sequences of calls on a connection, of Connection.cpp.
use mathlib.Core.List.{Perm}
use mathlib.Core.List.Perm
use tiny_mq.Prelude.{
  subst, ◌≡◌, ◌⊎◌, inl, inr, Bool-cases, ◌||◌, refl, sym, ◌∙◌, arith, Bool, true, false, List, [],
  ◌∷◌, ◌++◌, append-nil, append_assoc, if◌then◌else◌,
}
use tiny_mq.Connection.{
  Connection, is_empty, ensure_open, create_session, start, stop, set_client_id,
  set_exception_listener, end_sessions, close, Ending, Call, call_create_session, call_start,
  call_stop, call_close, call_set_client_id, call_set_exception_listener, perform, perform_all,
}

filled-append : {A : Type 0} (xs : List A) (x : A) → is_empty (xs ++ x ∷ []) ≡ false
filled-append [] x = refl
filled-append (y ∷ xs) x = refl

module _ {Session World Listener : Type 0} where
  abbrev pub is_close : Call Session World Listener → Bool
  is_close call_close = true
  is_close (call_create_session s) = false
  is_close call_start = false
  is_close call_stop = false
  is_close (call_set_client_id i) = false
  is_close (call_set_exception_listener l) = false

  abbrev pub added : Call Session World Listener → List Session
  added (call_create_session s) = s ∷ []
  added call_close = []
  added call_start = []
  added call_stop = []
  added (call_set_client_id i) = []
  added (call_set_exception_listener l) = []

  -- Whether there is a close, and the sessions that are created before the first.
  abbrev pub closes : List (Call Session World Listener) → Bool
  closes [] = false
  closes (k ∷ ks) = is_close k || closes ks

  abbrev pub created : List (Call Session World Listener) → List Session
  created [] = []
  created (k ∷ ks) = let rest = created ks in if is_close k then [] else added k ++ rest

module _ {Session World Listener : Type 0} (e : Ending Session World Listener) where
  -- The client id can no longer be set: it is set, or the connection has a session, or is closed.
  abbrev pub IsFixed : Connection Session World Listener → Type 0
  IsFixed c = (is_empty c.client_id ≡ false) ⊎ (is_empty c.sessions ≡ false) ⊎ (c.closed ≡ true)

  perform-IsFixed :
      (k : Call Session World Listener) (c : Connection Session World Listener) (w : World)
      → IsFixed c
      → ((perform Session World Listener e k (c, w)).0.client_id ≡ c.client_id)
        × IsFixed (perform Session World Listener e k (c, w)).0
  unfolding perform ensure_open create_session start stop set_client_id set_exception_listener close
  perform-IsFixed (call_create_session s) c w h = ground (arith, filled-append c.sessions s)
  perform-IsFixed call_start c w h = ground arith
  perform-IsFixed call_stop c w h = ground arith
  perform-IsFixed call_close c w h = ground arith
  perform-IsFixed (call_set_client_id i) c w h = ground arith
  perform-IsFixed (call_set_exception_listener l) c w h = ground arith

  -- Whatever is called on a connection whose client id is set, or that has a session, or that is
  -- closed, its client id stays the same.
  pub perform_all-client_id :
      (ks : List (Call Session World Listener)) (c : Connection Session World Listener) (w : World)
      → IsFixed c
      → (perform_all Session World Listener e ks (c, w)).0.client_id ≡ c.client_id
  unfolding perform_all
  perform_all-client_id [] c w h = refl
  perform_all-client_id (k ∷ ks) c w h =
      let (c', w') = perform Session World Listener e k (c, w) in
      let (same, h') = perform-IsFixed k c w h in perform_all-client_id ks c' w' h' ∙ same

  perform-closed :
      (k : Call Session World Listener) (c : Connection Session World Listener) (w : World)
      → c.closed ≡ true
      → perform Session World Listener e k (c, w) ≡ (c, w)
  unfolding perform ensure_open create_session start stop set_client_id set_exception_listener close
  perform-closed k c w h = ground arith

  perform_all-closed :
      (ks : List (Call Session World Listener)) (c : Connection Session World Listener) (w : World)
      → c.closed ≡ true
      → perform_all Session World Listener e ks (c, w) ≡ (c, w)
  unfolding perform_all
  perform_all-closed [] c w h = refl
  perform_all-closed (k ∷ ks) c w h = rw (perform-closed k c w h) (perform_all-closed ks c w h)

  perform-open :
      (k : Call Session World Listener) (c : Connection Session World Listener) (w : World)
      → c.closed ≡ false
      → is_close k ≡ false
      → ((perform Session World Listener e k (c, w)).0.closed ≡ false)
        × ((perform Session World Listener e k (c, w)).0.sessions ≡ c.sessions ++ added k)
        × ((perform Session World Listener e k (c, w)).1 ≡ w)
  unfolding perform ensure_open create_session start stop set_client_id set_exception_listener close
  perform-open k c w h i = ground (arith, append-nil c.sessions)

  perform-close :
      (k : Call Session World Listener) (c : Connection Session World Listener) (w : World)
      → c.closed ≡ false
      → is_close k ≡ true
      → ((perform Session World Listener e k (c, w)).0.closed ≡ true)
        × ((perform Session World Listener e k (c, w)).0.sessions ≡ [])
        × ((perform Session World Listener e k (c, w)).0.started ≡ false)
        × ((perform Session World Listener e k (c, w)).1
            ≡ end_sessions Session World Listener e.end_session (e.clear_order c.sessions) w)
  unfolding perform close
  perform-close k c w h i = ground arith

  -- Calls on an open connection leave it closed exactly when one of them is close. Then it has no
  -- session, and each that it had or that was created before the first close has ended once, in some
  -- order, and no other; else it has those sessions, and none has ended.
  pub perform_all-created :
      (ks : List (Call Session World Listener)) (c : Connection Session World Listener) (w : World)
      → c.closed ≡ false
      → ((perform_all Session World Listener e ks (c, w)).0.closed ≡ closes ks)
        × ((perform_all Session World Listener e ks (c, w)).0.sessions
            ≡ (if closes ks then [] else c.sessions ++ created ks))
        × ((ended : List Session) × Perm ended (c.sessions ++ created ks)
            × ((perform_all Session World Listener e ks (c, w)).1 ≡ (
                if closes ks
                then end_sessions Session World Listener e.end_session ended w
                else w)))
  unfolding perform_all
  perform_all-created [] c w h =
      (h, sym (append-nil c.sessions), (c.sessions ++ [], Perm.refl (c.sessions ++ []), refl))
  perform_all-created (k ∷ ks) c w h = elim (Bool-cases (is_close k)) [
    | inl i ↦
        let (a, b, d, f) = perform-close k c w h i in
        let (c', w') = perform Session World Listener e k (c, w) in
        rw (i, perform_all-closed ks c' w' a)
          (
            a,
            b,
            (
              e.clear_order c.sessions,
              rw (append-nil c.sessions) (e.clear_order-Perm c.sessions),
              f,
            ),
          )
    | inr i ↦
        let (a, b, d) = perform-open k c w h i in
        let (c', w') = perform Session World Listener e k (c, w) in
        let (x, y, (ended, p, z)) = perform_all-created ks c' w' a in
        rw (i, ← append_assoc c.sessions (added k) (created ks))
          (
            x,
            y ∙ rw b refl,
            (ended, subst (λ ss. Perm ended (ss ++ created ks)) b p, z ∙ rw d refl),
          )
  ]
