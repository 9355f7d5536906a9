-- ===== src/Connection.antt =====
-- Connection.cpp, ConnectionFactory.cpp: the life of a connection. Its mutex makes each member
-- function one step. A session is a value of any type, and its end a change of the world of the
-- destinations (Session.close of Session.antt is one).
pub mod Lifecycle
mod Tests
use mathlib.Core.List.{Perm}
use tiny_mq.Prelude.{Bool, true, false, ◌||◌, not, Option, none, some, List, [], ◌∷◌, ◌++◌, Bytes}

-- IllegalStateException, by its texts.
pub data Refusal : Type 0 where
  closed_connection client_id_set connection_used : Refusal

pub data Answer : Type 0 where
  done : Answer
  refused : Refusal → Answer

abbrev pub is_empty {ℓ} : {A : Type ℓ} → List A → Bool
is_empty [] = true
is_empty (x ∷ xs) = false

module _ (Session World Listener : Type 0) where
  -- ~Session, and the order in which std::vector's clear destroys its elements: any one, each of
  -- them once.
  pub record Ending : Type 0 where
    pub end_session : Session → World → World
    pub clear_order : List Session → List Session
    pub clear_order-Perm : (ss : List Session) → Perm (clear_order ss) ss

  pub record Connection : Type 0 where
    pub client_id : Bytes
    pub started : Bool
    pub closed : Bool
    pub exception_listener : Option Listener
    pub sessions : List Session

  -- ConnectionFactory::createConnection.
  abbrev pub new_connection : Connection
  new_connection = record {
    client_id = [];
    started = false;
    closed = false;
    exception_listener = none;
    sessions = [];
  }

  unfoldable pub ensure_open : (Connection → Connection × Answer) → Connection → Connection × Answer
  ensure_open act c = elim (c.closed) [ true ↦ (c, refused closed_connection) | false ↦ act c ]

  unfoldable pub create_session : Session → Connection → Connection × Answer
  unfolding ensure_open
  create_session s = ensure_open (λ c. (record c { sessions = c.sessions ++ s ∷ [] }, done))

  unfoldable pub start : Connection → Connection × Answer
  unfolding ensure_open
  start = ensure_open (λ c. (record c { started = true }, done))

  unfoldable pub stop : Connection → Connection × Answer
  unfolding ensure_open
  stop = ensure_open (λ c. (record c { started = false }, done))

  unfoldable pub set_client_id : Bytes → Connection → Connection × Answer
  unfolding ensure_open
  set_client_id client_id = ensure_open (λ c. elim (is_empty c.client_id) [
    | false ↦ (c, refused client_id_set)
    | true ↦ elim (not (is_empty c.sessions) || c.started) [
      | true ↦ (c, refused connection_used)
      | false ↦ (record c { client_id = client_id }, done)
    ]
  ])

  unfoldable pub set_exception_listener : Listener → Connection → Connection × Answer
  unfolding ensure_open
  set_exception_listener l = ensure_open (λ c. (record c { exception_listener = some l }, done))

  -- ~Session for each session of a list, from the first to the last.
  unfoldable pub end_sessions : (Session → World → World) → List Session → World → World
  end_sessions end_session [] w = w
  end_sessions end_session (s ∷ ss) w = end_sessions end_session ss (end_session s w)

  unfoldable pub close : Ending → Connection × World → Connection × World
  unfolding end_sessions
  close e (c, w) = elim (c.closed) [
    | true ↦ (c, w)
    | false ↦ (
      record c { closed = true; sessions = []; started = false },
      end_sessions e.end_session (e.clear_order c.sessions) w,
    )
  ]

  -- Whether a listener is called, and which.
  unfoldable pub on_exception : Connection → Option Listener
  on_exception c = c.exception_listener

  -- The member functions that change a connection.
  pub data Call : Type 0 where
    call_create_session : Session → Call
    call_start call_stop call_close : Call
    call_set_client_id : Bytes → Call
    call_set_exception_listener : Listener → Call

  unfoldable pub perform : Ending → Call → Connection × World → Connection × World
  unfolding create_session start stop set_client_id set_exception_listener close
  perform e (call_create_session s) (c, w) = ((create_session s c).0, w)
  perform e call_start (c, w) = ((start c).0, w)
  perform e call_stop (c, w) = ((stop c).0, w)
  perform e call_close (c, w) = close e (c, w)
  perform e (call_set_client_id i) (c, w) = ((set_client_id i c).0, w)
  perform e (call_set_exception_listener l) (c, w) = ((set_exception_listener l c).0, w)

  unfoldable pub perform_all : Ending → List Call → Connection × World → Connection × World
  unfolding perform
  perform_all e [] cw = cw
  perform_all e (k ∷ ks) cw = perform_all e ks (perform e k cw)
