-- ===== src/Session.antt =====
-- Session.cpp: a session, the producers and consumers that were created through it, and its
-- transaction id. What it calls on them (Producer.cpp, Consumer.cpp, Destination.cpp) is the
-- interface Endpoints: `World` is the state of the destinations, with the queues of the producers
-- and consumers in it. The maps are visited in the order in which they were filled; the source's
-- hash maps give no order.
pub mod Transaction
mod Tests
use tiny_mq.Prelude.{
  ℕ, ◌==◌, Bool, true, false, ◌≡◌, Option, none, some, List, [], ◌∷◌, ◌++◌, Bytes, if◌then◌else◌,
}
use tiny_mq.Prelude.Maps.{find, erase, nat_eq}
use tiny_mq.Selector.Tokenizer.{codes}
use tiny_mq.Destination.{DestinationType}
use tiny_mq.Consumer.{
  AcknowledgeMode, session_transacted, auto_acknowledge, client_acknowledge, individual_acknowledge,
  dups_ok_acknowledge,
}

-- A call that returns, or leaves by an exception, with the world it leaves.
pub data Outcome {ℓ} (W : Type ℓ) : Type ℓ where
  returned raised : W → Outcome W

abbrev pub after_all {ℓ} : {W : Type ℓ} → Outcome W → (W → Outcome W) → Outcome W
after_all (returned w) k = k w
after_all (raised w) k = raised w

abbrev pub world {ℓ} : {W : Type ℓ} → Outcome W → W
world (returned w) = w
world (raised w) = w

-- How a consumer is asked for: with a selector's text or not, under a subscription name or not.
pub record Request : Type 0 where
  pub destination : ℕ
  pub selector : Option Bytes
  pub subscription : Option Bytes

-- `create_destination` is Exchange::create and createDefaultConsumer of what it returns. It,
-- `create_consumer` and `create_producer` give a null pointer as `none`. `parses` is whether
-- Selector::parse returns.
pub record Endpoints : Type 1 where
  pub World : Type 0
  pub Consumer : Type 0
  pub Producer : Type 0
  pub parses : Bytes → Bool
  pub create_destination : DestinationType → Bytes → World → World × Option ℕ
  pub delete_subscription : ℕ → Bytes → World → World
  pub create_consumer : Request → World → Outcome World × Option (ℕ × Consumer)
  pub create_producer : ℕ → World → World × Option (ℕ × Producer)
  pub delete_consumer : Consumer → World → World
  pub delete_producer : Producer → World → World
  pub commit_producer : Bytes → Producer → World → Outcome World
  pub rollback_producer : Bytes → Producer → World → Outcome World
  pub commit_consumer : Consumer → World → Outcome World
  pub rollback_consumer : Bool → Consumer → World → Outcome World
  pub recover_consumer : Consumer → World → Outcome World

unfoldable pub acknowledge_mode_name : AcknowledgeMode → Bytes
acknowledge_mode_name auto_acknowledge = codes "AUTO_ACKNOWLEDGE"
acknowledge_mode_name session_transacted = codes "SESSION_TRANSACTED"
acknowledge_mode_name client_acknowledge = codes "CLIENT_ACKNOWLEDGE"
acknowledge_mode_name individual_acknowledge = codes "INDIVIDUAL_ACKNOWLEDGE"
acknowledge_mode_name dups_ok_acknowledge = codes "DUPS_OK_ACKNOWLEDGE"

abbrev pub is_transacted : AcknowledgeMode → Bool
is_transacted session_transacted = true
is_transacted auto_acknowledge = false
is_transacted client_acknowledge = false
is_transacted individual_acknowledge = false
is_transacted dups_ok_acknowledge = false

module _ (env : Endpoints) where
  -- `suffix` is the transaction id; the id of the session is only handed out.
  pub record Session : Type 0 where
    pub mode : AcknowledgeMode
    pub suffix : Bytes
    pub id : Bytes
    pub destinations : List ℕ
    pub producers : List (ℕ × env.Producer)
    pub consumers : List (ℕ × env.Consumer)

  -- `fresh` is what the UUID generator gives next.
  unfoldable pub new_session : AcknowledgeMode → Bytes → Bytes → Session
  new_session mode id fresh = record {
    mode = mode;
    suffix = if is_transacted mode then fresh else [];
    id = id;
    destinations = [];
    producers = [];
    consumers = [];
  }

  -- A call on each of the map's values; an exception ends it.
  unfoldable pub each :
      {A : Type 0}
      → (A → env.World → Outcome env.World)
      → List (ℕ × A)
      → env.World
      → Outcome env.World
  each f [] w = returned w
  each f ((k, a) ∷ m) w = after_all (f a w) (λ w'. each f m w')

  -- Both loops and the new id; after an exception the id stays empty.
  unfoldable pub end_transaction :
      (Bytes → env.Producer → env.World → Outcome env.World)
      → (env.Consumer → env.World → Outcome env.World)
      → Bytes
      → Session × env.World
      → Session × Outcome env.World
  unfolding each
  end_transaction on_producer on_consumer fresh (s, w) =
      elim (after_all (each (on_producer s.suffix) s.producers w)
        (λ w'. each on_consumer s.consumers w')) [
          | returned w' ↦ (record s { suffix = fresh }, returned w')
          | raised w' ↦ (record s { suffix = [] }, raised w')
        ]

  unfoldable pub commit : Bytes → Session × env.World → Session × Outcome env.World
  unfolding end_transaction
  commit = end_transaction env.commit_producer env.commit_consumer

  unfoldable pub rollback : Bool → Bytes → Session × env.World → Session × Outcome env.World
  unfolding end_transaction
  rollback session_closing =
      end_transaction env.rollback_producer (env.rollback_consumer session_closing)

  -- `true` is IllegalStateException.
  unfoldable pub recover : Session × env.World → Bool × Outcome env.World
  unfolding each
  recover (s, w) =
      if is_transacted s.mode
      then (true, returned w)
      else (false, each env.recover_consumer s.consumers w)

  -- emplace of a new key
  abbrev pub add_consumer : Option (ℕ × env.Consumer) → Session → Session
  add_consumer none s = s
  add_consumer (some kc) s = record s { consumers = s.consumers ++ kc ∷ [] }

  abbrev pub add_producer : Option (ℕ × env.Producer) → Session → Session
  add_producer none s = s
  add_producer (some kp) s = record s { producers = s.producers ++ kp ∷ [] }

  abbrev pub is_valid : Option Bytes → Bool
  is_valid none = true
  is_valid (some text) = env.parses text

  -- The four kinds of consumer. The selector is parsed before anything else.
  unfoldable pub create_consumer : Request → Session × env.World → Session × Outcome env.World
  create_consumer r (s, w) =
      if is_valid r.selector
      then (elim ((env.create_consumer r w).0) [
        | returned w' ↦ (add_consumer (env.create_consumer r w).1 s, returned w')
        | raised w' ↦ (s, raised w')
      ])
      else (s, raised w)

  abbrev pub add_destination : Option ℕ → Session → Session
  add_destination none s = s
  add_destination (some d) s = record s { destinations = s.destinations ++ d ∷ [] }

  unfoldable pub create_destination :
      DestinationType → Bytes → Session × env.World → Session × env.World
  create_destination kind name (s, w) =
      let (w', found) = env.create_destination kind name w in (add_destination found s, w')

  unfoldable pub unsubscribe : ℕ → Bytes → Session × env.World → Session × env.World
  unsubscribe destination name (s, w) = (s, env.delete_subscription destination name w)

  unfoldable pub create_producer : ℕ → Session × env.World → Session × env.World
  create_producer destination (s, w) =
      let (w', made) = env.create_producer destination w in (add_producer made s, w')

  unfoldable pub delete_consumer : ℕ → Session × env.World → Session × env.World
  delete_consumer id (s, w) = elim (find id s.consumers) [
    | none ↦ (s, w)
    | some c ↦ (record s { consumers = erase id s.consumers }, env.delete_consumer c w)
  ]

  unfoldable pub delete_producer : ℕ → Session × env.World → Session × env.World
  delete_producer id (s, w) = elim (find id s.producers) [
    | none ↦ (s, w)
    | some p ↦ (record s { producers = erase id s.producers }, env.delete_producer p w)
  ]

  unfoldable pub delete_all :
      {A : Type 0} → (A → env.World → env.World) → List (ℕ × A) → env.World → env.World
  delete_all f [] w = w
  delete_all f ((k, a) ∷ m) w = delete_all f m (f a w)

  -- ~Session: an exception of the rollback is swallowed.
  unfoldable pub close : Bytes → Session → env.World → env.World
  unfolding rollback delete_all
  close fresh s w =
      delete_all env.delete_producer s.producers
        (delete_all env.delete_consumer s.consumers (world (rollback true fresh (s, w)).1))
