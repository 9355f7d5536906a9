-- ===== src/Session/Tests.antt =====
-- A world of destinations that keeps the ids of its consumers and producers and a trace of the
-- calls, and the theorems on sessions in it.
use tiny_mq.Prelude.{ℕ, ◌==◌, ◌≡◌, true, none, List, [], ◌∷◌, ◌++◌, if◌then◌else◌}
use tiny_mq.Consumer.{session_transacted}
use tiny_mq.Session.{returned, raised, Endpoints, Session, end_transaction}
use tiny_mq.Session.Transaction.{Each, end_transaction-Each}

pub record World : Type 0 where
  pub consumers : List ℕ
  pub producers : List ℕ
  pub trace : List ℕ

abbrev pub without : ℕ → List ℕ → List ℕ
without i [] = []
without i (x ∷ xs) = let rest = without i xs in if x == i then rest else x ∷ rest

abbrev pub log : ℕ → World → World
log n w = record w { trace = w.trace ++ n ∷ [] }

abbrev pub endpoints : Endpoints
endpoints = record {
  World = World;
  Consumer = ℕ;
  Producer = ℕ;
  parses = λ text. true;
  create_destination = λ kind name w. (w, none);
  delete_subscription = λ d name w. w;
  create_consumer = λ r w. (returned w, none);
  create_producer = λ d w. (w, none);
  delete_consumer = λ c w. record w { consumers = without c w.consumers };
  delete_producer = λ p w. record w { producers = without p w.producers };
  commit_producer = λ id p w. returned (log p w);
  rollback_producer = λ id p w. returned (log p w);
  commit_consumer = λ c w. returned (log c w);
  rollback_consumer = λ closing c w. raised w;
  recover_consumer = λ c w. returned (log c w);
}

abbrev session : Session endpoints
session = record {
  mode = session_transacted;
  suffix = 1 ∷ [];
  id = 2 ∷ [];
  destinations = [];
  producers = (7, 7) ∷ [];
  consumers = (8, 8) ∷ (9, 9) ∷ [];
}

abbrev start : World
start = record { consumers = 8 ∷ 5 ∷ 9 ∷ []; producers = 7 ∷ []; trace = [] }

abbrev committed : World
committed = record start { trace = 7 ∷ 8 ∷ 9 ∷ [] }

end_transaction-Each_example :
    ((end_transaction endpoints endpoints.commit_producer endpoints.commit_consumer
          (3 ∷ [])
          (session, start)).1
        ≡ returned committed
      → (v : World) × Each (endpoints.commit_producer session.suffix) session.producers start v
        × Each endpoints.commit_consumer session.consumers v committed
        × ((end_transaction endpoints endpoints.commit_producer endpoints.commit_consumer
              (3 ∷ [])
              (session, start)).0
            ≡ record session { suffix = 3 ∷ [] }))
    × ((end_transaction endpoints endpoints.commit_producer endpoints.commit_consumer
            (3 ∷ [])
            (session, start)).1
          ≡ raised committed
        → (end_transaction endpoints endpoints.commit_producer endpoints.commit_consumer
            (3 ∷ [])
            (session, start)).0
          ≡ record session { suffix = [] })
end_transaction-Each_example =
    end_transaction-Each endpoints endpoints.commit_producer endpoints.commit_consumer (3 ∷ [])
      session start committed
