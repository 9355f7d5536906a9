-- ===== src/Connection/Tests.antt =====
-- Calls on a connection whose sessions are numbers and whose world lists the ended ones.
use mathlib.Core.List.{Perm, reverse, reverse_perm}
use tiny_mq.Prelude.{ℕ, ◌≡◌, refl, List, [], ◌∷◌, ◌++◌, if◌then◌else◌}
use tiny_mq.Connection.{
  Connection, new_connection, Call, call_create_session, call_start, call_close, call_set_client_id,
  perform_all, end_sessions, Ending,
}
use tiny_mq.Connection.Lifecycle.{closes, created, perform_all-created}

abbrev Start : Type 0
Start = Connection ℕ (List ℕ) ℕ

abbrev start : Start
start = new_connection ℕ (List ℕ) ℕ

-- A clear from the last element to the first.
abbrev ends : Ending ℕ (List ℕ) ℕ
ends = record {
  end_session = λ s w. w ++ s ∷ [];
  clear_order = reverse;
  clear_order-Perm = reverse_perm;
}

abbrev calls : List (Call ℕ (List ℕ) ℕ)
calls =
    call_set_client_id (65 ∷ [])
    ∷ call_create_session 1
    ∷ call_start
    ∷ call_create_session 2
    ∷ call_close
    ∷ call_create_session 3
    ∷ []

-- What the calls end: the two sessions created before close.
ended : (perform_all ℕ (List ℕ) ℕ ends calls (start, [])).1 ≡ 2 ∷ 1 ∷ []
unfolding perform_all
ended = refl

perform_all-created_example :
    ((perform_all ℕ (List ℕ) ℕ ends calls (start, [])).0.closed ≡ closes calls)
    × ((perform_all ℕ (List ℕ) ℕ ends calls (start, [])).0.sessions
        ≡ (if closes calls then [] else start.sessions ++ created calls))
    × ((ended : List ℕ) × Perm ended (start.sessions ++ created calls)
        × ((perform_all ℕ (List ℕ) ℕ ends calls (start, [])).1
            ≡ (if closes calls then end_sessions ℕ (List ℕ) ℕ ends.end_session ended [] else [])))
perform_all-created_example = perform_all-created ends calls start [] refl
