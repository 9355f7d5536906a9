-- ===== src/Exchange.antt =====
-- Exchange.cpp: the destinations by the hash of their type and name (Exchange/Address). `hash_text`
-- is Poco::hash of a string, `to_string` prints a size_t, and
-- `make_destination` is the constructor of Destination, given its type, name and directory. The
-- mutex makes create one step.
pub mod Address
pub mod Create
mod Tests
use tiny_mq.Prelude.{ℕ, Option, none, some, List, [], ◌∷◌, ◌++◌, Bytes}
use tiny_mq.Prelude.Maps.{find, nat_eq}
use tiny_mq.Destination.{DestinationType}
use tiny_mq.Exchange.Address.{hash}

pub record Exchange (D : Type 0) : Type 0 where
  pub destinations : List (ℕ × D)
  pub path : List Bytes

module _ (hash_text : Bytes → ℕ) (to_string : ℕ → Bytes) {D : Type 0}
    (make_destination : DestinationType → Bytes → List Bytes → D) where
  -- emplace of a hash that is not there always inserts, so that the null pointer is never returned.
  unfoldable pub create : DestinationType → Bytes → Exchange D → Exchange D × D
  unfolding hash
  create kind name ex =
      let key = hash hash_text kind name in
      let made = make_destination kind name (ex.path ++ to_string key ∷ []) in
      elim (find key ex.destinations) [
        | some d ↦ (ex, d)
        | none ↦ (record ex { destinations = ex.destinations ++ (key, made) ∷ [] }, made)
      ]
