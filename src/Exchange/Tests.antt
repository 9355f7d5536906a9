-- ===== src/Exchange/Tests.antt =====
-- An exchange whose destinations are the type and name that they were made of.
use tiny_mq.Prelude.{ℕ, ◌≡◌, ◌≢◌, refl, none, some, List, [], ◌∷◌, ◌++◌, Bytes, length}
use tiny_mq.Prelude.Maps.{find, nat_eq}
use tiny_mq.Destination.{DestinationType, queue, topic}
use tiny_mq.Exchange.Address.{hash}
use tiny_mq.Exchange.{Exchange, create}
use tiny_mq.Exchange.Create.{create-create}

abbrev D : Type 0
D = DestinationType × Bytes

abbrev ex : Exchange D
ex = record { destinations = []; path = (47 ∷ []) ∷ [] }

abbrev size : Bytes → ℕ
size bs = length bs

abbrev a : Bytes
a = 97 ∷ []

abbrev b : Bytes
b = 98 ∷ 98 ∷ []

abbrev make : DestinationType → Bytes → List Bytes → D
make k n path = (k, n)

abbrev print : ℕ → Bytes
print n = n ∷ []

create-create_example :
    let (ex1, d) = create size print make queue a ex in
    let (ex2, d') = create size print make topic b ex1 in
    (hash size queue a ≡ hash size topic b → (ex2 ≡ ex1) × (d' ≡ d))
    × (find (hash size queue a) ex2.destinations ≡ some d)
    × (hash size queue a ≢ hash size topic b
        → find (hash size topic b) ex.destinations ≡ none
        → d' ≡ make topic b (ex.path ++ print (hash size topic b) ∷ []))
create-create_example = create-create size print make queue topic a b ex

abbrev c : Bytes
c = 98 ∷ []

-- The two addresses have the same size, so that the topic `c` is taken to be the queue `a`.
collision : (create size print make topic c (create size print make queue a ex).0).1 ≡ (queue, a)
unfolding create find
collision = refl
