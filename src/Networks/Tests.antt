-- ===== src/Networks/Tests.antt =====
-- Instances of the theorem about subscribers: a message that comes twice.
use minos_python.Base.{ℕ, ◌≡◌, refl, [], ◌∷◌, arith}
use minos_python.Networks.Subscribers.{Message, Subscriber, add_message, receive_from, receive_many}
use minos_python.Networks.Subscribers.Once.{at, Drained, receive_many-Once}

abbrev message : ℕ → ℕ → Message
message u n = record { topic = 1; identifier = u; content = n }

abbrev arrived : Subscriber
arrived =
    add_message (message 6 0) (add_message (message 5 0) (at (message 5 0 ∷ []) ((1, 7) ∷ [])))

receive_twice : (receive_many 3 arrived).0 ≡ message 5 0 ∷ message 6 0 ∷ []
unfolding receive_many receive_from
receive_twice = refl

receive_many-Once_example :
    Drained (message 5 0 ∷ message 5 0 ∷ message 6 0 ∷ []) ((1, 7) ∷ []) (receive_many 3 arrived)
receive_many-Once_example =
    receive_many-Once 3 (message 5 0 ∷ message 5 0 ∷ message 6 0 ∷ []) ((1, 7) ∷ []) (omega arith)
