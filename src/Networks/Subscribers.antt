-- ===== src/Networks/Subscribers.antt =====
-- `FilteredBrokerSubscriber` (brokers/subscribers/filtered/) with the in-memory validator of
-- duplicates, over `InMemoryBrokerSubscriber` (brokers/subscribers/memory.py).
--
-- `none` means that the subscriber waits, since its queue is empty; what it has dropped is gone then.
pub mod Once
use minos_python.Base.{
  ℕ, zero, suc, Bool, true, false, ◌&&◌, Option, none, some, List, [], ◌∷◌, ◌++◌, ◌==◌, any_of,
  if◌then◌else◌,
}

pub record Message : Type 0 where
  pub topic : ℕ
  pub identifier : ℕ
  pub content : ℕ

-- `(topic, uuid)`
abbrev pub Key : Type 0
Key = ℕ × ℕ

abbrev pub key : Message → Key
key m = (m.topic, m.identifier)

abbrev pub same_key : Key → Key → Bool
same_key a b = (a.0 == b.0) && (a.1 == b.1)

abbrev pub is_seen : Key → List Key → Bool
is_seen k seen = any_of (same_key k) seen

-- `_is_unique`
abbrev pub is_unique : Key → List Key → Bool × List Key
is_unique k seen = if is_seen k seen then (false, seen) else (true, k ∷ seen)

-- The queue of the subscriber that is filtered, and `_seen` of the validator.
pub record Subscriber : Type 0 where
  pub queue : List Message
  pub seen : List Key

abbrev pub add_message : Message → Subscriber → Subscriber
add_message m s = record s { queue = s.queue ++ (m ∷ []) }

-- The loop of `_receive`.
unfoldable pub receive_from : List Message → List Key → Option Message × Subscriber
receive_from [] seen = (none, record { queue = []; seen = seen })
receive_from (x ∷ xs) seen =
    let (valid, seen') = is_unique (key x) seen in
    let next = receive_from xs seen' in
    if valid then (some x, record { queue = xs; seen = seen' }) else next

-- `_receive`
abbrev pub receive : Subscriber → Option Message × Subscriber
receive s = receive_from s.queue s.seen

abbrev pub collect :
    Option Message × Subscriber → List Message × Subscriber → List Message × Subscriber
collect (none, s) rest = ([], s)
collect (some m, s) (ms, s') = (m ∷ ms, s')

-- The messages of a number of calls, up to one that waits.
unfoldable pub receive_many : ℕ → Subscriber → List Message × Subscriber
receive_many zero s = ([], s)
receive_many (suc n) s = let r = receive s in collect r (receive_many n r.1)
