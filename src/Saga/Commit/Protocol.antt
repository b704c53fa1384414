-- ===== src/Saga/Commit/Protocol.antt =====
-- `commit` and `reject` of the committer, over the pairs of `transactions`.
use minos_python.Base.{
  ℕ, ◌≡◌, refl, ◌∙◌, ap, sym, ◌≢◌, inl, inr, Bool, true, false, ◌&&◌, List, [], ◌∷◌, ◌++◌, map,
  append_assoc, append-nil, if◌then◌else◌, length, Bool-cases, Result-cases, and_then, All, Result,
  return, raise, Action, ◌>>=◌, ◌>>◌, throw,
}
use minos_python.Saga.Types.{
  Error, value_error, uncaught, Topic, reserve_transaction, commit_transaction, reject_transaction,
  Program,
}
use minos_python.Saga.Commit.Transactions.{Pair}

-- `all(message.ok for message in messages)`
abbrev pub all_ok : List Bool → Bool
all_ok [] = true
all_ok (b ∷ bs) = b && all_ok bs

module _ (p : Program) where
  open p use {World}

  -- `await gather(*futures)`: every message is sent, and the first exception is raised.
  unfoldable pub send_all : Topic → List Pair → Action World Error Unit
  send_all topic [] w = (return tt, w)
  send_all topic (a ∷ l) w =
      let (r, w₁) = p.send topic a w in
      let (rest, w₂) = send_all topic l w₁ in
      (elim r [ return _ ↦ rest | raise x ↦ raise (uncaught x) ], w₂)

  -- `_get_response`
  unfoldable pub get_response : ℕ → Action World Error Bool
  get_response count w =
      let (r, w₁) = p.receive_many count w in
      (elim r [ return oks ↦ return (all_ok oks) | raise x ↦ raise (uncaught x) ], w₁)

  -- `_reserve`
  unfoldable pub reserve : List Pair → Action World Error Bool
  reserve l = send_all reserve_transaction l >> get_response (length l)

  -- `reject`
  unfoldable pub reject : List Pair → Action World Error Unit
  reject l = send_all reject_transaction l

  -- `commit`
  unfoldable pub commit : List Pair → Action World Error Unit
  commit l = do
    reserved ← reserve l
    λ w. if reserved then send_all commit_transaction l w else (reject l >> throw value_error) w

-- The same program in a world that keeps a log of the commit messages.
abbrev pub logged : Program → Program
logged p = record {
  Context = p.Context;
  World = p.World × List (Topic × Pair);
  service_name = p.service_name;
  run_local = λ op args c w. let (r, w₁) = p.run_local op args c w.0 in (r, (w₁, w.1));
  run_request = λ op args c w. let (r, w₁) = p.run_request op args c w.0 in (r, (w₁, w.1));
  run_response =
      λ op args c response w. let (r, w₁) = p.run_response op args c response w.0 in (r, (w₁, w.1));
  run_condition = λ op args c w. let (r, w₁) = p.run_condition op args c w.0 in (r, (w₁, w.1));
  send = λ topic a w. let (r, w₁) = p.send topic a w.0 in (r, (w₁, w.1 ++ ((topic, a) ∷ [])));
  receive_many = λ n w. let (r, w₁) = p.receive_many n w.0 in (r, (w₁, w.1));
  response_exception = p.response_exception;
}

-- One message of a topic to each pair, in order.
abbrev pub broadcast : Topic → List Pair → List (Topic × Pair)
broadcast topic l = map (λ (a : Pair). (topic, a)) l

module _ (p : Program) where
  send_all-log :
      (topic : Topic) (l : List Pair) (w : p.World) (log : List (Topic × Pair))
      → (send_all (logged p) topic l (w, log)).1.1 ≡ log ++ broadcast topic l
  unfolding send_all
  send_all-log topic [] w log = sym (append-nil log)
  send_all-log topic (a ∷ l) w log =
      send_all-log topic l (p.send topic a w).1 (log ++ ((topic, a) ∷ []))
      ∙ append_assoc log ((topic, a) ∷ []) (broadcast topic l)

  reserve-log :
      (l : List Pair) (w : p.World) (log : List (Topic × Pair))
      → (reserve (logged p) l (w, log)).1.1 ≡ log ++ broadcast reserve_transaction l
  unfolding reserve get_response
  reserve-log l w log = elim (Result-cases (send_all (logged p) reserve_transaction l (w, log)).0) [
    | inl (a, returned) ↦ rw returned (send_all-log reserve_transaction l w log)
    | inr (x, raised) ↦ rw raised (send_all-log reserve_transaction l w log)
  ]

  -- The world once the requests to reserve are sent.
  abbrev asked :
      List Pair
      → p.World
      → List (Topic × Pair)
      → Result Error Unit × (p.World × List (Topic × Pair))
  asked l w log = send_all (logged p) reserve_transaction l (w, log)

  -- What the broker gives as answers to the requests: a Boolean for each message.
  abbrev pub answers : List Pair → p.World → List (Topic × Pair) → Result ℕ (List Bool)
  answers l w log = (p.receive_many (length l) (asked l w log).1.0).0

  -- How a commit ends, by the answers to the reservations, with the messages that it added to the log.
  pub data Decided (l : List Pair) (w : p.World) (log : List (Topic × Pair)) (r : Result Error Unit)
      (log' : List (Topic × Pair)) : Type 0 where
    unsent :
        (x : Error)
        → (asked l w log).0 ≡ raise x
        → r ≡ raise x
        → log' ≡ log ++ broadcast reserve_transaction l
        → Decided l w log r log'
    unanswered :
        (x : ℕ)
        → answers l w log ≡ raise x
        → r ≡ raise (uncaught x)
        → log' ≡ log ++ broadcast reserve_transaction l
        → Decided l w log r log'
    refused :
        (before after : List Bool)
        → answers l w log ≡ return (before ++ (false ∷ after))
        → r ≢ return tt
        → log' ≡ (log ++ broadcast reserve_transaction l) ++ broadcast reject_transaction l
        → Decided l w log r log'
    agreed :
        (oks : List Bool)
        → answers l w log ≡ return oks
        → All (λ ok. ok ≡ true) oks
        → log' ≡ (log ++ broadcast reserve_transaction l) ++ broadcast commit_transaction l
        → Decided l w log r log'

  all_ok-All : (oks : List Bool) → all_ok oks ≡ true → All (λ ok. ok ≡ true) oks
  all_ok-All [] h = tt
  all_ok-All (true ∷ oks) h = (refl, all_ok-All oks h)
  all_ok-All (false ∷ oks) h = absurd (cc h)

  all_ok-refused :
      (oks : List Bool)
      → all_ok oks ≡ false
      → (before after : List Bool) × (oks ≡ before ++ (false ∷ after))
  all_ok-refused [] h = absurd (cc h)
  all_ok-refused (false ∷ oks) h = ([], oks, refl)
  all_ok-refused (true ∷ oks) h =
      let (before, after, split) = all_ok-refused oks h in
      (true ∷ before, after, ap (λ l. true ∷ l) split)

  throws :
      (m : Result Error Unit) (w : p.World × List (Topic × Pair))
      → (and_then {B = Unit {0}} m (λ _. throw value_error) w).0 ≢ return tt
  throws (return a) w = λ e. cc e
  throws (raise x) w = λ e. cc e

  throws-state :
      (m : Result Error Unit) (w : p.World × List (Topic × Pair))
      → (and_then {B = Unit {0}} m (λ _. throw value_error) w).1 ≡ w
  throws-state (return a) w = refl
  throws-state (raise x) w = refl

  -- What the reservations come to, by the answers.
  reserve_outcome :
      (l : List Pair) (w : p.World) (log : List (Topic × Pair))
      → (asked l w log).0 ≡ return tt
      → (reserve (logged p) l (w, log)).0 ≡ (elim (answers l w log) [
        | return oks ↦ return (all_ok oks)
        | raise x ↦ raise (uncaught x)
      ])
  unfolding reserve get_response
  reserve_outcome l w log sent = rw sent refl

  reserve_unsent :
      (l : List Pair) (w : p.World) (log : List (Topic × Pair)) (x : Error)
      → (asked l w log).0 ≡ raise x
      → (reserve (logged p) l (w, log)).0 ≡ raise x
  unfolding reserve
  reserve_unsent l w log x raised = rw raised refl

  -- A commit asks every service to reserve. Only if every answer is positive does it tell every one to
  -- commit; if one is negative it tells every one to reject and raises; if a reservation could not be
  -- sent or answered it sends nothing more and raises. No service is ever told both.
  pub commit-Decided :
      (l : List Pair) (w : p.World) (log : List (Topic × Pair))
      → let (r, w') = commit (logged p) l (w, log) in Decided l w log r w'.1
  unfolding commit reject
  commit-Decided l w log =
      let sent = reserve-log l w log in
      elim (Result-cases (asked l w log).0) [
        | inr (x, raised) ↦ rw (reserve_unsent l w log x raised) (unsent x raised refl sent)
        | inl (u, returned) ↦ elim (Result-cases (answers l w log)) [
          | inr (x, silent) ↦
              let out : (reserve (logged p) l (w, log)).0 ≡ raise (uncaught x) =
                reserve_outcome l w log returned ∙ rw silent refl in
              rw out (unanswered x silent refl sent)
          | inl (oks, told) ↦
              let at = (reserve (logged p) l (w, log)).1 in
              let out : (reserve (logged p) l (w, log)).0 ≡ return (all_ok oks) =
                reserve_outcome l w log returned ∙ rw told refl in
              elim (Bool-cases (all_ok oks)) [
                | inl good ↦
                    rw (out, good)
                      (agreed oks told (all_ok-All oks good) (
                        send_all-log commit_transaction l at.0 at.1
                        ∙ ap (λ k. k ++ broadcast commit_transaction l) sent))
                | inr bad ↦
                    let m = send_all (logged p) reject_transaction l at in
                    let (before, after, split) = all_ok-refused oks bad in
                    rw (out, bad)
                      (refused before after (told ∙ ap return split) (throws m.0 m.1) (
                        ap (λ z. z.1) (throws-state m.0 m.1)
                        ∙ send_all-log reject_transaction l at.0 at.1
                        ∙ ap (λ k. k ++ broadcast reject_transaction l) sent))
              ]
        ]
      ]
