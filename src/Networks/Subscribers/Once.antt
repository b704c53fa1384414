-- ===== src/Networks/Subscribers/Once.antt =====
-- Every message is delivered once.
use minos_python.Base.{
  ℕ, zero, suc, ◌≡◌, ◌≤◌, refl, ap, sym, subst, Bool, true, false, ◌||◌, Option, some, List, [],
  ◌∷◌, ==_refl, any_of, arith, length, All, All-map, Bool-cases, inl, inr,
}
use minos_python.Networks.Subscribers.{
  Message, Key, key, same_key, is_seen, Subscriber, receive_from, receive, collect, receive_many,
}

-- The messages have keys that were not seen before, each of them once.
abbrev pub Fresh : List Key → List Message → Type 0
Fresh seen [] = Unit
Fresh seen (m ∷ ms) = (is_seen (key m) seen ≡ false) × Fresh (key m ∷ seen) ms

-- Messages of the second list, in their order there.
pub data Subsequence : List Message → List Message → Type 0 where
  ends : Subsequence [] []
  skips : {ms xs : List Message} (x : Message) → Subsequence ms xs → Subsequence ms (x ∷ xs)
  keeps : {ms xs : List Message} (x : Message) → Subsequence ms xs → Subsequence (x ∷ ms) (x ∷ xs)

abbrev pub IsCovered : List Key → List Message → Message → Type 0
IsCovered seen ms q = is_seen (key q) seen || any_of (λ m. same_key (key q) (key m)) ms ≡ true

-- What is delivered of a queue, after the keys in `seen`.
abbrev pub Once : List Key → List Message → List Message → Type 0
Once seen queue ms = Fresh seen ms × (Subsequence ms queue × All (IsCovered seen ms) queue)

same_key_refl : (k : Key) → same_key k k ≡ true
same_key_refl (a, b) = rw (==_refl a, ==_refl b) refl

or_swap : (a b c : Bool) → (a || b) || c ≡ true → b || (a || c) ≡ true
or_swap a true c h = refl
or_swap true false c h = refl
or_swap false false c h = h

All-IsCovered :
    (seen : List Key) (x : Message) (ms queue : List Message)
    → All (IsCovered (key x ∷ seen) ms) queue
    → All (IsCovered seen (x ∷ ms)) queue
All-IsCovered seen x ms queue h =
    All-map (IsCovered (key x ∷ seen) ms) (IsCovered seen (x ∷ ms)) queue
      (λ q. or_swap (same_key (key q) (key x)) (is_seen (key q) seen) _) h

abbrev pub at : List Message → List Key → Subscriber
at queue seen = record { queue = queue; seen = seen }

receive_old :
    (x : Message) (xs : List Message) (seen : List Key)
    → is_seen (key x) seen ≡ true
    → receive (at (x ∷ xs) seen) ≡ receive (at xs seen)
unfolding receive_from
receive_old x xs seen old = rw (receive_from, old) refl

receive_new :
    (x : Message) (xs : List Message) (seen : List Key)
    → is_seen (key x) seen ≡ false
    → receive (at (x ∷ xs) seen) ≡ (some x, at xs (key x ∷ seen))
unfolding receive_from
receive_new x xs seen new = rw (receive_from, new) refl

receive_many_by :
    (n : ℕ) (s : Subscriber) {r : Option Message × Subscriber}
    → receive s ≡ r
    → receive_many (suc n) s ≡ collect r (receive_many n r.1)
unfolding receive_many
receive_many_by n s e = ap (λ r. collect r (receive_many n r.1)) e

abbrev pub Drained : List Message → List Key → List Message × Subscriber → Type 0
Drained queue seen (ms, s') = (s'.queue ≡ []) × Once seen queue ms

-- With as many calls as there are messages, all of them are taken from the queue; those that are
-- delivered have keys that were not seen before, each of them once, they keep their order, and every
-- key in the queue was seen before or is delivered.
pub receive_many-Once :
    (n : ℕ) (queue : List Message) (seen : List Key)
    → length queue ≤ n
    → Drained queue seen (receive_many n (at queue seen))
unfolding receive_many receive_from
receive_many-Once zero [] seen enough = (refl, (tt, (ends, tt)))
receive_many-Once zero (x ∷ xs) seen enough = absurd (omega arith)
receive_many-Once (suc n) [] seen enough = (refl, (tt, (ends, tt)))
receive_many-Once (suc n) (x ∷ xs) seen enough = elim (Bool-cases (is_seen (key x) seen)) [
  | inl old ↦
      let (done, (fresh, (sub, covered))) = receive_many-Once (suc n) xs seen (omega arith) in
      subst (Drained (x ∷ xs) seen)
        (sym (receive_many_by n (at (x ∷ xs) seen) (receive_old x xs seen old)))
        (done, (fresh, (skips x sub, (rw old refl, covered))))
  | inr new ↦
      let (done, (fresh, (sub, covered))) = receive_many-Once n xs (key x ∷ seen) (omega arith) in
      subst (Drained (x ∷ xs) seen)
        (sym (receive_many_by n (at (x ∷ xs) seen) (receive_new x xs seen new)))
        (
          done,
          (
            (new, fresh),
            (
              keeps x sub,
              (rw (same_key_refl (key x), new) refl, All-IsCovered seen x _ xs covered),
            ),
          ),
        )
]
