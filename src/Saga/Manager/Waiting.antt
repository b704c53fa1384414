-- ===== src/Saga/Manager/Waiting.antt =====
-- Waiting for the response to an execution.
use minos_python.Base.{
  ℕ, zero, suc, ◌≡◌, ◌<◌, arith, ap, ◌∙◌, ◌≢◌, refl, true, false, Option, none, some, ◌==◌, ==_refl,
  Bool-cases, inl, inr, Result, return,
}
use minos_python.Saga.Storage.{Repository}
use minos_python.Saga.Types.{Uuid, Response, Program}
use minos_python.Saga.Execution.{StepClass, SagaExecution}
use minos_python.Saga.Manager.{Message, Managed, is_for, with_world, get_response}

-- The response to the saga `u` arrives in a world after some number of messages without a saga or of
-- other sagas; the world is then `w'`.
pub data Arrives {W : Type 0} (receive : W → Result ℕ Message × W) (u : Uuid) (response : Response)
    (w' : W) : ℕ → W → Type 0 where
  now :
      {w : W} (message : Message)
      → receive w ≡ (return message, w')
      → message.saga ≡ some u
      → message.response ≡ response
      → Arrives receive u response w' 0 w
  later :
      {n : ℕ} {w v : W} (message : Message)
      → receive w ≡ (return message, v)
      → message.saga ≢ some u
      → Arrives receive u response w' n v
      → Arrives receive u response w' (suc n) w

is_for_mine : (u : Uuid) (saga : Option Uuid) → saga ≡ some u → is_for u saga ≡ true
is_for_mine u saga mine = rw mine (==_refl u)

is_for_other : (u : Uuid) (saga : Option Uuid) → saga ≢ some u → is_for u saga ≡ false
is_for_other u none other = refl
is_for_other u (some v) other = elim (Bool-cases (v == u)) [
  | inl same ↦ absurd (other (ap some (ground (arith, same))))
  | inr differ ↦ differ
]

module _ (p : Program) (c : StepClass p) (db : Repository (SagaExecution p c))
    (receive : p.World → Result ℕ Message × p.World) where
  -- A response that arrives after any number of messages without a saga or of other sagas is received,
  -- by more rounds than there are such messages, and nothing but the world has changed.
  pub get_response-Arrives :
      (m : Managed p c db receive) (response : Response) (w' : p.World) (n fuel : ℕ)
      → n < fuel
      → Arrives receive m.session.self.uuid response w' n m.session.world
      → get_response p c db receive fuel m ≡ some (return response, with_world p c db receive w' m)
  unfolding get_response
  get_response-Arrives m response w' n zero enough arrives = absurd (omega arith)
  get_response-Arrives m response w' zero (suc fuel) enough (now message got mine same) =
      let kind = ap (λ x. x.0) got in
      let world = ap (λ x. x.1) got in
      rw (get_response, kind, is_for_mine m.session.self.uuid message.saga mine)
        (ap (λ r. some (return r, with_world p c db receive (receive m.session.world).1 m)) same
          ∙ ap (λ w. some (return response, with_world p c db receive w m)) world)
  get_response-Arrives m response w' (suc n) (suc fuel) enough (later {v} message got other rest) =
      let kind = ap (λ x. x.0) got in
      let world = ap (λ x. x.1) got in
      rw (get_response, kind, is_for_other m.session.self.uuid message.saga other, world)
        (get_response-Arrives (with_world p c db receive v m) response w' n fuel (omega arith) rest)
