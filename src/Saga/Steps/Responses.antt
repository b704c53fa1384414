-- ===== src/Saga/Steps/Responses.antt =====
-- What a remote step does with a response.
use minos_python.Base.{
  ℕ, ◌≡◌, ◌≢◌, refl, inl, inr, true, Option, none, some, [], ◌∷◌, arith, Result, return, raise,
  Result-cases, and_then,
}
use minos_python.Saga.Types.{
  StepStatus, running_on_success, errored_on_success, running_on_error, errored_on_error,
  step_finished, errored_by_on_execute, ResponseStatus, success, error, system_error, Response,
  Error, failed_step, Arguments, Program,
}
use minos_python.Saga.Steps.{
  StepScope, as_failed, set_status, relate, exec_request, exec_response, rollback_remote,
  execute_on_response, consume, await_response,
}

module _ (p : Program) where
  abbrev flattened : Result ℕ (Result ℕ p.Context) → Result ℕ p.Context
  flattened (return r) = r
  flattened (raise x) = raise x

  -- What the callback gives in the world `w`; without one the context stays. An exception that is
  -- returned counts as raised.
  abbrev pub reply : Arguments → p.Context → Response → p.World → Option ℕ → Result ℕ p.Context
  reply args context response w none = return context
  reply args context response w (some op) = flattened (p.run_response op args context response w).0

  -- How the callback for a response ends, with the rollback `undo` that follows its failure.
  pub data Responded (called : Result ℕ p.Context)
      (undo : StepScope p → Result Error p.Context × StepScope p) (bad : StepStatus)
      (r : Result Error p.Context) (s' : StepScope p) : Type 0 where
    answered :
        (new : p.Context) → called ≡ return new → r ≡ return new → Responded called undo bad r s'
    rolled :
        (x : ℕ)
        → called ≡ raise x
        → r ≡ raise (failed_step x)
        → s'.self.status ≡ bad
        → s'.self.already_rollback ≡ true
        → Responded called undo bad r s'
    unrolled :
        (x : ℕ) (e : Error) (w : StepScope p)
        → called ≡ raise x
        → (undo w).0 ≡ raise e
        → r ≡ raise e
        → s'.self.status ≡ bad
        → Responded called undo bad r s'

  rollback_remote-marks :
      (on_failure : Option ℕ) (args : Arguments) (context new : p.Context) (s : StepScope p)
      → (rollback_remote p on_failure args context s).0 ≡ return new
      → (rollback_remote p on_failure args context s).1.self.already_rollback ≡ true
  unfolding rollback_remote
  rollback_remote-marks on_failure args context new s h = ground arith

  rollback_remote-status :
      (on_failure : Option ℕ) (args : Arguments) (context : p.Context) (s : StepScope p)
      → (rollback_remote p on_failure args context s).1.self.status ≡ s.self.status
  unfolding rollback_remote exec_request
  rollback_remote-status none args context s = ground arith
  rollback_remote-status (some op) args context s = ground arith

  exec_response-reply :
      (operation : Option ℕ) (args : Arguments) (context : p.Context) (response : Response)
      (s : StepScope p)
      → (exec_response p operation args context response s).0
        ≡ as_failed p (reply args context response s.world operation)
  unfolding exec_response
  exec_response-reply none args context response s = refl
  exec_response-reply (some op) args context response s =
      elim (Result-cases (p.run_response op args context response s.world).0) [
        | inl (a, ok) ↦ rw ok refl
        | inr (y, bad) ↦ rw bad refl
      ]

  execute_on_response-Responded :
      (start bad : StepStatus) (operation on_failure : Option ℕ) (args : Arguments)
      (context : p.Context) (response : Response) (s : StepScope p)
      → let (r, s') =
          execute_on_response p start bad operation on_failure args context response s in
        Responded
          (reply args context response s.world operation)
          (rollback_remote p on_failure args context)
          bad
          r
          s'
  unfolding execute_on_response
  execute_on_response-Responded start bad operation on_failure args context response s =
      let z = relate p (p.service_name ∷ []) (set_status p start s) in
      let m = exec_response p operation args context response z in
      let run = exec_response-reply operation args context response z in
      elim (Result-cases (reply args context response s.world operation)) [
        | inl (new, ok) ↦ rw (run, ok) (answered new refl refl)
        | inr (x, failed) ↦
            let w = set_status p bad m.1 in
            let status = rollback_remote-status on_failure args context w in
            elim (Result-cases (rollback_remote p on_failure args context w).0) [
              | inl (new, undone) ↦
                  rw (run, failed, undone)
                    (rolled x refl refl status
                      (rollback_remote-marks on_failure args context new w undone))
              | inr (e', stuck) ↦ rw (run, failed, stuck) (unrolled x e' w refl stuck refl status)
            ]
      ]

  -- The status of a step that could not deal with a response.
  abbrev pub bad_status : ResponseStatus → StepStatus
  bad_status success = errored_on_success
  bad_status error = errored_on_error
  bad_status system_error = errored_by_on_execute

  -- The callback for a response; there is none for a system error.
  abbrev pub callback : (on_success on_error : Option ℕ) → ResponseStatus → Option ℕ
  callback on_success on_error success = on_success
  callback on_success on_error error = on_error
  callback on_success on_error system_error = none

  -- How a step that gets a response ends, by what its callback gives.
  pub data Answered (called : Result ℕ p.Context)
      (undo : StepScope p → Result Error p.Context × StepScope p) (response : Response)
      (status : ResponseStatus) (s : StepScope p) (r : Result Error p.Context) (s' : StepScope p)
      : Type 0 where
    done :
        (new : p.Context)
        → status ≢ system_error
        → called ≡ return new
        → r ≡ return new
        → s'.self.status ≡ step_finished
        → Answered called undo response status s r s'
    undone :
        (x : ℕ)
        → status ≢ system_error
        → called ≡ raise x
        → r ≡ raise (failed_step x)
        → s'.self.status ≡ bad_status status
        → s'.self.already_rollback ≡ true
        → Answered called undo response status s r s'
    stuck :
        (x : ℕ) (e : Error) (w : StepScope p)
        → status ≢ system_error
        → called ≡ raise x
        → (undo w).0 ≡ raise e
        → r ≡ raise e
        → s'.self.status ≡ bad_status status
        → Answered called undo response status s r s'
    failed_remotely :
        status ≡ system_error
        → r ≡ raise (failed_step (p.response_exception response))
        → s'.self.status ≡ errored_by_on_execute
        → s'.self.already_rollback ≡ s.self.already_rollback
        → s'.world ≡ s.world
        → Answered called undo response status s r s'

  finish :
      (called : Result ℕ p.Context) (undo : StepScope p → Result Error p.Context × StepScope p)
      (response : Response) (status : ResponseStatus) (s : StepScope p) (r : Result Error p.Context)
      (m : StepScope p)
      → status ≢ system_error
      → Responded called undo (bad_status status) r m
      → let (r', s') =
          and_then r (λ new (z : StepScope p). (return new, set_status p step_finished z)) m in
        Answered called undo response status s r' s'
  finish called undo response status s r m ne (answered new c a) = rw a (done new ne c refl refl)
  finish called undo response status s r m ne (rolled x c a b d) = rw a (undone x ne c refl b d)
  finish called undo response status s r m ne (unrolled x e w c u a b) =
      rw a (stuck x e w ne c u refl b)

  consume-Answered :
      (on_success on_error on_failure : Option ℕ) (args : Arguments) (context : p.Context)
      (response : Response) (status : ResponseStatus) (s : StepScope p)
      → let (r, s') = consume p on_success on_error on_failure args context response status s in
        Answered
          (reply args context response s.world (callback on_success on_error status))
          (rollback_remote p on_failure args context)
          response
          status
          s
          r
          s'
  unfolding consume
  consume-Answered on_success on_error on_failure args context response success s =
      finish _ _ response success s _ _ (λ e. cc e)
        (execute_on_response-Responded running_on_success errored_on_success on_success on_failure
          args context response s)
  consume-Answered on_success on_error on_failure args context response error s =
      finish _ _ response error s _ _ (λ e. cc e)
        (execute_on_response-Responded running_on_error errored_on_error on_error on_failure args
          context response s)
  consume-Answered on_success on_error on_failure args context response system_error s =
      failed_remotely refl refl refl refl refl

  from_related :
      {called : Result ℕ p.Context} {undo : StepScope p → Result Error p.Context × StepScope p}
      (response : Response) (status : ResponseStatus) (s : StepScope p) {r : Result Error p.Context}
      {s' : StepScope p}
      → Answered called undo response status (relate p response.related_services s) r s'
      → Answered called undo response status s r s'
  from_related response status s (done new n c a b) = done new n c a b
  from_related response status s (undone x n c a b d) = undone x n c a b d
  from_related response status s (stuck x e w n c u a b) = stuck x e w n c u a b
  from_related response status s (failed_remotely a b c d e) = failed_remotely a b c d e

  -- A remote step that gets a response ends in one of four ways. The callback for the status of the
  -- response, in the world of the step, returns a context (the context stays if there is no
  -- callback), and the step is finished with it. Or the callback fails, the step has rolled itself
  -- back, and the failure is raised. Or the rollback after the failure raises, and its exception is
  -- raised; in both cases the status tells which callback has failed. Or the response is a system
  -- error: its failure is raised, no callback is called, and the world is as it was.
  pub await_response-Answered :
      (on_success on_error on_failure : Option ℕ) (args : Arguments) (context : p.Context)
      (response : Response) (s : StepScope p)
      → let (r, s') =
          await_response p on_success on_error on_failure args context (some response) s in
        Answered
          (reply args context response s.world (callback on_success on_error response.status))
          (rollback_remote p on_failure args context)
          response
          response.status
          s
          r
          s'
  unfolding await_response
  await_response-Answered on_success on_error on_failure args context response s =
      from_related response response.status s (
        consume-Answered on_success on_error on_failure args context response response.status
          (relate p response.related_services s))
