-- ===== src/Simulator/Endings.antt =====
-- What an attempt of a simulator job has done when it ends.
use mathlib.Core.List.{append-nil}
use composable_batch_erc.Common.{
  ℕ, true, List, [], ◌∷◌, ◌++◌, Option, none, some, ok, thrown, zero, suc, ◌<◌, ◌≢◌, Bool-cases,
  arith, ◌≡◌, ◌⊎◌, inl, inr, refl, ap, Reply-cases,
}
use composable_batch_erc.Common.Text.{Text}
use composable_batch_erc.Executor.Records.{Failure, unrecoverable}
use composable_batch_erc.Simulator.{
  SimulatorJobData, ExecSimulation, SimulatorCall, AddedJob, create_simulation_started_at,
  create_error, update_simulation_finished, create_transaction_data, SimulatorState,
  SimulatorAnswers, SimulatorStep, retry_job, or_default, add_retry_job, requeue, fail_op,
}

-- The errors that the storage calls record.
abbrev pub errors_of : List SimulatorCall → List Text
errors_of [] = []
errors_of (create_error hash error ∷ calls) = error ∷ errors_of calls
errors_of (create_simulation_started_at hash now ∷ calls) = errors_of calls
errors_of (update_simulation_finished hash attempts now ∷ calls) = errors_of calls
errors_of (create_transaction_data hash ∷ calls) = errors_of calls

errors_of-append :
    (calls more : List SimulatorCall)
    → errors_of (calls ++ more) ≡ errors_of calls ++ errors_of more
errors_of-append [] more = refl
errors_of-append (create_error hash error ∷ calls) more =
    ap (λ es. error ∷ es) (errors_of-append calls more)
errors_of-append (create_simulation_started_at hash now ∷ calls) more = errors_of-append calls more
errors_of-append (update_simulation_finished hash attempts now ∷ calls) more =
    errors_of-append calls more
errors_of-append (create_transaction_data hash ∷ calls) more = errors_of-append calls more

-- The queue and the errors after an attempt, by those before it: nothing is new, the job is in the
-- queue once more as a retry with a delay, or one more error is recorded.
abbrev pub IsQuiet : List AddedJob → List Text → SimulatorState → Type 0
IsQuiet added errors s = (s.added ≡ added) × (errors_of s.calls ≡ errors)

abbrev pub IsRequeued : SimulatorJobData → List AddedJob → List Text → SimulatorState → Type 0
IsRequeued job added errors s =
    ((delay : ℕ) × (0 < delay) × (s.added ≡ added ++ retry_job job delay ∷ []))
    × (errors_of s.calls ≡ errors)

abbrev pub IsFailed : List AddedJob → List Text → SimulatorState → Type 0
IsFailed added errors s =
    (s.added ≡ added) × ((error : Text) × (errors_of s.calls ≡ errors ++ error ∷ []))

-- The user operation is unknown or could not be looked up, or the trace of its execution threw.
abbrev pub IsBlocked : SimulatorAnswers → Type 0
IsBlocked answers =
    (answers.has_user_op ≢ ok true) ⊎ ((e : Failure) × (answers.handle_ops ≡ thrown e))

-- The user operation is unknown, or a service threw.
abbrev pub HasCallFailure : SimulatorAnswers → Type 0
HasCallFailure answers = IsBlocked answers ⊎ ((e : Failure) × (answers.add_job_failure ≡ some e))

abbrev pub IsDecided : SimulatorJobData → List AddedJob → List Text → SimulatorState → Type 0
IsDecided job added errors s = IsRequeued job added errors s ⊎ IsFailed added errors s

abbrev pub Ends :
    {A : Type 0}
    → SimulatorAnswers
    → SimulatorJobData
    → List AddedJob
    → List Text
    → SimulatorStep A
    → Type 0
Ends answers job added errors (ok a, s) = IsQuiet added errors s
Ends answers job added errors (thrown e, s) =
    ((e ≡ unrecoverable []) × IsDecided job added errors s)
    ⊎ (HasCallFailure answers × (IsQuiet added errors s ⊎ IsDecided job added errors s))

-- What is true of the state whatever the answer is.
pub state_of_Ends :
    (answers : SimulatorAnswers) (job : SimulatorJobData) (added : List AddedJob)
    (errors : List Text) (A : Type 0) (step : SimulatorStep A)
    → Ends answers job added errors step
    → IsQuiet added errors step.1 ⊎ IsDecided job added errors step.1
state_of_Ends answers job added errors A (ok a, s) h = inl h
state_of_Ends answers job added errors A (thrown e, s) (inl (h, d)) = inr d
state_of_Ends answers job added errors A (thrown e, s) (inr (h, k)) = k

pub Quiet-append :
    (calls : List SimulatorCall) (call : SimulatorCall)
    → errors_of (call ∷ []) ≡ []
    → errors_of (calls ++ call ∷ []) ≡ errors_of calls
Quiet-append calls call h =
    rw (errors_of-append calls (call ∷ []), h) (append-nil (errors_of calls))

module _ (answers : SimulatorAnswers) (job : SimulatorJobData) where
  add_retry_job-Ends :
      (A : Type 0) (failure : Option Failure)
      → answers.add_job_failure ≡ failure
      → (delay : ℕ) (s : SimulatorState) → 0 < delay
      → Ends answers job s.added (errors_of s.calls) (add_retry_job {A = A} failure job delay s)
  unfolding add_retry_job
  add_retry_job-Ends A none e delay s h = inl (refl, inl ((delay, h, refl), refl))
  add_retry_job-Ends A (some failure) e delay s h = inr (inr (failure, e), inl (refl, refl))

  pub requeue-Ends :
      (A : Type 0) (delay : ℕ) (s : SimulatorState)
      → 0 < delay
      → Ends answers job s.added (errors_of s.calls) (requeue {A = A} answers job delay s)
  unfolding requeue
  requeue-Ends A delay s h = add_retry_job-Ends A answers.add_job_failure refl delay s h

  pub fail_op-Ends :
      (A : Type 0) (error : Text) (s : SimulatorState)
      → Ends answers job s.added (errors_of s.calls) (fail_op {A = A} job error s)
  unfolding fail_op
  fail_op-Ends A error s = inl (refl, inr (refl, (error, errors_of-append s.calls _)))

pub or_default-pos : (value : Option ℕ) (other : ℕ) → 0 < other → 0 < or_default value other
or_default-pos none other h = h
or_default-pos (some zero) other h = h
or_default-pos (some (suc n)) other h = omega arith

-- The user operation is known and its execution was traced, or the calls did not do that.
pub IsBlocked-cases :
    (answers : SimulatorAnswers)
    → ((answers.has_user_op ≡ ok true)
        × ((answer : ExecSimulation) × (answers.handle_ops ≡ ok answer)))
      ⊎ IsBlocked answers
IsBlocked-cases answers = elim (Reply-cases answers.handle_ops) [
  | inr (e, h) ↦ inr (inr (e, h))
  | inl (answer, h) ↦ elim (Reply-cases answers.has_user_op) [
    | inr (e, k) ↦ inr (inl (rw k (λ f. absurd (cc))))
    | inl (known, k) ↦ elim (Bool-cases known) [
      | inl e ↦ inl (rw (k, e) refl, (answer, h))
      | inr e ↦ inr (inl (rw (k, e) (λ f. absurd (cc))))
    ]
  ]
]
