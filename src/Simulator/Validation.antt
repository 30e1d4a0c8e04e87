-- ===== src/Simulator/Validation.antt =====
-- `simulateValidation` of orchestrator-node/src/modules/simulator/simulator.processor.ts.
use composable_batch_erc.Common.{
  ◌-◌, ◌*◌, Bool, false, not, ◌&&◌, ◌||◌, [], ◌∷◌, ◌++◌, Reply, ok, thrown, if◌then◌else◌, ltb,
  ◌==◌,
}
use composable_batch_erc.Common.Text.{Text, codes, includes}
use composable_batch_erc.Errors.Sanitize.{sanitize_url}
use composable_batch_erc.Simulator.{
  SimulatorJobData, AccountValidationData, ValidationFailure, something_went_wrong, other_error,
  create_simulation_started_at, SimulatorState, SimulatorContext, SimulatorAnswers, SimulatorStep,
  or_default, requeue, fail_op,
}

-- A failure that is retried as often as needed: the account is not deployed, or is out of gas.
unfoldable pub is_retried : ValidationFailure → Bool
unfolding includes
is_retried (something_went_wrong message) =
    includes message (codes "AA20") || includes message (codes "AA23")
is_retried (other_error message) = false

abbrev pub message_or_default : Text → Text
message_or_default [] = codes "UserOp simulation validation failed"
message_or_default (c ∷ s) = c ∷ s

abbrev pub failure_message : ValidationFailure → Text
failure_message (something_went_wrong message) = message_or_default message
failure_message (other_error message) = message_or_default message

module _ (ctx : SimulatorContext) (answers : SimulatorAnswers) (job : SimulatorJobData) where
  unfoldable pub validation_failed : ValidationFailure → SimulatorState → SimulatorStep Unit
  unfolding is_retried requeue fail_op
  validation_failed err s =
      if is_retried err
      then requeue answers job (or_default job.mee_user_op.execution_simulation_retry_delay 250) s
      else fail_op job (sanitize_url (failure_message err)) s

  unfoldable pub validated : AccountValidationData → SimulatorState → SimulatorStep Unit
  unfolding requeue fail_op
  validated unpacked s =
      if not (unpacked.sig_failed == 0)
      then fail_op job (codes "Invalid signature") s
      else if ltb ctx.validated_at unpacked.valid_after
      then requeue answers job ((unpacked.valid_after - ctx.validated_at) * 1000) s
      else if ltb unpacked.valid_until ctx.validated_at && not (unpacked.valid_until == 0)
      then fail_op job (codes "Execution deadline limit exceeded") s
      else (ok tt, s)

  unfoldable pub started : SimulatorState → SimulatorState
  started s = record s {
    calls = s.calls ++ create_simulation_started_at job.mee_user_op.mee_user_op_hash ctx.now ∷ [];
  }

  unfoldable pub after_validation :
      Reply ValidationFailure AccountValidationData → SimulatorState → SimulatorStep Unit
  unfolding validation_failed validated
  after_validation (thrown err) s = validation_failed err s
  after_validation (ok unpacked) s = validated unpacked s

  unfoldable pub simulate_validation : SimulatorState → SimulatorStep Unit
  unfolding after_validation started
  simulate_validation s = after_validation answers.validation (started s)
