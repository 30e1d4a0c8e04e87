-- ===== src/Executor/Block/Response.antt =====
-- What `executeBlock` answers, what it sends and which nonce it marks as used.
use composable_batch_erc.Common.{
  Option, ℕ, ◌≤◌, ◌≡◌, refl, subst, Bool, true, false, ◌&&◌, List, [], ◌∷◌, none, some, arith,
  Bool-cases, inl, inr, ◌⊎◌, Reply, ok, thrown, if◌then◌else◌,
}
use composable_batch_erc.Common.Text.{Text}
use composable_batch_erc.UserOps.Interfaces.{MeeUserOp}
use composable_batch_erc.Executor.ParseError.{ParsedError, parse_execution_error, ExecutionError}
use composable_batch_erc.Executor.Records.{
  Receipt, Failure, error_of, unrecoverable, not_an_error, ExecuteOptions, ExecutorTxRequest,
  legacy, eip1559, eip7702, Context, World, and_then_lem,
}
use composable_batch_erc.Executor.Block.{
  BlockAnswers, ExecuteBlockResponse, error_response, receipt_response,
  handle_transaction_execution_error, default_receipt_failed, handle_default_block_tx_receipt,
  conclude, raise_to_min, tx_request_of, build_tx_request, confirm_block, execute_block_sync,
  execute_block_async, send_block, execute_block, is_timeout, reverted_failure,
}

-- The fees that a request offers: its `maxFeePerGas` and its `maxPriorityFeePerGas`.
abbrev pub offered : ExecutorTxRequest → ℕ × ℕ
offered (legacy nonce gas_price) = (gas_price, gas_price)
offered (eip1559 nonce max_fee max_priority_fee) = (max_fee, max_priority_fee)
offered (eip7702 nonce max_fee max_priority_fee auths) = (max_fee, max_priority_fee)

-- The least fee that the settings allow.
abbrev pub least_fee : Context → ℕ
least_fee ctx = elim ctx.min_max_fee_per_gas [ none ↦ 0 | some fee ↦ fee ]

-- `fee` is the greater of `a` and `b`.
abbrev pub IsMax : ℕ → ℕ → ℕ → Type 0
IsMax a b fee = (a ≤ fee) × (b ≤ fee) × ((fee ≡ a) ⊎ (fee ≡ b))

raise_to_min-IsMax :
    (ctx : Context) (fee : ℕ) → IsMax (least_fee ctx) fee (raise_to_min ctx.min_max_fee_per_gas fee)
unfolding raise_to_min
raise_to_min-IsMax ctx fee = ground arith

tx_request_of-offered :
    (auths : List Text) (nonce a b : ℕ) → offered (tx_request_of auths nonce a b) ≡ (a, b)
unfolding tx_request_of
tx_request_of-offered [] nonce a b = ground arith
tx_request_of-offered (auth ∷ auths) nonce a b = refl

-- Whichever type of transaction is built, each of the two fees that it offers is the greater of the
-- chain's minimum and the fee that was asked for.
pub build_tx_request-IsMax :
    (ctx : Context) (auths : List Text) (options : ExecuteOptions)
    → let fees = offered (build_tx_request ctx auths options) in
      IsMax (least_fee ctx) options.max_fee_per_gas fees.0
      × IsMax (least_fee ctx) options.max_priority_fee_per_gas fees.1
unfolding build_tx_request
build_tx_request-IsMax ctx auths options = rw (tx_request_of-offered auths options.nonce) (
  raise_to_min-IsMax ctx options.max_fee_per_gas,
  raise_to_min-IsMax ctx options.max_priority_fee_per_gas,
)

-- There is no receipt, or it is not reverted.
abbrev pub IsNotReverted : Option Receipt → Type 0
IsNotReverted none = Unit
IsNotReverted (some receipt) = receipt.is_reverted ≡ false

-- A response without an error has a transaction hash and no reverted receipt; one with an error says
-- which, and whether it can be retried.
abbrev pub IsSound : ExecuteBlockResponse → Type 0
IsSound r =
    if r.is_error
    then (((e : ExecutionError) × (r.error_type ≡ some e))
        × ((b : Bool) × (r.is_retriable_error ≡ some b)))
    else (((h : Text) × (r.tx_hash ≡ some h)) × IsNotReverted r.transaction_receipt)

handle_transaction_execution_error-IsSound :
    (e : Failure) → IsSound (handle_transaction_execution_error e)
unfolding handle_transaction_execution_error error_response
handle_transaction_execution_error-IsSound (error_of m) = ((_, refl), (_, refl))
handle_transaction_execution_error-IsSound (unrecoverable m) = ((_, refl), (_, refl))
handle_transaction_execution_error-IsSound not_an_error = ((_, refl), (_, refl))

receipt_response-IsSound :
    (receipt : Receipt) (h : Text) → IsSound (conclude (receipt_response (some receipt) h))
unfolding conclude receipt_response
receipt_response-IsSound receipt h = elim (Bool-cases receipt.is_reverted) [
  | inl e ↦ rw e (handle_transaction_execution_error-IsSound reverted_failure)
  | inr e ↦ rw e ((h, refl), refl)
]

no_receipt-IsSound : (h : Text) → IsSound (conclude (receipt_response none h))
unfolding conclude receipt_response
no_receipt-IsSound h = ((h, refl), tt)

timed_out :
    (message h : Text)
    → let parsed = parse_execution_error message in
      parsed.is_retriable_error && is_timeout parsed.error_type ≡ true
      → error_response parsed (some h) ≡ default_receipt_failed message h
unfolding default_receipt_failed
timed_out message h e = rw e

not_timed_out :
    (message h : Text)
    → let parsed = parse_execution_error message in
      parsed.is_retriable_error && is_timeout parsed.error_type ≡ false
      → receipt_response none h ≡ default_receipt_failed message h
unfolding default_receipt_failed
not_timed_out message h e = rw e

error_response-IsSound :
    (parsed : ParsedError) (h : Text) → IsSound (conclude (error_response parsed (some h)))
unfolding conclude error_response
error_response-IsSound parsed h = ((parsed.error_type, refl), (parsed.is_retriable_error, refl))

default_receipt_failed-IsSound :
    (message h : Text) → IsSound (conclude (default_receipt_failed message h))
default_receipt_failed-IsSound message h =
    let parsed = parse_execution_error message in
    elim (Bool-cases (parsed.is_retriable_error && is_timeout parsed.error_type)) [
      | inl e ↦
          subst (λ r. IsSound (conclude r)) (timed_out message h e)
            (error_response-IsSound parsed h)
      | inr e ↦ subst (λ r. IsSound (conclude r)) (not_timed_out message h e) (no_receipt-IsSound h)
    ]

module _ (ctx : Context) (ops : List MeeUserOp) (nonce : ℕ) where
  confirm_block-IsSound :
      (h : Text) (answer : Reply Failure Receipt) (w : World)
      → IsSound (confirm_block ctx ops nonce h answer w).0
  unfolding confirm_block handle_default_block_tx_receipt
  confirm_block-IsSound h (ok receipt) w = receipt_response-IsSound receipt h
  confirm_block-IsSound h (thrown (error_of m)) w = default_receipt_failed-IsSound m h
  confirm_block-IsSound h (thrown (unrecoverable m)) w = default_receipt_failed-IsSound m h
  confirm_block-IsSound h (thrown not_an_error) w = no_receipt-IsSound h

  execute_block_sync-IsSound :
      (written default_receipt : Reply Failure Receipt) (w : World)
      → IsSound (execute_block_sync ctx ops nonce written default_receipt w).0
  unfolding execute_block_sync
  execute_block_sync-IsSound (thrown e) default_receipt w =
      handle_transaction_execution_error-IsSound e
  execute_block_sync-IsSound (ok receipt) default_receipt w =
      elim (Bool-cases receipt.is_reverted) [
        | inl e ↦ rw e (handle_transaction_execution_error-IsSound reverted_failure)
        | inr e ↦ rw e (confirm_block-IsSound receipt.transaction_hash default_receipt _)
      ]

  execute_block_async-IsSound :
      (written : Reply Failure Text) (fast_receipt default_receipt : Reply Failure Receipt)
      (w : World)
      → IsSound (execute_block_async ctx ops nonce written fast_receipt default_receipt w).0
  unfolding execute_block_async
  execute_block_async-IsSound (thrown e) fast_receipt default_receipt w =
      handle_transaction_execution_error-IsSound e
  execute_block_async-IsSound (ok h) fast_receipt default_receipt w =
      confirm_block-IsSound h default_receipt _

send_block-IsSound :
    (ctx : Context) (ops : List MeeUserOp) (nonce : ℕ) (answers : BlockAnswers) (b : Bool)
    (w : World)
    → IsSound (send_block ctx ops nonce answers b w).0
unfolding send_block
send_block-IsSound ctx ops nonce answers b w =
    elim (Bool-cases (ctx.is_low_block_time_chain && b)) [
      | inl e ↦ rw e (
          execute_block_sync-IsSound ctx ops nonce answers.write_contract_sync
            answers.default_receipt w)
      | inr e ↦ rw e (
          execute_block_async-IsSound ctx ops nonce answers.write_contract answers.fast_receipt
            answers.default_receipt w)
    ]

-- What the response of an execution satisfies, if it has one.
abbrev WithResponse : (ExecuteBlockResponse → Type 0) → Reply Failure ExecuteBlockResponse → Type 0
WithResponse P (ok r) = P r
WithResponse P (thrown e) = Unit

execute_block-WithResponse :
    (ctx : Context) (ops : List MeeUserOp) (auths : List Text) (options : ExecuteOptions)
    (answers : BlockAnswers) (w : World)
    → WithResponse IsSound (execute_block ctx ops auths options answers w).0
unfolding execute_block
execute_block-WithResponse ctx ops auths options answers w =
    and_then_lem (λ s. WithResponse IsSound s.0) (answers.sync_supported, w) _
      (λ b. send_block-IsSound ctx ops options.nonce answers b _) (λ e. tt)

-- A response without an error always has a transaction hash, so the failure that
-- `handlePostExecution` would throw for a missing one cannot follow it, and its receipt, if there is
-- one, is not reverted. A response with an error names the error and says whether it can be retried.
pub execute_block-IsSound :
    (ctx : Context) (ops : List MeeUserOp) (auths : List Text) (options : ExecuteOptions)
    (answers : BlockAnswers) (w : World) (r : ExecuteBlockResponse)
    → (execute_block ctx ops auths options answers w).0 ≡ ok r
    → IsSound r
execute_block-IsSound ctx ops auths options answers w r h =
    subst (WithResponse IsSound) h (execute_block-WithResponse ctx ops auths options answers w)
