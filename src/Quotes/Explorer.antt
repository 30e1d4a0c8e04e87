-- ===== src/Quotes/Explorer.antt =====
-- `getQuote` of orchestrator-node/src/modules/quotes/quotes.service.ts: what is reported of each
-- user operation of a stored quote. What the chain answers is an argument, read only where the code
-- asks. Numbers and texts that JavaScript takes for false are as missing ones.
pub mod Status
use composable_batch_erc.Common.{
  ℕ, zero, suc, ◌+◌, Bool, true, false, not, ◌&&◌, List, [], ◌∷◌, ◌++◌, Option, none, some,
  if◌then◌else◌, ltb, ◌==◌, Reply, ok, thrown,
}
use composable_batch_erc.Common.Text.{Text, codes}
use composable_batch_erc.Common.Int.{ℤ, pos, negsuc, sub_ℕ, leb_ℤ}

pub data ExecutionStatus : Type 0 where
  skipped pending mining failed success mined_success mined_fail : ExecutionStatus

-- The fields of a stored user operation that the report reads.
pub record StoredUserOp : Type 0 where
  pub mee_user_op_hash : Text
  pub tx_hash : Option Text
  pub error : Option Text
  pub execution_started_at : Option ℕ
  pub execution_finished_at : Option ℕ
  pub is_execution_skipped : Bool
  pub is_confirmed : Bool
  pub confirmations : Option ℤ
  pub wait_confirmations : ℕ

-- The number of the current block and of the block of the receipt.
pub record BlockNumbers : Type 0 where
  pub current : ℕ
  pub of_receipt : ℕ

pub data FetchFailure : Type 0 where
  receipt_not_found other_failure : FetchFailure

-- The calls of `updateUserOpCustomFields`.
pub data ReportUpdate : Type 0 where
  set_confirmations : Text → ℤ → ReportUpdate
  set_error : Text → Text → ReportUpdate

pub record ExplorerUserOp : Type 0 where
  pub execution_status : ExecutionStatus
  pub is_confirmed : Bool
  pub confirmations : ℤ
  pub execution_error : Option Text
  pub has_simulation_data : Bool

-- What follows from asking the chain.
pub record Checked : Type 0 where
  pub confirmations : ℤ
  pub is_tx_dropped : Bool
  pub updates : List ReportUpdate

abbrev pub is_present : Option Text → Bool
is_present none = false
is_present (some []) = false
is_present (some (c ∷ s)) = true

abbrev pub is_set : Option ℕ → Bool
is_set none = false
is_set (some zero) = false
is_set (some (suc n)) = true

abbrev pub or_confirmations : Option ℤ → ℤ → ℤ
or_confirmations none other = other
or_confirmations (some (pos zero)) other = other
or_confirmations (some (pos (suc n))) other = pos (suc n)
or_confirmations (some (negsuc n)) other = negsuc n

unfoldable pub execution_status : StoredUserOp → ExecutionStatus
execution_status op =
    if op.is_execution_skipped
    then skipped
    else if is_present op.tx_hash
    then (if is_set op.execution_finished_at
        then (if is_present op.error then mined_fail else mined_success)
        else if is_set op.execution_started_at
        then mining
        else pending)
    else if is_present op.error
    then failed
    else pending

abbrev pub is_submitted : ExecutionStatus → Bool
is_submitted mined_success = true
is_submitted mined_fail = true
is_submitted skipped = false
is_submitted pending = false
is_submitted mining = false
is_submitted failed = false
is_submitted success = false

abbrev pub has_failed : ExecutionStatus → Bool
has_failed mined_fail = true
has_failed failed = true
has_failed mined_success = false
has_failed skipped = false
has_failed pending = false
has_failed mining = false
has_failed success = false

unfoldable pub stored_confirmations : StoredUserOp → ℤ
stored_confirmations op =
    if is_submitted (execution_status op)
    then or_confirmations op.confirmations
        (pos (if op.is_confirmed then op.wait_confirmations else 1))
    else pos 0

abbrev pub dropped_message : Text
dropped_message =
    codes
      "The transaction might be dropped due to possible block reorg or node propagation failure."

unfoldable pub check_receipt : StoredUserOp → ℤ → Reply FetchFailure BlockNumbers → Checked
check_receipt op stored (ok blocks) =
    let confirmations = sub_ℕ (blocks.current + 1) blocks.of_receipt in
    record {
      confirmations = confirmations;
      is_tx_dropped = false;
      updates = set_confirmations op.mee_user_op_hash confirmations ∷ [];
    }
check_receipt op stored (thrown receipt_not_found) =
    let is_tx_drop = not (leb_ℤ stored (pos 0)) in
    record {
      confirmations = stored;
      is_tx_dropped = is_tx_drop;
      updates = if is_tx_drop then set_error op.mee_user_op_hash dropped_message ∷ [] else [];
    }
check_receipt op stored (thrown other_failure) = record {
  confirmations = stored;
  is_tx_dropped = false;
  updates = [];
}

-- Whether the confirmations that were asked for are looked at.
unfoldable pub is_custom : (index custom : ℕ) → StoredUserOp → Bool
is_custom index custom op =
    is_present op.tx_hash
    && is_submitted (execution_status op)
    && (not (index == 0) && ltb op.wait_confirmations custom)

-- The chain is asked only if the stored confirmations are too few.
unfoldable pub checked :
    (index custom : ℕ) → StoredUserOp → Reply FetchFailure BlockNumbers → Checked
checked index custom op answer =
    let stored = stored_confirmations op in
    if is_custom index custom op && not (leb_ℤ (pos custom) stored)
    then check_receipt op stored answer
    else record { confirmations = stored; is_tx_dropped = false; updates = [] }

unfoldable pub report :
    (index custom : ℕ)
    → StoredUserOp
    → Reply FetchFailure BlockNumbers
    → ExplorerUserOp × List ReportUpdate
report index custom op answer =
    let status = execution_status op in
    let result = checked index custom op answer in
    let confirmed =
      if is_custom index custom op
      then (if leb_ℤ (pos custom) result.confirmations then op.is_confirmed else false)
      else op.is_confirmed in
    (
      record {
        execution_status = if result.is_tx_dropped then failed else status;
        is_confirmed = confirmed;
        confirmations = result.confirmations;
        execution_error = if result.is_tx_dropped then some dropped_message else op.error;
        has_simulation_data = has_failed status;
      },
      result.updates,
    )

-- The user operations of a quote, in their order; `answers` gives the chain's answer for each.
unfoldable pub report_from :
    (index custom : ℕ)
    → List StoredUserOp
    → (ℕ → Reply FetchFailure BlockNumbers)
    → List (ExplorerUserOp × List ReportUpdate)
report_from index custom [] answers = []
report_from index custom (op ∷ ops) answers =
    report index custom op (answers index) ∷ report_from (suc index) custom ops answers

-- `none` is the quote that is not found.
unfoldable pub get_quote :
    ℕ
    → Option (List StoredUserOp)
    → (ℕ → Reply FetchFailure BlockNumbers)
    → Option (List (ExplorerUserOp × List ReportUpdate))
get_quote custom none answers = none
get_quote custom (some ops) answers = some (report_from 0 custom ops answers)

-- A stored user operation after a call of `updateUserOpCustomFields`.
abbrev pub apply_update : StoredUserOp → ReportUpdate → StoredUserOp
apply_update op (set_confirmations hash n) = record op { confirmations = some n }
apply_update op (set_error hash message) = record op { error = some message }
