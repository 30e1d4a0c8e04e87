-- ===== src/UserOps/Transfers.antt =====
-- `getUserOpTransfers` and `getUserOpNativeTransfers` of
-- orchestrator-node/src/modules/user-ops/userop.service.ts: which transfers of a transaction belong
-- to which of its user operations. What viem decodes is in the data: `none` is a decoding, or a
-- request for the token's data, that throws.
pub mod Carried
use composable_batch_erc.Common.{
  ℕ, Bool, true, false, not, List, [], ◌∷◌, ◌++◌, Option, none, some, if◌then◌else◌, ◌==◌,
}
use composable_batch_erc.Common.Text.{Text}
use composable_batch_erc.Common.Assoc.{lookup, insert}

pub record NativeTokenTransfer : Type 0 where
  pub from_address : Text
  pub to_address : Text
  pub amount : ℕ

pub record Erc20TokenTransfer : Type 0 where
  pub token_address : Text
  pub sent_from : Text
  pub sent_to : Text
  pub token_amount : ℕ

pub record UserOpTransfers : Type 0 where
  pub native_token_transfers : List NativeTokenTransfer
  pub erc20_token_transfers : List Erc20TokenTransfer

-- The transfers by the hash of the user operation.
abbrev pub TransferGroups : Type 0
TransferGroups = List (Text × UserOpTransfers)

abbrev pub no_transfers : UserOpTransfers
no_transfers = record { native_token_transfers = []; erc20_token_transfers = [] }

-- The logs of a receipt, by their first topic.
pub data ReceiptLog : Type 0 where
  before_execution other_log : ReceiptLog
  user_operation_ended : Option Text → ReceiptLog
  transferred : Option Erc20TokenTransfer → ReceiptLog
  withdrawn : Option NativeTokenTransfer → ReceiptLog

-- The variables of the loop over the logs.
pub record LogLoop : Type 0 where
  pub is_tracking : Bool
  pub open_group : UserOpTransfers
  pub groups : TransferGroups

abbrev pub add_erc20 : Option Erc20TokenTransfer → UserOpTransfers → UserOpTransfers
add_erc20 none g = g
add_erc20 (some t) g = record g { erc20_token_transfers = g.erc20_token_transfers ++ t ∷ [] }

abbrev pub add_native : Option NativeTokenTransfer → UserOpTransfers → UserOpTransfers
add_native none g = g
add_native (some t) g = record g { native_token_transfers = g.native_token_transfers ++ t ∷ [] }

-- The end of a user operation: its group is stored if its hash can be decoded, and is emptied.
unfoldable pub close_group : Option Text → LogLoop → LogLoop
unfolding insert
close_group none s = record s { open_group = no_transfers }
close_group (some hash) s = record s {
  open_group = no_transfers;
  groups = insert hash s.open_group s.groups;
}

unfoldable pub tracked_log : ReceiptLog → LogLoop → LogLoop
unfolding close_group
tracked_log before_execution s = s
tracked_log other_log s = s
tracked_log (user_operation_ended hash) s = close_group hash s
tracked_log (transferred t) s = record s { open_group = add_erc20 t s.open_group }
tracked_log (withdrawn t) s = record s { open_group = add_native t s.open_group }

-- One round of the loop.
unfoldable pub read_log : ReceiptLog → LogLoop → LogLoop
unfolding tracked_log
read_log before_execution s = record s { is_tracking = true }
read_log log s = if s.is_tracking then tracked_log log s else s

unfoldable pub read_logs : List ReceiptLog → LogLoop → LogLoop
unfolding read_log
read_logs [] s = s
read_logs (log ∷ logs) s = read_logs logs (read_log log s)

unfoldable pub get_user_op_transfers : List ReceiptLog → TransferGroups
unfolding read_logs
get_user_op_transfers logs =
    (read_logs logs (record { is_tracking = false; open_group = no_transfers; groups = [] })).groups

-- A call of the transaction's trace. Its value is 0 where it has none; its target is what the
-- first ten characters of its input say.
pub data CallKind : Type 0 where
  inner_handle_op : Option Text → CallKind
  post_op another_call : CallKind

pub record TransferFrame : Type 0 where
  pub kind : CallKind
  pub value : ℕ
  pub call_from : Text
  pub call_to : Text

mutual
  pub data TransactionCall : Type 0 where
    transaction_call : TransferFrame → TransactionCalls → TransactionCall

  pub data TransactionCalls : Type 0 where
    no_inner_calls : TransactionCalls
    inner_call : TransactionCall → TransactionCalls → TransactionCalls

unfoldable mutual
  pub flat_trace_transaction_calls : TransactionCall → List TransferFrame
  flat_trace_transaction_calls (transaction_call frame calls) = frame ∷ flat_calls calls

  pub flat_calls : TransactionCalls → List TransferFrame
  flat_calls no_inner_calls = []
  flat_calls (inner_call c calls) = flat_trace_transaction_calls c ++ flat_calls calls

abbrev pub is_post_op : CallKind → Bool
is_post_op post_op = true
is_post_op another_call = false
is_post_op (inner_handle_op hash) = false

unfoldable pub push_transfer : TransferFrame → List NativeTokenTransfer → List NativeTokenTransfer
push_transfer frame pending =
    if frame.value == 0
    then pending
    else pending
      ++ record { from_address = frame.call_from; to_address = frame.call_to; amount = frame.value }
        ∷ []

-- The variables of the loops over the calls: the transfers that were read, and the groups.
abbrev pub NativeState : Type 0
NativeState = List NativeTokenTransfer × TransferGroups

-- A group that is missing makes the code throw.
abbrev pub credit :
    Text → List NativeTokenTransfer → TransferGroups → Option UserOpTransfers → Option NativeState
credit hash pending groups none = none
credit hash pending groups (some g) = some (
  [],
  insert hash (record g { native_token_transfers = g.native_token_transfers ++ pending }) groups,
)

unfoldable pub scan_calls : Text → List TransferFrame → NativeState → Option NativeState
unfolding push_transfer lookup insert
scan_calls hash [] s = some s
scan_calls hash (frame ∷ frames) (pending, groups) =
    let pending' = push_transfer frame pending in
    let rest = scan_calls hash frames (pending', groups) in
    if is_post_op frame.kind then credit hash pending' groups (lookup hash groups) else rest

-- A call of `innerHandleOp` whose input cannot be decoded is skipped, as any other call is.
unfoldable pub scan_top_call : CallKind → List TransferFrame → NativeState → Option NativeState
unfolding scan_calls
scan_top_call (inner_handle_op (some hash)) frames s = scan_calls hash frames s
scan_top_call (inner_handle_op none) frames s = some s
scan_top_call post_op frames s = some s
scan_top_call another_call frames s = some s

abbrev pub kind_of : TransactionCall → CallKind
kind_of (transaction_call frame calls) = frame.kind

abbrev pub then_scan : Option NativeState → (NativeState → Option NativeState) → Option NativeState
then_scan none next = none
then_scan (some s) next = next s

unfoldable pub scan_top_calls : List TransactionCall → NativeState → Option NativeState
unfolding scan_top_call flat_trace_transaction_calls
scan_top_calls [] s = some s
scan_top_calls (c ∷ calls) s =
    then_scan (scan_top_call (kind_of c) (flat_trace_transaction_calls c) s) (scan_top_calls calls)

abbrev pub groups_of : Option NativeState → Option TransferGroups
groups_of none = none
groups_of (some s) = some s.1

unfoldable pub get_user_op_native_transfers :
    List TransactionCall → TransferGroups → Option TransferGroups
unfolding scan_top_calls
get_user_op_native_transfers calls groups = groups_of (scan_top_calls calls ([], groups))
