-- ===== src/UserOps/Transfers/Carried.antt =====
-- Which user operation a native transfer is credited to.
use composable_batch_erc.Common.{false, List, [], ◌∷◌, ◌≡◌, All}
use composable_batch_erc.Common.Text.{Text}
use composable_batch_erc.UserOps.Transfers.{
  NativeTokenTransfer, TransferFrame, TransactionCall, flat_trace_transaction_calls, is_post_op,
  push_transfer,
}

-- The transfers of calls, in their order, behind those that were read before.
abbrev pub all_transfers : List TransferFrame → List NativeTokenTransfer → List NativeTokenTransfer
all_transfers [] pending = pending
all_transfers (frame ∷ frames) pending = all_transfers frames (push_transfer frame pending)

abbrev pub HasNoPostOp : TransactionCall → Type 0
HasNoPostOp c = All (λ frame. is_post_op frame.kind ≡ false) (flat_trace_transaction_calls c)
