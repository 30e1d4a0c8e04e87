-- ===== src/Executor/Block/Nonce.antt =====
-- Which nonce `executeBlock` marks as used.
use composable_batch_erc.Common.{
  ℕ, ◌+◌, ◌≡◌, Bool, true, false, not, ◌&&◌, ◌||◌, List, some, arith, Reply, ok, thrown,
  if◌then◌else◌,
}
use composable_batch_erc.Common.Text.{to_lower_case, text_eq_refl}
use composable_batch_erc.UserOps.Interfaces.{MeeUserOp}
use composable_batch_erc.NonceManager.{Nonces, mark_nonce_as_used, tracked}
use composable_batch_erc.NonceManager.Laws.{mark_nonce_as_used-tracked}
use composable_batch_erc.Executor.Records.{Receipt, Failure, Context, World}
use composable_batch_erc.Executor.Block.{
  BlockAnswers, handle_default_block_tx_receipt, mark_used, confirm_block, quick_update,
  execute_block_sync, fast_confirmation, execute_block_async, send_block,
}

abbrev pub is_ok : {A : Type 0} → Reply Failure A → Bool
is_ok (ok a) = true
is_ok (thrown e) = false

abbrev pub is_success : Reply Failure Receipt → Bool
is_success (ok receipt) = not receipt.is_reverted
is_success (thrown e) = false

-- The first receipt was obtained: that of `writeContractSync`, or that of one confirmation.
abbrev pub has_first_receipt : Bool → BlockAnswers → Bool
has_first_receipt sync answers =
    if sync
    then is_ok answers.write_contract_sync
    else is_ok answers.write_contract && is_ok answers.fast_receipt

-- The receipt with the configured confirmations was asked for and obtained.
abbrev pub has_default_receipt : Bool → BlockAnswers → Bool
has_default_receipt sync answers =
    (if sync then is_success answers.write_contract_sync else is_ok answers.write_contract)
    && is_ok answers.default_receipt

module _ (ctx : Context) (ops : List MeeUserOp) (nonce : ℕ) (answers : BlockAnswers) (b : Bool)
    (w : World) where
  send_block-nonces :
      let sync = ctx.is_low_block_time_chain && b in
      let mark = mark_nonce_as_used ctx.worker_address ctx.chain_id nonce in
      let first = if has_first_receipt sync answers then mark w.nonces else w.nonces in
      (send_block ctx ops nonce answers b w).1.nonces
      ≡ (if has_default_receipt sync answers then mark first else first)
  unfolding send_block execute_block_sync execute_block_async confirm_block fast_confirmation
      quick_update handle_default_block_tx_receipt mark_used
  send_block-nonces = ground arith

  mark_self :
      (s : Nonces)
      → let s' = mark_nonce_as_used ctx.worker_address ctx.chain_id nonce s in
        (tracked ctx.worker_address ctx.chain_id s'.used_nonce_tracker_by_chain ≡ some nonce)
        × (tracked ctx.worker_address ctx.chain_id s'.unused_nonce_tracker_by_chain
            ≡ some (nonce + 1))
  mark_self s =
      let (used, unused) =
        mark_nonce_as_used-tracked ctx.worker_address ctx.chain_id ctx.worker_address ctx.chain_id
          nonce s in
      ground (
        arith,
        used,
        unused,
        text_eq_refl ctx.chain_id,
        text_eq_refl (to_lower_case ctx.worker_address),
      )

  -- Once an execution has obtained a receipt of its transaction, be it reverted, the worker's nonce
  -- is recorded as used and the next one as unused; without a receipt neither is changed.
  pub send_block-tracked :
      let mined =
        has_first_receipt (ctx.is_low_block_time_chain && b) answers
        || has_default_receipt (ctx.is_low_block_time_chain && b) answers in
      let nonces = (send_block ctx ops nonce answers b w).1.nonces in
      let now_tracked = tracked ctx.worker_address ctx.chain_id in
      (now_tracked nonces.used_nonce_tracker_by_chain
        ≡ (if mined then some nonce else now_tracked w.nonces.used_nonce_tracker_by_chain))
      × (now_tracked nonces.unused_nonce_tracker_by_chain ≡ (
          if mined then some (nonce + 1) else now_tracked w.nonces.unused_nonce_tracker_by_chain))
  send_block-tracked =
      let mark = mark_nonce_as_used ctx.worker_address ctx.chain_id nonce in
      ground (arith, send_block-nonces, mark_self w.nonces, mark_self (mark w.nonces))
