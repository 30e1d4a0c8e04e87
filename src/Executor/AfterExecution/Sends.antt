-- ===== src/Executor/AfterExecution/Sends.antt =====
-- Which transactions an execution, and the retry that may follow it, send.
use composable_batch_erc.Common.{
  ℕ, ◌+◌, ◌≤◌, ◌≡◌, refl, ap, sym, ◌∙◌, Bool, List, [], ◌∷◌, ◌++◌, none, arith, Bool-cases,
  Option-cases, inl, inr, Reply, length, if◌then◌else◌, length-append,
}
use composable_batch_erc.Common.Text.{Text}
use composable_batch_erc.UserOps.Interfaces.{MeeUserOp}
use composable_batch_erc.Executor.ParseError.{ExecutionError}
use composable_batch_erc.Executor.Records.{
  Receipt, Failure, ExecuteOptions, ExecutorTxRequest, Sent, Context, World, and_then, and_then_lem,
  with_nonces,
}
use composable_batch_erc.Executor.Retry.{
  adjust_nonce_and_gas_by_error, bump_percentage, merge_options,
}
use composable_batch_erc.Executor.Start.{authorization_list}
use composable_batch_erc.Executor.Block.{
  is_timeout, ExecuteBlockResponse, BlockAnswers, build_tx_request, send, mark_used,
  handle_default_block_tx_receipt, quick_update, confirm_block, execute_block_sync,
  fast_confirmation, execute_block_async, send_block, execute_block,
}
use composable_batch_erc.Executor.Reverts.{handle_user_ops_reverts_from_block, add_new_jobs}
use composable_batch_erc.Executor.AfterExecution.{
  JobAnswers, Step, handle_post_execution, fail_or_requeue, after_retry, failed_with,
  is_not_retriable, immediate_retry, receipt_timed_out, after_execution,
}

module _ (ctx : Context) (ops : List MeeUserOp) (nonce : ℕ) where
  confirm_block-sent :
      (h : Text) (answer : Reply Failure Receipt) (w : World)
      → (confirm_block ctx ops nonce h answer w).1.sent ≡ w.sent
  unfolding confirm_block handle_default_block_tx_receipt mark_used
  confirm_block-sent h answer w = ground arith

  fast_confirmation-sent :
      (h : Text) (answer : Reply Failure Receipt) (w : World)
      → (fast_confirmation ctx ops nonce h answer w).sent ≡ w.sent
  unfolding fast_confirmation quick_update
  fast_confirmation-sent h answer w = ground arith

  send_block-sent :
      (answers : BlockAnswers) (b : Bool) (w : World)
      → (send_block ctx ops nonce answers b w).1.sent ≡ w.sent
  unfolding send_block execute_block_async execute_block_sync
  send_block-sent answers b w = ground arith

append-nil : (xs : List Sent) → xs ++ [] ≡ xs
append-nil [] = refl
append-nil (x ∷ xs) = ap (◌∷◌ x) (append-nil xs)

append_assoc : (xs ys zs : List Sent) → (xs ++ ys) ++ zs ≡ xs ++ (ys ++ zs)
append_assoc [] ys zs = refl
append_assoc (x ∷ xs) ys zs = ap (◌∷◌ x) (append_assoc xs ys zs)

-- The sendings of these requests, each to a number of providers, that carry the block `ops`.
abbrev pub carry : List MeeUserOp → List (ExecutorTxRequest × ℕ) → List Sent
carry ops [] = []
carry ops ((r, tried) ∷ rs) =
    record { user_ops = ops; request = r; providers_tried = tried } ∷ carry ops rs

carry-append :
    (ops : List MeeUserOp) (rs rs' : List (ExecutorTxRequest × ℕ))
    → carry ops (rs ++ rs') ≡ carry ops rs ++ carry ops rs'
carry-append ops [] rs' = refl
carry-append ops (r ∷ rs) rs' =
    ap (◌∷◌ (record { user_ops = ops; request = r.0; providers_tried = r.1 }))
      (carry-append ops rs rs')

-- The sendings `later` are `earlier`, followed by at most `n` that carry the block `ops`.
abbrev pub SendsAtMost : ℕ → List MeeUserOp → List Sent → List Sent → Type 0
SendsAtMost n ops earlier later =
    (requests : List (ExecutorTxRequest × ℕ)) × (later ≡ earlier ++ carry ops requests)
    × (length requests ≤ n)

pub none_sent :
    (n : ℕ) (ops : List MeeUserOp) (xs ys : List Sent) → ys ≡ xs → SendsAtMost n ops xs ys
none_sent n ops xs ys e = ([], e ∙ sym (append-nil xs), omega arith)

SendsAtMost-trans :
    (m n : ℕ) (ops : List MeeUserOp) (xs ys zs : List Sent)
    → SendsAtMost m ops xs ys
    → SendsAtMost n ops ys zs
    → SendsAtMost (m + n) ops xs zs
SendsAtMost-trans m n ops xs ys zs (rs, e, h) (rs', e', h') = (
  rs ++ rs',
  e'
      ∙ ap (λ l. l ++ carry ops rs') e
      ∙ append_assoc xs (carry ops rs) (carry ops rs')
      ∙ ap (λ l. xs ++ l) (sym (carry-append ops rs rs')),
  omega (arith, length-append rs rs'),
)

module _ (ctx : Context) (attempts : ℕ) (answers : JobAnswers) (ops : List MeeUserOp) where
  pub handle_user_ops_reverts_from_block-sent :
      (split : Bool) (w : World)
      → (handle_user_ops_reverts_from_block ctx answers.requeue ops split w).1.sent ≡ w.sent
  unfolding handle_user_ops_reverts_from_block and_then add_new_jobs
  handle_user_ops_reverts_from_block-sent split w = ground arith

  after_retry-sent :
      (r : ExecuteBlockResponse) (w : World)
      → (after_retry ctx attempts answers r ops w).1.sent ≡ w.sent
  unfolding after_retry fail_or_requeue handle_post_execution
  after_retry-sent r w = ground arith

  handle_post_execution-sent :
      (r : ExecuteBlockResponse) (w : World)
      → (handle_post_execution ctx attempts answers ops r.tx_hash r.transaction_receipt w).1.sent
        ≡ w.sent
  unfolding handle_post_execution
  handle_post_execution-sent r w = ground arith

  fail_or_requeue-sent :
      (message : Text) (error : ExecutionError) (w : World)
      → (fail_or_requeue ctx attempts answers message error ops w).1.sent ≡ w.sent
  unfolding fail_or_requeue
  fail_or_requeue-sent message error w = ground arith

  receipt_timed_out-sent :
      (error : ExecutionError) (tx_hash : Text) (w : World)
      → (receipt_timed_out ctx attempts answers error tx_hash ops w).1.sent ≡ w.sent
  unfolding receipt_timed_out and_then
  receipt_timed_out-sent error tx_hash w = ground arith

  execute_block-sends :
      (auths : List Text) (options : ExecuteOptions) (block : BlockAnswers) (w : World)
      → SendsAtMost 1 ops w.sent (execute_block ctx ops auths options block w).1.sent
  unfolding execute_block send
  execute_block-sends auths options block w =
      and_then_lem (λ s. SendsAtMost 1 ops w.sent s.1.sent) (block.sync_supported, w) _
        (λ b. (
          (build_tx_request ctx auths options, block.providers_tried) ∷ [],
          send_block-sent ctx ops options.nonce block b
              (send ops (build_tx_request ctx auths options) block.providers_tried w),
          omega arith,
        ))
        (λ e. none_sent 1 ops w.sent w.sent refl)

  -- One execution and what follows it.
  pub execute_then :
      (n : ℕ) (auths : List Text) (options : ExecuteOptions) (block : BlockAnswers) (w : World)
      (next : ExecuteBlockResponse → World → Step)
      → ((r : ExecuteBlockResponse) (w' : World) → SendsAtMost n ops w'.sent (next r w').1.sent)
      → SendsAtMost
          (1 + n)
          ops
          w.sent
          (and_then (execute_block ctx ops auths options block w) next).1.sent
  execute_then n auths options block w next h =
      let first = execute_block-sends auths options block w in
      and_then_lem (λ s. SendsAtMost (1 + n) ops w.sent s.1.sent)
        (execute_block ctx ops auths options block w) next
        (λ r. SendsAtMost-trans 1 n ops _ _ _ first (h r _))
        (λ e. SendsAtMost-trans 1 n ops _ _ _ first (none_sent n ops _ _ refl))

  immediate_retry-sends :
      (error : ExecutionError) (options : ExecuteOptions) (w : World)
      → SendsAtMost 1 ops w.sent (immediate_retry ctx attempts answers error options ops w).1.sent
  unfolding immediate_retry
  immediate_retry-sends error options w =
      and_then_lem (λ s. SendsAtMost 1 ops w.sent s.1.sent)
        (with_nonces w (
          adjust_nonce_and_gas_by_error ctx error (bump_percentage attempts) options
            answers.retry_nonce answers.retry_fees w.nonces))
        (λ adjusted w1.
          and_then
            (execute_block ctx ops (authorization_list ops) (merge_options adjusted options)
              answers.retry_block w1)
            (λ r w2. after_retry ctx attempts answers r ops w2))
        (λ adjusted.
          execute_then 0 (authorization_list ops) (merge_options adjusted options)
            answers.retry_block _ (λ r w2. after_retry ctx attempts answers r ops w2)
            (λ r w2. none_sent 0 ops w2.sent _ (after_retry-sent r w2)))
        (λ e. none_sent 1 ops w.sent w.sent refl)

  pub after_execution-sends :
      (r : ExecuteBlockResponse) (options : ExecuteOptions) (w : World)
      → SendsAtMost 1 ops w.sent (after_execution ctx attempts answers r options ops w).1.sent
  unfolding after_execution
  after_execution-sends r options w = elim (Option-cases (failed_with r)) [
    | inl e ↦ rw (e, after_execution) (none_sent 1 ops w.sent _ (handle_post_execution-sent r w))
    | inr (error, e) ↦ elim (Bool-cases (is_not_retriable r.is_retriable_error)) [
      | inl f ↦
          rw (e, after_execution)
            (rw (f) (none_sent 1 ops w.sent _ (fail_or_requeue-sent _ error w)))
      | inr f ↦ elim (Option-cases (if is_timeout error then r.tx_hash else none)) [
        | inl g ↦ rw (e, after_execution) (rw (f) (rw (g) (immediate_retry-sends error options w)))
        | inr (tx_hash, g) ↦
            rw (e, after_execution)
              (rw (f) (rw (g) (none_sent 1 ops w.sent _ (receipt_timed_out-sent error tx_hash w))))
      ]
    ]
  ]
