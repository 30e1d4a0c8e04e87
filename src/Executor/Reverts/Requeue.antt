-- ===== src/Executor/Reverts/Requeue.antt =====
-- What becomes of the user operations of a block that reverted, and of expired ones.
use mathlib.Core.List.{Perm}
use mathlib.Core.List.Perm
use composable_batch_erc.Common.{
  ◌≤◌, ◌<◌, subst, All-map, ◌≡◌, refl, ap, sym, Bool, true, false, List, [], ◌∷◌, ◌++◌, map, none,
  arith, Bool-cases, inl, inr, All, ltb, ok,
}
use composable_batch_erc.UserOps.Interfaces.{MeeUserOp, MeeUserOpBatch}
use composable_batch_erc.Executor.Records.{World, Context, total_gas_limit, and_then}
use composable_batch_erc.Executor.Reverts.{
  split_by, simulate_block_execution, validate_mee_user_op_timebounds, single_block, new_jobs,
  handle_user_ops_reverts_from_block, RequeueAnswers, add_new_jobs,
}

-- Every user operation of `ops` passes, or fails, the test.
abbrev pub AllTest : (MeeUserOp → Bool) → Bool → List MeeUserOp → Type 0
AllTest test b = All (λ op. test op ≡ b)

split_by-tests :
    (is_bad : MeeUserOp → Bool) (ops : List MeeUserOp)
    → AllTest is_bad false (split_by is_bad ops).0 × AllTest is_bad true (split_by is_bad ops).1
unfolding split_by
split_by-tests is_bad [] = (tt, tt)
split_by-tests is_bad (op ∷ ops) =
    let (good, bad) = split_by-tests is_bad ops in
    elim (Bool-cases (is_bad op)) [ inl e ↦ rw e (good, (e, bad)) | inr e ↦ rw e ((e, good), bad) ]

Perm-middle : (x : MeeUserOp) (xs ys : List MeeUserOp) → Perm (xs ++ x ∷ ys) (x ∷ xs ++ ys)
Perm-middle x [] ys = Perm.refl (x ∷ ys)
Perm-middle x (y ∷ xs) ys =
    Perm.trans (Perm.cons y (Perm-middle x xs ys)) (Perm.swap x y (xs ++ ys))

split_by-Perm :
    (is_bad : MeeUserOp → Bool) (ops : List MeeUserOp)
    → Perm ((split_by is_bad ops).0 ++ (split_by is_bad ops).1) ops
unfolding split_by
split_by-Perm is_bad [] = Perm.refl []
split_by-Perm is_bad (op ∷ ops) = elim (Bool-cases (is_bad op)) [
  | inl e ↦ rw e (
      Perm.trans (Perm-middle op (split_by is_bad ops).0 (split_by is_bad ops).1)
        (Perm.cons op (split_by-Perm is_bad ops)))
  | inr e ↦ rw e (Perm.cons op (split_by-Perm is_bad ops))
]

-- The user operations of a list of blocks.
abbrev pub all_user_ops : List MeeUserOpBatch → List MeeUserOp
all_user_ops [] = []
all_user_ops (block ∷ blocks) = block.mee_user_ops ++ all_user_ops blocks

-- The gas limit of a block is the sum of those of its user operations.
abbrev pub IsExact : MeeUserOpBatch → Type 0
IsExact block = block.batch_gas_limit ≡ total_gas_limit block.mee_user_ops

append-nil : (ops : List MeeUserOp) → ops ++ [] ≡ ops
append-nil [] = refl
append-nil (op ∷ ops) = ap (◌∷◌ op) (append-nil ops)

single_blocks :
    (ops : List MeeUserOp)
    → (all_user_ops (map single_block ops) ≡ ops) × All IsExact (map single_block ops)
unfolding single_block total_gas_limit
single_blocks [] = (refl, tt)
single_blocks (op ∷ ops) = (ap (◌∷◌ op) (single_blocks ops).0, (omega arith, (single_blocks ops).1))

new_jobs-user_ops :
    (split : Bool) (ops : List MeeUserOp)
    → (all_user_ops (new_jobs split ops) ≡ ops) × All IsExact (new_jobs split ops)
unfolding new_jobs
new_jobs-user_ops true [] = (refl, tt)
new_jobs-user_ops false [] = (refl, tt)
new_jobs-user_ops true (op ∷ ops) = single_blocks (op ∷ ops)
new_jobs-user_ops false (op ∷ ops) = (ap (◌∷◌ op) (append-nil ops), (refl, tt))

-- The new jobs are all added, or there are none.
add_new_jobs-added :
    (answers : RequeueAnswers) (new : List MeeUserOpBatch) (w : World)
    → answers.add_jobs new ≡ (new, ok tt)
    → add_new_jobs answers new w ≡ (ok tt, record w { added_jobs = w.added_jobs ++ new })
unfolding add_new_jobs
add_new_jobs-added answers [] w h =
    ap (λ l. (ok tt, record w { added_jobs = l })) (sym (no_blocks w.added_jobs))
  where
    no_blocks : (l : List MeeUserOpBatch) → l ++ [] ≡ l
    no_blocks [] = refl
    no_blocks (b ∷ l) = ap (◌∷◌ b) (no_blocks l)
add_new_jobs-added answers (b ∷ bs) w h = rw h refl

-- When a block reverts, and the queue takes all new jobs and the job its new data, its user
-- operations are shared out: those that fail the simulation stay in the job, and the others are in
-- the jobs that are added, none lost and none repeated. The gas limit of each of these blocks is the
-- sum of those of its user operations, the job forgets the previous transaction, and the attempt
-- returns false.
pub handle_user_ops_reverts_from_block-shares :
    (ctx : Context) (answers : RequeueAnswers) (ops : List MeeUserOp) (split : Bool) (w : World)
    → ((new : List MeeUserOpBatch) → answers.add_jobs new ≡ (new, ok tt))
    → answers.update_data ≡ ok tt
    → let (reply, w') = handle_user_ops_reverts_from_block ctx answers ops split w in
      (reply ≡ ok false)
      × ((new : List MeeUserOpBatch) × (w'.added_jobs ≡ w.added_jobs ++ new)
          × Perm (all_user_ops new ++ w'.job.mee_user_ops) ops
          × AllTest answers.is_faulty false (all_user_ops new)
          × AllTest answers.is_faulty true w'.job.mee_user_ops
          × All IsExact new
          × IsExact w'.job
          × (w'.job.previous_tx_hash ≡ none))
unfolding handle_user_ops_reverts_from_block simulate_block_execution and_then
handle_user_ops_reverts_from_block-shares ctx answers ops split w taken updated =
    let (valid, invalid) = split_by answers.is_faulty ops in
    let (same, exact) = new_jobs-user_ops split valid in
    let (passed, failed) = split_by-tests answers.is_faulty ops in
    rw (add_new_jobs-added answers (new_jobs split valid) w (taken (new_jobs split valid)), updated)
      (
        refl,
        (
          new_jobs split valid,
          refl,
          subst (λ l. Perm (l ++ invalid) ops) (sym same) (split_by-Perm answers.is_faulty ops),
          subst (AllTest answers.is_faulty false) (sym same) passed,
          failed,
          exact,
          refl,
          refl,
        ),
      )

-- The check of time bounds splits a block without losing or repeating a user operation: none
-- that it calls valid is past its upper bound, and all that it calls expired are.
pub validate_mee_user_op_timebounds-splits :
    (ctx : Context) (ops : List MeeUserOp)
    → let (valid, expired) = validate_mee_user_op_timebounds ctx ops in
      Perm (valid ++ expired) ops
      × All (λ op. ctx.unix_timestamp ≤ op.upper_bound_timestamp) valid
      × All (λ op. op.upper_bound_timestamp < ctx.unix_timestamp) expired
unfolding validate_mee_user_op_timebounds
validate_mee_user_op_timebounds-splits ctx ops =
    let test : MeeUserOp → Bool = λ op. ltb op.upper_bound_timestamp ctx.unix_timestamp in
    let (valid, expired) = split_by-tests test ops in
    (
      split_by-Perm test ops,
      All-map _ _ (λ op h. ground arith) _ valid,
      All-map _ _ (λ op h. ground arith) _ expired,
    )
