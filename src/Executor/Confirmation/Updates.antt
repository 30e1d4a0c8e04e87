-- ===== src/Executor/Confirmation/Updates.antt =====
-- Which user operations a block's receipt settles.
use composable_batch_erc.Common.{
  ℕ, ◌≡◌, refl, subst, Bool, true, false, List, [], ◌∷◌, ◌++◌, Option, none, some, arith,
  Option-cases, Bool-cases, inl, inr, ◌⊎◌, ◌≢◌, All, All-map,
}
use composable_batch_erc.Common.Text.{Text, codes, text_eq_iff}
use composable_batch_erc.Common.Assoc.{lookup, insert, lookup-insert}
use composable_batch_erc.UserOps.Interfaces.{MeeUserOp}
use composable_batch_erc.Executor.Records.{
  StorageCall, update_fields, create_execution_started_at, EntryPointEvent, user_operation_event,
  other_event, Receipt, World, Context,
}
use composable_batch_erc.Executor.Confirmation.{
  find_user_op, Processed, result_fields, without_receipt, handle_events, is_processed,
  mark_unprocessed, result_calls, handle_supertransaction_execution_result,
}

module _ (ctx : Context) (tx_hash : Text) (is_confirmed : Bool) where
  -- The call that settles the user operation `hash`: it writes the transaction's hash, the time and
  -- the confirmation.
  abbrev pub Settles : Text → StorageCall → Type 0
  Settles hash (create_execution_started_at h now) = ⊥
  Settles hash (update_fields h fields) =
      (h ≡ hash)
      × (fields.tx_hash ≡ some tx_hash)
      × (fields.execution_finished_at ≡ some ctx.now)
      × (fields.is_confirmed ≡ some is_confirmed)

  -- One of the calls settles the user operation.
  abbrev pub IsSettledBy : List StorageCall → Text → Type 0
  IsSettledBy [] hash = ⊥
  IsSettledBy (call ∷ calls) hash = Settles hash call ⊎ IsSettledBy calls hash

  IsSettledBy-left :
      (calls later : List StorageCall) (hash : Text)
      → IsSettledBy calls hash
      → IsSettledBy (calls ++ later) hash
  IsSettledBy-left [] later hash h = absurd h
  IsSettledBy-left (call ∷ calls) later hash (inl h) = inl h
  IsSettledBy-left (call ∷ calls) later hash (inr h) = inr (IsSettledBy-left calls later hash h)

  IsSettledBy-right :
      (earlier calls : List StorageCall) (hash : Text)
      → IsSettledBy calls hash
      → IsSettledBy (earlier ++ calls) hash
  IsSettledBy-right [] calls hash h = h
  IsSettledBy-right (call ∷ earlier) calls hash h = inr (IsSettledBy-right earlier calls hash h)

  settles :
      (hash : Text) (cost : Option ℕ) (error : Option Text)
      → Settles hash (update_fields hash (result_fields ctx tx_hash is_confirmed cost error))
  unfolding result_fields
  settles hash cost error = (refl, refl, refl, refl)

  without_receipt-settles :
      (ops : List MeeUserOp)
      → All
          (λ op. IsSettledBy (without_receipt ctx tx_hash is_confirmed ops) op.mee_user_op_hash)
          ops
  unfolding without_receipt
  without_receipt-settles [] = tt
  without_receipt-settles (op ∷ ops) = (
    inl (settles op.mee_user_op_hash none none),
    All-map _ _ (λ op' h. inr h) ops (without_receipt-settles ops),
  )

  is_processed-insert :
      (hash other : Text) (processed : Processed)
      → is_processed (insert hash true processed) other ≡ true
      → (hash ≡ other) ⊎ (is_processed processed other ≡ true)
  unfolding is_processed
  is_processed-insert hash other processed h =
      ground (arith, lookup-insert hash other true processed, text_eq_iff hash other)

  no_processed : (hash : Text) → is_processed [] hash ≢ true
  unfolding is_processed lookup
  no_processed hash = λ h. ground arith

  -- What the loop over the events has processed, it has settled.
  handle_events-settles :
      (ops : List MeeUserOp) (events : List EntryPointEvent) (processed : Processed) (hash : Text)
      → is_processed (handle_events ctx tx_hash is_confirmed ops events processed).1 hash ≡ true
      → (is_processed processed hash ≡ true)
        ⊎ IsSettledBy (handle_events ctx tx_hash is_confirmed ops events processed).0 hash
  unfolding handle_events
  handle_events-settles ops [] processed hash = λ h. inl h
  handle_events-settles ops (other_event ∷ events) processed hash =
      handle_events-settles ops events processed hash
  handle_events-settles ops (user_operation_event user_op_hash success cost ∷ events) processed
        hash =
      elim (Option-cases (find_user_op user_op_hash ops)) [
        | inl e ↦ rw (e, handle_events) (handle_events-settles ops events processed hash)
        | inr (op, e) ↦
            rw (e, handle_events)
              (λ h.
                elim (handle_events-settles ops events (insert op.mee_user_op_hash true processed)
                  hash h) [
                    | inr settled ↦ inr (inr settled)
                    | inl k ↦ elim (is_processed-insert op.mee_user_op_hash hash processed k) [
                      | inl same ↦ inr (inl (same, refl, refl, refl))
                      | inr before ↦ inl before
                    ]
                  ])
      ]

  -- Each user operation is processed, or settled by one of the calls.
  abbrev IsCovered : Processed → List MeeUserOp → List StorageCall → Type 0
  IsCovered processed ops calls =
      All
        (λ op.
          (is_processed processed op.mee_user_op_hash ≡ true)
          ⊎ IsSettledBy calls op.mee_user_op_hash)
        ops

  mark_unprocessed-kept :
      (processed : Processed) (op : MeeUserOp) (ops : List MeeUserOp)
      → is_processed processed op.mee_user_op_hash ≡ true
      → mark_unprocessed ctx tx_hash is_confirmed processed ops
        ≡ mark_unprocessed ctx tx_hash is_confirmed processed (op ∷ ops)
  unfolding mark_unprocessed
  mark_unprocessed-kept processed op ops e = rw e

  mark_unprocessed-added :
      (processed : Processed) (op : MeeUserOp) (ops : List MeeUserOp)
      → is_processed processed op.mee_user_op_hash ≡ false
      → update_fields op.mee_user_op_hash
            (result_fields ctx tx_hash is_confirmed none (some (codes "Failed to execute userOp")))
          ∷ mark_unprocessed ctx tx_hash is_confirmed processed ops
        ≡ mark_unprocessed ctx tx_hash is_confirmed processed (op ∷ ops)
  unfolding mark_unprocessed
  mark_unprocessed-added processed op ops e = rw e

  mark_unprocessed-IsCovered :
      (processed : Processed) (ops : List MeeUserOp)
      → IsCovered processed ops (mark_unprocessed ctx tx_hash is_confirmed processed ops)
  mark_unprocessed-IsCovered processed [] = tt
  mark_unprocessed-IsCovered processed (op ∷ ops) =
      let rest = mark_unprocessed-IsCovered processed ops in
      elim (Bool-cases (is_processed processed op.mee_user_op_hash)) [
        | inl e ↦
            subst (IsCovered processed (op ∷ ops)) (mark_unprocessed-kept processed op ops e)
              (inl e, rest)
        | inr e ↦
            subst (IsCovered processed (op ∷ ops)) (mark_unprocessed-added processed op ops e) (
              inr (inl (settles op.mee_user_op_hash none _)),
              All-map _ _ (λ op' h. elim h [ inl k ↦ inl k | inr k ↦ inr (inr k) ]) ops rest,
            )
      ]

  result_calls-settles :
      (ops : List MeeUserOp) (receipt : Option Receipt)
      → All
          (λ op.
            IsSettledBy (result_calls ctx tx_hash is_confirmed ops receipt) op.mee_user_op_hash)
          ops
  unfolding result_calls
  result_calls-settles ops none = without_receipt-settles ops
  result_calls-settles ops (some receipt) =
      let (calls, processed) = handle_events ctx tx_hash is_confirmed ops receipt.events [] in
      All-map _ _
        (λ op h. elim h [
          | inl k ↦ elim (handle_events-settles ops receipt.events [] op.mee_user_op_hash k) [
            | inl before ↦ absurd (no_processed op.mee_user_op_hash before)
            | inr settled ↦ IsSettledBy-left calls _ op.mee_user_op_hash settled
          ]
          | inr settled ↦ IsSettledBy-right calls _ op.mee_user_op_hash settled
        ])
        ops (mark_unprocessed-IsCovered processed ops)

  -- Whatever the receipt holds, or with none, the calls that
  -- `handleSupertransactionExecutionResult` makes settle every user operation of the block: each
  -- gets the transaction's hash, the time at which it finished and the confirmation, so none is
  -- left pending.
  pub handle_supertransaction_execution_result-settles :
      (ops : List MeeUserOp) (receipt : Option Receipt) (w : World)
      → All
          (λ op.
            IsSettledBy
              (handle_supertransaction_execution_result ctx tx_hash is_confirmed ops receipt
                w).calls
              op.mee_user_op_hash)
          ops
  unfolding handle_supertransaction_execution_result
  handle_supertransaction_execution_result-settles ops receipt w =
      All-map _ _ (λ op h. IsSettledBy-right w.calls _ op.mee_user_op_hash h) ops
        (result_calls-settles ops receipt)
