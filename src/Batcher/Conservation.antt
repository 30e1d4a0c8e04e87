-- ===== src/Batcher/Conservation.antt =====
-- Which operations the batcher takes in.
use composable_batch_erc.Common.{
  ℕ, ◌+◌, ◌≡◌, ◌≢◌, inl, inr, refl, ap, ◌∙◌, sym, arith, Bool, true, false, List, [], ◌∷◌, ◌++◌,
  Option, none, All, Bool-cases, Option-cases, if◌then◌else◌, ltb, not, keep,
}
use mathlib.Core.List.{append_assoc, append-nil}
use composable_batch_erc.Common.Text.{Text}
use composable_batch_erc.UserOps.Interfaces.{MeeUserOp, MeeUserOpBatch}
use composable_batch_erc.Batcher.{
  Loop, add_op, batch_ops, is_empty, finish_batches, try_to_batch_completed_simulations,
}
use composable_batch_erc.Batcher.Blocks.{gas_of, start}

module _ (limit : MeeUserOp → Option ℕ) (cap : ℕ) where
  -- The operations of a list of blocks, in order.
  abbrev pub ops_of : List MeeUserOpBatch → List MeeUserOp
  ops_of [] = []
  ops_of (b ∷ bs) = b.mee_user_ops ++ ops_of bs

  ops_of-push :
      (bs : List MeeUserOpBatch) (b : MeeUserOpBatch)
      → ops_of (bs ++ b ∷ []) ≡ ops_of bs ++ b.mee_user_ops
  ops_of-push [] b = append-nil b.mee_user_ops
  ops_of-push (c ∷ bs) b = rw (ops_of-push bs b, append_assoc)

  -- The operations that were taken in so far.
  abbrev taken : Loop → List MeeUserOp
  taken s = ops_of s.batches ++ s.batch.mee_user_ops

  abbrev pub fits_cap : MeeUserOp → Bool
  fits_cap op = not (ltb cap (gas_of limit cap op))

  abbrev pub hashes : List MeeUserOp → List Text
  hashes [] = []
  hashes (op ∷ ops) = op.mee_user_op_hash ∷ hashes ops

  -- What a round takes in, and what it marks.
  add_op-taken :
      (s : Loop) (op : MeeUserOp) (gas : ℕ)
      → taken (add_op cap op gas s) ≡ (if ltb cap gas then taken s else taken s ++ op ∷ [])
  unfolding add_op
  add_op-taken s op gas = elim (Bool-cases (ltb cap gas)) [
    | inl big ↦ rw big
    | inr fits ↦ elim (Bool-cases (ltb cap (s.batch.batch_gas_limit + gas))) [
      | inl full ↦ rw (fits, full) (ap (λ l. l ++ op ∷ []) (ops_of-push s.batches s.batch))
      | inr room ↦
          rw (fits, room) (sym (append_assoc (ops_of s.batches) s.batch.mee_user_ops (op ∷ [])))
    ]
  ]

  add_op-marked :
      (s : Loop) (op : MeeUserOp) (gas : ℕ)
      → (add_op cap op gas s).marked
        ≡ (if ltb cap gas then s.marked ++ op.mee_user_op_hash ∷ [] else s.marked)
  unfolding add_op
  add_op-marked s op gas = ground arith

  abbrev pub over_cap : MeeUserOp → Bool
  over_cap op = ltb cap (gas_of limit cap op)

  batch_ops-taken :
      (ops : List MeeUserOp) (s : Loop)
      → (batch_ops limit cap ops s).1 ≡ true
      → (taken (batch_ops limit cap ops s).0 ≡ taken s ++ keep fits_cap ops)
        × ((batch_ops limit cap ops s).0.marked ≡ s.marked ++ hashes (keep over_cap ops))
  unfolding batch_ops
  batch_ops-taken [] s h = (sym (append-nil _), sym (append-nil _))
  batch_ops-taken (op ∷ ops) s h = elim (Option-cases (limit op)) [
    | inl e ↦ cc (rw (e, batch_ops) at h)
    | inr (gas, e) ↦
        let rest : List MeeUserOp = keep fits_cap ops in
        let skipped : List Text = hashes (keep over_cap ops) in
        let (ih, ihm) = batch_ops-taken ops (add_op cap op gas s) (rw (e, batch_ops) at h) in
        let step = add_op-taken s op gas in
        let stepm = add_op-marked s op gas in
        elim (Bool-cases (ltb cap gas)) [
          | inl big ↦
              rw (e, batch_ops, gas_of)
                (rw big (
                  ih ∙ ap (λ l. l ++ rest) (rw big at step),
                  ihm
                      ∙ ap (λ l. l ++ skipped) (rw big at stepm)
                      ∙ append_assoc s.marked (op.mee_user_op_hash ∷ []) skipped,
                ))
          | inr fits ↦
              rw (e, batch_ops, gas_of)
                (rw fits (
                  ih
                      ∙ ap (λ l. l ++ rest) (rw fits at step)
                      ∙ append_assoc (taken s) (op ∷ []) rest,
                  ihm ∙ ap (λ l. l ++ skipped) (rw fits at stepm),
                ))
        ]
  ]

  finish_batches-ops : (s : Loop) → ops_of (finish_batches s) ≡ taken s
  unfolding finish_batches
  finish_batches-ops s = elim (Bool-cases (is_empty s.batch.mee_user_ops)) [
    | inl e ↦
        rw e
          (sym (append-nil _) ∙ ap (λ l. ops_of s.batches ++ l) (sym (nil s.batch.mee_user_ops e)))
    | inr e ↦ rw e (ops_of-push s.batches s.batch)
  ]
    where
      nil : (ops : List MeeUserOp) → is_empty ops ≡ true → ops ≡ []
      nil [] h = refl
      nil (op ∷ ops) h = cc

  ended :
      (ops : List MeeUserOp) (s : Loop)
      → All (λ op. limit op ≢ none) ops
      → (batch_ops limit cap ops s).1 ≡ true
  unfolding batch_ops
  ended [] s h = refl
  ended (op ∷ ops) s (h, hs) = elim (Option-cases (limit op)) [
    | inl e ↦ absurd (h e)
    | inr (gas, e) ↦ rw (e, batch_ops) (ended ops (add_op cap op gas s) hs)
  ]

  -- When no executor job waits, every gas limit can be read and the queue takes the blocks, the
  -- blocks hold exactly the operations whose gas limit is within the cap, each once and in their
  -- order; exactly the others are marked; and every simulator job is removed.
  pub added-conserves :
      (jobs : List MeeUserOp)
      → All (λ op. limit op ≢ none) jobs
      → let run = try_to_batch_completed_simulations limit cap false jobs true in
        (ops_of run.added ≡ keep fits_cap jobs)
        × (run.marked ≡ hashes (keep over_cap jobs))
        × (run.removed ≡ jobs)
  unfolding try_to_batch_completed_simulations
  added-conserves [] h = (refl, refl, refl)
  added-conserves (op ∷ ops) h =
      let e = ended (op ∷ ops) (start limit cap) h in
      let (ops', marked') = batch_ops-taken (op ∷ ops) (start limit cap) e in
      let final : Loop = (batch_ops limit cap (op ∷ ops) (start limit cap)).0 in
      rw e (finish_batches-ops final ∙ ops', marked', refl)
