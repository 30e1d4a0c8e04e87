-- ===== src/Batcher/Blocks.antt =====
-- The blocks that the batcher makes.
use composable_batch_erc.Common.{
  ℕ, ◌+◌, ◌≤◌, ◌<◌, ◌≡◌, inl, inr, refl, arith, Bool, true, false, List, [], ◌∷◌, ◌++◌, Option,
  none, some, All, All-append, Bool-cases, Option-cases, ltb, ◌&&◌,
}
use composable_batch_erc.UserOps.Interfaces.{MeeUserOp, MeeUserOpBatch}
use composable_batch_erc.Batcher.{
  Loop, empty_batch, push_op, add_op, batch_ops, is_empty, finish_batches,
  try_to_batch_completed_simulations,
}

module _ (limit : MeeUserOp → Option ℕ) (cap : ℕ) where
  -- The gas limit of an operation; one that cannot be read counts as 0.
  abbrev pub gas_of : MeeUserOp → ℕ
  gas_of op = elim (limit op) [ none ↦ 0 | some gas ↦ gas ]

  abbrev pub total_gas : List MeeUserOp → ℕ
  total_gas [] = 0
  total_gas (op ∷ ops) = gas_of op + total_gas ops

  total_gas-push :
      (ops : List MeeUserOp) (op : MeeUserOp)
      → total_gas (ops ++ op ∷ []) ≡ total_gas ops + gas_of op
  total_gas-push [] op = omega arith
  total_gas-push (o ∷ ops) op = omega (arith, total_gas-push ops op)

  -- A block that can be executed: some operations, whose gas limits add up to the block's, within
  -- the cap.
  pub record IsBlock (b : MeeUserOpBatch) : Type 0 where
    pub nonempty : is_empty b.mee_user_ops ≡ false
    pub total : b.batch_gas_limit ≡ total_gas b.mee_user_ops
    pub within : b.batch_gas_limit ≤ cap

  -- The open batch may still be empty, and then its gas is 0.
  record IsOpen (b : MeeUserOpBatch) : Type 0 where
    total : b.batch_gas_limit ≡ total_gas b.mee_user_ops
    within : b.batch_gas_limit ≤ cap

  IsOpen-IsBlock : (b : MeeUserOpBatch) → IsOpen b → is_empty b.mee_user_ops ≡ false → IsBlock b
  IsOpen-IsBlock b o h = record { nonempty = h; total = o.total; within = o.within }

  empty-gas :
      (b : MeeUserOpBatch) → IsOpen b → 0 < b.batch_gas_limit → is_empty b.mee_user_ops ≡ false
  empty-gas b o h = nonempty b.mee_user_ops (omega (arith, o.total))
    where
      nonempty : (ops : List MeeUserOp) → 0 < total_gas ops → is_empty ops ≡ false
      nonempty [] k = elim k [ ]
      nonempty (op ∷ ops) k = refl

  abbrev IsFair : Loop → Type 0
  IsFair s = All IsBlock s.batches × IsOpen s.batch

  push-IsOpen :
      (b : MeeUserOpBatch) (op : MeeUserOp) (gas : ℕ)
      → IsOpen b
      → limit op ≡ some gas
      → b.batch_gas_limit + gas ≤ cap
      → IsOpen (push_op op gas b)
  push-IsOpen b op gas o e h = record {
    total = ground (arith, total_gas-push b.mee_user_ops op, o.total);
    within = h;
  }

  add_op-IsFair :
      (s : Loop) (op : MeeUserOp) (gas : ℕ)
      → limit op ≡ some gas
      → IsFair s
      → IsFair (add_op cap op gas s)
  unfolding add_op
  add_op-IsFair s op gas e f = elim (Bool-cases (ltb cap gas)) [
    | inl big ↦ rw big f
    | inr fits ↦ elim (Bool-cases (ltb cap (s.batch.batch_gas_limit + gas))) [
      | inl full ↦
          let small : 0 + gas ≤ cap = ground arith in
          let used : 0 < s.batch.batch_gas_limit = ground arith in
          let closed : IsBlock s.batch = IsOpen-IsBlock s.batch f.1 (empty-gas s.batch f.1 used) in
          rw (fits, full)
            (
              All-append IsBlock s.batches (s.batch ∷ []) f.0 (closed, tt),
              push-IsOpen empty_batch op gas (record { total = refl; within = omega arith }) e
                  small,
            )
      | inr room ↦ rw (fits, room) (f.0, push-IsOpen s.batch op gas f.1 e (ground arith))
    ]
  ]

  batch_ops-IsFair :
      (ops : List MeeUserOp) (s : Loop) → IsFair s → IsFair (batch_ops limit cap ops s).0
  unfolding batch_ops
  batch_ops-IsFair [] s f = f
  batch_ops-IsFair (op ∷ ops) s f = elim (Option-cases (limit op)) [
    | inl e ↦ rw (e, batch_ops) f
    | inr (gas, e) ↦
        rw (e, batch_ops) (batch_ops-IsFair ops (add_op cap op gas s) (add_op-IsFair s op gas e f))
  ]

  finish_batches-IsBlock : (s : Loop) → IsFair s → All IsBlock (finish_batches s)
  unfolding finish_batches
  finish_batches-IsBlock s f = elim (Bool-cases (is_empty s.batch.mee_user_ops)) [
    | inl e ↦ rw e f.0
    | inr e ↦
        rw e (All-append IsBlock s.batches (s.batch ∷ []) f.0 (IsOpen-IsBlock s.batch f.1 e, tt))
  ]

  abbrev pub start : Loop
  start = record { batches = []; batch = empty_batch; marked = [] }

  start-IsOpen : IsOpen empty_batch
  start-IsOpen = record { total = refl; within = omega arith }

  -- Every block that the batcher queues holds at least one operation, its gas limit is the sum of
  -- their gas limits, and it does not exceed the cap of the chain.
  pub added-IsBlock :
      (waiting : Bool) (jobs : List MeeUserOp) (add_succeeds : Bool)
      → All IsBlock (try_to_batch_completed_simulations limit cap waiting jobs add_succeeds).added
  unfolding try_to_batch_completed_simulations
  added-IsBlock true jobs add_succeeds = tt
  added-IsBlock false [] add_succeeds = tt
  added-IsBlock false (op ∷ ops) add_succeeds =
      elim (Bool-cases ((batch_ops limit cap (op ∷ ops) start).1 && add_succeeds)) [
        | inl e ↦ rw e (
            finish_batches-IsBlock (batch_ops limit cap (op ∷ ops) start).0
              (batch_ops-IsFair (op ∷ ops) start (tt, start-IsOpen)))
        | inr e ↦ rw e tt
      ]
