-- ===== src/Witnesses/Batches.antt =====
-- The batcher and the nonce manager at concrete inputs.
use composable_batch_erc.Common.{
  ℕ, ◌≡◌, ◌⊎◌, refl, true, false, [], ◌∷◌, Option, some, Reply, ok, thrown, All, if◌then◌else◌,
  keep, arith,
}
use composable_batch_erc.Common.Text.{codes, text_eq, to_lower_case}
use composable_batch_erc.Common.Assoc.{lookup}
use composable_batch_erc.UserOps.Interfaces.{MeeUserOp}
use composable_batch_erc.Executor.Records.{Failure}
use composable_batch_erc.NonceManager.{Nonces, tracked, get_nonce}
use composable_batch_erc.NonceManager.Laws.{
  CanServe, rounds, consecutive, rounds-consecutive, get_nonce-fresh,
}
use composable_batch_erc.Batcher.{try_to_batch_completed_simulations}
use composable_batch_erc.Batcher.Blocks.{IsBlock, added-IsBlock}
use composable_batch_erc.Batcher.Conservation.{ops_of, fits_cap, hashes, over_cap, added-conserves}
use composable_batch_erc.Witnesses.Samples.{both_ops, refused}

abbrev limits : MeeUserOp → Option ℕ
limits op = some (if text_eq op.user_op_hash (codes "0xaa") then 400 else 700)

added-conserves_example :
    let run = try_to_batch_completed_simulations limits 600 false both_ops true in
    (ops_of limits 600 run.added ≡ keep (fits_cap limits 600) both_ops)
    × (run.marked ≡ hashes limits 600 (keep (over_cap limits 600) both_ops))
    × (run.removed ≡ both_ops)
added-conserves_example = added-conserves limits 600 both_ops ((λ e. cc), ((λ e. cc), tt))

added-IsBlock_example :
    All
      (IsBlock limits 600)
      (try_to_batch_completed_simulations limits 600 false both_ops true).added
added-IsBlock_example = added-IsBlock limits 600 false both_ops true

-- Nonce 6 was used last, and 7 is next.
abbrev seventh : Nonces
seventh = record {
  unused_nonce_tracker_by_chain = (codes "8453", (codes "0xworker", 7) ∷ []) ∷ [];
  used_nonce_tracker_by_chain = (codes "8453", (codes "0xworker", 6) ∷ []) ∷ [];
}

serves : CanServe (codes "0xWorker") (codes "8453") 7 seventh
unfolding tracked lookup text_eq to_lower_case
serves = (refl, λ e. ground arith)

rounds-consecutive_example :
    rounds {E = Failure} (codes "0xWorker") (codes "8453") (ok 3 ∷ thrown refused ∷ []) seventh
    ≡ consecutive (codes "0xWorker") (codes "8453") 7 (ok 3 ∷ thrown refused ∷ [])
rounds-consecutive_example =
    rounds-consecutive {E = Failure} (codes "0xWorker") (codes "8453") (ok 3 ∷ thrown refused ∷ [])
      7 seventh serves

serves_seven :
    (get_nonce {E = Failure} (codes "0xWorker") (codes "8453") false (ok 3) seventh).0 ≡ ok 7
unfolding get_nonce tracked lookup text_eq to_lower_case
serves_seven = refl

abbrev three : Reply Failure ℕ
three = ok 3

get_nonce-fresh_example : (three ≡ ok 7) ⊎ CanServe (codes "0xWorker") (codes "8453") 7 seventh
get_nonce-fresh_example =
    get_nonce-fresh (codes "0xWorker") (codes "8453") three seventh 7 serves_seven
