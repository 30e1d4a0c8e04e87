-- ===== src/GasManager/FetchGuard.antt =====
-- The guard of `fetchGasInfo` in orchestrator-node/src/modules/gas-manager/gas-manager.service.ts,
-- as the events of its calls for one chain. The early `return` stands inside the `try`, so its
-- `finally` runs for it too.
use composable_batch_erc.Common.{
  ℕ, zero, suc, ◌+◌, ◌-◌, Bool, true, false, ◌≡◌, List, [], ◌∷◌, if◌then◌else◌, ltb, arith,
}

-- The flag of the chain, and how many calls are at their requests.
pub record Guard : Type 0 where
  pub is_in_progress : Bool
  pub in_flight : ℕ

abbrev pub quiet : Guard
quiet = record { is_in_progress = false; in_flight = 0 }

-- A call is made; or the requests of a call that is in flight are answered.
pub data Event : Type 0 where
  call answer : Event

unfoldable pub step : Event → Guard → Guard
step call g =
    if g.is_in_progress
    then record g { is_in_progress = false }
    else record { is_in_progress = true; in_flight = g.in_flight + 1 }
step answer g =
    if ltb 0 g.in_flight then record { is_in_progress = false; in_flight = g.in_flight - 1 } else g

unfoldable pub run : List Event → Guard → Guard
unfolding step
run [] g = g
run (e ∷ es) g = run es (step e g)

-- Two calls, n times over.
abbrev pub call_pairs : ℕ → List Event
call_pairs zero = []
call_pairs (suc n) = call ∷ call ∷ call_pairs n

call_pairs-run :
    (n k : ℕ)
    → run (call_pairs n) (record { is_in_progress = false; in_flight = k })
      ≡ record { is_in_progress = false; in_flight = k + n }
unfolding run
call_pairs-run zero k = ground arith
call_pairs-run (suc n) k = ground (arith, call_pairs-run n (k + 1))

-- The guard does not keep the fetches of a chain one at a time: a call that finds the flag set
-- clears it, so for every n there are calls after which n fetches are in flight at once.
pub concurrent_fetches : (n : ℕ) → (es : List Event) × ((run es quiet).in_flight ≡ n)
concurrent_fetches n = (call_pairs n, ground (arith, call_pairs-run n 0))
