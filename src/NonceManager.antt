-- ===== src/NonceManager.antt =====
-- `NonceManagerService` of orchestrator-node/src/modules/nonce-manager/nonce-manager.service.ts.
-- The two `Map` trackers are association lists; the answer of the RPC provider is an argument.
pub mod Laws
use composable_batch_erc.Common.{
  ℕ, ◌+◌, List, [], ◌∷◌, Option, none, some, Bool, true, false, if◌then◌else◌, ◌==◌, Reply, ok,
  thrown,
}
use composable_batch_erc.Common.Text.{Text, to_lower_case}
use composable_batch_erc.Common.Assoc.{lookup, insert}

abbrev pub Tracker : Type 0
Tracker = List (Text × List (Text × ℕ))

pub record Nonces : Type 0 where
  pub unused_nonce_tracker_by_chain : Tracker
  pub used_nonce_tracker_by_chain : Tracker

-- The inner map of a chain, made empty and stored if it is missing.
unfoldable pub with_inner_map : Text → Tracker → List (Text × ℕ) × Tracker
with_inner_map chain_id t = elim (lookup chain_id t) [
  | none ↦ ([], insert chain_id [] t)
  | some inner ↦ (inner, t)
]

-- The reads, and the tracker that they leave.
unfoldable pub get_tracked : Text → Text → Tracker → Option ℕ × Tracker
unfolding with_inner_map
get_tracked worker_address chain_id t =
    let (inner, t') = with_inner_map chain_id t in (lookup (to_lower_case worker_address) inner, t')

-- `usedNonceTracker.set` on the stored inner map.
unfoldable pub set_tracked : Text → Text → ℕ → Tracker → Tracker
unfolding with_inner_map
set_tracked worker_address chain_id nonce t =
    let (inner, t') = with_inner_map chain_id t in
    insert chain_id (insert (to_lower_case worker_address) nonce inner) t'

unfoldable pub get_used_nonce : Text → Text → Nonces → Option ℕ × Nonces
unfolding get_tracked
get_used_nonce worker_address chain_id s =
    let (nonce, t) = get_tracked worker_address chain_id s.used_nonce_tracker_by_chain in
    (nonce, record s { used_nonce_tracker_by_chain = t })

unfoldable pub get_unused_nonce : Text → Text → Nonces → Option ℕ × Nonces
unfolding get_tracked
get_unused_nonce worker_address chain_id s =
    let (nonce, t) = get_tracked worker_address chain_id s.unused_nonce_tracker_by_chain in
    (nonce, record s { unused_nonce_tracker_by_chain = t })

unfoldable pub set_used_nonce : Text → Text → ℕ → Nonces → Nonces
unfolding set_tracked
set_used_nonce worker_address chain_id nonce s = record s {
  used_nonce_tracker_by_chain =
      set_tracked worker_address chain_id nonce s.used_nonce_tracker_by_chain;
}

unfoldable pub set_unused_nonce : Text → Text → ℕ → Nonces → Nonces
unfolding set_tracked
set_unused_nonce worker_address chain_id nonce s = record s {
  unused_nonce_tracker_by_chain =
      set_tracked worker_address chain_id nonce s.unused_nonce_tracker_by_chain;
}

unfoldable pub mark_nonce_as_used : Text → Text → ℕ → Nonces → Nonces
unfolding set_used_nonce set_unused_nonce
mark_nonce_as_used worker_address chain_id nonce s =
    set_unused_nonce worker_address chain_id (nonce + 1)
      (set_used_nonce worker_address chain_id nonce s)

-- `unusedNonce === usedNonce`.
unfoldable pub is_out_of_sync : ℕ → Option ℕ → Bool
is_out_of_sync unused none = false
is_out_of_sync unused (some used) = unused == used

module _ {E : Type 0} where
  -- `executeRequest` gave `answer`.
  unfoldable pub get_nonce_from_rpc : Text → Text → Reply E ℕ → Nonces → Reply E ℕ × Nonces
  unfolding set_unused_nonce
  get_nonce_from_rpc worker_address chain_id (thrown e) s = (thrown e, s)
  get_nonce_from_rpc worker_address chain_id (ok nonce) s =
      (ok nonce, set_unused_nonce worker_address chain_id nonce s)

  unfoldable pub get_cached_nonce : Text → Text → Reply E ℕ → Nonces → Reply E ℕ × Nonces
  unfolding get_unused_nonce get_used_nonce get_nonce_from_rpc is_out_of_sync
  get_cached_nonce worker_address chain_id answer s =
      let (found, s1) = get_unused_nonce worker_address chain_id s in
      elim found [
        | none ↦ get_nonce_from_rpc worker_address chain_id answer s1
        | some unused ↦
            let (used, s2) = get_used_nonce worker_address chain_id s1 in
            if is_out_of_sync unused used
            then get_nonce_from_rpc worker_address chain_id answer s2
            else (ok unused, s2)
      ]

  unfoldable pub get_nonce : Text → Text → Bool → Reply E ℕ → Nonces → Reply E ℕ × Nonces
  unfolding get_cached_nonce get_nonce_from_rpc
  get_nonce worker_address chain_id force_fetch answer s =
      if force_fetch
      then get_nonce_from_rpc worker_address chain_id answer s
      else get_cached_nonce worker_address chain_id answer s

-- The nonce that a tracker holds for a worker on a chain.
unfoldable pub tracked : Text → Text → Tracker → Option ℕ
tracked worker_address chain_id t = elim (lookup chain_id t) [
  | none ↦ none
  | some inner ↦ lookup (to_lower_case worker_address) inner
]
