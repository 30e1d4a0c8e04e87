-- ===== src/RpcManager/ExecuteRequest.antt =====
-- `executeRequest` of orchestrator-node/src/modules/rpc-manager/rpc-manager.service.ts. What the
-- request function does with a provider's client is an argument. The providers of a chain are
-- distinct objects, so `indexOf` is the position of the loop.
pub mod Failover
use composable_batch_erc.Common.{
  ℕ, Bool, true, false, not, ◌&&◌, List, [], ◌∷◌, ◌++◌, Option, none, some, if◌then◌else◌, Reply,
  ok, thrown,
}
use composable_batch_erc.Common.Text.{Text, codes, text_eq}
use composable_batch_erc.Common.Assoc.{lookup}
use composable_batch_erc.Errors.Sanitize.{sanitize_url}
use composable_batch_erc.RpcManager.ClassifyError.{
  RpcError, RpcErrorType, retriable, non_retriable, rate_limit, chain_error, other, classify_error,
}
use composable_batch_erc.RpcManager.Providers.{RpcProvider, RpcChainConfig, is_degraded}

pub record ProviderFailure : Type 0 where
  pub provider : Text
  pub error : Text

-- How `executeRequest` settles: with the request's result, with an `Error` of the given name and
-- message for a failure that no other provider can mend, with one for all providers, or with one
-- for a chain that has no configuration.
pub data Outcome (A : Type 0) : Type 0 where
  returned : A → Outcome A
  rejected : RpcErrorType → Text → Outcome A
  all_failed : List ProviderFailure → Text → Outcome A
  config_not_found : Text → Outcome A

abbrev pub is_empty {ℓ} : {A : Type ℓ} → List A → Bool
is_empty [] = true
is_empty (x ∷ xs) = false

-- `(error as any)?.message || "RPC request failed"`.
unfoldable pub message_of : RpcError → Text
message_of error = elim error.message [
  | none ↦ codes "RPC request failed"
  | some message ↦ if text_eq message [] then codes "RPC request failed" else message
]

-- `Array.prototype.join`.
unfoldable pub join : Text → List Text → Text
join separator [] = []
join separator (s ∷ []) = s
join separator (s ∷ t ∷ rest) = s ++ (separator ++ join separator (t ∷ rest))

abbrev new_line : Text
new_line = 10 ∷ []

failure_lines : List ProviderFailure → List Text
failure_lines [] = []
failure_lines (e ∷ errors) = (codes "- " ++ sanitize_url e.error) ∷ failure_lines errors

unfoldable pub all_provider_error_message : Text → List ProviderFailure → Text
unfolding failure_lines join
all_provider_error_message chain_id errors =
    codes "All RPC providers failed to execute rpc call for chainId "
    ++ (chain_id
        ++ (codes "."
            ++ (new_line
                ++ (codes "    Provider errors:"
                    ++ (new_line
                        ++ (codes "    "
                            ++ (join new_line (failure_lines errors)
                                ++ (new_line ++ codes "    "))))))))

unfoldable pub client_not_found : Text → RpcError
client_not_found chain_id = record {
  class = other;
  message = some (codes "Provider client not found for chain " ++ chain_id);
  code = none;
  name = some (codes "Error");
  status = none;
}

-- Other providers take over after these.
unfoldable pub is_failover : RpcErrorType → Bool
is_failover retriable = true
is_failover rate_limit = true
is_failover non_retriable = false
is_failover chain_error = false

module _ {A : Type 0} (chain_id : Text) (request_fn : RpcProvider → Reply RpcError A) where
  -- The body of the `try`.
  unfoldable pub attempt : RpcProvider → Reply RpcError A
  attempt p = if p.client then request_fn p else thrown (client_not_found chain_id)

  -- A degraded provider is skipped unless it is the last one.
  unfoldable pub is_skipped : RpcProvider → List RpcProvider → Bool
  is_skipped p rest = is_degraded p.state && not (is_empty rest)

  -- The loop over the providers, in their order, with the errors so far.
  unfoldable pub try_providers : List RpcProvider → List ProviderFailure → Outcome A
  try_providers [] errors = all_failed errors (all_provider_error_message chain_id errors)
  try_providers (p ∷ rest) errors =
      let next = λ (errors' : List ProviderFailure). try_providers rest errors' in
      elim (is_skipped p rest) [
        | true ↦ next errors
        | false ↦ elim (attempt p) [
          | ok a ↦ returned a
          | thrown error ↦
              if is_failover (classify_error error)
              then next (errors ++ record { provider = p.url; error = message_of error } ∷ [])
              else rejected (classify_error error) (sanitize_url (message_of error))
        ]
      ]

  unfoldable pub execute_request : List (Text × RpcChainConfig) → Outcome A
  unfolding try_providers attempt is_skipped
  execute_request configs = elim (lookup chain_id configs) [
    | none ↦
        config_not_found (codes "RPC Chain config for chain (" ++ (chain_id ++ codes ") not found"))
    | some config ↦ try_providers config.providers []
  ]
