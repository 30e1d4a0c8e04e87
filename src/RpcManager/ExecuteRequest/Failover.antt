-- ===== src/RpcManager/ExecuteRequest/Failover.antt =====
-- Which provider answers a request, and what the caller sees when none does.
use composable_batch_erc.Common.{
  true, false, List, [], ◌∷◌, ◌++◌, some, ◌≡◌, ◌⊎◌, inl, inr, refl, arith, ◌∙◌, Reply, ok, thrown,
  All, Bool-cases,
}
use composable_batch_erc.Common.Text.{Text}
use composable_batch_erc.Common.Assoc.{lookup}
use composable_batch_erc.Errors.Sanitize.{sanitize_url, has_url}
use composable_batch_erc.Errors.Sanitize.Laws.{has_url-sanitize_url}
use composable_batch_erc.RpcManager.ClassifyError.{RpcError, classify_error}
use composable_batch_erc.RpcManager.Providers.{
  RpcProvider, RpcChainConfig, active, degraded, is_degraded,
}
use composable_batch_erc.RpcManager.ExecuteRequest.{
  ProviderFailure, returned, rejected, is_empty, message_of, is_failover, attempt, is_skipped,
  try_providers, execute_request,
}

is_empty-append_cons {ℓ} : {A : Type ℓ} (xs ys : List A) (x : A) → is_empty (xs ++ x ∷ ys) ≡ false
is_empty-append_cons [] ys x = refl
is_empty-append_cons (y ∷ xs) ys x = refl

module _ {A : Type 0} (chain_id : Text) (request_fn : RpcProvider → Reply RpcError A) where
  -- The loop on its first provider, one lemma for each way that the round can go.
  try-skipped :
      (p : RpcProvider) (rest : List RpcProvider) (errors : List ProviderFailure)
      → is_skipped chain_id request_fn p rest ≡ true
      → try_providers chain_id request_fn (p ∷ rest) errors
        ≡ try_providers chain_id request_fn rest errors
  unfolding try_providers
  try-skipped p rest errors h = rw (h, try_providers)

  try-ok :
      (p : RpcProvider) (rest : List RpcProvider) (errors : List ProviderFailure) {a : A}
      → is_skipped chain_id request_fn p rest ≡ false
      → attempt chain_id request_fn p ≡ ok a
      → try_providers chain_id request_fn (p ∷ rest) errors ≡ returned a
  unfolding try_providers
  try-ok p rest errors h e = rw (h, e, try_providers)

  try-failover :
      (p : RpcProvider) (rest : List RpcProvider) (errors : List ProviderFailure) {error : RpcError}
      → is_skipped chain_id request_fn p rest ≡ false
      → attempt chain_id request_fn p ≡ thrown error
      → is_failover (classify_error error) ≡ true
      → try_providers chain_id request_fn (p ∷ rest) errors
        ≡ try_providers chain_id request_fn rest
            (errors ++ record { provider = p.url; error = message_of error } ∷ [])
  unfolding try_providers
  try-failover p rest errors h e k = rw (h, e, k, try_providers)

  try-rejected :
      (p : RpcProvider) (rest : List RpcProvider) (errors : List ProviderFailure) {error : RpcError}
      → is_skipped chain_id request_fn p rest ≡ false
      → attempt chain_id request_fn p ≡ thrown error
      → is_failover (classify_error error) ≡ false
      → try_providers chain_id request_fn (p ∷ rest) errors
        ≡ rejected (classify_error error) (sanitize_url (message_of error))
  unfolding try_providers
  try-rejected p rest errors h e k = rw (h, e, k, try_providers)

  is_skipped-degraded :
      (p : RpcProvider) (rest : List RpcProvider)
      → p.state ≡ degraded
      → is_empty rest ≡ false
      → is_skipped chain_id request_fn p rest ≡ true
  unfolding is_skipped is_degraded
  is_skipped-degraded p rest h k = rw (h, k)

  -- The provider cannot settle the request while others follow: it is degraded, or it fails with
  -- an error after which another provider takes over.
  abbrev pub PassesOver : RpcProvider → Type 0
  PassesOver p =
      (p.state ≡ degraded)
      ⊎ ((error : RpcError) × (attempt chain_id request_fn p ≡ thrown error)
          × (is_failover (classify_error error) ≡ true))

  -- The loop reaches what stands behind providers that pass over.
  pub try_providers-passes :
      (before : List RpcProvider) (p : RpcProvider) (after : List RpcProvider)
      (errors : List ProviderFailure)
      → All PassesOver before
      → (errors' : List ProviderFailure) × (try_providers chain_id request_fn
            (before ++ p ∷ after)
            errors
          ≡ try_providers chain_id request_fn (p ∷ after) errors')
  try_providers-passes [] p after errors h = (errors, refl)
  try_providers-passes (q ∷ before) p after errors (inl d, hs) =
      let (errors', e) = try_providers-passes before p after errors hs in
      let skip =
        is_skipped-degraded q (before ++ p ∷ after) d (is_empty-append_cons before after p) in
      (errors', try-skipped q (before ++ p ∷ after) errors skip ∙ e)
  try_providers-passes (q ∷ before) p after errors (inr (error, e, k), hs) =
      elim (Bool-cases (is_skipped chain_id request_fn q (before ++ p ∷ after))) [
        | inl skip ↦
            let (errors', same) = try_providers-passes before p after errors hs in
            (errors', try-skipped q (before ++ p ∷ after) errors skip ∙ same)
        | inr asked ↦
            let failed : List ProviderFailure =
              errors ++ record { provider = q.url; error = message_of error } ∷ [] in
            let (errors', same) = try_providers-passes before p after failed hs in
            (errors', try-failover q (before ++ p ∷ after) errors asked e k ∙ same)
      ]

  -- The provider is asked: it is active, or no other provider follows it.
  abbrev pub IsAsked : RpcProvider → List RpcProvider → Type 0
  IsAsked p after = (p.state ≡ active) ⊎ (after ≡ [])

  is_skipped-asked :
      (p : RpcProvider) (after : List RpcProvider)
      → IsAsked p after
      → is_skipped chain_id request_fn p after ≡ false
  unfolding is_skipped is_degraded
  is_skipped-asked p after h = ground arith

  module _ (configs : List (Text × RpcChainConfig)) (config : RpcChainConfig)
      (before : List RpcProvider) (p : RpcProvider) (after : List RpcProvider)
      (configured : lookup chain_id configs ≡ some config)
      (ordered : config.providers ≡ before ++ p ∷ after) (passed : All PassesOver before)
      (asked : IsAsked p after) where
    reaches :
        (errors : List ProviderFailure) × (execute_request chain_id request_fn configs
          ≡ try_providers chain_id request_fn (p ∷ after) errors)
    unfolding execute_request
    reaches =
        let (errors, e) = try_providers-passes before p after [] passed in
        (errors, rw (configured, ordered, execute_request) e)

    -- A request is answered by the first provider that is asked and succeeds: when every provider
    -- before it is degraded or fails with an error that lets others take over, and it is active or
    -- the last one, the caller gets its result.
    pub execute_request-returned :
        (a : A)
        → attempt chain_id request_fn p ≡ ok a
        → execute_request chain_id request_fn configs ≡ returned a
    execute_request-returned a e =
        let (errors, same) = reaches in
        same ∙ try-ok p after errors (is_skipped-asked p after asked) e

    -- A failure that no other provider can mend ends the request at once: the later providers are
    -- not asked, and the caller gets the class of the error and a message with no URL in it.
    pub execute_request-rejected :
        (error : RpcError)
        → attempt chain_id request_fn p ≡ thrown error
        → is_failover (classify_error error) ≡ false
        → (execute_request chain_id request_fn configs
            ≡ rejected (classify_error error) (sanitize_url (message_of error)))
          × (has_url (sanitize_url (message_of error)) ≡ false)
    execute_request-rejected error e k =
        let (errors, same) = reaches in
        (
          same ∙ try-rejected p after errors (is_skipped-asked p after asked) e k,
          has_url-sanitize_url (message_of error),
        )
