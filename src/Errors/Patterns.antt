-- ===== src/Errors/Patterns.antt =====
-- The message lists of orchestrator-node/src/modules/executor/constants.ts, and the matcher of
-- orchestrator-node/src/modules/rpc-manager/classify-error.ts.
use composable_batch_erc.Common.{List, [], ◌∷◌, map, Bool, any, ◌≡◌, refl, ap₂, ◌||◌}
use composable_batch_erc.Common.Text.{Text, codes, to_lower_case, to_lower_case_twice, includes}

unfoldable pub nonce_error_messages : List Text
nonce_error_messages =
    codes "Try increasing the nonce"
    ∷ codes "find the latest nonce"
    ∷ codes "nonce too low"
    ∷ codes "Nonce provided for the transaction is lower"
    ∷ codes "next nonce"
    ∷ codes "find the latest nonce with `getTransactionCount`"
    ∷ codes "already known"
    ∷ codes "Nonce provided for the transaction is lower than the current nonce of the account"
    ∷ []

unfoldable pub replacement_transaction_gas_price_error_messages : List Text
replacement_transaction_gas_price_error_messages =
    codes "replacement transaction underpriced"
    ∷ codes "replacement underpriced"
    ∷ codes "underpriced replacement transaction"
    ∷ []

unfoldable pub gas_price_error_messages : List Text
gas_price_error_messages = codes "transaction underpriced" ∷ codes "underpriced transaction" ∷ []

unfoldable pub max_fee_error_messages : List Text
max_fee_error_messages =
    codes "cannot be lower than the block base fee"
    ∷ codes "The fee cap (`maxFeePerGas` gwei) cannot be lower than the block base fee"
    ∷ codes "The fee cap cannot be lower than the block base fee"
    ∷ codes "max fee per gas less than block base fee"
    ∷ []

unfoldable pub priority_fee_error_messages : List Text
priority_fee_error_messages =
    codes "cannot be higher than the fee cap"
    ∷ codes "The provided tip (`maxPriorityFeePerGas` gwei) cannot be higher than the fee cap"
    ∷ codes "The provided tip cannot be higher than the fee cap"
    ∷ codes "max priority fee per gas higher than max fee per gas"
    ∷ []

unfoldable pub time_out_error_messages : List Text
time_out_error_messages =
    codes "Timed out while waiting for transaction"
    ∷ codes "Timed out while waiting for transaction hash"
    ∷ codes "timeout exceeded"
    ∷ codes "Timed out"
    ∷ []

unfoldable pub block_gas_limit_exceeds_error_messages : List Text
block_gas_limit_exceeds_error_messages =
    codes "exceeds block gas limit" ∷ codes "block gas limit exceeds" ∷ []

unfoldable pub transaction_execution_sync_error_messages : List Text
transaction_execution_sync_error_messages =
    codes "The transaction was added to the mempool but wasn't processed"
    ∷ codes "Invalid transaction"
    ∷ []

-- `matchesErrorPattern`; an absent message is the empty text.
unfoldable pub matches_error_pattern : Text → List Text → Bool
matches_error_pattern message patterns =
    any (λ pattern_text. includes (to_lower_case message) pattern_text) (map to_lower_case patterns)

-- The loops `for (const m of LIST) if (errorMessage.includes(m.toLowerCase()))` of the executor,
-- over a message that is already in lower case.
unfoldable pub includes_any : Text → List Text → Bool
includes_any message patterns =
    any (λ pattern_text. includes message (to_lower_case pattern_text)) patterns

any-map :
    (message : Text) (patterns : List Text)
    → any (λ p. includes message p) (map to_lower_case patterns)
      ≡ any (λ p. includes message (to_lower_case p)) patterns
any-map message [] = refl
any-map message (p ∷ ps) =
    ap₂ ◌||◌ (refl {a = includes message (to_lower_case p)}) (any-map message ps)

-- The two matchers agree on a message, whether or not it was put in lower case before.
pub matches-eq-includes_any :
    (message : Text) (patterns : List Text)
    → matches_error_pattern (to_lower_case message) patterns
      ≡ includes_any (to_lower_case message) patterns
unfolding matches_error_pattern includes_any
matches-eq-includes_any message patterns =
    rw (to_lower_case_twice message) (any-map (to_lower_case message) patterns)
