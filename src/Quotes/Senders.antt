-- ===== src/Quotes/Senders.antt =====
-- `requestQuote` of orchestrator-node/src/modules/quotes/quotes.service.ts: how often the account of
-- each user operation stands before it in the quote, so that its account is deployed once.
pub mod Laws
use composable_batch_erc.Common.{
  ℕ, ◌+◌, Bool, true, false, List, [], ◌∷◌, ◌++◌, Option, none, some, ◌==◌, map,
}
use composable_batch_erc.Common.Text.{Text, codes}
use composable_batch_erc.Common.Assoc.{lookup, insert}

abbrev pub account_identifier : (sender chain_id : Text) → Text
account_identifier sender chain_id = sender ++ codes ":" ++ chain_id

-- `timesSeenPerSender.get(accountIdentifier) ?? 0`.
abbrev pub seen_or_zero : Option ℕ → ℕ
seen_or_zero none = 0
seen_or_zero (some n) = n

unfoldable pub times_seen : List Text → List (Text × ℕ) → List ℕ
unfolding lookup insert
times_seen [] seen = []
times_seen (account ∷ accounts) seen =
    let n = seen_or_zero (lookup account seen) in
    n ∷ times_seen accounts (insert account (n + 1) seen)

-- `isAccountDeploymentRequired` of each user operation.
unfoldable pub deployments : List Text → List Bool
unfolding times_seen
deployments accounts = map (λ n. n == 0) (times_seen accounts [])
