-- ===== src/Quotes/Senders/Laws.antt =====
-- An account is deployed by its first user operation and by no later one.
use composable_batch_erc.Common.{
  ℕ, ◌+◌, Bool, not, List, [], ◌∷◌, ◌==◌, map, ◌≡◌, refl, ap₂, arith, any,
}
use composable_batch_erc.Common.Text.{Text, text_eq}
use composable_batch_erc.Common.Assoc.{lookup, insert, lookup-insert}
use composable_batch_erc.Quotes.Senders.{seen_or_zero, times_seen, deployments}

abbrev is_member : Text → List Text → Bool
is_member account earlier = any (λ other. text_eq other account) earlier

-- Whether each account is not among those before it.
abbrev firsts : List Text → (earlier : List Text) → List Bool
firsts [] earlier = []
firsts (account ∷ accounts) earlier =
    not (is_member account earlier) ∷ firsts accounts (account ∷ earlier)

abbrev Counts : List (Text × ℕ) → List Text → Type 0
Counts seen earlier = (j : Text) → (seen_or_zero (lookup j seen) == 0) ≡ not (is_member j earlier)

insert-Counts :
    (account : Text) (seen : List (Text × ℕ)) (earlier : List Text) (n : ℕ)
    → Counts seen earlier
    → Counts (insert account (n + 1) seen) (account ∷ earlier)
insert-Counts account seen earlier n h j =
    rw (lookup-insert account j (n + 1) seen) (ground (arith, h j))

times_seen-firsts :
    (accounts : List Text) (seen : List (Text × ℕ)) (earlier : List Text)
    → Counts seen earlier
    → map (λ n. n == 0) (times_seen accounts seen) ≡ firsts accounts earlier
unfolding times_seen
times_seen-firsts [] seen earlier h = refl
times_seen-firsts (account ∷ accounts) seen earlier h = ap₂ ◌∷◌ (h account) (
    times_seen-firsts accounts (insert account (seen_or_zero (lookup account seen) + 1) seen)
      (account ∷ earlier) (insert-Counts account seen earlier _ h))

-- The account of a user operation is to be deployed exactly if no user operation before it has the
-- same account.
pub deployments-firsts : (accounts : List Text) → deployments accounts ≡ firsts accounts []
unfolding deployments
deployments-firsts accounts = times_seen-firsts accounts [] [] no_counts
  where
    no_counts : Counts [] []
    no_counts j = refl
