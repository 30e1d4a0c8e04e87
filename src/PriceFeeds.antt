-- ===== src/PriceFeeds.antt =====
-- `PriceFeedsService` of orchestrator-node/src/modules/price-feeds/price-feeds.service.ts: the cache
-- of oracle prices. The answer of the oracle is an argument; a request that throws is `none`. The
-- first clock is read when the cache is looked up, the second when the answer is stored.
pub mod Cache
use composable_batch_erc.Common.{
  ℕ, zero, suc, ◌+◌, Bool, true, false, not, ◌&&◌, List, [], ◌∷◌, ◌++◌, Option, none, some,
  if◌then◌else◌, ltb, ◌==◌,
}
use composable_batch_erc.Common.Text.{Text}
use composable_batch_erc.Common.Assoc.{lookup, insert}

pub data PriceFeedOptions : Type 0 where
  fixed : (value decimals : ℕ) → PriceFeedOptions
  oracle : (chain_id address : Text) → PriceFeedOptions

-- A field that was never set is 0: the code reads both as false.
pub record OracleCache : Type 0 where
  pub price : ℕ
  pub price_expiry : ℕ
  pub decimals_cached : ℕ

abbrev pub OracleCaches : Type 0
OracleCaches = List (Text × OracleCache)

abbrev pub empty_cache : OracleCache
empty_cache = record { price = 0; price_expiry = 0; decimals_cached = 0 }

abbrev pub or_empty : Option OracleCache → OracleCache
or_empty none = empty_cache
or_empty (some cache) = cache

unfoldable pub cache_key : Text → Text → Text
cache_key chain_id address = chain_id ++ b'/' ∷ address

unfoldable pub get_oracle_cache : Text → OracleCaches → OracleCache
unfolding lookup
get_oracle_cache key caches = or_empty (lookup key caches)

abbrev pub is_price_used : ℕ → OracleCache → Bool
is_price_used now cache =
    not (cache.price == 0) && not (cache.price_expiry == 0) && ltb cache.price_expiry now

-- What a request leaves: the new entry is stored also where the oracle does not answer.
abbrev pub fetched_price :
    ℕ → ℕ → Option ℕ → Text → OracleCache → OracleCaches → Option ℕ × OracleCaches
fetched_price ttl stored_at none key cache caches = (none, insert key cache caches)
fetched_price ttl stored_at (some price) key cache caches =
    (some price, insert key (record cache { price = price; price_expiry = stored_at + ttl }) caches)

unfoldable pub get_price :
    (ttl now stored_at : ℕ) → Option ℕ → PriceFeedOptions → OracleCaches → Option ℕ × OracleCaches
unfolding get_oracle_cache cache_key insert
get_price ttl now stored_at answer (fixed value decimals) caches = (some value, caches)
get_price ttl now stored_at answer (oracle chain_id address) caches =
    let key = cache_key chain_id address in
    let cache = get_oracle_cache key caches in
    if is_price_used now cache
    then (some cache.price, insert key cache caches)
    else fetched_price ttl stored_at answer key cache caches

abbrev pub fetched_decimals : Option ℕ → Text → OracleCache → OracleCaches → Option ℕ × OracleCaches
fetched_decimals none key cache caches = (none, insert key cache caches)
fetched_decimals (some decimals) key cache caches =
    (some decimals, insert key (record cache { decimals_cached = decimals }) caches)

unfoldable pub get_decimals : Option ℕ → PriceFeedOptions → OracleCaches → Option ℕ × OracleCaches
unfolding get_oracle_cache cache_key insert
get_decimals answer (fixed value decimals) caches = (some decimals, caches)
get_decimals answer (oracle chain_id address) caches =
    let key = cache_key chain_id address in
    let cache = get_oracle_cache key caches in
    if not (cache.decimals_cached == 0)
    then (some cache.decimals_cached, insert key cache caches)
    else fetched_decimals answer key cache caches
