-- ===== src/PriceFeeds/Cache.antt =====
-- When the price that was cached is returned.
use composable_batch_erc.Common.{
  ℕ, ◌+◌, ◌<◌, false, some, ◌≡◌, refl, ap, ◌∙◌, arith, ltb, if◌then◌else◌,
}
use composable_batch_erc.Common.Text.{Text}
use composable_batch_erc.Common.Assoc.{insert, lookup-insert_self}
use composable_batch_erc.PriceFeeds.{
  OracleCache, OracleCaches, oracle, cache_key, get_oracle_cache, or_empty, is_price_used,
  fetched_price, get_price,
}

get_oracle_cache-insert :
    (key : Text) (cache : OracleCache) (caches : OracleCaches)
    → get_oracle_cache key (insert key cache caches) ≡ cache
unfolding get_oracle_cache
get_oracle_cache-insert key cache caches = ap or_empty (lookup-insert_self key cache caches)

-- The answer to a later call for the entry that was stored.
get_price-stored :
    (ttl now stored_at answer : ℕ) (chain_id address : Text) (cache : OracleCache)
    (caches : OracleCaches)
    → (get_price ttl now stored_at
        (some answer)
        (oracle chain_id address)
        (insert (cache_key chain_id address) cache caches)).0
      ≡ (if is_price_used now cache then some cache.price else some answer)
unfolding get_price
get_price-stored ttl now stored_at answer chain_id address cache caches =
    ground (arith, get_oracle_cache-insert (cache_key chain_id address) cache caches)

get_price-fetched :
    (ttl now stored_at price : ℕ) (chain_id address : Text) (caches : OracleCaches)
    → is_price_used now (get_oracle_cache (cache_key chain_id address) caches) ≡ false
    → get_price ttl now stored_at (some price) (oracle chain_id address) caches
      ≡ fetched_price ttl stored_at
          (some price)
          (cache_key chain_id address)
          (get_oracle_cache (cache_key chain_id address) caches)
          caches
unfolding get_price
get_price-fetched ttl now stored_at price chain_id address caches unused = ground (arith, unused)

-- A price above 0 that an oracle answered and that was stored at a time is used for a later call
-- exactly when its time to live is over: until then every call asks the oracle again, and after it
-- the old price is returned and the oracle's new answer is not asked for.
pub get_price-after_expiry :
    (ttl now stored_at later stored_later : ℕ) (price answer : ℕ) (chain_id address : Text)
    (caches : OracleCaches)
    → 0 < price
    → 0 < ttl
    → is_price_used now (get_oracle_cache (cache_key chain_id address) caches) ≡ false
    → let first = get_price ttl now stored_at (some price) (oracle chain_id address) caches in
      (first.0 ≡ some price)
      × ((get_price ttl later stored_later (some answer) (oracle chain_id address) first.1).0
          ≡ (if ltb (stored_at + ttl) later then some price else some answer))
get_price-after_expiry ttl now stored_at later stored_later price answer chain_id address caches
      positive lives unused =
    rw (get_price-fetched ttl now stored_at price chain_id address caches unused) (
      refl,
      get_price-stored ttl later stored_later answer chain_id address _ caches ∙ ground arith,
    )
