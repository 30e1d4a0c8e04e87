-- ===== src/Storage.antt =====
-- orchestrator-node/src/modules/storage/storage.service.ts, over Redis: quotes, user operations and
-- their custom fields. Redis and JSON's texts are parameters; a transaction that Redis does not
-- execute, `is_executed` false, changes nothing.
pub mod Redis
pub mod Quotes
use composable_batch_erc.Common.{
  ℕ, zero, suc, Bool, true, false, not, ◌&&◌, List, [], ◌∷◌, ◌++◌, Option, none, some,
  if◌then◌else◌, map, all, ◌==◌,
}
use composable_batch_erc.Queues.JobData.{Value, encode_job_data, decode_job_data}
use composable_batch_erc.Common.Text.{Text, codes, text_eq}
use composable_batch_erc.Common.Assoc.{lookup}

-- The commands that the service sends. A number is Redis's reply.
pub record RedisOps (R : Type 0) : Type 0 where
  pub get : Text → R → Option Text
  pub set : Text → Text → R → R
  pub lrange : Text → R → List Text
  pub rpush : Text → List Text → R → ℕ × R
  pub hset : Text → List (Text × Text) → R → ℕ × R
  pub hsetnx : Text → (field value : Text) → R → ℕ × R
  pub hget : Text → (field : Text) → R → Option Text
  pub hgetall : Text → R → List (Text × Text)
  pub hdel : Text → (field : Text) → R → ℕ × R
  pub expire : Text → ℕ → R → R

-- `JSON.stringify` and `JSON.parse`.
pub record JsonText (Other : Type 0) : Type 0 where
  pub stringify : Value Other → Text
  pub parse : Text → Value Other

-- `SafeJSON` writes a bigint as a text, as the data of a job, and reads it back.
abbrev pub safe_stringify : {Other : Type 0} → JsonText Other → Value Other → Text
safe_stringify json v = json.stringify (encode_job_data v)

abbrev pub safe_parse : {Other : Type 0} → JsonText Other → Text → Value Other
safe_parse json s = decode_job_data (json.parse s)

-- A user operation with its custom fields, which replace its own of the same name.
pub record UserOpEntity (Other : Type 0) : Type 0 where
  pub entity : Value Other
  pub custom_fields : List (Text × Value Other)

abbrev pub join : List Text → Text
join [] = []
join (arg ∷ []) = arg
join (arg ∷ next ∷ args) = arg ++ codes ":" ++ join (next ∷ args)

abbrev pub build_redis_key : List Text → Text
build_redis_key args = codes "storage:" ++ join args

abbrev pub quote_key : Text → Text
quote_key hash = build_redis_key (codes "quote" ∷ hash ∷ codes "data" ∷ [])

abbrev pub quote_user_ops_key : Text → Text
quote_user_ops_key hash = build_redis_key (codes "quote" ∷ hash ∷ codes "user-ops" ∷ [])

abbrev pub user_op_key : Text → Text
user_op_key hash = build_redis_key (codes "user-op" ∷ hash ∷ codes "data" ∷ [])

abbrev pub custom_fields_key : Text → Text
custom_fields_key hash = build_redis_key (codes "user-op" ∷ hash ∷ codes "custom-fields" ∷ [])

abbrev pub is_given : {A : Type 0} → Option A → Bool
is_given none = false
is_given (some a) = true

abbrev pub is_positive : ℕ → Bool
is_positive zero = false
is_positive (suc n) = true

module _ {R Other : Type 0} (redis : RedisOps R) (json : JsonText Other)
    (hash_of : Value Other → Text) where
  -- `if (ttl) multi.expire(key, ttl)`. Its reply is 1 for the keys here, which exist.
  abbrev pub expire_after : Option ℕ → Text → R → R
  expire_after none key r = r
  expire_after (some zero) key r = r
  expire_after (some (suc ttl)) key r = redis.expire key (suc ttl) r

  abbrev pub has_quote : Text → R → Bool
  has_quote hash r = is_given (redis.get (quote_key hash) r)

  abbrev pub has_user_op : Text → R → Bool
  has_user_op hash r = is_given (redis.get (user_op_key hash) r)

  abbrev pub decode_user_op_entity : Option Text → List (Text × Text) → Option (UserOpEntity Other)
  decode_user_op_entity none fields = none
  decode_user_op_entity (some raw) fields = some (record {
    entity = safe_parse json raw;
    custom_fields = map (λ f. (f.0, safe_parse json f.1)) fields;
  })

  unfoldable pub get_user_op : (is_executed : Bool) → Text → R → Option (UserOpEntity Other)
  get_user_op executed hash r =
      if executed
      then decode_user_op_entity (redis.get (user_op_key hash) r)
          (redis.hgetall (custom_fields_key hash) r)
      else none

  -- A user operation that is missing is left out.
  abbrev pub push_entity :
      Option (UserOpEntity Other) → List (UserOpEntity Other) → List (UserOpEntity Other)
  push_entity none rest = rest
  push_entity (some e) rest = e ∷ rest

  unfoldable pub read_user_ops : List Text → R → List (UserOpEntity Other)
  unfolding get_user_op
  read_user_ops [] r = []
  read_user_ops (hash ∷ hashes) r = push_entity (get_user_op true hash r) (read_user_ops hashes r)

  abbrev pub quote_of :
      Option Text → List (UserOpEntity Other) → Option (Value Other × List (UserOpEntity Other))
  quote_of none ops = none
  quote_of (some raw) ops = some (safe_parse json raw, ops)

  unfoldable pub get_quote :
      (is_executed : Bool) → Text → R → Option (Value Other × List (UserOpEntity Other))
  unfolding read_user_ops
  get_quote executed hash r =
      if executed
      then quote_of (redis.get (quote_key hash) r)
          (read_user_ops (redis.lrange (quote_user_ops_key hash) r) r)
      else none

  unfoldable pub set_user_ops : Option ℕ → List (Value Other) → R → R
  set_user_ops ttl [] r = r
  set_user_ops ttl (op ∷ ops) r =
      let key = user_op_key (hash_of op) in
      set_user_ops ttl ops (expire_after ttl key (redis.set key (safe_stringify json op) r))

  -- The transaction of `createQuote`, with the reply of its `rpush`.
  unfoldable pub store_quote : Option ℕ → Text → Value Other → List (Value Other) → R → ℕ × R
  unfolding set_user_ops
  store_quote ttl hash quote ops r =
      let r1 =
        expire_after ttl (quote_key hash)
          (redis.set (quote_key hash) (safe_stringify json quote) r) in
      let (count, r2) =
        redis.rpush (quote_user_ops_key hash) (map hash_of ops) (set_user_ops ttl ops r1) in
      (count, expire_after ttl (quote_user_ops_key hash) r2)

  unfoldable pub create_quote :
      (is_executed : Bool) → Option ℕ → Text → Value Other → List (Value Other) → R → Bool × R
  unfolding store_quote
  create_quote executed ttl hash quote [] r = (false, r)
  create_quote executed ttl hash quote (op ∷ ops) r =
      let (count, r') = store_quote ttl hash quote (op ∷ ops) r in
      if executed then (is_positive count, r') else (false, r)

  unfoldable pub create_user_op_custom_field :
      (is_executed : Bool) → Option ℕ → Text → (name : Text) → Value Other → R → Bool × R
  create_user_op_custom_field executed ttl hash name value r =
      let key = custom_fields_key hash in
      let (count, r') = redis.hsetnx key name (safe_stringify json value) r in
      if executed then (is_positive count, expire_after ttl key r') else (false, r)

  abbrev pub is_text : Option Text → Text → Bool
  is_text none raw = false
  is_text (some s) raw = text_eq raw s

  unfoldable pub set_user_op_custom_field :
      (is_executed : Bool) → Option ℕ → Text → (name : Text) → Value Other → R → Bool × R
  set_user_op_custom_field executed ttl hash name value r =
      let key = custom_fields_key hash in
      let raw = safe_stringify json value in
      let (count, r') = redis.hsetnx key name raw r in
      if executed
      then (is_text (redis.hget key name r') raw, expire_after ttl key r')
      else (false, r)

  unfoldable pub unset_user_op_custom_field :
      (is_executed : Bool) → Text → (name : Text) → R → Bool × R
  unset_user_op_custom_field executed hash name r =
      let (count, r') = redis.hdel (custom_fields_key hash) name r in
      if executed then (count == 1, r') else (false, r)

  unfoldable pub update_user_op_custom_fields :
      (is_executed : Bool) → Option ℕ → Text → List (Text × Value Other) → R → Bool × R
  update_user_op_custom_fields executed ttl hash fields r =
      let key = custom_fields_key hash in
      let (count, r') = redis.hset key (map (λ f. (f.0, safe_stringify json f.1)) fields) r in
      if executed then (is_positive count, expire_after ttl key r') else (false, r)
