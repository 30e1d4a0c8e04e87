-- ===== src/Storage/Quotes.antt =====
-- What `getQuote` reads after `createQuote`.
use composable_batch_erc.Common.{
  ℕ, zero, suc, true, false, List, [], ◌∷◌, ◌++◌, Option, none, some, map, ◌≡◌, refl, ap, ◌∙◌, All,
  All-map,
}
use composable_batch_erc.Queues.JobData.{Value, encode_job_data, decode_job_data}
use composable_batch_erc.Queues.JobData.RoundTrip.{IsKept, decode_job_data-encode_job_data}
use composable_batch_erc.Common.Text.{Text, text_eq, text_eq_refl}
use composable_batch_erc.Storage.{
  RedisOps, JsonText, safe_stringify, safe_parse, UserOpEntity, quote_key, quote_user_ops_key,
  user_op_key, custom_fields_key, expire_after, set_user_ops, store_quote, create_quote, get_quote,
  read_user_ops,
}
use composable_batch_erc.Storage.Redis.{
  RedisLaws, user_op_key-quote_key, quote_user_ops_key-user_op_key, user_op_key-quote_user_ops_key,
  quote_user_ops_key-quote_key, quote_key-quote_user_ops_key, user_op_key-user_op_key,
}

module _ {R Other : Type 0} (redis : RedisOps R) (laws : RedisLaws redis) (json : JsonText Other)
    (hash_of : Value Other → Text) where
  -- Any two user operations have different hashes.
  abbrev pub AllDistinct : List (Value Other) → Type 0
  AllDistinct [] = Unit
  AllDistinct (op ∷ ops) =
      All (λ other. text_eq (hash_of other) (hash_of op) ≡ false) ops × AllDistinct ops

  get-expire_after :
      (ttl : Option ℕ) (j k : Text) (r : R)
      → redis.get k (expire_after redis json hash_of ttl j r) ≡ redis.get k r
  get-expire_after none j k r = refl
  get-expire_after (some zero) j k r = refl
  get-expire_after (some (suc n)) j k r = laws.get-expire j k (suc n) r

  lrange-expire_after :
      (ttl : Option ℕ) (j k : Text) (r : R)
      → redis.lrange k (expire_after redis json hash_of ttl j r) ≡ redis.lrange k r
  lrange-expire_after none j k r = refl
  lrange-expire_after (some zero) j k r = refl
  lrange-expire_after (some (suc n)) j k r = laws.lrange-expire j k (suc n) r

  -- The user operations leave the other keys alone.
  get-set_user_ops :
      (ttl : Option ℕ) (ops : List (Value Other)) (k : Text) (r : R)
      → All (λ op. text_eq (user_op_key (hash_of op)) k ≡ false) ops
      → redis.get k (set_user_ops redis json hash_of ttl ops r) ≡ redis.get k r
  unfolding set_user_ops
  get-set_user_ops ttl [] k r h = refl
  get-set_user_ops ttl (op ∷ ops) k r (other, h) =
      get-set_user_ops ttl ops k _ h ∙ get-expire_after ttl _ k _ ∙ rw (laws.get-set, other) refl

  lrange-set_user_ops :
      (ttl : Option ℕ) (ops : List (Value Other)) (hash : Text) (r : R)
      → redis.lrange (quote_user_ops_key hash) (set_user_ops redis json hash_of ttl ops r)
        ≡ redis.lrange (quote_user_ops_key hash) r
  unfolding set_user_ops
  lrange-set_user_ops ttl [] hash r = refl
  lrange-set_user_ops ttl (op ∷ ops) hash r =
      lrange-set_user_ops ttl ops hash _
      ∙ lrange-expire_after ttl _ _ _
      ∙ laws.lrange-set _ _ _ r (user_op_key-quote_user_ops_key (hash_of op) hash)

  abbrev IsStored : R → Value Other → Type 0
  IsStored r op = redis.get (user_op_key (hash_of op)) r ≡ some (safe_stringify json op)

  set_user_ops-IsStored :
      (ttl : Option ℕ) (ops : List (Value Other)) (r : R)
      → AllDistinct ops
      → All (IsStored (set_user_ops redis json hash_of ttl ops r)) ops
  unfolding set_user_ops
  set_user_ops-IsStored ttl [] r h = tt
  set_user_ops-IsStored ttl (op ∷ ops) r (others, h) = (
    get-set_user_ops ttl ops (user_op_key (hash_of op)) _ (
          All-map _ _ (λ other e. user_op_key-user_op_key (hash_of other) (hash_of op) ∙ e) ops
            others)
        ∙ get-expire_after ttl _ _ _
        ∙ rw (laws.get-set, text_eq_refl) refl,
    set_user_ops-IsStored ttl ops _ h,
  )

  -- The state after `createQuote`.
  abbrev after : Option ℕ → Text → Value Other → List (Value Other) → R → R
  after ttl hash quote ops r = (store_quote redis json hash_of ttl hash quote ops r).1

  All-quote_key :
      (hash : Text) (ops : List (Value Other))
      → All (λ op. text_eq (user_op_key (hash_of op)) (quote_key hash) ≡ false) ops
  All-quote_key hash [] = tt
  All-quote_key hash (op ∷ ops) = (user_op_key-quote_key (hash_of op) hash, All-quote_key hash ops)

  module _ (ttl : Option ℕ) (hash : Text) (quote : Value Other) (ops : List (Value Other))
      (r : R) where
    get-after :
        redis.get (quote_key hash) (after ttl hash quote ops r) ≡ some (safe_stringify json quote)
    unfolding store_quote
    get-after =
        get-expire_after ttl _ _ _
        ∙ laws.get-rpush _ _ _ _ (quote_user_ops_key-quote_key hash)
        ∙ get-set_user_ops ttl ops (quote_key hash) _ (All-quote_key hash ops)
        ∙ get-expire_after ttl _ _ _
        ∙ rw (laws.get-set, text_eq_refl) refl

    lrange-after :
        redis.lrange (quote_user_ops_key hash) (after ttl hash quote ops r)
        ≡ redis.lrange (quote_user_ops_key hash) r ++ map hash_of ops
    unfolding store_quote
    lrange-after =
        lrange-expire_after ttl _ _ _
        ∙ laws.lrange-rpush _ _ _
        ∙ ap (λ hashes. hashes ++ map hash_of ops)
            (lrange-set_user_ops ttl ops hash _
              ∙ lrange-expire_after ttl _ _ _
              ∙ laws.lrange-set _ _ _ r (quote_key-quote_user_ops_key hash))

    IsStored-after : AllDistinct ops → All (IsStored (after ttl hash quote ops r)) ops
    unfolding store_quote
    IsStored-after h =
        All-map _ _
          (λ op e.
            get-expire_after ttl _ _ _
            ∙ laws.get-rpush _ _ _ _ (quote_user_ops_key-user_op_key hash (hash_of op))
            ∙ e)
          ops (set_user_ops-IsStored ttl ops _ h)

  -- What `getQuote` gives for a user operation: itself, with its custom fields.
  abbrev pub entity_of : R → Value Other → UserOpEntity Other
  entity_of r op = record {
    entity = op;
    custom_fields =
        map (λ f. (f.0, safe_parse json f.1)) (redis.hgetall (custom_fields_key (hash_of op)) r);
  }

  -- What `SafeJSON` reads of what it wrote is the same value.
  abbrev ReadsAs : Value Other → Type 0
  ReadsAs v = safe_parse json (safe_stringify json v) ≡ v

  -- JSON, without bigints, reads its own text back.
  abbrev pub ReadsBack : Value Other → Type 0
  ReadsBack v = json.parse (json.stringify (encode_job_data v)) ≡ encode_job_data v

  All-ReadsAs : (vs : List (Value Other)) → All ReadsBack vs → All IsKept vs → All ReadsAs vs
  All-ReadsAs [] h k = tt
  All-ReadsAs (v ∷ vs) (read, h) (kept, k) =
      (ap decode_job_data read ∙ (decode_job_data-encode_job_data v).1 kept, All-ReadsAs vs h k)

  read_user_ops-append :
      (ops : List (Value Other)) (hashes : List Text) (r : R)
      → All (IsStored r) ops
      → All ReadsAs ops
      → read_user_ops redis json hash_of (map hash_of ops ++ hashes) r
        ≡ map (entity_of r) ops ++ read_user_ops redis json hash_of hashes r
  unfolding read_user_ops
  read_user_ops-append [] hashes r h k = refl
  read_user_ops-append (op ∷ ops) hashes r (stored, h) (same, k) =
      rw (stored, same) (ap (λ rest. entity_of r op ∷ rest) (read_user_ops-append ops hashes r h k))

  entities_read :
      (ops : List (Value Other)) (r : R)
      → All (IsStored r) ops
      → All ReadsAs ops
      → read_user_ops redis json hash_of (map hash_of ops) r ≡ map (entity_of r) ops
  unfolding read_user_ops
  entities_read [] r h k = refl
  entities_read (op ∷ ops) r (stored, h) (same, k) =
      rw (stored, same) (ap (λ rest. entity_of r op ∷ rest) (entities_read ops r h k))

  get_quote-stored :
      (hash : Text) (quote : Value Other) (hashes : List Text) (ops : List (UserOpEntity Other))
      (r : R)
      → ReadsAs quote
      → redis.get (quote_key hash) r ≡ some (safe_stringify json quote)
      → redis.lrange (quote_user_ops_key hash) r ≡ hashes
      → read_user_ops redis json hash_of hashes r ≡ ops
      → get_quote redis json hash_of true hash r ≡ some (quote, ops)
  unfolding get_quote
  get_quote-stored hash quote hashes ops r printed stored listed read =
      rw (stored, listed, read, printed) refl

  -- After `createQuote` for a new quote, whose user operations have different hashes, `getQuote`
  -- gives the quote and its user operations in their order, each with its custom fields. None of
  -- these values may hold a negative bigint or a text of digits and a final n, which SafeJSON does
  -- not keep, and JSON has to read its own text of them back.
  pub get_quote-create_quote :
      (ttl : Option ℕ) (hash : Text) (quote : Value Other) (op : Value Other)
      (ops : List (Value Other)) (r : R)
      → All ReadsBack (quote ∷ op ∷ ops)
      → All IsKept (quote ∷ op ∷ ops)
      → AllDistinct (op ∷ ops)
      → redis.lrange (quote_user_ops_key hash) r ≡ []
      → let r' = (create_quote redis json hash_of true ttl hash quote (op ∷ ops) r).1 in
        get_quote redis json hash_of true hash r' ≡ some (quote, map (entity_of r') (op ∷ ops))
  unfolding create_quote
  get_quote-create_quote ttl hash quote op ops r read kept distinct new =
      let (printed, all_read) = All-ReadsAs (quote ∷ op ∷ ops) read kept in
      get_quote-stored hash quote (map hash_of (op ∷ ops)) _ _ printed
        (get-after ttl hash quote (op ∷ ops) r)
        (lrange-after ttl hash quote (op ∷ ops) r ∙ ap (λ l. l ++ map hash_of (op ∷ ops)) new)
        (entities_read (op ∷ ops) _ (IsStored-after ttl hash quote (op ∷ ops) r distinct) all_read)

  -- Where `createQuote` is called twice for a quote of which nothing was stored, `getQuote` gives each
  -- of its user operations two times. The conditions on the values are as for one call.
  pub get_quote-created_twice :
      (ttl : Option ℕ) (hash : Text) (quote : Value Other) (op : Value Other)
      (ops : List (Value Other)) (r : R)
      → All ReadsBack (quote ∷ op ∷ ops)
      → All IsKept (quote ∷ op ∷ ops)
      → AllDistinct (op ∷ ops)
      → redis.lrange (quote_user_ops_key hash) r ≡ []
      → let r' = (create_quote redis json hash_of true ttl hash quote (op ∷ ops) r).1 in
        let r'' = (create_quote redis json hash_of true ttl hash quote (op ∷ ops) r').1 in
        get_quote redis json hash_of true hash r''
        ≡ some (quote, map (entity_of r'') (op ∷ ops) ++ map (entity_of r'') (op ∷ ops))
  unfolding create_quote
  get_quote-created_twice ttl hash quote op ops r read kept distinct new =
      let (printed, all_read) = All-ReadsAs (quote ∷ op ∷ ops) read kept in
      let all : List (Value Other) = op ∷ ops in
      let r' = after ttl hash quote all r in
      let stored = IsStored-after ttl hash quote all r' distinct in
      get_quote-stored hash quote (map hash_of all ++ map hash_of all) _ _ printed
        (get-after ttl hash quote all r')
        (lrange-after ttl hash quote all r'
          ∙ ap (λ l. l ++ map hash_of all)
              (lrange-after ttl hash quote all r ∙ ap (λ l. l ++ map hash_of all) new))
        (read_user_ops-append all (map hash_of all) _ stored all_read
          ∙ ap (λ l. map (entity_of (after ttl hash quote all r')) all ++ l)
              (entities_read all _ stored all_read))
