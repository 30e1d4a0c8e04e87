-- ===== src/Storage/Redis.antt =====
-- What the storage relies on: the documented behaviour of the Redis commands on keys that have not
-- expired, and that its keys do not collide.
use mathlib.Core.List.{append_cancel_right}
use composable_batch_erc.Common.{
  ℕ, false, List, [], ◌∷◌, ◌++◌, some, if◌then◌else◌, ◌≡◌, refl, ◌∙◌, arith,
}
use composable_batch_erc.Common.Text.{Text, codes, text_eq, text_eq_iff}
use composable_batch_erc.Storage.{RedisOps, quote_key, quote_user_ops_key, user_op_key}

pub record RedisLaws {R : Type 0} (redis : RedisOps R) : Type 0 where
  pub get-set :
      (j k v : Text) (r : R)
      → redis.get k (redis.set j v r) ≡ (if text_eq j k then some v else redis.get k r)
  pub get-rpush :
      (j k : Text) (vs : List Text) (r : R)
      → text_eq j k ≡ false
      → redis.get k (redis.rpush j vs r).1 ≡ redis.get k r
  pub get-expire :
      (j k : Text) (ttl : ℕ) (r : R) → redis.get k (redis.expire j ttl r) ≡ redis.get k r
  pub lrange-set :
      (j k v : Text) (r : R)
      → text_eq j k ≡ false
      → redis.lrange k (redis.set j v r) ≡ redis.lrange k r
  pub lrange-rpush :
      (k : Text) (vs : List Text) (r : R)
      → redis.lrange k (redis.rpush k vs r).1 ≡ redis.lrange k r ++ vs
  pub lrange-expire :
      (j k : Text) (ttl : ℕ) (r : R) → redis.lrange k (redis.expire j ttl r) ≡ redis.lrange k r

-- A common beginning does not matter.
text_eq-append : (h s t : Text) → text_eq (h ++ s) (h ++ t) ≡ text_eq s t
unfolding text_eq
text_eq-append [] s t = refl
text_eq-append (c ∷ h) s t = ground (arith, text_eq-append h s t)

-- A common end does not matter.
text_eq-append_right : (h k s : Text) → text_eq (h ++ s) (k ++ s) ≡ text_eq h k
text_eq-append_right h k s =
    ground (arith, text_eq_iff h k, text_eq_iff (h ++ s) (k ++ s), append_cancel_right h k s)

pub user_op_key-quote_key : (h k : Text) → text_eq (user_op_key h) (quote_key k) ≡ false
unfolding text_eq
user_op_key-quote_key h k = refl

pub quote_user_ops_key-user_op_key :
    (h k : Text) → text_eq (quote_user_ops_key h) (user_op_key k) ≡ false
unfolding text_eq
quote_user_ops_key-user_op_key h k = refl

pub user_op_key-quote_user_ops_key :
    (h k : Text) → text_eq (user_op_key h) (quote_user_ops_key k) ≡ false
unfolding text_eq
user_op_key-quote_user_ops_key h k = refl

pub quote_key-user_op_key : (h k : Text) → text_eq (quote_key h) (user_op_key k) ≡ false
unfolding text_eq
quote_key-user_op_key h k = refl

pub quote_user_ops_key-quote_key : (h : Text) → text_eq (quote_user_ops_key h) (quote_key h) ≡ false
unfolding text_eq
quote_user_ops_key-quote_key h = text_eq-append (h ++ codes ":") (codes "user-ops") (codes "data")

pub quote_key-quote_user_ops_key : (h : Text) → text_eq (quote_key h) (quote_user_ops_key h) ≡ false
unfolding text_eq
quote_key-quote_user_ops_key h = text_eq-append (h ++ codes ":") (codes "data") (codes "user-ops")

-- The keys of two user operations differ as their hashes do.
pub user_op_key-user_op_key : (h k : Text) → text_eq (user_op_key h) (user_op_key k) ≡ text_eq h k
unfolding text_eq
user_op_key-user_op_key h k =
    text_eq-append_right (h ++ codes ":") (k ++ codes ":") (codes "data")
    ∙ text_eq-append_right h k (codes ":")
