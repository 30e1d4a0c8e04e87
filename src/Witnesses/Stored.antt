-- ===== src/Witnesses/Stored.antt =====
-- The storage over a Redis that is four maps, and a step of the SDK.
use composable_batch_erc.Common.{
  All, ◌-◌, ℕ, Bool, true, false, List, [], ◌∷◌, ◌++◌, Option, none, some, if◌then◌else◌, map,
  length, ◌≡◌, refl,
}
use composable_batch_erc.Common.Text.{Text, codes, text_eq, text_eq_refl}
use composable_batch_erc.Common.Assoc.{lookup, insert, lookup-insert}
use composable_batch_erc.Storage.{RedisOps, JsonText, create_quote, get_quote}
use composable_batch_erc.Queues.JobData.{
  Value, other, text, big, array, plain_object, encode_job_data,
}
use composable_batch_erc.Queues.JobData.RoundTrip.{IsKept}
use composable_batch_erc.Storage.Redis.{RedisLaws}
use composable_batch_erc.Storage.Quotes.{
  AllDistinct, ReadsBack, entity_of, get_quote-create_quote, get_quote-created_twice,
}
use composable_batch_erc.Sdk.Params.{
  ComposableExecution, call_data, target, value, AbiEncoders, scalar, dynamic, plain, balance_of,
  DynamicParam,
}
use composable_batch_erc.Sdk.Encode.{
  AbiItem, EncodeStepParams, address, amount, raw_param, dynamic_to_input_param,
}

abbrev or_nothing : {A : Type 0} → Option (List A) → List A
or_nothing none = []
or_nothing (some xs) = xs

abbrev without : Text → List (Text × Text) → List (Text × Text)
without name [] = []
without name ((found, content) ∷ rest) =
    let others = without name rest in
    if text_eq found name then others else (found, content) ∷ others

abbrev insert_all : List (Text × Text) → List (Text × Text) → List (Text × Text)
insert_all [] fields = fields
insert_all ((name, content) ∷ rest) fields = insert_all rest (insert name content fields)

abbrev is_missing : Option Text → Bool
is_missing none = true
is_missing (some content) = false

abbrev one_if : Bool → ℕ
one_if true = 1
one_if false = 0

record Maps : Type 0 where
  strings : List (Text × Text)
  lists : List (Text × List Text)
  hashes : List (Text × List (Text × Text))

abbrev fields_at : Text → Maps → List (Text × Text)
fields_at key m = or_nothing (lookup key m.hashes)

abbrev maps : RedisOps Maps
maps = record {
  get = λ key m. lookup key m.strings;
  set = λ key content m. record m { strings = insert key content m.strings };
  lrange = λ key m. or_nothing (lookup key m.lists);
  rpush = λ key values m.
      let all = or_nothing (lookup key m.lists) ++ values in
      (length all, record m { lists = insert key all m.lists });
  hset = λ key fields m.
      let after = insert_all fields (fields_at key m) in
      (length after - length (fields_at key m), record m { hashes = insert key after m.hashes });
  hsetnx = λ key name content m.
      let is_new = is_missing (lookup name (fields_at key m)) in
      (
        one_if is_new,
        if is_new
            then record m { hashes = insert key (insert name content (fields_at key m)) m.hashes }
            else m,
      );
  hget = λ key name m. lookup name (fields_at key m);
  hgetall = λ key m. fields_at key m;
  hdel = λ key name m.
      let after = without name (fields_at key m) in
      (length (fields_at key m) - length after, record m { hashes = insert key after m.hashes });
  expire = λ key ttl m. m;
}

maps_laws : RedisLaws maps
maps_laws = record {
  get-set = λ j k v m. lookup-insert j k v m.strings;
  get-rpush = λ j k vs m differ. refl;
  get-expire = λ j k ttl m. refl;
  lrange-set = λ j k v m differ. refl;
  lrange-rpush = λ k vs m.
      rw (lookup-insert k k (or_nothing (lookup k m.lists) ++ vs) m.lists, text_eq_refl) refl;
  lrange-expire = λ j k ttl m. refl;
}

abbrev only_text : Value Text → Text
only_text (other s) = s
only_text (text s) = s
only_text (big n) = []
only_text (array vs) = []
only_text (plain_object fs) = []

abbrev as_text : JsonText Text
as_text = record { stringify = only_text; parse = λ s. other s }

abbrev no_maps : Maps
no_maps = record { strings = []; lists = []; hashes = [] }

two_hashes :
    AllDistinct maps maps_laws as_text only_text (other (codes "0xa1") ∷ other (codes "0xb2") ∷ [])
unfolding text_eq
two_hashes = ((refl, tt), (tt, tt))

abbrev values : List (Value Text)
values = other (codes "{}") ∷ other (codes "0xa1") ∷ other (codes "0xb2") ∷ []

values-ReadsBack : All (ReadsBack maps maps_laws as_text only_text) values
unfolding encode_job_data
values-ReadsBack = (refl, (refl, (refl, tt)))

values-IsKept : All IsKept values
unfolding IsKept
values-IsKept = (tt, (tt, (tt, tt)))

nothing_stored : maps.lrange (codes "storage:quote:0x01:user-ops") no_maps ≡ []
unfolding lookup
nothing_stored = refl

get_quote-create_quote_example :
    let r =
      (create_quote maps as_text only_text true
        (some 60)
        (codes "0x01")
        (other (codes "{}"))
        (other (codes "0xa1") ∷ other (codes "0xb2") ∷ [])
        no_maps).1 in
    get_quote maps as_text only_text true (codes "0x01") r
    ≡ some (
      other (codes "{}"),
      map
          (entity_of maps maps_laws as_text only_text r)
          (other (codes "0xa1") ∷ other (codes "0xb2") ∷ []),
    )
get_quote-create_quote_example =
    get_quote-create_quote maps maps_laws as_text only_text (some 60) (codes "0x01")
      (other (codes "{}")) (other (codes "0xa1")) (other (codes "0xb2") ∷ []) no_maps
      values-ReadsBack values-IsKept two_hashes nothing_stored

get_quote-created_twice_example :
    let all : List (Value Text) = other (codes "0xa1") ∷ other (codes "0xb2") ∷ [] in
    let r =
      (create_quote maps as_text only_text true
        (some 60)
        (codes "0x01")
        (other (codes "{}"))
        all
        no_maps).1 in
    let r' =
      (create_quote maps as_text only_text true
        (some 60)
        (codes "0x01")
        (other (codes "{}"))
        all
        r).1 in
    get_quote maps as_text only_text true (codes "0x01") r'
    ≡ some (
      other (codes "{}"),
      map (entity_of maps maps_laws as_text only_text r') all
          ++ map (entity_of maps maps_laws as_text only_text r') all,
    )
get_quote-created_twice_example =
    get_quote-created_twice maps maps_laws as_text only_text (some 60) (codes "0x01")
      (other (codes "{}")) (other (codes "0xa1")) (other (codes "0xb2") ∷ []) no_maps
      values-ReadsBack values-IsKept two_hashes nothing_stored

abbrev quoted_encoders : AbiEncoders
quoted_encoders = record {
  encode_uint256 = λ n. n ∷ [];
  encode_address = λ a. a;
  encode_range = λ lower upper. lower ++ upper;
  encode_value = λ abi_type v. some (codes "0x2a");
}

abbrev swap_item : AbiItem
swap_item = record {
  is_function = true;
  name = codes "swap";
  inputs = plain (codes "uint256") ∷ plain (codes "uint256") ∷ [];
  selector = codes "0xd96a094a";
}

abbrev held_balance : DynamicParam
held_balance = record { dynamic_kind = balance_of; fetcher_data = codes "0x05"; constraints = [] }

abbrev swap_step : EncodeStepParams
swap_step = record {
  to = address (codes "0xdd");
  abi = swap_item ∷ [];
  function_name = codes "swap";
  args = scalar (codes "42") ∷ dynamic held_balance ∷ [];
  value = some (amount 7);
  output_params = [];
}

abbrev swap_execution : ComposableExecution
swap_execution = record {
  function_sig = codes "0xd96a094a";
  input_params =
      raw_param target (codes "0xdd")
      ∷ raw_param value (7 ∷ [])
      ∷ raw_param call_data (codes "0x2a")
      ∷ dynamic_to_input_param held_balance call_data
      ∷ [];
  output_params = [];
}
