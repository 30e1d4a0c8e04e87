-- ===== src/Queues/JobData.antt =====
-- `encodeJobData` and `decodeJobData` of
-- orchestrator-node/src/modules/core/queue/utils/encode-job-data.ts and decode-job-data.ts. A value
-- that neither function looks into (a number, a boolean, null, undefined, an instance of a class)
-- is one of the type `Other`.
pub mod RoundTrip
pub mod Serializable
use composable_batch_erc.Common.{
  ℕ, suc, Bool, true, false, ◌&&◌, not, [], ◌∷◌, ◌++◌, ◌==◌, if◌then◌else◌, length,
}
use composable_batch_erc.Common.Text.{Text}
use composable_batch_erc.Queues.Decimal.{print, read, is_digit}

-- A `bigint`: `negative_big_int n` is -(n + 1).
pub data BigInt : Type 0 where
  big_int negative_big_int : ℕ → BigInt

mutual
  pub data Value (Other : Type 0) : Type 0 where
    other : Other → Value Other
    text : Text → Value Other
    big : BigInt → Value Other
    array : Values Other → Value Other
    plain_object : Fields Other → Value Other

  pub data Values (Other : Type 0) : Type 0 where
    none_left : Values Other
    item : Value Other → Values Other → Values Other

  pub data Fields (Other : Type 0) : Type 0 where
    no_field : Fields Other
    field : Text → Value Other → Fields Other → Fields Other

-- `data.toString(10)`.
unfoldable pub to_string : BigInt → Text
to_string (big_int n) = print n
to_string (negative_big_int n) = b'-' ∷ print (suc n)

abbrev pub is_nil : Text → Bool
is_nil [] = true
is_nil (c ∷ s) = false

-- `\d*n$`.
unfoldable pub digits_then_n : Text → Bool
digits_then_n [] = false
digits_then_n (c ∷ s) =
    let rest = digits_then_n s in if is_digit c then rest else (c == b'n' && is_nil s)

-- `/^\d+n$/.test(data)`.
unfoldable pub is_big_int_text : Text → Bool
unfolding digits_then_n
is_big_int_text [] = false
is_big_int_text (c ∷ s) = is_digit c && digits_then_n s

-- `data.slice(0, -1)`.
unfoldable pub drop_last : Text → Text
drop_last [] = []
drop_last (c ∷ s) = if is_nil s then [] else (c ∷ drop_last s)

module _ {Other : Type 0} where
  unfoldable mutual
    unfolding to_string

    pub encode_job_data : Value Other → Value Other
    encode_job_data (big n) = text (to_string n ++ b'n' ∷ [])
    encode_job_data (array xs) = array (encode_items xs)
    encode_job_data (plain_object fs) = plain_object (encode_fields fs)
    encode_job_data (text s) = text s
    encode_job_data (other x) = other x

    pub encode_items : Values Other → Values Other
    encode_items none_left = none_left
    encode_items (item x xs) = item (encode_job_data x) (encode_items xs)

    pub encode_fields : Fields Other → Fields Other
    encode_fields no_field = no_field
    encode_fields (field k x fs) = field k (encode_job_data x) (encode_fields fs)

  unfoldable pub decode_text : Text → Value Other
  unfolding is_big_int_text drop_last
  decode_text s = if is_big_int_text s then big (big_int (read (drop_last s))) else text s

  unfoldable mutual
    unfolding decode_text

    pub decode_job_data : Value Other → Value Other
    decode_job_data (text s) = decode_text s
    decode_job_data (array xs) = array (decode_items xs)
    decode_job_data (plain_object fs) = plain_object (decode_fields fs)
    decode_job_data (big n) = big n
    decode_job_data (other x) = other x

    pub decode_items : Values Other → Values Other
    decode_items none_left = none_left
    decode_items (item x xs) = item (decode_job_data x) (decode_items xs)

    pub decode_fields : Fields Other → Fields Other
    decode_fields no_field = no_field
    decode_fields (field k x fs) = field k (decode_job_data x) (decode_fields fs)
