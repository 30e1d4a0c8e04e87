-- ===== src/Queues/JobData/Serializable.antt =====
-- Encoded data can be written as JSON.
use composable_batch_erc.Common.{Bool, true, false, ◌||◌, ◌≡◌, refl}
use composable_batch_erc.Queues.JobData.{
  Value, other, text, big, array, plain_object, Values, none_left, item, Fields, no_field, field,
  encode_job_data, encode_items, encode_fields,
}

module _ {Other : Type 0} where
  -- Whether a `bigint`, of which `JSON.stringify` throws, is left anywhere in a value.
  unfoldable mutual
    pub has_big_int : Value Other → Bool
    has_big_int (big n) = true
    has_big_int (array xs) = items_have_big_int xs
    has_big_int (plain_object fs) = fields_have_big_int fs
    has_big_int (text s) = false
    has_big_int (other x) = false

    items_have_big_int : Values Other → Bool
    items_have_big_int none_left = false
    items_have_big_int (item x xs) = has_big_int x || items_have_big_int xs

    fields_have_big_int : Fields Other → Bool
    fields_have_big_int no_field = false
    fields_have_big_int (field k x fs) = has_big_int x || fields_have_big_int fs

  mutual
    unfolding encode_job_data has_big_int

    encoded : (v : Value Other) → has_big_int (encode_job_data v) ≡ false
    encoded (big n) = refl
    encoded (array xs) = items_encoded xs
    encoded (plain_object fs) = fields_encoded fs
    encoded (text s) = refl
    encoded (other x) = refl

    items_encoded : (xs : Values Other) → items_have_big_int (encode_items xs) ≡ false
    items_encoded none_left = refl
    items_encoded (item x xs) = rw (encoded x, items_encoded xs)

    fields_encoded : (fs : Fields Other) → fields_have_big_int (encode_fields fs) ≡ false
    fields_encoded no_field = refl
    fields_encoded (field k x fs) = rw (encoded x, fields_encoded fs)

-- Encoded data holds no bigint at any depth, so that it can be written as JSON.
pub encode_job_data-serializable :
    {Other : Type 0} (v : Value Other) → has_big_int (encode_job_data v) ≡ false
encode_job_data-serializable v = encoded v
