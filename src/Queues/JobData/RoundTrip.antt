-- ===== src/Queues/JobData/RoundTrip.antt =====
-- What a job's data is after it was written to a queue and read back.
use mathlib.Core.List.{cons-ne-nil}
use composable_batch_erc.Common.{
  Bool-cases, inl, inr, ◌==◌, ℕ, Bool, true, false, ◌&&◌, not, [], ◌∷◌, ◌++◌, ◌≡◌, ◌≢◌, ◌↔◌, refl,
  arith, all, ap,
}
use composable_batch_erc.Common.Text.{Text}
use composable_batch_erc.Queues.Decimal.{print, is_digit, read-print, print-digits, print-ne-nil}
use composable_batch_erc.Queues.JobData.{
  is_nil, big_int, negative_big_int, Value, other, text, big, array, plain_object, Values,
  none_left, item, Fields, no_field, field, digits_then_n, is_big_int_text, drop_last,
  encode_job_data, encode_items, encode_fields, decode_text, decode_job_data, decode_items,
  decode_fields,
}

drop_last-append : (s : Text) (c : ℕ) → drop_last (s ++ c ∷ []) ≡ s
unfolding drop_last
drop_last-append [] c = refl
drop_last-append (d ∷ []) c = refl
drop_last-append (d ∷ e ∷ s) c = ap (λ t. d ∷ t) (drop_last-append (e ∷ s) c)

digits_then_n-append : (s : Text) → all is_digit s ≡ true → digits_then_n (s ++ b'n' ∷ []) ≡ true
unfolding digits_then_n
digits_then_n-append [] h = refl
digits_then_n-append (c ∷ s) h = ground (arith, digits_then_n-append s)

is_big_int_text-append :
    (s : Text) → s ≢ [] → all is_digit s ≡ true → is_big_int_text (s ++ b'n' ∷ []) ≡ true
unfolding is_big_int_text
is_big_int_text-append [] h k = absurd (h refl)
is_big_int_text-append (c ∷ s) h k = ground (arith, digits_then_n-append s)

module _ {Other : Type 0} where
  decode_text-print : (n : ℕ) → decode_text {Other = Other} (print n ++ b'n' ∷ []) ≡ big (big_int n)
  unfolding decode_text
  decode_text-print n = rw (
    is_big_int_text-append (print n) (print-ne-nil n) (print-digits n),
    drop_last-append,
    read-print,
  )

  -- Whether the queue keeps a value, by the test that the code makes of its texts.
  unfoldable mutual
    unfolding is_big_int_text

    pub is_kept : Value Other → Bool
    is_kept (text s) = not (is_big_int_text s)
    is_kept (big (big_int n)) = true
    is_kept (big (negative_big_int n)) = false
    is_kept (array xs) = items_kept xs
    is_kept (plain_object fs) = fields_kept fs
    is_kept (other x) = true

    items_kept : Values Other → Bool
    items_kept none_left = true
    items_kept (item x xs) = is_kept x && items_kept xs

    fields_kept : Fields Other → Bool
    fields_kept no_field = true
    fields_kept (field k x fs) = is_kept x && fields_kept fs

  mutual
    unfolding encode_job_data decode_job_data is_kept

    returned : (v : Value Other) → is_kept v ≡ true → decode_job_data (encode_job_data v) ≡ v
    returned (text s) h = ground arith
    returned (big (big_int n)) h = decode_text-print n
    returned (big (negative_big_int n)) h = ground arith
    returned (array xs) h = ap array (items_returned xs h)
    returned (plain_object fs) h = ap plain_object (fields_returned fs h)
    returned (other x) h = refl

    items_returned :
        (xs : Values Other) → items_kept xs ≡ true → decode_items (encode_items xs) ≡ xs
    items_returned none_left h = refl
    items_returned (item x xs) h = ground (arith, returned x, items_returned xs)

    fields_returned :
        (fs : Fields Other) → fields_kept fs ≡ true → decode_fields (encode_fields fs) ≡ fs
    fields_returned no_field h = refl
    fields_returned (field k x fs) h = ground (arith, returned x, fields_returned fs)

  mutual
    unfolding encode_job_data decode_job_data is_kept

    kept : (v : Value Other) → decode_job_data (encode_job_data v) ≡ v → is_kept v ≡ true
    kept (text s) h = ground arith
    kept (big (big_int n)) h = refl
    kept (big (negative_big_int n)) h = ground arith
    kept (array xs) h = items_are_kept xs (cc)
    kept (plain_object fs) h = fields_are_kept fs (cc)
    kept (other x) h = refl

    items_are_kept :
        (xs : Values Other) → decode_items (encode_items xs) ≡ xs → items_kept xs ≡ true
    items_are_kept none_left h = refl
    items_are_kept (item x xs) h = ground (arith, kept x, items_are_kept xs)

    fields_are_kept :
        (fs : Fields Other) → decode_fields (encode_fields fs) ≡ fs → fields_kept fs ≡ true
    fields_are_kept no_field h = refl
    fields_are_kept (field k x fs) h = ground (arith, kept x, fields_are_kept fs)

-- One or more digits and a final letter n.
abbrev pub IsBigIntText : Text → Type 0
IsBigIntText s =
    (digits : Text) × (digits ≢ []) × (all is_digit digits ≡ true) × (s ≡ digits ++ b'n' ∷ [])

last_n : (c : ℕ) (s : Text) → (c == b'n' && is_nil s) ≡ true → c ∷ s ≡ b'n' ∷ []
last_n c [] h = ap (λ d. d ∷ []) (ground arith)
last_n c (d ∷ s) h = absurd (ground arith)

both_kept :
    {P Q : Type 0} {a b : Bool} → (a ≡ true) ↔ P → (b ≡ true) ↔ Q → ((a && b) ≡ true) ↔ (P × Q)
both_kept {a = true} (f, f') (g, g') = (λ h. (f refl, g h), λ (p, q). g' q)
both_kept {a = false} (f, f') (g, g') = (λ h. absurd (ground arith), λ (p, q). f' p)

-- What the pattern has read.
read_digits_then_n :
    (s : Text)
    → digits_then_n s ≡ true
    → (digits : Text) × (all is_digit digits ≡ true) × (s ≡ digits ++ b'n' ∷ [])
unfolding digits_then_n
read_digits_then_n [] h = absurd (ground arith)
read_digits_then_n (c ∷ s) h = elim (Bool-cases (is_digit c)) [
  | inl e ↦
      let (digits, all_digits, f) = read_digits_then_n s (ground (arith, e, h)) in
      (c ∷ digits, ground (arith, e, all_digits), ap (λ t. c ∷ t) f)
  | inr e ↦ ([], refl, last_n c s (ground (arith, e, h)))
]

read_big_int : (s : Text) → is_big_int_text s ≡ true → IsBigIntText s
unfolding is_big_int_text
read_big_int [] h = absurd (ground arith)
read_big_int (c ∷ s) h =
    let (digits, all_digits, f) = read_digits_then_n s (ground (arith, h)) in
    (c ∷ digits, cons-ne-nil c digits, ground (arith, h, all_digits), ap (λ t. c ∷ t) f)

is_big_int_text-IsBigIntText : (s : Text) → (is_big_int_text s ≡ true) ↔ IsBigIntText s
is_big_int_text-IsBigIntText s = (
  read_big_int s,
  λ (digits, filled, all_digits, e). rw e (is_big_int_text-append digits filled all_digits),
)

not_both : (b : Bool) → b ≡ true → not b ≡ true → ⊥
not_both true e h = ground arith
not_both false e h = ground arith

not-true : (b : Bool) → ¬ (b ≡ true) → not b ≡ true
not-true true h = absurd (h refl)
not-true false h = refl

text_kept : (s : Text) → (not (is_big_int_text s) ≡ true) ↔ (¬ IsBigIntText s)
text_kept s =
    let (to, from) = is_big_int_text-IsBigIntText s in
    (
      λ h k. not_both (is_big_int_text s) (from k) h,
      λ h. not-true (is_big_int_text s) (λ e. h (to e)),
    )

module _ {Other : Type 0} where
  -- The queue keeps a value: it holds no negative `bigint`, and no text that looks like a `bigint`.
  unfoldable mutual
    pub IsKept : Value Other → Type 0
    IsKept (text s) = ¬ IsBigIntText s
    IsKept (big (big_int n)) = Unit
    IsKept (big (negative_big_int n)) = ⊥
    IsKept (array xs) = AreKept xs
    IsKept (plain_object fs) = HasKeptFields fs
    IsKept (other x) = Unit

    pub AreKept : Values Other → Type 0
    AreKept none_left = Unit
    AreKept (item x xs) = IsKept x × AreKept xs

    pub HasKeptFields : Fields Other → Type 0
    HasKeptFields no_field = Unit
    HasKeptFields (field k x fs) = IsKept x × HasKeptFields fs

  mutual
    unfolding is_kept IsKept

    is_kept-IsKept : (v : Value Other) → (is_kept v ≡ true) ↔ IsKept v
    is_kept-IsKept (text s) = text_kept s
    is_kept-IsKept (big (big_int n)) = (λ h. tt, λ h. refl)
    is_kept-IsKept (big (negative_big_int n)) = (λ h. ground arith, λ h. absurd h)
    is_kept-IsKept (array xs) = items_kept-AreKept xs
    is_kept-IsKept (plain_object fs) = fields_kept-HasKeptFields fs
    is_kept-IsKept (other x) = (λ h. tt, λ h. refl)

    items_kept-AreKept : (xs : Values Other) → (items_kept xs ≡ true) ↔ AreKept xs
    items_kept-AreKept none_left = (λ h. tt, λ h. refl)
    items_kept-AreKept (item x xs) = both_kept (is_kept-IsKept x) (items_kept-AreKept xs)

    fields_kept-HasKeptFields : (fs : Fields Other) → (fields_kept fs ≡ true) ↔ HasKeptFields fs
    fields_kept-HasKeptFields no_field = (λ h. tt, λ h. refl)
    fields_kept-HasKeptFields (field k x fs) =
        both_kept (is_kept-IsKept x) (fields_kept-HasKeptFields fs)

-- A job's data that is encoded and decoded again is the same value if and only if it holds, at
-- any depth, no negative bigint and no text that is one or more digits and a final letter n.
pub decode_job_data-encode_job_data :
    {Other : Type 0} (v : Value Other) → (decode_job_data (encode_job_data v) ≡ v) ↔ IsKept v
decode_job_data-encode_job_data v =
    let (to, from) = is_kept-IsKept v in (λ e. to (kept v e), λ h. returned v (from h))
