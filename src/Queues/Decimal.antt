-- ===== src/Queues/Decimal.antt =====
-- `BigInt.prototype.toString(10)` and `BigInt(text)` on texts of decimal digits, which
-- orchestrator-node/src/modules/core/queue/utils uses.
use mathlib.Core.List.{cons-ne-nil}
use mathlib.Core.Logic.{dite, ite}
use mathlib.Core.WellFounded.{Acc, Acc-prop, WellFounded, induction}
use native.Mathlib.Decide.{dec_lt}
use composable_batch_erc.Common.{
  ℕ, zero, suc, ◌+◌, ◌-◌, ◌*◌, ◌/◌, ◌%◌, ◌<◌, ◌≡◌, ◌≢◌, refl, arith, [], ◌∷◌, ◌++◌, Bool, true,
  ◌&&◌, leb, all,
}
use composable_batch_erc.Common.Text.{Text}

below_acc : (bound n : ℕ) → n < bound → Acc ◌<◌ n
below_acc zero n h = absurd (omega arith)
below_acc (suc bound) n h = Acc.intro n λ m lt. below_acc bound m (omega arith)

smaller_wf : WellFounded ◌<◌
unfolding below_acc
smaller_wf = record { apply = λ n. below_acc (suc n) n (omega arith) }

without_last_digit : {n : ℕ} → (n < 10 → ⊥) → n / 10 < n
without_last_digit h = omega arith

print_from : (n : ℕ) → Acc ◌<◌ n → Text
print_from n (Acc.intro _ smaller) =
    dite (dec_lt n 10) (λ _. (b'0' + n) ∷ [])
      (λ h. print_from (n / 10) (smaller (n / 10) (without_last_digit h)) ++ (b'0' + n % 10) ∷ [])

-- `toString(10)`.
pub print : ℕ → Text
unfolding print_from
print n = print_from n (smaller_wf.apply n)

-- The number that the digits spell behind those read already.
unfoldable pub read_from : ℕ → Text → ℕ
read_from n [] = n
read_from n (c ∷ s) = read_from (n * 10 + (c - b'0')) s

-- `BigInt(text)`.
unfoldable pub read : Text → ℕ
unfolding read_from
read = read_from 0

-- `\d`.
abbrev pub is_digit : ℕ → Bool
is_digit c = leb b'0' c && leb c b'9'

-- Any two proofs of accessibility are equal.
print_step_at :
    (n : ℕ) (w : Acc ◌<◌ n) (w' : Acc ◌<◌ (n / 10))
    → print_from n w
      ≡ ite (dec_lt n 10) ((b'0' + n) ∷ []) (print_from (n / 10) w' ++ (b'0' + n % 10) ∷ [])
unfolding print_from
print_step_at n (Acc.intro _ smaller) w' = λ i.
    dite (dec_lt n 10) (λ _. (b'0' + n) ∷ [])
      (λ h.
        print_from (n / 10) (Acc-prop (smaller (n / 10) (without_last_digit h)) w' i)
        ++ (b'0' + n % 10) ∷ [])

pub print_step :
    (n : ℕ) → print n ≡ ite (dec_lt n 10) ((b'0' + n) ∷ []) (print (n / 10) ++ (b'0' + n % 10) ∷ [])
unfolding print
print_step n = print_step_at n (smaller_wf.apply n) (smaller_wf.apply (n / 10))

read_from-append :
    (n : ℕ) (s : Text) (c : ℕ) → read_from n (s ++ c ∷ []) ≡ read_from n s * 10 + (c - b'0')
unfolding read_from
read_from-append n [] c = refl
read_from-append n (d ∷ s) c = read_from-append (n * 10 + (d - b'0')) s c

read_last : (n : ℕ) (s : Text) → read s ≡ n / 10 → read (s ++ (b'0' + n % 10) ∷ []) ≡ n
unfolding read
read_last n s h = omega (arith, read_from-append 0 s (b'0' + n % 10), h)

read_digit : (n : ℕ) → n < 10 → read ((b'0' + n) ∷ []) ≡ n
unfolding read read_from
read_digit n h = omega arith

-- Every number is read back from its decimal print.
pub read-print : (n : ℕ) → read (print n) ≡ n
read-print n =
    induction smaller_wf {C = λ m. read (print m) ≡ m} n
      λ m ih. grind (arith, print_step m, read_digit m, read_last m (print (m / 10)), ih (m / 10))

all_digits-append :
    (s : Text) (c : ℕ)
    → all is_digit s ≡ true
    → is_digit c ≡ true
    → all is_digit (s ++ c ∷ []) ≡ true
all_digits-append [] c h k = ground arith
all_digits-append (d ∷ s) c h k = ground (arith, all_digits-append s c)

last_is_digit : (n : ℕ) → is_digit (b'0' + n % 10) ≡ true
last_is_digit n = ground arith

digit_is_digit : (n : ℕ) → n < 10 → is_digit (b'0' + n) ≡ true
digit_is_digit n h = ground arith

pub print-digits : (n : ℕ) → all is_digit (print n) ≡ true
print-digits n = induction smaller_wf {C = λ m. all is_digit (print m) ≡ true} n λ m ih. grind (
  arith,
  print_step m,
  digit_is_digit m,
  last_is_digit m,
  all_digits-append (print (m / 10)) (b'0' + m % 10),
  ih (m / 10),
)

append_last-ne-nil : (s : Text) (c : ℕ) → s ++ c ∷ [] ≢ []
append_last-ne-nil [] c = cons-ne-nil c []
append_last-ne-nil (d ∷ s) c = cons-ne-nil d (s ++ c ∷ [])

pub print-ne-nil : (n : ℕ) → print n ≢ []
print-ne-nil n = grind (
  arith,
  print_step n,
  cons-ne-nil (b'0' + n) [],
  append_last-ne-nil (print (n / 10)) (b'0' + n % 10),
)
