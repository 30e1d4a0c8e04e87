-- ===== src/Quotes/Explorer/Status.antt =====
-- When a user operation is reported as confirmed, and what a dropped transaction is reported as.
use composable_batch_erc.Common.{
  ℕ, ◌+◌, ◌≤◌, true, false, Reply, ok, thrown, ◌≡◌, ◌⊎◌, inl, inr, refl, arith, Bool-cases,
}
use composable_batch_erc.Common.Text.{Text}
use composable_batch_erc.Common.Int.{pos, leb_ℤ, leb_ℤ-sub_ℕ, pos_part, neg_part}
use composable_batch_erc.Quotes.Explorer.{
  StoredUserOp, BlockNumbers, FetchFailure, receipt_not_found, other_failure, is_custom, checked,
  check_receipt, stored_confirmations, report,
}

-- The confirmations that a report relies on: those that are stored, or the distance of the current
-- block from the block of the receipt, which the chain gave.
abbrev pub HasConfirmations : ℕ → StoredUserOp → Reply FetchFailure BlockNumbers → Type 0
HasConfirmations custom op answer =
    (custom + neg_part (stored_confirmations op) ≤ pos_part (stored_confirmations op))
    ⊎ ((blocks : BlockNumbers) × (answer ≡ ok blocks)
        × (custom + blocks.of_receipt ≤ blocks.current + 1))

check_receipt-reached :
    (custom : ℕ) (op : StoredUserOp) (answer : Reply FetchFailure BlockNumbers)
    → leb_ℤ (pos custom) (stored_confirmations op) ≡ false
    → leb_ℤ (pos custom) (check_receipt op (stored_confirmations op) answer).confirmations ≡ true
    → HasConfirmations custom op answer
unfolding check_receipt
check_receipt-reached custom op (ok blocks) few h =
    inr (blocks, refl, (leb_ℤ-sub_ℕ (blocks.current + 1) blocks.of_receipt custom).0 h)
check_receipt-reached custom op (thrown receipt_not_found) few h = absurd (ground arith)
check_receipt-reached custom op (thrown other_failure) few h = absurd (ground arith)

checked-reached :
    (index custom : ℕ) (op : StoredUserOp) (answer : Reply FetchFailure BlockNumbers)
    → is_custom index custom op ≡ true
    → leb_ℤ (pos custom) (checked index custom op answer).confirmations ≡ true
    → HasConfirmations custom op answer
unfolding checked
checked-reached index custom op answer asked =
    elim (Bool-cases (leb_ℤ (pos custom) (stored_confirmations op))) [
      | inl enough ↦ λ h. inl (ground arith)
      | inr few ↦ rw (asked, few) (check_receipt-reached custom op answer few)
    ]

-- A user operation that is reported as confirmed is stored as confirmed. If more confirmations are
-- asked for than the chain's default, its transaction is mined and it is not the payment, then the
-- confirmations are reached: they are stored, or the chain's answer shows them.
pub report-confirmed :
    (index custom : ℕ) (op : StoredUserOp) (answer : Reply FetchFailure BlockNumbers)
    → (report index custom op answer).0.is_confirmed ≡ true
    → (op.is_confirmed ≡ true)
      × ((is_custom index custom op ≡ false) ⊎ HasConfirmations custom op answer)
unfolding report
report-confirmed index custom op answer h = elim (Bool-cases (is_custom index custom op)) [
  | inr default ↦ (rw default at h, inl default)
  | inl asked ↦
      elim (Bool-cases (leb_ℤ (pos custom) (checked index custom op answer).confirmations)) [
        | inl reached ↦
            (rw (asked, reached) at h, inr (checked-reached index custom op answer asked reached))
        | inr few ↦ absurd (cc (rw (asked, few) at h))
      ]
]
