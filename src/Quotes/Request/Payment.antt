-- ===== src/Quotes/Request/Payment.antt =====
-- What the payment of a quote pays, and to whom.
use mathlib.Core.Option.{bind}
use composable_batch_erc.Common.{
  ℕ, Bool, false, not, ◌&&◌, List, ◌∷◌, Option, none, some, if◌then◌else◌, Returns, Returns-ok,
  Returns-thrown, or_throw, if_lem, sym, ap, ◌∙◌, ◌≡◌, refl, arith, Bool-cases, inl, inr,
}
use composable_batch_erc.Common.Text.{Text, text_eq}
use composable_batch_erc.UserOps.Interfaces.{MeeUserOp, PackedUserOp, UserOp}
use composable_batch_erc.UserOps.Packing.{packed_with, pack_user_op}
use composable_batch_erc.UserOps.Estimates.{
  user_op_gas, are_timestamps_valid, is_trusted_payment, get_paymaster_and_data, GasConfig, Hashes,
  Windows, PaymentInfo, EstimateFlags, MeeUserOpRequest, EstimationGasLimits, no_code,
}
use composable_batch_erc.UserOps.Estimates.Packed.{
  get_packed_mee_user_op_with_gas_estimates, finish_estimates, lower_bound, upper_bound, crafted,
  no_l1_gas,
}
use composable_batch_erc.GasEstimator.Conditions.{GasConditions}
use composable_batch_erc.GasEstimator.Layer1.{L1Gas}
use composable_batch_erc.Payment.{
  FeePaymentType, MeeTransactionType, token_call, payment_request, native, configured_token,
  arbitrary_token, normal, fusion, PaymentCall, send_value, transfer, transfer_from,
  PaymentCalldataParams, PaymentConfig, payment_call, or_no_code, encoded_call, map_request,
  prepare_payment_calldata, prepare_payment_user_op,
}
use composable_batch_erc.Quotes.Balances.{RequestFailure, calldata_failed, estimate_failed}
use composable_batch_erc.Quotes.Context.{ChainRequest, QuoteRequest, QuoteContext}
use composable_batch_erc.Quotes.Request.{
  is_trusted_sponsorship, payment_user_op, estimate, to_payment_info, is_simple,
}

-- The call gives the amount to the beneficiary, in the token or in the native one.
abbrev pub Pays : (beneficiary token : Text) → ℕ → PaymentCall → Type 0
Pays beneficiary token n (send_value to v) = (to ≡ beneficiary) × (v ≡ n)
Pays beneficiary token n (transfer t to v) = (t ≡ token) × (to ≡ beneficiary) × (v ≡ n)
Pays beneficiary token n (transfer_from t owner to v) = (t ≡ token) × (to ≡ beneficiary) × (v ≡ n)

-- If there is a call, it pays.
abbrev IsPaying : (beneficiary token : Text) → ℕ → Option PaymentCall → Type 0
IsPaying beneficiary token n none = Unit
IsPaying beneficiary token n (some call) = Pays beneficiary token n call

token_call-IsPaying :
    (transaction_type : MeeTransactionType) (eoa : Option Text) (token to : Text) (n : ℕ)
    → IsPaying to token n (token_call transaction_type eoa token to n)
token_call-IsPaying normal eoa token to n = (refl, refl, refl)
token_call-IsPaying fusion none token to n = tt
token_call-IsPaying fusion (some owner) token to n = (refl, refl, refl)

payment_call-IsPaying :
    (config : PaymentConfig) (fee_type : FeePaymentType) (params : PaymentCalldataParams)
    → IsPaying config.fee_beneficiary params.token_address params.amount
        (payment_call config fee_type params)
unfolding payment_call
payment_call-IsPaying config native params = (refl, refl)
payment_call-IsPaying config configured_token params =
    token_call-IsPaying params.transaction_type params.eoa params.token_address
      config.fee_beneficiary params.amount
payment_call-IsPaying config arbitrary_token params =
    token_call-IsPaying params.transaction_type params.eoa params.token_address
      config.fee_beneficiary params.amount

module _ (context : QuoteContext) (request : QuoteRequest) where
  -- These call data encode a call that pays the amount to the node.
  abbrev pub PaysNode : ℕ → Text → Type 0
  PaysNode n calldata =
      (call : PaymentCall) × (calldata ≡ context.encode_call_data call)
      × Pays context.payment_config.fee_beneficiary request.payment.token n call

  -- The first user operation pays.
  abbrev pub IsPaid : ℕ → List MeeUserOp → Type 0
  IsPaid n ops =
      (payment : MeeUserOp) × (rest : List MeeUserOp) × (ops ≡ payment ∷ rest)
      × PaysNode n payment.user_op.call_data

  pub unsponsored-untrusted :
      request.payment.sponsored ≡ false → is_trusted_sponsorship context request ≡ false
  unfolding is_trusted_sponsorship
  unsponsored-untrusted h = ground arith

  encoded-PaysNode :
      (n : ℕ) (o : Option PaymentCall) (calldata : Text)
      → IsPaying context.payment_config.fee_beneficiary request.payment.token n o
      → or_no_code (encoded_call context.encode_call_data o) ≡ some calldata
      → PaysNode n calldata
  encoded-PaysNode n none calldata p h = absurd (cc h)
  encoded-PaysNode n (some call) calldata p h =
      elim (Bool-cases (text_eq (context.encode_call_data call) no_code)) [
        | inl e ↦ let k : none ≡ some calldata = sym (rw e refl) ∙ h in absurd (cc k)
        | inr e ↦
            let k : some (context.encode_call_data call) ≡ some calldata = sym (rw e refl) ∙ h in
            (call, cc k, p)
      ]

  map_request-PaysNode :
      (n : ℕ) (fee_type : FeePaymentType) (o : Option Text)
      → ((calldata : Text) → o ≡ some calldata → PaysNode n calldata)
      → (failure : RequestFailure)
      → Returns
          (λ (r : MeeUserOpRequest). PaysNode n r.call_data)
          (or_throw
            (map_request (payment_request context.payment_config fee_type request.payment) o)
            failure)
  map_request-PaysNode n fee_type none h failure = Returns-thrown failure
  map_request-PaysNode n fee_type (some calldata) h failure = Returns-ok _ (h calldata refl)

  pub payment_user_op-Pays :
      (fee_type : FeePaymentType) (n : ℕ)
      → is_trusted_sponsorship context request ≡ false
      → Returns
          (λ (r : MeeUserOpRequest). PaysNode n r.call_data)
          (payment_user_op context request fee_type n)
  unfolding payment_user_op prepare_payment_user_op prepare_payment_calldata
  payment_user_op-Pays fee_type n untrusted = rw untrusted (
      map_request-PaysNode n fee_type _
        (λ calldata.
          encoded-PaysNode n _ calldata (payment_call-IsPaying context.payment_config fee_type _))
        calldata_failed)

  -- What is estimated keeps its call data.
  record Keeps (calldata : Text) (o : Option (MeeUserOp × GasConditions × L1Gas)) : Type 0 where
    kept : (r : MeeUserOp × GasConditions × L1Gas) → o ≡ some r → r.0.user_op.call_data ≡ calldata

  none-Keeps : (calldata : Text) → Keeps calldata none
  none-Keeps calldata = record { kept = λ r e. absurd (cc e) }

  Keeps-bind :
      {A : Type 0} (calldata : Text) (m : Option A)
      (f : A → Option (MeeUserOp × GasConditions × L1Gas))
      → ((a : A) → m ≡ some a → Keeps calldata (f a))
      → Keeps calldata (bind m f)
  unfolding bind
  Keeps-bind calldata none f h = none-Keeps calldata
  Keeps-bind calldata (some a) f h = h a refl

  some-Keeps :
      (calldata : Text) (r : MeeUserOp × GasConditions × L1Gas)
      → r.0.user_op.call_data ≡ calldata
      → Keeps calldata (some r)
  some-Keeps calldata r h = record { kept = λ s e. ap (call_data_in s) (sym e) ∙ h }
    where
      call_data_in :
          MeeUserOp × GasConditions × L1Gas → Option (MeeUserOp × GasConditions × L1Gas) → Text
      call_data_in other none = other.0.user_op.call_data
      call_data_in other (some r) = r.0.user_op.call_data

  or_throw-Returns :
      (calldata : Text) (o : Option (MeeUserOp × GasConditions × L1Gas)) (failure : RequestFailure)
      → Keeps calldata o
      → Returns
          (λ (r : MeeUserOp × GasConditions × L1Gas). r.0.user_op.call_data ≡ calldata)
          (or_throw o failure)
  or_throw-Returns calldata none failure h = Returns-thrown failure
  or_throw-Returns calldata (some r) failure h = Returns-ok r (h.kept r refl)

  packed-call_data :
      (op : UserOp) (limits fees : Option Text) (packed : PackedUserOp)
      → packed_with context.hex op limits fees ≡ some packed
      → packed.call_data ≡ op.call_data
  packed-call_data op none fees packed h = absurd (cc h)
  packed-call_data op (some limits) none packed h = absurd (cc h)
  packed-call_data op (some limits) (some fees) packed h = ap (call_data_of packed) (sym h)
    where
      call_data_of : PackedUserOp → Option PackedUserOp → Text
      call_data_of other none = other.call_data
      call_data_of other (some p) = p.call_data

  pack_user_op-call_data :
      (op : UserOp) (packed : PackedUserOp)
      → pack_user_op context.hex op ≡ some packed
      → packed.call_data ≡ op.call_data
  unfolding pack_user_op
  pack_user_op-call_data op packed h = packed-call_data op _ _ packed h

  chain-Keeps :
      (calldata : Text) (invalid : Bool) (conditions : Option GasConditions)
      (paymaster : Option Text) (pack : GasConditions → Text → Option PackedUserOp)
      (l1_gas : Option L1Gas) (finish : L1Gas → PackedUserOp → MeeUserOp)
      → ((fees : GasConditions) (sponsor : Text) (packed : PackedUserOp)
          → pack fees sponsor ≡ some packed
          → packed.call_data ≡ calldata)
      → ((l1 : L1Gas) (packed : PackedUserOp)
          → (finish l1 packed).user_op.call_data ≡ packed.call_data)
      → Keeps calldata (
          if invalid
          then none
          else bind conditions λ fees. bind paymaster λ sponsor.
            bind (pack fees sponsor) λ packed. bind l1_gas λ l1. some (finish l1 packed, fees, l1))
  chain-Keeps calldata invalid conditions paymaster pack l1_gas finish packs finishes =
      if_lem (Keeps calldata) invalid none
        (bind conditions λ fees. bind paymaster λ sponsor.
          bind (pack fees sponsor) λ packed. bind l1_gas λ l1. some (finish l1 packed, fees, l1))
        (λ _. none-Keeps calldata)
        λ _. Keeps-bind calldata conditions _ λ fees _. Keeps-bind calldata paymaster _ λ sponsor _.
          Keeps-bind calldata (pack fees sponsor) _ λ packed e. Keeps-bind calldata l1_gas _ λ l1 _.
            some-Keeps calldata (finish l1 packed, fees, l1)
              (finishes l1 packed ∙ packs fees sponsor packed e)

  estimates-Keeps :
      (config : GasConfig) (hashes : Hashes) (windows : Windows) (op : MeeUserOpRequest)
      (payment : PaymentInfo) (flags : EstimateFlags) (limits : Option EstimationGasLimits)
      (conditions : Option GasConditions) (l1_gas : Option L1Gas)
      → Keeps op.call_data (
          get_packed_mee_user_op_with_gas_estimates config context.hex hashes windows op payment
            flags limits conditions l1_gas)
  unfolding get_packed_mee_user_op_with_gas_estimates finish_estimates
  estimates-Keeps config hashes windows op payment flags limits conditions l1_gas =
      let gas = user_op_gas config op flags limits in
      chain-Keeps op.call_data
        (not flags.is_payment_user_op
          && not (
              are_timestamps_valid windows (lower_bound windows op flags) (upper_bound windows op)))
        conditions
        (if is_trusted_payment flags
          then some no_code
          else get_paymaster_and_data config context.hex payment flags.is_trusted_sponsorship)
        (λ fees paymaster. pack_user_op context.hex (crafted op flags gas fees paymaster))
        (if is_trusted_payment flags then some no_l1_gas else l1_gas)
        (λ l1 packed. finish_estimates windows hashes op flags gas l1 packed)
        (λ fees paymaster packed e.
          pack_user_op-call_data (crafted op flags gas fees paymaster) packed e)
        (λ l1 packed. refl)

  pub estimate-call_data :
      (is_eip712 is_deployed is_payment : Bool) (op : ChainRequest)
      (limits : Option EstimationGasLimits) (conditions : Option GasConditions)
      (l1_gas : Option L1Gas)
      → Returns
          (λ (r : MeeUserOp × GasConditions × L1Gas). r.0.user_op.call_data ≡ op.1.call_data)
          (estimate context request is_eip712 is_deployed is_payment op limits conditions l1_gas)
  unfolding estimate
  estimate-call_data is_eip712 is_deployed is_payment op limits conditions l1_gas =
      or_throw-Returns op.1.call_data _ estimate_failed (
        estimates-Keeps (context.config_of op.0)
          (context.hashes_of (is_eip712 && is_simple request.quote_type)) context.windows op.1
          (to_payment_info request.payment)
          (record {
            is_trusted_sponsorship = is_trusted_sponsorship context request;
            is_account_deployment_required = is_deployed;
            is_payment_user_op = is_payment;
          })
          limits conditions l1_gas)
