-- ===== src/Quotes/Context.antt =====
-- What a request for a quote holds and what the quote service asks for it:
-- orchestrator-node/src/modules/quotes/quotes.service.ts and schemas.ts.
use composable_batch_erc.Common.{ℕ, Bool, List, Option}
use composable_batch_erc.Common.Text.{Text}
use composable_batch_erc.UserOps.Interfaces.{MeeUserOp}
use composable_batch_erc.UserOps.Packing.{HexOps}
use composable_batch_erc.UserOps.Estimates.{
  GasConfig, Windows, MeeUserOpRequest, EstimationGasLimits, Hashes,
}
use composable_batch_erc.GasEstimator.Conditions.{GasConditions}
use composable_batch_erc.GasEstimator.Layer1.{L1Gas}
use composable_batch_erc.Payment.{PaymentCall, PaymentConfig, QuotePayment}
use composable_batch_erc.Quotes.Versions.{Semver}
use composable_batch_erc.Quotes.Balances.{TriggerInfo, BalanceAnswers}

pub data QuoteType : Type 0 where
  simple permit onchain mm_dtk safe_sa : QuoteType

-- A user operation that is asked for, with its chain.
abbrev pub ChainRequest : Type 0
ChainRequest = Text × MeeUserOpRequest

pub record QuoteRequest : Type 0 where
  pub is_permit : Bool
  pub quote_type : Option QuoteType
  pub payment : QuotePayment
  pub user_ops : List ChainRequest
  pub is_simulated : Bool
  pub gas_limit_buffers : Text → ℕ
  pub trigger : Option TriggerInfo
  pub mee_versions : List Text

pub record SimulationResult : Type 0 where
  pub user_op_index : ℕ
  pub chain_id : Text
  pub is_reverted : Bool
  pub limits : EstimationGasLimits

-- What the quote service is built on: the chains' settings, viem, semver and the payment.
pub record QuoteContext : Type 0 where
  pub semver : Semver
  pub is_address_equal : Text → Text → Bool
  pub hex : HexOps
  pub hashes_of : (is_eip712 : Bool) → Hashes
  pub config_of : Text → GasConfig
  pub windows : Windows
  pub is_test_chain : Text → Bool
  pub is_payment_token_supported : (chain_id token : Text) → Bool
  pub is_arbitrary_token_supported : Text → Bool
  pub encode_call_data : PaymentCall → Text
  pub payment_config : PaymentConfig
  pub zero_address : Text
  pub trusted_gas_tank : Text

-- What the services answer: balances, simulations (`none` where they throw), for each user operation
-- the fees and the gas of the first layer, and the token amount of the estimated costs.
pub record QuoteAnswers : Type 0 where
  pub balances : BalanceAnswers
  pub simulations : Option (List SimulationResult)
  pub conditions_of : ℕ → Option GasConditions
  pub l1_gas_of : ℕ → Option L1Gas
  pub token_amount : List (MeeUserOp × GasConditions × L1Gas) → Option ℕ

pub record Quote : Type 0 where
  pub user_ops : List MeeUserOp
  pub amount : ℕ
