-- ===== src/Sdk/Batch.antt =====
-- sdk/src/core/batch.ts and contract.ts: the batch builder. Its methods return the builder, or
-- `none` where they throw.
use mathlib.Core.Option.{bind}
use composable_batch_erc.Common.{ℕ, true, List, [], ◌∷◌, ◌++◌, Option, none, some, map}
use composable_batch_erc.Common.Text.{Text, codes}
use composable_batch_erc.Sdk.Params.{
  OutputParam, exec_result, ComposableExecution, DynamicParam, SdkValue, scalar, dynamic, plain,
  AbiEncoders,
}
use composable_batch_erc.Sdk.Encode.{AbiItem, address, StepValue, encode_step, encode_predicate}

pub data StepType : Type 0 where
  step predicate : StepType

pub record StepEntry : Type 0 where
  pub step_type : StepType
  pub encoded : ComposableExecution

pub record BatchBuilder : Type 0 where
  pub steps : List StepEntry
  pub account : Text
  pub weth : Option Text

pub record CaptureConfig : Type 0 where
  pub storage : Text
  pub slot : Text
  pub count : ℕ

pub record BoundContract : Type 0 where
  pub contract_address : Text
  pub contract_abi : List AbiItem

-- An argument that is a number or a value that is fetched.
pub data Amount : Type 0 where
  fixed : Text → Amount
  fetched : DynamicParam → Amount

abbrev pub amount_value : Amount → SdkValue
amount_value (fixed n) = scalar n
amount_value (fetched param) = dynamic param

-- The functions of `parseAbi`, with viem's selectors.
pub record Selectors : Type 0 where
  pub approve_selector : Text
  pub deposit_selector : Text
  pub transfer_selector : Text

abbrev pub token_function : Text → Text → AbiItem
token_function name selector = record {
  is_function = true;
  name = name;
  inputs = plain (codes "address") ∷ plain (codes "uint256") ∷ [];
  selector = selector;
}

abbrev pub captured : (CaptureConfig → Text) → Option CaptureConfig → List OutputParam
captured encode_capture none = []
captured encode_capture (some capture) =
    record { fetcher_type = exec_result; param_data = encode_capture capture } ∷ []

abbrev pub push_step : StepType → BatchBuilder → ComposableExecution → BatchBuilder
push_step step_type builder encoded = record builder {
  steps = builder.steps ++ record { step_type = step_type; encoded = encoded } ∷ [];
}

unfoldable pub add : Option ComposableExecution → BatchBuilder → Option BatchBuilder
add none builder = none
add (some encoded) builder = some (push_step step builder encoded)

unfoldable pub check_conditions : List DynamicParam → BatchBuilder → BatchBuilder
check_conditions conditions builder = push_step predicate builder (encode_predicate conditions)

unfoldable pub encode_batch : BatchBuilder → List ComposableExecution
encode_batch builder = map (λ s. s.encoded) builder.steps

module _ (abi : AbiEncoders) (selectors : Selectors) where
  unfoldable pub call_contract :
      (encode_capture : CaptureConfig → Text)
      → BoundContract
      → (function_name : Text) → List SdkValue
      → Option StepValue
      → Option CaptureConfig
      → Option ComposableExecution
  call_contract encode_capture contract function_name args step_value capture =
      encode_step abi (record {
        to = address contract.contract_address;
        abi = contract.contract_abi;
        function_name = function_name;
        args = args;
        value = step_value;
        output_params = captured encode_capture capture;
      })

  unfoldable pub approve : (token spender : Text) → Amount → Option ComposableExecution
  approve token spender n = encode_step abi (record {
    to = address token;
    abi = token_function (codes "approve") selectors.approve_selector ∷ [];
    function_name = codes "approve";
    args = scalar spender ∷ amount_value n ∷ [];
    value = none;
    output_params = [];
  })

  unfoldable pub transfer : (token to : Text) → Amount → Option ComposableExecution
  transfer token to n = encode_step abi (record {
    to = address token;
    abi = token_function (codes "transfer") selectors.transfer_selector ∷ [];
    function_name = codes "transfer";
    args = scalar to ∷ amount_value n ∷ [];
    value = none;
    output_params = [];
  })

  unfoldable pub wrap : (weth : Text) → StepValue → Option ComposableExecution
  wrap weth n = encode_step abi (record {
    to = address weth;
    abi =
        record {
          is_function = true;
          name = codes "deposit";
          inputs = [];
          selector = selectors.deposit_selector;
        }
        ∷ [];
    function_name = codes "deposit";
    args = [];
    value = some n;
    output_params = [];
  })

  -- The builder's shortcuts; without its WETH address `wrap` throws.
  unfoldable pub approve_step : (token spender : Text) → Amount → BatchBuilder → Option BatchBuilder
  approve_step token spender n builder = add (approve token spender n) builder

  unfoldable pub transfer_step : (token to : Text) → Amount → BatchBuilder → Option BatchBuilder
  transfer_step token to n builder = add (transfer token to n) builder

  unfoldable pub wrap_step : StepValue → BatchBuilder → Option BatchBuilder
  wrap_step n builder = add (bind builder.weth λ weth. wrap weth n) builder
