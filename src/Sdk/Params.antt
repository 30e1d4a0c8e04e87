-- ===== src/Sdk/Params.antt =====
-- sdk/src/core/types.ts and params.ts: values that are fetched when a batch is executed, and the
-- constraints on them. viem's encoders are parameters.
use composable_batch_erc.Common.{ℕ, List, [], ◌∷◌, ◌++◌, Option}
use composable_batch_erc.Common.Text.{Text}

pub data InputParamType : Type 0 where
  target value call_data : InputParamType

pub data InputParamFetcherType : Type 0 where
  raw_bytes static_call balance : InputParamFetcherType

pub data OutputParamFetcherType : Type 0 where
  exec_result static_output : OutputParamFetcherType

pub data ConstraintType : Type 0 where
  eq gte lte in_range_type : ConstraintType

pub record Constraint : Type 0 where
  pub constraint_type : ConstraintType
  pub reference_data : Text

pub record InputParam : Type 0 where
  pub param_type : InputParamType
  pub fetcher_type : InputParamFetcherType
  pub param_data : Text
  pub constraints : List Constraint

pub record OutputParam : Type 0 where
  pub fetcher_type : OutputParamFetcherType
  pub param_data : Text

pub record ComposableExecution : Type 0 where
  pub function_sig : Text
  pub input_params : List InputParam
  pub output_params : List OutputParam

pub data DynamicKind : Type 0 where
  balance_of static_read : DynamicKind

pub record DynamicParam : Type 0 where
  pub dynamic_kind : DynamicKind
  pub fetcher_data : Text
  pub constraints : List Constraint

-- A value that the SDK is given: an object by its fields, an array or a scalar by its text.
mutual
  pub data SdkValue : Type 0 where
    undefined : SdkValue
    scalar array_value : Text → SdkValue
    dynamic : DynamicParam → SdkValue
    object : Fields → SdkValue

  pub data Fields : Type 0 where
    no_field : Fields
    field : Text → SdkValue → Fields → Fields

-- `AbiParameter`: a tuple with its components, some with a name, or the text of another type.
mutual
  pub data AbiParameter : Type 0 where
    plain : Text → AbiParameter
    tuple : Components → AbiParameter

  pub data Components : Type 0 where
    no_component : Components
    component : Option Text → AbiParameter → Components → Components

-- viem; `encode_value` is `none` where it throws.
pub record AbiEncoders : Type 0 where
  pub encode_uint256 : ℕ → Text
  pub encode_address : Text → Text
  pub encode_range : (lower upper : Text) → Text
  pub encode_value : AbiParameter → SdkValue → Option Text

abbrev pub create_dynamic : DynamicKind → Text → List Constraint → DynamicParam
create_dynamic kind data_text constraints = record {
  dynamic_kind = kind;
  fetcher_data = data_text;
  constraints = constraints;
}

abbrev pub constrain : ConstraintType → Text → DynamicParam → DynamicParam
constrain constraint_type reference_data param =
    create_dynamic param.dynamic_kind param.fetcher_data (
      param.constraints
      ++ record { constraint_type = constraint_type; reference_data = reference_data } ∷ [])

module _ (abi : AbiEncoders) where
  unfoldable pub with_gte : ℕ → DynamicParam → DynamicParam
  with_gte ref param = constrain gte (abi.encode_uint256 ref) param

  unfoldable pub with_lte : ℕ → DynamicParam → DynamicParam
  with_lte ref param = constrain lte (abi.encode_uint256 ref) param

  unfoldable pub with_eq : ℕ → DynamicParam → DynamicParam
  with_eq ref param = constrain eq (abi.encode_uint256 ref) param

  unfoldable pub with_in_range : (lower upper : ℕ) → DynamicParam → DynamicParam
  with_in_range lower upper param =
      constrain in_range_type
        (abi.encode_range (abi.encode_uint256 lower) (abi.encode_uint256 upper)) param
