-- ===== src/Sdk/Encode.antt =====
-- sdk/src/core/encode.ts: one step of a batch, and one predicate. What throws is `none`.
pub mod Layout
use mathlib.Core.Option.{bind}
use composable_batch_erc.Common.{
  ℕ, suc, Bool, true, false, ◌&&◌, List, [], ◌∷◌, ◌++◌, Option, none, some, if◌then◌else◌, map,
}
use composable_batch_erc.Common.Text.{Text, codes, text_eq}
use composable_batch_erc.Sdk.Params.{
  InputParamType, target, value, call_data, InputParamFetcherType, raw_bytes, static_call, balance,
  InputParam, OutputParam, ComposableExecution, DynamicKind, balance_of, static_read, DynamicParam,
  SdkValue, undefined, scalar, array_value, dynamic, object, Fields, no_field, field, AbiParameter,
  plain, tuple, Components, no_component, component, AbiEncoders,
}

-- A function of an ABI, or another item. The selector is viem's.
pub record AbiItem : Type 0 where
  pub is_function : Bool
  pub name : Text
  pub inputs : List AbiParameter
  pub selector : Text

pub data StepTarget : Type 0 where
  address : Text → StepTarget
  dynamic_address : DynamicParam → StepTarget

pub data StepValue : Type 0 where
  amount : ℕ → StepValue
  dynamic_amount : DynamicParam → StepValue

pub record EncodeStepParams : Type 0 where
  pub to : StepTarget
  pub abi : List AbiItem
  pub function_name : Text
  pub args : List SdkValue
  pub value : Option StepValue
  pub output_params : List OutputParam

abbrev pub fetcher_of : DynamicKind → InputParamFetcherType
fetcher_of balance_of = balance
fetcher_of static_read = static_call

abbrev pub dynamic_to_input_param : DynamicParam → InputParamType → InputParam
dynamic_to_input_param param param_type = record {
  param_type = param_type;
  fetcher_type = fetcher_of param.dynamic_kind;
  param_data = param.fetcher_data;
  constraints = param.constraints;
}

abbrev pub raw_param : InputParamType → Text → InputParam
raw_param param_type param_data = record {
  param_type = param_type;
  fetcher_type = raw_bytes;
  param_data = param_data;
  constraints = [];
}

unfoldable pub get_field : Fields → Text → SdkValue
get_field no_field name = undefined
get_field (field other v fields) name = if text_eq other name then v else get_field fields name

abbrev pub raw_of : InputParamType → Option Text → Option (List InputParam)
raw_of param_type none = none
raw_of param_type (some param_data) = some (raw_param param_type param_data ∷ [])

unfoldable pub find_function : Text → List AbiItem → Option AbiItem
find_function name [] = none
find_function name (item ∷ items) =
    if item.is_function && text_eq item.name name then some item else find_function name items

module _ (abi : AbiEncoders) where
  abbrev pub static_to_input_param : SdkValue → AbiParameter → Option (List InputParam)
  static_to_input_param v abi_type = raw_of call_data (abi.encode_value abi_type v)

  -- A structure is flattened into its named fields, also where it is an array: its fields are then
  -- missing.
  unfoldable mutual
    pub flatten_arg : AbiParameter → SdkValue → Option (List InputParam)
    flatten_arg abi_type (dynamic param) = some (dynamic_to_input_param param call_data ∷ [])
    flatten_arg (tuple components) (object fields) = flatten_fields components fields
    flatten_arg (tuple components) (array_value v) = flatten_fields components no_field
    flatten_arg (tuple components) (scalar v) = static_to_input_param (scalar v) (tuple components)
    flatten_arg (tuple components) undefined = static_to_input_param undefined (tuple components)
    flatten_arg (plain name) v = static_to_input_param v (plain name)

    pub flatten_fields : Components → Fields → Option (List InputParam)
    flatten_fields no_component fields = some []
    flatten_fields (component none abi_type components) fields = flatten_fields components fields
    flatten_fields (component (some []) abi_type components) fields =
        flatten_fields components fields
    flatten_fields (component (some (c ∷ name)) abi_type components) fields =
        bind (flatten_arg abi_type (get_field fields (c ∷ name)))
          λ params. bind (flatten_fields components fields) λ rest. some (params ++ rest)

  -- The arguments; one that the function has no input for throws.
  unfoldable pub flatten_args : List AbiParameter → List SdkValue → Option (List InputParam)
  flatten_args inputs [] = some []
  flatten_args [] (arg ∷ args) = none
  flatten_args (input ∷ inputs) (arg ∷ args) =
      bind (flatten_arg input arg)
        λ params. bind (flatten_args inputs args) λ rest. some (params ++ rest)

  abbrev pub target_param : StepTarget → InputParam
  target_param (address to) = raw_param target (abi.encode_address to)
  target_param (dynamic_address param) = dynamic_to_input_param param target

  abbrev pub value_params : Option StepValue → List InputParam
  value_params none = []
  value_params (some (amount n)) = raw_param value (abi.encode_uint256 n) ∷ []
  value_params (some (dynamic_amount param)) = dynamic_to_input_param param value ∷ []

  unfoldable pub encode_step : EncodeStepParams → Option ComposableExecution
  encode_step params = bind (find_function params.function_name params.abi) λ item.
      bind (flatten_args item.inputs params.args) λ args. some (record {
        function_sig = item.selector;
        input_params = target_param params.to ∷ value_params params.value ++ args;
        output_params = params.output_params;
      })

unfoldable pub encode_predicate : List DynamicParam → ComposableExecution
encode_predicate conditions = record {
  function_sig = codes "0x00000000";
  input_params = map (λ c. dynamic_to_input_param c call_data) conditions;
  output_params = [];
}
