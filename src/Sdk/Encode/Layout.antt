-- ===== src/Sdk/Encode/Layout.antt =====
-- The order and the kinds of the parameters of an encoded step.
use mathlib.Core.Option.{bind}
use composable_batch_erc.Common.{
  ℕ, List, [], ◌∷◌, ◌++◌, Option, none, some, ◌≡◌, refl, arith, All, All-append, length,
  length-append, ◌+◌, subst,
}
use composable_batch_erc.Common.Text.{Text}
use composable_batch_erc.Sdk.Params.{
  InputParam, call_data, SdkValue, undefined, scalar, array_value, dynamic, object, Fields,
  no_field, AbiParameter, plain, tuple, Components, no_component, component, AbiEncoders,
}
use composable_batch_erc.Sdk.Encode.{StepValue, raw_of, get_field, flatten_arg, flatten_fields}

abbrev pub IsCallData : List InputParam → Type 0
IsCallData params = All (λ p. p.param_type ≡ call_data) params

-- How many parameters an argument is: those of its named fields for a structure, else one.
abbrev mutual
  pub parts : AbiParameter → SdkValue → ℕ
  parts (plain name) v = 1
  parts (tuple components) (dynamic param) = 1
  parts (tuple components) undefined = 1
  parts (tuple components) (scalar v) = 1
  parts (tuple components) (array_value v) = named_parts components no_field
  parts (tuple components) (object fields) = named_parts components fields

  pub named_parts : Components → Fields → ℕ
  named_parts no_component fields = 0
  named_parts (component none abi_type components) fields = named_parts components fields
  named_parts (component (some []) abi_type components) fields = named_parts components fields
  named_parts (component (some (c ∷ name)) abi_type components) fields =
      parts abi_type (get_field fields (c ∷ name)) + named_parts components fields

abbrev pub all_parts : List AbiParameter → List SdkValue → ℕ
all_parts inputs [] = 0
all_parts [] (arg ∷ args) = 0
all_parts (input ∷ inputs) (arg ∷ args) = parts input arg + all_parts inputs args

-- If there is a result, it is `n` call data.
abbrev GivesCallData : ℕ → Option (List InputParam) → Type 0
GivesCallData n result =
    (params : List InputParam) → result ≡ some params → IsCallData params × (length params ≡ n)

some-IsCallData :
    (given : List InputParam) → IsCallData given → GivesCallData (length given) (some given)
some-IsCallData given h params e =
    let p : given ≡ params = cc e in
    subst (λ l. IsCallData l × (length l ≡ length given)) p (h, refl)

append-IsCallData :
    (m n : ℕ) (first rest : Option (List InputParam))
    → GivesCallData m first
    → GivesCallData n rest
    → GivesCallData (m + n) (bind first λ params. bind rest λ others. some (params ++ others))
unfolding bind
append-IsCallData m n none rest h k params e = absurd (cc e)
append-IsCallData m n (some first) none h k params e = absurd (cc e)
append-IsCallData m n (some first) (some rest) h k params e =
    let (a, la) = h first refl in
    let (b, lb) = k rest refl in
    let (c, lc) = some-IsCallData (first ++ rest) (All-append _ first rest a b) params e in
    (c, omega (arith, lc, la, lb, length-append first rest))

raw_of-IsCallData : (o : Option Text) → GivesCallData 1 (raw_of call_data o)
raw_of-IsCallData none = λ params e. absurd (cc e)
raw_of-IsCallData (some s) = some-IsCallData _ (refl, tt)

abbrev pub count_of : Option StepValue → ℕ
count_of none = 0
count_of (some n) = 1

module _ (abi : AbiEncoders) where
  mutual
    unfolding flatten_arg flatten_fields

    flatten_arg-IsCallData :
        (abi_type : AbiParameter) (v : SdkValue)
        → GivesCallData (parts abi_type v) (flatten_arg abi abi_type v)
    flatten_arg-IsCallData (plain name) (dynamic param) = some-IsCallData _ (refl, tt)
    flatten_arg-IsCallData (plain name) undefined = raw_of-IsCallData _
    flatten_arg-IsCallData (plain name) (scalar s) = raw_of-IsCallData _
    flatten_arg-IsCallData (plain name) (array_value s) = raw_of-IsCallData _
    flatten_arg-IsCallData (plain name) (object fields) = raw_of-IsCallData _
    flatten_arg-IsCallData (tuple components) (dynamic param) = some-IsCallData _ (refl, tt)
    flatten_arg-IsCallData (tuple components) undefined = raw_of-IsCallData _
    flatten_arg-IsCallData (tuple components) (scalar s) = raw_of-IsCallData _
    flatten_arg-IsCallData (tuple components) (array_value s) =
        flatten_fields-IsCallData components no_field
    flatten_arg-IsCallData (tuple components) (object fields) =
        flatten_fields-IsCallData components fields

    flatten_fields-IsCallData :
        (components : Components) (fields : Fields)
        → GivesCallData (named_parts components fields) (flatten_fields abi components fields)
    flatten_fields-IsCallData no_component fields = some-IsCallData [] tt
    flatten_fields-IsCallData (component none abi_type components) fields =
        flatten_fields-IsCallData components fields
    flatten_fields-IsCallData (component (some []) abi_type components) fields =
        flatten_fields-IsCallData components fields
    flatten_fields-IsCallData (component (some (c ∷ name)) abi_type components) fields =
        append-IsCallData _ _ _ _ (flatten_arg-IsCallData abi_type (get_field fields (c ∷ name)))
          (flatten_fields-IsCallData components fields)
