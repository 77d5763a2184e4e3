-- ===== src/Contracts/States.antt =====
-- The conditions and effects of packages/contracts/src/stateweaver/contracts/state_ir.py, with the values that
-- Python compares. Numbers are codes: two numbers have one code when `==` holds of them, and order, sum and difference are
-- arguments. Paths are numbers.
use stateweaver.Common.{
  ℕ, Bool, true, false, not, ◌&&◌, ◌||◌, Option, none, some, List, [], ◌∷◌, Result, ok, raise_if,
  ◌>>◌, ◌==◌, is_some, any, ltb, Text, text_eq, if◌then◌else◌,
}

-- `of_truth` is the code of the number that a Boolean equals.
pub record Arithmetic : Type 0 where
  pub of_truth : Bool → ℕ
  pub less : ℕ → ℕ → Bool
  pub add : ℕ → ℕ → ℕ
  pub subtract : ℕ → ℕ → ℕ

-- `JsonScalar`.
pub data Scalar : Type 0 where
  null : Scalar
  truth : Bool → Scalar
  number : ℕ → Scalar
  text : Text → Scalar

-- A value of a state: `add` makes tuples.
pub data Value : Type 0 where
  scalar : Scalar → Value
  tuple : List Scalar → Value

pub data ComparisonOperator : Type 0 where
  eq ne lt le gt ge contained not_contained exists not_exists : ComparisonOperator

pub data EffectOperation : Type 0 where
  set add remove increment decrement : EffectOperation

pub record StateCondition : Type 0 where
  pub path : ℕ
  pub operator : ComparisonOperator
  pub value : Scalar
  pub reference : Option ℕ

pub record StateEffect : Type 0 where
  pub path : ℕ
  pub operation : EffectOperation
  pub value : Scalar

pub data ShapeError : Type 0 where
  operand_of_existence one_operand value_absent value_not_number : ShapeError

abbrev pub is_null : Scalar → Bool
is_null null = true
is_null _ = false

abbrev pub is_number : Scalar → Bool
is_number (number _) = true
is_number _ = false

abbrev pub is_existence : ComparisonOperator → Bool
is_existence exists = true
is_existence not_exists = true
is_existence _ = false

abbrev same_truth : Bool → Bool → Bool
same_truth true b = b
same_truth false b = not b

-- `operand_shape_is_valid`.
unfoldable pub validate_condition : StateCondition → Result ShapeError StateCondition
validate_condition c = do
  raise_if (is_existence c.operator && (not (is_null c.value) || is_some c.reference))
      operand_of_existence
  raise_if
      (not (is_existence c.operator) && same_truth (is_null c.value) (not (is_some c.reference)))
      one_operand
  ok c

abbrev wants_value : EffectOperation → Bool
wants_value set = true
wants_value add = true
wants_value _ = false

abbrev wants_number : EffectOperation → Bool
wants_number increment = true
wants_number decrement = true
wants_number _ = false

-- `validate_effect_operation_value`; the numbers are finite.
unfoldable pub validate_effect : StateEffect → Result ShapeError StateEffect
validate_effect e = do
  raise_if (wants_value e.operation && is_null e.value) value_absent
  raise_if (wants_number e.operation && not (is_number e.value)) value_not_number
  ok e

module _ (n : Arithmetic) where
  -- The number that a value is in a comparison.
  abbrev pub numeric : Scalar → Option ℕ
  numeric (truth b) = some (n.of_truth b)
  numeric (number k) = some k
  numeric _ = none

  abbrev same_number : Option ℕ → Option ℕ → Bool
  same_number (some a) (some b) = a == b
  same_number _ _ = false

  -- `==` on scalars.
  unfoldable pub scalar_eq : Scalar → Scalar → Bool
  scalar_eq null null = true
  scalar_eq (text a) (text b) = text_eq a b
  scalar_eq a b = same_number (numeric a) (numeric b)

  unfoldable pub tuple_eq : List Scalar → List Scalar → Bool
  tuple_eq [] [] = true
  tuple_eq [] (y ∷ ys) = false
  tuple_eq (x ∷ xs) [] = false
  tuple_eq (x ∷ xs) (y ∷ ys) = scalar_eq x y && tuple_eq xs ys

  -- `==` on values.
  unfoldable pub value_eq : Value → Value → Bool
  value_eq (scalar a) (scalar b) = scalar_eq a b
  value_eq (tuple xs) (tuple ys) = tuple_eq xs ys
  value_eq _ _ = false

  -- `<`, or `<=` if not `strict`, on strings.
  unfoldable pub text_less : (strict : Bool) → Text → Text → Bool
  text_less strict [] [] = not strict
  text_less strict [] (d ∷ ds) = true
  text_less strict (c ∷ cs) [] = false
  text_less strict (c ∷ cs) (d ∷ ds) =
      let rest = text_less strict cs ds in if c == d then rest else ltb c d

  abbrev number_less : (strict : Bool) → Option ℕ → Option ℕ → Option Bool
  number_less strict (some a) (some b) = some (n.less a b || not strict && a == b)
  number_less strict _ _ = none

  -- `none` where Python raises a `TypeError`.
  unfoldable pub scalar_less : (strict : Bool) → Scalar → Scalar → Option Bool
  scalar_less strict (text a) (text b) = some (text_less strict a b)
  scalar_less strict a b = number_less strict (numeric a) (numeric b)

  -- Tuples are ordered by their first difference.
  unfoldable pub tuple_less : (strict : Bool) → List Scalar → List Scalar → Option Bool
  tuple_less strict [] [] = some (not strict)
  tuple_less strict [] (y ∷ ys) = some true
  tuple_less strict (x ∷ xs) [] = some false
  tuple_less strict (x ∷ xs) (y ∷ ys) =
      let rest = tuple_less strict xs ys in if scalar_eq x y then rest else scalar_less strict x y

  unfoldable pub value_less : (strict : Bool) → Value → Value → Option Bool
  value_less strict (scalar a) (scalar b) = scalar_less strict a b
  value_less strict (tuple xs) (tuple ys) = tuple_less strict xs ys
  value_less strict _ _ = none

  unfoldable pub starts_with : Text → Text → Bool
  starts_with [] cs = true
  starts_with (d ∷ ds) [] = false
  starts_with (d ∷ ds) (c ∷ cs) = c == d && starts_with ds cs

  unfoldable pub occurs_in : Text → Text → Bool
  occurs_in needle [] = starts_with needle []
  occurs_in needle (c ∷ cs) = starts_with needle (c ∷ cs) || occurs_in needle cs

  -- `right in left`.
  unfoldable pub value_in : Value → Value → Option Bool
  value_in (scalar (text needle)) (scalar (text hay)) = some (occurs_in needle hay)
  value_in (scalar x) (tuple xs) = some (any (scalar_eq x) xs)
  value_in (tuple x) (tuple xs) = some false
  value_in _ _ = none
