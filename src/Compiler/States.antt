-- ===== src/Compiler/States.antt =====
-- The states that the compiler simulates: `_condition_matches`, `_apply_effects`, `_effect_supports` and
-- `_state_from_conditions` of packages/compiler/src/stateweaver/compiler/compiler.py.
use stateweaver.Common.{
  ℕ, Bool, true, false, not, ◌&&◌, ◌||◌, Option, none, some, List, [], ◌∷◌, ◌++◌, Result, ok, err,
  raise_if, ◌>>=◌, ◌>>◌, ◌==◌, all, is_some, if◌then◌else◌,
}
use stateweaver.Common.Dict.{Dict, lookup, insert, erase}
use stateweaver.Contracts.States.{
  Arithmetic, Scalar, null, truth, number, Value, scalar, tuple, ComparisonOperator, eq, ne, lt, le,
  gt, ge, contained, not_contained, exists, not_exists, EffectOperation, set, add, remove,
  increment, decrement, StateCondition, StateEffect, scalar_eq, value_eq, value_less, value_in,
}

abbrev pub State : Type 0
State = Dict Value

pub data CompilationCode : Type 0 where
  no_fragments duplicate_fragment_id goal_unreachable dependency_cycle world_mismatch :
      CompilationCode
  identity_binding_mismatch artifact_binding_mismatch session_identity_conflict : CompilationCode
  unknown_ordering_dependency mutually_exclusive_effect root_state_conflict : CompilationCode
  missing_precondition ordering_blocked time_window_missed invalid_numeric_effect : CompilationCode
  invalid_envelope invalid_chain out_of_rounds : CompilationCode

-- `invalid_envelope` and `invalid_chain` are the errors of the models that `compile` constructs; `out_of_rounds` is
-- the end of the rounds that bound a loop.
pub record CompilationError : Type 0 where
  pub code : CompilationCode
  pub fragment_id : Option ℕ

abbrev pub failing : CompilationCode → CompilationError
failing c = record { code = c; fragment_id = none }

abbrev pub failing_at : CompilationCode → ℕ → CompilationError
failing_at c k = record { code = c; fragment_id = some k }

-- What a comparison that raises a `TypeError` counts as.
abbrev pub holds : Option Bool → Bool
holds (some b) = b
holds none = false

abbrev pub fails : Option Bool → Bool
fails (some b) = not b
fails none = false

-- `state.get(reference)`.
abbrev pub referred : Option Value → Value
referred (some v) = v
referred none = scalar null

module _ (n : Arithmetic) where
  unfoldable pub compares : ComparisonOperator → Value → Value → Bool
  compares eq a b = value_eq n a b
  compares ne a b = not (value_eq n a b)
  compares lt a b = holds (value_less n true a b)
  compares le a b = holds (value_less n false a b)
  compares gt a b = holds (value_less n true b a)
  compares ge a b = holds (value_less n false b a)
  compares contained a b = holds (value_in n b a)
  compares not_contained a b = fails (value_in n b a)
  compares exists a b = true
  compares not_exists a b = false

  -- `right`.
  abbrev pub operand : State → StateCondition → Value
  operand s c = elim c.reference [ none ↦ scalar c.value | some r ↦ referred (lookup r s) ]

  abbrev pub absent_matches : ComparisonOperator → Bool
  absent_matches not_exists = true
  absent_matches _ = false

  -- `_condition_matches`.
  unfoldable pub condition_matches : State → StateCondition → Bool
  condition_matches s c = elim (lookup c.path s) [
    | none ↦ absent_matches c.operator
    | some left ↦ compares c.operator left (operand s c)
  ]

  -- `_all_conditions`.
  unfoldable pub all_conditions : List StateCondition → State → Bool
  all_conditions cs s = all (condition_matches s) cs

  -- `_number`: a Boolean is refused.
  abbrev pub number_of : Value → Result CompilationError ℕ
  number_of (scalar (number k)) = ok k
  number_of _ = err (failing invalid_numeric_effect)

  abbrev pub zero_if_absent : Option Value → Value
  zero_if_absent (some v) = v
  zero_if_absent none = scalar (number 0)

  abbrev pub elements : Option Value → List Scalar
  elements none = []
  elements (some (tuple xs)) = xs
  elements (some (scalar x)) = x ∷ []

  -- One effect.
  unfoldable pub apply_effect : StateEffect → State → Result CompilationError State
  apply_effect e s = elim e.operation [
    | set ↦ ok (insert e.path (scalar e.value) s)
    | add ↦ ok (insert e.path (tuple (elements (lookup e.path s) ++ e.value ∷ [])) s)
    | remove ↦ ok (erase e.path s)
    | increment ↦ (do
      a ← number_of (zero_if_absent (lookup e.path s))
      b ← number_of (scalar e.value)
      ok (insert e.path (scalar (number (n.add a b))) s))
    | decrement ↦ (do
      a ← number_of (zero_if_absent (lookup e.path s))
      b ← number_of (scalar e.value)
      ok (insert e.path (scalar (number (n.subtract a b))) s))
  ]

  -- `_apply_effects`.
  unfoldable pub apply_effects : List StateEffect → State → Result CompilationError State
  apply_effects [] s = ok s
  apply_effects (e ∷ es) s = do s' ← apply_effect e s; apply_effects es s'

  abbrev is_eq : ComparisonOperator → Bool
  is_eq eq = true
  is_eq _ = false

  abbrev is_collected : ComparisonOperator → Bool
  is_collected contained = true
  is_collected exists = true
  is_collected _ = false

  abbrev is_removed : ComparisonOperator → Bool
  is_removed not_exists = true
  is_removed not_contained = true
  is_removed _ = false

  abbrev pub operation_supports : EffectOperation → StateEffect → StateCondition → Bool
  operation_supports set e c = is_eq c.operator && scalar_eq n e.value c.value
  operation_supports add e c = is_collected c.operator
  operation_supports remove e c = is_removed c.operator
  operation_supports _ e c = false

  -- `_effect_supports`.
  unfoldable pub effect_supports : StateEffect → StateCondition → Bool
  effect_supports e c =
      if not (e.path == c.path) || is_some c.reference
      then false
      else operation_supports e.operation e c

  -- `setdefault` with the check that follows it.
  abbrev pub seeded : ℕ → Value → State → Result CompilationError State
  seeded k v s = elim (lookup k s) [
    | none ↦ ok (insert k v s)
    | some w ↦ if value_eq n w v then ok s else err (failing root_state_conflict)
  ]

  abbrev pub defaulted : ℕ → Value → State → State
  defaulted k v s = elim (lookup k s) [ none ↦ insert k v s | some w ↦ s ]

  -- One condition of the root.
  unfoldable pub seed_condition : StateCondition → State → Result CompilationError State
  seed_condition c s = elim c.operator [
    | eq ↦ elim c.reference [ none ↦ seeded c.path (scalar c.value) s | some _ ↦ ok s ]
    | exists ↦ ok (defaulted c.path (scalar (truth true)) s)
    | not_exists ↦ ok (erase c.path s)
    | _ ↦ ok s
  ]

  unfoldable pub seed_conditions : List StateCondition → State → Result CompilationError State
  seed_conditions [] s = ok s
  seed_conditions (c ∷ cs) s = do s' ← seed_condition c s; seed_conditions cs s'

  -- `_state_from_conditions`.
  unfoldable pub state_from_conditions : List StateCondition → Result CompilationError State
  state_from_conditions cs = do
    s ← seed_conditions cs []
    raise_if (not (all_conditions cs s)) (failing root_state_conflict)
    ok s
