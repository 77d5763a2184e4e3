-- ===== src/Policy/Actions.antt =====
-- The helpers of packages/policy/src/stateweaver/policy/evaluator.py: results, identities, selectors, risks
-- and capacity.
use stateweaver.Common.{
  ℕ, suc, ◌+◌, ◌*◌, Bool, true, false, not, ◌&&◌, ◌||◌, Option, none, some, List, [], ◌∷◌, ◌==◌,
  ltb, any, is_empty, contains, if◌then◌else◌,
}
use stateweaver.Common.{Text, text_eq}
use stateweaver.Policy.Paths.{path_matches}
use stateweaver.Contracts.Scope.{
  RiskClass, passive, read_only, reversible_state_change, elevated_reversible, HttpMethod, get,
  head, options, TargetSelector, Decimal,
}
use stateweaver.Contracts.Actions.{
  ActionTarget, Action, http_request_action, browser_navigate, session_rotate,
}
use stateweaver.Policy.Models.{
  PolicyReasonCode, PolicyConstraint, passed, failed, not_applicable, ConstraintResult,
  BudgetSnapshot,
}

-- `_passed`, `_failed` and `_not_applicable`.
abbrev pub pass : PolicyConstraint → ConstraintResult
pass c = record { constraint = c; status = passed; reason_code = none }

abbrev pub fail : PolicyConstraint → PolicyReasonCode → ConstraintResult
fail c code = record { constraint = c; status = failed; reason_code = some code }

abbrev pub skip : PolicyConstraint → ConstraintResult
skip c = record { constraint = c; status = not_applicable; reason_code = none }

-- `removeprefix`.
unfoldable pub after_prefix : Text → Text → Option Text
after_prefix [] text = some text
after_prefix (c ∷ cs) [] = none
after_prefix (c ∷ cs) (d ∷ ds) = let rest = after_prefix cs ds in if c == d then rest else none

abbrev pub identity_prefix : Text
identity_prefix = 105 ∷ 100 ∷ 101 ∷ 110 ∷ 116 ∷ 105 ∷ 116 ∷ 121 ∷ 58 ∷ []

unfoldable pub short_name : Text → Text
unfolding after_prefix
short_name text = elim (after_prefix identity_prefix text) [ none ↦ text | some rest ↦ rest ]

-- `_identity_is_allowed`.
unfoldable pub identity_is_allowed : Text → List Text → Bool
unfolding text_eq
identity_is_allowed text names = any (text_eq text) names || any (text_eq (short_name text)) names

-- `_selector_matches`.
unfoldable pub selector_matches : TargetSelector → ActionTarget → Bool
selector_matches s t =
    if elim s.host [ none ↦ false | some h ↦ not (h == t.host) ]
    then false
    else if not (is_empty s.ports) && not (contains s.ports t.port)
    then false
    else (is_empty s.paths || any (λ pattern. path_matches pattern t.path) s.paths)

-- `method in _SAFE_HTTP_METHODS`.
abbrev pub is_safe : Option HttpMethod → Bool
is_safe (some get) = true
is_safe (some head) = true
is_safe (some options) = true
is_safe _ = false

-- `_is_write_action`.
unfoldable pub is_write_action : Action → Bool
is_write_action (http_request_action m _ _ _) = not (is_safe m)
is_write_action (browser_navigate _ _) = false
is_write_action _ = true

-- `_minimum_risk_rank`: of these actions each has one.
unfoldable pub minimum_risk_rank : Action → Option ℕ
minimum_risk_rank (http_request_action m _ _ _) = some (if is_safe m then 0 else 2)
minimum_risk_rank (browser_navigate _ _) = some 0
minimum_risk_rank _ = some 2

-- `_RISK_RANK`.
unfoldable pub risk_rank : RiskClass → ℕ
risk_rank passive = 0
risk_rank read_only = 1
risk_rank reversible_state_change = 2
risk_rank elevated_reversible = 3

-- `getattr(action, "identity_handle", _NO_FIELD)`: the outer option is the field.
unfoldable pub identity_handle : Action → Option (Option Text)
identity_handle (http_request_action _ _ i _) = some i
identity_handle (browser_navigate _ i) = some i
identity_handle (session_rotate i) = some (some i)
identity_handle _ = none

-- `getattr(action, "target", _NO_FIELD)`.
unfoldable pub target_of : Action → Option (Option ActionTarget)
target_of (http_request_action _ t _ _) = some t
target_of (browser_navigate t _) = some (some t)
target_of _ = none

unfoldable pub ten_to : ℕ → ℕ
ten_to Prim.Native.Nat.zero = 1
ten_to (suc n) = 10 * ten_to n

-- `projected > capacity`, with both sides brought to whole numbers.
unfoldable pub over_capacity : Decimal → BudgetSnapshot → Bool
over_capacity rate b =
    ltb (rate.digits * b.request_window_seconds.digits)
      ((b.requests_in_window + 1) * ten_to (rate.places + b.request_window_seconds.places))
