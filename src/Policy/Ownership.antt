-- ===== src/Policy/Ownership.antt =====
-- Each constraint reports codes of its own, so no code is reported twice.
use stateweaver.Common.{
  ℕ, suc, ◌<◌, ◌≡◌, refl, ap, inl, inr, Bool, true, false, none, some, List, [], ◌∷◌, arith, ◌==◌,
  if◌then◌else◌, Bool-cases, Option-cases,
}
use stateweaver.Policy.Models.{
  PolicyReasonCode, PolicyReasonCode-discrete, policy_allowed, malformed_request, context_missing,
  scope_not_yet_valid, scope_expired, action_explicitly_denied, action_not_listed, approval_missing,
  identity_missing, identity_not_allowed, target_missing, target_not_included, target_excluded,
  request_budget_exhausted, write_budget_exhausted, timeout_limit_exceeded, risk_class_disallowed,
  risk_underclassified, ConstraintResult, PolicyRequest, is_failed, is_code, has_code, codes_unique,
  failed_codes, same_codes,
}
use stateweaver.Policy.Evaluator.{given_codes}
use stateweaver.Policy.Checks.{
  check_context, check_validity, check_authorization, check_approval, check_identity, check_target,
  check_requests, check_writes, check_timeout, check_risk, results,
}

-- The place in the list of the constraint that reports a code.
unfoldable pub position : PolicyReasonCode → ℕ
position context_missing = 1
position scope_not_yet_valid = 2
position scope_expired = 2
position action_explicitly_denied = 3
position action_not_listed = 3
position approval_missing = 4
position identity_missing = 5
position identity_not_allowed = 5
position target_missing = 6
position target_not_included = 6
position target_excluded = 6
position request_budget_exhausted = 7
position write_budget_exhausted = 8
position timeout_limit_exceeded = 9
position risk_class_disallowed = 10
position risk_underclassified = 10
position policy_allowed = 0
position malformed_request = 0

-- The constraint does not fail, or it gives a code of its own.
abbrev pub owns : ℕ → ConstraintResult → Bool
owns k r =
    if is_failed r.status
    then elim r.reason_code [ none ↦ false | some c ↦ position c == k ]
    else true

abbrev pub IsOwned : ℕ → ConstraintResult → Type 0
IsOwned k r = owns k r ≡ true

abbrev pub AreOwned : ℕ → List ConstraintResult → Type 0
AreOwned k [] = Unit
AreOwned k (r ∷ rs) = IsOwned k r × AreOwned (suc k) rs

abbrev pub codes_of : List ConstraintResult → List PolicyReasonCode
codes_of rs = given_codes (failed_codes rs)

pub is_code_sound : (a b : PolicyReasonCode) → is_code a b ≡ true → a ≡ b
is_code_sound a b e = elim (PolicyReasonCode-discrete a b) [
  | yes f ↦ f
  | no n ↦ absurd (ground arith)
]

apart : (a b : PolicyReasonCode) → position b < position a → is_code a b ≡ false
apart a b h = elim (Bool-cases (is_code a b)) [
  | inr e ↦ e
  | inl e ↦ absurd (ground (arith, ap position (is_code_sound a b e)))
]

-- A code of an earlier place is not reported later.
pub earlier_absent :
    (c : PolicyReasonCode) (k : ℕ) (rs : List ConstraintResult)
    → AreOwned k rs
    → position c < k
    → has_code c (codes_of rs) ≡ false
unfolding failed_codes given_codes
earlier_absent c k [] own b = refl
earlier_absent c k (r ∷ rs) (e, own) b = elim (Option-cases r.reason_code) [
  | inl f ↦ ground (arith, earlier_absent c (suc k) rs own)
  | inr (d, f) ↦ ground (arith, earlier_absent c (suc k) rs own, apart d c)
]

pub codes_of_unique :
    (k : ℕ) (rs : List ConstraintResult) → AreOwned k rs → codes_unique (codes_of rs) ≡ true
unfolding failed_codes given_codes codes_unique
codes_of_unique k [] own = refl
codes_of_unique k (r ∷ rs) (e, own) = elim (Option-cases r.reason_code) [
  | inl f ↦ ground (arith, codes_of_unique (suc k) rs own)
  | inr (d, f) ↦ ground (arith, codes_of_unique (suc k) rs own, earlier_absent d (suc k) rs own)
]

pub codes_of-same :
    (k : ℕ) (rs : List ConstraintResult)
    → AreOwned k rs
    → same_codes (codes_of rs) (failed_codes rs) ≡ true
unfolding failed_codes given_codes same_codes
codes_of-same k [] own = refl
codes_of-same k (r ∷ rs) (e, own) = ground (arith, codes_of-same (suc k) rs own)

module _ (q : PolicyRequest) where
  context-IsOwned : IsOwned 1 (check_context q)
  unfolding check_context position
  context-IsOwned = ground arith

  validity-IsOwned : IsOwned 2 (check_validity q)
  unfolding check_validity position
  validity-IsOwned = ground arith

  authorization-IsOwned : IsOwned 3 (check_authorization q)
  unfolding check_authorization position
  authorization-IsOwned = ground arith

  approval-IsOwned : IsOwned 4 (check_approval q)
  unfolding check_approval position
  approval-IsOwned = ground arith

  identity-IsOwned : IsOwned 5 (check_identity q)
  unfolding check_identity position
  identity-IsOwned = ground arith

  target-IsOwned : IsOwned 6 (check_target q)
  unfolding check_target position
  target-IsOwned = ground arith

  requests-IsOwned : IsOwned 7 (check_requests q)
  unfolding check_requests position
  requests-IsOwned = ground arith

  writes-IsOwned : IsOwned 8 (check_writes q)
  unfolding check_writes position
  writes-IsOwned = ground arith

  timeout-IsOwned : IsOwned 9 (check_timeout q)
  unfolding check_timeout position
  timeout-IsOwned = ground arith

  risk-IsOwned : IsOwned 10 (check_risk q)
  unfolding check_risk position
  risk-IsOwned = ground arith

  pub results-AreOwned : AreOwned 1 (results q)
  unfolding results
  results-AreOwned = (
    context-IsOwned,
    (
      validity-IsOwned,
      (
        authorization-IsOwned,
        (
          approval-IsOwned,
          (
            identity-IsOwned,
            (
              target-IsOwned,
              (requests-IsOwned, (writes-IsOwned, (timeout-IsOwned, (risk-IsOwned, tt)))),
            ),
          ),
        ),
      ),
    ),
  )
