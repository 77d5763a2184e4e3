-- ===== src/Policy/Shape.antt =====
-- The decision of `_evaluate_typed` has the shape that `PolicyDecision` demands.
use stateweaver.Common.{
  ◌≡◌, refl, inl, inr, true, false, Option, some, List, [], ◌∷◌, ok, arith, is_empty, Bool-cases,
}
use stateweaver.Policy.Models.{
  PolicyReasonCode, approval_missing, PolicyRequest, PolicyDecision, is_just, codes_unique,
  failed_codes, same_codes, validate_decision,
}
use stateweaver.Policy.Evaluator.{deny_codes, conclude, evaluate_typed, evaluate}
use stateweaver.Policy.Checks.{results}
use stateweaver.Policy.Ownership.{codes_of, codes_of_unique, codes_of-same, results-AreOwned}

denied_given :
    (codes : List PolicyReasonCode) → is_empty (deny_codes codes) ≡ false → is_empty codes ≡ false
unfolding deny_codes
denied_given [] e = e
denied_given (c ∷ cs) e = refl

-- With no codes no constraint has failed.
pub nothing_failed :
    (codes : List PolicyReasonCode) (cs : List (Option PolicyReasonCode))
    → is_empty codes ≡ true
    → same_codes codes cs ≡ true
    → is_empty cs ≡ true
unfolding same_codes
nothing_failed [] [] e f = refl
nothing_failed [] (d ∷ ds) e f = absurd (ground arith)
nothing_failed (c ∷ cs) ds e f = absurd (ground arith)

module _ (q : PolicyRequest) where
  abbrev pub reported : List PolicyReasonCode
  reported = codes_of (results q)

  pub reported_same : same_codes reported (failed_codes (results q)) ≡ true
  reported_same = codes_of-same 1 (results q) (results-AreOwned q)

  -- The decision as it is before its check.
  abbrev pub decided : PolicyDecision
  decided = record {
    outcome = (conclude reported).0;
    reason_codes = (conclude reported).1;
    constraints = results q;
  }

  decided_valid : validate_decision decided ≡ ok decided
  unfolding validate_decision conclude codes_unique
  decided_valid = elim (Bool-cases (is_empty (deny_codes reported))) [
    | inr e ↦ ground (
      arith,
      denied_given reported e,
      codes_of_unique 1 (results q) (results-AreOwned q),
      codes_of-same 1 (results q) (results-AreOwned q),
    )
    | inl e ↦ elim (Bool-cases (is_just approval_missing reported)) [
      | inl f ↦ ground (
        arith,
        codes_of_unique 1 (results q) (results-AreOwned q),
        codes_of-same 1 (results q) (results-AreOwned q),
      )
      | inr f ↦ elim (Bool-cases (is_empty reported)) [
        | inl g ↦ ground (
          arith,
          nothing_failed reported (failed_codes (results q)) g
              (codes_of-same 1 (results q) (results-AreOwned q)),
        )
        | inr g ↦ ground (
          arith,
          codes_of_unique 1 (results q) (results-AreOwned q),
          codes_of-same 1 (results q) (results-AreOwned q),
        )
      ]
    ]
  ]

  -- `_evaluate_typed` returns the decision that it has put together: the check of `PolicyDecision` never
  -- refuses it.
  pub evaluate_typed_total : evaluate_typed q ≡ ok decided
  unfolding evaluate_typed
  evaluate_typed_total = decided_valid

  pub evaluate_decided : evaluate (some q) ≡ decided
  unfolding evaluate
  evaluate_decided = ground (arith, evaluate_typed_total)
