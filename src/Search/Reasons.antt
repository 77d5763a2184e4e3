-- ===== src/Search/Reasons.antt =====
-- The reasons that a gate gives: none is given twice, and none names another candidate.
use stateweaver.Common.{
  ◌≡◌, refl, Bool, true, false, ◌||◌, List, [], ◌∷◌, ◌++◌, arith, inl, inr, any, same, Bool-cases,
}
use stateweaver.Search.Budget.{WorldTier}
use stateweaver.Search.Models.{
  BeamSearchPolicy, SearchCandidate, ReasonCode, ReasonCode-discrete, duplicate_state,
  dominated_by_cheaper_world, has_reason, reasons_unique,
}
use stateweaver.Search.Controller.{
  gate_reasons, common_reasons, materialized_reasons, when, without, from_keys,
}

-- A reason that names another candidate.
abbrev pub refers : ReasonCode → Bool
refers r =
    same ReasonCode-discrete r duplicate_state
    || same ReasonCode-discrete r dominated_by_cheaper_world

any-append :
    (f : ReasonCode → Bool) (xs ys : List ReasonCode)
    → any f xs ≡ false
    → any f ys ≡ false
    → any f (xs ++ ys) ≡ false
any-append f [] ys e g = g
any-append f (x ∷ xs) ys e g = ground (arith, any-append f xs ys)

any-when :
    (f : ReasonCode → Bool) (b : Bool) (r : ReasonCode) → f r ≡ false → any f (when b r) ≡ false
any-when f true r e = ground arith
any-when f false r e = refl

any-without :
    (f : ReasonCode → Bool) (r : ReasonCode) (xs : List ReasonCode)
    → any f xs ≡ false
    → any f (without r xs) ≡ false
unfolding without
any-without f r [] e = refl
any-without f r (x ∷ xs) e = ground (arith, any-without f r xs)

any-from_keys :
    (f : ReasonCode → Bool) (xs : List ReasonCode) → any f xs ≡ false → any f (from_keys xs) ≡ false
unfolding from_keys
any-from_keys f [] e = refl
any-from_keys f (x ∷ xs) e = ground (arith, any-from_keys f xs, any-without f x (from_keys xs))

absent-without : (r : ReasonCode) (xs : List ReasonCode) → has_reason r (without r xs) ≡ false
unfolding without
absent-without r [] = refl
absent-without r (x ∷ xs) = elim (Bool-cases (same ReasonCode-discrete x r)) [
  | inl e ↦ ground (arith, absent-without r xs)
  | inr e ↦ ground (arith, absent-without r xs)
]

without_unique :
    (r : ReasonCode) (xs : List ReasonCode)
    → reasons_unique xs ≡ true
    → reasons_unique (without r xs) ≡ true
unfolding without reasons_unique
without_unique r [] e = refl
without_unique r (x ∷ xs) e = elim (Bool-cases (same ReasonCode-discrete x r)) [
  | inl f ↦ ground (arith, without_unique r xs)
  | inr f ↦
      ground (arith, without_unique r xs, any-without (λ y. same ReasonCode-discrete y x) r xs)
]

from_keys_unique : (xs : List ReasonCode) → reasons_unique (from_keys xs) ≡ true
unfolding from_keys reasons_unique
from_keys_unique [] = refl
from_keys_unique (x ∷ xs) =
    ground (
      arith,
      without_unique x (from_keys xs) (from_keys_unique xs),
      absent-without x (from_keys xs),
    )

ruleset refer_rules = (any-append, any-when)

-- No gate's reason names another candidate.
common_refer :
    (p : BeamSearchPolicy) (c : SearchCandidate) → any refers (common_reasons p c) ≡ false
unfolding common_reasons ReasonCode-discrete
common_refer p c = search refer_rules depth 24

materialized_refer : (c : SearchCandidate) → any refers (materialized_reasons c) ≡ false
unfolding materialized_reasons ReasonCode-discrete
materialized_refer c = search refer_rules depth 24

pub gate_reasons_refer :
    (p : BeamSearchPolicy) (c : SearchCandidate) (t : WorldTier)
    → any refers (gate_reasons p c t) ≡ false
unfolding gate_reasons
gate_reasons_refer p c t = any-from_keys refers _ (
    any-append refers (common_reasons p c) _ (common_refer p c)
      (ground (arith, materialized_refer c)))

pub gate_reasons_unique :
    (p : BeamSearchPolicy) (c : SearchCandidate) (t : WorldTier)
    → reasons_unique (gate_reasons p c t) ≡ true
unfolding gate_reasons
gate_reasons_unique p c t = from_keys_unique _
