-- ===== src/Policy/Outcomes.antt =====
-- When a request is allowed.
use stateweaver.Common.{
  ℕ, ◌≡◌, refl, sym, ap, ◌∙◌, ◌↔◌, inl, inr, true, Option, some, List, [], ◌∷◌, arith, is_empty,
  Option-cases,
}
use stateweaver.Contracts.Scope.{ScopeManifest}
use stateweaver.Contracts.Actions.{ActionEnvelope}
use stateweaver.Policy.Models.{
  allow, PolicyReasonCode, ConstraintResult, BudgetSnapshot, PolicyRequest, failed_codes,
}
use stateweaver.Policy.Evaluator.{given_codes, deny_codes, conclude, evaluate}
use stateweaver.Policy.Checks.{check_context, results}
use stateweaver.Policy.Shape.{reported, nothing_failed, reported_same, evaluate_decided}
use stateweaver.Policy.Permission.{Passes, AllPass, IsPermitted, IsPermitted-iff}

-- A request whose whole context is given, and that the policy permits.
abbrev pub IsGranted : PolicyRequest → Type 0
IsGranted q =
    (m : ScopeManifest) × (e : ActionEnvelope) × (b : BudgetSnapshot) × (now : ℕ)
    × (q.scope_manifest ≡ some m)
    × (q.action_envelope ≡ some e)
    × (q.budget ≡ some b)
    × (q.evaluated_at ≡ some now)
    × IsPermitted q m e b now

context-Passes : (q : PolicyRequest) → AllPass (results q) → Passes (check_context q)
unfolding results
context-Passes q p = p.0

failed_codes_iff : (rs : List ConstraintResult) → (is_empty (failed_codes rs) ≡ true) ↔ AllPass rs
unfolding failed_codes
failed_codes_iff [] = (λ _. tt, λ _. refl)
failed_codes_iff (r ∷ rs) = ground (arith, failed_codes_iff rs)

given_none :
    (cs : List (Option PolicyReasonCode)) → is_empty cs ≡ true → is_empty (given_codes cs) ≡ true
unfolding given_codes
given_none [] e = refl
given_none (c ∷ cs) e = absurd (ground arith)

conclude_allows :
    (codes : List PolicyReasonCode) → ((conclude codes).0 ≡ allow) ↔ (is_empty codes ≡ true)
unfolding conclude deny_codes
conclude_allows [] = ground arith
conclude_allows (c ∷ cs) = ground arith

outcome_allows : (q : PolicyRequest) → ((evaluate (some q)).outcome ≡ allow) ↔ AllPass (results q)
outcome_allows q =
    let w = failed_codes_iff (results q) in
    let c = conclude_allows (reported q) in
    (
      λ h. w.0 (
          nothing_failed (reported q) (failed_codes (results q))
            (c.0 (sym (ap (λ d. d.outcome) (evaluate_decided q)) ∙ h)) (reported_same q)),
      λ p.
          ap (λ d. d.outcome) (evaluate_decided q)
          ∙ c.1 (given_none (failed_codes (results q)) (w.1 p)),
    )

-- A request is allowed just if manifest, action, budget and time are given and are permitted: the time is
-- in the validity, the action is listed and approved where it must be, identity and target are allowed and
-- not excluded, and rate, writes, timeout and risk are within their limits.
pub evaluate_allows : (q : PolicyRequest) → ((evaluate (some q)).outcome ≡ allow) ↔ IsGranted q
unfolding check_context
evaluate_allows q = (
  λ h. granted ((outcome_allows q).0 h),
  λ (m, e, b, now, f, g, i, j, p). (outcome_allows q).1 ((IsPermitted-iff q m e b now f g i j).1 p),
)
  where
    granted : AllPass (results q) → IsGranted q
    granted p =
        let c = context-Passes q p in
        elim (Option-cases q.scope_manifest) [
          | inl f ↦ absurd (ground arith)
          | inr (m, f) ↦ elim (Option-cases q.action_envelope) [
            | inl g ↦ absurd (ground arith)
            | inr (e, g) ↦ elim (Option-cases q.budget) [
              | inl i ↦ absurd (ground arith)
              | inr (b, i) ↦ elim (Option-cases q.evaluated_at) [
                | inl j ↦ absurd (ground arith)
                | inr (now, j) ↦
                    (m, e, b, now, f, g, i, j, (IsPermitted-iff q m e b now f g i j).0 p)
              ]
            ]
          ]
        ]
