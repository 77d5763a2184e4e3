-- ===== src/Policy/Permission.antt =====
-- What the policy asks of a request whose context is given, constraint by constraint.
use stateweaver.Common.{
  ℕ, ◌+◌, ◌*◌, ◌≤◌, ◌≡◌, ◌↔◌, ◌⊎◌, inl, inr, true, false, Option, none, some, List, [], ◌∷◌, arith,
  is_some, any, Option-cases,
}
use stateweaver.Common.{Text}
use stateweaver.Contracts.Scope.{
  ScopeManifest, RiskClass, allowed, approval_required, requirement_for,
}
use stateweaver.Contracts.Actions.{ActionTarget, ActionEnvelope}
use stateweaver.Policy.Models.{ConstraintResult, BudgetSnapshot, PolicyRequest, is_failed, has_risk}
use stateweaver.Policy.Checks.{
  check_context, check_validity, requirement, check_authorization, check_approval, check_identity,
  check_target, check_requests, check_writes, check_timeout, check_risk, results,
}
use stateweaver.Policy.Actions.{
  identity_is_allowed, selector_matches, is_write_action, minimum_risk_rank, risk_rank,
  identity_handle, target_of, ten_to, over_capacity,
}

abbrev pub Passes : ConstraintResult → Type 0
Passes r = is_failed r.status ≡ false

abbrev pub AllPass : List ConstraintResult → Type 0
AllPass [] = Unit {0}
AllPass (r ∷ rs) = Passes r × AllPass rs

-- The scope has begun.
abbrev pub Started : Option ℕ → ℕ → Type 0
Started none now = Unit {0}
Started (some start) now = start ≤ now

-- An action with an identity names one that the scope allows.
abbrev pub Named : ScopeManifest → Option (Option Text) → Type 0
Named m none = Unit {0}
Named m (some none) = ⊥
Named m (some (some t)) = identity_is_allowed t m.identities ≡ true

-- An action with a target names one that the scope includes and does not exclude.
abbrev pub Placed : ScopeManifest → Option (Option ActionTarget) → Type 0
Placed m none = Unit {0}
Placed m (some none) = ⊥
Placed m (some (some t)) =
    (any (λ s. selector_matches s t) m.exclude ≡ false)
    × (any (λ s. selector_matches s t) m.include ≡ true)

-- The declared risk is at least that of the action.
abbrev pub Ranked : Option ℕ → RiskClass → Type 0
Ranked none r = ⊥
Ranked (some least) r = least ≤ risk_rank r

-- What the policy asks of a request, constraint by constraint.
pub record IsPermitted (q : PolicyRequest) (m : ScopeManifest) (e : ActionEnvelope)
    (b : BudgetSnapshot) (now : ℕ) : Type 0 where
  started : Started m.validity.not_before now
  unexpired : now ≤ m.validity.expires_at
  listed :
      (requirement_for m.actions e.scope_action ≡ allowed)
      ⊎ (requirement_for m.actions e.scope_action ≡ approval_required)
  approved :
      (is_some e.approval_ref ≡ true)
      ⊎ ((requirement_for m.actions e.scope_action ≡ allowed)
          × (has_risk e.risk_class q.constraints.approval_required_risk_classes ≡ false))
  named : Named m (identity_handle e.action)
  placed : Placed m (target_of e.action)
  within_rate :
      (b.requests_in_window + 1)
        * ten_to (m.limits.requests_per_second.places + b.request_window_seconds.places)
      ≤ m.limits.requests_per_second.digits * b.request_window_seconds.digits
  within_writes :
      is_write_action e.action ≡ true → b.write_requests_used + 1 ≤ m.limits.max_write_requests
  in_time : e.timeout_ms ≤ q.constraints.max_timeout_ms
  risk_allowed : has_risk e.risk_class q.constraints.allowed_risk_classes ≡ true
  risk_declared : Ranked (minimum_risk_rank e.action) e.risk_class

module _ (q : PolicyRequest) (m : ScopeManifest) (e : ActionEnvelope) (b : BudgetSnapshot) (now : ℕ)
    (has_m : q.scope_manifest ≡ some m) (has_e : q.action_envelope ≡ some e)
    (has_b : q.budget ≡ some b) (has_now : q.evaluated_at ≡ some now) where
  validity-Passes :
      Passes (check_validity q)
      ↔ (Started m.validity.not_before now × (now ≤ m.validity.expires_at))
  unfolding check_validity
  validity-Passes = ground arith

  authorization-Passes : Passes (check_authorization q) ↔ (
      (requirement_for m.actions e.scope_action ≡ allowed)
      ⊎ (requirement_for m.actions e.scope_action ≡ approval_required))
  unfolding check_authorization requirement
  authorization-Passes = ground arith

  approval-Passes :
      ((requirement_for m.actions e.scope_action ≡ allowed)
        ⊎ (requirement_for m.actions e.scope_action ≡ approval_required))
      → Passes (check_approval q) ↔ (
          (is_some e.approval_ref ≡ true)
          ⊎ ((requirement_for m.actions e.scope_action ≡ allowed)
              × (has_risk e.risk_class q.constraints.approval_required_risk_classes ≡ false)))
  unfolding check_approval requirement
  approval-Passes l = ground arith

  identity-Passes : Passes (check_identity q) ↔ Named m (identity_handle e.action)
  unfolding check_identity
  identity-Passes = elim (Option-cases (identity_handle e.action)) [
    | inl f ↦ ground arith
    | inr (none, f) ↦ ground arith
    | inr (some t, f) ↦ ground arith
  ]

  target-Passes : Passes (check_target q) ↔ Placed m (target_of e.action)
  unfolding check_target
  target-Passes = elim (Option-cases (target_of e.action)) [
    | inl f ↦ ground arith
    | inr (none, f) ↦ ground arith
    | inr (some t, f) ↦ ground arith
  ]

  requests-Passes : Passes (check_requests q) ↔ (
      (b.requests_in_window + 1)
        * ten_to (m.limits.requests_per_second.places + b.request_window_seconds.places)
      ≤ m.limits.requests_per_second.digits * b.request_window_seconds.digits)
  unfolding check_requests over_capacity
  requests-Passes = ground arith

  writes-Passes :
      Passes (check_writes q)
      ↔ (is_write_action e.action ≡ true → b.write_requests_used + 1 ≤ m.limits.max_write_requests)
  unfolding check_writes
  writes-Passes = ground arith

  timeout-Passes : Passes (check_timeout q) ↔ (e.timeout_ms ≤ q.constraints.max_timeout_ms)
  unfolding check_timeout
  timeout-Passes = ground arith

  risk-Passes : Passes (check_risk q) ↔ (
      (has_risk e.risk_class q.constraints.allowed_risk_classes ≡ true)
      × Ranked (minimum_risk_rank e.action) e.risk_class)
  unfolding check_risk
  risk-Passes = ground arith

  -- With the whole context, a request meets the ten constraints just if it is permitted.
  pub IsPermitted-iff : AllPass (results q) ↔ IsPermitted q m e b now
  unfolding results check_context
  IsPermitted-iff = (
    λ (c, (v, (a, (p, (i, (t, (r, (w, (o, (k, _)))))))))).
        let l = authorization-Passes.0 a in
        record {
          started = (validity-Passes.0 v).0;
          unexpired = (validity-Passes.0 v).1;
          listed = l;
          approved = (approval-Passes l).0 p;
          named = identity-Passes.0 i;
          placed = target-Passes.0 t;
          within_rate = requests-Passes.0 r;
          within_writes = writes-Passes.0 w;
          in_time = timeout-Passes.0 o;
          risk_allowed = (risk-Passes.0 k).0;
          risk_declared = (risk-Passes.0 k).1;
        },
    λ g. (
      ground arith,
      (
        validity-Passes.1 (g.started, g.unexpired),
        (
          authorization-Passes.1 g.listed,
          (
            (approval-Passes g.listed).1 g.approved,
            (
              identity-Passes.1 g.named,
              (
                target-Passes.1 g.placed,
                (
                  requests-Passes.1 g.within_rate,
                  (
                    writes-Passes.1 g.within_writes,
                    (
                      timeout-Passes.1 g.in_time,
                      (risk-Passes.1 (g.risk_allowed, g.risk_declared), tt),
                    ),
                  ),
                ),
              ),
            ),
          ),
        ),
      ),
    ),
  )
