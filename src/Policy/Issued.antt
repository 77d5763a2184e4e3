-- ===== src/Policy/Issued.antt =====
-- What an authorization that is verified says of the request it was issued for.
use stateweaver.Common.{
  ℕ, ◌≡◌, ◌≤◌, refl, sym, ap, subst, ◌∙◌, ◌↔◌, inl, inr, true, Option, none, some, ok, arith, same,
  Bool-cases, Option-cases, Result-cases,
}
use stateweaver.Contracts.Scope.{ScopeManifest, http_request}
use stateweaver.Contracts.Actions.{
  Action, ActionEnvelope, action_scope, http_request_action, browser_navigate, browser_click,
  browser_fill, queue_reorder_action, queue_release, time_advance, time_set, session_rotate,
}
use stateweaver.Policy.Models.{
  PolicyRequest, PolicyDecision, BudgetSnapshot, PolicyOutcome, allow, is_allow,
}
use stateweaver.Policy.Actions.{is_write_action}
use stateweaver.Policy.Evaluator.{evaluate}
use stateweaver.Policy.Outcomes.{IsGranted, evaluate_allows}
use stateweaver.Policy.Authorization.{
  PolicyAuthorization, PolicyDigests, ActionEnvelope-discrete, PolicyDecision-discrete,
  issued_write, issue_context, is_request_for, is_time, is_bound, issued, validate_authorization,
  bind, require_allows, verify_policy_authorization,
}

same_sound {ℓ} : {A : Type ℓ} (d : Discrete A) (a b : A) → same d a b ≡ true → a ≡ b
same_sound d a b e = elim (d a b) [ yes p ↦ p | no n ↦ absurd (ground arith) ]

same_refl {ℓ} : {A : Type ℓ} (d : Discrete A) (a : A) → same d a a ≡ true
same_refl d a = elim (d a a) [ yes p ↦ ground arith | no n ↦ absurd (n refl) ]

is_allow_sound : (o : PolicyOutcome) → is_allow o ≡ true → o ≡ allow
is_allow_sound o e = ground arith

-- What was verified: the request is for this action and is granted, nothing has been spent since, and the time lies between the evaluation and the end of the
-- scope.
pub record IsAuthorized (q : PolicyRequest) (e : ActionEnvelope) (now requests writes : ℕ)
    : Type 0 where
  pub manifest : ScopeManifest
  pub budget : BudgetSnapshot
  pub evaluated : ℕ
  pub context : issue_context q ≡ some (manifest, budget, evaluated)
  pub for_action : q.action_envelope ≡ some e
  pub granted : IsGranted q
  pub requests_unspent : requests ≡ budget.requests_in_window
  pub writes_unspent : writes ≡ budget.write_requests_used
  pub not_early : evaluated ≤ now
  pub not_late : now ≤ manifest.validity.expires_at

module _ (h : PolicyDigests) (a : PolicyAuthorization) (e : ActionEnvelope)
    (now requests writes : ℕ) (q : PolicyRequest) where
  verify_inv :
      (b : PolicyAuthorization)
      → verify_policy_authorization h a e now requests writes (some q) ≡ ok b
      → (is_bound h a e q ≡ true) × (require_allows h a e now requests writes ≡ ok tt)
  unfolding verify_policy_authorization
  verify_inv b v = elim (Bool-cases (is_bound h a e q)) [
    | inl f ↦ elim (Result-cases (require_allows h a e now requests writes)) [
      | inl (x, g) ↦ absurd (ground arith)
      | inr (_, g) ↦ (f, g)
    ]
    | inr f ↦ absurd (ground arith)
  ]

  require_allows_inv :
      require_allows h a e now requests writes ≡ ok tt
      → (is_allow a.decision.outcome ≡ true)
        × (a.evaluated_at ≤ now)
        × (now ≤ a.expires_at)
        × (a.requests_before ≡ requests)
        × (a.write_requests_before ≡ writes)
  unfolding require_allows
  require_allows_inv g = ground arith

  request_for : is_request_for q e ≡ true → q.action_envelope ≡ some e
  request_for f = elim (Option-cases q.action_envelope) [
    | inl g ↦ absurd (ground arith)
    | inr (e', g) ↦ g ∙ ap some (same_sound ActionEnvelope-discrete e' e (ground arith))
  ]

  -- If an authorization is verified with its request retained, then the request is for the action and is granted, the counters
  -- are those it was evaluated with, and the time is between the evaluation and the end of the scope.
  pub verify-IsAuthorized :
      (b : PolicyAuthorization)
      → verify_policy_authorization h a e now requests writes (some q) ≡ ok b
      → IsAuthorized q e now requests writes
  verify-IsAuthorized b v =
      let (f, g) = verify_inv b v in
      let (allows, early, late, spent, written) = require_allows_inv g in
      elim (Option-cases (issue_context q)) [
        | inl c ↦ absurd (ground arith)
        | inr ((m, s, t), c) ↦
            let same_decision =
              same_sound PolicyDecision-discrete a.decision (evaluate (some q)) (ground arith) in
            record {
              manifest = m;
              budget = s;
              evaluated = t;
              context = c;
              for_action = request_for (ground arith);
              granted = (evaluate_allows q).0 (
                  ap (λ (d : PolicyDecision). d.outcome) (sym same_decision)
                  ∙ is_allow_sound a.decision.outcome allows);
              requests_unspent = ground arith;
              writes_unspent = ground arith;
              not_early = ground arith;
              not_late = ground arith;
            }
      ]

bind_inv :
    (h : PolicyDigests) (a : PolicyAuthorization) (e : ActionEnvelope) (q : PolicyRequest)
    (d : PolicyDecision)
    → bind h e q d ≡ ok a
    → (m : ScopeManifest) × (s : BudgetSnapshot) × (t : ℕ) × (issue_context q ≡ some (m, s, t))
      × (is_request_for q e ≡ true)
      × (evaluate (some q) ≡ d)
      × (a ≡ issued h e q d m s t)
      × (validate_authorization a ≡ ok a)
unfolding bind validate_authorization
bind_inv h a e q d g = elim (Option-cases (issue_context q)) [
  | inl c ↦ absurd (ground arith)
  | inr ((m, s, t), c) ↦ elim (Bool-cases (same PolicyDecision-discrete (evaluate (some q)) d)) [
    | inl f ↦ (
      m,
      s,
      t,
      c,
      ground arith,
      same_sound PolicyDecision-discrete (evaluate (some q)) d f,
      ground arith,
      ground arith,
    )
    | inr f ↦ absurd (ground arith)
  ]
]

is_time_refl : (t : Option ℕ) → is_time t t ≡ true
is_time_refl none = refl
is_time_refl (some t) = ground arith

module _ (h : PolicyDigests) (e : ActionEnvelope) (q : PolicyRequest) (m : ScopeManifest)
    (s : BudgetSnapshot) (t now : ℕ) where
  abbrev grant : PolicyAuthorization
  grant = issued h e q (evaluate (some q)) m s t

  grant_bound :
      issue_context q ≡ some (m, s, t) → is_request_for q e ≡ true → is_bound h grant e q ≡ true
  grant_bound c f = ground (
    arith,
    is_time_refl m.validity.not_before,
    same_refl PolicyDecision-discrete (evaluate (some q)),
  )

  grant_allows :
      (evaluate (some q)).outcome ≡ allow
      → t ≤ now
      → now ≤ m.validity.expires_at
      → validate_authorization grant ≡ ok grant
      → require_allows h grant e now s.requests_in_window s.write_requests_used ≡ ok tt
  unfolding require_allows validate_authorization
  grant_allows al early late v = elim (Option-cases m.validity.not_before) [
    | inl n ↦ ground arith
    | inr (start, n) ↦ ground arith
  ]

  grant_verifies :
      issue_context q ≡ some (m, s, t)
      → is_request_for q e ≡ true
      → (evaluate (some q)).outcome ≡ allow
      → t ≤ now
      → now ≤ m.validity.expires_at
      → validate_authorization grant ≡ ok grant
      → verify_policy_authorization h grant e now s.requests_in_window s.write_requests_used
          (some q)
        ≡ ok grant
  unfolding verify_policy_authorization
  grant_verifies c f al early late v = rw (grant_bound c f) (rw (grant_allows al early late v) refl)

-- An authorization that was issued for an allowed decision is verified at every time from the evaluation to the end of
-- the scope, while the counters are as they were.
pub bind-verify :
    (h : PolicyDigests) (a : PolicyAuthorization) (e : ActionEnvelope) (q : PolicyRequest)
    (d : PolicyDecision) (now : ℕ)
    → bind h e q d ≡ ok a
    → d.outcome ≡ allow
    → a.evaluated_at ≤ now
    → now ≤ a.expires_at
    → verify_policy_authorization h a e now a.requests_before a.write_requests_before (some q)
      ≡ ok a
bind-verify h a e q d now g al early late =
    let (m, s, t, c, f, evaluated, made, valid) = bind_inv h a e q d g in
    let whole : a ≡ issued h e q (evaluate (some q)) m s t =
      made ∙ ap (λ x. issued h e q x m s t) (sym evaluated) in
    subst
      (λ x.
        verify_policy_authorization h x e now x.requests_before x.write_requests_before (some q)
        ≡ ok x)
      (sym whole)
      (grant_verifies h e q m s t now c f (ap (λ (x : PolicyDecision). x.outcome) evaluated ∙ al)
        (omega (arith, ap (λ (x : PolicyAuthorization). x.evaluated_at) whole))
        (omega (arith, ap (λ (x : PolicyAuthorization). x.expires_at) whole))
        (subst (λ x. validate_authorization x ≡ ok x) whole valid))

-- An authorization counts an action as a write just if the evaluator does and the action is an HTTP request.
pub issued_write_iff :
    (x : Action)
    → (issued_write x ≡ true) ↔ ((is_write_action x ≡ true) × (action_scope x ≡ http_request))
unfolding issued_write is_write_action action_scope
issued_write_iff (http_request_action m t i b) = ground arith
issued_write_iff (browser_navigate t i) = ground arith
issued_write_iff browser_click = ground arith
issued_write_iff (browser_fill v) = ground arith
issued_write_iff queue_reorder_action = ground arith
issued_write_iff queue_release = ground arith
issued_write_iff (time_advance m) = ground arith
issued_write_iff time_set = ground arith
issued_write_iff (session_rotate i) = ground arith
