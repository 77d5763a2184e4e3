-- ===== src/Policy/Authorization.antt =====
-- packages/policy/src/stateweaver/policy/authorization.py: an evaluated decision is bound to its action,
-- request and budget slot, and verified before the action runs. The digests are arguments.
use stateweaver.Common.{
  ℕ, Bool, true, false, not, ◌&&◌, ◌||◌, Option, none, some, Result, ok, err, raise_if, ◌>>◌, ◌==◌,
  ltb, same, ℕ_discrete,
}
use stateweaver.Contracts.Scope.{ScopeManifest}
use stateweaver.Contracts.Actions.{Action, http_request_action, ActionEnvelope}
use stateweaver.Policy.Models.{PolicyRequest, PolicyDecision, BudgetSnapshot, is_allow}
use stateweaver.Policy.Actions.{is_safe}
use stateweaver.Policy.Evaluator.{evaluate}

pub record PolicyAuthorization : Type 0 where
  pub policy_decision_ref : ℕ
  pub action_id : ℕ
  pub idempotency_key : ℕ
  pub envelope_hash : ℕ
  pub policy_request_hash : ℕ
  pub scope_manifest_hash : ℕ
  pub budget_reservation_id : ℕ
  pub evaluated_at : ℕ
  pub not_before : Option ℕ
  pub expires_at : ℕ
  pub requests_before : ℕ
  pub write_requests_before : ℕ
  pub is_write : Bool
  pub decision : PolicyDecision

pub data AuthorizationFailure : Type 0 where
  incomplete_request decision_mismatch before_validity outside_validity : AuthorizationFailure
  binding_invalid denied : AuthorizationFailure

-- `sha256_digest` and `fingerprint`; `slot` is the digest of the budget reservation.
pub record PolicyDigests : Type 0 where
  pub envelope : ActionEnvelope → ℕ
  pub request : PolicyRequest → ℕ
  pub manifest : ScopeManifest → ℕ
  pub slot : ℕ → ℕ → ℕ → ℕ → ℕ

unfoldable pub ActionEnvelope-discrete : Discrete ActionEnvelope
ActionEnvelope-discrete = hlevel ℕ_discrete

unfoldable pub PolicyDecision-discrete : Discrete PolicyDecision
PolicyDecision-discrete = hlevel ℕ_discrete

-- `is_write` of an issued authorization.
unfoldable pub issued_write : Action → Bool
issued_write (http_request_action m _ _ _) = not (is_safe m)
issued_write _ = false

-- `self != other` where the other may be missing.
abbrev pub is_time : Option ℕ → Option ℕ → Bool
is_time none none = true
is_time (some a) (some b) = a == b
is_time _ _ = false

-- The context that an authorization is issued from.
abbrev pub issue_context : PolicyRequest → Option (ScopeManifest × BudgetSnapshot × ℕ)
issue_context q = elim q.scope_manifest [
  | none ↦ none
  | some m ↦ elim q.budget [
    | none ↦ none
    | some b ↦ elim q.evaluated_at [ none ↦ none | some now ↦ some (m, b, now) ]
  ]
]

-- `request.action_envelope == envelope`.
abbrev pub is_request_for : PolicyRequest → ActionEnvelope → Bool
is_request_for q e = elim q.action_envelope [
  | none ↦ false
  | some e' ↦ same ActionEnvelope-discrete e' e
]

-- `validity_is_coherent`.
unfoldable pub validate_authorization :
    PolicyAuthorization → Result AuthorizationFailure PolicyAuthorization
validate_authorization a = do
  raise_if (elim a.not_before [ none ↦ false | some start ↦ ltb a.evaluated_at start ])
      before_validity
  raise_if (ltb a.expires_at a.evaluated_at) outside_validity
  ok a

module _ (h : PolicyDigests) where
  abbrev pub issued :
      ActionEnvelope
      → PolicyRequest
      → PolicyDecision
      → ScopeManifest
      → BudgetSnapshot
      → ℕ
      → PolicyAuthorization
  issued e q d m b now = record {
    policy_decision_ref = e.policy_decision_ref;
    action_id = e.action_id;
    idempotency_key = e.idempotency_key;
    envelope_hash = h.envelope e;
    policy_request_hash = h.request q;
    scope_manifest_hash = h.manifest m;
    budget_reservation_id =
        h.slot (h.envelope e) (h.manifest m) b.requests_in_window b.write_requests_used;
    evaluated_at = now;
    not_before = m.validity.not_before;
    expires_at = m.validity.expires_at;
    requests_before = b.requests_in_window;
    write_requests_before = b.write_requests_used;
    is_write = issued_write e.action;
    decision = d;
  }

  -- `PolicyAuthorization.bind`.
  unfoldable pub bind :
      ActionEnvelope
      → PolicyRequest
      → PolicyDecision
      → Result AuthorizationFailure PolicyAuthorization
  bind e q d = elim (issue_context q) [
    | none ↦ err incomplete_request
    | some (m, b, now) ↦ (do
      raise_if (not (is_request_for q e)) incomplete_request
      raise_if (not (same PolicyDecision-discrete (evaluate (some q)) d)) decision_mismatch
      validate_authorization (issued e q d m b now))
  ]

  abbrev same_flag : Bool → Bool → Bool
  same_flag true b = b
  same_flag false b = not b

  -- `require_allows`.
  unfoldable pub require_allows :
      PolicyAuthorization → ActionEnvelope → ℕ → ℕ → ℕ → Result AuthorizationFailure (Unit {0})
  require_allows a e now requests writes =
      raise_if
        (not (is_allow a.decision.outcome)
          || not (a.action_id == e.action_id)
          || not (a.idempotency_key == e.idempotency_key)
          || not (a.envelope_hash == h.envelope e)
          || ltb now a.evaluated_at
          || elim a.not_before [ none ↦ false | some start ↦ ltb now start ]
          || ltb a.expires_at now
          || not (a.requests_before == requests)
          || not (a.write_requests_before == writes)
          || not (same_flag a.is_write (issued_write e.action)))
        denied

  -- The bindings of an authorization to the request that is retained.
  abbrev pub is_bound : PolicyAuthorization → ActionEnvelope → PolicyRequest → Bool
  is_bound a e q = elim (issue_context q) [
    | none ↦ false
    | some (m, b, now) ↦
        is_request_for q e
        && a.policy_request_hash == h.request q
        && a.scope_manifest_hash == h.manifest m
        && a.requests_before == b.requests_in_window
        && a.write_requests_before == b.write_requests_used
        && a.evaluated_at == now
        && is_time a.not_before m.validity.not_before
        && a.expires_at == m.validity.expires_at
        && same PolicyDecision-discrete a.decision (evaluate (some q))
  ]

  -- `verify_policy_authorization`.
  unfoldable pub verify_policy_authorization :
      PolicyAuthorization
      → ActionEnvelope
      → ℕ
      → ℕ
      → ℕ
      → Option PolicyRequest
      → Result AuthorizationFailure PolicyAuthorization
  verify_policy_authorization a e now requests writes retained = do
    raise_if (elim retained [ none ↦ false | some q ↦ not (is_bound a e q) ]) binding_invalid
    require_allows a e now requests writes
    ok a
