-- ===== src/Policy/Tests.antt =====
-- A request that is allowed, and the theorems at it.
use stateweaver.Common.{text_eq, ℕ, ◌≡◌, refl, ◌↔◌, true, none, some, [], ◌∷◌, ok}
use stateweaver.Common.{Text}
use stateweaver.Policy.Paths.{expression, path_matches, Matches, path_matches_iff}
use stateweaver.Contracts.Scope.{http_request, read_only, passive, get, Decimal, ScopeManifest}
use stateweaver.Contracts.Actions.{http_request_action, ActionEnvelope}
use stateweaver.Policy.Models.{allow, PolicyRequest}
use stateweaver.Policy.Evaluator.{evaluate, evaluate_typed}
use stateweaver.Policy.Shape.{decided, evaluate_typed_total}
use stateweaver.Policy.Models.{require_approval}
use stateweaver.Policy.Waiting.{FailsOnly, evaluate_waits}
use stateweaver.Policy.Outcomes.{IsGranted, evaluate_allows}
use stateweaver.Policy.Paths.{repeated, full_match}
use stateweaver.Contracts.Scope.{
  ScopeAction-discrete, RiskClass-discrete, requirement_for, valid_at,
}
use stateweaver.Contracts.Actions.{action_scope, validate_envelope, validate_scope_authorization}
use stateweaver.Policy.Models.{
  PolicyReasonCode-discrete, validate_constraint, risks_unique, validate_constraints, codes_unique,
  failed_codes, same_codes, validate_decision,
}
use stateweaver.Policy.Evaluator.{given_codes, deny_codes, conclude, malformed_decision}
use stateweaver.Policy.Checks.{
  check_context, check_validity, requirement, check_authorization, check_approval, check_identity,
  check_target, check_requests, check_writes, check_timeout, check_risk, results,
}
use stateweaver.Policy.Actions.{
  after_prefix, short_name, identity_is_allowed, selector_matches, is_write_action,
  minimum_risk_rank, risk_rank, identity_handle, target_of, ten_to, over_capacity,
}
use stateweaver.Common.{contains, ℕ_discrete, arith, true}
use stateweaver.Policy.Authorization.{
  PolicyAuthorization, PolicyDigests, ActionEnvelope-discrete, PolicyDecision-discrete,
  issued_write, validate_authorization, bind, require_allows, verify_policy_authorization, issued,
}
use stateweaver.Policy.Issued.{IsAuthorized, verify-IsAuthorized, bind-verify, issued_write_iff}

-- On an `unfolding` line this opens the code.
engine : Unit {0}
unfolding expression repeated full_match path_matches ScopeAction-discrete RiskClass-discrete
    requirement_for action_scope validate_envelope valid_at validate_scope_authorization
    PolicyReasonCode-discrete validate_constraint risks_unique validate_constraints codes_unique
    failed_codes same_codes validate_decision text_eq after_prefix short_name identity_is_allowed
    selector_matches is_write_action minimum_risk_rank risk_rank identity_handle target_of ten_to
    over_capacity check_context check_validity requirement check_authorization check_approval
    check_identity check_target check_requests check_writes check_timeout check_risk results
    given_codes deny_codes conclude evaluate_typed malformed_decision evaluate contains ℕ_discrete
    ActionEnvelope-discrete PolicyDecision-discrete issued_write validate_authorization bind
    require_allows verify_policy_authorization
engine = tt

-- `/a/*`.
abbrev pattern : Text
pattern = 47 ∷ 97 ∷ 47 ∷ 42 ∷ []

-- `/a/b`.
abbrev path : Text
path = 47 ∷ 97 ∷ 47 ∷ 98 ∷ []

path_matches_test : path_matches pattern path ≡ true
unfolding engine
path_matches_test = refl

path_matches_iff_example : (path_matches pattern path ≡ true) ↔ Matches pattern path
path_matches_iff_example = path_matches_iff pattern path

abbrev whole : ℕ → Decimal
whole n = record { digits = n; places = 0 }

abbrev manifest : ScopeManifest
manifest = record {
  include = record { host = some 1; ports = []; paths = pattern ∷ [] } ∷ [];
  exclude = [];
  identities = (98 ∷ []) ∷ [];
  actions = record { allow = http_request ∷ []; require_approval = []; deny = [] };
  limits = record { requests_per_second = whole 2; max_write_requests = 0 };
  validity = record { not_before = some 5; expires_at = 9 };
}

abbrev envelope : ActionEnvelope
envelope = record {
  action_id = 1;
  world_id = 5;
  idempotency_key = 11;
  policy_decision_ref = 2;
  sequence = 0;
  details = 0;
  scope_action = http_request;
  action =
      http_request_action (some get) (some (record { host = 1; port = 80; path = path }))
        (some (98 ∷ [])) none;
  risk_class = read_only;
  approval_ref = none;
  timeout_ms = 100;
}

abbrev request : PolicyRequest
request = record {
  scope_manifest = some manifest;
  action_envelope = some envelope;
  budget = some (record {
    requests_in_window = 1;
    request_window_seconds = whole 1;
    write_requests_used = 0;
  });
  evaluated_at = some 7;
  constraints = record {
    max_timeout_ms = 30000;
    allowed_risk_classes = passive ∷ read_only ∷ [];
    approval_required_risk_classes = [];
  };
}

evaluate_test : (evaluate (some request)).outcome ≡ allow
unfolding engine
evaluate_test = refl

evaluate_allows_example : ((evaluate (some request)).outcome ≡ allow) ↔ IsGranted request
evaluate_allows_example = evaluate_allows request

evaluate_typed_total_example : evaluate_typed request ≡ ok (decided request)
evaluate_typed_total_example = evaluate_typed_total request

-- The same request where the action wants an approval.
abbrev unapproved : PolicyRequest
unapproved = record request {
  scope_manifest = some (record manifest {
    actions = record { allow = []; require_approval = http_request ∷ []; deny = [] };
  });
}

waiting_test : (evaluate (some unapproved)).outcome ≡ require_approval
unfolding engine
waiting_test = refl

evaluate_waits_example :
    ((evaluate (some unapproved)).outcome ≡ require_approval) ↔ FailsOnly 4 1 (results unapproved)
evaluate_waits_example = evaluate_waits unapproved

-- Digests that look at some of the fields.
abbrev digests : PolicyDigests
digests = record {
  envelope = λ e. e.action_id;
  request = λ _. 1;
  manifest = λ m. m.validity.expires_at;
  slot = λ a b c d. c;
}

abbrev granted : PolicyAuthorization
unfolding engine
granted =
    issued digests envelope request (evaluate (some request)) manifest
      (record { requests_in_window = 1; request_window_seconds = whole 1; write_requests_used = 0 })
      7

bind_test : bind digests envelope request (evaluate (some request)) ≡ ok granted
unfolding engine
bind_test = refl

verify_test : verify_policy_authorization digests granted envelope 8 1 0 (some request) ≡ ok granted
unfolding engine
verify_test = refl

verify-IsAuthorized_example : IsAuthorized request envelope 8 1 0
verify-IsAuthorized_example =
    verify-IsAuthorized digests granted envelope 8 1 0 request granted verify_test

bind-verify_example :
    verify_policy_authorization digests granted envelope 8 granted.requests_before
      granted.write_requests_before
      (some request)
    ≡ ok granted
unfolding granted
bind-verify_example =
    bind-verify digests granted envelope request (evaluate (some request)) 8 bind_test evaluate_test
      (omega arith) (omega arith)

issued_write_iff_example :
    (issued_write envelope.action ≡ true)
    ↔ ((is_write_action envelope.action ≡ true) × (action_scope envelope.action ≡ http_request))
issued_write_iff_example = issued_write_iff envelope.action
