-- ===== src/Contracts/Scope.antt =====
-- packages/contracts/src/stateweaver/contracts/scope.py and the enums that it needs: what a manifest permits.
-- An instant is its place in time; a host is a number, for hosts are only compared.
use stateweaver.Common.{ℕ, Bool, ◌&&◌, Option, none, some, List, leb, same, any, if◌then◌else◌}
use stateweaver.Common.{Text}

pub data ScopeAction : Type 0 where
  passive_observation http_request browser_interaction test_account_write session_rotation :
      ScopeAction
  cache_delay queue_reorder controlled_time concurrency_test file_upload_test : ScopeAction
  denial_of_service persistence credential_exfiltration destructive_data_delete : ScopeAction

unfoldable pub ScopeAction-discrete : Discrete ScopeAction
ScopeAction-discrete = hlevel

pub data AuthorizationRequirement : Type 0 where
  allowed approval_required denied unspecified : AuthorizationRequirement

pub data RiskClass : Type 0 where
  passive read_only reversible_state_change elevated_reversible : RiskClass

unfoldable pub RiskClass-discrete : Discrete RiskClass
RiskClass-discrete = hlevel

pub data HttpMethod : Type 0 where
  get head options post put patch delete : HttpMethod

pub record TargetSelector : Type 0 where
  pub host : Option ℕ
  pub ports : List ℕ
  pub paths : List Text

pub record ScopeActions : Type 0 where
  pub allow : List ScopeAction
  pub require_approval : List ScopeAction
  pub deny : List ScopeAction

-- A `Decimal` made of a float: its digits and the number of its decimal places.
pub record Decimal : Type 0 where
  pub digits : ℕ
  pub places : ℕ

pub record ScopeLimits : Type 0 where
  pub requests_per_second : Decimal
  pub max_write_requests : ℕ

pub record ScopeValidity : Type 0 where
  pub not_before : Option ℕ
  pub expires_at : ℕ

pub record ScopeManifest : Type 0 where
  pub include : List TargetSelector
  pub exclude : List TargetSelector
  pub identities : List Text
  pub actions : ScopeActions
  pub limits : ScopeLimits
  pub validity : ScopeValidity

abbrev pub has_action : ScopeAction → List ScopeAction → Bool
has_action a = any (λ x. same ScopeAction-discrete x a)

-- `requirement_for`.
unfoldable pub requirement_for : ScopeActions → ScopeAction → AuthorizationRequirement
requirement_for s a =
    if has_action a s.deny
    then denied
    else if has_action a s.require_approval
    then approval_required
    else if has_action a s.allow
    then allowed
    else unspecified

-- `ScopeValidity.contains`.
unfoldable pub valid_at : ScopeValidity → ℕ → Bool
valid_at v now = elim v.not_before [
  | none ↦ leb now v.expires_at
  | some start ↦ leb start now && leb now v.expires_at
]
