-- ===== src/Worlds/Models.antt =====
-- packages/worlds/src/stateweaver/worlds/models.py: the frozen records of the world engine and
-- their validators. Identifiers and digests are strings that the code only tests for equality, so
-- a natural number stands for each.
pub mod Coherent
use stateweaver.Common.{
  ℕ, ◌≡◌, Bool, true, false, not, ◌&&◌, ◌||◌, Option, none, some, List, [], ◌∷◌, arith, ℕ_discrete,
  Result, ok, err, ◌>>=◌, ◌>>◌, raise_if, same, is_some, ◌==◌, if◌then◌else◌, unique, contains, all,
}
use stateweaver.Common.Dict.{Dict, lookup}

pub data CapabilityLevel : Type 0 where
  unsupported partial supported : CapabilityLevel

pub data EgressPolicy : Type 0 where
  deny allowlist : EgressPolicy

pub data WorldPhase : Type 0 where
  proposed ghost replay simulated materializing active blocked frozen : WorldPhase
  fragment_extracted composition_candidate replayed verified rejected pruned : WorldPhase

unfoldable pub WorldPhase-discrete : Discrete WorldPhase
WorldPhase-discrete = hlevel

pub record AdapterPin : Type 0 where
  pub adapter : ℕ
  pub version : ℕ

unfoldable pub AdapterPin-discrete : Discrete AdapterPin
AdapterPin-discrete = hlevel ℕ_discrete

-- The mapping is kept sorted by name, so that equal mappings are equal lists.
pub record CapabilityManifest : Type 0 where
  pub pin : AdapterPin
  pub capabilities : Dict CapabilityLevel
  pub egress_policy : EgressPolicy

unfoldable pub CapabilityManifest-discrete : Discrete CapabilityManifest
CapabilityManifest-discrete = hlevel ℕ_discrete

pub record WorldNamespace : Type 0 where
  pub network : ℕ
  pub database : ℕ
  pub cache : ℕ
  pub queue : ℕ
  pub session : ℕ
  pub storage : ℕ

pub record ResourceQuotas : Type 0 where
  pub cpu_seconds : ℕ
  pub memory_mb : ℕ
  pub pids : ℕ
  pub requests : ℕ
  pub concurrent_actions : ℕ

pub record EnvironmentHandle : Type 0 where
  pub adapter : AdapterPin
  pub environment_id : ℕ
  pub opaque_ref : ℕ
  pub namespace : WorldNamespace
  pub quotas : ResourceQuotas

unfoldable pub EnvironmentHandle-discrete : Discrete EnvironmentHandle
EnvironmentHandle-discrete = hlevel ℕ_discrete

pub record TargetSpec : Type 0 where
  pub target_id : ℕ
  pub target_version : ℕ
  pub secret_handles : List ℕ

unfoldable pub TargetSpec-discrete : Discrete TargetSpec
TargetSpec-discrete = hlevel ℕ_discrete

pub record SnapshotManifest : Type 0 where
  pub snapshot_id : ℕ
  pub root_snapshot_id : ℕ
  pub source_environment_id : ℕ
  pub target : TargetSpec
  pub adapter : AdapterPin
  pub content_hashes : Dict ℕ
  pub state_fingerprint : ℕ

pub record WorldNode : Type 0 where
  pub world_id : ℕ
  pub parent_world_id : Option ℕ
  pub root_snapshot_id : ℕ
  pub target : TargetSpec
  pub adapter : AdapterPin
  pub capability_manifest : CapabilityManifest
  pub phase : WorldPhase
  pub state_fingerprint : ℕ
  pub lineage : List ℕ
  pub environment : Option EnvironmentHandle
  pub snapshot : Option SnapshotManifest
  pub deduplicated_to : Option ℕ
  pub destroyed : Bool
  pub revision : ℕ

-- What a model validator of this package refuses.
pub data Invalid : Type 0 where
  lineage_repeats destroyed_with_environment own_parent own_duplicate : Invalid
  active_without_environment foreign_environment foreign_source foreign_snapshot : Invalid
  namespace_repeats secrets_repeat hashes_missing fingerprint_not_derived no_capabilities : Invalid

unfoldable pub namespace_values : WorldNamespace → List ℕ
namespace_values n = n.network ∷ n.database ∷ n.cache ∷ n.queue ∷ n.session ∷ n.storage ∷ []

-- `namespace_values_are_unique`.
unfoldable pub validate_namespace : WorldNamespace → Result Invalid WorldNamespace
unfolding namespace_values
validate_namespace n = raise_if (not (unique (namespace_values n))) namespace_repeats >> ok n

-- `secret_handles_unique`.
unfoldable pub validate_target : TargetSpec → Result Invalid TargetSpec
validate_target t = raise_if (not (unique t.secret_handles)) secrets_repeat >> ok t

-- `some_id == world_id`, where `some_id` may be `None`.
abbrev pub is_id : Option ℕ → ℕ → Bool
is_id none i = false
is_id (some j) i = j == i

-- `self.environment is not None and self.environment.adapter != self.adapter`.
abbrev pub environment_differs : Option EnvironmentHandle → AdapterPin → Bool
environment_differs none pin = false
environment_differs (some e) pin = not (same AdapterPin-discrete e.adapter pin)

abbrev pub source_differs : Option EnvironmentHandle → Option SnapshotManifest → Bool
source_differs (some e) (some s) = not (s.source_environment_id == e.environment_id)
source_differs (some e) none = false
source_differs none s = false

abbrev pub snapshot_differs : Option SnapshotManifest → WorldNode → Bool
snapshot_differs none n = false
snapshot_differs (some s) n =
    not (same AdapterPin-discrete s.adapter n.adapter)
    || not (same TargetSpec-discrete s.target n.target)
    || not (s.root_snapshot_id == n.root_snapshot_id)
    || not (s.state_fingerprint == n.state_fingerprint)

-- `coherent_live_shape`.
unfoldable pub coherent_live_shape : WorldNode → Result Invalid WorldNode
coherent_live_shape n = do
  raise_if (n.destroyed && is_some n.environment) destroyed_with_environment
  raise_if (is_id n.parent_world_id n.world_id) own_parent
  raise_if (is_id n.deduplicated_to n.world_id) own_duplicate
  raise_if
      (same WorldPhase-discrete n.phase active
        && not n.destroyed
        && (not (is_some n.environment) || not (is_some n.snapshot)))
      active_without_environment
  raise_if (environment_differs n.environment n.adapter) foreign_environment
  raise_if (source_differs n.environment n.snapshot) foreign_source
  raise_if (snapshot_differs n.snapshot n) foreign_snapshot
  ok n

-- `WorldNode.model_validate`: the field validator of the lineage, then the model validator.
unfoldable pub validate_node : WorldNode → Result Invalid WorldNode
validate_node n = raise_if (not (unique n.lineage)) lineage_repeats >> coherent_live_shape n

-- `derive_state_fingerprint` is a digest that hashlib and json compute: an argument.
unfoldable pub validate_snapshot :
    (derive_state_fingerprint : Dict ℕ → ℕ) (required : List ℕ)
    → SnapshotManifest
    → Result Invalid SnapshotManifest
validate_snapshot derive_state_fingerprint required s = do
  raise_if (not (all (λ name. is_some (lookup name s.content_hashes)) required)) hashes_missing
  raise_if (not (s.state_fingerprint == derive_state_fingerprint s.content_hashes))
      fingerprint_not_derived
  ok s

unfoldable pub supports : CapabilityManifest → ℕ → Bool
supports m name = elim (lookup name m.capabilities) [ some supported ↦ true | _ ↦ false ]

-- `LEGAL_TRANSITIONS`.
unfoldable pub legal_transitions : WorldPhase → List WorldPhase
legal_transitions proposed = ghost ∷ []
legal_transitions ghost = pruned ∷ replay ∷ []
legal_transitions replay = pruned ∷ simulated ∷ []
legal_transitions simulated = pruned ∷ materializing ∷ []
legal_transitions materializing = active ∷ blocked ∷ []
legal_transitions active = frozen ∷ []
legal_transitions frozen = fragment_extracted ∷ []
legal_transitions fragment_extracted = composition_candidate ∷ []
legal_transitions composition_candidate = replayed ∷ []
legal_transitions replayed = verified ∷ rejected ∷ []
legal_transitions _ = []

-- `FORKABLE_PHASES`.
unfoldable pub forkable : WorldPhase → Bool
forkable active = true
forkable frozen = true
forkable _ = false
