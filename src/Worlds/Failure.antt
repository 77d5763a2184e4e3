-- ===== src/Worlds/Failure.antt =====
-- The errors of packages/worlds (the end of models.py) and the messages of `LifecycleError`.
use stateweaver.Worlds.Models.{Invalid}

pub data Reason : Type 0 where
  invalid_world_id writer_already_issued wrong_authority unknown_world : Reason
  environment_id_taken opaque_ref_taken namespace_taken : Reason
  world_id_taken reservation_inactive environment_already_owned no_environment_owned : Reason
  root_with_lineage invalid_parent lineage_not_extended : Reason
  world_exists reservation_mismatch ghost_with_environment environment_not_owned : Reason
  nonzero_revision identity_changed revival environment_attached environment_released : Reason
  environment_switched : Reason
  target_differs source_differs root_differs not_forkable no_live_environment : Reason
  other_event_loop not_restorable restore_unverified destroyed_transition illegal_transition :
      Reason

-- `invalid` is pydantic's `ValidationError`; `cleanup_failed` keeps both causes.
pub data Failure : Type 0 where
  invalid : Invalid → Failure
  lifecycle : Reason → Failure
  revision_conflict adapter_pin_differs egress_allowed capability_missing : Failure
  adapter_return operation_timeout adapter_failed cancelled key_error : Failure
  cleanup_failed : Failure → Failure → Failure
