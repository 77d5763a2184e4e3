-- ===== src/Workflow/Closing.antt =====
-- workflows/world/src/stateweaver/workflows/world/orchestrator.py: `close`.
pub mod Loop
pub mod Released
use stateweaver.Common.{ℕ, List, [], ◌∷◌, ◌++◌, map}
use stateweaver.Common.Dict.{Dict, insert}
use stateweaver.Replay.Ports.{returned, timed_out, cancelled, raised}
use stateweaver.Workflow.Models.{AllocatedWorld, WorldPorts}
use stateweaver.Workflow.State.{Workflow, values}
use stateweaver.Workflow.Allocation.{Run, goes_on, cut}

-- The tag of an entry in `close`.
pub data Kind : Type 0 where
  is_active is_cleanup : Kind

abbrev pub Tagged : Type 0
Tagged = Kind × ℕ × AllocatedWorld

-- The dictionaries `remaining_active` and `remaining_cleanup`.
pub record Remaining : Type 0 where
  pub active : Dict AllocatedWorld
  pub cleanup : Dict AllocatedWorld

-- `_retain_close_item`.
unfoldable pub retain_close_item : Tagged → Remaining → Remaining
retain_close_item (is_active, k, a) m = record m { active = insert k a m.active }
retain_close_item (is_cleanup, k, a) m = record m { cleanup = insert k a m.cleanup }

unfoldable pub retain_items : List Tagged → Remaining → Remaining
retain_items [] m = m
retain_items (t ∷ ts) m = retain_items ts (retain_close_item t m)

-- `_replace_retained`.
unfoldable pub replace_retained : Remaining → Workflow → Workflow
replace_retained m s = record s {
  active = m.active;
  cleanup_pending = m.cleanup;
  identities = map (λ a. a.sibling_identity) (values m.active ++ values m.cleanup);
}

abbrev pub tag : Kind → Dict AllocatedWorld → List Tagged
tag kind d = map (λ x. (kind, x.0, x.1)) d

abbrev pub tagged : Workflow → List Tagged
tagged s = tag is_active s.active ++ tag is_cleanup s.cleanup_pending

module _ {E : Type 0} (ports : WorldPorts E) where
  -- The loop of `close`.
  unfoldable pub close_all : List Tagged → Remaining → E → Run × Remaining × E
  close_all [] m e = (goes_on, m, e)
  close_all (t ∷ ts) m e =
      let (answer, e') = ports.release t.2 e in
      elim answer [
        | returned _ ↦ close_all ts m e'
        | cancelled ↦ (cut, retain_items (t ∷ ts) m, e')
        | timed_out ↦ close_all ts (retain_close_item t m) e'
        | raised _ ↦ close_all ts (retain_close_item t m) e'
      ]

  -- `close`.
  unfoldable pub close : Workflow → E → Run × Workflow × E
  unfolding close_all
  close s e =
      let (run, m, e') = close_all (tagged s) (record { active = []; cleanup = [] }) e in
      (run, replace_retained m s, e')
