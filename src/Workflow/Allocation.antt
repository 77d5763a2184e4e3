-- ===== src/Workflow/Allocation.antt =====
-- workflows/world/src/stateweaver/workflows/world/orchestrator.py: the loop of `advance` over the new
-- reservations, with the release of what is not committed. A cancellation arrives as the answer of an awaited
-- call.
use stateweaver.Common.{◌≡◌, refl, ◌⊎◌, inl, inr, Bool, List, [], ◌∷◌, ◌++◌, ok, err, if◌then◌else◌}
use stateweaver.Common.Dict.{Dict, lookup}
use stateweaver.Replay.Ports.{Answer, returned, timed_out, cancelled, raised}
use stateweaver.Search.Budget.{BudgetReservation}
use stateweaver.Search.Models.{SearchCandidate}
use stateweaver.Workflow.Models.{
  AllocationRequest, AllocatedWorld, CaptureReceipt, WorkflowError, WorldPorts,
}
use stateweaver.Workflow.Relations.{of_key}
use stateweaver.Workflow.State.{
  Workflow, workflow_gate, Accepted, collision, violated, validate_allocation, accepts_capture,
  retain_cleanup, retain_all, find_accepted, remove_accepted, collided_worlds, request_for,
}

-- Whether a coroutine runs on or passes a cancellation up.
pub data Run : Type 0 where
  goes_on cut : Run

pub Run-cases : (r : Run) → (r ≡ goes_on) ⊎ (r ≡ cut)
Run-cases goes_on = inl refl
Run-cases cut = inr refl

-- A handler of an awaited `release`.
unfoldable pub after_release {ℓ} :
    {E : Type ℓ} → AllocatedWorld → Workflow → Answer (Unit {0}) → E → Run × Workflow × E
after_release a s (returned _) e = (goes_on, s, e)
after_release a s cancelled e = (cut, retain_cleanup a s, e)
after_release a s timed_out e = (goes_on, retain_cleanup a s, e)
after_release a s (raised _) e = (goes_on, retain_cleanup a s, e)

module _ {E : Type 0} (ports : WorldPorts E) where
  -- `_release_after_failure`.
  unfoldable pub release_after_failure : AllocatedWorld → Workflow → E → Run × Workflow × E
  unfolding after_release
  release_after_failure a s e = let (answer, e') = ports.release a e in after_release a s answer e'

  -- `_release_uncommitted`.
  unfoldable pub release_uncommitted : List AllocatedWorld → Workflow → E → Run × Workflow × E
  unfolding release_after_failure
  release_uncommitted [] s e = (goes_on, s, e)
  release_uncommitted (a ∷ rest) s e =
      let (run, s', e') = release_after_failure a s e in
      elim run [ goes_on ↦ release_uncommitted rest s' e' | cut ↦ (cut, retain_all rest s', e') ]

  -- The handler of `_AllocationIdCollision`.
  unfoldable pub handle_collision :
      Bool → AllocatedWorld → List Accepted → Workflow → E → Run × List Accepted × Workflow × E
  handle_collision release_current a acc s e =
      let collided = collided_worlds (find_accepted a.allocation_id acc) in
      let (run, s', e') =
        release_uncommitted (collided ++ (if release_current then a ∷ [] else []))
          (if release_current then s else retain_cleanup a s) e in
      (run, remove_accepted a.allocation_id acc, s', e')

  -- The handler of any other exception, once there is an allocation.
  unfoldable pub handle_failure :
      AllocatedWorld → List Accepted → Workflow → E → Run × List Accepted × Workflow × E
  handle_failure a acc s e = let (run, s', e') = release_after_failure a s e in (run, acc, s', e')

  -- The check of what `capture` answered, and the handlers.
  unfoldable pub after_capture :
      SearchCandidate
      → AllocationRequest
      → AllocatedWorld
      → List Accepted
      → Workflow
      → Answer CaptureReceipt
      → E
      → Run × List Accepted × Workflow × E
  after_capture c q a acc s (returned receipt) e =
      if accepts_capture c q a receipt
      then (
        goes_on,
        acc ++ record { candidate = c; request = q; allocation = a; receipt = receipt } ∷ [],
        s,
        e,
      )
      else handle_failure a acc s e
  after_capture c q a acc s cancelled e =
      let (run, s', e') = release_after_failure a s e in (cut, acc, s', e')
  after_capture c q a acc s timed_out e = handle_failure a acc s e
  after_capture c q a acc s (raised _) e = handle_failure a acc s e

  -- The check of what `allocate` answered, the capture, and the handlers.
  unfoldable pub after_allocate :
      SearchCandidate
      → AllocationRequest
      → List Accepted
      → Workflow
      → Answer AllocatedWorld
      → E
      → Run × List Accepted × Workflow × E
  unfolding after_capture
  after_allocate c q acc s (returned a) e = elim (validate_allocation q a acc s) [
    | ok _ ↦ let (answer, e') = ports.capture q a e in after_capture c q a acc s answer e'
    | err (collision release_current) ↦ handle_collision release_current a acc s e
    | err violated ↦ handle_failure a acc s e
  ]
  after_allocate c q acc s cancelled e = (cut, acc, s, e)
  after_allocate c q acc s timed_out e = (goes_on, acc, s, e)
  after_allocate c q acc s (raised _) e = (goes_on, acc, s, e)

  -- The body of the loop.
  unfoldable pub promote_one :
      SearchCandidate
      → BudgetReservation
      → List Accepted
      → Workflow
      → E
      → Run × List Accepted × Workflow × E
  unfolding after_allocate
  promote_one c r acc s e = elim (workflow_gate c r.target_tier) [
    | err _ ↦ (goes_on, acc, s, e)
    | ok _ ↦
        let q : AllocationRequest = request_for c r in
        let (answer, e') = ports.allocate q e in after_allocate c q acc s answer e'
  ]

-- How the loop over the reservations ends.
pub data LoopEnd : Type 0 where
  accepted_all : List Accepted → LoopEnd
  lost : WorkflowError → List Accepted → LoopEnd
  stopped : List Accepted → LoopEnd

-- The accepted worlds when the loop ends.
abbrev pub at_end : LoopEnd → List Accepted
at_end (accepted_all acc) = acc
at_end (lost x acc) = acc
at_end (stopped acc) = acc

module _ {E : Type 0} (ports : WorldPorts E) where
  -- The loop over `newly_reserved`.
  unfoldable pub promote_all :
      Dict SearchCandidate
      → List BudgetReservation
      → List Accepted
      → Workflow
      → E
      → LoopEnd × Workflow × E
  promote_all candidates [] acc s e = (accepted_all acc, s, e)
  promote_all candidates (r ∷ rs) acc s e = elim (of_key (lookup r.candidate_id candidates)) [
    | err x ↦ (lost x acc, s, e)
    | ok c ↦
        let (run, acc', s', e') = promote_one ports c r acc s e in
        elim run [ goes_on ↦ promote_all candidates rs acc' s' e' | cut ↦ (stopped acc', s', e') ]
  ]
