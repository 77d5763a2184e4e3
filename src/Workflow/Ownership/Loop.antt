-- ===== src/Workflow/Ownership/Loop.antt =====
-- The loop of `advance` of orchestrator.py, step by step: the worlds that arrive, and the handlers.
use stateweaver.Common.{
  Bool, ◌≡◌, refl, true, false, none, List, [], ◌∷◌, ◌++◌, ok, arith, any, inl, inr, Bool-cases,
  Result-cases,
}
use stateweaver.Common.Dict.{Dict, lookup}
use stateweaver.Replay.Ports.{Answer, returned, timed_out, cancelled, raised}
use stateweaver.Search.Budget.{BudgetReservation, BudgetLedger}
use stateweaver.Search.Models.{SearchCandidate}
use stateweaver.Workflow.Models.{AllocatedWorld, AllocationRequest, CaptureReceipt, WorldPorts}
use stateweaver.Workflow.Relations.{of_key}
use stateweaver.Workflow.State.{
  Workflow, Accepted, held, has_identity, values, retain_cleanup, find_accepted, remove_accepted,
  collided_worlds, validate_allocation, collision, violated, accepts_capture, workflow_gate,
  request_for,
}
use stateweaver.Workflow.Allocation.{
  Run, Run-cases, at_end, promote_all, handle_collision, handle_failure, after_capture,
  after_allocate, promote_one,
}
use stateweaver.Workflow.Trail.{
  Trail, recording, obtains, times, times-append, IsFresh, append-IsFresh, remove-IsFresh,
  times-remove, lookup-keys, clashes, any-clashes, Covers,
}
use stateweaver.Workflow.Ownership.{
  Kept, retain-Kept, recount-Kept, obtained-Kept, moved-Kept, release_after_failure-Kept,
  release_uncommitted-Kept,
}

times-held :
    (a : AllocatedWorld) (acc : List Accepted) (x : Accepted)
    → times a (held (acc ++ x ∷ [])) ≡ times a (x.allocation ∷ held acc)
times-held a [] x = refl
times-held a (y ∷ acc) x = omega (arith, times-held a acc x)

module _ {E : Type 0} (base : Dict AllocatedWorld) (l : BudgetLedger) (ports : WorldPorts E) where
  -- What a step of the loop leaves: `rest` is now what is accepted, and those may be filed.
  abbrev pub StepKept : Run × List Accepted × Workflow × Trail E → Type 0
  StepKept (run, acc, s, t) = Kept base l s t (held acc) × IsFresh base acc

  pub handle_collision-Kept :
      (current : Bool) (b : AllocatedWorld) (acc : List Accepted) (s : Workflow) (t : Trail E)
      → Kept base l s t (b ∷ held acc)
      → IsFresh base acc
      → StepKept (handle_collision (recording ports) current b acc s t)
  unfolding handle_collision
  handle_collision-Kept true b acc s t k f = (
    release_uncommitted-Kept base l ports
        (collided_worlds (find_accepted b.allocation_id acc) ++ b ∷ [])
        (held (remove_accepted b.allocation_id acc)) s t
        (recount-Kept base l (b ∷ held acc) _ s t
          (λ a. omega (
            arith,
            times-remove a b.allocation_id acc,
            times-append a (collided_worlds (find_accepted b.allocation_id acc) ++ b ∷ [])
                (held (remove_accepted b.allocation_id acc)),
            times-append a (collided_worlds (find_accepted b.allocation_id acc)) (b ∷ []),
          ))
          k),
    remove-IsFresh base b.allocation_id acc f,
  )
  handle_collision-Kept false b acc s t k f = (
    release_uncommitted-Kept base l ports
        (collided_worlds (find_accepted b.allocation_id acc) ++ [])
        (held (remove_accepted b.allocation_id acc)) (retain_cleanup b s) t
        (recount-Kept base l (held acc) _ (retain_cleanup b s) t
          (λ a. omega (
            arith,
            times-remove a b.allocation_id acc,
            times-append a (collided_worlds (find_accepted b.allocation_id acc) ++ [])
                (held (remove_accepted b.allocation_id acc)),
            times-append a (collided_worlds (find_accepted b.allocation_id acc)) [],
          ))
          (retain-Kept base l b (held acc) s t k)),
    remove-IsFresh base b.allocation_id acc f,
  )

  handle_failure-Kept :
      (b : AllocatedWorld) (acc : List Accepted) (s : Workflow) (t : Trail E)
      → Kept base l s t (b ∷ held acc)
      → IsFresh base acc
      → StepKept (handle_failure (recording ports) b acc s t)
  unfolding handle_failure
  handle_failure-Kept b acc s t k f =
      (release_after_failure-Kept base l ports b (held acc) s t k, f)

  -- The allocation that a capture is made for has passed its check.
  abbrev IsNew : AllocatedWorld → List Accepted → Type 0
  IsNew b acc =
      (lookup b.allocation_id base ≡ none)
      × (any (has_identity b.sibling_identity) (values base) ≡ false)
      × (any (clashes b) (held acc) ≡ false)

  after_capture-Kept :
      (c : SearchCandidate) (q : AllocationRequest) (b : AllocatedWorld) (acc : List Accepted)
      (s : Workflow) (t : Trail E) (x : Answer CaptureReceipt)
      → Kept base l s t (b ∷ held acc)
      → IsFresh base acc
      → IsNew b acc
      → StepKept (after_capture (recording ports) c q b acc s x t)
  unfolding after_capture
  after_capture-Kept c q b acc s t (returned r) k f n =
      elim (Bool-cases (accepts_capture c q b r)) [
        | inl p ↦
            let x : Accepted = record { candidate = c; request = q; allocation = b; receipt = r } in
            rw p (
              recount-Kept base l (b ∷ held acc) (held (acc ++ x ∷ [])) s t
                  (λ a. omega (arith, times-held a acc x)) k,
              append-IsFresh base acc x f n.0 n.1 n.2,
            )
        | inr p ↦ rw p (handle_failure-Kept b acc s t k f)
      ]
  after_capture-Kept c q b acc s t cancelled k f n =
      (release_after_failure-Kept base l ports b (held acc) s t k, f)
  after_capture-Kept c q b acc s t timed_out k f n = handle_failure-Kept b acc s t k f
  after_capture-Kept c q b acc s t (raised m) k f n = handle_failure-Kept b acc s t k f

  validate_allocation-IsNew :
      (q : AllocationRequest) (b : AllocatedWorld) (acc : List Accepted) (s : Workflow)
      → s.active ≡ base
      → Covers s.identities (values s.active)
      → validate_allocation q b acc s ≡ ok tt
      → IsNew b acc
  unfolding validate_allocation
  validate_allocation-IsNew q b acc s e known v = (
    rw (← e) (lookup-keys b.allocation_id s.active (ground arith)),
    rw (← e) (known b.sibling_identity (ground arith)),
    any-clashes b (held acc) (ground arith) (ground arith),
  )

  after_allocate-Kept :
      (c : SearchCandidate) (q : AllocationRequest) (acc : List Accepted) (s : Workflow)
      (t : Trail E) (x : Answer AllocatedWorld) (e : E)
      → Kept base l s t (held acc)
      → IsFresh base acc
      → StepKept (after_allocate (recording ports) c q acc s x (obtains x e t))
  unfolding after_allocate
  after_allocate-Kept c q acc s t (returned b) e k f =
      let k' = obtained-Kept base l b (held acc) s t e k in
      elim (Result-cases (validate_allocation q b acc s)) [
        | inl (collision current, p) ↦
            rw (p, after_allocate) (handle_collision-Kept current b acc s _ k' f)
        | inl (violated, p) ↦ rw (p, after_allocate) (handle_failure-Kept b acc s _ k' f)
        | inr (u, p) ↦
            rw (p, after_allocate)
              (after_capture-Kept c q b acc s _ _ (moved-Kept base l (b ∷ held acc) s _ _ k') f
                (validate_allocation-IsNew q b acc s k.same_active k.known p))
      ]
  after_allocate-Kept c q acc s t cancelled e k f = (moved-Kept base l (held acc) s t e k, f)
  after_allocate-Kept c q acc s t timed_out e k f = (moved-Kept base l (held acc) s t e k, f)
  after_allocate-Kept c q acc s t (raised m) e k f = (moved-Kept base l (held acc) s t e k, f)

  promote_one-Kept :
      (c : SearchCandidate) (r : BudgetReservation) (acc : List Accepted) (s : Workflow)
      (t : Trail E)
      → Kept base l s t (held acc)
      → IsFresh base acc
      → StepKept (promote_one (recording ports) c r acc s t)
  unfolding promote_one
  promote_one-Kept c r acc s t k f = elim (Result-cases (workflow_gate c r.target_tier)) [
    | inl (g, p) ↦ rw (p, promote_one) (k, f)
    | inr (u, p) ↦
        rw (p, promote_one)
          (after_allocate-Kept c (request_for c r) acc s t
            (ports.allocate (request_for c r) t.outside).0
            (ports.allocate (request_for c r) t.outside).1 k f)
  ]

  pub promote_all-Kept :
      (candidates : Dict SearchCandidate) (rs : List BudgetReservation) (acc : List Accepted)
      (s : Workflow) (t : Trail E)
      → Kept base l s t (held acc)
      → IsFresh base acc
      → let (e, s', t') = promote_all (recording ports) candidates rs acc s t in
        Kept base l s' t' (held (at_end e)) × IsFresh base (at_end e)
  unfolding promote_all
  promote_all-Kept candidates [] acc s t k f = (k, f)
  promote_all-Kept candidates (r ∷ rs) acc s t k f =
      elim (Result-cases (of_key (lookup r.candidate_id candidates))) [
        | inl (x, p) ↦ rw (p, promote_all) (k, f)
        | inr (c, p) ↦
            let out = promote_one (recording ports) c r acc s t in
            let (k', f') = promote_one-Kept c r acc s t k f in
            elim (Run-cases out.0) [
              | inl q ↦
                  rw (p, q, promote_all) (promote_all-Kept candidates rs out.1 out.2 out.3 k' f')
              | inr q ↦ rw (p, q, promote_all) (k', f')
            ]
      ]
