-- ===== src/Workflow/Ownership.antt =====
-- The worlds that the loop of `advance` of orchestrator.py has obtained, through its releases.
pub mod Loop
use stateweaver.Common.{
  contains, Bool, ℕ, suc, ◌+◌, ◌≤◌, ◌≡◌, refl, true, false, none, List, [], ◌∷◌, ◌++◌, ok, arith,
  any, inl, inr, Bool-cases, Result-cases,
}
use stateweaver.Common.Dict.{Dict, lookup, lookup-insert}
use stateweaver.Replay.Ports.{Answer, returned, timed_out, cancelled, raised}
use stateweaver.Search.Budget.{BudgetReservation, BudgetLedger}
use stateweaver.Search.Models.{SearchCandidate}
use stateweaver.Workflow.Models.{AllocatedWorld, AllocationRequest, CaptureReceipt, WorldPorts}
use stateweaver.Workflow.Relations.{of_key}
use stateweaver.Workflow.State.{
  Workflow, values, Accepted, held, has_id, retain_cleanup, retain_all, find_accepted,
  remove_accepted, collided_worlds, validate_allocation, collision, violated, accepts_capture,
  workflow_gate, request_for,
}
use stateweaver.Workflow.Allocation.{
  Run, Run-cases, at_end, promote_all, after_release, release_after_failure, release_uncommitted,
  handle_collision, handle_failure, after_capture, after_allocate, promote_one,
}
use stateweaver.Workflow.Trail.{
  Trail, recording, obtains, gives_back, times, times-append, times-insert, NoTwice, insert-NoTwice,
  Covers, IsFresh, append-IsFresh, remove-IsFresh, times-remove, lookup-keys,
}

module _ {E : Type 0} (base : Dict AllocatedWorld) (l : BudgetLedger) where
  -- The ledger and the active worlds are as they were, and every world that was obtained is released,
  -- active, to be cleaned up, or in `rest`.
  pub record Kept (s : Workflow) (t : Trail E) (rest : List AllocatedWorld) : Type 0 where
    pub same_active : s.active ≡ base
    pub same_ledger : s.ledger ≡ l
    pub known : Covers s.identities (values s.active)
    pub cleanup_apart : NoTwice s.cleanup_pending
    pub tokens_new : (k : ℕ) → suc s.cleanup_token ≤ k → lookup k s.cleanup_pending ≡ none
    pub balanced :
        (a : AllocatedWorld)
        → times a t.obtained
          ≡ times a t.given_back
            + (times a (values s.active) + times a (values s.cleanup_pending) + times a rest)

  pub retain-Kept :
      (b : AllocatedWorld) (rest : List AllocatedWorld) (s : Workflow) (t : Trail E)
      → Kept s t (b ∷ rest)
      → Kept (retain_cleanup b s) t rest
  unfolding retain_cleanup contains
  retain-Kept b rest s t k =
      let new = k.tokens_new (suc s.cleanup_token) (omega arith) in
      record {
        same_active = k.same_active;
        same_ledger = k.same_ledger;
        known = λ j h. k.known j (ground arith);
        cleanup_apart =
            insert-NoTwice (suc s.cleanup_token) b s.cleanup_pending new k.cleanup_apart;
        tokens_new = λ j above.
            ground
              (arith, lookup-insert j (suc s.cleanup_token) b s.cleanup_pending, k.tokens_new j);
        balanced = λ a.
            omega
              (arith, k.balanced a, times-insert a (suc s.cleanup_token) b s.cleanup_pending new);
      }

  -- The balance alone depends on the trail and on what is left, in whatever order.
  rebalance-Kept :
      (xs ys : List AllocatedWorld) (s : Workflow) (t t' : Trail E)
      → Kept s t xs
      → ((a : AllocatedWorld)
          → times a t'.obtained
            ≡ times a t'.given_back
              + (times a (values s.active) + times a (values s.cleanup_pending) + times a ys))
      → Kept s t' ys
  rebalance-Kept xs ys s t t' k even = record {
    same_active = k.same_active;
    same_ledger = k.same_ledger;
    known = k.known;
    cleanup_apart = k.cleanup_apart;
    tokens_new = k.tokens_new;
    balanced = even;
  }

  pub recount-Kept :
      (xs ys : List AllocatedWorld) (s : Workflow) (t : Trail E)
      → ((a : AllocatedWorld) → times a xs ≡ times a ys)
      → Kept s t xs
      → Kept s t ys
  recount-Kept xs ys s t q k = rebalance-Kept xs ys s t t k (λ a. omega (arith, k.balanced a, q a))

  pub retain_all-Kept :
      (bs rest : List AllocatedWorld) (s : Workflow) (t : Trail E)
      → Kept s t (bs ++ rest)
      → Kept (retain_all bs s) t rest
  unfolding retain_all
  retain_all-Kept [] rest s t k = k
  retain_all-Kept (b ∷ bs) rest s t k =
      retain_all-Kept bs rest (retain_cleanup b s) t (retain-Kept b (bs ++ rest) s t k)

  -- A world is given back: the trail and the rest lose it together.
  released-Kept :
      (b : AllocatedWorld) (rest : List AllocatedWorld) (s : Workflow) (t : Trail E) (e : E)
      → Kept s t (b ∷ rest)
      → Kept s (record t { outside = e; given_back = b ∷ t.given_back }) rest
  released-Kept b rest s t e k =
      rebalance-Kept (b ∷ rest) rest s t _ k (λ a. omega (arith, k.balanced a))

  pub moved-Kept :
      (rest : List AllocatedWorld) (s : Workflow) (t : Trail E) (e : E)
      → Kept s t rest
      → Kept s (record t { outside = e }) rest
  moved-Kept rest s t e k = rebalance-Kept rest rest s t _ k k.balanced

  pub obtained-Kept :
      (b : AllocatedWorld) (rest : List AllocatedWorld) (s : Workflow) (t : Trail E) (e : E)
      → Kept s t rest
      → Kept s (record t { outside = e; obtained = b ∷ t.obtained }) (b ∷ rest)
  obtained-Kept b rest s t e k =
      rebalance-Kept rest (b ∷ rest) s t _ k (λ a. omega (arith, k.balanced a))

  after_release-Kept :
      (b : AllocatedWorld) (rest : List AllocatedWorld) (s : Workflow) (t : Trail E)
      (x : Answer (Unit {0})) (e : E)
      → Kept s t (b ∷ rest)
      → let (run, s', t') = after_release b s x (gives_back b x e t) in Kept s' t' rest
  unfolding after_release
  after_release-Kept b rest s t (returned u) e k = released-Kept b rest s t e k
  after_release-Kept b rest s t cancelled e k =
      retain-Kept b rest s _ (moved-Kept (b ∷ rest) s t e k)
  after_release-Kept b rest s t timed_out e k =
      retain-Kept b rest s _ (moved-Kept (b ∷ rest) s t e k)
  after_release-Kept b rest s t (raised n) e k =
      retain-Kept b rest s _ (moved-Kept (b ∷ rest) s t e k)

  module _ (ports : WorldPorts E) where
    pub release_after_failure-Kept :
        (b : AllocatedWorld) (rest : List AllocatedWorld) (s : Workflow) (t : Trail E)
        → Kept s t (b ∷ rest)
        → let (run, s', t') = release_after_failure (recording ports) b s t in Kept s' t' rest
    unfolding release_after_failure
    release_after_failure-Kept b rest s t k =
        after_release-Kept b rest s t (ports.release b t.outside).0 (ports.release b t.outside).1 k

    pub release_uncommitted-Kept :
        (bs rest : List AllocatedWorld) (s : Workflow) (t : Trail E)
        → Kept s t (bs ++ rest)
        → let (run, s', t') = release_uncommitted (recording ports) bs s t in Kept s' t' rest
    unfolding release_uncommitted
    release_uncommitted-Kept [] rest s t k = k
    release_uncommitted-Kept (b ∷ bs) rest s t k =
        let out = release_after_failure (recording ports) b s t in
        let k' = release_after_failure-Kept b (bs ++ rest) s t k in
        elim (Run-cases out.0) [
          | inl q ↦ rw (q, release_uncommitted) (release_uncommitted-Kept bs rest out.1 out.2 k')
          | inr q ↦ rw (q, release_uncommitted) (retain_all-Kept bs rest out.1 out.2 k')
        ]
