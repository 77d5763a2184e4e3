-- ===== src/Workflow/Total.antt =====
-- How a call of `advance` of orchestrator.py ends once its search has returned.
use stateweaver.Common.{◌≡◌, refl, List, [], ◌∷◌, ok, ◌++◌, inl, inr, ◌⊎◌, All}
use stateweaver.Common.Dict.{Dict}
use stateweaver.Search.Budget.{BudgetReservation, BudgetLedger}
use stateweaver.Search.Models.{BeamSearchPolicy, SearchCandidate}
use stateweaver.Search.Controller.{Digests}
use stateweaver.Search.Beam.{validate_batch}
use stateweaver.Search.Selection.{SearchResult, advance}
use stateweaver.Search.Budget.Reserve.{IsValid}
use stateweaver.Workflow.Models.{PromotionRunContext, WorldPorts, PromotionRecord}
use stateweaver.Workflow.Relations.{candidates_by, create_result, WorkflowResult}
use stateweaver.Workflow.State.{Workflow, Accepted}
use stateweaver.Workflow.Allocation.{
  LoopEnd, accepted_all, lost, stopped, at_end, promote_one, promote_all, Run-cases,
}
use stateweaver.Workflow.Advance.{End, ended, settle, promote_batch, interrupted}
use stateweaver.Workflow.Picked.{Picks, pick_none, promote_all-Picks}
use stateweaver.Search.Budget.Binding.{IsBound, IsCollisionFree}
use stateweaver.Workflow.Affordable.{Thinned-refl}
use stateweaver.Workflow.Granting.{IsPriced, commit_all_total}
use stateweaver.Workflow.Sound.{round_lem}

-- The loop ends with what it accepted or with a cancellation.
abbrev HasCandidates : LoopEnd → Type 0
HasCandidates (accepted_all acc) = Unit
HasCandidates (lost x acc) = ⊥
HasCandidates (stopped acc) = Unit

module _ {E : Type 0} (ports : WorldPorts E) where
  promote_all-HasCandidates :
      (candidates : Dict SearchCandidate) (rs : List BudgetReservation) (acc : List Accepted)
      (s : Workflow) (e : E)
      → All (IsPriced candidates) rs
      → HasCandidates (promote_all ports candidates rs acc s e).0
  unfolding promote_all
  promote_all-HasCandidates candidates [] acc s e priced = tt
  promote_all-HasCandidates candidates (r ∷ rs) acc s e priced =
      let (c, found, _, _) = priced.0 in
      let out = promote_one ports c r acc s e in
      elim (Run-cases out.0) [
        | inl g ↦
            rw (found, g, promote_all)
              (promote_all-HasCandidates candidates rs out.1 out.2 out.3 priced.1)
        | inr g ↦ rw (found, g, promote_all) tt
      ]

  module _ (h : Digests) (p : BeamSearchPolicy) (context : PromotionRunContext) where
    abbrev pub made :
        BudgetLedger
        → List SearchCandidate
        → SearchResult
        → BudgetLedger
        → List PromotionRecord
        → WorkflowResult
    made before batch search l ps = record {
      context = context;
      input_ledger = before;
      search_policy = p;
      search_batch = batch;
      search = search;
      committed_ledger = l;
      promotions = ps;
    }

    -- Cancelled, or at the check of a result of this search.
    abbrev pub EndsWell : BudgetLedger → List SearchCandidate → SearchResult → End → Type 0
    EndsWell before batch search x =
        (x ≡ interrupted)
        ⊎ ((l : BudgetLedger) × (ps : List PromotionRecord) × (x
              ≡ ended (create_result h (made before batch search l ps))))

    settle-EndsWell :
        (closed : List SearchCandidate) (search : SearchResult) (new : List BudgetReservation)
        (before : BudgetLedger) (x : LoopEnd) (s : Workflow) (e : E)
        → IsCollisionFree h.reservation_id
        → IsValid before
        → IsBound h.reservation_id before.reservations
        → IsValid (record before { reservations = before.reservations ++ new })
        → All (IsPriced (candidates_by closed [])) new
        → HasCandidates x
        → Picks (candidates_by closed []) (at_end x) new
        → EndsWell before closed search (settle ports h p context before closed search x s e).0
    unfolding settle
    settle-EndsWell closed search new before (stopped acc) s e free v b w priced has picks =
        inl refl
    settle-EndsWell closed search new before (lost x acc) s e free v b w priced has picks =
        absurd has
    settle-EndsWell closed search new before (accepted_all acc) s e free v b w priced has picks =
        let (l, ps, done, _, _) =
          commit_all_total h.reservation_id free (candidates_by closed []) acc before.reservations
            new before s v b (Thinned-refl before.reservations) w.keys_differ w.within priced
            picks in
        inr (l, ps, rw (done, settle) refl)

    -- A call of `advance` on a workflow with a valid ledger, whose search returns, is cancelled or reaches the check of
    -- its result, whatever the allocator and the capture answer: no candidate is missing, no accepted candidate is
    -- refused by the budget, and no promotion record is refused; provided that digests of reservations with
    -- different numbers differ.
    pub promote_batch-EndsWell :
        (batch closed : List SearchCandidate) (search : SearchResult) (s : Workflow) (e : E)
        → IsCollisionFree h.reservation_id
        → IsValid s.ledger
        → IsBound h.reservation_id s.ledger.reservations
        → validate_batch batch ≡ ok closed
        → advance h p closed s.ledger ≡ ok search
        → EndsWell s.ledger closed search (promote_batch ports h p context batch s e).0
    unfolding promote_batch
    promote_batch-EndsWell batch closed search s e free v bound b a =
        let (new, suffix, w, priced) = round_lem h p closed s.ledger search a in
        let candidates = candidates_by closed [] in
        let out = promote_all ports candidates new [] s e in
        rw (b, a, suffix, promote_batch)
          (settle-EndsWell closed search new s.ledger out.0 out.1 out.2 free v bound w priced
            (promote_all-HasCandidates candidates new [] s e priced)
            (promote_all-Picks candidates ports new [] [] s e pick_none))
