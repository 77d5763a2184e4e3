-- ===== src/Workflow/Promotions/Returned.antt =====
-- The result of a call of `advance` of orchestrator.py.
use stateweaver.Common.{
  ℕ, ◌≤◌, ◌≡◌, refl, ap, subst, ◌∙◌, some, List, [], ◌++◌, ok, arith, inl, inr, length,
  Result-cases,
}
use stateweaver.Search.Budget.{BudgetReservation, BudgetLedger}
use stateweaver.Search.Models.{BeamSearchPolicy, SearchCandidate, width}
use stateweaver.Search.Controller.{Digests}
use stateweaver.Search.Beam.{validate_batch, by_identifier}
use stateweaver.Search.Selection.{SearchResult, advance}
use stateweaver.Search.Advance.{advance_budget}
use stateweaver.Workflow.Models.{PromotionRunContext, WorldPorts}
use stateweaver.Workflow.Relations.{
  drop, candidates_by, WorkflowResult, create_result, validate_relations,
}
use stateweaver.Workflow.State.{Workflow, Accepted, held}
use stateweaver.Workflow.Allocation.{
  LoopEnd, accepted_all, lost, stopped, at_end, promote_all, Run-cases, release_uncommitted,
}
use stateweaver.Workflow.Advance.{settle, promote_batch, commit_all, promotes}
use stateweaver.Workflow.Picked.{Picks, pick_none, promote_all-Picks}
use stateweaver.Workflow.Sound.{drop-append}
use stateweaver.Workflow.Promotions.{ArePromoted, commit_all-ArePromoted}

create_result_same : (h : Digests) (r r' : WorkflowResult) → create_result h r ≡ ok r' → r' ≡ r
unfolding create_result
create_result_same h r r' e =
    elim (Result-cases (advance h r.search_policy r.search_batch r.input_ledger)) [
      | inl (x, a) ↦ absurd (ground arith)
      | inr (search, a) ↦
          elim (Result-cases (
            validate_relations r.input_ledger r.search_batch r.search r.committed_ledger
              r.promotions)) [ inl (x, v) ↦ absurd (ground arith) | inr (u, v) ↦ ground arith ]
    ]

module _ {E : Type 0} (ports : WorldPorts E) (h : Digests) (p : BeamSearchPolicy)
    (context : PromotionRunContext) where
  -- The stages of a call that promotes.
  record Promoted (batch : List SearchCandidate) (s : Workflow) (e : E) (r : WorkflowResult)
      : Type 0 where
    search : SearchResult
    accepted : List Accepted
    after : Workflow
    found : advance h p (by_identifier batch) s.ledger ≡ ok search
    picked :
        Picks
          (candidates_by (by_identifier batch) [])
          accepted
          (drop (length s.ledger.reservations) search.ledger.reservations)
    committed :
        (commit_all h.reservation_id accepted s.ledger after).0
        ≡ ok (r.committed_ledger, r.promotions)
    given : (r.input_ledger ≡ s.ledger) × (r.search ≡ search)

  settle-promotes :
      (before : BudgetLedger) (batch : List SearchCandidate) (search : SearchResult)
      (acc : List Accepted) (s : Workflow) (e : E) (r : WorkflowResult)
      → (settle ports h p context before batch search (accepted_all acc) s e).0 ≡ promotes r
      → ((commit_all h.reservation_id acc before s).0 ≡ ok (r.committed_ledger, r.promotions))
        × (r.input_ledger ≡ before)
        × (r.search ≡ search)
  unfolding settle
  settle-promotes before batch search acc s e r q =
      elim (Result-cases (commit_all h.reservation_id acc before s).0) [
        | inl (x, c) ↦ absurd (ground arith)
        | inr ((l, ps), c) ↦
            let made : WorkflowResult = record {
              context = context;
              input_ledger = before;
              search_policy = p;
              search_batch = batch;
              search = search;
              committed_ledger = l;
              promotions = ps;
            } in
            elim (Result-cases (create_result h made)) [
              | inl (x, v) ↦ absurd (ground arith)
              | inr (r', v) ↦
                  let same : r ≡ made = ground (arith, create_result_same h made r' v) in
                  ground arith
            ]
      ]

  settle_aborts :
      (before : BudgetLedger) (batch : List SearchCandidate) (search : SearchResult) (x : LoopEnd)
      (s : Workflow) (e : E) (r : WorkflowResult)
      → (settle ports h p context before batch search x s e).0 ≡ promotes r
      → (acc : List Accepted) × (x ≡ accepted_all acc)
  unfolding settle
  settle_aborts before batch search (accepted_all acc) s e r q = (acc, refl)
  settle_aborts before batch search (stopped acc) s e r q = absurd (ground arith)
  settle_aborts before batch search (lost x acc) s e r q =
      elim (Run-cases (release_uncommitted ports (held acc) s e).0) [
        | inl g ↦ absurd (ground arith)
        | inr g ↦ absurd (ground arith)
      ]

  promote_batch-Promoted :
      (batch : List SearchCandidate) (s : Workflow) (e : E) (r : WorkflowResult)
      → (promote_batch ports h p context batch s e).0 ≡ promotes r
      → Promoted batch s e r
  unfolding promote_batch validate_batch
  promote_batch-Promoted batch s e r q = elim (Result-cases (validate_batch batch)) [
    | inl (x, b) ↦ absurd (ground arith)
    | inr (closed, b) ↦ elim (Result-cases (advance h p closed s.ledger)) [
      | inl (x, a) ↦ absurd (ground arith)
      | inr (search, a) ↦
          let canonical : closed ≡ by_identifier batch = ground arith in
          let new = drop (length s.ledger.reservations) search.ledger.reservations in
          let out = promote_all ports (candidates_by closed []) new [] s e in
          let settled : (settle ports h p context s.ledger closed search out.0 out.1 out.2).0
              ≡ promotes r =
            ground arith in
          let (acc, all_in) = settle_aborts s.ledger closed search out.0 out.1 out.2 r settled in
          let (done, same_input, same_search) =
            settle-promotes s.ledger closed search acc out.1 out.2 r (rw (← all_in) settled) in
          record {
            search = search;
            accepted = acc;
            after = out.1;
            found = rw (← canonical) a;
            picked =
                subst (λ z. Picks (candidates_by z []) acc new) canonical
                  (subst (λ z. Picks (candidates_by closed []) (at_end z) new) all_in
                    (promote_all-Picks (candidates_by closed []) ports new [] [] s e pick_none));
            committed = done;
            given = (same_input, same_search);
          }
    ]
  ]

  -- If a call of `advance` returns a result, then the committed ledger is the input ledger with one
  -- reservation at its end for each promotion; each promotion is for a candidate of the batch that
  -- passes the workflow's gates, is paid for by its reservation at the candidate's cost, and has an
  -- allocation and a successful capture that are bound to it; and there are no more promotions than the
  -- beam of the target tier is wide.
  pub promote_batch-ArePromoted :
      (batch : List SearchCandidate) (s : Workflow) (e : E) (r : WorkflowResult)
      → (promote_batch ports h p context batch s e).0 ≡ promotes r
      → (added : List BudgetReservation) × (limit : ℕ) × (r.committed_ledger
          ≡ record s.ledger { reservations = s.ledger.reservations ++ added })
        × ArePromoted batch r.promotions added
        × (width p r.search.target_tier ≡ some limit)
        × (length r.promotions ≤ limit)
  promote_batch-ArePromoted batch s e r q =
      let d = promote_batch-Promoted batch s e r q in
      let (added, grown, each, short) =
        commit_all-ArePromoted batch h.reservation_id d.accepted _ s.ledger r.committed_ledger
          d.after r.promotions d.picked d.committed in
      let (_, (limit, new, within, narrow, extended)) =
        advance_budget h p (by_identifier batch) s.ledger d.search d.found in
      let suffix =
        ap (λ (m : BudgetLedger). drop (length s.ledger.reservations) m.reservations) extended
        ∙ drop-append s.ledger.reservations new in
      (
        added,
        limit,
        grown,
        each,
        rw d.given.1 within,
        omega (arith, short, ap length suffix, narrow),
      )
