-- ===== src/Workflow/Advance.antt =====
-- workflows/world/src/stateweaver/workflows/world/orchestrator.py: `advance`. The lock is held from its first
-- await to its end, so a call is a function on the attributes and on the state `E` of the world outside.
use stateweaver.Common.{Option, none, some, List, [], ◌∷◌, Result, ok, err, length}
use stateweaver.Common.Dict.{insert}
use stateweaver.Search.Budget.{BudgetReservation, BudgetLedger, reserve, LedgerError, ReservationId}
use stateweaver.Search.Models.{BeamSearchPolicy, SearchCandidate}
use stateweaver.Search.Controller.{Digests}
use stateweaver.Search.Beam.{validate_batch}
use stateweaver.Search.Selection.{SearchResult, advance}
use stateweaver.Workflow.Models.{
  PromotionRunContext, PromotionRecord, WorkflowError, WorldPorts, validate_promotion,
  ledger_refused, reservation_missing,
}
use stateweaver.Workflow.Relations.{drop, candidates_by, of_search, WorkflowResult, create_result}
use stateweaver.Workflow.State.{Workflow, Accepted, held}
use stateweaver.Workflow.Allocation.{
  goes_on, cut, release_uncommitted, LoopEnd, accepted_all, lost, stopped, promote_all,
}

-- `committed.reservations[-1]`.
unfoldable pub get_last : List BudgetReservation → Option BudgetReservation
get_last [] = none
get_last (r ∷ []) = some r
get_last (r ∷ q ∷ rs) = get_last (q ∷ rs)

abbrev of_ledger : {A : Type 0} → Result LedgerError A → Result WorkflowError A
of_ledger (ok a) = ok a
of_ledger (err x) = err (ledger_refused x)

abbrev last_of : BudgetLedger → Result WorkflowError BudgetReservation
last_of l = elim (get_last l.reservations) [ none ↦ err reservation_missing | some r ↦ ok r ]

abbrev pub record_of : Accepted → BudgetReservation → PromotionRecord
record_of x r = record {
  candidate_id = x.candidate.candidate_id;
  target_tier = x.request.target_tier;
  reservation_id = r.reservation_id;
  allocation = x.allocation;
  capture = x.receipt;
}

abbrev pub activated : Accepted → Workflow → Workflow
activated x s = record s {
  active = insert x.allocation.allocation_id x.allocation s.active;
  identities = x.allocation.sibling_identity ∷ s.identities;
}

-- The loop that commits; what it had written when an error is raised stays.
unfoldable pub commit_all :
    ReservationId
    → List Accepted
    → BudgetLedger
    → Workflow
    → Result WorkflowError (BudgetLedger × List PromotionRecord) × Workflow
commit_all i [] l s = (ok (l, []), s)
commit_all i (x ∷ xs) l s =
    elim (of_ledger
      (reserve i l x.candidate.candidate_id x.request.target_tier x.candidate.promotion_cost)) [
        | err z ↦ (err z, s)
        | ok l' ↦ elim (last_of l') [
          | err z ↦ (err z, s)
          | ok r ↦ elim (validate_promotion (record_of x r)) [
            | err z ↦ (err z, activated x s)
            | ok p ↦
                let (rest, s') = commit_all i xs l' (activated x s) in
                elim rest [ err z ↦ (err z, s') | ok (l'', ps) ↦ (ok (l'', p ∷ ps), s') ]
          ]
        ]
      ]

-- How a call of `advance` ends: with a result, with an exception, or cancelled.
pub data End : Type 0 where
  promotes : WorkflowResult → End
  refused : WorkflowError → End
  interrupted : End

abbrev pub ended : Result WorkflowError WorkflowResult → End
ended (ok r) = promotes r
ended (err x) = refused x

module _ {E : Type 0} (ports : WorldPorts E) (h : Digests) (p : BeamSearchPolicy)
    (context : PromotionRunContext) where
  -- From the end of the first loop on; `before` is the ledger that the call began with.
  unfoldable pub settle :
      BudgetLedger
      → List SearchCandidate
      → SearchResult
      → LoopEnd
      → Workflow
      → E
      → End × Workflow × E
  settle before batch search (stopped acc) s e =
      let (run, s', e') = release_uncommitted ports (held acc) s e in (interrupted, s', e')
  settle before batch search (lost x acc) s e =
      let (run, s', e') = release_uncommitted ports (held acc) s e in
      elim run [ goes_on ↦ (refused x, s', e') | cut ↦ (interrupted, s', e') ]
  settle before batch search (accepted_all acc) s e =
      let (out, s') = commit_all h.reservation_id acc before s in
      elim out [
        | err x ↦ (refused x, s', e)
        | ok (committed, promotions) ↦ (
          ended (
              create_result h (record {
                context = context;
                input_ledger = before;
                search_policy = p;
                search_batch = batch;
                search = search;
                committed_ledger = committed;
                promotions = promotions;
              })),
          record s' { ledger = committed },
          e,
        )
      ]

  -- `advance`.
  unfoldable pub promote_batch : List SearchCandidate → Workflow → E → End × Workflow × E
  promote_batch batch s e = elim (of_search (validate_batch batch)) [
    | err x ↦ (refused x, s, e)
    | ok closed ↦ elim (of_search (advance h p closed s.ledger)) [
      | err x ↦ (refused x, s, e)
      | ok search ↦
          let (loop_end, s', e') =
            promote_all ports (candidates_by closed [])
              (drop (length s.ledger.reservations) search.ledger.reservations) [] s e in
          settle s.ledger closed search loop_end s' e'
    ]
  ]
