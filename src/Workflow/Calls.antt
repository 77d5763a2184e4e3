-- ===== src/Workflow/Calls.antt =====
-- Histories of a workflow: any sequence of calls of `advance` and `close`, whatever their callbacks answer.
use stateweaver.Common.{◌≡◌, refl, List, [], ◌∷◌, ok, arith, inl, inr, Result-cases, length}
use mathlib.Core.List.{append-nil}
use stateweaver.Common.Dict.{lookup}
use stateweaver.Search.Budget.{
  BudgetReservation, BudgetLedger, ReservationId, validate_ledger, validate_reservation,
}
use stateweaver.Search.Budget.Reserve.{validate_ledger-IsValid}
use stateweaver.Search.Budget.Spending.{validate_ledger_same}
use stateweaver.Search.Models.{BeamSearchPolicy, SearchCandidate}
use stateweaver.Search.Controller.{Digests}
use stateweaver.Search.Beam.{validate_batch}
use stateweaver.Search.Selection.{SearchResult, advance}
use stateweaver.Workflow.Models.{PromotionRunContext, WorldPorts}
use stateweaver.Workflow.Relations.{drop, candidates_by, create_result}
use stateweaver.Workflow.State.{Workflow, held, validate_reservations, open_workflow}
use stateweaver.Workflow.Allocation.{
  LoopEnd, accepted_all, lost, stopped, at_end, promote_all, release_uncommitted, Run-cases,
}
use stateweaver.Workflow.Advance.{settle, promote_batch, interrupted, commit_all}
use stateweaver.Workflow.Closing.{close}
use stateweaver.Workflow.Trail.{Trail, recording}
use stateweaver.Workflow.Ownership.{Kept, release_uncommitted-Kept}
use stateweaver.Workflow.Ownership.Loop.{promote_all-Kept}
use stateweaver.Search.Budget.Binding.{IsBound, IsCollisionFree}
use stateweaver.Workflow.Tracking.{IsTracked, IsTracked-Kept}
use stateweaver.Workflow.Sound.{IsSound, promote_batch-IsSound}
use stateweaver.Workflow.Closing.Released.{close-IsSound}

-- A call of a method.
pub data Call : Type 0 where
  advances : PromotionRunContext → List SearchCandidate → Call
  closes : Call

abbrev pub fresh_trail : {E : Type 0} → E → Trail E
fresh_trail e = record { outside = e; obtained = []; given_back = [] }

validate_reservations-IsBound :
    (i : ReservationId) (rs qs : List BudgetReservation)
    → validate_reservations i rs ≡ ok qs
    → (qs ≡ rs) × IsBound i rs
unfolding validate_reservations validate_reservation
validate_reservations-IsBound i [] qs e = (ground arith, tt)
validate_reservations-IsBound i (r ∷ rs) qs e = elim (Result-cases (validate_reservations i rs)) [
  | inl (x, q) ↦ absurd (ground arith)
  | inr (more, q) ↦
      let (same_rest, bound) = validate_reservations-IsBound i rs more q in
      (ground arith, (ground arith, bound))
]

module _ {E : Type 0} where
  -- A workflow that is opened has obtained nothing.
  pub open_workflow-IsSound :
      (i : ReservationId) (l : BudgetLedger) (s : Workflow) (e : E)
      → open_workflow i l ≡ ok s
      → IsSound i s (fresh_trail e)
  unfolding open_workflow lookup
  open_workflow-IsSound i l s e q = elim (Result-cases (validate_reservations i l.reservations)) [
    | inl (x, v) ↦ absurd (ground arith)
    | inr (rs, v) ↦
        let (same_rs, bound) = validate_reservations-IsBound i l.reservations rs v in
        elim (Result-cases (validate_ledger (record l { reservations = rs }))) [
          | inl (x, w) ↦ absurd (ground arith)
          | inr (closed, w) ↦
              let same_l = validate_ledger_same (record l { reservations = rs }) closed w in
              let made : s ≡ record {
                ledger = closed;
                active = [];
                cleanup_pending = [];
                cleanup_token = 0;
                identities = [];
              } =
                ground arith in
              rw made (record {
                ledger_valid =
                    rw same_l (validate_ledger-IsValid (record l { reservations = rs }) closed w);
                ledger_bound = rw (same_l, same_rs) bound;
                tracked = record {
                  active_apart = tt;
                  known = λ k h. refl;
                  cleanup_apart = tt;
                  tokens_new = λ k le. refl;
                  balanced = λ a. refl;
                };
              })
        ]
  ]

module _ {E : Type 0} (ports : WorldPorts E) (h : Digests) (p : BeamSearchPolicy) where
  unfoldable pub perform : Call → Workflow → E → Workflow × E
  perform (advances context batch) s e =
      let (_, s', e') = promote_batch ports h p context batch s e in (s', e')
  perform closes s e = let (_, s', e') = close ports s e in (s', e')

  unfoldable pub run_calls : List Call → Workflow → E → Workflow × E
  unfolding perform
  run_calls [] s e = (s, e)
  run_calls (c ∷ cs) s e = let (s', e') = perform c s e in run_calls cs s' e'

module _ {E : Type 0} (ports : WorldPorts E) (h : Digests) (p : BeamSearchPolicy) where
  run_calls-IsSound' :
      (cs : List Call) (s : Workflow) (t : Trail E)
      → IsCollisionFree h.reservation_id
      → IsSound h.reservation_id s t
      → let (s', t') = run_calls (recording ports) h p cs s t in IsSound h.reservation_id s' t'
  unfolding run_calls
  run_calls-IsSound' [] s t free k = k
  run_calls-IsSound' (advances context batch ∷ cs) s t free k =
      run_calls-IsSound' cs _ _ free (promote_batch-IsSound ports h p context free batch s t k)
  run_calls-IsSound' (closes ∷ cs) s t free k =
      run_calls-IsSound' cs _ _ free (close-IsSound ports h.reservation_id s t k)

  -- After any sequence of calls of `advance` and `close` on a workflow that was opened, however each of them ends and
  -- whatever the allocator and the capture answer, the ledger is valid, the active worlds stand under different
  -- identifiers and have different sibling identities, and the worlds that were obtained are those that were released
  -- and those that the workflow tracks, each as often; provided that digests of reservations with different numbers
  -- differ.
  pub run_calls-IsSound :
      (l : BudgetLedger) (s : Workflow) (e : E) (cs : List Call)
      → IsCollisionFree h.reservation_id
      → open_workflow h.reservation_id l ≡ ok s
      → let (s', t') = run_calls (recording ports) h p cs s (fresh_trail e) in
        IsSound h.reservation_id s' t'
  run_calls-IsSound l s e cs free q =
      run_calls-IsSound' cs s (fresh_trail e) free (open_workflow-IsSound h.reservation_id l s e q)

module _ {E : Type 0} (ports : WorldPorts E) (h : Digests) (p : BeamSearchPolicy)
    (context : PromotionRunContext) where
  settle_interrupted :
      (before : BudgetLedger) (batch : List SearchCandidate) (search : SearchResult)
      (loop_end : LoopEnd) (s s' : Workflow) (t t' : Trail E)
      → Kept s.active s.ledger s' t' (held (at_end loop_end))
      → (settle (recording ports) h p context before batch search loop_end s' t').0 ≡ interrupted
      → let (_, s'', _) = settle (recording ports) h p context before batch search loop_end s' t' in
        (s''.ledger ≡ s.ledger) × (s''.active ≡ s.active)
  unfolding settle
  settle_interrupted before batch search (stopped acc) s s' t t' k q =
      let k' =
        release_uncommitted-Kept s.active s.ledger ports (held acc) [] s' t' (rw append-nil k) in
      (k'.same_ledger, k'.same_active)
  settle_interrupted before batch search (lost x acc) s s' t t' k q =
      let k' =
        release_uncommitted-Kept s.active s.ledger ports (held acc) [] s' t' (rw append-nil k) in
      elim (Run-cases (release_uncommitted (recording ports) (held acc) s' t').0) [
        | inl g ↦ rw (g, settle) (k'.same_ledger, k'.same_active)
        | inr g ↦ rw (g, settle) (k'.same_ledger, k'.same_active)
      ]
  settle_interrupted before batch search (accepted_all acc) s s' t t' k q =
      elim (Result-cases (commit_all h.reservation_id acc before s').0) [
        | inl (x, c) ↦ absurd (ground arith)
        | inr ((l, ps), c) ↦
            elim (Result-cases (
              create_result h (record {
                context = context;
                input_ledger = before;
                search_policy = p;
                search_batch = batch;
                search = search;
                committed_ledger = l;
                promotions = ps;
              }))) [ inl (x, v) ↦ absurd (ground arith) | inr (r, v) ↦ absurd (ground arith) ]
      ]

  -- If a call of `advance` on a workflow that tracks what was obtained is cancelled, wherever that happens, then the
  -- committed ledger and the active worlds are as they were: nothing of the call is committed.
  pub promote_batch_cancelled :
      (batch : List SearchCandidate) (s : Workflow) (t : Trail E)
      → IsTracked s t
      → (promote_batch (recording ports) h p context batch s t).0 ≡ interrupted
      → let (_, s', _) = promote_batch (recording ports) h p context batch s t in
        (s'.ledger ≡ s.ledger) × (s'.active ≡ s.active)
  unfolding promote_batch
  promote_batch_cancelled batch s t k q = elim (Result-cases (validate_batch batch)) [
    | inl (x, b) ↦ rw (b, promote_batch) (refl, refl)
    | inr (closed, b) ↦ elim (Result-cases (advance h p closed s.ledger)) [
      | inl (x, a) ↦ rw (b, a, promote_batch) (refl, refl)
      | inr (search, a) ↦
          let new = drop (length s.ledger.reservations) search.ledger.reservations in
          let out = promote_all (recording ports) (candidates_by closed []) new [] s t in
          let kept =
            (promote_all-Kept s.active s.ledger ports (candidates_by closed []) new [] s t
              (IsTracked-Kept s t k) tt).0 in
          rw (b, a, promote_batch)
            (settle_interrupted s.ledger closed search out.0 s out.1 t out.2 kept (ground arith))
    ]
  ]
