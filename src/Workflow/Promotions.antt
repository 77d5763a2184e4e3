-- ===== src/Workflow/Promotions.antt =====
-- What a promotion is bound to, and what the commitment of `advance` records.
pub mod Returned
use stateweaver.Common.{
  ℕ, ◌≤◌, ◌≡◌, refl, sym, ap, subst, ◌∙◌, true, some, List, [], ◌∷◌, ◌++◌, ok, arith, In, inl, inr,
  contains, length, ◌⊎◌, Result-cases,
}
use mathlib.Core.List.{append_assoc, append-nil}
use stateweaver.Common.Dict.{Dict, lookup, insert, lookup-insert}
use stateweaver.Search.Budget.{BudgetReservation, BudgetLedger, ReservationId, new_reservation}
use stateweaver.Search.Budget.Spending.{reserve_inv}
use stateweaver.Search.Models.{BeamSearchPolicy, SearchCandidate, width}
use stateweaver.Search.Controller.{Digests}
use stateweaver.Search.Beam.{validate_batch, by_identifier}
use stateweaver.Search.Tracing.{In-by_identifier}
use stateweaver.Search.Selection.{SearchResult, advance}
use stateweaver.Search.Advance.{advance_budget}
use stateweaver.Workflow.Models.{WorldPorts, PromotionRecord, validate_capture_receipt}
use stateweaver.Workflow.Relations.{
  drop, candidates_by, WorkflowResult, create_result, validate_relations,
}
use stateweaver.Workflow.State.{Workflow, Accepted, held, accepts_capture, workflow_gate}
use stateweaver.Workflow.Allocation.{
  LoopEnd, accepted_all, lost, stopped, at_end, promote_all, Run-cases, release_uncommitted,
}
use stateweaver.Workflow.Advance.{settle, promote_batch, commit_all, promotes, record_of, activated}
use stateweaver.Workflow.Picked.{
  IsAdmitted, Picks, pick_none, pick_later, pick_this, promote_all-Picks,
}
use stateweaver.Workflow.Affordable.{get_last-append}
use stateweaver.Workflow.Tracking.{commit_all-Round}
use stateweaver.Workflow.Sound.{drop-append}

-- A promotion, and the reservation that was committed for it.
pub record IsPromotion (cs : List SearchCandidate) (p : PromotionRecord) (r : BudgetReservation)
    : Type 0 where
  pub candidate : SearchCandidate
  pub listed : In candidate cs
  pub of_candidate : p.candidate_id ≡ candidate.candidate_id
  pub gates_open : workflow_gate candidate p.target_tier ≡ ok tt
  pub reserved :
      (p.reservation_id ≡ r.reservation_id)
      × (r.candidate_id ≡ p.candidate_id)
      × (r.target_tier ≡ p.target_tier)
      × (r.cost ≡ candidate.promotion_cost)
  pub allocated :
      (p.allocation.candidate_id ≡ p.candidate_id)
      × (p.allocation.target_tier ≡ p.target_tier)
      × (p.allocation.state_fingerprint ≡ candidate.state_fingerprint)
  pub captured :
      (p.capture.allocation_id ≡ p.allocation.allocation_id)
      × (p.capture.compiler_root.world_id ≡ p.allocation.allocation_id)
      × (p.capture.state_fingerprint ≡ candidate.state_fingerprint)
      × (p.capture.oracle_passed ≡ true)
      × (contains candidate.gates.evidence_ids p.capture.evidence_ref ≡ true)
      × (contains candidate.gates.oracle_refs p.capture.oracle_ref ≡ true)

-- As many promotions as reservations, each with its own.
abbrev pub ArePromoted :
    List SearchCandidate → List PromotionRecord → List BudgetReservation → Type 0
ArePromoted cs [] [] = Unit
ArePromoted cs [] (r ∷ rs) = ⊥
ArePromoted cs (p ∷ ps) [] = ⊥
ArePromoted cs (p ∷ ps) (r ∷ rs) = IsPromotion cs p r × ArePromoted cs ps rs

IsAdmitted-IsPromotion :
    (cs : List SearchCandidate) (i : ReservationId) (x : Accepted) (r : BudgetReservation)
    (rs : List BudgetReservation)
    → In x.candidate cs
    → IsAdmitted x.candidate r x
    → let q =
        new_reservation i x.candidate.candidate_id x.request.target_tier x.candidate.promotion_cost
          rs in
      IsPromotion cs (record_of x q) q
unfolding accepts_capture validate_capture_receipt
IsAdmitted-IsPromotion cs i x r rs at a = record {
  candidate = x.candidate;
  listed = at;
  of_candidate = refl;
  gates_open = rw a.requested a.gates_open;
  reserved = (refl, refl, refl, refl);
  allocated = (a.for_candidate, ground (arith, a.for_tier, a.requested), a.same_state);
  captured = ground (arith, a.captured);
}

lookup-In_candidates :
    (k : ℕ) (c : SearchCandidate) (cs : List SearchCandidate) (table : Dict SearchCandidate)
    → lookup k (candidates_by cs table) ≡ some c
    → In c cs ⊎ (lookup k table ≡ some c)
unfolding candidates_by
lookup-In_candidates k c [] table e = inr e
lookup-In_candidates k c (d ∷ cs) table e = ground (
  arith,
  lookup-In_candidates k c cs (insert d.candidate_id d table),
  lookup-insert k d.candidate_id d table,
)

module _ (cs : List SearchCandidate) (i : ReservationId) where
  pub commit_all-ArePromoted :
      (acc : List Accepted) (new : List BudgetReservation) (m l : BudgetLedger) (s : Workflow)
      (ps : List PromotionRecord)
      → Picks (candidates_by (by_identifier cs) []) acc new
      → (commit_all i acc m s).0 ≡ ok (l, ps)
      → (added : List BudgetReservation) × (l ≡ record m { reservations = m.reservations ++ added })
        × ArePromoted cs ps added
        × (length ps ≤ length new)
  commit_all-ArePromoted _ new m l s ps pick_none e =
      let done : (m ≡ l) × (ps ≡ []) = unfold commit_all in ground arith in
      (
        [],
        simp append-nil (ground arith),
        subst (λ z. ArePromoted cs z []) (sym done.1) tt,
        rw done.1 (omega arith),
      )
  commit_all-ArePromoted acc (r ∷ new) m l s ps (pick_later p) e =
      let (added, grown, each, short) = commit_all-ArePromoted acc new m l s ps p e in
      (added, grown, each, omega (arith, short))
  commit_all-ArePromoted (x ∷ acc) (r ∷ new) m l s ps (pick_this at a p) e =
      let d = commit_all-Round i x acc m l s ps e in
      let q =
        new_reservation i x.candidate.candidate_id x.request.target_tier x.candidate.promotion_cost
          m.reservations in
      let next =
        (reserve_inv i m d.next x.candidate.candidate_id x.request.target_tier
          x.candidate.promotion_cost d.reserved).0 in
      let last : d.last ≡ q = ground (arith, d.is_last, next, get_last-append m.reservations q) in
      let (added, grown, each, short) =
        commit_all-ArePromoted acc new d.next l (activated x s) d.others p d.goes_on in
      let listed : In x.candidate cs =
        elim (lookup-In_candidates r.candidate_id x.candidate (by_identifier cs) [] at) [
          | inl j ↦ In-by_identifier x.candidate cs j
          | inr j ↦ unfold lookup in absurd (ground arith)
        ] in
      (
        q ∷ added,
        grown
            ∙ ap (λ (z : BudgetLedger). record z { reservations = z.reservations ++ added }) next
            ∙ ap (λ rs. record m { reservations = rs })
                (append_assoc m.reservations (q ∷ []) added),
        rw (d.promoted, last) (IsAdmitted-IsPromotion cs i x r m.reservations listed a, each),
        rw d.promoted (omega (arith, short)),
      )
