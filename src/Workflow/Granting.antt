-- ===== src/Workflow/Granting.antt =====
-- The loop of `advance` of orchestrator.py that commits: the reservations it asks for, and its records.
use stateweaver.Common.{
  ◌+◌, ◌≡◌, refl, sym, subst, true, some, List, [], ◌∷◌, ◌++◌, ok, length, arith, All,
}
use mathlib.Core.List.{append_assoc}
use stateweaver.Common.Dict.{Dict, lookup}
use stateweaver.Search.Budget.{
  BudgetReservation, BudgetLedger, keys_unique, ReservationId, new_reservation, reserve,
}
use stateweaver.Search.Budget.Spending.{WithinLimits, extended}
use stateweaver.Search.Budget.Reserve.{IsValid, reserve_iff, reserve_spends}
use stateweaver.Search.Models.{SearchCandidate}
use stateweaver.Workflow.Models.{PromotionRecord, validate_promotion, validate_capture_receipt}
use stateweaver.Workflow.State.{Workflow, Accepted, accepts_capture}
use stateweaver.Workflow.Advance.{record_of, activated, commit_all}
use stateweaver.Workflow.Picked.{IsAdmitted, Picks, pick_none, pick_later, pick_this}
use stateweaver.Workflow.Affordable.{
  Thinned, Thinned-place, Thinned-more, WithinLimits-Thinned, any-Thinned, ledger_of,
  keys_unique-before, get_last-append,
}
use stateweaver.Search.Budget.Binding.{IsBound, IsCollisionFree, IsBound-fresh, IsBound-append}

-- The record of an admitted entry is accepted.
pub IsAdmitted-validate_promotion :
    (c : SearchCandidate) (r q : BudgetReservation) (x : Accepted)
    → IsAdmitted c r x
    → validate_promotion (record_of x q) ≡ ok (record_of x q)
unfolding validate_promotion
IsAdmitted-validate_promotion c r q x a =
    ground (arith, a.of_candidate, a.requested, a.for_candidate, a.for_tier, a.same_state, bound)
  where
    bound :
        (x.receipt.allocation_id ≡ x.allocation.allocation_id)
        × (x.receipt.candidate_id ≡ c.candidate_id)
        × (x.receipt.state_fingerprint ≡ c.state_fingerprint)
        × (x.receipt.oracle_passed ≡ true)
    bound = unfold accepts_capture validate_capture_receipt in ground (arith, a.captured)

-- The cost of a reservation is that of its candidate.
abbrev pub IsPriced : Dict SearchCandidate → BudgetReservation → Type 0
IsPriced candidates r =
    (c : SearchCandidate) × (lookup r.candidate_id candidates ≡ some c)
    × (r.candidate_id ≡ c.candidate_id)
    × (r.cost ≡ c.promotion_cost)

module _ (i : ReservationId) (free : IsCollisionFree i) where
  -- One more reservation, of which the whole round had room.
  reserve-granted :
      (m : BudgetLedger) (seen rest : List BudgetReservation) (r : BudgetReservation)
      → IsValid m
      → IsBound i m.reservations
      → Thinned m.reservations seen
      → keys_unique (seen ++ r ∷ rest) ≡ true
      → WithinLimits (ledger_of m.limits (seen ++ r ∷ rest))
      → reserve i m r.candidate_id r.target_tier r.cost
        ≡ ok (extended i m r.candidate_id r.target_tier r.cost)
  reserve-granted m seen rest r v b th k w =
      (reserve_iff i m r.candidate_id r.target_tier r.cost v (
          IsBound-fresh i m.reservations 1 (length m.reservations + 1) r.candidate_id r.target_tier
            r.cost free b v.numbered (omega arith))).1
        (
          any-Thinned r.candidate_id r.target_tier m.reservations seen th
              (keys_unique-before seen rest r k),
          WithinLimits-Thinned m.limits _ (seen ++ r ∷ rest)
              (Thinned-place m.reservations seen rest
                (new_reservation i r.candidate_id r.target_tier r.cost m.reservations) r refl refl
                refl th)
              w,
        )

  module _ (candidates : Dict SearchCandidate) where
    pub commit_all_total :
        (acc : List Accepted) (seen new : List BudgetReservation) (m : BudgetLedger) (s : Workflow)
        → IsValid m
        → IsBound i m.reservations
        → Thinned m.reservations seen
        → keys_unique (seen ++ new) ≡ true
        → WithinLimits (ledger_of m.limits (seen ++ new))
        → All (IsPriced candidates) new
        → Picks candidates acc new
        → (l : BudgetLedger) × (ps : List PromotionRecord) × ((commit_all i acc m s).0 ≡ ok (l, ps))
          × IsValid l
          × IsBound i l.reservations
    unfolding commit_all
    commit_all_total _ seen new m s v b th k w priced pick_none = (m, [], refl, v, b)
    commit_all_total acc seen (r ∷ new) m s v b th k w priced (pick_later p) =
        commit_all_total acc (seen ++ r ∷ []) new m s v b
          (Thinned-more m.reservations seen (r ∷ []) th) (rw (append_assoc seen (r ∷ []) new) k)
          (subst (λ z. WithinLimits (ledger_of m.limits z)) (sym (append_assoc seen (r ∷ []) new))
            w)
          priced.1 p
    commit_all_total (x ∷ acc) seen (r ∷ new) m s v b th k w priced (pick_this l a p) =
        let (c, at, same_id, same_cost) = priced.0 in
        let same_c : x.candidate ≡ c = ground arith in
        let q = new_reservation i r.candidate_id r.target_tier r.cost m.reservations in
        let granted = reserve-granted m seen new r v b th k w in
        let asked : reserve i m x.candidate.candidate_id x.request.target_tier
              x.candidate.promotion_cost
            ≡ ok (extended i m r.candidate_id r.target_tier r.cost) =
          ground (arith, granted, a.requested) in
        let spent = reserve_spends i m _ r.candidate_id r.target_tier r.cost granted in
        let (l', ps, done, v', b') =
          commit_all_total acc (seen ++ r ∷ []) new
            (extended i m r.candidate_id r.target_tier r.cost) (activated x s) spent.1
            (IsBound-append i m.reservations q b refl)
            (Thinned-place m.reservations seen [] q r refl refl refl th)
            (rw (append_assoc seen (r ∷ []) new) k)
            (subst (λ z. WithinLimits (ledger_of m.limits z)) (sym (append_assoc seen (r ∷ []) new))
              w)
            priced.1 p in
        (
          l',
          record_of x q ∷ ps,
          rw (
            commit_all,
            asked,
            get_last-append m.reservations q,
            IsAdmitted-validate_promotion x.candidate r q x a,
            done,
          ),
          v',
          b',
        )
