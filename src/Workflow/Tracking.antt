-- ===== src/Workflow/Tracking.antt =====
-- The worlds that a workflow tracks between two calls of orchestrator.py, and the loop that commits.
use stateweaver.Common.{
  ℕ, suc, ◌+◌, ◌≤◌, ◌≡◌, refl, sym, subst, none, some, List, [], ◌∷◌, ok, arith, inl, inr,
  Result-cases, Option-cases,
}
use stateweaver.Common.Dict.{Dict, lookup, insert}
use stateweaver.Search.Budget.{BudgetReservation, BudgetLedger, ReservationId, reserve}
use stateweaver.Workflow.Models.{AllocatedWorld, PromotionRecord, validate_promotion}
use stateweaver.Workflow.State.{Workflow, values, Accepted, held}
use stateweaver.Workflow.Advance.{get_last, record_of, activated, commit_all}
use stateweaver.Workflow.Trail.{
  Trail, times, times-insert, NoTwice, IsSeparate, insert-IsSeparate, Covers, insert-Covers,
  IsFresh, insert-IsFresh,
}
use stateweaver.Workflow.Ownership.{Kept}

-- Between two calls: the active worlds stand under different identifiers and have different sibling
-- identities, which are known; the keys of the worlds to be cleaned up differ and the next token is new; and the worlds that
-- were obtained are those that were released and those that are tracked, each as often.
pub record IsTracked {E : Type 0} (s : Workflow) (t : Trail E) : Type 0 where
  pub active_apart : IsSeparate s.active
  pub known : Covers s.identities (values s.active)
  pub cleanup_apart : NoTwice s.cleanup_pending
  pub tokens_new : (k : ℕ) → suc s.cleanup_token ≤ k → lookup k s.cleanup_pending ≡ none
  pub balanced :
      (a : AllocatedWorld)
      → times a t.obtained
        ≡ times a t.given_back + (times a (values s.active) + times a (values s.cleanup_pending))

validate_promotion_same : (x y : PromotionRecord) → validate_promotion x ≡ ok y → y ≡ x
unfolding validate_promotion
validate_promotion_same x y e = ground arith

-- One round of the commitment that succeeds.
pub record Round (i : ReservationId) (x : Accepted) (acc : List Accepted) (m l : BudgetLedger)
    (s : Workflow) (ps : List PromotionRecord) : Type 0 where
  pub next : BudgetLedger
  pub last : BudgetReservation
  pub others : List PromotionRecord
  pub reserved :
      reserve i m x.candidate.candidate_id x.request.target_tier x.candidate.promotion_cost
      ≡ ok next
  pub is_last : get_last next.reservations ≡ some last
  pub goes_on : (commit_all i acc next (activated x s)).0 ≡ ok (l, others)
  pub left : (commit_all i (x ∷ acc) m s).1 ≡ (commit_all i acc next (activated x s)).1
  pub promoted : ps ≡ record_of x last ∷ others

pub commit_all-Round :
    (i : ReservationId) (x : Accepted) (acc : List Accepted) (m l : BudgetLedger) (s : Workflow)
    (ps : List PromotionRecord)
    → (commit_all i (x ∷ acc) m s).0 ≡ ok (l, ps)
    → Round i x acc m l s ps
unfolding commit_all
commit_all-Round i x acc m l s ps e =
    elim (Result-cases
      (reserve i m x.candidate.candidate_id x.request.target_tier x.candidate.promotion_cost)) [
        | inl (z, p) ↦ absurd (ground arith)
        | inr (m', p) ↦ elim (Option-cases (get_last m'.reservations)) [
          | inl q ↦ absurd (ground arith)
          | inr (r, q) ↦ elim (Result-cases (validate_promotion (record_of x r))) [
            | inl (z, v) ↦ absurd (ground arith)
            | inr (u, v) ↦ elim (Result-cases (commit_all i acc m' (activated x s)).0) [
              | inl (z, c) ↦ absurd (ground arith)
              | inr ((l', qs), c) ↦ record {
                next = m';
                last = r;
                others = qs;
                reserved = p;
                is_last = q;
                goes_on = ground arith;
                left = ground arith;
                promoted = ground (arith, validate_promotion_same (record_of x r) u v);
              }
            ]
          ]
        ]
      ]

module _ {E : Type 0} where
  pub IsTracked-Kept : (s : Workflow) (t : Trail E) → IsTracked s t → Kept s.active s.ledger s t []
  IsTracked-Kept s t k = record {
    same_active = refl;
    same_ledger = refl;
    known = k.known;
    cleanup_apart = k.cleanup_apart;
    tokens_new = k.tokens_new;
    balanced = λ a. omega (arith, k.balanced a);
  }

  pub Kept-IsTracked :
      (base : Dict AllocatedWorld) (l : BudgetLedger) (s : Workflow) (t : Trail E)
      → Kept base l s t []
      → IsSeparate base
      → IsTracked s t
  Kept-IsTracked base l s t k n = record {
    active_apart = subst IsSeparate (sym k.same_active) n;
    known = k.known;
    cleanup_apart = k.cleanup_apart;
    tokens_new = k.tokens_new;
    balanced = λ a. omega (arith, k.balanced a);
  }

  activated-Kept :
      (base : Dict AllocatedWorld) (l : BudgetLedger) (x : Accepted) (rest : List AllocatedWorld)
      (s : Workflow) (t : Trail E)
      → Kept base l s t (x.allocation ∷ rest)
      → lookup x.allocation.allocation_id base ≡ none
      → Kept (insert x.allocation.allocation_id x.allocation base) l (activated x s) t rest
  activated-Kept base l x rest s t k n = record {
    same_active = rw k.same_active refl;
    same_ledger = k.same_ledger;
    known = insert-Covers s.identities x.allocation s.active k.known;
    cleanup_apart = k.cleanup_apart;
    tokens_new = k.tokens_new;
    balanced = λ a. omega (
      arith,
      k.balanced a,
      times-insert a x.allocation.allocation_id x.allocation s.active (rw k.same_active n),
    );
  }

  pub commit_all-Kept :
      (i : ReservationId) (base : Dict AllocatedWorld) (l0 : BudgetLedger) (acc : List Accepted)
      (m l : BudgetLedger) (s : Workflow) (t : Trail E) (ps : List PromotionRecord)
      → Kept base l0 s t (held acc)
      → IsFresh base acc
      → IsSeparate base
      → (commit_all i acc m s).0 ≡ ok (l, ps)
      → IsTracked (commit_all i acc m s).1 t
  commit_all-Kept i base l0 [] m l s t ps k f n e =
      unfold commit_all in Kept-IsTracked base l0 s t k n
  commit_all-Kept i base l0 (x ∷ acc) m l s t ps k f n e =
      let r = commit_all-Round i x acc m l s ps e in
      rw r.left (
        commit_all-Kept i (insert x.allocation.allocation_id x.allocation base) l0 acc r.next l
          (activated x s) t r.others (activated-Kept base l0 x (held acc) s t k f.0)
          (insert-IsFresh base x.allocation acc f.3 f.2)
          (insert-IsSeparate x.allocation.allocation_id x.allocation base f.0 f.1 n) r.goes_on)
