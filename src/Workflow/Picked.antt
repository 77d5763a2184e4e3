-- ===== src/Workflow/Picked.antt =====
-- What the loop of `advance` of orchestrator.py accepts of the new reservations.
use stateweaver.Common.{
  ◌≡◌, refl, sym, subst, true, some, List, [], ◌∷◌, ◌++◌, ok, arith, inl, inr, ℕ, Bool-cases,
  Result-cases, ◌⊎◌, Option-cases,
}
use mathlib.Core.List.{append_assoc, append-nil}
use stateweaver.Common.Dict.{Dict, lookup}
use stateweaver.Replay.Ports.{Answer, returned, timed_out, cancelled, raised}
use stateweaver.Search.Budget.{BudgetReservation}
use stateweaver.Search.Models.{SearchCandidate}
use stateweaver.Workflow.Models.{AllocatedWorld, CaptureReceipt, WorldPorts}
use stateweaver.Workflow.State.{
  Workflow, Accepted, has_id, remove_accepted, validate_allocation, collision, violated,
  accepts_capture, workflow_gate, request_for,
}
use stateweaver.Workflow.Allocation.{
  Run-cases, handle_collision, handle_failure, after_capture, after_allocate, promote_one, at_end,
  promote_all,
}

-- An entry for the reservation of a candidate: its request, and what arrived for it.
pub record IsAdmitted (c : SearchCandidate) (r : BudgetReservation) (x : Accepted) : Type 0 where
  pub of_candidate : x.candidate ≡ c
  pub requested : x.request ≡ request_for c r
  pub gates_open : workflow_gate c r.target_tier ≡ ok tt
  pub for_candidate : x.allocation.candidate_id ≡ c.candidate_id
  pub for_tier : x.allocation.target_tier ≡ r.target_tier
  pub same_state : x.allocation.state_fingerprint ≡ c.state_fingerprint
  pub captured : accepts_capture c (request_for c r) x.allocation x.receipt ≡ true

-- What a step of the loop does to the accepted entries.
abbrev pub Grown : SearchCandidate → BudgetReservation → List Accepted → List Accepted → Type 0
Grown c r acc acc' =
    (acc' ≡ acc)
    ⊎ ((k : ℕ) × (acc' ≡ remove_accepted k acc))
    ⊎ ((x : Accepted) × (acc' ≡ acc ++ x ∷ []) × IsAdmitted c r x)

module _ {E : Type 0} (ports : WorldPorts E) (c : SearchCandidate) (r : BudgetReservation) where
  after_capture-Grown :
      (b : AllocatedWorld) (acc : List Accepted) (s : Workflow) (a : Answer CaptureReceipt) (e : E)
      → workflow_gate c r.target_tier ≡ ok tt
      → validate_allocation (request_for c r) b acc s ≡ ok tt
      → Grown c r acc (after_capture ports c (request_for c r) b acc s a e).1
  unfolding after_capture handle_failure
  after_capture-Grown b acc s (returned m) e g v =
      elim (Bool-cases (accepts_capture c (request_for c r) b m)) [
        | inl p ↦ rw p (inr (inr (_, refl, admitted p)))
        | inr p ↦ rw p (inl refl)
      ]
    where
      bound :
          (b.candidate_id ≡ c.candidate_id)
          × (b.target_tier ≡ r.target_tier)
          × (b.state_fingerprint ≡ c.state_fingerprint)
      bound = unfold validate_allocation in ground arith

      admitted :
          accepts_capture c (request_for c r) b m ≡ true
          → IsAdmitted c r
              (record { candidate = c; request = request_for c r; allocation = b; receipt = m })
      admitted p = record {
        of_candidate = refl;
        requested = refl;
        gates_open = g;
        for_candidate = bound.0;
        for_tier = bound.1;
        same_state = bound.2;
        captured = p;
      }
  after_capture-Grown b acc s cancelled e g v = inl refl
  after_capture-Grown b acc s timed_out e g v = inl refl
  after_capture-Grown b acc s (raised n) e g v = inl refl

  after_allocate-Grown :
      (acc : List Accepted) (s : Workflow) (a : Answer AllocatedWorld) (e : E)
      → workflow_gate c r.target_tier ≡ ok tt
      → Grown c r acc (after_allocate ports c (request_for c r) acc s a e).1
  unfolding after_allocate handle_failure handle_collision
  after_allocate-Grown acc s (returned b) e g =
      elim (Result-cases (validate_allocation (request_for c r) b acc s)) [
        | inl (collision current, p) ↦ rw (p, after_allocate) (inr (inl (b.allocation_id, refl)))
        | inl (violated, p) ↦ rw (p, after_allocate) (inl refl)
        | inr (u, p) ↦ rw (p, after_allocate) (after_capture-Grown b acc s _ _ g p)
      ]
  after_allocate-Grown acc s cancelled e g = inl refl
  after_allocate-Grown acc s timed_out e g = inl refl
  after_allocate-Grown acc s (raised n) e g = inl refl

  promote_one-Grown :
      (acc : List Accepted) (s : Workflow) (e : E) → Grown c r acc (promote_one ports c r acc s e).1
  unfolding promote_one
  promote_one-Grown acc s e = elim (Result-cases (workflow_gate c r.target_tier)) [
    | inl (g, p) ↦ rw (p, promote_one) (inl refl)
    | inr (u, p) ↦ rw (p, promote_one) (after_allocate-Grown acc s _ _ p)
  ]

module _ (candidates : Dict SearchCandidate) where
  -- The entries answer some of the reservations, in order.
  pub data Picks : List Accepted → List BudgetReservation → Type 0 where
    pick_none : {rs : List BudgetReservation} → Picks [] rs
    pick_later :
        {r : BudgetReservation} {acc : List Accepted} {rs : List BudgetReservation}
        → Picks acc rs
        → Picks acc (r ∷ rs)
    pick_this :
        {x : Accepted} {r : BudgetReservation} {acc : List Accepted} {rs : List BudgetReservation}
        → lookup r.candidate_id candidates ≡ some x.candidate
        → IsAdmitted x.candidate r x
        → Picks acc rs
        → Picks (x ∷ acc) (r ∷ rs)

  Picks-more :
      (acc : List Accepted) (rs qs : List BudgetReservation) → Picks acc rs → Picks acc (rs ++ qs)
  Picks-more _ rs qs pick_none = pick_none
  Picks-more acc (r ∷ rs) qs (pick_later p) = pick_later (Picks-more acc rs qs p)
  Picks-more (x ∷ acc) (r ∷ rs) qs (pick_this l a p) = pick_this l a (Picks-more acc rs qs p)

  Picks-last :
      (acc : List Accepted) (rs : List BudgetReservation) (x : Accepted) (r : BudgetReservation)
      → lookup r.candidate_id candidates ≡ some x.candidate
      → IsAdmitted x.candidate r x
      → Picks acc rs
      → Picks (acc ++ x ∷ []) (rs ++ r ∷ [])
  Picks-last _ [] x r l a pick_none = pick_this l a pick_none
  Picks-last _ (q ∷ rs) x r l a pick_none = pick_later (Picks-last [] rs x r l a pick_none)
  Picks-last acc (q ∷ rs) x r l a (pick_later p) = pick_later (Picks-last acc rs x r l a p)
  Picks-last (y ∷ acc) (q ∷ rs) x r l a (pick_this m b p) =
      pick_this m b (Picks-last acc rs x r l a p)

  Picks-remove :
      (k : ℕ) (acc : List Accepted) (rs : List BudgetReservation)
      → Picks acc rs
      → Picks (remove_accepted k acc) rs
  unfolding remove_accepted
  Picks-remove k _ rs pick_none = pick_none
  Picks-remove k acc (r ∷ rs) (pick_later p) = pick_later (Picks-remove k acc rs p)
  Picks-remove k (x ∷ acc) (r ∷ rs) (pick_this l a p) = elim (Bool-cases (has_id k x.allocation)) [
    | inl e ↦ rw e (pick_later p)
    | inr e ↦ rw e (pick_this l a (Picks-remove k acc rs p))
  ]

  module _ {E : Type 0} (ports : WorldPorts E) where
    promote_one-Picks :
        (c : SearchCandidate) (r : BudgetReservation) (acc : List Accepted)
        (seen : List BudgetReservation) (s : Workflow) (e : E)
        → lookup r.candidate_id candidates ≡ some c
        → Picks acc seen
        → Picks (promote_one ports c r acc s e).1 (seen ++ r ∷ [])
    promote_one-Picks c r acc seen s e l p = elim (promote_one-Grown ports c r acc s e) [
      | inl q ↦ rw q (Picks-more acc seen (r ∷ []) p)
      | inr (inl (k, q)) ↦
          rw q (Picks-more (remove_accepted k acc) seen (r ∷ []) (Picks-remove k acc seen p))
      | inr (inr (x, q, a)) ↦ rw q (
          Picks-last acc seen x r (rw a.of_candidate l)
            (subst (λ d. IsAdmitted d r x) (sym a.of_candidate) a) p)
    ]

    pub promote_all-Picks :
        (rs seen : List BudgetReservation) (acc : List Accepted) (s : Workflow) (e : E)
        → Picks acc seen
        → Picks (at_end (promote_all ports candidates rs acc s e).0) (seen ++ rs)
    unfolding promote_all
    promote_all-Picks [] seen acc s e p = rw append-nil p
    promote_all-Picks (r ∷ rs) seen acc s e p =
        elim (Option-cases (lookup r.candidate_id candidates)) [
          | inl q ↦ rw (q, promote_all) (Picks-more acc seen (r ∷ rs) p)
          | inr (c, q) ↦
              let out = promote_one ports c r acc s e in
              let p' = promote_one-Picks c r acc seen s e q p in
              elim (Run-cases out.0) [
                | inl g ↦
                    rw (q, g, promote_all)
                      (subst
                        (λ z.
                          Picks (at_end (promote_all ports candidates rs out.1 out.2 out.3).0) z)
                        (append_assoc seen (r ∷ []) rs)
                        (promote_all-Picks rs (seen ++ r ∷ []) out.1 out.2 out.3 p'))
                | inr g ↦
                    rw (q, g, promote_all)
                      (subst (λ z. Picks out.1 z) (append_assoc seen (r ∷ []) rs)
                        (Picks-more out.1 (seen ++ r ∷ []) rs p'))
              ]
        ]
