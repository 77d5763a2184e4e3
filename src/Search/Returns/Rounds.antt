-- ===== src/Search/Returns/Rounds.antt =====
-- The selection loop of `advance` in controller.py on a valid ledger: it runs to its end.
use stateweaver.Common.{
  ℕ, suc, ◌+◌, ◌≡◌, refl, sym, subst, true, none, some, List, [], ◌∷◌, arith, inl, inr, In,
  append-In, ok, Bool-cases, any, length, leb,
}
use stateweaver.Common.Dict.{Dict, dict_values}
use stateweaver.Search.Budget.{
  WorldTier, BudgetReservation, BudgetLedger, is_for, can_reserve, reserve, new_reservation,
}
use stateweaver.Search.Budget.Binding.{IsBound, IsCollisionFree, IsBound-fresh, IsBound-append}
use stateweaver.Search.Budget.Spending.{extended}
use stateweaver.Search.Budget.Reserve.{IsValid, reserve_iff, can_reserve_iff, reserve_spends}
use stateweaver.Search.Models.{
  BeamSearchPolicy, SearchCandidate, SearchDecision, ReasonCode, beam_capacity, already_promoted,
  budget_exceeded,
}
use stateweaver.Search.Controller.{Digests, pruned, promotion}
use stateweaver.Search.Selection.{is_promote}
use stateweaver.Search.Beam.{select_one, select, granted}

is_for_own :
    (k : ℕ) (t : WorldTier) (r : BudgetReservation)
    → r.candidate_id ≡ k
    → r.target_tier ≡ t
    → is_for k t r ≡ true
is_for_own k t r e f = ground arith

-- A decision that promotes names a reservation of its candidate for its tier.
abbrev pub IsBacked : BudgetLedger → SearchDecision → Type 0
IsBacked l d =
    is_promote d.disposition ≡ true
    → (r : BudgetReservation) × In r l.reservations
      × (d.reservation_id ≡ some r.reservation_id)
      × (is_for d.candidate_id d.target_tier r ≡ true)

module _ (h : Digests) (p : BeamSearchPolicy) (target : WorldTier) (limit : ℕ)
    (free : IsCollisionFree h.reservation_id) where
  reserve_total :
      (c : SearchCandidate) (l : BudgetLedger)
      → IsValid l
      → IsBound h.reservation_id l.reservations
      → can_reserve l target c.promotion_cost c.candidate_id ≡ true
      → reserve h.reservation_id l c.candidate_id target c.promotion_cost
        ≡ ok (extended h.reservation_id l c.candidate_id target c.promotion_cost)
  reserve_total c l v b q =
      (reserve_iff h.reservation_id l c.candidate_id target c.promotion_cost v (
          IsBound-fresh h.reservation_id l.reservations 1 (length l.reservations + 1) c.candidate_id
            target c.promotion_cost free b v.numbered (omega arith))).1
        ((can_reserve_iff h.reservation_id l c.candidate_id target c.promotion_cost).0 q)

  -- What a round leaves.
  pub record Round (c : SearchCandidate) (l : BudgetLedger) (n : ℕ) : Type 0 where
    pub decision : SearchDecision
    pub after : BudgetLedger
    pub count : ℕ
    pub runs : select_one h p target limit c l n ≡ ok (decision, after, count)
    pub valid : IsValid after
    pub bound : IsBound h.reservation_id after.reservations
    pub backed : IsBacked after decision
    pub kept : (r : BudgetReservation) → In r l.reservations → In r after.reservations

  pruned-Round :
      (c : SearchCandidate) (l : BudgetLedger) (n : ℕ) (r : ReasonCode)
      → IsValid l
      → IsBound h.reservation_id l.reservations
      → select_one h p target limit c l n ≡ ok (pruned h p c target (r ∷ []) none, l, n)
      → Round c l n
  unfolding pruned
  pruned-Round c l n r v b e = record {
    decision = pruned h p c target (r ∷ []) none;
    after = l;
    count = n;
    runs = e;
    valid = v;
    bound = b;
    backed = λ q. ground arith;
    kept = λ x i. i;
  }

  promotion-Round :
      (c : SearchCandidate) (l : BudgetLedger) (n : ℕ)
      → IsValid l
      → IsBound h.reservation_id l.reservations
      → reserve h.reservation_id l c.candidate_id target c.promotion_cost
        ≡ ok (extended h.reservation_id l c.candidate_id target c.promotion_cost)
      → select_one h p target limit c l n
        ≡ ok (
            granted h p target c n l
              (extended h.reservation_id l c.candidate_id target c.promotion_cost))
      → Round c l n
  unfolding promotion
  promotion-Round c l n v b g e =
      let r =
        new_reservation h.reservation_id c.candidate_id target c.promotion_cost l.reservations in
      record {
        decision = promotion h p c target r.reservation_id;
        after = extended h.reservation_id l c.candidate_id target c.promotion_cost;
        count = suc n;
        runs = e;
        valid = (reserve_spends h.reservation_id l _ c.candidate_id target c.promotion_cost g).1;
        bound = IsBound-append h.reservation_id l.reservations r b refl;
        backed = λ q. (
          r,
          append-In r l.reservations (r ∷ []) (inr (inl refl)),
          refl,
          is_for_own c.candidate_id target r refl refl,
        );
        kept = λ x i. append-In x l.reservations (r ∷ []) (inl i);
      }

  select_one_total :
      (c : SearchCandidate) (l : BudgetLedger) (n : ℕ)
      → IsValid l
      → IsBound h.reservation_id l.reservations
      → Round c l n
  unfolding select_one
  select_one_total c l n v b = elim (Bool-cases (leb limit n)) [
    | inl q ↦ pruned-Round c l n beam_capacity v b (rw q refl)
    | inr q ↦ elim (Bool-cases (any (is_for c.candidate_id target) l.reservations)) [
      | inl k ↦ pruned-Round c l n already_promoted v b (rw (q, k) refl)
      | inr k ↦ elim (Bool-cases (can_reserve l target c.promotion_cost c.candidate_id)) [
        | inl f ↦
            promotion-Round c l n v b (reserve_total c l v b f)
              (rw (q, k, f, reserve_total c l v b f) refl)
        | inr f ↦ pruned-Round c l n budget_exceeded v b (rw (q, k, f) refl)
      ]
    ]
  ]

  -- The loop runs to its end, and each decision of it that promotes is backed by the ledger after.
  pub record Loop (cs : List SearchCandidate) (l : BudgetLedger) (n : ℕ) : Type 0 where
    pub decisions : Dict SearchDecision
    pub last : BudgetLedger
    pub returns : select h p target limit cs l n ≡ ok (decisions, last)
    pub last_valid : IsValid last
    pub all_backed : (d : SearchDecision) → In d (dict_values decisions) → IsBacked last d
    pub all_kept : (r : BudgetReservation) → In r l.reservations → In r last.reservations

  pub select_total :
      (cs : List SearchCandidate) (l : BudgetLedger) (n : ℕ)
      → IsValid l
      → IsBound h.reservation_id l.reservations
      → Loop cs l n
  unfolding select
  select_total [] l n v b = record {
    decisions = [];
    last = l;
    returns = refl;
    last_valid = v;
    all_backed = λ d i. absurd i;
    all_kept = λ r i. i;
  }
  select_total (c ∷ cs) l n v b =
      let o : Round c l n = select_one_total c l n v b in
      let k : Loop cs o.after o.count = select_total cs o.after o.count o.valid o.bound in
      record {
        decisions = (c.candidate_id, o.decision) ∷ k.decisions;
        last = k.last;
        returns = rw (o.runs, k.returns) refl;
        last_valid = k.last_valid;
        all_backed = λ d i. elim i [
          | inl q ↦
              subst (IsBacked k.last) (sym q)
                (λ e. let (r, at, named, own) = o.backed e in (r, k.all_kept r at, named, own))
          | inr j ↦ k.all_backed d j
        ];
        all_kept = λ r i. k.all_kept r (o.kept r i);
      }
