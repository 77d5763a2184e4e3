-- ===== src/Search/Selected.antt =====
-- What the selection loop of `advance` guarantees: the width, the budget, and the ledger's history.
use stateweaver.Common.{
  ℕ, suc, ◌+◌, ◌≤◌, ◌<◌, ◌≡◌, ap, ◌∙◌, true, false, List, [], ◌∷◌, ◌++◌, map, ok, arith, inl, inr,
  ◌⊎◌, length, Result-cases,
}
use stateweaver.Common.Dict.{Dict, dict_values}
use mathlib.Core.List.{append_assoc, append-nil}
use stateweaver.Search.Budget.{WorldTier, BudgetReservation, BudgetLedger, reserve, new_reservation}
use stateweaver.Search.Budget.Reserve.{IsValid, reserve_spends}
use stateweaver.Search.Models.{BeamSearchPolicy, SearchCandidate, SearchDecision}
use stateweaver.Search.Controller.{Digests, pruned, promotion}
use stateweaver.Search.Selection.{is_promote, promoted_ids}
use stateweaver.Search.Beam.{select_one, select, candidate_ids}

abbrev appended_to : BudgetLedger → List BudgetReservation → BudgetLedger
appended_to m new = record m { reservations = m.reservations ++ new }

module _ (h : Digests) (p : BeamSearchPolicy) (target : WorldTier) (limit : ℕ) where
  -- A round decides on its candidate: it prunes and leaves everything, or it promotes below the width
  -- and spends the cost.
  abbrev pub Decided :
      SearchCandidate → BudgetLedger → ℕ → SearchDecision → BudgetLedger → ℕ → Type 0
  Decided c l n d l' n' =
      (d.candidate_id ≡ c.candidate_id)
      × (((is_promote d.disposition ≡ false) × (l' ≡ l) × (n' ≡ n))
          ⊎ ((is_promote d.disposition ≡ true)
              × (n < limit)
              × (n' ≡ suc n)
              × (reserve h.reservation_id l c.candidate_id target c.promotion_cost ≡ ok l')))

  select_one-Decided :
      (c : SearchCandidate) (l l' : BudgetLedger) (n n' : ℕ) (d : SearchDecision)
      → select_one h p target limit c l n ≡ ok (d, l', n')
      → Decided c l n d l' n'
  unfolding select_one pruned promotion
  select_one-Decided c l l' n n' d e =
      elim (Result-cases (reserve h.reservation_id l c.candidate_id target c.promotion_cost)) [
        | inl (x, q) ↦ ground arith
        | inr (m, q) ↦ ground arith
      ]

  -- A round and the rounds after it.
  pub select_round :
      (c : SearchCandidate) (cs : List SearchCandidate) (l l'' : BudgetLedger) (n : ℕ)
      (ds : Dict SearchDecision)
      → select h p target limit (c ∷ cs) l n ≡ ok (ds, l'')
      → (d : SearchDecision) × (l' : BudgetLedger) × (n' : ℕ) × (rest : Dict SearchDecision)
        × Decided c l n d l' n'
        × (select h p target limit cs l' n' ≡ ok (rest, l''))
        × (ds ≡ (c.candidate_id, d) ∷ rest)
  unfolding select
  select_round c cs l l'' n ds e = elim (Result-cases (select_one h p target limit c l n)) [
    | inl (x, q) ↦ absurd (ground arith)
    | inr ((d, l', n'), q) ↦ elim (Result-cases (select h p target limit cs l' n')) [
      | inl (x, r) ↦ absurd (ground arith)
      | inr ((rest, m), r) ↦
          (d, l', n', rest, select_one-Decided c l l' n n' d q, ground arith, ground arith)
    ]
  ]

  -- A valid ledger stays valid: no limit is ever passed.
  pub select-IsValid :
      (cs : List SearchCandidate) (l l' : BudgetLedger) (n : ℕ) (ds : Dict SearchDecision)
      → IsValid l
      → select h p target limit cs l n ≡ ok (ds, l')
      → IsValid l'
  select-IsValid [] l l' n ds v e = unfold select in (let q : l ≡ l' = ground arith in rw (← q) v)
  select-IsValid (c ∷ cs) l l'' n ds v e =
      let (d, l', n', rest, (_, how), r, _) = select_round c cs l l'' n ds e in
      elim how [
        | inl (_, same_ledger, _) ↦ select-IsValid cs l' l'' n' rest (rw same_ledger v) r
        | inr (_, _, _, spent) ↦
            select-IsValid cs l' l'' n' rest
              (reserve_spends h.reservation_id l l' c.candidate_id target c.promotion_cost spent).1
              r
      ]

  -- No more candidates are promoted than the width allows.
  pub select_width :
      (cs : List SearchCandidate) (l l' : BudgetLedger) (n : ℕ) (ds : Dict SearchDecision)
      → n ≤ limit
      → select h p target limit cs l n ≡ ok (ds, l')
      → n + length (promoted_ids (dict_values ds)) ≤ limit
  unfolding promoted_ids
  select_width [] l l' n ds b e = unfold select in ground arith
  select_width (c ∷ cs) l l'' n ds b e =
      let (d, l', n', rest, (_, how), r, q) = select_round c cs l l'' n ds e in
      rw q (ground (arith, select_width cs l' l'' n' rest))

  -- The ledger grows at its end, by one reservation for each candidate that is promoted.
  pub select_history :
      (cs : List SearchCandidate) (l l' : BudgetLedger) (n : ℕ) (ds : Dict SearchDecision)
      → select h p target limit cs l n ≡ ok (ds, l')
      → (new : List BudgetReservation) × (l' ≡ record l { reservations = l.reservations ++ new })
        × (map (λ r. r.candidate_id) new ≡ promoted_ids (dict_values ds))
  unfolding promoted_ids
  select_history [] l l' n ds e =
      unfold select in ([], simp append-nil (ground arith), ground arith)
  select_history (c ∷ cs) l l'' n ds e =
      let (d, l', n', rest, (same_id, how), r, q) = select_round c cs l l'' n ds e in
      let (new, grown, who) = select_history cs l' l'' n' rest r in
      elim how [
        | inl (stay, same_ledger, _) ↦ (new, ground arith, rw q (ground arith))
        | inr (go, _, _, spent) ↦
            let s =
              (reserve_spends h.reservation_id l l' c.candidate_id target c.promotion_cost
                spent).0 in
            (
              new_reservation h.reservation_id c.candidate_id target c.promotion_cost l.reservations
                  ∷ new,
              grown
                  ∙ ap (λ (m : BudgetLedger). appended_to m new) s.appended
                  ∙ ap (λ rs. record l { reservations = rs }) (append_assoc l.reservations _ new),
              rw q (ground arith),
            )
      ]

  -- There is one decision for each candidate, in order.
  pub select_ids :
      (cs : List SearchCandidate) (l l' : BudgetLedger) (n : ℕ) (ds : Dict SearchDecision)
      → select h p target limit cs l n ≡ ok (ds, l')
      → map (λ d. d.candidate_id) (dict_values ds) ≡ candidate_ids cs
  select_ids [] l l' n ds e = unfold select in ground arith
  select_ids (c ∷ cs) l l'' n ds e =
      let (d, l', n', rest, (same_id, how), r, q) = select_round c cs l l'' n ds e in
      rw q (ground (arith, select_ids cs l' l'' n' rest r))
