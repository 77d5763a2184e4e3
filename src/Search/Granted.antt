-- ===== src/Search/Granted.antt =====
-- The reservations that a call of `advance` adds: each is for a candidate of the batch, at its cost.
use stateweaver.Common.{ℕ, ◌≡◌, refl, ap, ◌∙◌, List, [], ◌∷◌, ◌++◌, ok, arith, inl, inr, In, All}
use mathlib.Core.List.{append_assoc, append-nil}
use stateweaver.Search.Budget.{WorldTier, BudgetReservation, BudgetLedger, new_reservation}
use stateweaver.Search.Budget.Reserve.{reserve_spends}
use stateweaver.Search.Models.{BeamSearchPolicy, SearchCandidate, SearchDecision}
use stateweaver.Search.Controller.{Digests}
use stateweaver.Search.Beam.{select}
use stateweaver.Common.Dict.{Dict}
use stateweaver.Search.Selected.{select_round}
use stateweaver.Search.Selection.{SearchResult, advance}
use stateweaver.Search.Stages.{advance-Stages, decide_all-Chain, beam}
use stateweaver.Search.Advance.{In-beam}

-- A reservation of a candidate of the list for the tier.
abbrev pub IsGranted : WorldTier → List SearchCandidate → BudgetReservation → Type 0
IsGranted target cs r =
    (c : SearchCandidate) × In c cs
    × (r.candidate_id ≡ c.candidate_id)
    × (r.target_tier ≡ target)
    × (r.cost ≡ c.promotion_cost)

granted-within :
    (target : WorldTier) (cs ds : List SearchCandidate) (rs : List BudgetReservation)
    → ((c : SearchCandidate) → In c cs → In c ds)
    → All (IsGranted target cs) rs
    → All (IsGranted target ds) rs
granted-within target cs ds [] f g = tt
granted-within target cs ds (r ∷ rs) f g =
    let (c, at, same_id, same_tier, same_cost) = g.0 in
    ((c, f c at, same_id, same_tier, same_cost), granted-within target cs ds rs f g.1)

module _ (h : Digests) (p : BeamSearchPolicy) (target : WorldTier) (limit : ℕ) where
  select-granted :
      (cs : List SearchCandidate) (l l' : BudgetLedger) (n : ℕ) (ds : Dict SearchDecision)
      → select h p target limit cs l n ≡ ok (ds, l')
      → (new : List BudgetReservation) × (l' ≡ record l { reservations = l.reservations ++ new })
        × All (IsGranted target cs) new
  select-granted [] l l' n ds e = unfold select in ([], simp append-nil (ground arith), tt)
  select-granted (c ∷ cs) l l'' n ds e =
      let (d, l', n', rest, (same_id, how), r, q) =
        select_round h p target limit c cs l l'' n ds e in
      let (new, grown, granted) = select-granted cs l' l'' n' rest r in
      let more = granted-within target cs (c ∷ cs) new (λ x at. inr at) granted in
      elim how [
        | inl (stay, same_ledger, _) ↦ (new, ground arith, more)
        | inr (go, _, _, spent) ↦
            let s =
              (reserve_spends h.reservation_id l l' c.candidate_id target c.promotion_cost
                spent).0 in
            let r =
              new_reservation h.reservation_id c.candidate_id target c.promotion_cost
                l.reservations in
            (
              r ∷ new,
              grown
                  ∙ ap (λ (m : BudgetLedger). record m { reservations = m.reservations ++ new })
                      s.appended
                  ∙ ap (λ rs. record l { reservations = rs }) (append_assoc l.reservations _ new),
              ((c, inl refl, refl, refl, refl), more),
            )
      ]

module _ (h : Digests) (p : BeamSearchPolicy) (cs : List SearchCandidate)
    (ledger : BudgetLedger) where
  -- If a call of `advance` returns, each reservation that it has added is for a candidate of the batch and the target
  -- tier, at the cost of that candidate.
  pub advance-granted :
      (r : SearchResult)
      → advance h p cs ledger ≡ ok r
      → (new : List BudgetReservation) × (r.ledger
          ≡ record ledger { reservations = ledger.reservations ++ new })
        × All (IsGranted r.target_tier cs) new
  advance-granted r e =
      let s = advance-Stages h p cs ledger r e in
      let k = decide_all-Chain h p cs ledger r.target_tier s.limit r.decisions r.ledger s.decided in
      let (new, grown, granted) =
        select-granted h p r.target_tier s.limit (beam h p cs ledger r.target_tier) ledger r.ledger
          0 k.chosen k.selected in
      (
        new,
        grown,
        granted-within r.target_tier (beam h p cs ledger r.target_tier) cs new
            (λ c at. (In-beam h p cs ledger r.target_tier c at).0) granted,
      )
