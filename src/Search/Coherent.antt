-- ===== src/Search/Coherent.antt =====
-- The decisions of `advance` have the shape that `SearchDecision` demands.
use stateweaver.Common.{
  ℕ, ◌≡◌, refl, subst, Bool, true, false, none, some, List, [], ◌∷◌, ◌++◌, ok, arith, inl, inr, ◌⊎◌,
  In, is_empty, any, if◌then◌else◌, Result-cases, Option-cases, Bool-cases,
}
use stateweaver.Common.Dict.{Dict, dict_values}
use stateweaver.Search.Budget.{WorldTier, BudgetLedger, reserve, new_reservation}
use stateweaver.Search.Models.{
  BeamSearchPolicy, SearchCandidate, SearchDecision, ReasonCode, ReasonCode-discrete, beam_capacity,
  already_promoted, budget_exceeded, duplicate_state, dominated_by_cheaper_world, has_reason,
  reasons_unique, validate_decision,
}
use stateweaver.Search.Controller.{Digests, gate_reasons, pruned, promotion, ranked}
use stateweaver.Search.Beam.{
  winner_of, costs_at_most, duplicate, deduplicate, select_one, select, gated, by_identifier,
}
use stateweaver.Search.Selection.{SearchResult, advance}
use stateweaver.Common.{In-append}
use stateweaver.Search.Stages.{advance_origin}
use stateweaver.Search.Reasons.{refers, gate_reasons_refer, gate_reasons_unique}

abbrev pub IsCoherent : SearchDecision → Type 0
IsCoherent d = validate_decision d ≡ ok d

has_refers :
    (rs : List ReasonCode)
    → any refers rs ≡ false
    → (has_reason duplicate_state rs ≡ false) × (has_reason dominated_by_cheaper_world rs ≡ false)
has_refers [] e = (refl, refl)
has_refers (r ∷ rs) e = ground (arith, has_refers rs)

module _ (h : Digests) (p : BeamSearchPolicy) (target : WorldTier) where
  pruned-IsCoherent :
      (c : SearchCandidate) (rs : List ReasonCode)
      → is_empty rs ≡ false
      → reasons_unique rs ≡ true
      → any refers rs ≡ false
      → IsCoherent (pruned h p c target rs none)
  unfolding validate_decision pruned
  pruned-IsCoherent c rs e u f = ground (arith, has_refers rs f)

  gated_stopped :
      (d : SearchDecision) (c : SearchCandidate) (cs : List SearchCandidate)
      → is_empty (gate_reasons p c target) ≡ false
      → In d (dict_values (gated h p target (c ∷ cs)).0)
      → (d ≡ pruned h p c target (gate_reasons p c target) none)
        ⊎ In d (dict_values (gated h p target cs).0)
  unfolding gated
  gated_stopped d c cs e i = ground arith

  gated-IsCoherent :
      (d : SearchDecision) (cs : List SearchCandidate)
      → In d (dict_values (gated h p target cs).0)
      → IsCoherent d
  unfolding gated
  gated-IsCoherent d [] i = absurd i
  gated-IsCoherent d (c ∷ cs) i = elim (Bool-cases (is_empty (gate_reasons p c target))) [
    | inl e ↦ gated-IsCoherent d cs (ground arith)
    | inr e ↦ elim (gated_stopped d c cs e i) [
      | inl f ↦ rw f (
          pruned-IsCoherent c (gate_reasons p c target) e (gate_reasons_unique p c target)
            (gate_reasons_refer p c target))
      | inr j ↦ gated-IsCoherent d cs j
    ]
  ]

  promotion-IsCoherent : (c : SearchCandidate) (k : ℕ) → IsCoherent (promotion h p c target k)
  unfolding validate_decision promotion reasons_unique ReasonCode-discrete
  promotion-IsCoherent c k = refl

  single-IsCoherent :
      (c : SearchCandidate) (r : ReasonCode)
      → refers r ≡ false
      → IsCoherent (pruned h p c target (r ∷ []) none)
  unfolding reasons_unique
  single-IsCoherent c r f = pruned-IsCoherent c (r ∷ []) refl refl (ground arith)

  duplicate-IsCoherent :
      (w c : SearchCandidate) (b : Bool)
      → IsCoherent (
          pruned h p c target
            ((if b then dominated_by_cheaper_world else duplicate_state) ∷ [])
            (some w.candidate_id))
  unfolding validate_decision pruned reasons_unique ReasonCode-discrete
  duplicate-IsCoherent w c true = refl
  duplicate-IsCoherent w c false = refl

  duplicates-IsCoherent :
      (d : SearchDecision) (retained cs : List SearchCandidate)
      → In d (dict_values (deduplicate h p target retained cs).1)
      → IsCoherent d
  unfolding deduplicate
  duplicates-IsCoherent d retained [] i = absurd i
  duplicates-IsCoherent d retained (x ∷ xs) i =
      elim (Option-cases (winner_of x.state_fingerprint retained)) [
        | inl e ↦ ground (arith, duplicates-IsCoherent d (retained ++ x ∷ []) xs)
        | inr (w, e) ↦ elim (stopped w e) [
          | inl f ↦
              rw f (duplicate-IsCoherent w x (costs_at_most w.promotion_cost x.promotion_cost))
          | inr j ↦ duplicates-IsCoherent d retained xs j
        ]
      ]
    where
      stopped :
          (w : SearchCandidate)
          → winner_of x.state_fingerprint retained ≡ some w
          → (d ≡ duplicate h p target w x)
            ⊎ In d (dict_values (deduplicate h p target retained xs).1)
      stopped w e = ground arith

  select_one-IsCoherent :
      (limit : ℕ) (c : SearchCandidate) (l l' : BudgetLedger) (n n' : ℕ) (d : SearchDecision)
      → select_one h p target limit c l n ≡ ok (d, l', n')
      → IsCoherent d
  unfolding select_one ReasonCode-discrete
  select_one-IsCoherent limit c l l' n n' d e =
      let full = single-IsCoherent c beam_capacity refl in
      let again = single-IsCoherent c already_promoted refl in
      let over = single-IsCoherent c budget_exceeded refl in
      elim (Result-cases (reserve h.reservation_id l c.candidate_id target c.promotion_cost)) [
        | inl (x, q) ↦ ground (arith, full, again, over)
        | inr (m, q) ↦ ground (
          arith,
          full,
          again,
          over,
          promotion-IsCoherent c
              (new_reservation h.reservation_id c.candidate_id target c.promotion_cost
                l.reservations).reservation_id,
        )
      ]

  select-IsCoherent :
      (limit : ℕ) (cs : List SearchCandidate) (l l' : BudgetLedger) (n : ℕ)
      (ds : Dict SearchDecision) (d : SearchDecision)
      → select h p target limit cs l n ≡ ok (ds, l')
      → In d (dict_values ds)
      → IsCoherent d
  unfolding select
  select-IsCoherent limit [] l l' n ds d e i = absurd (ground arith)
  select-IsCoherent limit (c ∷ cs) l l'' n ds d e i =
      elim (Result-cases (select_one h p target limit c l n)) [
        | inl (x, q) ↦ absurd (ground arith)
        | inr ((x, l', n'), q) ↦ elim (Result-cases (select h p target limit cs l' n')) [
          | inl (y, r) ↦ absurd (ground arith)
          | inr ((xs, m), r) ↦
              let split : dict_values ds ≡ x ∷ dict_values xs = ground arith in
              elim (subst (In d) split i) [
                | inl f ↦ rw f (select_one-IsCoherent limit c l l' n n' x q)
                | inr j ↦ select-IsCoherent limit cs l' m n' xs d r j
              ]
        ]
      ]

-- Every decision of a call of `advance` that returns passes the check that its construction makes.
pub advance-IsCoherent :
    (h : Digests) (p : BeamSearchPolicy) (cs : List SearchCandidate) (ledger : BudgetLedger)
    (r : SearchResult) (d : SearchDecision)
    → advance h p cs ledger ≡ ok r
    → In d r.decisions
    → IsCoherent d
advance-IsCoherent h p cs ledger r d e i =
    let (chosen, limit, selected, at) = advance_origin h p cs ledger r d e i in
    elim (In-append d (dict_values (gated h p r.target_tier (by_identifier cs)).0) _ at) [
      | inl j ↦ gated-IsCoherent h p r.target_tier d (by_identifier cs) j
      | inr j ↦
          elim (In-append d
            (dict_values
              (deduplicate h p r.target_tier []
                (ranked h p (gated h p r.target_tier (by_identifier cs)).1)).1)
            (dict_values chosen) j) [
              | inl k ↦
                  duplicates-IsCoherent h p r.target_tier d []
                    (ranked h p (gated h p r.target_tier (by_identifier cs)).1) k
              | inr k ↦
                  select-IsCoherent h p r.target_tier limit _ ledger r.ledger 0 chosen d selected k
            ]
    ]
