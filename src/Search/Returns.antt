-- ===== src/Search/Returns.antt =====
-- That a call of `advance` in controller.py returns on an input that is valid.
pub mod Rounds
pub mod Bound
use stateweaver.Common.{
  ℕ, suc, ◌+◌, ◌≡◌, ◌≢◌, refl, sym, subst, ap, ◌∙◌, true, false, not, ◌&&◌, none, some, List, [],
  ◌∷◌, ◌++◌, map, arith, inl, inr, ◌⊎◌, In, In-append, append-In, Distinct, Result, ok, err,
  Result-cases, Bool-cases, Option-cases, any, all, is_empty, length, unique, contains,
  contains_iff, unique_iff, leb,
}
use stateweaver.Common.Dict.{Dict, dict_values, lookup, insert, lookup-insert}
use stateweaver.Search.Budget.{
  WorldTier, materialized, BudgetReservation, BudgetLedger, PromotionCost, validate_ledger, is_for,
  is_tier, WorldTier-discrete, can_reserve, reserve, new_reservation,
}
use stateweaver.Search.Budget.Binding.{IsBound, IsCollisionFree, IsBound-fresh, IsBound-append}
use stateweaver.Search.Budget.Spending.{ids, extended}
use stateweaver.Search.Budget.Reserve.{
  IsValid, IsValid-validate_ledger, reserve_iff, can_reserve_iff, reserve_spends,
}
use stateweaver.Search.Models.{
  BeamSearchPolicy, SearchCandidate, SearchDecision, ReasonCode, beam_capacity, already_promoted,
  budget_exceeded, width,
}
use stateweaver.Search.Controller.{Digests, next_tier, pruned, promotion}
use stateweaver.Search.Selection.{
  SearchResult, record_all, is_promote, is_bound, reservation_table, source_of, decide_all,
  validate_result, advance, promoted_ids,
}
use stateweaver.Search.Stages.{beam, filed_by, nothing_filed, In-recorded_filed}
use stateweaver.Search.Tracing.{In-canonical_decisions, lookup-record_all}
use stateweaver.Search.Advance.{In-recorded}
use stateweaver.Search.Ordering.{
  Ascending, by_identifier-Ascending, Ascending-ordered, Ascending-unique,
}
use stateweaver.Search.Filing.{record_all_finds, canonical_decisions_total}
use stateweaver.Search.Batches.{source_open, tiers_total}
use stateweaver.Search.Complete.{decided_ids, every_filed, decide_all-ids, round_result}
use stateweaver.Search.Beam.{
  SearchError, select_one, select, granted, candidate_ids, by_identifier, validate_batch, one_tier,
}
use stateweaver.Search.Returns.Rounds.{IsBacked, select_total}
use stateweaver.Search.Returns.Bound.{none_unbound}

-- The candidates of a batch that can be promoted: some, with different identifiers, all in one tier that is not
-- the last.
pub record IsBatch (cs : List SearchCandidate) : Type 0 where
  pub not_empty : cs ≢ []
  pub ids_differ : Distinct (candidate_ids cs)
  pub source : WorldTier
  pub promotable : source ≢ materialized
  pub in_source : (c : SearchCandidate) → In c cs → c.tier ≡ source

tiers_agree :
    (t : WorldTier) (cs : List SearchCandidate)
    → ((c : SearchCandidate) → In c cs → c.tier ≡ t)
    → all (λ (x : SearchCandidate). is_tier x.tier t) cs ≡ true
tiers_agree t [] f = refl
tiers_agree t (c ∷ cs) f = ground (arith, f c (inl refl), tiers_agree t cs (λ x i. f x (inr i)))

IsBatch-one_tier : (cs : List SearchCandidate) → IsBatch cs → one_tier cs ≡ true
IsBatch-one_tier [] b = absurd (b.not_empty refl)
IsBatch-one_tier (c ∷ cs) b =
    let here : c.tier ≡ b.source = b.in_source c (inl refl) in
    let rest : all (λ (x : SearchCandidate). is_tier x.tier c.tier) cs ≡ true =
      tiers_agree c.tier cs (λ x i. b.in_source x (inr i) ∙ sym here) in
    let low : c.tier ≢ materialized = λ q. b.promotable (sym here ∙ q) in ground (arith, low)

IsBatch-validate_batch :
    (cs : List SearchCandidate) → IsBatch cs → validate_batch cs ≡ ok (by_identifier cs)
unfolding validate_batch
IsBatch-validate_batch [] b = absurd (b.not_empty refl)
IsBatch-validate_batch (c ∷ cs) b =
    ground
      (arith, (unique_iff (candidate_ids (c ∷ cs))).1 b.ids_differ, IsBatch-one_tier (c ∷ cs) b)

validate_result_accepts :
    (r : SearchResult)
    → Ascending (decided_ids r)
    → IsValid r.ledger
    → ((d : SearchDecision) → In d r.decisions → IsBacked r.ledger d)
    → validate_result r ≡ ok r
unfolding validate_result
validate_result_accepts r a v f = ground (
  arith,
  Ascending-ordered (decided_ids r) a,
  Ascending-unique (decided_ids r) a,
  none_unbound r.ledger r.decisions v f,
)

module _ (h : Digests) (p : BeamSearchPolicy) (cs : List SearchCandidate)
    (ledger : BudgetLedger) where
  -- What the body of `advance` returns.
  record Body (target : WorldTier) (limit : ℕ) : Type 0 where
    pub decided : List SearchDecision
    pub spent : BudgetLedger
    pub done : decide_all h p target limit (by_identifier cs) ledger ≡ ok (decided, spent)
    pub spent_valid : IsValid spent
    pub decided_backed : (d : SearchDecision) → In d decided → IsBacked spent d

  decide_all_total :
      (target : WorldTier) (limit : ℕ)
      → IsCollisionFree h.reservation_id
      → IsValid ledger
      → IsBound h.reservation_id ledger.reservations
      → Body target limit
  unfolding decide_all
  decide_all_total target limit free v b =
      let k = select_total h p target limit free (beam h p cs ledger target) ledger 0 v b in
      let filed = filed_by h p cs ledger target k.decisions in
      let (ds, e) = canonical_decisions_total (record_all filed []) (by_identifier cs) (λ c i.
        record_all_finds c.candidate_id filed []
          (inl (every_filed h p cs ledger target limit k.decisions k.last k.returns c i))) in
      record {
        decided = ds;
        spent = k.last;
        done = rw (k.returns, e) refl;
        spent_valid = k.last_valid;
        decided_backed = λ d i.
            let (x, _, found) =
              In-canonical_decisions d (record_all filed []) (by_identifier cs) ds e i in
            elim (lookup-record_all x.candidate_id d filed [] found) [
              | inr q ↦ absurd (nothing_filed x.candidate_id d q)
              | inl j ↦ λ go.
                  k.all_backed d
                    (In-recorded h p cs ledger target k.decisions d go
                      (In-recorded_filed h p cs ledger target k.decisions x.candidate_id d j))
                    go
            ];
      }

  -- A call of `advance` returns on a batch that is not empty and whose candidates have different identifiers and all one
  -- tier that is not the last, provided that the ledger is valid, that the identifiers of its reservations are
  -- bound to their content, and that digests of reservations with different numbers differ.
  pub advance_returns :
      IsBatch cs
      → IsValid ledger
      → IsBound h.reservation_id ledger.reservations
      → IsCollisionFree h.reservation_id
      → (r : SearchResult) × (advance h p cs ledger ≡ ok r)
  unfolding advance
  advance_returns b v bound free =
      let (source, start, low) = source_open cs (IsBatch-one_tier cs b) in
      let (target, limit, next, within) = tiers_total p source low in
      let k : Body target limit = decide_all_total target limit free v bound in
      let r = round_result source target k.decided k.spent in
      let ascending : Ascending (decided_ids r) =
        subst Ascending (sym (decide_all-ids h p cs ledger target limit k.decided k.spent k.done))
          (by_identifier-Ascending cs b.ids_differ) in
      (
        r,
        rw
            (
              IsBatch-validate_batch cs b,
              IsValid-validate_ledger ledger v,
              start,
              next,
              within,
              k.done,
              validate_result_accepts r ascending k.spent_valid k.decided_backed,
            )
            refl,
      )
