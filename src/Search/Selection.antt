-- ===== src/Search/Selection.antt =====
-- `advance` of controller.py as a whole, and the check of its result.
use stateweaver.Common.{
  ℕ, Bool, true, false, not, ◌&&◌, ◌||◌, none, some, List, [], ◌∷◌, ◌++◌, map, Result, ok, err,
  raise_if, ◌>>=◌, ◌>>◌, leb, any, unique, if◌then◌else◌,
}
use stateweaver.Common.Dict.{Dict, lookup, insert}
use stateweaver.Search.Budget.{WorldTier, BudgetReservation, BudgetLedger, is_for, validate_ledger}
use stateweaver.Search.Models.{
  BeamSearchPolicy, SearchCandidate, SearchDecision, width, promote, prune, DecisionDisposition,
}
use stateweaver.Search.Controller.{Digests, next_tier, ranked}
use stateweaver.Search.Beam.{
  diverse_order, SearchError, key_error, not_canonical, unbound_promotion, of_ledger, of_key,
  validate_batch, deduplicate, select, gated,
}

-- `decisions[candidate_id] = decision` for what the stages file, in order.
unfoldable pub record_all : Dict SearchDecision → Dict SearchDecision → Dict SearchDecision
record_all [] table = table
record_all ((k, d) ∷ ds) table = record_all ds (insert k d table)

-- `decisions[item.candidate_id] for item in batch.candidates`.
unfoldable pub canonical_decisions :
    Dict SearchDecision → List SearchCandidate → Result SearchError (List SearchDecision)
canonical_decisions table [] = ok []
canonical_decisions table (c ∷ cs) = do
  d ← of_key (lookup c.candidate_id table)
  ds ← canonical_decisions table cs
  ok (d ∷ ds)

pub record SearchResult : Type 0 where
  pub source_tier : WorldTier
  pub target_tier : WorldTier
  pub decisions : List SearchDecision
  pub promoted_candidate_ids : List ℕ
  pub ledger : BudgetLedger

abbrev pub is_promote : DecisionDisposition → Bool
is_promote promote = true
is_promote prune = false

-- The identifiers of the promoted; the decisions stand in the order of identifiers already.
unfoldable pub promoted_ids : List SearchDecision → List ℕ
promoted_ids [] = []
promoted_ids (d ∷ ds) =
    let rest = promoted_ids ds in if is_promote d.disposition then d.candidate_id ∷ rest else rest

abbrev pub source_of : List SearchCandidate → Result SearchError WorldTier
source_of [] = err key_error
source_of (c ∷ cs) = ok c.tier

-- `identifiers == sorted(identifiers)`.
unfoldable pub ordered : List ℕ → Bool
ordered [] = true
ordered (k ∷ []) = true
ordered (k ∷ l ∷ ks) = leb k l && ordered (l ∷ ks)

-- `reservations = {item.reservation_id: item ...}`.
unfoldable pub reservation_table :
    List BudgetReservation → Dict BudgetReservation → Dict BudgetReservation
reservation_table [] table = table
reservation_table (r ∷ rs) table = reservation_table rs (insert r.reservation_id r table)

-- A promotion names a reservation of its candidate for its tier.
abbrev pub is_bound : Dict BudgetReservation → SearchDecision → Bool
is_bound table d = elim d.reservation_id [
  | none ↦ false
  | some k ↦ elim (lookup k table) [ none ↦ false | some r ↦ is_for d.candidate_id d.target_tier r ]
]

-- `result_is_complete`; the index of the promoted is computed from the decisions.
unfoldable pub validate_result : SearchResult → Result SearchError SearchResult
unfolding ordered reservation_table
validate_result r = do
  let identifiers = map (λ d. d.candidate_id) r.decisions
  raise_if (not (unique identifiers) || not (ordered identifiers)) not_canonical
  let table = reservation_table r.ledger.reservations []
  raise_if (any (λ d. is_promote d.disposition && not (is_bound table d)) r.decisions)
      unbound_promotion
  ok r

-- The body of `advance` from the first loop on.
unfoldable pub decide_all :
    Digests
    → BeamSearchPolicy
    → WorldTier
    → ℕ
    → List SearchCandidate
    → BudgetLedger
    → Result SearchError (List SearchDecision × BudgetLedger)
decide_all h p target limit batch l = do
  let stopped = gated h p target batch
  let unique_states = deduplicate h p target [] (ranked h p stopped.1)
  (chosen, l') ← select h p target limit (diverse_order unique_states.0) l 0
  ds ← canonical_decisions (record_all (stopped.0 ++ (unique_states.1 ++ chosen)) []) batch
  ok (ds, l')

-- `advance`. That the identifiers of the ledger's reservations are bound to their content is not checked again: every
-- ledger that the code takes is one that the model takes.
unfoldable pub advance :
    Digests
    → BeamSearchPolicy
    → List SearchCandidate
    → BudgetLedger
    → Result SearchError SearchResult
advance h p candidates ledger = do
  batch ← validate_batch candidates
  l ← of_ledger (validate_ledger ledger)
  source ← source_of batch
  target ← of_key (next_tier source)
  limit ← of_key (width p target)
  (ds, l') ← decide_all h p target limit batch l
  validate_result (record {
    source_tier = source;
    target_tier = target;
    decisions = ds;
    promoted_candidate_ids = promoted_ids ds;
    ledger = l';
  })
