-- ===== src/Workflow/Sound.antt =====
-- `advance` of orchestrator.py as a whole: the ledger and the worlds after a call.
use stateweaver.Common.{
  ℕ, ◌≡◌, refl, sym, ap, subst, ◌∙◌, true, false, some, List, [], ◌∷◌, ◌++◌, ok, arith, In, All,
  inl, inr, contains, unique, length, Result-cases,
}
use mathlib.Core.List.{append-nil}
use stateweaver.Common.Dict.{Dict, lookup, insert, lookup-insert}
use stateweaver.Search.Budget.{WorldTier, BudgetReservation, BudgetLedger, ReservationId}
use stateweaver.Search.Budget.Reserve.{IsValid}
use stateweaver.Search.Models.{BeamSearchPolicy, SearchCandidate}
use stateweaver.Search.Controller.{Digests}
use stateweaver.Search.Beam.{validate_batch, candidate_ids}
use stateweaver.Search.Selection.{SearchResult, advance}
use stateweaver.Search.Advance.{advance_budget}
use stateweaver.Search.Granted.{IsGranted, advance-granted}
use stateweaver.Workflow.Models.{PromotionRunContext, WorldPorts}
use stateweaver.Workflow.Relations.{drop, candidates_by}
use stateweaver.Workflow.State.{Workflow, Accepted, held}
use stateweaver.Workflow.Allocation.{
  LoopEnd, accepted_all, lost, stopped, at_end, promote_all, release_uncommitted, Run-cases,
}
use stateweaver.Workflow.Advance.{settle, promote_batch}
use stateweaver.Workflow.Trail.{Trail, recording, IsFresh}
use stateweaver.Workflow.Ownership.{Kept, release_uncommitted-Kept}
use stateweaver.Workflow.Ownership.Loop.{promote_all-Kept}
use stateweaver.Workflow.Picked.{Picks, pick_none, promote_all-Picks}
use stateweaver.Search.Budget.Binding.{IsBound, IsCollisionFree}
use stateweaver.Workflow.Affordable.{Thinned-refl}
use stateweaver.Workflow.Granting.{IsPriced, commit_all_total}
use stateweaver.Workflow.Tracking.{IsTracked, IsTracked-Kept, Kept-IsTracked, commit_all-Kept}

lookup-candidates_by :
    (k : ℕ) (cs : List SearchCandidate) (table : Dict SearchCandidate)
    → contains (candidate_ids cs) k ≡ false
    → lookup k (candidates_by cs table) ≡ lookup k table
unfolding candidates_by contains
lookup-candidates_by k [] table h = refl
lookup-candidates_by k (c ∷ cs) table h = ground (
  arith,
  lookup-candidates_by k cs (insert c.candidate_id c table),
  lookup-insert k c.candidate_id c table,
)

candidates_by-found :
    (c : SearchCandidate) (cs : List SearchCandidate) (table : Dict SearchCandidate)
    → unique (candidate_ids cs) ≡ true
    → In c cs
    → lookup c.candidate_id (candidates_by cs table) ≡ some c
unfolding candidates_by unique
candidates_by-found c [] table u i = absurd i
candidates_by-found c (d ∷ cs) table u (inl e) = rw e (
    ground (
      arith,
      lookup-candidates_by d.candidate_id cs (insert d.candidate_id d table),
      lookup-insert d.candidate_id d.candidate_id d table,
    ))
candidates_by-found c (d ∷ cs) table u (inr i) =
    candidates_by-found c cs (insert d.candidate_id d table) (ground arith) i

IsGranted-IsPriced :
    (target : WorldTier) (cs : List SearchCandidate) (rs : List BudgetReservation)
    → unique (candidate_ids cs) ≡ true
    → All (IsGranted target cs) rs
    → All (IsPriced (candidates_by cs [])) rs
IsGranted-IsPriced target cs [] u g = tt
IsGranted-IsPriced target cs (r ∷ rs) u g =
    let (c, at, same_id, _, same_cost) = g.0 in
    (
      (c, rw same_id (candidates_by-found c cs [] u at), same_id, same_cost),
      IsGranted-IsPriced target cs rs u g.1,
    )

pub drop-append {ℓ} : {A : Type ℓ} (xs ys : List A) → drop (length xs) (xs ++ ys) ≡ ys
drop-append [] ys = refl
drop-append (x ∷ xs) ys = drop-append xs ys

-- A workflow between two calls, after a trail.
pub record IsSound {E : Type 0} (i : ReservationId) (s : Workflow) (t : Trail E) : Type 0 where
  pub ledger_valid : IsValid s.ledger
  pub ledger_bound : IsBound i s.ledger.reservations
  pub tracked : IsTracked s t

module _ {E : Type 0} (ports : WorldPorts E) (h : Digests) (p : BeamSearchPolicy)
    (context : PromotionRunContext) (free : IsCollisionFree h.reservation_id) where
  released-IsSound :
      (acc : List Accepted) (s s' : Workflow) (t t' : Trail E)
      → IsSound h.reservation_id s t
      → Kept s.active s.ledger s' t' (held acc)
      → let (run, s'', t'') = release_uncommitted (recording ports) (held acc) s' t' in
        IsSound h.reservation_id s'' t''
  released-IsSound acc s s' t t' sound k =
      let k' =
        release_uncommitted-Kept s.active s.ledger ports (held acc) [] s' t' (rw append-nil k) in
      record {
        ledger_valid = subst IsValid (sym k'.same_ledger) sound.ledger_valid;
        ledger_bound =
            subst (λ l. IsBound h.reservation_id l.reservations) (sym k'.same_ledger)
              sound.ledger_bound;
        tracked = Kept-IsTracked s.active s.ledger _ _ k' sound.tracked.active_apart;
      }

  module _ (closed : List SearchCandidate) (search : SearchResult)
      (new : List BudgetReservation) where
    settle-IsSound :
        (loop_end : LoopEnd) (s s' : Workflow) (t t' : Trail E)
        → IsSound h.reservation_id s t
        → IsValid (record s.ledger { reservations = s.ledger.reservations ++ new })
        → All (IsPriced (candidates_by closed [])) new
        → Kept s.active s.ledger s' t' (held (at_end loop_end))
        → IsFresh s.active (at_end loop_end)
        → Picks (candidates_by closed []) (at_end loop_end) new
        → let (e, s'', t'') =
            settle (recording ports) h p context s.ledger closed search loop_end s' t' in
          IsSound h.reservation_id s'' t''
    unfolding settle
    settle-IsSound (stopped acc) s s' t t' sound v priced k f picks =
        released-IsSound acc s s' t t' sound k
    settle-IsSound (lost x acc) s s' t t' sound v priced k f picks =
        elim (Run-cases (release_uncommitted (recording ports) (held acc) s' t').0) [
          | inl q ↦ rw (q, settle) (released-IsSound acc s s' t t' sound k)
          | inr q ↦ rw (q, settle) (released-IsSound acc s s' t t' sound k)
        ]
    settle-IsSound (accepted_all acc) s s' t t' sound v priced k f picks =
        let (l, ps, done, v', b') =
          commit_all_total h.reservation_id free (candidates_by closed []) acc s.ledger.reservations
            new s.ledger s' sound.ledger_valid sound.ledger_bound
            (Thinned-refl s.ledger.reservations) v.keys_differ v.within priced picks in
        let kept =
          commit_all-Kept h.reservation_id s.active s.ledger acc s.ledger l s' t' ps k f
            sound.tracked.active_apart done in
        rw (done, settle)
          (record {
            ledger_valid = v';
            ledger_bound = b';
            tracked = record {
              active_apart = kept.active_apart;
              known = kept.known;
              cleanup_apart = kept.cleanup_apart;
              tokens_new = kept.tokens_new;
              balanced = kept.balanced;
            };
          })

pub advance-unique :
    (h : Digests) (p : BeamSearchPolicy) (cs : List SearchCandidate) (l : BudgetLedger)
    (r : SearchResult)
    → advance h p cs l ≡ ok r
    → unique (candidate_ids cs) ≡ true
unfolding advance validate_batch
advance-unique h p cs l r e = elim (Result-cases (validate_batch cs)) [
  | inl (x, q) ↦ absurd (ground arith)
  | inr (b, q) ↦ ground arith
]

-- The reservations of a round: the ledger with them is valid, and each has the cost of its candidate.
pub round_lem :
    (h : Digests) (p : BeamSearchPolicy) (cs : List SearchCandidate) (l : BudgetLedger)
    (r : SearchResult)
    → advance h p cs l ≡ ok r
    → (new : List BudgetReservation) × (drop (length l.reservations) r.ledger.reservations ≡ new)
      × IsValid (record l { reservations = l.reservations ++ new })
      × All (IsPriced (candidates_by cs [])) new
round_lem h p cs l r e =
    let (new, grown, granted) = advance-granted h p cs l r e in
    (
      new,
      ap (λ (m : BudgetLedger). drop (length l.reservations) m.reservations) grown
          ∙ drop-append l.reservations new,
      subst IsValid grown (advance_budget h p cs l r e).0,
      IsGranted-IsPriced r.target_tier cs new (advance-unique h p cs l r e) granted,
    )

module _ {E : Type 0} (ports : WorldPorts E) (h : Digests) (p : BeamSearchPolicy)
    (context : PromotionRunContext) (free : IsCollisionFree h.reservation_id) where
  -- However a call of `advance` ends, whatever the allocator and the capture answer, the workflow is sound after it,
  -- provided that it was so before and that digests of reservations with different numbers differ.
  pub promote_batch-IsSound :
      (batch : List SearchCandidate) (s : Workflow) (t : Trail E)
      → IsSound h.reservation_id s t
      → let (e, s', t') = promote_batch (recording ports) h p context batch s t in
        IsSound h.reservation_id s' t'
  unfolding promote_batch
  promote_batch-IsSound batch s t sound = elim (Result-cases (validate_batch batch)) [
    | inl (x, b) ↦ rw (b, promote_batch) sound
    | inr (closed, b) ↦ elim (Result-cases (advance h p closed s.ledger)) [
      | inl (x, a) ↦ rw (b, a, promote_batch) sound
      | inr (search, a) ↦
          let (new, suffix, v, priced) = round_lem h p closed s.ledger search a in
          let candidates = candidates_by closed [] in
          let out = promote_all (recording ports) candidates new [] s t in
          let (k, f) =
            promote_all-Kept s.active s.ledger ports candidates new [] s t
              (IsTracked-Kept s t sound.tracked) tt in
          rw (b, a, suffix, promote_batch)
            (settle-IsSound ports h p context free closed search new out.0 s out.1 t out.2 sound v
              priced k f (promote_all-Picks candidates (recording ports) new [] [] s t pick_none))
    ]
  ]
