-- ===== src/Search/Returns/Bound.antt =====
-- That a promotion is bound to its reservation: `reservations` in `result_is_complete` of
-- packages/search/src/stateweaver/search/models.py.
use stateweaver.Common.{
  ℕ, ◌≡◌, refl, sym, subst, ◌∙◌, true, false, not, ◌&&◌, some, List, [], ◌∷◌, arith, inl, inr, In,
  Distinct, Bool-cases, any, unique_iff,
}
use stateweaver.Common.Dict.{Dict, lookup, insert, lookup-insert}
use stateweaver.Search.Budget.{BudgetReservation, BudgetLedger, is_for}
use stateweaver.Search.Budget.Spending.{ids}
use stateweaver.Search.Budget.Reserve.{IsValid}
use stateweaver.Search.Models.{SearchDecision}
use stateweaver.Search.Selection.{is_promote, is_bound, reservation_table}
use stateweaver.Search.Returns.Rounds.{IsBacked}

reservation_table_keeps :
    (rs : List BudgetReservation) (table : Dict BudgetReservation) (k : ℕ)
    → ¬ (In k (ids rs))
    → lookup k (reservation_table rs table) ≡ lookup k table
unfolding reservation_table
reservation_table_keeps [] table k n = refl
reservation_table_keeps (r ∷ rs) table k n =
    reservation_table_keeps rs (insert r.reservation_id r table) k (λ i. n (inr i))
    ∙ ground (arith, lookup-insert k r.reservation_id r table)

reservation_table_finds :
    (rs : List BudgetReservation) (table : Dict BudgetReservation) (r : BudgetReservation)
    → Distinct (ids rs)
    → In r rs
    → lookup r.reservation_id (reservation_table rs table) ≡ some r
unfolding reservation_table
reservation_table_finds [] table r d i = absurd i
reservation_table_finds (x ∷ xs) table r (n, d) (inl q) =
    subst
      (λ (y : BudgetReservation).
        lookup y.reservation_id (reservation_table xs (insert x.reservation_id x table)) ≡ some y)
      (sym q)
      (reservation_table_keeps xs (insert x.reservation_id x table) x.reservation_id n
        ∙ ground (arith, lookup-insert x.reservation_id x.reservation_id x table))
reservation_table_finds (x ∷ xs) table r (n, d) (inr i) =
    reservation_table_finds xs (insert x.reservation_id x table) r d i

is_bound_named :
    (table : Dict BudgetReservation) (d : SearchDecision) (r : BudgetReservation)
    → d.reservation_id ≡ some r.reservation_id
    → lookup r.reservation_id table ≡ some r
    → is_for d.candidate_id d.target_tier r ≡ true
    → is_bound table d ≡ true
is_bound_named table d r named found own = ground arith

backed_bound :
    (l : BudgetLedger) (d : SearchDecision)
    → IsValid l
    → IsBacked l d
    → (is_promote d.disposition && not (is_bound (reservation_table l.reservations []) d)) ≡ false
backed_bound l d v b = elim (Bool-cases (is_promote d.disposition)) [
  | inl e ↦
      let (r, at, named, own) = b e in
      let found =
        reservation_table_finds l.reservations [] r
          ((unique_iff (ids l.reservations)).0 v.ids_unique) at in
      ground (arith, is_bound_named (reservation_table l.reservations []) d r named found own)
  | inr e ↦ ground arith
]

pub none_unbound :
    (l : BudgetLedger) (ds : List SearchDecision)
    → IsValid l
    → ((d : SearchDecision) → In d ds → IsBacked l d)
    → any
        (λ d. is_promote d.disposition && not (is_bound (reservation_table l.reservations []) d))
        ds
      ≡ false
none_unbound l [] v f = refl
none_unbound l (d ∷ ds) v f =
    rw (backed_bound l d v (f d (inl refl))) (none_unbound l ds v (λ x i. f x (inr i)))
