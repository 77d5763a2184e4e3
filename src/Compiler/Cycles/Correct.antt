-- ===== src/Compiler/Cycles/Correct.antt =====
-- `_has_dependency_cycle` of packages/compiler/src/stateweaver/compiler/compiler.py: what its answer means.
use stateweaver.Common.{
  ℕ, suc, ◌≡◌, ◌≢◌, ap, refl, inl, inr, ◌↔◌, true, List, [], ◌∷◌, arith, length, In, Bool-cases,
  In-append, any, ◌==◌,
}
use stateweaver.Contracts.States.{Arithmetic, StateCondition}
use stateweaver.Compiler.Models.{CompilerFragment, fragment_id}
use stateweaver.Compiler.States.{State, condition_matches, effect_supports}
use stateweaver.Compiler.Nodes.{fragment_ids}
use stateweaver.Compiler.Cycles.{
  Visit, cyclic, clear, too_deep, visit_all, visit, found_cycle, producers, awaited, edges_of,
  has_dependency_cycle,
}
use stateweaver.Compiler.Cycles.Walks.{
  Reaches, IsClean, clean_acyclic, visit_finds, visit_clears, visit_ends, visit_all_finds,
  visit_all_clears, visit_all_ends, Visit-cases, Reaches-source,
}

length-fragment_ids : (nodes : List CompilerFragment) → length (fragment_ids nodes) ≡ length nodes
length-fragment_ids [] = refl
length-fragment_ids (f ∷ fs) = omega (arith, length-fragment_ids fs)

module _ (n : Arithmetic) (initial : State) where
  producers-In :
      (c : StateCondition) (nodes : List CompilerFragment) (b : ℕ)
      → In b (producers n initial c nodes)
      → In b (fragment_ids nodes)
  unfolding producers
  producers-In c [] b i = i
  producers-In c (f ∷ fs) b i =
      elim (Bool-cases (any (λ e. effect_supports n e c) f.fragment.effects)) [
        | inl q ↦ ground (arith, producers-In c fs b)
        | inr q ↦ ground (arith, producers-In c fs b)
      ]

  awaited-In :
      (cs : List StateCondition) (nodes : List CompilerFragment) (b : ℕ)
      → In b (awaited n initial cs nodes)
      → In b (fragment_ids nodes)
  unfolding awaited
  awaited-In [] nodes b i = absurd i
  awaited-In (c ∷ cs) nodes b i = elim (Bool-cases (condition_matches n initial c)) [
    | inl q ↦ ground (arith, awaited-In cs nodes b)
    | inr q ↦ ground (
      arith,
      awaited-In cs nodes b,
      producers-In c nodes b,
      In-append b (producers n initial c nodes) (awaited n initial cs nodes),
    )
  ]

  edges_of-In :
      (nodes fs : List CompilerFragment) (a b : ℕ)
      → In b (edges_of n initial nodes fs a)
      → In b (fragment_ids nodes)
  unfolding edges_of
  edges_of-In nodes [] a b i = absurd i
  edges_of-In nodes (f ∷ fs) a b i = elim (Bool-cases (fragment_id f == a)) [
    | inl q ↦ ground (
      arith,
      edges_of-In nodes fs a b,
      awaited-In f.fragment.preconditions nodes b,
      In-append b (awaited n initial f.fragment.preconditions nodes)
          (edges_of n initial nodes fs a),
    )
    | inr q ↦ ground (arith, edges_of-In nodes fs a b)
  ]

  edges_of-source :
      (nodes fs : List CompilerFragment) (a b : ℕ)
      → In b (edges_of n initial nodes fs a)
      → In a (fragment_ids fs)
  unfolding edges_of
  edges_of-source nodes [] a b i = absurd i
  edges_of-source nodes (f ∷ fs) a b i = elim (Bool-cases (fragment_id f == a)) [
    | inl q ↦ ground arith
    | inr q ↦ ground (arith, edges_of-source nodes fs a b)
  ]

module _ (n : Arithmetic) (nodes : List CompilerFragment) (initial : State) where
  abbrev edges : ℕ → List ℕ
  edges k = edges_of n initial nodes nodes k

  abbrev explore : List ℕ → ℕ → Visit
  explore v j = visit (suc (length nodes)) edges [] v j

  abbrev outcome : Visit
  outcome = visit_all explore [] (fragment_ids nodes)

  explore_cyclic : outcome ≡ cyclic → (c : ℕ) × Reaches edges c c
  explore_cyclic e =
      visit_all_finds edges explore [] (fragment_ids nodes)
        (λ v k i. visit_finds edges (suc (length nodes)) [] v k (λ j m. absurd m)) e

  explore_clear :
      (v : List ℕ) → outcome ≡ clear v → (k : ℕ) → In k (fragment_ids nodes) → IsClean edges k
  explore_clear v e =
      (visit_all_clears edges [] explore [] v (fragment_ids nodes)
        (λ w w' k i. visit_clears edges (suc (length nodes)) [] w w' k) (λ j m. absurd m) e).0

  explore_ends : outcome ≢ too_deep
  explore_ends = visit_all_ends edges explore [] (fragment_ids nodes) (λ v k i.
      visit_ends edges (fragment_ids nodes) (suc (length nodes)) [] v k
        (edges_of-In n initial nodes nodes) tt (λ j m. absurd m) i
        (omega (arith, length-fragment_ids nodes)))

  -- The search answers that there is a cycle exactly when the dependencies of the nodes have one.
  pub has_dependency_cycle_iff :
      (has_dependency_cycle n nodes initial ≡ true) ↔ ((c : ℕ) × Reaches edges c c)
  unfolding has_dependency_cycle
  has_dependency_cycle_iff = elim (Visit-cases outcome) [
    | inl q ↦ (λ _. explore_cyclic q, λ _. ap found_cycle q)
    | inr (inl (v, q)) ↦ (
      λ e. absurd (ground (arith, e, ap found_cycle q)),
      λ walk.
          let at =
            edges_of-source n initial nodes nodes (walk.0) _ (Reaches-source edges (walk.1)).1 in
          absurd (clean_acyclic edges (explore_clear v q walk.0 at) walk.1),
    )
    | inr (inr q) ↦ absurd (explore_ends q)
  ]
