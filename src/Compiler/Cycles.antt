-- ===== src/Compiler/Cycles.antt =====
-- `_has_dependency_cycle` of packages/compiler/src/stateweaver/compiler/compiler.py: a depth-first search.
pub mod Walks
pub mod Correct
use stateweaver.Common.{
  ℕ, zero, suc, Bool, true, false, ◌||◌, Option, none, some, List, [], ◌∷◌, ◌++◌, any, contains,
  length, ◌==◌, if◌then◌else◌,
}
use stateweaver.Contracts.States.{Arithmetic, StateCondition}
use stateweaver.Compiler.Models.{CompilerFragment, fragment_id}
use stateweaver.Compiler.States.{State, condition_matches, effect_supports}
use stateweaver.Compiler.Nodes.{fragment_ids}

-- The end of a visit: a cycle was met, or it was not and the set of visited nodes has grown, or the bound on the
-- depth was met.
pub data Visit : Type 0 where
  cyclic : Visit
  clear : (visited : List ℕ) → Visit
  too_deep : Visit

module _ (n : Arithmetic) (initial : State) where
  -- `producers`.
  unfoldable pub producers : StateCondition → List CompilerFragment → List ℕ
  producers c [] = []
  producers c (f ∷ fs) =
      let rest = producers c fs in
      if any (λ e. effect_supports n e c) f.fragment.effects then fragment_id f ∷ rest else rest

  -- What the node waits for: the producers of the preconditions that the root does not meet.
  unfoldable pub awaited : List StateCondition → List CompilerFragment → List ℕ
  awaited [] nodes = []
  awaited (c ∷ cs) nodes =
      let rest = awaited cs nodes in
      if condition_matches n initial c then rest else producers c nodes ++ rest

  -- `edges[identifier]`.
  unfoldable pub edges_of : List CompilerFragment → List CompilerFragment → ℕ → List ℕ
  edges_of nodes [] k = []
  edges_of nodes (f ∷ fs) k =
      let rest = edges_of nodes fs k in
      if fragment_id f == k then awaited f.fragment.preconditions nodes ++ rest else rest

-- `visit`, over any graph; `active` holds the nodes on the way to this one.
unfoldable pub visit_all : (List ℕ → ℕ → Visit) → List ℕ → List ℕ → Visit
visit_all step visited [] = clear visited
visit_all step visited (k ∷ ks) = elim (step visited k) [
  | cyclic ↦ cyclic
  | too_deep ↦ too_deep
  | clear visited' ↦ visit_all step visited' ks
]

unfoldable pub visit : (depth : ℕ) → (ℕ → List ℕ) → (active visited : List ℕ) → ℕ → Visit
visit zero edges active visited k = too_deep
visit (suc depth) edges active visited k =
    let rest = visit_all (λ v j. visit depth edges (k ∷ active) v j) (k ∷ visited) (edges k) in
    if contains active k then cyclic else if contains visited k then clear visited else rest

abbrev pub found_cycle : Visit → Bool
found_cycle cyclic = true
found_cycle _ = false

-- `_has_dependency_cycle`: a path of distinct nodes has at most as many as there are.
unfoldable pub has_dependency_cycle : Arithmetic → List CompilerFragment → State → Bool
has_dependency_cycle n nodes initial = found_cycle (
    visit_all (λ v j. visit (suc (length nodes)) (edges_of n initial nodes nodes) [] v j) []
      (fragment_ids nodes))
