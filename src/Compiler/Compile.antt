-- ===== src/Compiler/Compile.antt =====
-- `ChainCompiler.compile` of packages/compiler/src/stateweaver/compiler/compiler.py: the smallest selection of
-- fragments that can be scheduled.
pub mod Selections
pub mod Found
pub mod Complete
use stateweaver.Common.{
  ℕ, zero, suc, Bool, true, false, not, ◌&&◌, ◌||◌, Option, none, some, List, [], ◌∷◌, ◌++◌, map,
  Result, ok, err, raise_if, ◌>>=◌, ◌>>◌, is_empty, unique, length, if◌then◌else◌,
}
use stateweaver.Contracts.Actions.{ActionEnvelope}
use stateweaver.Contracts.States.{Arithmetic, StateCondition}
use stateweaver.Compiler.Models.{
  CompilerFragment, fragment_id, RootState, TerminalGoal, CompiledChain, CausalProjection,
  CompilerDigests, ModelError, validate_chain,
}
use stateweaver.Compiler.States.{
  State, CompilationCode, CompilationError, failing, no_fragments, duplicate_fragment_id,
  goal_unreachable, dependency_cycle, mutually_exclusive_effect, invalid_chain, all_conditions,
  state_from_conditions,
}
use stateweaver.Compiler.Nodes.{
  fragment_ids, validate_nodes, sort_nodes, resequenced_envelope, effects_compatible,
  can_contribute,
}
use stateweaver.Compiler.Schedule.{Simulation, schedule}
use stateweaver.Compiler.Cycles.{has_dependency_cycle}

-- `itertools.combinations`.
unfoldable pub combinations : ℕ → List CompilerFragment → List (List CompilerFragment)
combinations zero fs = [] ∷ []
combinations (suc k) [] = []
combinations (suc k) (f ∷ fs) = map (λ xs. f ∷ xs) (combinations k fs) ++ combinations (suc k) fs

-- The selections in the order of the two loops: `count` sizes from `size` on.
unfoldable pub selections : (count size : ℕ) → List CompilerFragment → List (List CompilerFragment)
selections zero size fs = []
selections (suc count) size fs = combinations size fs ++ selections count (suc size) fs

-- How the two loops end: with a simulation, or with `first_error` and `conflict_error`.
pub data Exploration : Type 0 where
  found : Simulation → Exploration
  exhausted : (first conflict : Option CompilationError) → Exploration

abbrev pub or_else : Option CompilationError → CompilationError → Option CompilationError
or_else (some e) d = some e
or_else none d = some d

abbrev pub is_conflict : CompilationCode → Bool
is_conflict mutually_exclusive_effect = true
is_conflict _ = false

-- `first_error or CompilationError("GOAL_UNREACHABLE")`.
abbrev pub first_or_unreachable : Option CompilationError → CompilationError
first_or_unreachable none = failing goal_unreachable
first_or_unreachable (some e) = e

module _ (n : Arithmetic) where
  -- The body of the `try`.
  unfoldable pub attempt :
      State → ℕ → List StateCondition → List CompilerFragment → Result CompilationError Simulation
  attempt initial clock goal selected = do
    effects_compatible n selected []
    schedule n selected initial clock goal

  -- The two loops over the selections.
  unfoldable pub explore :
      State
      → ℕ
      → List StateCondition
      → List (List CompilerFragment)
      → (first conflict : Option CompilationError) → Exploration
  explore initial clock goal [] first conflict = exhausted first conflict
  explore initial clock goal (xs ∷ xss) first conflict = elim (attempt initial clock goal xs) [
    | err e ↦
        explore initial clock goal xss (or_else first e)
          (if is_conflict e.code then some e else conflict)
    | ok sim ↦
        let rest = explore initial clock goal xss first conflict in
        if all_conditions n goal sim.state then found sim else rest
  ]

  -- `relevant`.
  unfoldable pub relevant_nodes :
      List StateCondition → List CompilerFragment → List CompilerFragment → List CompilerFragment
  relevant_nodes goal nodes [] = []
  relevant_nodes goal nodes (f ∷ fs) =
      let rest = relevant_nodes goal nodes fs in
      if can_contribute n f goal nodes then f ∷ rest else rest

  -- The error after the loops.
  abbrev pub exhausted_error :
      List CompilerFragment → State → (first conflict : Option CompilationError) → CompilationError
  exhausted_error nodes initial first conflict =
      if has_dependency_cycle n nodes initial
      then failing dependency_cycle
      else elim conflict [ some e ↦ e | none ↦ first_or_unreachable first ]

  -- What precedes the loops: the relevant nodes and the initial state.
  unfoldable pub prepare :
      RootState
      → List CompilerFragment
      → TerminalGoal
      → Result CompilationError (List CompilerFragment × State)
  prepare root fragments goal = do
    let nodes = sort_nodes fragments
    raise_if (is_empty nodes) (failing no_fragments)
    raise_if (not (unique (fragment_ids nodes))) (failing duplicate_fragment_id)
    validate_nodes root (fragment_ids nodes) nodes []
    initial ← state_from_conditions n root.conditions
    let relevant = relevant_nodes goal.conditions nodes nodes
    raise_if (is_empty relevant) (failing goal_unreachable)
    ok (relevant, initial)

-- The envelopes in order, from the index `k`.
unfoldable pub resequenced :
    ℕ → List CompilerFragment → Result CompilationError (List ActionEnvelope)
resequenced k [] = ok []
resequenced k (f ∷ fs) = do
  e ← resequenced_envelope f.envelope k
  es ← resequenced (suc k) fs
  ok (e ∷ es)

abbrev of_chain : Result ModelError CompiledChain → Result CompilationError CompiledChain
of_chain (ok c) = ok c
of_chain (err _) = err (failing invalid_chain)

module _ (h : CompilerDigests) (chain_id : ℕ) (root : RootState) (goal : TerminalGoal) where
  abbrev pub projection : List CompilerFragment → List ActionEnvelope → CausalProjection
  projection ordered envelopes = record {
    root_seed_id = root.root_seed_id;
    world_id = root.world_id;
    fragment_ids = fragment_ids ordered;
    action_envelopes = envelopes;
    root_state_hash = h.root root;
    fragment_semantic_hashes = map h.fragment ordered;
    terminal_goal = goal;
  }

  abbrev pub chain_of : List CompilerFragment → List ActionEnvelope → CompiledChain
  chain_of ordered envelopes = record {
    chain_id = chain_id;
    root_seed_id = root.root_seed_id;
    world_id = root.world_id;
    fragment_ids = fragment_ids ordered;
    action_envelopes = envelopes;
    root_state_hash = h.root root;
    fragment_semantic_hashes = map h.fragment ordered;
    terminal_goal = goal;
    causal_hash = h.causal (projection ordered envelopes);
  }

  -- The chain of a simulation.
  unfoldable pub assemble : Simulation → Result CompilationError CompiledChain
  assemble sim = do
    envelopes ← resequenced 0 sim.ordered
    of_chain (validate_chain h (chain_of sim.ordered envelopes))

  -- `compile`.
  unfoldable pub compile :
      Arithmetic → List CompilerFragment → Result CompilationError CompiledChain
  compile n fragments = do
    (relevant, initial) ← prepare n root fragments goal
    elim (explore n initial root.clock_ms goal.conditions (selections (length relevant) 1 relevant)
        none none) [
          | found sim ↦ assemble sim
          | exhausted first conflict ↦ err (exhausted_error n relevant initial first conflict)
        ]
