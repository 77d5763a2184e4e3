-- ===== src/Compiler/Schedule.antt =====
-- `_schedule` of packages/compiler/src/stateweaver/compiler/compiler.py.
pub mod Runs
pub mod Sound
use stateweaver.Common.{
  ℕ, zero, suc, ◌+◌, Bool, true, false, not, ◌&&◌, Option, none, some, List, [], ◌∷◌, ◌++◌, Result,
  ok, err, raise_if, ◌>>=◌, ◌>>◌, ◌==◌, leb, ltb, all, contains, length, if◌then◌else◌,
}
use stateweaver.Contracts.Actions.{Action, time_advance}
use stateweaver.Contracts.States.{Arithmetic, StateCondition}
use stateweaver.Compiler.Models.{CompilerFragment, fragment_id}
use stateweaver.Compiler.States.{
  State, CompilationError, failing, failing_at, goal_unreachable, missing_precondition,
  ordering_blocked, time_window_missed, out_of_rounds, all_conditions, apply_effects,
}
use stateweaver.Compiler.Nodes.{fragment_ids}

-- `_Simulation`.
pub record Simulation : Type 0 where
  pub state : State
  pub clock_ms : ℕ
  pub ordered : List CompilerFragment

-- `set(node.after).issubset(...)`.
abbrev pub is_ordered : CompilerFragment → List CompilerFragment → Bool
is_ordered f ordered = all (contains (fragment_ids ordered)) f.after

abbrev pub in_window : CompilerFragment → ℕ → Bool
in_window f clock = leb f.window.opens_at_ms clock && leb clock f.window.closes_at_ms

-- `min(nodes, key=lambda item: item.fragment_id)`: the first of the least.
unfoldable pub least_node : CompilerFragment → List CompilerFragment → CompilerFragment
least_node f [] = f
least_node f (x ∷ xs) =
    if ltb (fragment_id x) (fragment_id f) then least_node x xs else least_node f xs

-- `remaining.remove(node)`; the identifiers are unique.
unfoldable pub without_node : ℕ → List CompilerFragment → List CompilerFragment
without_node k [] = []
without_node k (x ∷ xs) =
    let rest = without_node k xs in if fragment_id x == k then xs else x ∷ rest

-- The clock after an action.
abbrev pub clock_after : Action → ℕ → ℕ
clock_after (time_advance ms) clock = clock + ms
clock_after _ clock = clock

module _ (n : Arithmetic) where
  -- The condition of `ready`.
  abbrev pub is_ready : List CompilerFragment → State → ℕ → CompilerFragment → Bool
  is_ready ordered s clock f =
      is_ordered f ordered && all_conditions n f.fragment.preconditions s && in_window f clock

  unfoldable pub ready_nodes :
      List CompilerFragment → State → ℕ → List CompilerFragment → List CompilerFragment
  ready_nodes ordered s clock [] = []
  ready_nodes ordered s clock (f ∷ fs) =
      let rest = ready_nodes ordered s clock fs in
      if is_ready ordered s clock f then f ∷ rest else rest

  -- The error when no node is ready.
  abbrev pub blocked : List CompilerFragment → State → CompilerFragment → CompilationError
  blocked ordered s f =
      if not (all_conditions n f.fragment.preconditions s)
      then failing_at missing_precondition (fragment_id f)
      else if not (is_ordered f ordered)
      then failing_at ordering_blocked (fragment_id f)
      else failing_at time_window_missed (fragment_id f)

  -- The node that is placed next.
  unfoldable pub next_node :
      List CompilerFragment
      → State
      → ℕ
      → CompilerFragment
      → List CompilerFragment
      → Result CompilationError CompilerFragment
  next_node ordered s clock f fs = elim (ready_nodes ordered s clock (f ∷ fs)) [
    | [] ↦ err (blocked ordered s (least_node f fs))
    | x ∷ xs ↦ ok (least_node x xs)
  ]

  -- The loop, with at most `rounds` rounds left: each places one node.
  unfoldable pub schedule_rounds :
      (rounds : ℕ)
      → List StateCondition
      → List CompilerFragment
      → List CompilerFragment
      → State
      → ℕ
      → Result CompilationError Simulation
  schedule_rounds rounds goal [] ordered s clock = do
    raise_if (not (all_conditions n goal s)) (failing goal_unreachable)
    ok (record { state = s; clock_ms = clock; ordered = ordered })
  schedule_rounds zero goal (f ∷ fs) ordered s clock = err (failing out_of_rounds)
  schedule_rounds (suc rounds) goal (f ∷ fs) ordered s clock = do
    x ← next_node ordered s clock f fs
    s' ← apply_effects n x.fragment.effects s
    schedule_rounds rounds goal (without_node (fragment_id x) (f ∷ fs)) (ordered ++ x ∷ []) s'
        (clock_after x.fragment.action clock)

  -- `_schedule`.
  unfoldable pub schedule :
      List CompilerFragment → State → ℕ → List StateCondition → Result CompilationError Simulation
  schedule selected initial clock goal =
      schedule_rounds (length selected) goal selected [] initial clock
