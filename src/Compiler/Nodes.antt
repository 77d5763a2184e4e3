-- ===== src/Compiler/Nodes.antt =====
-- The checks and filters on fragments of packages/compiler/src/stateweaver/compiler/compiler.py, before any is
-- scheduled.
use stateweaver.Common.{
  ℕ, Bool, true, false, not, Option, none, some, List, [], ◌∷◌, ◌++◌, map, Result, ok, err,
  raise_if, ◌>>=◌, ◌>>◌, ◌==◌, leb, any, all, contains, Text, text_eq, if◌then◌else◌,
}
use stateweaver.Common.Dict.{Dict, lookup, insert}
use stateweaver.Contracts.Actions.{
  Action, http_request_action, browser_navigate, browser_fill, session_rotate, ActionEnvelope,
  validate_envelope,
}
use stateweaver.Contracts.States.{Arithmetic, Scalar, set, StateCondition, StateEffect, scalar_eq}
use stateweaver.Compiler.Models.{CompilerFragment, fragment_id, RootState}
use stateweaver.Compiler.States.{
  CompilationError, failing, failing_at, world_mismatch, identity_binding_mismatch,
  artifact_binding_mismatch, session_identity_conflict, unknown_ordering_dependency,
  mutually_exclusive_effect, invalid_envelope, effect_supports,
}

abbrev pub fragment_ids : List CompilerFragment → List ℕ
fragment_ids fs = map fragment_id fs

-- `_action_bindings`: identity and artifact of the action.
unfoldable pub action_bindings : Action → Option Text × Option ℕ
action_bindings (http_request_action _ _ i a) = (i, a)
action_bindings (browser_navigate _ i) = (i, none)
action_bindings (browser_fill a) = (none, some a)
action_bindings (session_rotate i) = (some i, none)
action_bindings _ = (none, none)

abbrev pub same_text : Option Text → Option Text → Bool
same_text none none = true
same_text (some a) (some b) = text_eq a b
same_text _ _ = false

abbrev pub same_handle : Option ℕ → Option ℕ → Bool
same_handle none none = true
same_handle (some a) (some b) = a == b
same_handle _ _ = false

-- The identity of the node's session: `setdefault`, and the conflict.
abbrev pub session_bound : CompilerFragment → Dict Text → Result CompilationError (Dict Text)
session_bound f sessions = elim f.binding.session_handle [
  | none ↦ ok sessions
  | some k ↦ elim f.binding.identity_handle [
    | none ↦ ok sessions
    | some i ↦ elim (lookup k sessions) [
      | none ↦ ok (insert k i sessions)
      | some j ↦
          if text_eq j i
          then ok sessions
          else err (failing_at session_identity_conflict (fragment_id f))
    ]
  ]
]

-- The body of the loop of `_validate_nodes`.
unfoldable pub validate_node :
    RootState → List ℕ → CompilerFragment → Dict Text → Result CompilationError (Dict Text)
unfolding action_bindings
validate_node root ids f sessions = do
  raise_if (not (f.world_id == root.world_id)) (failing_at world_mismatch (fragment_id f))
  let (identity, artifact) = action_bindings f.fragment.action
  raise_if (not (same_text f.binding.identity_handle identity))
      (failing_at identity_binding_mismatch (fragment_id f))
  raise_if (not (same_handle f.binding.artifact_handle artifact))
      (failing_at artifact_binding_mismatch (fragment_id f))
  sessions' ← session_bound f sessions
  raise_if (not (all (contains ids) f.after))
      (failing_at unknown_ordering_dependency (fragment_id f))
  ok sessions'

-- `_validate_nodes`.
unfoldable pub validate_nodes :
    RootState → List ℕ → List CompilerFragment → Dict Text → Result CompilationError (Unit {0})
validate_nodes root ids [] sessions = ok tt
validate_nodes root ids (f ∷ fs) sessions = do
  sessions' ← validate_node root ids f sessions
  validate_nodes root ids fs sessions'

-- `sorted(fragments, key=lambda item: item.fragment_id)`.
unfoldable pub insert_node : CompilerFragment → List CompilerFragment → List CompilerFragment
insert_node f [] = f ∷ []
insert_node f (x ∷ xs) =
    if leb (fragment_id f) (fragment_id x) then f ∷ x ∷ xs else x ∷ insert_node f xs

unfoldable pub sort_nodes : List CompilerFragment → List CompilerFragment
unfolding insert_node
sort_nodes [] = []
sort_nodes (f ∷ fs) = insert_node f (sort_nodes fs)

-- `_resequenced_envelope`: the copy is validated again.
abbrev pub resequenced_envelope : ActionEnvelope → ℕ → Result CompilationError ActionEnvelope
resequenced_envelope e k = elim (validate_envelope (record e { sequence = k })) [
  | ok e' ↦ ok e'
  | err _ ↦ err (failing invalid_envelope)
]

module _ (n : Arithmetic) where
  -- What a path has been set to.
  abbrev pub compatible_set : ℕ → StateEffect → Dict Scalar → Result CompilationError (Dict Scalar)
  compatible_set node e values = elim (lookup e.path values) [
    | none ↦ ok (insert e.path e.value values)
    | some v ↦
        if scalar_eq n v e.value then ok values else err (failing_at mutually_exclusive_effect node)
  ]

  abbrev pub compatible_effect :
      ℕ → StateEffect → Dict Scalar → Result CompilationError (Dict Scalar)
  compatible_effect node e values = elim e.operation [
    | set ↦ compatible_set node e values
    | _ ↦ ok values
  ]

  unfoldable pub compatible_effects :
      ℕ → List StateEffect → Dict Scalar → Result CompilationError (Dict Scalar)
  compatible_effects node [] values = ok values
  compatible_effects node (e ∷ es) values = do
    values' ← compatible_effect node e values
    compatible_effects node es values'

  -- `_assert_effects_compatible`.
  unfoldable pub effects_compatible :
      List CompilerFragment → Dict Scalar → Result CompilationError (Unit {0})
  effects_compatible [] values = ok tt
  effects_compatible (f ∷ fs) values = do
    values' ← compatible_effects (fragment_id f) f.fragment.effects values
    effects_compatible fs values'

  -- The preconditions of all nodes.
  unfoldable pub all_preconditions : List CompilerFragment → List StateCondition
  all_preconditions [] = []
  all_preconditions (f ∷ fs) = f.fragment.preconditions ++ all_preconditions fs

  -- `_can_contribute`.
  unfoldable pub can_contribute :
      CompilerFragment → List StateCondition → List CompilerFragment → Bool
  can_contribute f goals nodes =
      any (λ e. any (effect_supports n e) (goals ++ all_preconditions nodes)) f.fragment.effects
