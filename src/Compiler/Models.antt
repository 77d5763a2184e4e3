-- ===== src/Compiler/Models.antt =====
-- packages/compiler/src/stateweaver/compiler/models.py: fragments with their bindings, the root, the goal and
-- the compiled chain. Digests are arguments.
use stateweaver.Common.{
  ℕ, not, ◌&&◌, ◌||◌, Option, List, Result, ok, raise_if, ◌>>◌, ◌==◌, ltb, same, is_some, is_empty,
  length, contains, unique, Text, ℕ_discrete,
}
use stateweaver.Contracts.Actions.{Action, ActionEnvelope}
use stateweaver.Contracts.States.{StateCondition}
use stateweaver.Contracts.Fragments.{TransitionFragment}

pub record TimeWindow : Type 0 where
  pub opens_at_ms : ℕ
  pub closes_at_ms : ℕ

pub record FragmentBinding : Type 0 where
  pub identity_handle : Option Text
  pub session_handle : Option ℕ
  pub artifact_handle : Option ℕ

pub record CompilerFragment : Type 0 where
  pub fragment : TransitionFragment
  pub envelope : ActionEnvelope
  pub world_id : ℕ
  pub binding : FragmentBinding
  pub window : TimeWindow
  pub after : List ℕ
  pub cost : ℕ

-- `fragment_id`.
abbrev pub fragment_id : CompilerFragment → ℕ
fragment_id f = f.fragment.transition_id

pub record RootState : Type 0 where
  pub root_seed_id : ℕ
  pub world_id : ℕ
  pub conditions : List StateCondition
  pub clock_ms : ℕ

pub record TerminalGoal : Type 0 where
  pub goal_id : ℕ
  pub conditions : List StateCondition

pub data ModelError : Type 0 where
  window_backward session_without_identity world_unbound action_unbound ordering_invalid :
      ModelError
  goal_empty chain_misaligned chain_repeats causal_hash_differs : ModelError

-- `window_is_forward`.
unfoldable pub validate_window : TimeWindow → Result ModelError TimeWindow
validate_window w = do raise_if (ltb w.closes_at_ms w.opens_at_ms) window_backward; ok w

-- `session_requires_identity`.
unfoldable pub validate_binding : FragmentBinding → Result ModelError FragmentBinding
validate_binding b = do
  raise_if (is_some b.session_handle && not (is_some b.identity_handle)) session_without_identity
  ok b

unfoldable pub Action-discrete : Discrete Action
Action-discrete = hlevel ℕ_discrete

-- `transition_and_envelope_are_bound`; actions with the same canonical bytes are equal.
unfoldable pub validate_compiler_fragment : CompilerFragment → Result ModelError CompilerFragment
validate_compiler_fragment f = do
  raise_if (not (f.envelope.world_id == f.world_id)) world_unbound
  raise_if (not (same Action-discrete f.fragment.action f.envelope.action)) action_unbound
  raise_if (contains f.after (fragment_id f) || not (unique f.after)) ordering_invalid
  ok f

-- `goal_has_conditions`.
unfoldable pub validate_goal : TerminalGoal → Result ModelError TerminalGoal
validate_goal g = do raise_if (is_empty g.conditions) goal_empty; ok g

pub record CompiledChain : Type 0 where
  pub chain_id : ℕ
  pub root_seed_id : ℕ
  pub world_id : ℕ
  pub fragment_ids : List ℕ
  pub action_envelopes : List ActionEnvelope
  pub root_state_hash : ℕ
  pub fragment_semantic_hashes : List ℕ
  pub terminal_goal : TerminalGoal
  pub causal_hash : ℕ

-- What `causal_projection` projects; the flag it adds is constant.
pub record CausalProjection : Type 0 where
  pub root_seed_id : ℕ
  pub world_id : ℕ
  pub fragment_ids : List ℕ
  pub action_envelopes : List ActionEnvelope
  pub root_state_hash : ℕ
  pub fragment_semantic_hashes : List ℕ
  pub terminal_goal : TerminalGoal

pub record CompilerDigests : Type 0 where
  pub root : RootState → ℕ
  pub fragment : CompilerFragment → ℕ
  pub causal : CausalProjection → ℕ

unfoldable pub causal_projection : CompiledChain → CausalProjection
causal_projection c = record {
  root_seed_id = c.root_seed_id;
  world_id = c.world_id;
  fragment_ids = c.fragment_ids;
  action_envelopes = c.action_envelopes;
  root_state_hash = c.root_state_hash;
  fragment_semantic_hashes = c.fragment_semantic_hashes;
  terminal_goal = c.terminal_goal;
}

-- `chain_shape_is_consistent`.
unfoldable pub validate_chain : CompilerDigests → CompiledChain → Result ModelError CompiledChain
unfolding causal_projection
validate_chain h c = do
  raise_if
      (is_empty c.fragment_ids
        || not (length c.fragment_ids == length c.action_envelopes)
        || not (length c.fragment_ids == length c.fragment_semantic_hashes))
      chain_misaligned
  raise_if (not (unique c.fragment_ids)) chain_repeats
  raise_if (not (c.causal_hash == h.causal (causal_projection c))) causal_hash_differs
  ok c
