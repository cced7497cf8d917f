-- ===== src/Engine/Apply/Social.antt =====
-- The social cases of `applyGameEvent`.
use lldm.Prelude.{
  ℕ, ◌+◌, ◌-◌, Bool, ◌||◌, not, [], ◌∷◌, ◌++◌, ◌==◌, leb, ltb, find, any, filter, length, is_some,
  Result, ok, ◌>>=◌, ◌>>◌, guard, refuse_if, require,
}
use lldm.Contracts.Ids.{OpaqueId}
use lldm.Contracts.Checks.{OutcomeDegree, triumph, success}
use lldm.Contracts.Combat.{social_check}
use lldm.Contracts.Social.{SocialState, SocialStance, closed, guarded, receptive, aligned, Leverage}
use lldm.Contracts.GameState.{GameState, SchemaChecks, validate_social}
use lldm.Contracts.Events.{StanceChange, SocialPending}
use lldm.Engine.Apply.Access.{is_social, update_social, pending_check, update_pending}
use lldm.Engine.Apply.Checks.{continue_with}
use lldm.Engine.Apply.Challenges.{is_valid}

unfoldable pub apply_social_established : SchemaChecks → GameState → SocialState → Result GameState
apply_social_established schema s social = do
  refuse_if
      (any (is_social social.npc_actor_id) s.social_states
        || not (is_valid (validate_social schema social)))
      "Social state is invalid or duplicated."
  ok (record s { social_states = s.social_states ++ social ∷ [] })

unfoldable pub apply_social_pending : GameState → SocialPending → Result GameState
apply_social_pending s e = do
  pending ← require (pending_check s e.pending_check_id) "Social pending check is unavailable."
  refuse_if (is_some pending.continuation) "Social pending check is unavailable."
  guard (any (is_social e.npc_actor_id) s.social_states) "Social state was not found."
  ok (
      update_pending s e.pending_check_id
        (continue_with (social_check e.npc_actor_id e.requested_stance e.challenged_limit_id)))

abbrev pub stance_index : SocialStance → ℕ
stance_index closed = 0
stance_index guarded = 1
stance_index receptive = 2
stance_index aligned = 3

-- `Math.abs(a - b)`: one of the truncated differences is 0.
abbrev pub stance_distance : SocialStance → SocialStance → ℕ
stance_distance a b = (stance_index a - stance_index b) + (stance_index b - stance_index a)

abbrev pub maximum_distance : OutcomeDegree → ℕ
maximum_distance triumph = 2
maximum_distance success = 1
maximum_distance _ = 0

abbrev pub set_stance : SocialStance → SocialState → SocialState
set_stance stance c = record c { stance = stance }

unfoldable pub apply_stance_changed : GameState → StanceChange → Result GameState
apply_stance_changed s e = do
  c ← require (find (is_social e.npc_actor_id) s.social_states) "Social state was not found."
  let distance = stance_distance e.current e.previous
  refuse_if
      (not (stance_index c.stance == stance_index e.previous)
        || ltb distance 1
        || ltb (maximum_distance e.result.final_degree) distance)
      "Recorded social stance shift is invalid."
  ok (update_social s e.npc_actor_id (set_stance e.current))

abbrev pub is_leverage : OpaqueId → Leverage → Bool
is_leverage id l = l.leverage_id == id

abbrev pub add_leverage : Leverage → SocialState → SocialState
add_leverage l c = record c { leverage = c.leverage ++ l ∷ [] }

unfoldable pub apply_leverage_created : GameState → OpaqueId → Leverage → Result GameState
apply_leverage_created s npc l = do
  c ← require (find (is_social npc) s.social_states) "Social state was not found."
  refuse_if
      (leb c.leverage_capacity (length c.leverage) || any (is_leverage l.leverage_id) c.leverage)
      "Leverage capacity or identity is invalid."
  ok (update_social s npc (add_leverage l))

abbrev pub drop_leverage : OpaqueId → SocialState → SocialState
drop_leverage id c = record c { leverage = filter (λ l. not (l.leverage_id == id)) c.leverage }

unfoldable pub apply_leverage_spent : GameState → OpaqueId → OpaqueId → Result GameState
apply_leverage_spent s npc id = do
  c ← require (find (is_social npc) s.social_states) "Social state was not found."
  guard (any (is_leverage id) c.leverage) "Spent leverage was not present."
  ok (update_social s npc (drop_leverage id))
