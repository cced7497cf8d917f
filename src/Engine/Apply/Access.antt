-- ===== src/Engine/Apply/Access.antt =====
-- How the handlers of packages/engine/src/apply-event.ts look objects up and write to them.
use lldm.Prelude.{Bool, Option, none, some, List, ◌==◌, if◌then◌else◌, find, modify}
use lldm.Contracts.Ids.{OpaqueId}
use lldm.Contracts.Characters.{PlayableCharacter}
use lldm.Contracts.Combat.{CombatState, CombatParticipant, PendingCheck}
use lldm.Contracts.Challenges.{ChallengeState}
use lldm.Contracts.Social.{SocialState}
use lldm.Contracts.Rituals.{RitualState}
use lldm.Contracts.GameState.{GameState}

unfoldable pub character_by_id : GameState → OpaqueId → Option PlayableCharacter
character_by_id s id = find (λ c. c.character_id == id) s.party.characters

unfoldable pub character_by_actor_id : GameState → OpaqueId → Option PlayableCharacter
character_by_actor_id s id = find (λ c. c.foundation.actor_id == id) s.party.characters

abbrev pub set_characters : GameState → List PlayableCharacter → GameState
set_characters s cs = record s { party = record (s.party) { characters = cs } }

-- A write to the character that the look-up returned.
abbrev pub update_character :
    GameState → OpaqueId → (PlayableCharacter → PlayableCharacter) → GameState
update_character s id f = set_characters s (modify (λ c. c.character_id == id) f s.party.characters)

abbrev pub update_character_of_actor :
    GameState → OpaqueId → (PlayableCharacter → PlayableCharacter) → GameState
update_character_of_actor s id f =
    set_characters s (modify (λ c. c.foundation.actor_id == id) f s.party.characters)

abbrev pub is_pending : OpaqueId → PendingCheck → Bool
is_pending id p = p.pending_check_id == id

abbrev pub pending_check : GameState → OpaqueId → Option PendingCheck
pending_check s id = find (is_pending id) s.pending_physical_checks

abbrev pub update_pending : GameState → OpaqueId → (PendingCheck → PendingCheck) → GameState
update_pending s id f = record s {
  pending_physical_checks = modify (is_pending id) f s.pending_physical_checks;
}

abbrev pub set_combat : GameState → CombatState → GameState
set_combat s c = record s { combat = some c }

-- `next.combat === null || next.combat.combat_id !== id`, as the combat where that is false.
abbrev pub combat_named : Option CombatState → OpaqueId → Option CombatState
combat_named none id = none
combat_named (some c) id = if c.combat_id == id then some c else none

abbrev pub is_actor : OpaqueId → CombatParticipant → Bool
is_actor id p = p.actor_id == id

abbrev pub participant : CombatState → OpaqueId → Option CombatParticipant
participant c id = find (is_actor id) c.participants

abbrev pub update_participant :
    CombatState → OpaqueId → (CombatParticipant → CombatParticipant) → CombatState
update_participant c id f = record c { participants = modify (is_actor id) f c.participants }

abbrev pub is_challenge : OpaqueId → ChallengeState → Bool
is_challenge id c = c.challenge_id == id

abbrev pub update_challenge : GameState → OpaqueId → (ChallengeState → ChallengeState) → GameState
update_challenge s id f = record s { challenges = modify (is_challenge id) f s.challenges }

abbrev pub is_social : OpaqueId → SocialState → Bool
is_social id c = c.npc_actor_id == id

abbrev pub update_social : GameState → OpaqueId → (SocialState → SocialState) → GameState
update_social s id f = record s { social_states = modify (is_social id) f s.social_states }

abbrev pub is_ritual : OpaqueId → RitualState → Bool
is_ritual id r = r.ritual_id == id

abbrev pub update_ritual : GameState → OpaqueId → (RitualState → RitualState) → GameState
update_ritual s id f = record s { rituals = modify (is_ritual id) f s.rituals }
