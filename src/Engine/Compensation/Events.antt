-- ===== src/Engine/Compensation/Events.antt =====
-- The inverses of events on resources, conditions, leverage and stances.
use lldm.Prelude.{
  ℕ, ◌≡◌, arith, Bool, true, false, not, ◌==◌, inl, inr, find, ok, find-holds, find-modify,
  find-append, modify-modify, remove_first-append, filter-append_last, any-append_last,
  Option-cases,
}
use lldm.Contracts.Ids.{OpaqueId}
use lldm.Contracts.Characters.{PlayableCharacter, CharacterCondition}
use lldm.Contracts.GameState.{GameState}
use lldm.Contracts.Social.{SocialStance, Leverage}
use lldm.Contracts.Events.{
  ResourceOwner, ResourceName, ResourceChange, StanceChange, party_scope, character_scope,
  guard_resource, exertion_resource, supply_resource,
}
use lldm.Engine.Apply.Access.{character_by_id, character_by_actor_id}
use lldm.Engine.Apply.Checks.{apply_spark_spent, apply_spark_restored, set_spark_available}
use lldm.Engine.Apply.Characters.{apply_resource_changed, set_guard, set_exertion}
use lldm.Engine.Apply.Features.{
  apply_condition_applied, apply_condition_removed, is_condition, add_condition, drop_condition,
}
use lldm.Engine.Apply.Social.{
  apply_leverage_created, apply_leverage_spent, apply_stance_changed, stance_distance, stance_index,
  set_stance, add_leverage, drop_leverage, is_leverage,
}
use lldm.Engine.Apply.Access.{is_social}

pub spark_undo :
    (s : GameState) (actor : OpaqueId) {t : GameState}
    → apply_spark_spent s actor ≡ ok t
    → apply_spark_restored t actor ≡ ok s
unfolding apply_spark_spent apply_spark_restored character_by_actor_id
spark_undo s actor {t} h = elim (Option-cases (character_by_actor_id s actor)) [
  | inl e ↦ ground (arith, e)
  | inr (c, e) ↦ ground (
    arith,
    e,
    find-holds _ _ c e,
    find-modify (λ c. c.foundation.actor_id == actor) (set_spark_available false) s.party.characters
        c e,
    modify-modify (λ c. c.foundation.actor_id == actor) (set_spark_available false)
        (set_spark_available true) s.party.characters c e,
  )
]

abbrev pub swapped : ResourceChange → ResourceChange
swapped e = record e { previous = e.current; current = e.previous }

abbrev has_id : OpaqueId → PlayableCharacter → Bool
has_id id c = c.character_id == id

guard_undo :
    (s : GameState) (id : OpaqueId) (previous current : ℕ) {t : GameState}
    → let change : ResourceChange = record {
      owner = character_scope id;
      resource = guard_resource;
      previous = previous;
      current = current;
    } in
      apply_resource_changed s change ≡ ok t → apply_resource_changed t (swapped change) ≡ ok s
unfolding apply_resource_changed character_by_id
guard_undo s id previous current {t} h = elim (Option-cases (find (has_id id) s.party.characters)) [
  | inl e ↦ ground (arith, e)
  | inr (c, e) ↦ ground (
    arith,
    e,
    find-holds (has_id id) _ c e,
    find-modify (has_id id) (set_guard current) s.party.characters c e,
    modify-modify (has_id id) (set_guard current) (set_guard previous) s.party.characters c e,
  )
]

exertion_undo :
    (s : GameState) (id : OpaqueId) (previous current : ℕ) {t : GameState}
    → let change : ResourceChange = record {
      owner = character_scope id;
      resource = exertion_resource;
      previous = previous;
      current = current;
    } in
      apply_resource_changed s change ≡ ok t → apply_resource_changed t (swapped change) ≡ ok s
unfolding apply_resource_changed character_by_id
exertion_undo s id previous current {t} h =
    elim (Option-cases (find (has_id id) s.party.characters)) [
      | inl e ↦ ground (arith, e)
      | inr (c, e) ↦ ground (
        arith,
        e,
        find-holds (has_id id) _ c e,
        find-modify (has_id id) (set_exertion current) s.party.characters c e,
        modify-modify (has_id id) (set_exertion current) (set_exertion previous) s.party.characters
            c e,
      )
    ]

supply_undo :
    (s : GameState) (previous current : ℕ) {t : GameState}
    → let change : ResourceChange = record {
      owner = party_scope;
      resource = supply_resource;
      previous = previous;
      current = current;
    } in
      apply_resource_changed s change ≡ ok t → apply_resource_changed t (swapped change) ≡ ok s
unfolding apply_resource_changed
supply_undo s previous current h = ground arith

pub condition_undo :
    (s : GameState) (id : OpaqueId) (d : CharacterCondition) {t : GameState}
    → apply_condition_applied s id d ≡ ok t
    → apply_condition_removed t id d.condition_id ≡ ok s
unfolding apply_condition_applied apply_condition_removed character_by_id
condition_undo s id d {t} h = elim (Option-cases (find (has_id id) s.party.characters)) [
  | inl e ↦ ground (arith, e)
  | inr (c, e) ↦ ground (
    arith,
    e,
    find-holds (has_id id) _ c e,
    find-modify (has_id id) (add_condition d) s.party.characters c e,
    remove_first-append (is_condition d.condition_id) c.conditions d,
    find-append (is_condition d.condition_id) c.conditions d,
    modify-modify (has_id id) (add_condition d) (drop_condition d.condition_id) s.party.characters c
        e,
  )
]

abbrev change_of : ResourceOwner → ResourceName → ℕ → ℕ → ResourceChange
change_of owner resource previous current = record {
  owner = owner;
  resource = resource;
  previous = previous;
  current = current;
}

resource_undo_by :
    (s : GameState) (owner : ResourceOwner) (resource : ResourceName) (p c : ℕ) {t : GameState}
    → apply_resource_changed s (change_of owner resource p c) ≡ ok t
    → apply_resource_changed t (change_of owner resource c p) ≡ ok s
resource_undo_by s party_scope supply_resource p c h = supply_undo s p c h
resource_undo_by s party_scope guard_resource p c h = unfold apply_resource_changed in absurd (cc h)
resource_undo_by s party_scope exertion_resource p c h =
    unfold apply_resource_changed in absurd (cc h)
resource_undo_by s (character_scope id) guard_resource p c h = guard_undo s id p c h
resource_undo_by s (character_scope id) exertion_resource p c h = exertion_undo s id p c h
resource_undo_by s (character_scope id) supply_resource p c h =
    absurd (unfold apply_resource_changed in ground arith)

pub resource_undo :
    (s : GameState) (e : ResourceChange) {t : GameState}
    → apply_resource_changed s e ≡ ok t
    → apply_resource_changed t (swapped e) ≡ ok s
resource_undo s e h = resource_undo_by s e.owner e.resource e.previous e.current h

pub leverage_undo :
    (s : GameState) (npc : OpaqueId) (l : Leverage) {t : GameState}
    → apply_leverage_created s npc l ≡ ok t
    → apply_leverage_spent t npc l.leverage_id ≡ ok s
unfolding apply_leverage_created apply_leverage_spent
leverage_undo s npc l {t} h = elim (Option-cases (find (is_social npc) s.social_states)) [
  | inl e ↦ ground (arith, e)
  | inr (c, e) ↦ ground (
    arith,
    e,
    find-holds (is_social npc) _ c e,
    find-modify (is_social npc) (add_leverage l) s.social_states c e,
    filter-append_last (λ x. not (x.leverage_id == l.leverage_id)) c.leverage l,
    any-append_last (is_leverage l.leverage_id) c.leverage l,
    modify-modify (is_social npc) (add_leverage l) (drop_leverage l.leverage_id) s.social_states c
        e,
  )
]

stance_distance_sym : (a b : SocialStance) → stance_distance a b ≡ stance_distance b a
stance_distance_sym a b = omega arith

stance_eq : (a b : SocialStance) → stance_index a ≡ stance_index b → a ≡ b
stance_eq a b h = ground arith

abbrev pub stance_back : StanceChange → StanceChange
stance_back e = record e { previous = e.current; current = e.previous }

pub stance_undo :
    (s : GameState) (e : StanceChange) {t : GameState}
    → apply_stance_changed s e ≡ ok t
    → apply_stance_changed t (stance_back e) ≡ ok s
unfolding apply_stance_changed
stance_undo s e {t} h = elim (Option-cases (find (is_social e.npc_actor_id) s.social_states)) [
  | inl p ↦ ground (arith, p)
  | inr (c, p) ↦ ground (
    arith,
    p,
    find-holds (is_social e.npc_actor_id) _ c p,
    stance_eq c.stance e.previous,
    stance_distance_sym e.current e.previous,
    find-modify (is_social e.npc_actor_id) (set_stance e.current) s.social_states c p,
    modify-modify (is_social e.npc_actor_id) (set_stance e.current) (set_stance e.previous)
        s.social_states c p,
  )
]
