-- ===== src/Contracts/Characters.antt =====
-- packages/contracts/src/domains/playable-characters.ts. Of the narrative foundation the record keeps
-- what the engine reads: the identities and the gear; the prose fields are left out.
use lldm.Prelude.{
  ℕ, String, Bool, true, false, ◌&&◌, not, Option, none, some, List, [], ◌∷◌, ◌++◌, map, ltb, leb,
  ◌==◌, is_some,
}
use text.Mathlib.Text.{◌==◌ as str_eq}
use lldm.Contracts.Ids.{OpaqueId, ContentReference}
use lldm.Contracts.Validation.{ValidationIssue, issue, issue_if, duplicate_issues}

pub record BoundedPool : Type 0 where
  pub current : ℕ
  pub maximum : ℕ

-- A slot's number is its place in the tuple of three.
pub data WoundSlot : Type 0 where
  empty_wound : WoundSlot
  filled_wound : OpaqueId → String → WoundSlot

pub record WoundSlots : Type 0 where
  pub slot_1 : WoundSlot
  pub slot_2 : WoundSlot
  pub slot_3 : WoundSlot

pub record Spark : Type 0 where
  pub available : Bool
  pub complication_recovery_used : Bool

pub record CharacterResources : Type 0 where
  pub guard_pool : BoundedPool
  pub wounds : WoundSlots
  pub exertion : BoundedPool
  pub spark : Spark

pub record SceneAbilityUse : Type 0 where
  pub ability : ContentReference
  pub used : Bool

pub data ConditionDuration : Type 0 where
  round_duration scene_duration until_removed : ConditionDuration

pub record CharacterCondition : Type 0 where
  pub condition_id : OpaqueId
  pub definition : ContentReference
  pub source : String
  pub duration : ConditionDuration

pub data GearStatus : Type 0 where
  ready_gear spent_gear : GearStatus

-- `definition: null, status: "empty"`, or a definition with its status.
pub data GearBinding : Type 0 where
  empty_gear : GearBinding
  bound_gear : ContentReference → GearStatus → GearBinding

pub record ResolvedGearSlot : Type 0 where
  pub slot : ℕ
  pub binding : GearBinding

pub record GearItem : Type 0 where
  pub item_label : String
  pub note : Option String

pub record NarrativeGearSlot : Type 0 where
  pub slot : ℕ
  pub item : Option GearItem

pub record CharacterFoundation : Type 0 where
  pub character_id : OpaqueId
  pub actor_id : OpaqueId
  pub significant_gear : List NarrativeGearSlot

pub record ResolvedOptions : Type 0 where
  pub heritage_gift : ContentReference
  pub upbringing : ContentReference
  pub archetype : ContentReference
  pub path : Option ContentReference
  pub talent : Option ContentReference
  pub capstone : Option ContentReference
  pub signature_technique : ContentReference

pub record PlayableCharacter : Type 0 where
  pub character_id : OpaqueId
  pub foundation : CharacterFoundation
  pub rank : ℕ
  pub resolved_options : ResolvedOptions
  pub resources : CharacterResources
  pub significant_gear : List NarrativeGearSlot
  pub resolved_significant_gear : List ResolvedGearSlot
  pub scene_ability_uses : List SceneAbilityUse
  pub conditions : List CharacterCondition

-- Equality of the JSON texts of narrative gear.
same_note : Option String → Option String → Bool
same_note none none = true
same_note (some a) (some b) = str_eq a b
same_note _ _ = false

same_item : Option GearItem → Option GearItem → Bool
unfolding same_note
same_item none none = true
same_item (some a) (some b) = str_eq a.item_label b.item_label && same_note a.note b.note
same_item _ _ = false

unfoldable pub same_narrative_gear : List NarrativeGearSlot → List NarrativeGearSlot → Bool
unfolding same_item
same_narrative_gear [] [] = true
same_narrative_gear (a ∷ rest) (b ∷ others) =
    a.slot == b.slot && same_item a.item b.item && same_narrative_gear rest others
same_narrative_gear _ _ = false

abbrev is_empty_gear : GearBinding → Bool
is_empty_gear empty_gear = true
is_empty_gear (bound_gear d s) = false

abbrev same_flag : Bool → Bool → Bool
same_flag true b = b
same_flag false b = not b

-- The loop over `resolved_significant_gear` with the narrative slot at the same index.
pub gear_binding_issues : List ResolvedGearSlot → List NarrativeGearSlot → List ValidationIssue
gear_binding_issues [] narrative = []
gear_binding_issues (g ∷ gs) [] = issue "playable.gear_binding_mismatch" ∷ gear_binding_issues gs []
gear_binding_issues (g ∷ gs) (n ∷ ns) =
    issue_if (not (same_flag (not (is_some n.item)) (is_empty_gear g.binding)))
      "playable.gear_binding_mismatch"
    ++ gear_binding_issues gs ns

-- One round of the loop over `required`.
pub feature_issues : Bool → Option ContentReference → List ValidationIssue
feature_issues is_required value =
    issue_if (is_required && not (is_some value)) "rank.missing_feature"
    ++ issue_if (not is_required && is_some value) "rank.feature_too_early"

pub filled_wound_ids : List WoundSlot → List OpaqueId
filled_wound_ids [] = []
filled_wound_ids (empty_wound ∷ ws) = filled_wound_ids ws
filled_wound_ids (filled_wound id name ∷ ws) = id ∷ filled_wound_ids ws

abbrev pub wound_list : WoundSlots → List WoundSlot
wound_list w = w.slot_1 ∷ w.slot_2 ∷ w.slot_3 ∷ []

-- The issues of `validatePlayableCharacterState` behind the structural check.
unfoldable pub playable_character_issues : PlayableCharacter → List ValidationIssue
unfolding same_narrative_gear gear_binding_issues feature_issues filled_wound_ids duplicate_issues
playable_character_issues c =
    let options = c.resolved_options in
    issue_if (not (c.character_id == c.foundation.character_id))
      "playable.foundation_identity_mismatch"
    ++ issue_if (ltb c.resources.guard_pool.maximum c.resources.guard_pool.current)
        "resource.guard_overflow"
    ++ issue_if (not (same_narrative_gear c.significant_gear c.foundation.significant_gear))
        "playable.gear_narrative_mismatch"
    ++ gear_binding_issues c.resolved_significant_gear c.significant_gear
    ++ feature_issues (leb 2 c.rank) options.path
    ++ feature_issues (leb 3 c.rank) options.talent
    ++ feature_issues (leb 4 c.rank) options.capstone
    ++ duplicate_issues (filled_wound_ids (wound_list c.resources.wounds))
        "wound.duplicate_identity"
    ++ duplicate_issues (map (λ u. u.ability.content_definition_id) c.scene_ability_uses)
        "scene_use.duplicate_ability"
    ++ duplicate_issues (map (λ d. d.condition_id) c.conditions) "condition.duplicate_identity"
