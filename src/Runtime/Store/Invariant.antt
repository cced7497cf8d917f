-- ===== src/Runtime/Store/Invariant.antt =====
-- The invariant of the store of packages/runtime/src/application/in-memory-store.ts.
use lldm.Prelude.{
  ℕ, ◌≡◌, refl, ap, sym, ◌∙◌, arith, true, false, ◌||◌, some, List, [], ◌∷◌, ◌++◌, map, find,
  includes, length, ◌==◌, is_some, ok, Bool-cases, inl, inr,
}
use mathlib.Core.Path.{subst, subst⁻¹}
use lldm.Prelude.Names.{Distinct}
use lldm.Contracts.Ids.{OpaqueId}
use lldm.Contracts.Validation.{success, ValidationResult-cases, conclude-eq-success}
use lldm.Contracts.GameState.{GameState, SchemaChecks, validate_game_state}
use lldm.Runtime.Store.{
  StoreData, Campaign, StoredCommand, is_campaign, is_command, set_campaign, hash_game_state,
}
use lldm.Runtime.Store.Numbering.{numbered}

-- A campaign's events are numbered from 1 to its revision, and its hash is that of its state.
pub record CampaignSound (digest : GameState → OpaqueId) (c : Campaign) : Type 0 where
  pub counted : length c.events ≡ c.revision
  pub contiguous : numbered 1 c.events ≡ true
  pub hashed : c.state_hash ≡ digest c.state

abbrev pub AllCampaigns : (Campaign → Type 0) → List Campaign → Type 0
AllCampaigns P [] = Unit
AllCampaigns P (c ∷ cs) = P c × AllCampaigns P cs

pub record StoreSound (digest : GameState → OpaqueId) (store : StoreData) : Type 0 where
  pub campaigns_sound : AllCampaigns (CampaignSound digest) store.campaigns
  pub commands_distinct : Distinct (map (λ c. c.command_id) store.commands)
  pub transactions_distinct : Distinct store.transaction_ids

pub set_campaign-same :
    (new c : Campaign) (cs : List Campaign)
    → (c.campaign_id == new.campaign_id) ≡ true
    → set_campaign new (c ∷ cs) ≡ new ∷ cs
unfolding set_campaign
set_campaign-same new c cs e = ground (arith, e)

pub set_campaign-other :
    (new c : Campaign) (cs : List Campaign)
    → (c.campaign_id == new.campaign_id) ≡ false
    → set_campaign new (c ∷ cs) ≡ c ∷ set_campaign new cs
unfolding set_campaign
set_campaign-other new c cs e = ground (arith, e)

pub set_campaign-AllCampaigns :
    (P : Campaign → Type 0) (new : Campaign) (cs : List Campaign)
    → P new
    → AllCampaigns P cs
    → AllCampaigns P (set_campaign new cs)
unfolding set_campaign
set_campaign-AllCampaigns P new [] sound all = (sound, tt)
set_campaign-AllCampaigns P new (c ∷ cs) sound all =
    elim (Bool-cases (c.campaign_id == new.campaign_id)) [
      | inl e ↦ subst⁻¹ (AllCampaigns P) (set_campaign-same new c cs e) (sound, all.1)
      | inr e ↦
          subst⁻¹ (AllCampaigns P) (set_campaign-other new c cs e)
            (all.0, set_campaign-AllCampaigns P new cs sound all.1)
    ]

pub find-AllCampaigns :
    (P : Campaign → Type 0) (id : OpaqueId) (cs : List Campaign) (c : Campaign)
    → find (is_campaign id) cs ≡ some c
    → AllCampaigns P cs
    → P c
unfolding find
find-AllCampaigns P id [] c h all = absurd (ground arith)
find-AllCampaigns P id (x ∷ cs) c h all = elim (Bool-cases (x.campaign_id == id)) [
  | inl e ↦ subst P (ground (arith, e)) all.0
  | inr e ↦ find-AllCampaigns P id cs c (ground (arith, e)) all.1
]

includes-snoc : (a x : ℕ) (xs : List ℕ) → includes a (xs ++ x ∷ []) ≡ (includes a xs || a == x)
includes-snoc a x [] = ground arith
includes-snoc a x (y ∷ xs) = ground (arith, includes-snoc a x xs)

pub Distinct-snoc :
    (x : ℕ) (xs : List ℕ) → Distinct xs → includes x xs ≡ false → Distinct (xs ++ x ∷ [])
Distinct-snoc x [] d n = ground arith
Distinct-snoc x (y ∷ xs) d n = ground (arith, includes-snoc y x xs, Distinct-snoc x xs)

pub find-is_command :
    (id : OpaqueId) (cs : List StoredCommand)
    → is_some (find (is_command id) cs) ≡ false
    → includes id (map (λ c. c.command_id) cs) ≡ false
unfolding find
find-is_command id [] h = refl
find-is_command id (c ∷ cs) h = ground (arith, find-is_command id cs)

pub map-snoc :
    (cs : List StoredCommand) (c : StoredCommand)
    → map (λ c. c.command_id) (cs ++ c ∷ []) ≡ map (λ c. c.command_id) cs ++ c.command_id ∷ []
map-snoc [] c = refl
map-snoc (d ∷ cs) c = ap (λ ids. d.command_id ∷ ids) (map-snoc cs c)

valid-same :
    (schema : SchemaChecks) (s v : GameState) → validate_game_state schema s ≡ success v → s ≡ v
unfolding validate_game_state
valid-same schema s v h = (conclude-eq-success s _ h).1

pub hash_game_state-eq-ok :
    (schema : SchemaChecks) (digest : GameState → OpaqueId) (s : GameState) (hash : OpaqueId)
    → hash_game_state schema digest s ≡ ok hash
    → (validate_game_state schema s ≡ success s) × (hash ≡ digest s)
unfolding hash_game_state
hash_game_state-eq-ok schema digest s hash h =
    elim (ValidationResult-cases (validate_game_state schema s)) [
      | inr (is, q) ↦ absurd (ground (arith, q, h))
      | inl (v, q) ↦
          let same : s ≡ v = valid-same schema s v q in
          (q ∙ ap success (sym same), ground (arith, q, h, ap digest same))
    ]
