-- ===== src/Runtime/Store/Campaigns.antt =====
-- The map of the campaigns of packages/runtime/src/application/in-memory-store.ts.
use lldm.Prelude.{◌≡◌, arith, false, some, List, [], ◌∷◌, find, ◌==◌, Bool-cases, inl, inr}
use mathlib.Core.Path.{subst⁻¹}
use lldm.Contracts.Ids.{OpaqueId}
use lldm.Runtime.Store.{Campaign, is_campaign, set_campaign}
use lldm.Runtime.Store.Invariant.{set_campaign-same, set_campaign-other}

pub find-set_campaign_same :
    (new : Campaign) (cs : List Campaign) (id : OpaqueId)
    → new.campaign_id ≡ id
    → find (is_campaign id) (set_campaign new cs) ≡ some new
unfolding find set_campaign
find-set_campaign_same new [] id h = ground (arith, h)
find-set_campaign_same new (c ∷ cs) id h = elim (Bool-cases (c.campaign_id == new.campaign_id)) [
  | inl e ↦
      subst⁻¹ (λ xs. find (is_campaign id) xs ≡ some new) (set_campaign-same new c cs e)
        (ground (arith, h))
  | inr e ↦
      subst⁻¹ (λ xs. find (is_campaign id) xs ≡ some new) (set_campaign-other new c cs e)
        (ground (arith, h, e, find-set_campaign_same new cs id h))
]

pub find-set_campaign_other :
    (new : Campaign) (cs : List Campaign) (id : OpaqueId)
    → (id == new.campaign_id) ≡ false
    → find (is_campaign id) (set_campaign new cs) ≡ find (is_campaign id) cs
unfolding find set_campaign
find-set_campaign_other new [] id h = ground (arith, h)
find-set_campaign_other new (c ∷ cs) id h = elim (Bool-cases (c.campaign_id == new.campaign_id)) [
  | inl e ↦
      subst⁻¹ (λ xs. find (is_campaign id) xs ≡ find (is_campaign id) (c ∷ cs))
        (set_campaign-same new c cs e) (ground (arith, h, e))
  | inr e ↦
      subst⁻¹ (λ xs. find (is_campaign id) xs ≡ find (is_campaign id) (c ∷ cs))
        (set_campaign-other new c cs e) (ground (arith, h, e, find-set_campaign_other new cs id h))
]
