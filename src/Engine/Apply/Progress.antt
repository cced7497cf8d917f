-- ===== src/Engine/Apply/Progress.antt =====
-- What rounds and objectives do to a state: the cases `round_advanced` and `objective_advanced`.
use lldm.Prelude.{
  ℕ, ◌+◌, ◌≤◌, ◌≡◌, ◌↔◌, refl, arith, Bool, true, false, ◌&&◌, ◌||◌, not, ok, some, none, List, [],
  ◌∷◌, map, find, modify, all, any, find-holds, find-modify, leb, ltb,
}
use lldm.Contracts.Ids.{OpaqueId}
use lldm.Contracts.Combat.{
  CombatState, CombatParticipant, ObjectiveState, ObjectiveStatus, objective_completed,
  objective_active, objective_failed, hero,
}
use lldm.Contracts.GameState.{GameState}
use lldm.Contracts.Events.{ObjectiveAdvance}
use lldm.Engine.Apply.Rounds.{
  apply_round_advanced, combat_participant_alive, next_round, refresh, apply_objective_advanced,
  is_objective, set_progress, is_completed, call_reinforcements, enter_reinforcement,
  waits_for_progress,
}

abbrev pub all_slots : CombatParticipant → Bool
all_slots p = p.action_available && p.maneuver_available && p.reaction_available

all-refresh :
    (c : CombatState) (ps : List CombatParticipant) → all all_slots (map (refresh c) ps) ≡ true
unfolding all
all-refresh c [] = refl
all-refresh c (p ∷ ps) = all-refresh c ps

abbrev pub actors : CombatState → List OpaqueId
actors c = map (λ p. p.actor_id) c.participants

actors-refresh :
    (c : CombatState) (ps : List CombatParticipant)
    → map (λ p. p.actor_id) (map (refresh c) ps) ≡ map (λ p. p.actor_id) ps
actors-refresh c [] = refl
actors-refresh c (p ∷ ps) = ground (arith, actors-refresh c ps)

-- No objective has got to 2 where all are below it.
any-below :
    (os : List ObjectiveState)
    → (any (λ o. leb 2 o.progress) os && all (λ o. ltb o.progress 2) os) ≡ false
unfolding any all
any-below [] = refl
any-below (o ∷ os) = ground (arith, any-below os)

-- A participant of the new round who is alive has an activation.
refreshed-can_act :
    (t : GameState) (c : CombatState) (round : ℕ) (p : CombatParticipant)
    → (combat_participant_alive t (next_round c round) (refresh c p)
        && (refresh c p).activation_spent)
      ≡ false
unfolding combat_participant_alive
refreshed-can_act t c round p = ground (arith, any-below c.objectives)

-- Somebody who is alive has spent their activation.
abbrev pub some_spent : GameState → CombatState → List CombatParticipant → Bool
some_spent s c ps = any (λ p. combat_participant_alive s c p && p.activation_spent) ps

-- Somebody who is alive has not acted yet.
abbrev pub some_waiting : GameState → CombatState → Bool
some_waiting s c =
    any (λ p. combat_participant_alive s c p && not p.activation_spent) c.participants

refreshed-none_spent :
    (t : GameState) (c : CombatState) (round : ℕ) (ps : List CombatParticipant)
    → some_spent t (next_round c round) (map (refresh c) ps) ≡ false
unfolding any
refreshed-none_spent t c round [] = refl
refreshed-none_spent t c round (p ∷ ps) =
    ground (arith, refreshed-can_act t c round p, refreshed-none_spent t c round ps)

-- The combat `n` of `t` is the round after that of the combat `c` of `s`.
pub record RoundBegins (s t : GameState) (c n : CombatState) : Type 0 where
  pub all_acted : some_waiting s c ≡ false
  pub holds : t.combat ≡ some n
  pub next : n.round ≡ c.round + 1
  pub heroes_first : n.active_side ≡ hero
  pub nobody_active : n.active_actor_id ≡ none
  pub no_reaction : n.reaction_window ≡ none
  pub same_actors : actors n ≡ actors c
  pub slots : all all_slots n.participants ≡ true
  pub can_act : some_spent t n n.participants ≡ false

-- A round that advances ends a round in which every living participant has acted, and begins the one
-- after it: it is the heroes' turn, nobody is active, no reaction is open, the same participants are
-- there in the same order, each with all three slots, and no living one has spent the activation.
pub round_advanced-refreshes :
    (s : GameState) (c : CombatState) (previous current : ℕ) {t : GameState}
    → s.combat ≡ some c
    → apply_round_advanced s previous current ≡ ok t
    → (n : CombatState) × RoundBegins s t c n
unfolding apply_round_advanced
round_advanced-refreshes s c previous current {t} there h = (
  next_round c current,
  record {
    all_acted = ground (arith, there, h);
    holds = ground (arith, there, h);
    next = ground (arith, there, h);
    heroes_first = refl;
    nobody_active = refl;
    no_reaction = refl;
    same_actors = actors-refresh c c.participants;
    slots = all-refresh c c.participants;
    can_act = refreshed-none_spent t c current c.participants;
  },
)

abbrev pub with_progress : ObjectiveAdvance → CombatState → CombatState
with_progress e c = record c {
  objectives = modify (is_objective e.objective_id) (set_progress e.current e.status) c.objectives;
}

-- A participant who waits for an objective to get to 2 has an activation.
abbrev pub is_called : CombatParticipant → Bool
is_called p = not (waits_for_progress p.role) || not p.activation_spent

all-called : (ps : List CombatParticipant) → all is_called (map enter_reinforcement ps) ≡ true
unfolding all
all-called [] = refl
all-called (p ∷ ps) = ground (arith, all-called ps)

actors-enter :
    (ps : List CombatParticipant)
    → map (λ p. p.actor_id) (map enter_reinforcement ps) ≡ map (λ p. p.actor_id) ps
actors-enter [] = refl
actors-enter (p ∷ ps) = ground (arith, actors-enter ps)

-- The combat `n` of `t` is the combat `c` with an objective that has advanced.
pub record ObjectiveAdvances (e : ObjectiveAdvance) (c n : CombatState) (o : ObjectiveState)
    : Type 0 where
  pub forward : o.progress ≤ e.current
  pub within : e.current ≤ o.threshold
  pub completes : (e.status ≡ objective_completed) ↔ (e.current ≡ o.threshold)
  pub recorded :
      find (is_objective e.objective_id) n.objectives
      ≡ some (record o { progress = e.current; status = e.status })
  pub same_actors : actors n ≡ actors c
  pub reinforced : (ltb e.current 2 || all is_called n.participants) ≡ true

completed_iff :
    (status : ObjectiveStatus) → (is_completed status ≡ true) ↔ (status ≡ objective_completed)
completed_iff objective_completed = (λ h. refl, λ h. refl)
completed_iff objective_active = (λ h. absurd cc, λ h. absurd cc)
completed_iff objective_failed = (λ h. absurd cc, λ h. absurd cc)

-- An objective that advances does not go back, stays within its threshold and is completed exactly
-- where it reaches the threshold. The combat then has it with the recorded progress and the same
-- participants, and from progress 2 on every reinforcement that waited for it has an activation.
pub objective_advanced-within :
    (s : GameState) (e : ObjectiveAdvance) (c : CombatState) (o : ObjectiveState) {t : GameState}
    → s.combat ≡ some c
    → find (is_objective e.objective_id) c.objectives ≡ some o
    → apply_objective_advanced s e ≡ ok t
    → (n : CombatState) × (t.combat ≡ some n) × ObjectiveAdvances e c n o
unfolding apply_objective_advanced
objective_advanced-within s e c o there found h =
    let completed = completed_iff e.status in
    (
      call_reinforcements e.current (with_progress e c),
      ground (arith, there, found, h),
      record {
        forward = ground (arith, there, found, h);
        within = ground (arith, there, found, h);
        completes = (
          λ d. ground (arith, there, found, h, completed.1 d),
          λ d. completed.0 (ground (arith, there, found, h, d)),
        );
        recorded = ground (
          arith,
          found,
          find-holds (is_objective e.objective_id) c.objectives o found,
          find-modify (is_objective e.objective_id) (set_progress e.current e.status) c.objectives o
              found,
        );
        same_actors = ground (arith, actors-enter c.participants);
        reinforced = ground (arith, all-called c.participants);
      },
    )
