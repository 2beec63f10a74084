-- ===== src/Combat/Manager/Lifecycle.antt =====
-- `Start`, `End`, `EnqueueAction` and `rollInitiative` of internal/combat/manager.go and action.go: how a
-- fight begins and ends, and how an action comes into it.
pub mod Start
use mathlib.Core.List.{Perm}
use wheel_mud.Base.{
  ℕ, ◌+◌, ◌≡◌, inl, inr, refl, ◌∙◌, sym, ap, Bool, true, false, not, Option, none, some, List, [],
  ◌∷◌, ◌++◌, arith, ◌==◌, if◌then◌else◌, Bool-cases, Option-cases, length, is_some,
}
use wheel_mud.Base.Int.{ℤ, pos, ◌+ℤ◌, ◌-ℤ◌}
use wheel_mud.Base.Dict
use wheel_mud.Combat.Refs.{ActorRef, RefMap, insert}
use wheel_mud.Combat.Fight.{
  primary_wield, off_hand, SwingPlan, ActorEntry, Action, Fight, sort_initiative,
}
use wheel_mud.Combat.Fight.Prune.{refs}
use wheel_mud.Combat.Fight.Turns.{InOrder, sort_initiative_lem}
use wheel_mud.Combat.Iterative.{iterative_bonuses_for}
use wheel_mud.Combat.Resolution.{Core, ability_mod}
use wheel_mud.Combat.Manager.{
  Event, combat_ended, combat_started, State, Engine, with_world, update_fight,
}

-- What the operations return; `done` is a nil error.
pub data Outcome : Type 0 where
  done no_participants fight_exists fight_not_found insufficient_stamina : Outcome
  unresolved : ActorRef → Outcome

unfoldable pub swing_plans : List ℤ → List SwingPlan
swing_plans [] = []
swing_plans (b ∷ bs) = record { slot = primary_wield; bonus = b } ∷ swing_plans bs

unfoldable pub off_hand_plans : List ℤ → List SwingPlan
off_hand_plans [] = []
off_hand_plans (b ∷ bs) = record { slot = off_hand; bonus = b -ℤ pos 4 } ∷ off_hand_plans bs

unfoldable pub all_at : ℕ → List ActorEntry → List ActorEntry
all_at start [] = []
all_at start (x ∷ xs) = record x { next_act_at = start } ∷ all_at start xs

abbrev pub open_fight : (room start : ℕ) → List ActorEntry → Fight
open_fight room start order = record {
  room_id = room;
  round = 0;
  order = order;
  started_at = start;
  actions = [];
  damage_tally = [];
  dead = [];
  fled = [];
  parrying_until = [];
  flat_footed_until = [];
  dodge_until = [];
  threat = [];
}

module _ {W : Type 0} (e : Engine W) where
  unfoldable pub roll_initiative : ActorRef → Core → W → ActorEntry × W
  roll_initiative ref core w =
      let (k, w') = e.intn 20 w in
      let roll = k + 1 in
      let bonuses = iterative_bonuses_for core.bab in
      let swings =
        swing_plans bonuses ++ (if e.off_hand_of w' ref == 0 then [] else off_hand_plans bonuses) in
      (
        record {
          ref = ref;
          initiative = pos roll +ℤ ability_mod core.dex +ℤ core.init_mod;
          tiebreak = pos roll;
          next_act_at = 0;
          last_acted_at = 0;
          pending_swings = length swings;
          swings = swings;
        },
        w',
      )

  -- The loop of `Start` over the participants, with `entries`; the left result is the one that is not
  -- found.
  unfoldable pub roll_all :
      List ActorRef → List ActorEntry → W → Option ActorRef × List ActorEntry × W
  roll_all [] entries w = (none, entries, w)
  roll_all (ref ∷ refs) entries w = elim (e.core_of w ref) [
    | none ↦ (some ref, entries, w)
    | some core ↦
        let (entry, w') = roll_initiative ref core w in roll_all refs (entries ++ entry ∷ []) w'
  ]

  unfoldable pub open_room : ℕ → List ActorEntry → State W → Outcome × State W
  open_room room entries s =
      let start = e.now s.world in
      let order = all_at start (sort_initiative entries) in
      if is_some (Dict.lookup room s.fights) then (fight_exists, s) else (
        done,
        record s {
          fights = Dict.insert room (open_fight room start order) s.fights;
          log = combat_started room order ∷ s.log;
        },
      )

  unfoldable pub start : ℕ → List ActorRef → State W → Outcome × State W
  start room [] s = (no_participants, s)
  start room (p ∷ ps) s =
      let (missing, entries, w) = roll_all (p ∷ ps) [] s.world in
      elim missing [
        | none ↦ open_room room entries (with_world w s)
        | some ref ↦ (unresolved ref, with_world w s)
      ]

  unfoldable pub end : ℕ → State W → Outcome × State W
  end room s =
      if is_some (Dict.lookup room s.fights)
      then (done, record s { fights = Dict.erase room s.fights; log = combat_ended room ∷ s.log })
      else (fight_not_found, s)

  unfoldable pub enqueue_action : ℕ → ActorRef → Action → State W → Outcome × State W
  enqueue_action room actor a s =
      if not (e.gate s.world actor a)
      then (insufficient_stamina, s)
      else if is_some (Dict.lookup room s.fights)
      then (done, update_fight room (λ f. record f { actions = insert actor a f.actions }) s)
      else (fight_not_found, s)
