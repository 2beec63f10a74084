-- ===== src/Combat/Manager/Tests.antt =====
-- Runs of internal/combat/manager.go: a world that is a clock, in which each number asked for is the
-- first one.
use wheel_mud.Base.{ℕ, ◌≡◌, refl, true, false, Option, none, some, [], ◌∷◌, if◌then◌else◌}
use wheel_mud.Base.Int.{pos}
use wheel_mud.Base.Dict
use wheel_mud.Combat.Refs.{
  ActorKind, unknown, character, mob, ActorRef, same_ref, same_kind, insert, lookup, erase,
}
use wheel_mud.Combat.Fight.{ActorEntry, parry, normal, Action, Fight, prune_dead, pop_action}
use wheel_mud.Combat.Resolution.{Core, WeaponStats, slash}
use wheel_mud.Combat.Manager.{round_started, State, Engine, update_fight, resolve_action, dispatch}
use wheel_mud.Combat.Manager.Pulse.{
  has_live_participants, tick_room, pulse, ready_from, pop_all, turns, turn, act, swings,
}
use wheel_mud.Combat.Manager.Pulse.Cadence.{Pulsed, tick_room_lem}
use wheel_mud.Combat.Manager.Lifecycle.{open_fight, start}
use wheel_mud.Combat.Manager.Lifecycle.Start.{Started, start-Started}

abbrev ref : ActorKind → ℕ → ActorRef
ref kind id = record { kind = kind; id = id }

abbrev rand : ActorRef
rand = ref character 1

abbrev trolloc : ActorRef
trolloc = ref mob 7

abbrev fade : ActorRef
fade = ref mob 8

abbrev body : Core
body = record {
  str = pos 10;
  dex = pos 10;
  bab = pos 0;
  defense = pos 10;
  hp_current = pos 5;
  subdual = pos 0;
  init_mod = pos 0;
  reductions = [];
  resists = [];
}

abbrev core_of : ℕ → ActorRef → Option Core
core_of w r = if same_kind r.kind unknown then none else some body

abbrev fists : WeaponStats
fists = record { damage = []; threat_low = pos 20; crit_mult = pos 2 }

abbrev engine : Engine ℕ
engine = record {
  core_of = core_of;
  off_hand_of = (λ w r. 0);
  stats_of = (λ w id. fists);
  dice_of = (λ stats. none);
  type_of = (λ stats. slash);
  effective = (λ c. c);
  intn = (λ n w. (0, w));
  drain = (λ r a w. w);
  record_core = (λ r c w. w);
  fumble = (λ r slot w. w);
  clear_thrown = (λ r a w. w);
  drop_thrown = (λ room killed a w. w);
  bury = (λ k v tallies w. (none, w));
  attempt_flee = (λ room r w. (false, w));
  mobs_in = (λ w room. some (7 ∷ []));
  now = (λ w. w);
  has_stamina = (λ w r a. true);
  action_cost = (λ w r a slot. 5);
  gate = (λ w r a. true);
  tick_affects = (λ room w. w);
}

abbrev entry : ActorRef → ℕ → ActorEntry
entry r next = record {
  ref = r;
  initiative = pos 9;
  tiebreak = pos 9;
  next_act_at = next;
  last_acted_at = 0;
  pending_swings = 1;
  swings = [];
}

abbrev parries : Action
parries = record { kind = parry; variant = normal; target = trolloc; weapon_id = 0 }

abbrev fight : Fight
fight = record (open_fight 3 0 (entry rand 20 ∷ entry trolloc 31 ∷ entry fade 30 ∷ [])) {
  round = 4;
  actions = (rand, parries) ∷ (trolloc, parries) ∷ [];
}

abbrev state : State ℕ
state = record { fights = (3, fight) ∷ []; world = 30; log = [] }

-- At 30 the character and the second mob act, and the first mob waits.
tick_room_lem_example : Pulsed engine 3 (prune_dead fight).0 state (tick_room engine 3 state)
unfolding same_ref Dict.lookup prune_dead has_live_participants
tick_room_lem_example = tick_room_lem engine 3 fight state refl refl refl

start-Started_example :
    Started engine 5 (rand ∷ trolloc ∷ []) state.fights (start engine 5 (rand ∷ trolloc ∷ []) state)
unfolding Dict.lookup
start-Started_example = start-Started engine (λ k w r. refl) 5 rand (trolloc ∷ []) state refl refl

paced : (tick_room engine 3 state).log ≡ round_started 3 6 fade ∷ round_started 3 5 rand ∷ []
unfolding same_ref Dict.lookup Dict.insert prune_dead has_live_participants tick_room pulse
    ready_from pop_all pop_action turns turn update_fight act lookup insert erase swings
    resolve_action dispatch
paced = refl
