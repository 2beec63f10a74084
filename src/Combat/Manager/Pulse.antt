-- ===== src/Combat/Manager/Pulse.antt =====
-- `tickRoom` of internal/combat/manager.go: one pulse of the fight in a room, with `iterativeTargetGone`
-- of internal/combat/iterative.go.
pub mod Keeps
pub mod Stamps
pub mod Cadence
use wheel_mud.Base.{
  ℕ, suc, ◌+◌, Bool, true, false, not, ◌&&◌, ◌||◌, Option, none, some, List, [], ◌∷◌, leb, ◌==◌,
  if◌then◌else◌, length,
}
use wheel_mud.Base.Int.{ℤ, pos}
use wheel_mud.Base.Dict
use wheel_mud.Base.Members.{elem}
use wheel_mud.Combat.Refs.{
  ActorKind, mob, same_kind, ActorRef, same_ref, RefMap, member, lookup, insert,
}
use wheel_mud.Combat.Fight.{
  Slot, primary_wield, SwingPlan, ActorEntry, ActionKind, idle, attack, normal, Action, Fight,
  no_ref, removed, prune_dead, pop_action,
}
use wheel_mud.Combat.Manager.{
  Event, round_started, combat_ended, State, Engine, with_world, update_fight, resolve_action,
  stands,
}

-- An actor whose time has come, with the round that its turn is.
pub record Ready : Type 0 where
  pub ref : ActorRef
  pub round : ℕ
  pub plan : List SwingPlan

abbrev pub due : ℕ → ActorEntry → Bool
due now x = leb x.next_act_at now

abbrev pub one_swing : List SwingPlan
one_swing = record { slot = primary_wield; bonus = pos 0 } ∷ []

abbrev pub plan_of : List SwingPlan → List SwingPlan
plan_of [] = one_swing
plan_of (p ∷ ps) = p ∷ ps

unfoldable pub ready_from : (now round : ℕ) → List ActorEntry → List Ready
ready_from now round [] = []
ready_from now round (x ∷ order) =
    let rest = ready_from now round order in
    let later = ready_from now (suc round) order in
    if due now x
    then record { ref = x.ref; round = suc round; plan = plan_of x.swings } ∷ later
    else rest

-- The queued actions of those that are ready, taken out of the fight.
unfoldable pub pop_all :
    List Ready → RefMap (Option Action) → Fight → Fight × RefMap (Option Action)
pop_all [] taken f = (f, taken)
pop_all (r ∷ rs) taken f = let (f', a) = pop_action r.ref f in pop_all rs (insert r.ref a taken) f'

abbrev pub taken_by : Option (Option Action) → Option Action
taken_by none = none
taken_by (some a) = a

-- The zero action.
abbrev pub no_action : Action
no_action = record { kind = idle; variant = normal; target = no_ref; weapon_id = 0 }

abbrev pub is_attack : ActionKind → Bool
is_attack attack = true
is_attack _ = false

-- The entry of the actor gets the times of its turn.
unfoldable pub stamp : ActorRef → (now next : ℕ) → List ActorEntry → List ActorEntry
stamp ref now next [] = []
stamp ref now next (x ∷ order) =
    if same_ref x.ref ref
    then record x { last_acted_at = now; next_act_at = next } ∷ order
    else x ∷ stamp ref now next order

unfoldable pub gone_from : ActorRef → Option Fight → Bool
gone_from target none = true
gone_from target (some f) = removed f target || not (stands target f.order)

module _ {W : Type 0} (e : Engine W) where
  unfoldable pub iterative_target_gone : ℕ → ActorRef → State W → Bool
  iterative_target_gone room target s =
      same_ref target no_ref || gone_from target (Dict.lookup room s.fights)

  -- The swings of one turn, and what they cost together.
  unfoldable pub swings :
      ℕ
      → (round : ℕ) → ActorRef
      → Action
      → (first : Bool) → List SwingPlan
      → ℕ
      → State W
      → ℕ × State W
  swings room round actor action first [] cost s = (cost, s)
  swings room round actor action first (p ∷ plan) cost s =
      let s' = resolve_action e room round actor action p.bonus p.slot s in
      let rest =
        swings room round actor action false plan
          (cost + e.action_cost s'.world actor action p.slot) s' in
      if not first
        && (not (e.has_stamina s.world actor action) || iterative_target_gone room action.target s)
      then (cost, s)
      else rest

  unfoldable pub act : ℕ → Ready → Option Action → State W → ℕ × State W
  act room r none s = (e.action_cost s.world r.ref no_action primary_wield, s)
  act room r (some a) s =
      swings room r.round r.ref a true (if is_attack a.kind then r.plan else one_swing) 0 s

  unfoldable pub turn : ℕ → (now : ℕ) → RefMap (Option Action) → Ready → State W → State W
  turn room now taken r s =
      let begun = record s { log = round_started room r.round r.ref ∷ s.log } in
      let (cost, s') = act room r (taken_by (lookup r.ref taken)) begun in
      update_fight room (λ f. record f { order = stamp r.ref now (now + cost) f.order }) s'

  unfoldable pub turns : ℕ → (now : ℕ) → RefMap (Option Action) → List Ready → State W → State W
  turns room now taken [] s = s
  turns room now taken (r ∷ rs) s = turns room now taken rs (turn room now taken r s)

  unfoldable pub end_room : ℕ → State W → State W
  end_room room s = record s { fights = Dict.erase room s.fights; log = combat_ended room ∷ s.log }

  abbrev pub has_mob : List ActorEntry → Bool
  has_mob [] = false
  has_mob (x ∷ order) = same_kind x.ref.kind mob || has_mob order

  abbrev pub has_mob_of : List ℕ → List ActorEntry → Bool
  has_mob_of present [] = false
  has_mob_of present (x ∷ order) =
      same_kind x.ref.kind mob && elem x.ref.id present || has_mob_of present order

  -- A fight of characters alone goes on, and so does one whose mobs cannot be read.
  unfoldable pub has_live_participants : W → ℕ → List ActorEntry → Bool
  has_live_participants w room order =
      not (has_mob order)
      || elim (e.mobs_in w room) [ none ↦ true | some present ↦ has_mob_of present order ]

  -- The pulse of a fight from which the dead and the fled have been taken.
  unfoldable pub pulse : ℕ → Fight → State W → State W
  pulse room f s =
      let now = e.now s.world in
      let ready = ready_from now f.round f.order in
      let (f', taken) = pop_all ready [] (record f { round = f.round + length ready }) in
      let s' = turns room now taken ready (record s { fights = Dict.insert room f' s.fights }) in
      with_world (e.tick_affects room s'.world) s'

  unfoldable pub tick_room : ℕ → State W → State W
  tick_room room s = elim (Dict.lookup room s.fights) [
    | none ↦ s
    | some f ↦
        if not (has_live_participants s.world room f.order)
        then end_room room s
        else if length (prune_dead f).0.order == 0
        then end_room room s
        else pulse room (prune_dead f).0 s
  ]
