-- ===== src/Combat/Manager/Pulse/Keeps.antt =====
-- What resolving an action leaves alone in every fight: `resolveAction` of internal/combat/manager.go.
use mathlib.Core.Option
use wheel_mud.Base.{
  ℕ, ◌≡◌, inl, inr, refl, ◌∙◌, Bool, true, false, not, ◌&&◌, ◌||◌, Option, none, some, List, [],
  ◌∷◌, arith, ◌==◌, ◌+◌, if◌then◌else◌, Bool-cases, Option-cases,
}
use wheel_mud.Base.Int.{ℤ}
use wheel_mud.Base.Dict
use wheel_mud.Combat.Refs.{ActorRef, RefMap}
use wheel_mud.Combat.Fight.{
  Slot, primary_wield, off_hand, SwingPlan, ActorEntry, idle, attack, parry, flee, dodge, throw,
  sidestep, Action, Fight,
}
use wheel_mud.Combat.Resolution.{Core}
use wheel_mud.Combat.Manager.{
  State, Engine, with_world, update_fight, mark_dead, places, tally_in, tally, Blow, strike_roll,
  land, parry_blow, use_dodge, miss, strike, stances_at, weapon_of, resolve_attack, throw_at,
  resolve_throw, resolve_flee, resolve_sidestep, dispatch, resolve_action,
}
use wheel_mud.Combat.Manager.Pulse.{swings, act, iterative_target_gone, is_attack, one_swing, Ready}

-- The turn order of a fight, its round and the actions that wait in it.
abbrev pub Frame : Type 0
Frame = List ActorEntry × ℕ × RefMap Action

abbrev pub frame_of : Fight → Frame
frame_of f = (f.order, f.round, f.actions)

module _ {W : Type 0} where
  abbrev pub frame : ℕ → State W → Option Frame
  frame room s = Option.map frame_of (Dict.lookup room s.fights)

  -- The log and the frames of all fights are as they were.
  abbrev pub Keeps : (s s' : State W) → Type 0
  Keeps s s' = (s'.log ≡ s.log) × ((room : ℕ) → frame room s' ≡ frame room s)

  pub Keeps-refl : (s : State W) → Keeps s s
  Keeps-refl s = (refl, λ room. refl)

  pub Keeps-trans : (s t u : State W) → Keeps s t → Keeps t u → Keeps s u
  Keeps-trans s t u (a, b) (c, d) = (c ∙ a, λ room. d room ∙ b room)

  pub Keeps-if : (b : Bool) (s t u : State W) → Keeps s t → Keeps s u → Keeps s (if b then t else u)
  Keeps-if true s t u h k = h
  Keeps-if false s t u h k = k

  pub frame-update_fight :
      (at room : ℕ) (g : Fight → Fight) (s : State W)
      → frame room (update_fight at g s) ≡ (
          if at == room
          then Option.map (λ f. frame_of (g f)) (Dict.lookup room s.fights)
          else frame room s)
  unfolding update_fight
  frame-update_fight at room g s = elim (Option-cases (Dict.lookup at s.fights)) [
    | inl e ↦ ground (arith, e)
    | inr (f, e) ↦ ground (arith, e, Dict.lookup-insert at room (g f) s.fights)
  ]

  pub update_fight-log :
      (at : ℕ) (g : Fight → Fight) (s : State W) → (update_fight at g s).log ≡ s.log
  unfolding update_fight
  update_fight-log at g s = elim (Option-cases (Dict.lookup at s.fights)) [
    | inl e ↦ ground (arith, e)
    | inr (f, e) ↦ ground (arith, e)
  ]

  frame-same :
      (at room : ℕ) (g : Fight → Fight) (s : State W)
      → ((f : Fight) → frame_of (g f) ≡ frame_of f)
      → (if at == room
          then Option.map (λ f. frame_of (g f)) (Dict.lookup room s.fights)
          else frame room s)
        ≡ frame room s
  frame-same at room g s h = elim (Option-cases (Dict.lookup room s.fights)) [
    | inl e ↦ ground (arith, e)
    | inr (f, e) ↦ ground (arith, e, h f)
  ]

  pub update_fight-Keeps :
      (at : ℕ) (g : Fight → Fight) (s : State W)
      → ((f : Fight) → frame_of (g f) ≡ frame_of f)
      → Keeps s (update_fight at g s)
  update_fight-Keeps at g s h =
      (update_fight-log at g s, λ room. frame-update_fight at room g s ∙ frame-same at room g s h)

  pub mark_dead-Keeps :
      (rooms : List ℕ) (victim : ActorRef) (s : State W) → Keeps s (mark_dead rooms victim s)
  unfolding mark_dead
  mark_dead-Keeps [] victim s = Keeps-refl s
  mark_dead-Keeps (room ∷ rooms) victim s =
      let marked = update_fight room (λ f. record f { dead = victim ∷ f.dead }) s in
      Keeps-trans s marked (mark_dead rooms victim marked)
        (update_fight-Keeps room (λ f. record f { dead = victim ∷ f.dead }) s (λ f. refl))
        (mark_dead-Keeps rooms victim marked)

module _ {W : Type 0} (e : Engine W) where
  land-Keeps :
      (room : ℕ) (actor target : ActorRef) (b : Blow W) (s : State W)
      → Keeps s (land e room actor target b s)
  unfolding land tally
  land-Keeps room actor target b s =
      let s' : State W =
        update_fight room (tally actor target b.dealt)
          (with_world (e.record_core target b.hurt b.after) s) in
      let (place, w) = e.bury actor target (tally_in s'.fights) s'.world in
      let rooms = places place s'.fights in
      let kept : Keeps s s' = update_fight-Keeps room _ _ (λ f. refl) in
      Keeps-if _ s _ s'
        (Keeps-trans s s' (mark_dead rooms target (with_world w s')) kept
          (mark_dead-Keeps rooms target (with_world w s')))
        kept

  miss-Keeps :
      (dfn : Core) (dodging : Bool) (actor : ActorRef) (slot : Slot) (b : Blow W) (s : State W)
      → Keeps s (miss e dfn dodging actor slot b s)
  unfolding miss
  miss-Keeps dfn dodging actor slot b s = Keeps-if _ s _ s (Keeps-refl s) (Keeps-refl s)

  use_dodge-Keeps :
      (room : ℕ) (target : ActorRef) (dodging : Bool) (s : State W)
      → Keeps s (use_dodge e room target dodging s)
  unfolding use_dodge
  use_dodge-Keeps room target dodging s =
      Keeps-if dodging s _ s (update_fight-Keeps room _ s (λ f. refl)) (Keeps-refl s)

  parry_blow-Keeps :
      (room round : ℕ) (actor target : ActorRef) (s : State W)
      → Keeps s (parry_blow e room round actor target s)
  unfolding parry_blow
  parry_blow-Keeps room round actor target s = update_fight-Keeps room _ s (λ f. refl)

  strike-Keeps :
      (room round : ℕ) (actor : ActorRef) (action : Action) (extra : ℤ) (slot : Slot)
      (atk dfn : Core) (s : State W)
      → Keeps s (strike e room round actor action extra slot atk dfn s)
  unfolding strike
  strike-Keeps room round actor action extra slot atk dfn s =
      let st = stances_at e room round action.target s in
      let stats = e.stats_of s.world (weapon_of e s.world actor action slot) in
      let b = strike_roll e atk dfn stats st action extra s.world in
      let rolled : State W = with_world b.after s in
      let unguarded = use_dodge e room action.target st.dodging rolled in
      let kept : Keeps s unguarded = use_dodge-Keeps room action.target st.dodging rolled in
      Keeps-if b.parried s _ _ (parry_blow-Keeps room round actor action.target rolled) (
        Keeps-if (not b.roll.hit) s _ _
          (Keeps-trans s unguarded (miss e dfn st.dodging actor slot b unguarded) kept
            (miss-Keeps dfn st.dodging actor slot b unguarded))
          (Keeps-trans s unguarded (land e room actor action.target b unguarded) kept
            (land-Keeps room actor action.target b unguarded)))

  strike_at-Keeps :
      (room round : ℕ) (actor : ActorRef) (action : Action) (extra : ℤ) (slot : Slot)
      (atk dfn : Core) (s : State W)
      → Keeps s (elim slot [
        | primary_wield ↦ strike e room round actor action extra primary_wield atk dfn s
        | off_hand ↦
            if weapon_of e s.world actor action off_hand == 0
            then s
            else strike e room round actor action extra off_hand atk dfn s
      ])
  strike_at-Keeps room round actor action extra primary_wield atk dfn s =
      strike-Keeps room round actor action extra primary_wield atk dfn s
  strike_at-Keeps room round actor action extra off_hand atk dfn s =
      Keeps-if _ s s _ (Keeps-refl s)
        (strike-Keeps room round actor action extra off_hand atk dfn s)

  resolve_attack-Keeps :
      (room round : ℕ) (actor : ActorRef) (action : Action) (extra : ℤ) (slot : Slot) (s : State W)
      → Keeps s (resolve_attack e room round actor action extra slot s)
  unfolding resolve_attack
  resolve_attack-Keeps room round actor action extra slot s =
      elim (Option-cases (e.core_of s.world actor)) [
        | inl none_atk ↦ rw (resolve_attack, none_atk) (Keeps-refl s)
        | inr (atk, has_atk) ↦ elim (Option-cases (e.core_of s.world action.target)) [
          | inl none_dfn ↦ rw (resolve_attack, has_atk, none_dfn) (Keeps-refl s)
          | inr (dfn, has_dfn) ↦
              rw (resolve_attack, has_atk, has_dfn)
                (strike_at-Keeps room round actor action extra slot atk dfn s)
        ]
      ]

  throw_at-Keeps :
      (room round : ℕ) (actor : ActorRef) (action : Action) (atk dfn : Core) (s : State W)
      → Keeps s (throw_at e room round actor action atk dfn s)
  unfolding throw_at
  throw_at-Keeps room round actor action atk dfn s =
      Keeps-if _ s _ _ (Keeps-refl s) (land-Keeps room actor action.target _ s)

  resolve_throw-Keeps :
      (room round : ℕ) (actor : ActorRef) (action : Action) (s : State W)
      → Keeps s (resolve_throw e room round actor action s)
  unfolding resolve_throw
  resolve_throw-Keeps room round actor action s = elim (Option-cases (e.core_of s.world actor)) [
    | inl none_atk ↦ rw (none_atk) (Keeps-if _ s s s (Keeps-refl s) (Keeps-refl s))
    | inr (atk, has_atk) ↦ elim (Option-cases (e.core_of s.world action.target)) [
      | inl none_dfn ↦ rw (has_atk, none_dfn) (Keeps-if _ s s s (Keeps-refl s) (Keeps-refl s))
      | inr (dfn, has_dfn) ↦
          rw (has_atk, has_dfn)
            (Keeps-if _ s s (throw_at e room round actor action atk dfn s) (Keeps-refl s)
              (throw_at-Keeps room round actor action atk dfn s))
    ]
  ]

  resolve_flee-Keeps :
      (room : ℕ) (actor : ActorRef) (s : State W) → Keeps s (resolve_flee e room actor s)
  unfolding resolve_flee
  resolve_flee-Keeps room actor s =
      Keeps-if _ s _ _ (update_fight-Keeps room _ _ (λ f. refl)) (Keeps-refl s)

  resolve_sidestep-Keeps :
      (room round : ℕ) (target : ActorRef) (s : State W)
      → Keeps s (resolve_sidestep e room round target s)
  unfolding resolve_sidestep
  resolve_sidestep-Keeps room round target s = update_fight-Keeps room _ s (λ f. ground arith)

  pub resolve_action-Keeps :
      (room round : ℕ) (actor : ActorRef) (action : Action) (extra : ℤ) (slot : Slot) (s : State W)
      → Keeps s (resolve_action e room round actor action extra slot s)
  unfolding resolve_action dispatch
  resolve_action-Keeps room round actor action extra slot s =
      let drained : State W = with_world (e.drain actor action s.world) s in
      elim action.kind
        as (λ k.
          Keeps s (dispatch e room round actor (record action { kind = k }) extra slot drained)) [
            | idle ↦ Keeps-refl s
            | attack ↦
                resolve_attack-Keeps room round actor (record action { kind = attack }) extra slot
                  drained
            | parry ↦ update_fight-Keeps room _ drained (λ f. refl)
            | flee ↦ resolve_flee-Keeps room actor drained
            | dodge ↦ update_fight-Keeps room _ drained (λ f. refl)
            | throw ↦ resolve_throw-Keeps room round actor (record action { kind = throw }) drained
            | sidestep ↦ resolve_sidestep-Keeps room round action.target drained
          ]

  swings-Keeps :
      (room round : ℕ) (actor : ActorRef) (action : Action) (first : Bool) (plan : List SwingPlan)
      (cost : ℕ) (s : State W)
      → Keeps s (swings e room round actor action first plan cost s).1
  unfolding swings
  swings-Keeps room round actor action first [] cost s = Keeps-refl s
  swings-Keeps room round actor action first (p ∷ plan) cost s =
      let s' = resolve_action e room round actor action p.bonus p.slot s in
      let cost' = cost + e.action_cost s'.world actor action p.slot in
      let rest : Keeps s (swings e room round actor action false plan cost' s').1 =
        Keeps-trans s s' (swings e room round actor action false plan cost' s').1
          (resolve_action-Keeps room round actor action p.bonus p.slot s)
          (swings-Keeps room round actor action false plan cost' s') in
      elim (Bool-cases (
        not first
        && (not (e.has_stamina s.world actor action)
            || iterative_target_gone e room action.target s))) [
              | inl ends ↦ rw (swings, ends) (Keeps-refl s)
              | inr goes ↦ rw (swings, goes) rest
            ]

  pub act-Keeps :
      (room : ℕ) (r : Ready) (a : Option Action) (s : State W) → Keeps s (act e room r a s).1
  unfolding act
  act-Keeps room r none s = Keeps-refl s
  act-Keeps room r (some a) s =
      swings-Keeps room r.round r.ref a true (if is_attack a.kind then r.plan else one_swing) 0 s
