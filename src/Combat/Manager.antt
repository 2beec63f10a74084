-- ===== src/Combat/Manager.antt =====
-- internal/combat/manager.go: the fights by room, how they start and end, and how the manager resolves
-- an action. The world behind the repositories is a state `W` with the operations of `Engine`; the lock
-- makes each access to the fights one step, and a pulse is one thread. Of the events, the log holds
-- those that say whose turn it is and that a fight has begun or ended; the others are texts for players.
-- The bus is set; the scripts that its subscribers run, which can hurt or heal a combatant, are not
-- modelled.
pub mod Pulse
pub mod Lifecycle
mod Tests
use wheel_mud.Base.{
  ℕ, zero, suc, ◌+◌, Bool, true, false, not, ◌&&◌, ◌||◌, Option, none, some, List, [], ◌∷◌, ◌++◌,
  leb, ◌==◌, if◌then◌else◌, length, is_some,
}
use wheel_mud.Base.Int.{ℤ, pos, negsuc, ◌+ℤ◌, ◌-ℤ◌, ltb_ℤ, leb_ℤ, wrap}
use wheel_mud.Base.Dict
use wheel_mud.Base.Dict.{Dict}
use wheel_mud.Combat.Refs.{
  ActorKind, unknown, character, mob, same_kind, ActorRef, same_ref, RefMap, member, lookup, insert,
  erase,
}
use wheel_mud.Combat.Fight.{
  Slot, primary_wield, off_hand, ActorEntry, idle, attack, parry, flee, dodge, throw, sidestep,
  normal, Action, Fight, no_ref, row_of,
}
use wheel_mud.Combat.Resolution.{
  int16_bound, int32_bound, Core, WeaponStats, DiceTerm, DamageType, variant_attack_bonus,
  AttackRoll, roll_attack, roll_parry, roll_damage, apply_damage,
}

pub data Event : Type 0 where
  round_started : (room round : ℕ) → ActorRef → Event
  combat_ended : (room : ℕ) → Event
  combat_started : (room : ℕ) → List ActorEntry → Event

pub record State (W : Type 0) : Type 0 where
  pub fights : Dict Fight
  pub world : W
  pub log : List Event

-- What the manager asks of the rest of the program. `core_of` is `resolveCore`; `bury` is what a death
-- does outside the fights, from the tallies that it may read, with the room of the victim if that is
-- known; `fumble`, `clear_thrown` and `drop_thrown` (told whether the throw has killed a mob) move the
-- weapon; `gate` is `staminaGate`, and `tick_affects` is `tickParticipantAffects`.
pub record Engine (W : Type 0) : Type 0 where
  pub core_of : W → ActorRef → Option Core
  pub off_hand_of : W → ActorRef → ℕ
  pub stats_of : W → ℕ → WeaponStats
  pub dice_of : WeaponStats → Option DiceTerm
  pub type_of : WeaponStats → DamageType
  pub effective : Core → Core
  pub intn : ℕ → W → ℕ × W
  pub drain : ActorRef → Action → W → W
  pub record_core : ActorRef → Core → W → W
  pub fumble : ActorRef → Slot → W → W
  pub clear_thrown : ActorRef → Action → W → W
  pub drop_thrown : ℕ → (killed : Bool) → Action → W → W
  pub bury : (killer victim : ActorRef) → (tallies : ℕ → RefMap ℤ) → W → Option ℕ × W
  pub attempt_flee : ℕ → ActorRef → W → Bool × W
  pub mobs_in : W → ℕ → Option (List ℕ)
  pub now : W → ℕ
  pub has_stamina : W → ActorRef → Action → Bool
  pub action_cost : W → ActorRef → Action → Slot → ℕ
  pub gate : W → ActorRef → Action → Bool
  pub tick_affects : ℕ → W → W

module _ {W : Type 0} where
  abbrev pub with_world : W → State W → State W
  with_world w s = record s { world = w }

  unfoldable pub update_fight : ℕ → (Fight → Fight) → State W → State W
  update_fight room g s = elim (Dict.lookup room s.fights) [
    | none ↦ s
    | some f ↦ record s { fights = Dict.insert room (g f) s.fights }
  ]

  unfoldable pub mark_dead : List ℕ → ActorRef → State W → State W
  mark_dead [] victim s = s
  mark_dead (room ∷ rooms) victim s =
      mark_dead rooms victim (update_fight room (λ f. record f { dead = victim ∷ f.dead }) s)

-- The rooms in whose fights a death marks the victim: that of the victim, or all when it is not known.
abbrev pub places : Option ℕ → Dict Fight → List ℕ
places none fights = Dict.keys fights
places (some room) fights = room ∷ []

abbrev pub tally_in : Dict Fight → ℕ → RefMap ℤ
tally_in fights room = elim (Dict.lookup room fights) [ none ↦ [] | some f ↦ f.damage_tally ]

-- A stance holds in the rounds up to its mark.
abbrev pub holds : ℕ → Option ℕ → Bool
holds round none = false
holds round (some until) = leb round until

pub record Stances : Type 0 where
  pub flat_footed : Bool
  pub parrying : Bool
  pub dodging : Bool

abbrev pub stances_in : ℕ → ActorRef → Option Fight → Stances
stances_in round target none = record { flat_footed = false; parrying = false; dodging = false }
stances_in round target (some f) =
    let dodging = holds round (lookup target f.dodge_until) in
    record {
      flat_footed = holds round (lookup target f.flat_footed_until) && not dodging;
      parrying = holds round (lookup target f.parrying_until);
      dodging = dodging;
    }

abbrev pub score_of : Option ℤ → ℤ
score_of none = pos 0
score_of (some n) = n

-- `m[ref] += dealt` on int32.
abbrev pub add_score : ActorRef → ℤ → RefMap ℤ → RefMap ℤ
add_score ref dealt m = insert ref (wrap int32_bound (score_of (lookup ref m) +ℤ dealt)) m

unfoldable pub tally : (actor target : ActorRef) → ℤ → Fight → Fight
tally actor target dealt f = record f {
  damage_tally = add_score actor dealt f.damage_tally;
  threat =
      if ltb_ℤ (pos 0) dealt
      then insert target (add_score actor dealt (row_of (lookup target f.threat))) f.threat
      else f.threat;
}

abbrev pub stands : ActorRef → List ActorEntry → Bool
stands ref [] = false
stands ref (x ∷ order) = same_ref x.ref ref || stands ref order

-- What the dice of a swing give: the attack, the parry if there is one, the damage dealt and the
-- defender behind it.
pub record Blow (W : Type 0) : Type 0 where
  pub roll : AttackRoll
  pub parried : Bool
  pub dealt : ℤ
  pub hurt : Core
  pub after : W

module _ {W : Type 0} (e : Engine W) where
  unfoldable pub weapon_of : W → ActorRef → Action → Slot → ℕ
  weapon_of w actor action primary_wield = action.weapon_id
  weapon_of w actor action off_hand =
      if same_kind actor.kind character then e.off_hand_of w actor else 0

  unfoldable pub strike_roll : (atk dfn : Core) → WeaponStats → Stances → Action → ℤ → W → Blow W
  strike_roll atk dfn stats st action extra w =
      let atk' = e.effective atk in
      let dfn' = e.effective dfn in
      let guarded : Core =
        if st.dodging
        then record dfn' { defense = wrap int16_bound (dfn'.defense +ℤ pos 4) }
        else dfn' in
      let (roll, w1) =
        roll_attack e.intn atk' guarded stats st.flat_footed
          (variant_attack_bonus action.variant +ℤ extra) w in
      let (total, w2) = roll_parry e.intn dfn' w1 in
      let tried = roll.hit && st.parrying in
      let parried = tried && ltb_ℤ roll.total total in
      let w3 = if tried then w2 else w1 in
      let (raw, w4) =
        roll_damage e.intn atk' stats (e.dice_of stats) roll.is_crit action.variant w3 in
      let (dealt, hurt) = apply_damage dfn raw (e.type_of stats) in
      if roll.hit && not parried
      then record { roll = roll; parried = parried; dealt = dealt; hurt = hurt; after = w4 }
      else record { roll = roll; parried = parried; dealt = pos 0; hurt = dfn; after = w3 }

  unfoldable pub stances_at : ℕ → (round : ℕ) → ActorRef → State W → Stances
  stances_at room round target s = stances_in round target (Dict.lookup room s.fights)

  -- What a hit does: the health of the defender, the tally, and a death.
  unfoldable pub land : ℕ → (actor target : ActorRef) → Blow W → State W → State W
  land room actor target b s =
      let s' =
        update_fight room (tally actor target b.dealt)
          (with_world (e.record_core target b.hurt b.after) s) in
      let (place, w) = e.bury actor target (tally_in s'.fights) s'.world in
      if leb_ℤ b.hurt.hp_current (pos 0)
      then mark_dead (places place s'.fights) target (with_world w s')
      else s'

  -- The end of a parried swing: the stance is used up, and the attacker is flat-footed.
  unfoldable pub parry_blow : ℕ → (round : ℕ) → (actor target : ActorRef) → State W → State W
  parry_blow room round actor target s =
      update_fight room
        (λ f. record f {
          parrying_until = erase target f.parrying_until;
          flat_footed_until = insert actor (round + 1) f.flat_footed_until;
        })
        s

  unfoldable pub use_dodge : ℕ → ActorRef → Bool → State W → State W
  use_dodge room target dodging s =
      if dodging
      then update_fight room (λ f. record f { dodge_until = erase target f.dodge_until }) s
      else s

  -- A miss of a swing that the dodge alone made miss is no fumble.
  unfoldable pub miss : Core → Bool → ActorRef → Slot → Blow W → State W → State W
  miss dfn dodging actor slot b s =
      let avoided = dodging && leb_ℤ (e.effective dfn).defense b.roll.total in
      if b.roll.fumble && not avoided then with_world (e.fumble actor slot s.world) s else s

  unfoldable pub strike :
      ℕ
      → (round : ℕ) → ActorRef
      → Action
      → (extra : ℤ) → Slot
      → (atk dfn : Core) → State W
      → State W
  strike room round actor action extra slot atk dfn s =
      let st = stances_at room round action.target s in
      let stats = e.stats_of s.world (weapon_of s.world actor action slot) in
      let b = strike_roll atk dfn stats st action extra s.world in
      let rolled = with_world b.after s in
      let unguarded = use_dodge room action.target st.dodging rolled in
      if b.parried
      then parry_blow room round actor action.target rolled
      else if not b.roll.hit
      then miss dfn st.dodging actor slot b unguarded
      else land room actor action.target b unguarded

  -- An off-hand swing without a weapon is left out.
  unfoldable pub resolve_attack :
      ℕ → (round : ℕ) → ActorRef → Action → (extra : ℤ) → Slot → State W → State W
  resolve_attack room round actor action extra slot s = elim (e.core_of s.world actor) [
    | none ↦ s
    | some atk ↦ elim (e.core_of s.world action.target) [
      | none ↦ s
      | some dfn ↦ elim slot [
        | primary_wield ↦ strike room round actor action extra primary_wield atk dfn s
        | off_hand ↦
            if weapon_of s.world actor action off_hand == 0
            then s
            else strike room round actor action extra off_hand atk dfn s
      ]
    ]
  ]

  unfoldable pub throw_at :
      ℕ → (round : ℕ) → ActorRef → Action → (atk dfn : Core) → State W → State W
  throw_at room round actor action atk dfn s =
      let held : Bool = elim (Dict.lookup room s.fights) [
        | none ↦ false
        | some f ↦ holds round (lookup action.target f.flat_footed_until)
      ] in
      let stats = e.stats_of s.world action.weapon_id in
      let st : Stances = record { flat_footed = held; parrying = false; dodging = false } in
      let plain = record action { variant = normal } in
      let b = strike_roll atk dfn stats st plain (pos 0) s.world in
      let b' = record b { after = e.clear_thrown actor action b.after } in
      let killed =
        b.roll.hit && leb_ℤ b.hurt.hp_current (pos 0) && same_kind action.target.kind mob in
      let s' : State W =
        if not b.roll.hit then with_world b'.after s else land room actor action.target b' s in
      with_world (e.drop_thrown room killed action s'.world) s'

  unfoldable pub resolve_throw : ℕ → (round : ℕ) → ActorRef → Action → State W → State W
  resolve_throw room round actor action s =
      let go : State W = elim (e.core_of s.world actor) [
        | none ↦ s
        | some atk ↦ elim (e.core_of s.world action.target) [
          | none ↦ s
          | some dfn ↦ throw_at room round actor action atk dfn s
        ]
      ] in
      if same_kind action.target.kind unknown || action.weapon_id == 0 then s else go

  unfoldable pub resolve_flee : ℕ → ActorRef → State W → State W
  resolve_flee room actor s =
      let (success, w) = e.attempt_flee room actor s.world in
      if success
      then update_fight room (λ f. record f { fled = actor ∷ f.fled }) (with_world w s)
      else with_world w s

  unfoldable pub resolve_sidestep : ℕ → (round : ℕ) → (target : ActorRef) → State W → State W
  resolve_sidestep room round target s =
      update_fight room
        (λ f.
          if stands target f.order
          then record f { flat_footed_until = insert target (round + 1) f.flat_footed_until }
          else f)
        s

  unfoldable pub dispatch :
      ℕ → (round : ℕ) → ActorRef → Action → (extra : ℤ) → Slot → State W → State W
  dispatch room round actor action extra slot s = elim action.kind [
    | idle ↦ s
    | attack ↦ resolve_attack room round actor action extra slot s
    | parry ↦
        update_fight room
          (λ f. record f { parrying_until = insert actor (round + 1) f.parrying_until }) s
    | flee ↦ resolve_flee room actor s
    | dodge ↦
        update_fight room (λ f. record f { dodge_until = insert actor (round + 1) f.dodge_until }) s
    | throw ↦ resolve_throw room round actor action s
    | sidestep ↦ resolve_sidestep room round action.target s
  ]

  unfoldable pub resolve_action :
      ℕ → (round : ℕ) → ActorRef → Action → (extra : ℤ) → Slot → State W → State W
  resolve_action room round actor action extra slot s =
      dispatch room round actor action extra slot (with_world (e.drain actor action s.world) s)
