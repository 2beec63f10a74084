-- ===== src/Combat/Manager/Pulse/Cadence.antt =====
-- The cadence of a fight: which combatants a pulse of `tickRoom` of internal/combat/manager.go lets act,
-- in which sequence, and when they act again.
use wheel_mud.Base.{
  ℕ, ◌≡◌, inl, inr, refl, ◌∙◌, sym, ap, Bool, true, false, ◌||◌, Option, none, some, List, [], ◌∷◌,
  arith, ◌+◌, ◌==◌, if◌then◌else◌, Bool-cases, Option-cases, length,
}
use wheel_mud.Base.Dict
use wheel_mud.Combat.Refs.{ActorRef, same_ref, RefMap, member, lookup}
use wheel_mud.Combat.Fight.{ActorEntry, Action, Fight, prune_dead}
use wheel_mud.Combat.Manager.{round_started, State, Engine, update_fight}
use wheel_mud.Combat.Manager.Pulse.{
  Ready, ready_from, pop_all, stamp, taken_by, act, turn, turns, has_live_participants, pulse,
  tick_room,
}
use wheel_mud.Combat.Manager.Pulse.Keeps.{
  frame_of, frame, frame-update_fight, update_fight-log, act-Keeps,
}
use wheel_mud.Combat.Manager.Pulse.Stamps.{
  entry_of, acts, ready_refs, due_refs, announced, begun, ready_from-refs, begun-ready_from,
  ready_from-length, member-due_refs, Turned, absent, waits, acted, entry_of-stamp, pop_all_lem,
}

Turned-trans :
    (now : ℕ) (b c : Bool) (x y z : Option ActorEntry)
    → Turned now b x y
    → Turned now c y z
    → Turned now (b || c) x z
Turned-trans now b c none none none absent absent = absent
Turned-trans now b c none none (some _) _ k = elim k [ ]
Turned-trans now b c none (some _) z h _ = elim h [ ]
Turned-trans now false false (some x) _ _ waits waits = waits
Turned-trans now false true (some x) _ _ waits (acted cost) = acted cost
Turned-trans now true false (some x) _ _ (acted cost) waits = acted cost
Turned-trans now true true (some x) _ _ (acted cost) (acted cost') = acted cost'

Turned-stamp :
    (at ref : ActorRef) (now cost : ℕ) (order : List ActorEntry)
    → Turned now
        (same_ref at ref)
        (entry_of ref order)
        (entry_of ref (stamp at now (now + cost) order))
Turned-stamp at ref now cost order = elim (Bool-cases (same_ref at ref)) [
  | inl same ↦ elim (Option-cases (entry_of ref order)) [
    | inl e ↦ rw (entry_of-stamp at ref now (now + cost) order, same, e) absent
    | inr (x, e) ↦ rw (entry_of-stamp at ref now (now + cost) order, same, e) (acted cost)
  ]
  | inr apart ↦ elim (Option-cases (entry_of ref order)) [
    | inl e ↦ rw (entry_of-stamp at ref now (now + cost) order, apart, e) absent
    | inr (x, e) ↦ rw (entry_of-stamp at ref now (now + cost) order, apart, e) waits
  ]
]

Turned-none : (now : ℕ) (o : Option ActorEntry) → Turned now false o o
Turned-none now none = absent
Turned-none now (some x) = waits

-- A function of the order acts on the frame.
frame-order :
    {W : Type 0} (room n : ℕ) (o : List ActorEntry) (actions : RefMap Action)
    (g : List ActorEntry → List ActorEntry) (s : State W)
    → frame room s ≡ some (o, n, actions)
    → frame room (update_fight room (λ f. record f { order = g f.order }) s)
      ≡ some (g o, n, actions)
frame-order room n o actions g s h = elim (Option-cases (Dict.lookup room s.fights)) [
  | inl e ↦ ground (arith, h, e)
  | inr (f, e) ↦
      let kept : frame_of f ≡ (o, n, actions) = ground (arith, h, e) in
      frame-update_fight room room (λ f. record f { order = g f.order }) s
      ∙ ground (arith, e, ap (λ p. p.0) kept, ap (λ p. p.1) kept)
]

-- What happens in one room leaves the frames of the other rooms.
abbrev pub Elsewhere : {W : Type 0} → ℕ → (s s' : State W) → Type 0
Elsewhere room s s' = (at : ℕ) → (room == at) ≡ false → frame at s' ≡ frame at s

module _ {W : Type 0} (e : Engine W) (room now : ℕ) (taken : RefMap (Option Action)) where
  turn_lem :
      (r : Ready) (o : List ActorEntry) (n : ℕ) (actions : RefMap Action) (s : State W)
      → frame room s ≡ some (o, n, actions)
      → (cost : ℕ) × (frame room (turn e room now taken r s)
          ≡ some (stamp r.ref now (now + cost) o, n, actions))
        × ((turn e room now taken r s).log ≡ round_started room r.round r.ref ∷ s.log)
        × Elsewhere room s (turn e room now taken r s)
  unfolding turn
  turn_lem r o n actions s h =
      let begins : State W = record s { log = round_started room r.round r.ref ∷ s.log } in
      let (cost, s') = act e room r (taken_by (lookup r.ref taken)) begins in
      let (same_log, same_frame) = act-Keeps e room r (taken_by (lookup r.ref taken)) begins in
      let stamps : Fight → Fight =
        (λ f. record f { order = stamp r.ref now (now + cost) f.order }) in
      (
        cost,
        frame-order room n o actions (stamp r.ref now (now + cost)) s' (same_frame room ∙ h),
        update_fight-log room _ s' ∙ same_log,
        λ at apart. frame-update_fight room at stamps s' ∙ rw (apart) (same_frame at),
      )

  turns_lem :
      (rs : List Ready) (o : List ActorEntry) (n : ℕ) (actions : RefMap Action) (s : State W)
      → frame room s ≡ some (o, n, actions)
      → (o' : List ActorEntry) × (frame room (turns e room now taken rs s) ≡ some (o', n, actions))
        × ((turns e room now taken rs s).log ≡ begun room rs s.log)
        × Elsewhere room s (turns e room now taken rs s)
        × ((ref : ActorRef)
            → Turned now (member ref (ready_refs rs)) (entry_of ref o) (entry_of ref o'))
  unfolding turns
  turns_lem [] o n actions s h =
      (o, h, refl, (λ at apart. refl), λ ref. Turned-none now (entry_of ref o))
  turns_lem (r ∷ rs) o n actions s h =
      let t = turn e room now taken r s in
      let (cost, framed, logged, apart) = turn_lem r o n actions s h in
      let (o', framed', logged', apart', turned) =
        turns_lem rs (stamp r.ref now (now + cost) o) n actions t framed in
      (
        o',
        framed',
        logged' ∙ ap (begun room rs) logged,
        (λ at ne. apart' at ne ∙ apart at ne),
        λ ref. Turned-trans now _ _ _ _ _ (Turned-stamp r.ref ref now cost o) (turned ref),
      )

-- What a pulse of the fight `f` makes of the manager's state.
pub record Pulsed {W : Type 0} (e : Engine W) (room : ℕ) (f : Fight) (s s' : State W) : Type 0 where
  pub order : List ActorEntry
  pub waiting : RefMap Action
  pub framed :
      frame room s' ≡ some (order, f.round + length (due_refs (e.now s.world) f.order), waiting)
  pub logged : s'.log ≡ announced room f.round (due_refs (e.now s.world) f.order) s.log
  pub turned :
      (ref : ActorRef)
      → Turned
          (e.now s.world)
          (acts (e.now s.world) ref f.order)
          (entry_of ref f.order)
          (entry_of ref order)
  pub taken :
      (ref : ActorRef)
      → lookup ref waiting
        ≡ (if acts (e.now s.world) ref f.order then none else lookup ref f.actions)
  pub elsewhere : Elsewhere room s s'

module _ {W : Type 0} (e : Engine W) where
  pulse-Pulsed : (room : ℕ) (f : Fight) (s : State W) → Pulsed e room f s (pulse e room f s)
  unfolding pulse
  pulse-Pulsed room f s =
      let now = e.now s.world in
      let ready = ready_from now f.round f.order in
      let counted : Fight = record f { round = f.round + length ready } in
      let (f', taken) = pop_all ready [] counted in
      let starts : State W = record s { fights = Dict.insert room f' s.fights } in
      let (kept, rounds, left) = pop_all_lem ready [] counted in
      let there : frame room starts ≡ some (f.order, counted.round, f'.actions) =
        ground (arith, Dict.lookup-insert room room f' s.fights, kept, rounds) in
      let (order, framed, logged, apart, turned) =
        turns_lem e room now taken ready f.order counted.round f'.actions starts there in
      let who : (ref : ActorRef) → member ref (ready_refs ready) ≡ acts now ref f.order = (λ ref.
        ap (member ref) (ready_from-refs now f.round f.order) ∙ member-due_refs now ref f.order) in
      record {
        order = order;
        waiting = f'.actions;
        framed =
            framed
            ∙ ap (λ (n : ℕ). some (order, n, f'.actions))
                (ap (λ (n : ℕ). f.round + n) (ready_from-length now f.round f.order));
        logged = logged ∙ begun-ready_from room now f.round f.order s.log;
        turned = (λ ref. rw (sym (who ref)) (turned ref));
        taken = (λ ref. left ref ∙ rw (who ref) refl);
        elsewhere =
            (λ at ne. apart at ne ∙ ground (arith, ne, Dict.lookup-insert room at f' s.fights));
      }

  -- Where a mob of the fight is still in the room, or the fight has none, and someone is left after the
  -- prune, a pulse announces a turn for each entry that is due, in the sequence of the order, in rounds
  -- that count on from the fight's. Then a combatant who was due has acted now, acts again no sooner, and
  -- has no action waiting, and all else of the entry is as it was; the other combatants have the entries
  -- and the actions that they had. The fights of other rooms keep their orders, rounds and actions. One
  -- entry that is left is enough, and a pulse counts a round for each entry that is due; the comments of
  -- `Tick` and `Start` in the source say otherwise.
  pub tick_room_lem :
      (room : ℕ) (f : Fight) (s : State W)
      → Dict.lookup room s.fights ≡ some f
      → has_live_participants e s.world room f.order ≡ true
      → (length (prune_dead f).0.order == 0) ≡ false
      → Pulsed e room (prune_dead f).0 s (tick_room e room s)
  unfolding tick_room
  tick_room_lem room f s there live some_left =
      rw (tick_room, there, live, some_left) (pulse-Pulsed room (prune_dead f).0 s)
