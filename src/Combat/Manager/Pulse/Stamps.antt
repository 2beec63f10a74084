-- ===== src/Combat/Manager/Pulse/Stamps.antt =====
-- What a pulse does to the entries of the order: `tickRoom` of internal/combat/manager.go.
use wheel_mud.Base.{
  ℕ, suc, ◌≡◌, inl, inr, refl, ◌∙◌, Bool, true, false, ◌&&◌, ◌||◌, Option, none, some, List, [],
  ◌∷◌, arith, ◌+◌, if◌then◌else◌, Bool-cases, length,
}
use wheel_mud.Combat.Refs.{
  ActorRef, same_ref, same_ref_iff, RefMap, member, lookup, insert, lookup-erase,
}
use wheel_mud.Combat.Fight.{ActorEntry, Action, Fight, pop_action}
use wheel_mud.Combat.Manager.{Event, round_started}
use wheel_mud.Combat.Manager.Pulse.{Ready, due, ready_from, pop_all, stamp}

-- The first entry of a combatant.
abbrev pub entry_of : ActorRef → List ActorEntry → Option ActorEntry
entry_of ref [] = none
entry_of ref (x ∷ order) = if same_ref x.ref ref then some x else entry_of ref order

-- Whether an entry of the combatant is due.
abbrev pub acts : ℕ → ActorRef → List ActorEntry → Bool
acts now ref [] = false
acts now ref (x ∷ order) = (due now x && same_ref x.ref ref) || acts now ref order

abbrev pub ready_refs : List Ready → List ActorRef
ready_refs [] = []
ready_refs (r ∷ rs) = r.ref ∷ ready_refs rs

-- The combatants that are due, in the sequence of the order.
abbrev pub due_refs : ℕ → List ActorEntry → List ActorRef
due_refs now [] = []
due_refs now (x ∷ order) = if due now x then x.ref ∷ due_refs now order else due_refs now order

-- The turns that a pulse announces, the last one first, on top of the log; the rounds count on.
abbrev pub announced : (room round : ℕ) → List ActorRef → List Event → List Event
announced room round [] log = log
announced room round (ref ∷ refs) log =
    announced room (suc round) refs (round_started room (suc round) ref ∷ log)

abbrev pub begun : ℕ → List Ready → List Event → List Event
begun room [] log = log
begun room (r ∷ rs) log = begun room rs (round_started room r.round r.ref ∷ log)

pub ready_from-refs :
    (now round : ℕ) (order : List ActorEntry)
    → ready_refs (ready_from now round order) ≡ due_refs now order
unfolding ready_from
ready_from-refs now round [] = refl
ready_from-refs now round (x ∷ order) =
    ground (arith, ready_from-refs now round order, ready_from-refs now (suc round) order)

pub ready_from-length :
    (now round : ℕ) (order : List ActorEntry)
    → length (ready_from now round order) ≡ length (due_refs now order)
unfolding ready_from
ready_from-length now round [] = refl
ready_from-length now round (x ∷ order) =
    ground (arith, ready_from-length now round order, ready_from-length now (suc round) order)

pub begun-ready_from :
    (room now round : ℕ) (order : List ActorEntry) (log : List Event)
    → begun room (ready_from now round order) log ≡ announced room round (due_refs now order) log
unfolding ready_from
begun-ready_from room now round [] log = refl
begun-ready_from room now round (x ∷ order) log = elim (Bool-cases (due now x)) [
  | inl d ↦
      rw (d)
        (begun-ready_from room now (suc round) order (round_started room (suc round) x.ref ∷ log))
  | inr d ↦ rw (d) (begun-ready_from room now round order log)
]

pub member-due_refs :
    (now : ℕ) (ref : ActorRef) (order : List ActorEntry)
    → member ref (due_refs now order) ≡ acts now ref order
member-due_refs now ref [] = refl
member-due_refs now ref (x ∷ order) = ground (arith, member-due_refs now ref order)

-- An entry before and after a pulse at `now`: the one of a combatant that is due has acted now and acts
-- again no sooner, with all else as it was; any other is as it was.
pub data Turned (now : ℕ) : Bool → Option ActorEntry → Option ActorEntry → Type 0 where
  absent : {b : Bool} → Turned now b none none
  waits : {x : ActorEntry} → Turned now false (some x) (some x)
  acted :
      {x : ActorEntry} (cost : ℕ)
      → Turned now true (some x) (some (record x { last_acted_at = now; next_act_at = now + cost }))

pub entry_of-stamp :
    (at ref : ActorRef) (now next : ℕ) (order : List ActorEntry)
    → entry_of ref (stamp at now next order) ≡ (
        if same_ref at ref
        then (elim (entry_of ref order) [
          | none ↦ none
          | some x ↦ some (record x { last_acted_at = now; next_act_at = next })
        ])
        else entry_of ref order)
unfolding stamp
entry_of-stamp at ref now next [] = ground arith
entry_of-stamp at ref now next (x ∷ order) = ground (
  arith,
  entry_of-stamp at ref now next order,
  same_ref_iff x.ref at,
  same_ref_iff x.ref ref,
  same_ref_iff at ref,
)

pub pop_all_lem :
    (rs : List Ready) (taken : RefMap (Option Action)) (f : Fight)
    → ((pop_all rs taken f).0.order ≡ f.order)
      × ((pop_all rs taken f).0.round ≡ f.round)
      × ((ref : ActorRef)
          → lookup ref (pop_all rs taken f).0.actions
            ≡ (if member ref (ready_refs rs) then none else lookup ref f.actions))
unfolding pop_all pop_action
pop_all_lem [] taken f = (refl, refl, λ ref. refl)
pop_all_lem (r ∷ rs) taken f =
    let f' : Fight = (pop_action r.ref f).0 in
    let (order, round, actions) = pop_all_lem rs (insert r.ref (pop_action r.ref f).1 taken) f' in
    (order, round, λ ref. actions ref ∙ ground (arith, lookup-erase r.ref ref f.actions))
