-- ===== src/Combat/Fight.antt =====
-- internal/combat/fight.go and the queue of actions of internal/combat/action.go: one fight. Instants
-- are natural numbers (nanoseconds), rounds too; scores and bonuses are integers. A map that is nil in
-- the source is an empty one.
pub mod Prune
pub mod Turns
pub mod Threat
mod Tests
use wheel_mud.Base.{
  ℕ, Bool, true, false, not, ◌&&◌, ◌||◌, Option, none, some, List, [], ◌∷◌, ◌++◌, ltb, leb, ◌==◌,
  if◌then◌else◌, length,
}
use wheel_mud.Base.Int.{ℤ, pos, negsuc, ◌+ℤ◌, ◌==ℤ◌, ltb_ℤ}
use wheel_mud.Combat.Refs.{
  ActorKind, unknown, ActorRef, same_ref, RefMap, member, lookup, insert, erase, each,
}

-- The two slots that a swing can come from.
pub data Slot : Type 0 where
  primary_wield off_hand : Slot

pub record SwingPlan : Type 0 where
  pub slot : Slot
  pub bonus : ℤ

pub record ActorEntry : Type 0 where
  pub ref : ActorRef
  pub initiative : ℤ
  pub tiebreak : ℤ
  pub next_act_at : ℕ
  pub last_acted_at : ℕ
  pub pending_swings : ℕ
  pub swings : List SwingPlan

pub data ActionKind : Type 0 where
  idle attack parry flee dodge throw sidestep : ActionKind

pub data AttackVariant : Type 0 where
  normal power quick : AttackVariant

pub record Action : Type 0 where
  pub kind : ActionKind
  pub variant : AttackVariant
  pub target : ActorRef
  pub weapon_id : ℕ

pub record Fight : Type 0 where
  pub room_id : ℕ
  pub round : ℕ
  pub order : List ActorEntry
  pub started_at : ℕ
  pub actions : RefMap Action
  pub damage_tally : RefMap ℤ
  pub dead : List ActorRef
  pub fled : List ActorRef
  pub parrying_until : RefMap ℕ
  pub flat_footed_until : RefMap ℕ
  pub dodge_until : RefMap ℕ
  pub threat : RefMap (RefMap ℤ)

abbrev pub no_ref : ActorRef
no_ref = record { kind = unknown; id = 0 }

-- One round of the loop of `HighestThreat`; the pair is `best` and `bestScore`.
unfoldable pub more_threat : ActorRef × ℤ → ActorRef × ℤ → ActorRef × ℤ
more_threat (best, best_score) (ref, score) =
    if ltb_ℤ best_score score
    then (ref, score)
    else if (score ==ℤ best_score) && ltb ref.id best.id
    then (ref, best_score)
    else (best, best_score)

unfoldable pub threat_loop : ActorRef × ℤ → RefMap ℤ → ActorRef × ℤ
threat_loop b [] = b
threat_loop b (e ∷ row) = threat_loop (more_threat b e) row

abbrev pub row_of : Option (RefMap ℤ) → RefMap ℤ
row_of none = []
row_of (some row) = row

-- On no row, and on an empty one, the loop's start is the zero reference.
unfoldable pub highest_threat : Fight → ActorRef → ActorRef
highest_threat f defender = (threat_loop (no_ref, negsuc 0) (row_of (lookup defender f.threat))).0

abbrev pub removed : Fight → ActorRef → Bool
removed f ref = member ref f.dead || member ref f.fled

-- What is deleted with an entry.
unfoldable pub forget : ActorRef → Fight → Fight
forget ref f = record f {
  parrying_until = erase ref f.parrying_until;
  flat_footed_until = erase ref f.flat_footed_until;
  dodge_until = erase ref f.dodge_until;
  threat = each (erase ref) (erase ref f.threat);
}

-- The loop of `pruneDead`, with the fight and `out`.
unfoldable pub prune_loop :
    (gone : ActorRef → Bool) → List ActorEntry → List ActorEntry → Fight → Fight
prune_loop gone [] out f = record f { order = out; dead = []; fled = [] }
prune_loop gone (e ∷ es) out f =
    prune_loop gone es (if gone e.ref then out else out ++ e ∷ [])
      (if gone e.ref then forget e.ref f else f)

unfoldable pub prune_dead : Fight → Fight × Bool
prune_dead f =
    if (length f.dead == 0) && (length f.fled == 0)
    then (f, false)
    else (prune_loop (removed f) f.order [] f, true)

-- The order of `sortInitiative`.
unfoldable pub acts_before : ActorEntry → ActorEntry → Bool
acts_before a b =
    if not (a.initiative ==ℤ b.initiative)
    then ltb_ℤ b.initiative a.initiative
    else if not (a.tiebreak ==ℤ b.tiebreak)
    then ltb_ℤ b.tiebreak a.tiebreak
    else ltb a.ref.id b.ref.id

-- `sort.SliceStable` is a stable insertion sort.
unfoldable pub insert_entry : ActorEntry → List ActorEntry → List ActorEntry
insert_entry a [] = a ∷ []
insert_entry a (b ∷ bs) = if acts_before b a then b ∷ insert_entry a bs else a ∷ b ∷ bs

unfoldable pub sort_initiative : List ActorEntry → List ActorEntry
sort_initiative [] = []
sort_initiative (a ∷ as') = insert_entry a (sort_initiative as')

unfoldable pub pop_action : ActorRef → Fight → Fight × Option Action
pop_action actor f = (record f { actions = erase actor f.actions }, lookup actor f.actions)
