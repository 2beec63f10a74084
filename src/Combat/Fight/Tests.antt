-- ===== src/Combat/Fight/Tests.antt =====
-- Runs of internal/combat/fight.go on a character and two mobs.
use mathlib.Core.List.{Memᴰ}
use mathlib.Core.List.Memᴰ
use wheel_mud.Base.{ℕ, ◌≡◌, inl, inr, refl, sym, ◌∙◌, some, [], ◌∷◌, arith}
use wheel_mud.Base.Int.{ℤ, pos}
use wheel_mud.Combat.Refs.{
  character, mob, ActorKind, ActorRef, RefMap, same_ref, lookup, erase, each,
}
use wheel_mud.Combat.Fight.{
  ActorEntry, Fight, more_threat, threat_loop, highest_threat, forget, prune_loop, prune_dead,
  removed, acts_before, insert_entry, sort_initiative,
}
use wheel_mud.Combat.Fight.Prune.{Pruned, Ordered, prune_dead_lem}
use wheel_mud.Combat.Fight.Threat.{Scores, IsHighest, highest_threat_lem, highest_threat_stable}

abbrev ref : ActorKind → ℕ → ActorRef
ref kind id = record { kind = kind; id = id }

abbrev rand : ActorRef
rand = ref character 1

abbrev trolloc : ActorRef
trolloc = ref mob 7

abbrev fade : ActorRef
fade = ref mob 8

abbrev entry : ActorRef → ℤ → ActorEntry
entry r initiative = record {
  ref = r;
  initiative = initiative;
  tiebreak = pos 10;
  next_act_at = 0;
  last_acted_at = 0;
  pending_swings = 1;
  swings = [];
}

abbrev row : RefMap ℤ
row = (fade, pos 4) ∷ (rand, pos 4) ∷ []

abbrev row' : RefMap ℤ
row' = (rand, pos 4) ∷ (fade, pos 4) ∷ []

abbrev fight : RefMap ℤ → Fight
fight threats = record {
  room_id = 3;
  round = 5;
  order = entry fade (pos 18) ∷ entry rand (pos 12) ∷ entry trolloc (pos 3) ∷ [];
  started_at = 0;
  actions = [];
  damage_tally = [];
  dead = fade ∷ [];
  fled = [];
  parrying_until = (fade, 6) ∷ (rand, 6) ∷ [];
  flat_footed_until = [];
  dodge_until = [];
  threat = (trolloc, threats) ∷ (fade, (rand, pos 2) ∷ []) ∷ [];
}

pruned : (prune_dead (fight row)).0 ≡ record (fight row) {
  order = entry rand (pos 12) ∷ entry trolloc (pos 3) ∷ [];
  dead = [];
  parrying_until = (rand, 6) ∷ [];
  threat = (trolloc, (rand, pos 4) ∷ []) ∷ [];
}
unfolding prune_dead prune_loop forget erase each same_ref
pruned = refl

sorted :
    sort_initiative (entry trolloc (pos 3) ∷ entry rand (pos 12) ∷ entry fade (pos 12) ∷ [])
    ≡ entry rand (pos 12) ∷ entry fade (pos 12) ∷ entry trolloc (pos 3) ∷ []
unfolding sort_initiative insert_entry acts_before
sorted = refl

-- A character and a mob of the same id and with the same threat: the answer hangs on the order of the row.
tie_hangs_on_order :
    (highest_threat (fight ((ref mob 1, pos 4) ∷ (rand, pos 4) ∷ [])) trolloc ≡ ref mob 1)
    × (highest_threat (fight ((rand, pos 4) ∷ (ref mob 1, pos 4) ∷ [])) trolloc ≡ rand)
unfolding highest_threat threat_loop more_threat lookup same_ref
tie_hangs_on_order = (refl, refl)

prune_dead_lem_example :
    Pruned (removed (fight row)) (fight row).order (fight row) (prune_dead (fight row)).0
    × Ordered (removed (fight row)) (fight row).order [] (fight row) (prune_dead (fight row)).0
prune_dead_lem_example = prune_dead_lem (fight row)

row_found : (threats : RefMap ℤ) → lookup trolloc (fight threats).threat ≡ some threats
unfolding lookup same_ref
row_found threats = refl

row-Scores : Scores row
row-Scores e m = elim (Memᴰ.cases_cons m) [
  | inl h ↦ rw h (omega arith)
  | inr m' ↦ rw (Memᴰ.eq_of_singleton m') (omega arith)
]

highest_threat_lem_example : IsHighest row (highest_threat (fight row) trolloc)
highest_threat_lem_example =
    highest_threat_lem (fight row) trolloc row (row_found row) (λ h. cc (h)) row-Scores

flip : (a b e : ActorRef × ℤ) → Memᴰ e (a ∷ b ∷ []) → Memᴰ e (b ∷ a ∷ [])
flip a b e m = elim (Memᴰ.cases_cons m) [
  | inl h ↦ Memᴰ.tail (Memᴰ.head h)
  | inr m' ↦ Memᴰ.head (Memᴰ.eq_of_singleton m')
]

apart_lem : (e e' : ActorRef × ℤ) → Memᴰ e row → Memᴰ e' row → e.0.id ≡ e'.0.id → e ≡ e'
apart_lem e e' m m' h = elim (Memᴰ.cases_cons m) [
  | inl a ↦ elim (Memᴰ.cases_cons m') [
    | inl b ↦ a ∙ sym b
    | inr n ↦ absurd (ground (arith, a, Memᴰ.eq_of_singleton n, h))
  ]
  | inr n ↦ elim (Memᴰ.cases_cons m') [
    | inl b ↦ absurd (ground (arith, b, Memᴰ.eq_of_singleton n, h))
    | inr n' ↦ Memᴰ.eq_of_singleton n ∙ sym (Memᴰ.eq_of_singleton n')
  ]
]

highest_threat_stable_example :
    highest_threat (fight row) trolloc ≡ highest_threat (fight row') trolloc
highest_threat_stable_example =
    highest_threat_stable (fight row) (fight row') trolloc row row' (row_found row) (row_found row')
      (λ h. cc (h)) (λ h. cc (h)) row-Scores
      (λ e. (flip (fade, pos 4) (rand, pos 4) e, flip (rand, pos 4) (fade, pos 4) e)) apart_lem
