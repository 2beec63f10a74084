-- ===== src/Combat/Decay/Tests.antt =====
-- Runs of internal/combat/decay.go.
use wheel_mud.Base.{ℕ, ◌+◌, ◌≡◌, Bool, true, none, some, List, [], ◌∷◌, arith, ◌==◌}
use wheel_mud.Combat.Decay.{DecayEntry, DecayRow}
use wheel_mud.Combat.Decay.Laws.{IsSorted}
use wheel_mud.Combat.Decay.Account.{
  count, waiting, deleted, failed, outlasts, late, scheduled, Call, schedules, ticks, run,
  run_balance,
}

abbrev corpses : List DecayEntry
corpses =
    record { item_id = 11; room_id = 3; at = 100 }
    ∷ record { item_id = 12; room_id = 3; at = 200 }
    ∷ record { item_id = 13; room_id = 4; at = 300 }
    ∷ []

corpses-IsSorted : IsSorted corpses
corpses-IsSorted = ((omega arith, (omega arith, tt)), ((omega arith, tt), (tt, tt)))

abbrev answers : ℕ → Bool
answers k = k == 0

abbrev calls : List Call
calls = schedules 12 3 250 ∷ ticks 200 answers ∷ ticks 250 answers ∷ []

run_balance_example :
    let (q', effects) = run corpses calls in
    (deleted 12 effects + failed 12 effects + waiting 12 q'
      ≡ waiting 12 corpses + scheduled 12 calls)
    × (waiting 12 q' ≡ count (outlasts 12 calls) corpses + late 12 calls)
run_balance_example = run_balance 12 corpses calls corpses-IsSorted

abbrev rows : List DecayRow
rows =
    record { id = 21; row_room_id = 3; decay_expires_at = some 90 }
    ∷ record { id = 22; row_room_id = 3; decay_expires_at = some 400 }
    ∷ record { id = 23; row_room_id = 4; decay_expires_at = none }
    ∷ []

abbrev all_deleted : ℕ → Bool
all_deleted i = true
