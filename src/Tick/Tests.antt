-- ===== src/Tick/Tests.antt =====
-- Runs of internal/tick/scheduler.go.
use wheel_mud.Base.{ℕ, ◌+◌, ◌≤◌, ◌≡◌, inl, inr, refl, true, false, some, List, [], ◌∷◌, arith}
use wheel_mud.Base.Int.{pos}
use wheel_mud.Base.Dict.{lookup, insert, erase}
use wheel_mud.Tick.{
  Subscription, Scheduler, new, subscribe, after, cancel, sweep, tick, subscribes, afters, cancels,
  ticks, add, step, Running, Move, happens, launches, moves,
}
use wheel_mud.Tick.Table.{Distinct, starts}
use wheel_mud.Tick.Fires.{Events, fired, expected, reached}
use wheel_mud.Tick.Timers.{fired-expected, after_fires}
use wheel_mud.Tick.Dispatch.{count, cancel_starts}

-- A pulse every two seconds with handler 5, and a timer of three seconds with handler 6.
abbrev pulse : Subscription
pulse = record { every = 2; next = 2; once = false; handler = 5 }

abbrev two_subs : Scheduler
two_subs = record {
  subs = (1, pulse) ∷ (2, record { every = 3; next = 3; once = true; handler = 6 }) ∷ [];
  next_id = 2;
}

abbrev four_ticks : Events
four_ticks = (1, ticks) ∷ (2, ticks) ∷ (2, cancels (some 2)) ∷ (3, ticks) ∷ (4, ticks) ∷ []

made : reached new ((0, subscribes (pos 2) (some 5)) ∷ (0, afters (pos 3) (some 6)) ∷ []) ≡ two_subs
unfolding reached step subscribe after add insert new
made = refl

on_two_and_four : fired 1 two_subs four_ticks ≡ (2, 5) ∷ (4, 5) ∷ []
unfolding fired step cancel tick sweep starts erase
on_two_and_four = refl

two_subs-Distinct : Distinct two_subs.subs
unfolding lookup
two_subs-Distinct = (refl, (refl, tt))

fired-expected_example : fired 1 two_subs four_ticks ≡ expected pulse (1 ∷ 2 ∷ 3 ∷ 4 ∷ [])
unfolding lookup
fired-expected_example =
    fired-expected 1 pulse two_subs four_ticks
      (record {
        distinct = two_subs-Distinct;
        held = refl;
        given = omega arith;
        room = omega arith;
      })
      (tt, (tt, (omega arith, (tt, (tt, tt)))))

-- A tick has taken both; the timer is cancelled before it starts, and starts all the same.
abbrev both_taken : Running
both_taken = record { scheduler = two_subs; pending = (1, 5) ∷ (2, 6) ∷ [] }

abbrev some_moves : List Move
some_moves = launches 1 ∷ happens 4 ticks ∷ launches 0 ∷ happens 6 ticks ∷ []

cancel_starts_example :
    let (last, begun) =
      moves (record both_taken { scheduler = cancel two_subs (some 2) }) some_moves in
    count 2 begun + count 2 last.pending ≡ count 2 both_taken.pending
unfolding lookup
cancel_starts_example =
    cancel_starts 2 (some (record { every = 3; next = 3; once = true; handler = 6 })) both_taken
      some_moves
      (record {
        distinct = two_subs-Distinct;
        held = refl;
        given = omega arith;
        room = omega arith;
      })

abbrev two_ticks : Events
two_ticks = (4, ticks) ∷ (9, ticks) ∷ []

after_fires_example :
    (t : ℕ) × (fired (2 + 1) (after 3 two_subs (pos 4) (some 8)).0 two_ticks ≡ (t, 8) ∷ [])
    × (3 + 4 ≤ t)
after_fires_example =
    after_fires 3 4 8 two_subs two_ticks two_subs-Distinct (omega arith) (tt, (tt, tt))
      (inr (inl (omega arith)))
