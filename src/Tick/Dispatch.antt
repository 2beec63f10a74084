-- ===== src/Tick/Dispatch.antt =====
-- What internal/tick/scheduler.go starts behind a cancellation: `tick` releases the lock before it
-- starts the handlers that it has taken.
use wheel_mud.Base.{
  ℕ, zero, suc, ◌+◌, ◌≡◌, inl, inr, ap, refl, Option, some, List, [], ◌∷◌, ◌++◌, arith, length,
  length-append, get_elem?, take, drop, ◌==◌, if◌then◌else◌, Option-cases,
}
use wheel_mud.Tick.{Subscription, cancel, step, Running, Move, happens, launches, move, moves}
use wheel_mud.Tick.Table.{starts}
use wheel_mud.Tick.Fires.{Events, fired, Calm}
use wheel_mud.Tick.Timers.{cancel-fired}

-- How many of the handlers belong to a subscription.
pub count : ℕ → List (ℕ × ℕ) → ℕ
count id [] = 0
count id ((other, fn) ∷ l) = (if other == id then 1 else 0) + count id l

abbrev pub events_of : List Move → Events
events_of [] = []
events_of (happens now e ∷ ms) = (now, e) ∷ events_of ms
events_of (launches k ∷ ms) = events_of ms

count-append : (id : ℕ) (a b : List (ℕ × ℕ)) → count id (a ++ b) ≡ count id a + count id b
unfolding count
count-append id [] b = omega arith
count-append id (x ∷ a) b = omega (arith, count-append id a b)

count-cut :
    (id k : ℕ) (l : List (ℕ × ℕ)) (x : ℕ × ℕ)
    → get_elem? l k ≡ some x
    → count id (x ∷ []) + count id (take k l ++ drop (suc k) l) ≡ count id l
unfolding count
count-cut id k [] x h = cc
count-cut id zero (y ∷ l) x h = let here : y ≡ x = cc in ground (arith, here)
count-cut id (suc k) (y ∷ l) x h = ground (arith, count-cut id k l x h)

length-starts : (id now : ℕ) (due : List (ℕ × ℕ)) → length (starts id now due) ≡ count id due
unfolding starts count
length-starts id now [] = refl
length-starts id now ((other, fn) ∷ due) = ground (arith, length-starts id now due)

balance_lem :
    (id : ℕ) (r : Running) (ms : List Move)
    → count id (moves r ms).1 + count id (moves r ms).0.pending
      ≡ count id r.pending + length (fired id r.scheduler (events_of ms))
unfolding moves move fired
balance_lem id r [] = unfold count in omega arith
balance_lem id r (happens now e ∷ ms) =
    let (s, due) = step now r.scheduler e in
    let r' : Running = record { scheduler = s; pending = r.pending ++ due } in
    omega (
      arith,
      balance_lem id r' ms,
      count-append id r.pending due,
      length-starts id now due,
      length-append (starts id now due) (fired id s (events_of ms)),
    )
balance_lem id r (launches k ∷ ms) = elim (Option-cases (get_elem? r.pending k)) [
  | inl e ↦ rw (moves, move, e) (balance_lem id r ms)
  | inr (x, e) ↦
      let r' : Running = record r { pending = take k r.pending ++ drop (suc k) r.pending } in
      rw (moves, move, e)
        (omega (
          arith,
          balance_lem id r' ms,
          count-cut id k r.pending x e,
          count-append id (x ∷ []) (moves r' ms).1,
        ))
]

-- After its cancellation no tick takes a subscription any more: of it only those handlers start that
-- ticks had taken and not yet started when it was cancelled, and each of them once; those that start
-- and those that still wait are together as many. So where none was pending it never starts again,
-- whatever follows, further cancellations of it included. No id stands in the table twice, and the ids
-- do not run out.
pub cancel_starts :
    (id : ℕ) (o : Option Subscription) (r : Running) (ms : List Move)
    → Calm id o r.scheduler (length (events_of ms))
    → let (last, begun) = moves (record r { scheduler = cancel r.scheduler (some id) }) ms in
      count id begun + count id last.pending ≡ count id r.pending
cancel_starts id o r ms c =
    let r' : Running = record r { scheduler = cancel r.scheduler (some id) } in
    omega (arith, balance_lem id r' ms, ap length (cancel-fired id o r.scheduler (events_of ms) c))
