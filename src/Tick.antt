-- ===== src/Tick.antt =====
-- internal/tick/scheduler.go: the subscriptions of the heartbeat. Times are numbers in nanoseconds, a
-- handler is a number, `none` where it is nil. The lock of the source makes each operation one step. A
-- tick takes what is due under the lock, which is the list that it returns, and starts it when it has
-- released the lock; `Running` has what is taken and not yet started.
pub mod Table
pub mod Fires
pub mod Timers
pub mod Dispatch
mod Tests
use wheel_mud.Base.{
  ℕ, zero, suc, ◌+◌, ◌%◌, Bool, true, false, Option, none, some, List, [], ◌∷◌, ◌++◌, get_elem?,
  take, drop, leb, ◌==◌, if◌then◌else◌,
}
use wheel_mud.Base.Int.{ℤ, pos, negsuc}
use wheel_mud.Base.Dict.{Dict, lookup, insert, erase}

-- The id is the key under which it is kept.
pub record Subscription : Type 0 where
  pub every : ℕ
  pub next : ℕ
  pub once : Bool
  pub handler : ℕ

pub record Scheduler : Type 0 where
  pub subs : Dict Subscription
  pub next_id : ℕ

-- 2 ^ 64: the ids are of type uint64.
abbrev pub uint64_size : ℕ
uint64_size = 18446744073709551616

unfoldable pub new : Scheduler
new = record { subs = []; next_id = 0 }

unfoldable pub add :
    (now : ℕ) → Scheduler → (every handler : ℕ) → (once : Bool) → Scheduler × Option ℕ
add now s every handler once =
    let id = (s.next_id + 1) % uint64_size in
    (
      record {
        subs =
            insert id (record { every = every; next = now + every; once = once; handler = handler })
              s.subs;
        next_id = id;
      },
      some id,
    )

-- With the id of the subscription, or none where its `Cancel` does nothing.
unfoldable pub subscribe :
    (now : ℕ) → Scheduler → (every : ℤ) → (fn : Option ℕ) → Scheduler × Option ℕ
subscribe now s (pos (suc every)) (some fn) = add now s (suc every) fn false
subscribe now s (pos zero) (some fn) = (s, none)
subscribe now s (negsuc n) (some fn) = (s, none)
subscribe now s every none = (s, none)

unfoldable pub after : (now : ℕ) → Scheduler → (d : ℤ) → (fn : Option ℕ) → Scheduler × Option ℕ
after now s (pos d) (some fn) = add now s d fn true
after now s (negsuc n) (some fn) = (s, none)
after now s d none = (s, none)

unfoldable pub cancel : Scheduler → Option ℕ → Scheduler
cancel s none = s
cancel s (some id) = record s { subs = erase id s.subs }

-- The loop of `tick` over the subscriptions: those that are kept, and those that are due, each with
-- its handler.
unfoldable pub sweep : (now : ℕ) → Dict Subscription → Dict Subscription × List (ℕ × ℕ)
sweep now [] = ([], [])
sweep now ((id, sub) ∷ subs) =
    let (kept, due) = sweep now subs in
    if leb sub.next now
    then (
      if sub.once then kept else (id, record sub { next = now + sub.every }) ∷ kept,
      (id, sub.handler) ∷ due,
    )
    else ((id, sub) ∷ kept, due)

unfoldable pub tick : (now : ℕ) → Scheduler → Scheduler × List (ℕ × ℕ)
tick now s = let (kept, due) = sweep now s.subs in (record s { subs = kept }, due)

-- What callers and the heartbeat do.
pub data Event : Type 0 where
  subscribes : (every : ℤ) (fn : Option ℕ) → Event
  afters : (d : ℤ) (fn : Option ℕ) → Event
  cancels : (id : Option ℕ) → Event
  ticks : Event

unfoldable pub step : (now : ℕ) → Scheduler → Event → Scheduler × List (ℕ × ℕ)
step now s (subscribes every fn) = ((subscribe now s every fn).0, [])
step now s (afters d fn) = ((after now s d fn).0, [])
step now s (cancels id) = (cancel s id, [])
step now s ticks = tick now s

-- The scheduler, and what ticks have taken and not yet started.
pub record Running : Type 0 where
  pub scheduler : Scheduler
  pub pending : List (ℕ × ℕ)

-- An event at a time, or the start of the pending handler at a place: the goroutines of a tick start in
-- any order, and among later events.
pub data Move : Type 0 where
  happens : (now : ℕ) (e : Event) → Move
  launches : (k : ℕ) → Move

abbrev pub launched : Running → ℕ → Option (ℕ × ℕ) → Running × List (ℕ × ℕ)
launched r k none = (r, [])
launched r k (some x) = (record r { pending = take k r.pending ++ drop (suc k) r.pending }, x ∷ [])

unfoldable pub move : Running → Move → Running × List (ℕ × ℕ)
move r (happens now e) =
    let (s, due) = step now r.scheduler e in
    (record { scheduler = s; pending = r.pending ++ due }, [])
move r (launches k) = launched r k (get_elem? r.pending k)

-- The state behind some moves, and what they have started.
unfoldable pub moves : Running → List Move → Running × List (ℕ × ℕ)
moves r [] = (r, [])
moves r (m ∷ ms) =
    let (r', begun) = move r m in let (last, more) = moves r' ms in (last, begun ++ more)
