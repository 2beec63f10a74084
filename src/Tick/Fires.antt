-- ===== src/Tick/Fires.antt =====
-- Runs of internal/tick/scheduler.go: what starts, and when, for one subscription.
use wheel_mud.Base.{
  ℕ, zero, suc, ◌+◌, ◌%◌, ◌≤◌, ◌<◌, ◌≡◌, ◌≢◌, inl, inr, ◌∙◌, ap₂, refl, Bool, true, false, Option,
  none, some, List, [], ◌∷◌, ◌++◌, arith, length, leb, ◌==◌, if◌then◌else◌, Bool-cases,
}
use wheel_mud.Base.Int.{pos, negsuc}
use wheel_mud.Base.Dict.{lookup, lookup-insert, lookup-erase}
use wheel_mud.Tick.{
  Subscription, Scheduler, uint64_size, add, subscribe, after, cancel, tick, Event, subscribes,
  afters, cancels, ticks, step,
}
use wheel_mud.Tick.Table.{
  Distinct, starts, left_over, insert-Distinct, erase-Distinct, sweep-absent, sweep-present,
  sweep-Distinct,
}

-- What happens, each with its time.
abbrev pub Events : Type 0
Events = List (ℕ × Event)

unfoldable pub fired : (id : ℕ) → Scheduler → Events → List (ℕ × ℕ)
fired id s [] = []
fired id s ((now, e) ∷ es) = let (s', due) = step now s e in starts id now due ++ fired id s' es

unfoldable pub reached : Scheduler → Events → Scheduler
reached s [] = s
reached s ((now, e) ∷ es) = reached (step now s e).0 es

step-Distinct :
    (now : ℕ) (s : Scheduler) (e : Event) → Distinct s.subs → Distinct (step now s e).0.subs
unfolding step subscribe after cancel tick add
step-Distinct now s (subscribes (pos (suc every)) (some fn)) d = insert-Distinct _ _ s.subs d
step-Distinct now s (subscribes (pos zero) (some fn)) d = d
step-Distinct now s (subscribes (negsuc m) (some fn)) d = d
step-Distinct now s (subscribes every none) d = d
step-Distinct now s (afters (pos k) (some fn)) d = insert-Distinct _ _ s.subs d
step-Distinct now s (afters (negsuc m) (some fn)) d = d
step-Distinct now s (afters k none) d = d
step-Distinct now s (cancels none) d = d
step-Distinct now s (cancels (some id)) d = erase-Distinct id s.subs d
step-Distinct now s ticks d = sweep-Distinct now s.subs d

-- No id ever stands in the table twice.
pub reached-Distinct :
    (s : Scheduler) (es : Events) → Distinct s.subs → Distinct (reached s es).subs
unfolding reached
reached-Distinct s [] d = d
reached-Distinct s ((now, e) ∷ es) d =
    reached-Distinct (step now s e).0 es (step-Distinct now s e d)

abbrev pub tick_times : Events → List ℕ
tick_times [] = []
tick_times ((now, ticks) ∷ es) = now ∷ tick_times es
tick_times ((now, subscribes every fn) ∷ es) = tick_times es
tick_times ((now, afters d fn) ∷ es) = tick_times es
tick_times ((now, cancels id) ∷ es) = tick_times es

-- The starts of a subscription on a row of ticks, looked at alone.
unfoldable pub expected : Subscription → List ℕ → List (ℕ × ℕ)
expected sub [] = []
expected sub (t ∷ ts) =
    let again = expected (record sub { next = t + sub.every }) ts in
    let later = expected sub ts in
    if leb sub.next t then (t, sub.handler) ∷ (if sub.once then [] else again) else later

abbrev pub expected_of : Option Subscription → List ℕ → List (ℕ × ℕ)
expected_of none ts = []
expected_of (some sub) ts = expected sub ts

-- The event is no cancellation of the id.
abbrev pub Leaves : ℕ → Event → Type 0
Leaves id (cancels (some other)) = other ≢ id
Leaves id _ = Unit

abbrev pub Uncancelled : ℕ → Events → Type 0
Uncancelled id [] = Unit
Uncancelled id ((now, e) ∷ es) = Leaves id e × Uncancelled id es

-- The table holds `o` for the id, which has been given out, and `n` more ids can be.
pub record Calm (id : ℕ) (o : Option Subscription) (s : Scheduler) (n : ℕ) : Type 0 where
  pub distinct : Distinct s.subs
  pub held : lookup id s.subs ≡ o
  pub given : id ≤ s.next_id
  pub room : s.next_id + n < uint64_size

pub Calm-less :
    (id : ℕ) (o : Option Subscription) (s : Scheduler) (n : ℕ) → Calm id o s (suc n) → Calm id o s n
Calm-less id o s n c = record {
  distinct = c.distinct;
  held = c.held;
  given = c.given;
  room = omega (arith, c.room);
}

pub add-Calm :
    (now : ℕ) (every fn : ℕ) (once : Bool) (id : ℕ) (o : Option Subscription) (s : Scheduler)
    (n : ℕ)
    → Calm id o s (suc n)
    → Calm id o (add now s every fn once).0 n
unfolding add
add-Calm now every fn once id o s n c =
    let next : (s.next_id + 1) % uint64_size ≡ s.next_id + 1 = omega (arith, c.room) in
    let other : (s.next_id + 1 == id) ≡ false = ground (arith, c.given) in
    rw next (record {
      distinct = insert-Distinct (s.next_id + 1) _ s.subs c.distinct;
      held = lookup-insert (s.next_id + 1) id _ s.subs ∙ rw other c.held;
      given = omega (arith, c.given);
      room = omega (arith, c.room);
    })

-- What the table holds for the id behind an event.
abbrev behind : ℕ → Event → Option Subscription → Option Subscription
behind now ticks (some sub) = left_over now sub
behind now _ o = o

pub step-Calm :
    (now : ℕ) (e : Event) (id : ℕ) (o : Option Subscription) (s : Scheduler) (n : ℕ)
    → Leaves id e
    → Calm id o s (suc n)
    → Calm id (behind now e o) (step now s e).0 n
unfolding step subscribe after cancel tick
step-Calm now (subscribes (pos (suc every)) (some fn)) id o s n h c =
    add-Calm now (suc every) fn false id o s n c
step-Calm now (subscribes (pos zero) (some fn)) id o s n h c = Calm-less id o s n c
step-Calm now (subscribes (negsuc m) (some fn)) id o s n h c = Calm-less id o s n c
step-Calm now (subscribes every none) id o s n h c = Calm-less id o s n c
step-Calm now (afters (pos d) (some fn)) id o s n h c = add-Calm now d fn true id o s n c
step-Calm now (afters (negsuc m) (some fn)) id o s n h c = Calm-less id o s n c
step-Calm now (afters d none) id o s n h c = Calm-less id o s n c
step-Calm now (cancels none) id o s n h c = Calm-less id o s n c
step-Calm now (cancels (some other)) id o s n h c =
    let apart : (other == id) ≡ false = ground (arith, h) in
    record {
      distinct = erase-Distinct other s.subs c.distinct;
      held = lookup-erase other id s.subs ∙ rw apart c.held;
      given = c.given;
      room = omega (arith, c.room);
    }
step-Calm now ticks id none s n h c = record {
  distinct = sweep-Distinct now s.subs c.distinct;
  held = (sweep-absent id now s.subs c.held).0;
  given = c.given;
  room = omega (arith, c.room);
}
step-Calm now ticks id (some sub) s n h c = record {
  distinct = sweep-Distinct now s.subs c.distinct;
  held = (sweep-present id now sub s.subs c.distinct c.held).0;
  given = c.given;
  room = omega (arith, c.room);
}

expected_tick :
    (sub : Subscription) (t : ℕ) (ts : List ℕ)
    → (if leb sub.next t then (t, sub.handler) ∷ [] else []) ++ expected_of (left_over t sub) ts
      ≡ expected sub (t ∷ ts)
unfolding expected
expected_tick sub t ts = elim (Bool-cases (leb sub.next t)) [
  | inl due ↦ elim (Bool-cases sub.once) [
    | inl once ↦ rw (due, once) refl
    | inr more ↦ rw (due, more) refl
  ]
  | inr later ↦ rw later refl
]

pub fired_of :
    (id : ℕ) (o : Option Subscription) (s : Scheduler) (es : Events)
    → Calm id o s (length es)
    → Uncancelled id es
    → fired id s es ≡ expected_of o (tick_times es)
unfolding fired step subscribe after cancel tick starts
fired_of id none s [] c u = refl
fired_of id (some sub) s [] c u = unfold expected in refl
fired_of id o s ((now, subscribes every fn) ∷ es) c u =
    fired_of id o (step now s (subscribes every fn)).0 es
      (step-Calm now (subscribes every fn) id o s (length es) tt c) u.1
fired_of id o s ((now, afters d fn) ∷ es) c u =
    fired_of id o (step now s (afters d fn)).0 es
      (step-Calm now (afters d fn) id o s (length es) tt c) u.1
fired_of id o s ((now, cancels other) ∷ es) c u =
    fired_of id o (step now s (cancels other)).0 es
      (step-Calm now (cancels other) id o s (length es) u.0 c) u.1
fired_of id none s ((now, ticks) ∷ es) c u =
    ap₂ (λ a b. a ++ b) (sweep-absent id now s.subs c.held).1
      (fired_of id none (step now s ticks).0 es (step-Calm now ticks id none s (length es) tt c)
        u.1)
fired_of id (some sub) s ((now, ticks) ∷ es) c u =
    ap₂ (λ a b. a ++ b) (sweep-present id now sub s.subs c.distinct c.held).1
      (fired_of id (left_over now sub) (step now s ticks).0 es
        (step-Calm now ticks id (some sub) s (length es) tt c) u.1)
    ∙ expected_tick sub now (tick_times es)
