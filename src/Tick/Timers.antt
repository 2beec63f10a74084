-- ===== src/Tick/Timers.antt =====
-- What internal/tick/scheduler.go promises for one subscription, whatever else is subscribed,
-- cancelled and started in between.
use mathlib.Core.Path.{subst}
use wheel_mud.Base.{
  ℕ, suc, ◌+◌, ◌%◌, ◌≤◌, ◌<◌, ◌≡◌, ◌⊎◌, inl, inr, ◌∙◌, ap₂, refl, sym, Bool, true, false, Option,
  none, some, List, [], ◌∷◌, ◌++◌, arith, length, leb, ◌==◌, Bool-cases, ==_refl, if-cases,
}
use wheel_mud.Base.Int.{pos}
use wheel_mud.Base.Dict.{lookup-insert, lookup-erase}
use wheel_mud.Tick.{
  Subscription, Scheduler, uint64_size, add, subscribe, after, cancel, tick, subscribes, afters,
  cancels, ticks, step,
}
use wheel_mud.Tick.Table.{Distinct, starts, insert-Distinct, erase-Distinct, sweep-absent}
use wheel_mud.Tick.Fires.{
  Events, fired, tick_times, expected, Uncancelled, Calm, step-Calm, fired_of,
}

-- A subscription of the table starts on the ticks at which it would start alone: on each tick at or
-- after its time, from which the period is counted again, and only once for a timer. No id stands in
-- the table twice, the ids do not run out, and nobody cancels it meanwhile.
pub fired-expected :
    (id : ℕ) (sub : Subscription) (s : Scheduler) (es : Events)
    → Calm id (some sub) s (length es)
    → Uncancelled id es
    → fired id s es ≡ expected sub (tick_times es)
fired-expected id sub s es c u = fired_of id (some sub) s es c u

cancels-Calm :
    (id other : ℕ) (s : Scheduler) (n : ℕ)
    → Calm id none s (suc n)
    → Calm id none (cancel s (some other)) n
unfolding cancel
cancels-Calm id other s n c = record {
  distinct = erase-Distinct other s.subs c.distinct;
  held =
      lookup-erase other id s.subs
      ∙ if-cases (λ x. x ≡ none) (other == id) (λ h. refl) (λ h. c.held);
  given = c.given;
  room = omega (arith, c.room);
}

gone_lem : (id : ℕ) (s : Scheduler) (es : Events) → Calm id none s (length es) → fired id s es ≡ []
unfolding fired step starts cancel tick
gone_lem id s [] c = refl
gone_lem id s ((now, subscribes every fn) ∷ es) c =
    gone_lem id (step now s (subscribes every fn)).0 es
      (step-Calm now (subscribes every fn) id none s (length es) tt c)
gone_lem id s ((now, afters d fn) ∷ es) c =
    gone_lem id (step now s (afters d fn)).0 es
      (step-Calm now (afters d fn) id none s (length es) tt c)
gone_lem id s ((now, cancels none) ∷ es) c =
    gone_lem id s es (step-Calm now (cancels none) id none s (length es) tt c)
gone_lem id s ((now, cancels (some other)) ∷ es) c =
    gone_lem id (cancel s (some other)) es (cancels-Calm id other s (length es) c)
gone_lem id s ((now, ticks) ∷ es) c =
    ap₂ (λ a b. a ++ b) (sweep-absent id now s.subs c.held).1
      (gone_lem id (step now s ticks).0 es (step-Calm now ticks id none s (length es) tt c))

-- After its cancellation a subscription never starts again, whatever follows, further cancellations
-- of it included. No id stands in the table twice, and the ids do not run out.
pub cancel-fired :
    (id : ℕ) (o : Option Subscription) (s : Scheduler) (es : Events)
    → Calm id o s (length es)
    → fired id (cancel s (some id)) es ≡ []
unfolding cancel
cancel-fired id o s es c = gone_lem id (cancel s (some id)) es (record {
  distinct = erase-Distinct id s.subs c.distinct;
  held = lookup-erase id id s.subs ∙ (let e : (id == id) ≡ true = ==_refl id in rw e refl);
  given = c.given;
  room = c.room;
})

-- The table behind `add`.
added-Calm :
    (now every fn : ℕ) (once : Bool) (s : Scheduler) (n : ℕ)
    → Distinct s.subs
    → s.next_id + suc n < uint64_size
    → Calm
        (s.next_id + 1)
        (some (record { every = every; next = now + every; once = once; handler = fn }))
        (add now s every fn once).0
        n
unfolding add
added-Calm now every fn once s n d room =
    let next : (s.next_id + 1) % uint64_size ≡ s.next_id + 1 = omega (arith, room) in
    let same : (s.next_id + 1 == s.next_id + 1) ≡ true = ==_refl (s.next_id + 1) in
    rw next (record {
      distinct = insert-Distinct (s.next_id + 1) _ s.subs d;
      held = lookup-insert (s.next_id + 1) (s.next_id + 1) _ s.subs ∙ rw same refl;
      given = omega arith;
      room = omega (arith, room);
    })

-- One of the times is at or after `due`.
abbrev pub Comes : ℕ → List ℕ → Type 0
Comes due [] = ⊥
Comes due (t ∷ ts) = (due ≤ t) ⊎ Comes due ts

expected_once :
    (sub : Subscription) (ts : List ℕ)
    → sub.once ≡ true
    → Comes sub.next ts
    → (t : ℕ) × (expected sub ts ≡ (t, sub.handler) ∷ []) × (sub.next ≤ t)
unfolding expected
expected_once sub [] o c = elim c [ ]
expected_once sub (t ∷ ts) o c = elim (Bool-cases (leb sub.next t)) [
  | inl due ↦ (t, rw (due, o) refl, ground (arith, due))
  | inr later ↦
      let rest : Comes sub.next ts = elim c [
        | inl le ↦ (let impossible : ⊥ = ground (arith, later, le) in elim impossible [ ])
        | inr r ↦ r
      ] in
      let (u, e, le) = expected_once sub ts o rest in (u, rw later e, le)
]

-- A timer of `After` starts its handler exactly once, at a tick at or after its time, where such a
-- tick comes and it is not cancelled, no id stands in the table twice and the ids do not run out.
pub after_fires :
    (now d fn : ℕ) (s : Scheduler) (es : Events)
    → Distinct s.subs
    → s.next_id + suc (length es) < uint64_size
    → Uncancelled (s.next_id + 1) es
    → Comes (now + d) (tick_times es)
    → (t : ℕ) × (fired (s.next_id + 1) (after now s (pos d) (some fn)).0 es ≡ (t, fn) ∷ [])
      × (now + d ≤ t)
unfolding after
after_fires now d fn s es dist room u c =
    let sub : Subscription = record { every = d; next = now + d; once = true; handler = fn } in
    let (t, e, le) = expected_once sub (tick_times es) refl c in
    (
      t,
      fired_of (s.next_id + 1) (some sub) (add now s d fn true).0 es
            (added-Calm now d fn true s (length es) dist room) u
          ∙ e,
      le,
    )

-- Starts of one handler, the first at `due` or later, with `gap` between one and the next at least.
abbrev pub Spaced : (gap fn due : ℕ) → List (ℕ × ℕ) → Type 0
Spaced gap fn due [] = Unit
Spaced gap fn due ((t, f) ∷ log) = (due ≤ t) × (f ≡ fn) × Spaced gap fn (t + gap) log

expected-Spaced :
    (sub : Subscription) (ts : List ℕ)
    → sub.once ≡ false
    → Spaced sub.every sub.handler sub.next (expected sub ts)
unfolding expected
expected-Spaced sub [] o = tt
expected-Spaced sub (t ∷ ts) o = elim (Bool-cases (leb sub.next t)) [
  | inl due ↦
      rw (due, o)
        (
          ground (arith, due),
          refl,
          expected-Spaced (record sub { next = t + sub.every; once = false }) ts refl,
        )
  | inr later ↦ rw later (expected-Spaced sub ts o)
]

-- A subscription of `Subscribe` starts its own handler only, first when a period is over and then with
-- at least a period between one start and the next. It is not cancelled, no id stands in the table
-- twice and the ids do not run out.
pub subscribe-Spaced :
    (now every fn : ℕ) (s : Scheduler) (es : Events)
    → Distinct s.subs
    → s.next_id + suc (length es) < uint64_size
    → Uncancelled (s.next_id + 1) es
    → Spaced
        (suc every)
        fn
        (now + suc every)
        (fired (s.next_id + 1) (subscribe now s (pos (suc every)) (some fn)).0 es)
unfolding subscribe
subscribe-Spaced now every fn s es dist room u =
    let sub : Subscription = record {
      every = suc every;
      next = now + suc every;
      once = false;
      handler = fn;
    } in
    subst (Spaced (suc every) fn (now + suc every))
      (sym (
        fired_of (s.next_id + 1) (some sub) (add now s (suc every) fn false).0 es
          (added-Calm now (suc every) fn false s (length es) dist room) u))
      (expected-Spaced sub (tick_times es) refl)
