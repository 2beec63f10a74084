-- ===== src/Combat/Decay/Account.antt =====
-- What becomes of the items that are scheduled (internal/combat/decay.go).
use wheel_mud.Base.{
  ℕ, suc, ◌+◌, ◌≡◌, ◌≢◌, ◌∙◌, ap, refl, Bool, not, ◌&&◌, ◌||◌, Option, none, some, false, List, [],
  ◌∷◌, ◌++◌, arith, leb, ltb, ◌==◌, if◌then◌else◌, Bool-cases, inl, inr,
}
use wheel_mud.Combat.Decay.{
  DecayEntry, Effect, delete, delete_failed, sort_insert, slice_stable, schedule, pop_due, sweep,
  tick, DecayRow, Rearmed, rearm_row, rearm_rows, rearm_from_repo,
}
use wheel_mud.Combat.Decay.Laws.{after, IsSorted, schedule_lem, pop_due_lem}

-- How many entries pass the test, and how many are there for the item.
pub count : (DecayEntry → Bool) → List DecayEntry → ℕ
count p [] = 0
count p (e ∷ es) = (if p e then 1 else 0) + count p es

abbrev pub waiting : ℕ → List DecayEntry → ℕ
waiting i q = count (λ e. e.item_id == i) q

abbrev is_delete : ℕ → Effect → ℕ
is_delete i (delete j) = if j == i then 1 else 0
is_delete i _ = 0

abbrev is_failure : ℕ → Effect → ℕ
is_failure i (delete_failed j) = if j == i then 1 else 0
is_failure i _ = 0

-- How many deletes of the item are among the effects, and how many that failed.
pub deleted : ℕ → List Effect → ℕ
deleted i [] = 0
deleted i (f ∷ fs) = is_delete i f + deleted i fs

pub failed : ℕ → List Effect → ℕ
failed i [] = 0
failed i (f ∷ fs) = is_failure i f + failed i fs

module _ (p : DecayEntry → Bool) where
  count-sort_insert :
      (x : DecayEntry) (q : List DecayEntry) → count p (sort_insert x q) ≡ count p (x ∷ q)
  unfolding count sort_insert
  count-sort_insert x [] = refl
  count-sort_insert x (y ∷ q) = ground (arith, count-sort_insert x q)

  count-slice_stable : (q : List DecayEntry) → count p (slice_stable q) ≡ count p q
  unfolding slice_stable count
  count-slice_stable [] = refl
  count-slice_stable (x ∷ q) =
      ground (arith, count-sort_insert x (slice_stable q), count-slice_stable q)

  count-append : (a b : List DecayEntry) → count p (a ++ b) ≡ count p a + count p b
  unfolding count
  count-append [] b = omega arith
  count-append (x ∷ a) b = omega (arith, count-append a b)

  count-schedule :
      (q : List DecayEntry) (j r t : ℕ)
      → count p (schedule q j r t)
        ≡ (if j == 0 then 0 else if p (record { item_id = j; room_id = r; at = t }) then 1 else 0)
          + count p q
  unfolding schedule count
  count-schedule q j r t =
      let e : DecayEntry = record { item_id = j; room_id = r; at = t } in
      ground (arith, count-slice_stable (q ++ e ∷ []), count-append q (e ∷ []))

  count-pop_due :
      (now : ℕ) (q : List DecayEntry)
      → count p (pop_due now q).0 + count p (pop_due now q).1 ≡ count p q
  unfolding count pop_due
  count-pop_due now [] = omega arith
  count-pop_due now (e ∷ q) = ground (arith, count-pop_due now q)

waiting-schedule :
    (i : ℕ) (q : List DecayEntry) (j r t : ℕ)
    → waiting i (schedule q j r t) ≡ (if j == 0 then 0 else if j == i then 1 else 0) + waiting i q
waiting-schedule i q j r t = count-schedule (λ e. e.item_id == i) q j r t

tried-sweep :
    (i : ℕ) (deletes : ℕ → Bool) (k : ℕ) (q : List DecayEntry)
    → deleted i (sweep deletes k q) + failed i (sweep deletes k q) ≡ waiting i q
unfolding count deleted failed sweep
tried-sweep i deletes k [] = refl
tried-sweep i deletes k (e ∷ q) = ground (arith, tried-sweep i deletes (suc k) q)

deleted-append : (i : ℕ) (p q : List Effect) → deleted i (p ++ q) ≡ deleted i p + deleted i q
unfolding deleted
deleted-append i [] q = omega arith
deleted-append i (x ∷ p) q = omega (arith, deleted-append i p q)

failed-append : (i : ℕ) (p q : List Effect) → failed i (p ++ q) ≡ failed i p + failed i q
unfolding failed
failed-append i [] q = omega arith
failed-append i (x ∷ p) q = omega (arith, failed-append i p q)

-- A history of the queue: items scheduled, and ticks, each with what its deletes come to.
pub data Call : Type 0 where
  schedules : (item_id room_id at : ℕ) → Call
  ticks : (now : ℕ) (deletes : ℕ → Bool) → Call

pub run : List DecayEntry → List Call → List DecayEntry × List Effect
run q [] = (q, [])
run q (schedules i r t ∷ cs) = run (schedule q i r t) cs
run q (ticks now deletes ∷ cs) =
    let (rest, effects) = tick deletes now q in
    let (q', more) = run rest cs in (q', effects ++ more)

abbrev pub scheduled : ℕ → List Call → ℕ
scheduled i [] = 0
scheduled i (schedules j r t ∷ cs) =
    (if j == 0 then 0 else if j == i then 1 else 0) + scheduled i cs
scheduled i (ticks now deletes ∷ cs) = scheduled i cs

-- Whether a tick at the deadline or later is among the calls.
abbrev pub passes : (at : ℕ) → List Call → Bool
passes at [] = false
passes at (schedules i r t ∷ cs) = passes at cs
passes at (ticks now deletes ∷ cs) = leb at now || passes at cs

-- The entries of the item whose deadline does not pass in the calls, and those scheduled in the calls
-- whose deadline does not pass in the rest of them.
abbrev pub outlasts : ℕ → List Call → DecayEntry → Bool
outlasts i cs e = e.item_id == i && not (passes e.at cs)

abbrev pub late : ℕ → List Call → ℕ
late i [] = 0
late i (schedules j r t ∷ cs) =
    (if j == 0 then 0 else if j == i && not (passes t cs) then 1 else 0) + late i cs
late i (ticks now deletes ∷ cs) = late i cs

outlasts-none : (i : ℕ) (q : List DecayEntry) → waiting i q ≡ count (outlasts i []) q
unfolding count
outlasts-none i [] = refl
outlasts-none i (e ∷ q) = ground (arith, outlasts-none i q)

outlasts-after :
    (i now : ℕ) (deletes : ℕ → Bool) (cs : List Call) (q : List DecayEntry)
    → count (outlasts i cs) (after now q) ≡ count (outlasts i (ticks now deletes ∷ cs)) q
unfolding count after
outlasts-after i now deletes cs [] = refl
outlasts-after i now deletes cs (e ∷ q) = ground (arith, outlasts-after i now deletes cs q)

tried_lem :
    (i : ℕ) (q : List DecayEntry) (cs : List Call)
    → let (q', effects) = run q cs in
      deleted i effects + failed i effects + waiting i q' ≡ waiting i q + scheduled i cs
unfolding run tick
tried_lem i q [] = unfold deleted failed in omega arith
tried_lem i q (schedules j r t ∷ cs) =
    omega (arith, tried_lem i (schedule q j r t) cs, waiting-schedule i q j r t)
tried_lem i q (ticks now deletes ∷ cs) =
    let (due, rest) = pop_due now q in
    let (q', more) = run rest cs in
    omega (
      arith,
      deleted-append i (sweep deletes 0 due) more,
      failed-append i (sweep deletes 0 due) more,
      tried-sweep i deletes 0 due,
      count-pop_due (λ e. e.item_id == i) now q,
      tried_lem i rest cs,
    )

left_lem :
    (i : ℕ) (q : List DecayEntry) (cs : List Call)
    → IsSorted q
    → waiting i (run q cs).0 ≡ count (outlasts i cs) q + late i cs
unfolding run tick
left_lem i q [] s = omega (arith, outlasts-none i q)
left_lem i q (schedules j r t ∷ cs) s = omega (
  arith,
  left_lem i (schedule q j r t) cs (schedule_lem q j r t s).1,
  count-schedule (outlasts i cs) q j r t,
)
left_lem i q (ticks now deletes ∷ cs) s =
    let (taken, sorted) = pop_due_lem now q s in
    let rest : (pop_due now q).1 ≡ after now q = ap (λ p. p.1) taken in
    ap (λ l. waiting i (run l cs).0) rest
    ∙ left_lem i (after now q) cs sorted
    ∙ ap (λ n. n + late i cs) (outlasts-after i now deletes cs q)

-- Over any history from a sorted queue, the entries that an item had and got in the queue are those that
-- the sweeps deleted, those whose delete failed, which are given up, and those still waiting. Waiting
-- are exactly the entries without a tick at their deadline or later while they were queued.
pub run_balance :
    (i : ℕ) (q : List DecayEntry) (cs : List Call)
    → IsSorted q
    → let (q', effects) = run q cs in
      (deleted i effects + failed i effects + waiting i q' ≡ waiting i q + scheduled i cs)
      × (waiting i q' ≡ count (outlasts i cs) q + late i cs)
run_balance i q cs s = (tried_lem i q cs, left_lem i q cs s)

abbrev is_future : ℕ → Option ℕ → Bool
is_future now none = false
is_future now (some t) = ltb now t

abbrev is_past : ℕ → Option ℕ → Bool
is_past now none = false
is_past now (some t) = leb t now

-- The rows of the item whose deadline is still to come, and those whose deadline has passed.
abbrev pub to_come : ℕ → ℕ → List DecayRow → ℕ
to_come now i [] = 0
to_come now i (r ∷ rs) =
    (if is_future now r.decay_expires_at && r.id == i then 1 else 0) + to_come now i rs

abbrev pub gone_by : ℕ → ℕ → List DecayRow → ℕ
gone_by now i [] = 0
gone_by now i (r ∷ rs) =
    (if is_past now r.decay_expires_at && r.id == i then 1 else 0) + gone_by now i rs

abbrev pub times : ℕ → List ℕ → ℕ
times i [] = 0
times i (j ∷ js) = (if j == i then 1 else 0) + times i js

module _ (deletes : ℕ → Bool) (now i : ℕ) (named : i ≢ 0) where
  rearm_row-account :
      (r : Rearmed) (row : DecayRow) (o : Option ℕ)
      → row.decay_expires_at ≡ o
      → (waiting i (rearm_row deletes now r row o).queue
          ≡ (if is_future now row.decay_expires_at && row.id == i then 1 else 0)
            + waiting i r.queue)
        × (times i (rearm_row deletes now r row o).deleted
            ≡ (if deletes i
                then (if is_past now row.decay_expires_at && row.id == i then 1 else 0)
                else 0)
              + times i r.deleted)
  unfolding rearm_row
  rearm_row-account r row none e = rw e (omega arith, ground arith)
  rearm_row-account r row (some t) e = rw e (
    ground (arith, waiting-schedule i r.queue row.id row.row_room_id t),
    elim (Bool-cases (row.id == i)) [
      | inl same ↦ let same' : row.id ≡ i = ground arith in rw same' (ground arith)
      | inr other ↦ ground arith
    ],
  )

  rearm_rows-account :
      (r : Rearmed) (rows : List DecayRow)
      → (waiting i (rearm_rows deletes now r rows).queue ≡ to_come now i rows + waiting i r.queue)
        × (times i (rearm_rows deletes now r rows).deleted
            ≡ (if deletes i then gone_by now i rows else 0) + times i r.deleted)
  unfolding rearm_rows
  rearm_rows-account r [] = (omega arith, ground arith)
  rearm_rows-account r (row ∷ rows) =
      let r' = rearm_row deletes now r row row.decay_expires_at in
      ground (arith, rearm_row-account r row row.decay_expires_at refl, rearm_rows-account r' rows)

  -- At boot, every row with a deadline still to come is queued once, and of the rows whose deadline
  -- has passed those are deleted for which the repository's Delete succeeds. (The item's id is not
  -- 0.)
  pub rearm_account :
      (queue : List DecayEntry) (rows : List DecayRow)
      → (waiting i (rearm_from_repo deletes now queue rows).queue
          ≡ to_come now i rows + waiting i queue)
        × (times i (rearm_from_repo deletes now queue rows).deleted
            ≡ (if deletes i then gone_by now i rows else 0))
  unfolding rearm_from_repo
  rearm_account queue rows =
      let r : Rearmed = record { queue = queue; deleted = []; rescheduled = 0; swept = 0 } in
      ground (arith, rearm_rows-account r rows)
