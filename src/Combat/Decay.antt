-- ===== src/Combat/Decay.antt =====
-- internal/combat/decay.go: the queue of items with a deadline, swept by a ticker. A time is a
-- number. Each method holds the mutex while it touches the queue. What a sweep does outside is the
-- list of its effects in order; a failed delete is logged only, and the sweep goes on. The parameter
-- `deletes` says which deletes of the repository succeed: in a sweep by their number, from 0 on, and in
-- `rearm_from_repo` by the item.
pub mod Laws
pub mod Account
mod Tests
use wheel_mud.Base.{
  ℕ, suc, ◌+◌, Bool, true, false, Option, none, some, List, [], ◌∷◌, ◌++◌, leb, ltb, ◌==◌,
  if◌then◌else◌,
}

pub record DecayEntry : Type 0 where
  pub item_id : ℕ
  pub room_id : ℕ
  pub at : ℕ

-- Go's sort.SliceStable by `At`: sorted, and entries with one deadline stay in their order.
sort_insert : DecayEntry → List DecayEntry → List DecayEntry
sort_insert x [] = x ∷ []
sort_insert x (y ∷ ys) =
    let later = sort_insert x ys in if ltb y.at x.at then y ∷ later else x ∷ y ∷ ys

slice_stable : List DecayEntry → List DecayEntry
unfolding sort_insert
slice_stable [] = []
slice_stable (x ∷ xs) = sort_insert x (slice_stable xs)

-- The queue is the state of the Decayer.
unfoldable pub schedule : List DecayEntry → (item_id room_id at : ℕ) → List DecayEntry
unfolding slice_stable
schedule queue item_id room_id at =
    if item_id == 0
    then queue
    else slice_stable (queue ++ record { item_id = item_id; room_id = room_id; at = at } ∷ [])

-- The entries up to the cut, and the queue that is left: the loop stops at the first entry that is
-- not due.
unfoldable pub pop_due : ℕ → List DecayEntry → List DecayEntry × List DecayEntry
pop_due now [] = ([], [])
pop_due now (e ∷ es) =
    let rest = pop_due now es in if leb e.at now then (e ∷ rest.0, rest.1) else ([], e ∷ es)

-- `delete_failed` is a Delete that returns an error, which is logged.
pub data Effect : Type 0 where
  delete delete_failed : (item_id : ℕ) → Effect
  crumble : (room_id : ℕ) → Effect
  corpse_decayed : (room_id item_id : ℕ) → Effect

-- The loop of `Tick` over the due entries, the first of which is the one with number `k`.
unfoldable pub sweep : (deletes : ℕ → Bool) (k : ℕ) → List DecayEntry → List Effect
sweep deletes k [] = []
sweep deletes k (e ∷ es) =
    let done = corpse_decayed e.room_id e.item_id ∷ sweep deletes (suc k) es in
    let seen = if e.room_id == 0 then done else crumble e.room_id ∷ done in
    (if deletes k then delete e.item_id else delete_failed e.item_id) ∷ seen

-- A sweep with repository, broadcaster and bus all in place.
unfoldable pub tick : (deletes : ℕ → Bool) → ℕ → List DecayEntry → List DecayEntry × List Effect
tick deletes now queue = let (due, rest) = pop_due now queue in (rest, sweep deletes 0 due)

-- A row of `ListWithDecay`.
pub record DecayRow : Type 0 where
  pub id : ℕ
  pub row_room_id : ℕ
  pub decay_expires_at : Option ℕ

pub record Rearmed : Type 0 where
  pub queue : List DecayEntry
  pub deleted : List ℕ
  pub rescheduled : ℕ
  pub swept : ℕ

rearm_row : (ℕ → Bool) → ℕ → Rearmed → DecayRow → Option ℕ → Rearmed
rearm_row deletes now r row none = r
rearm_row deletes now r row (some deadline) =
    if ltb now deadline
    then record r {
      queue = schedule r.queue row.id row.row_room_id deadline;
      rescheduled = r.rescheduled + 1;
    }
    else if deletes row.id
    then record r { deleted = row.id ∷ r.deleted; swept = r.swept + 1 }
    else r

rearm_rows : (ℕ → Bool) → ℕ → Rearmed → List DecayRow → Rearmed
unfolding rearm_row
rearm_rows deletes now r [] = r
rearm_rows deletes now r (row ∷ rows) =
    rearm_rows deletes now (rearm_row deletes now r row row.decay_expires_at) rows

unfoldable pub rearm_from_repo : (ℕ → Bool) → ℕ → List DecayEntry → List DecayRow → Rearmed
unfolding rearm_rows
rearm_from_repo deletes now queue rows =
    rearm_rows deletes now (record { queue = queue; deleted = []; rescheduled = 0; swept = 0 }) rows
