-- ===== src/Combat/Decay/Laws.antt =====
-- The queue of internal/combat/decay.go stays in order, and a sweep takes exactly what is due.
use wheel_mud.Base.{
  ℕ, ◌≤◌, ◌<◌, ◌≡◌, refl, false, List, [], ◌∷◌, ◌++◌, arith, leb, ◌==◌, if◌then◌else◌, Bool-cases,
  inl, inr,
}
use wheel_mud.Combat.Decay.{DecayEntry, sort_insert, slice_stable, schedule, pop_due}

-- The entries whose deadline is at most `t`, and the others, in the order of the queue.
pub until : ℕ → List DecayEntry → List DecayEntry
until t [] = []
until t (e ∷ es) = let rest = until t es in if leb e.at t then e ∷ rest else rest

unfoldable pub after : ℕ → List DecayEntry → List DecayEntry
after t [] = []
after t (e ∷ es) = let rest = after t es in if leb e.at t then rest else e ∷ rest

abbrev pub From : ℕ → List DecayEntry → Type 0
From t [] = Unit
From t (e ∷ es) = (t ≤ e.at) × From t es

abbrev pub IsSorted : List DecayEntry → Type 0
IsSorted [] = Unit
IsSorted (e ∷ es) = From e.at es × IsSorted es

From-mono : (s t : ℕ) (q : List DecayEntry) → s ≤ t → From t q → From s q
From-mono s t [] le f = tt
From-mono s t (e ∷ es) le f = (omega arith, From-mono s t es le f.1)

sort_insert-front : (x : DecayEntry) (q : List DecayEntry) → From x.at q → sort_insert x q ≡ x ∷ q
unfolding sort_insert
sort_insert-front x [] f = refl
sort_insert-front x (y ∷ q) f = ground arith

all_after :
    (t : ℕ) (s : ℕ) (q : List DecayEntry) → t < s → From s q → (until t q ≡ []) × (after t q ≡ q)
unfolding until after
all_after t s [] lt f = (refl, refl)
all_after t s (e ∷ q) lt f = ground (arith, all_after t s q lt f.1)

From-until : (s t : ℕ) (q r : List DecayEntry) → From s q → From s r → From s (until t q ++ r)
unfolding until
From-until s t [] r f g = g
From-until s t (e ∷ q) r f g = ground (arith, From-until s t q r f.1 g)

From-after : (s t : ℕ) (q : List DecayEntry) → From s q → From s (after t q)
unfolding after
From-after s t [] f = tt
From-after s t (e ∷ q) f = ground (arith, From-after s t q f.1)

slice_stable-last :
    (q : List DecayEntry) (e : DecayEntry)
    → IsSorted q
    → slice_stable (q ++ e ∷ []) ≡ until e.at q ++ e ∷ after e.at q
unfolding slice_stable until after sort_insert
slice_stable-last [] e s = refl
slice_stable-last (x ∷ q) e s = elim (Bool-cases (leb x.at e.at)) [
  | inl first ↦
      let low : From x.at (until e.at q ++ e ∷ after e.at q) =
        From-until x.at e.at q (e ∷ after e.at q) s.0 (ground arith, From-after x.at e.at q s.0) in
      rw (slice_stable-last q e s.1, first) (sort_insert-front x _ low)
  | inr later ↦
      let (none_due, all) = all_after e.at x.at q (ground arith) s.0 in
      rw (slice_stable-last q e s.1, later) (rw (none_due, all) (placed later))
]
  where
    placed : leb x.at e.at ≡ false → sort_insert x (e ∷ q) ≡ e ∷ x ∷ q
    placed later = ground (arith, sort_insert-front x q s.0)

IsSorted-middle :
    (q : List DecayEntry) (e : DecayEntry)
    → IsSorted q
    → IsSorted (until e.at q ++ e ∷ after e.at q)
unfolding until after
IsSorted-middle [] e s = (tt, tt)
IsSorted-middle (x ∷ q) e s = elim (Bool-cases (leb x.at e.at)) [
  | inl first ↦ rw first (
    From-until x.at e.at q (e ∷ after e.at q) s.0 (ground arith, From-after x.at e.at q s.0),
    IsSorted-middle q e s.1,
  )
  | inr later ↦
      let (none_due, all) = all_after e.at x.at q (ground arith) s.0 in
      rw later (rw (none_due, all) ((ground arith, From-mono e.at x.at q (ground arith) s.0), s))
]

-- In a sorted queue a scheduled item stands behind all entries that are due no later and before
-- those that are due later, which keep their order; so the queue stays sorted. An item with id 0
-- is not queued.
pub schedule_lem :
    (queue : List DecayEntry) (item_id room_id at : ℕ)
    → IsSorted queue
    → (schedule queue item_id room_id at ≡ (
        if item_id == 0
        then queue
        else until at queue
          ++ record { item_id = item_id; room_id = room_id; at = at } ∷ after at queue))
      × IsSorted (schedule queue item_id room_id at)
unfolding schedule
schedule_lem queue item_id room_id at s =
    let e : DecayEntry = record { item_id = item_id; room_id = room_id; at = at } in
    elim (Bool-cases (item_id == 0)) [
      | inl z ↦ rw z (refl, s)
      | inr nz ↦ rw nz (rw (slice_stable-last queue e s) (refl, IsSorted-middle queue e s))
    ]

-- From a sorted queue a sweep at a time takes exactly the entries that are due by then, in their
-- order, and leaves exactly the others, again sorted.
pub pop_due_lem :
    (now : ℕ) (queue : List DecayEntry)
    → IsSorted queue
    → (pop_due now queue ≡ (until now queue, after now queue)) × IsSorted (after now queue)
unfolding pop_due until after
pop_due_lem now [] s = (refl, tt)
pop_due_lem now (e ∷ q) s = elim (Bool-cases (leb e.at now)) [
  | inl due ↦ ground (arith, pop_due_lem now q s.1)
  | inr late ↦
      let (none_due, all) = all_after now e.at q (ground arith) s.0 in
      rw late (rw (none_due, all) (refl, s))
]
