-- ===== src/World/Coords.antt =====
-- internal/world/coords_derive.go: the walk from the anchors that gives every room its coordinates.
-- Ids are natural numbers, and an `int` coordinate is an integer. `sort.Slice` is an insertion sort.
pub mod Placing
pub mod Turn
pub mod Rounds
pub mod Summary
pub mod Derived
pub mod Writes
mod Tests
use wheel_mud.Base.{
  ℕ, zero, suc, Bool, true, false, ◌&&◌, Option, none, some, List, [], ◌∷◌, ◌++◌, leb, ◌==◌,
  if◌then◌else◌, length, is_some,
}
use wheel_mud.Base.Int.{ℤ, pos, negsuc, ◌+ℤ◌, ◌==ℤ◌}
use wheel_mud.Base.Dict.{Dict, lookup, insert, has}

pub record Pos : Type 0 where
  pub x : ℤ
  pub y : ℤ
  pub z : ℤ

unfoldable pub same_pos : Pos → Pos → Bool
same_pos p q = p.x ==ℤ q.x && p.y ==ℤ q.y && p.z ==ℤ q.z

-- `unlisted` is a code that `dirDeltas` does not have.
pub data Direction : Type 0 where
  north south east west up down northeast northwest southeast southwest unlisted : Direction

abbrev pub step_of : (x y z : ℤ) → Option Pos
step_of x y z = some (record { x = x; y = y; z = z })

unfoldable pub dir_deltas : Direction → Option Pos
dir_deltas north = step_of (pos 0) (pos 1) (pos 0)
dir_deltas south = step_of (pos 0) (negsuc 0) (pos 0)
dir_deltas east = step_of (pos 1) (pos 0) (pos 0)
dir_deltas west = step_of (negsuc 0) (pos 0) (pos 0)
dir_deltas up = step_of (pos 0) (pos 0) (pos 1)
dir_deltas down = step_of (pos 0) (pos 0) (negsuc 0)
dir_deltas northeast = step_of (pos 1) (pos 1) (pos 0)
dir_deltas northwest = step_of (negsuc 0) (pos 1) (pos 0)
dir_deltas southeast = step_of (pos 1) (negsuc 0) (pos 0)
dir_deltas southwest = step_of (negsuc 0) (negsuc 0) (pos 0)
dir_deltas unlisted = none

unfoldable pub shift : Pos → Pos → Pos
shift p d = record { x = p.x +ℤ d.x; y = p.y +ℤ d.y; z = p.z +ℤ d.z }

pub record Exit : Type 0 where
  pub direction : Direction
  pub to_room : ℕ

pub record Room : Type 0 where
  pub id : ℕ
  pub coords_anchor : Bool
  pub coord : Pos

abbrev pub starter_room_id : ℕ
starter_room_id = 1

pub data CoordError : Type 0 where
  list_rooms list_exits update_coords : CoordError

-- `unending` is the result of a walk that has used up its fuel.
pub data Result {ℓ} (A : Type ℓ) : Type ℓ where
  ok : A → Result A
  err : CoordError → Result A
  unending : Result A

infixl 5 ◌>>=◌
abbrev pub ◌>>=◌ {ℓ κ} : {A : Type ℓ} {B : Type κ} → Result A → (A → Result B) → Result B
ok a >>= f = f a
err e >>= f = err e
unending >>= f = unending

-- The repositories: `none`, or `false`, is an error of theirs.
pub record Source : Type 0 where
  pub list_all : Option (List Room)
  pub list_from : ℕ → Option (List Exit)
  pub can_update : ℕ → Pos → Bool

-- The variables of the walk. `queue` is the part of the source's queue behind `head`, and `writes`
-- are the calls of `UpdateCoords` that succeeded, in their order.
pub record Walk : Type 0 where
  pub visited : Dict Pos
  pub queue : List ℕ
  pub conflicts : List ℕ
  pub assigned : ℕ
  pub writes : List (ℕ × Pos)

unfoldable pub by_id : List Room → Dict Room → Dict Room
by_id [] m = m
by_id (r ∷ rs) m = by_id rs (insert r.id r m)

unfoldable pub enqueue : ℕ → Pos → Walk → Walk
enqueue to next w = record w { visited = insert to next w.visited; queue = w.queue ++ to ∷ [] }

unfoldable pub stored : ℕ → Pos → Walk → Walk
stored to next w = record w { assigned = suc w.assigned; writes = w.writes ++ (to, next) ∷ [] }

module _ (rooms : Dict Room) (src : Source) where
  -- A room is written if it is no anchor and its coordinates change.
  unfoldable pub needs_write : ℕ → Pos → Bool
  needs_write to next = elim (lookup to rooms) [
    | none ↦ false
    | some dest ↦
        if dest.coords_anchor then false else if same_pos dest.coord next then false else true
  ]

  unfoldable pub place : ℕ → Pos → Walk → Result Walk
  unfolding enqueue stored
  place to next w = elim (lookup to w.visited) [
    | some existing ↦
        ok (if same_pos existing next then w else record w { conflicts = w.conflicts ++ to ∷ [] })
    | none ↦
        if needs_write to next
        then (if src.can_update to next
            then ok (enqueue to next (stored to next w))
            else err update_coords)
        else ok (enqueue to next w)
  ]

  unfoldable pub follow : Pos → Exit → Walk → Result Walk
  follow from e w = elim (dir_deltas e.direction) [
    | none ↦ ok w
    | some delta ↦ place e.to_room (shift from delta) w
  ]

  unfoldable pub follow_all : Pos → List Exit → Walk → Result Walk
  follow_all from [] w = ok w
  follow_all from (e ∷ es) w = follow from e w >>= (λ w'. follow_all from es w')

  abbrev pub origin : Pos
  origin = record { x = pos 0; y = pos 0; z = pos 0 }

  abbrev pub pos_or : Option Pos → Pos
  pos_or none = origin
  pos_or (some p) = p

  -- The turn of a room, which has left the queue.
  unfoldable pub expand : ℕ → Walk → Result Walk
  expand room w = elim (src.list_from room) [
    | none ↦ err list_exits
    | some es ↦ follow_all (pos_or (lookup room w.visited)) es w
  ]

  -- `fuel` rounds of the loop at most.
  unfoldable pub walk : (fuel : ℕ) → Walk → Result Walk
  walk zero w = elim w.queue [ [] ↦ ok w | room ∷ rest ↦ unending ]
  walk (suc fuel) w = elim w.queue [
    | [] ↦ ok w
    | room ∷ rest ↦ expand room (record w { queue = rest }) >>= (λ w'. walk fuel w')
  ]

unfoldable pub insert_by {ℓ} : {A : Type ℓ} → (A → ℕ) → A → List A → List A
insert_by key a [] = a ∷ []
insert_by key a (b ∷ bs) = if leb (key a) (key b) then a ∷ b ∷ bs else b ∷ insert_by key a bs

unfoldable pub sort_by {ℓ} : {A : Type ℓ} → (A → ℕ) → List A → List A
sort_by key [] = []
sort_by key (a ∷ as') = insert_by key a (sort_by key as')

unfoldable pub explicit_anchors : List Room → List (ℕ × Pos)
explicit_anchors [] = []
explicit_anchors (r ∷ rs) =
    if r.coords_anchor then (r.id, r.coord) ∷ explicit_anchors rs else explicit_anchors rs

-- The starter room stands in where no room is an anchor.
unfoldable pub synthetic_anchors : Dict Room → List (ℕ × Pos)
synthetic_anchors rooms = elim (lookup starter_room_id rooms) [
  | none ↦ []
  | some starter ↦ (starter.id, record { x = pos 0; y = pos 0; z = pos 0 }) ∷ []
]

abbrev pub or_else : List (ℕ × Pos) → List (ℕ × Pos) → List (ℕ × Pos)
or_else [] other = other
or_else (a ∷ as') other = a ∷ as'

unfoldable pub anchors_of : List Room → List (ℕ × Pos)
anchors_of all =
    sort_by (λ a. a.0) (or_else (explicit_anchors all) (synthetic_anchors (by_id all [])))

unfoldable pub seed : List (ℕ × Pos) → Walk → Walk
seed [] w = w
seed ((id, p) ∷ more) w = seed more (if has id w.visited then w else enqueue id p w)

unfoldable pub dedup_sorted : List ℕ → List ℕ
dedup_sorted [] = []
dedup_sorted (a ∷ []) = a ∷ []
dedup_sorted (a ∷ b ∷ more) =
    let rest = dedup_sorted (b ∷ more) in if a == b then rest else a ∷ rest

-- The keys of the map of the rooms that the walk did not reach.
unfoldable pub unreached : Dict Pos → Dict Room → List ℕ
unreached visited [] = []
unreached visited ((id, r) ∷ more) =
    if has id visited then unreached visited more else id ∷ unreached visited more

pub record CoordSummary : Type 0 where
  pub anchors : ℕ
  pub synthetic_anchor : Bool
  pub assigned : ℕ
  pub conflicts : List ℕ
  pub orphans : List ℕ

abbrev pub no_walk : Walk
no_walk = record { visited = []; queue = []; conflicts = []; assigned = 0; writes = [] }

unfoldable pub summarize : List Room → Walk → CoordSummary
summarize all w = record {
  anchors = length (explicit_anchors all);
  synthetic_anchor =
      length (explicit_anchors all) == 0 && is_some (lookup starter_room_id (by_id all []));
  assigned = w.assigned;
  conflicts = dedup_sorted (sort_by (λ id. id) w.conflicts);
  orphans = sort_by (λ id. id) (unreached w.visited (by_id all []));
}

-- The summary, with the walk that led to it.
unfoldable pub derive_coords : Source → Result (CoordSummary × Walk)
derive_coords src = elim src.list_all [
  | none ↦ err list_rooms
  | some all ↦
      walk (by_id all []) src (length all) (seed (anchors_of all) no_walk)
      >>= (λ w. ok (summarize all w, w))
]
