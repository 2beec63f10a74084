-- ===== src/Mob/Bfs.antt =====
-- internal/mob/bfs.go, and the gate `exitWalkable` of internal/mob/wander.go. Ids are natural numbers.
-- `maxHops` is one as well: the source treats a negative bound as 0.
pub mod Walk
pub mod Reach
pub mod Trail
pub mod Next
pub mod Shortest
mod Tests
use wheel_mud.Base.{
  ℕ, zero, suc, Bool, true, false, not, ◌&&◌, ◌||◌, Option, none, some, List, [], ◌∷◌, ◌++◌, leb,
  ltb, ◌==◌, if◌then◌else◌,
}
use wheel_mud.Base.Members.{elem}
use wheel_mud.Base.Dict.{Dict, lookup, insert, size, has}

-- What the search reads of an exit; `id` stands for the rest.
pub record Exit : Type 0 where
  pub id : ℕ
  pub to_room : ℕ
  pub hidden : Bool
  pub closed : Bool
  pub locked : Bool
  pub nopass : Bool

unfoldable pub exit_walkable : Exit → Bool
exit_walkable e =
    if e.to_room == 0
    then false
    else if e.hidden || e.closed || e.locked || e.nopass
    then false
    else true

pub data BfsError : Type 0 where
  cancelled list_failed : BfsError

pub data Result {ℓ} (A : Type ℓ) : Type ℓ where
  ok : A → Result A
  err : BfsError → Result A

infixl 5 ◌>>=◌
abbrev pub ◌>>=◌ {ℓ κ} : {A : Type ℓ} {B : Type κ} → Result A → (A → Result B) → Result B
ok a >>= f = f a
err e >>= f = err e

-- What the search asks: whether the context has ended when a room's turn comes (no room has two
-- turns), the exits of a room, if the repository gives them, and the zone of a room, if known.
pub record Source : Type 0 where
  pub ended : ℕ → Bool
  pub list_from : ℕ → Option (List Exit)
  pub zone_of : ℕ → Option ℕ

pub record BfsConfig : Type 0 where
  pub from_room : ℕ
  pub zone_id : ℕ
  pub max_hops : ℕ

abbrev pub bfs_hop_hard_cap : ℕ
bfs_hop_hard_cap = 64

abbrev pub capped : ℕ → ℕ
capped hops = if ltb bfs_hop_hard_cap hops then bfs_hop_hard_cap else hops

abbrev pub is_zone : ℕ → Option ℕ → Bool
is_zone zone none = false
is_zone zone (some z) = z == zone

-- The variables of `bfsReachable` within a hop. `visited` is the set of the keys of the source's
-- map, whose values are all true.
pub record Reached : Type 0 where
  pub visited : List ℕ
  pub out : List ℕ
  pub next : List ℕ

abbrev pub listed : Option (List Exit) → Result (List Exit)
listed none = err list_failed
listed (some es) = ok es

-- The checks at the start of a room's turn.
unfoldable pub exits_of : Source → ℕ → Result (List Exit)
exits_of src room = if src.ended room then err cancelled else listed (src.list_from room)

module _ (src : Source) (zone : ℕ) where
  unfoldable pub visit : Reached → Exit → Reached
  visit w e =
      if not (exit_walkable e) || elem e.to_room w.visited
      then w
      else if is_zone zone (src.zone_of e.to_room)
      then record {
        visited = e.to_room ∷ w.visited;
        out = w.out ++ e.to_room ∷ [];
        next = w.next ++ e.to_room ∷ [];
      }
      else w

  unfoldable pub visit_all : Reached → List Exit → Reached
  visit_all w [] = w
  visit_all w (e ∷ es) = visit_all (visit w e) es

  unfoldable pub scan : List ℕ → Reached → Result Reached
  scan [] w = ok w
  scan (room ∷ rooms) w = exits_of src room >>= (λ es. scan rooms (visit_all w es))

  unfoldable pub hops : (left : ℕ) (queue visited out : List ℕ) → Result (List ℕ)
  hops zero queue visited out = ok out
  hops (suc left) [] visited out = ok out
  hops (suc left) (room ∷ rooms) visited out =
      scan (room ∷ rooms) (record { visited = visited; out = out; next = [] })
      >>= (λ w. hops left w.next w.visited w.out)

unfoldable pub bfs_reachable : Source → BfsConfig → Result (List ℕ)
bfs_reachable src cfg =
    if cfg.max_hops == 0 || cfg.from_room == 0
    then ok []
    else hops src cfg.zone_id (capped cfg.max_hops) (cfg.from_room ∷ []) (cfg.from_room ∷ []) []

-- The zero value of an exit.
abbrev pub no_exit : Exit
no_exit = record {
  id = 0;
  to_room = 0;
  hidden = false;
  closed = false;
  locked = false;
  nopass = false;
}

pub record Crumb : Type 0 where
  pub parent : ℕ
  pub edge : Exit

abbrev pub no_crumb : Crumb
no_crumb = record { parent = 0; edge = no_exit }

abbrev pub crumb_or : Option Crumb → Crumb
crumb_or none = no_crumb
crumb_or (some c) = c

-- `fuel` rounds of the loop at most: `none` when they do not suffice.
unfoldable pub reconstruct_first_edge : (fuel : ℕ) → Dict Crumb → (source cur : ℕ) → Option Exit
reconstruct_first_edge zero parents source cur = none
reconstruct_first_edge (suc fuel) parents source cur =
    let c = crumb_or (lookup cur parents) in
    let rest = reconstruct_first_edge fuel parents source c.parent in
    if c.parent == source then some c.edge else rest

-- The variables of `bfsNextStep` within a hop; `found` says that the target has its crumb.
pub record Search : Type 0 where
  pub parents : Dict Crumb
  pub next : List ℕ
  pub found : Bool

pub data NextStep : Type 0 where
  no_way : NextStep
  way : Exit → NextStep
  unending : NextStep

abbrev pub answer : Option Exit → NextStep
answer none = unending
answer (some e) = way e

module _ (src : Source) (zone target : ℕ) where
  unfoldable pub try_exit : ℕ → Search → Exit → Search
  try_exit room w e =
      if w.found || not (exit_walkable e) || has e.to_room w.parents
      then w
      else if is_zone zone (src.zone_of e.to_room)
      then (let parents = insert e.to_room (record { parent = room; edge = e }) w.parents in
          if e.to_room == target
          then record { parents = parents; next = w.next; found = true }
          else record { parents = parents; next = w.next ++ e.to_room ∷ []; found = false })
      else w

  unfoldable pub try_exits : ℕ → Search → List Exit → Search
  try_exits room w [] = w
  try_exits room w (e ∷ es) = try_exits room (try_exit room w e) es

  unfoldable pub search_rooms : List ℕ → Search → Result Search
  search_rooms [] w = ok w
  search_rooms (room ∷ rooms) w =
      let rest = exits_of src room >>= (λ es. search_rooms rooms (try_exits room w es)) in
      if w.found then ok w else rest

  unfoldable pub next_hops : (source left : ℕ) (queue : List ℕ) → Dict Crumb → Result NextStep
  next_hops source zero queue parents = ok no_way
  next_hops source (suc left) [] parents = ok no_way
  next_hops source (suc left) (room ∷ rooms) parents =
      search_rooms (room ∷ rooms) (record { parents = parents; next = []; found = false }) >>= (λ w.
        let rest = next_hops source left w.next w.parents in
        if w.found
        then ok (answer (reconstruct_first_edge (size w.parents) w.parents source target))
        else rest)

unfoldable pub bfs_next_step : Source → BfsConfig → (target : ℕ) → Result NextStep
bfs_next_step src cfg target =
    if target == 0 || cfg.from_room == 0 || target == cfg.from_room
    then ok no_way
    else if cfg.max_hops == 0
    then ok no_way
    else next_hops src cfg.zone_id target cfg.from_room (capped cfg.max_hops) (cfg.from_room ∷ [])
        ((cfg.from_room, no_crumb) ∷ [])
