-- ===== src/Mob/Bfs/Tests.antt =====
-- Runs of internal/mob/bfs.go on a corridor of three rooms with a closed door at its start.
use Prim.Native.Nat.{min}
use wheel_mud.Base.{
  ℕ, ◌≤◌, ◌≡◌, ◌≢◌, ◌↔◌, refl, true, false, some, List, [], ◌∷◌, arith, ◌==◌, if◌then◌else◌,
}
use wheel_mud.Base.Members.{elem}
use wheel_mud.Mob.Bfs.{
  Exit, Source, ok, BfsConfig, bfs_hop_hard_cap, exits_of, bfs_reachable, bfs_next_step, way, hops,
  scan, visit_all, visit, exit_walkable, next_hops, search_rooms, try_exits, try_exit,
  reconstruct_first_edge,
}
use wheel_mud.Base.Dict.{lookup, insert, size}
use wheel_mud.Mob.Bfs.Walk.{Hops}
use wheel_mud.Mob.Bfs.Reach.{Steady, bfs_reachable_lem}
use wheel_mud.Mob.Bfs.Shortest.{Outcome, bfs_next_step_lem}

abbrev passage : ℕ → ℕ → Exit
passage id to = record {
  id = id;
  to_room = to;
  hidden = false;
  closed = false;
  locked = false;
  nopass = false;
}

abbrev corridor : ℕ → List Exit
corridor room =
    if room == 1
    then record (passage 10 4) { closed = true } ∷ passage 11 2 ∷ []
    else if room == 2
    then passage 20 1 ∷ passage 21 3 ∷ []
    else []

abbrev world : Source
world = record {
  ended = (λ r. false);
  list_from = (λ r. some (corridor r));
  zone_of = (λ r. some 7);
}

abbrev guard : BfsConfig
guard = record { from_room = 1; zone_id = 7; max_hops = 5 }

steady : Steady world corridor
unfolding exits_of
steady room = refl

rooms_found : bfs_reachable world guard ≡ ok (2 ∷ 3 ∷ [])
unfolding bfs_reachable hops scan exits_of visit_all visit exit_walkable
rooms_found = refl

first_step : bfs_next_step world guard 3 ≡ ok (way (passage 11 2))
unfolding bfs_next_step next_hops search_rooms exits_of try_exits try_exit exit_walkable lookup
    insert reconstruct_first_edge size
first_step = refl

bfs_reachable_lem_example :
    (out : List ℕ) × (bfs_reachable world guard ≡ ok out)
    × ((x : ℕ)
        → (elem x out ≡ true)
          ↔ ((1 ≢ x) × (k : ℕ) × (k ≤ min bfs_hop_hard_cap 5) × Hops world 7 corridor 1 k x))
bfs_reachable_lem_example = bfs_reachable_lem world corridor guard steady (omega arith)

bfs_next_step_lem_example :
    Outcome world 7 corridor 1 3 (min bfs_hop_hard_cap 5) (bfs_next_step world guard 3)
bfs_next_step_lem_example =
    bfs_next_step_lem world corridor guard 3 steady (omega arith) (omega arith) (omega arith)
