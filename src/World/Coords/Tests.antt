-- ===== src/World/Coords/Tests.antt =====
-- A run of `DeriveCoords` on four rooms: the second and the third are joined by an exit that does not
-- fit the grid, and nothing leads to the fourth.
use mathlib.Core.List.{Memᴰ}
use mathlib.Core.List.Memᴰ
use wheel_mud.Base.{
  ℕ, ◌≡◌, ◌↔◌, inl, inr, refl, Bool, true, false, ◌&&◌, some, List, [], ◌∷◌, length, arith, ◌==◌,
  if◌then◌else◌,
}
use wheel_mud.Base.Int.{pos, ◌+ℤ◌}
use wheel_mud.Base.Members.{elem}
use wheel_mud.Base.Dict.{lookup, insert}
use wheel_mud.World.Coords.{
  Pos, north, south, east, Exit, Room, Source, Walk, CoordSummary, ok, same_pos, dir_deltas, shift,
  enqueue, stored, needs_write, place, follow, follow_all, expand, walk, by_id, insert_by, sort_by,
  explicit_anchors, synthetic_anchors, anchors_of, seed, dedup_sorted, unreached, summarize,
  derive_coords,
}
use wheel_mud.World.Coords.Placing.{view, At}
use wheel_mud.World.Coords.Turn.{LeadsInto}
use wheel_mud.World.Coords.Rounds.{Placed, Contested}
use wheel_mud.World.Coords.Summary.{ids}
use wheel_mud.World.Coords.Derived.{Reliable, derive_coords_lem, conflicts_lem}
use wheel_mud.World.Coords.Writes.{Stale, writes_lem}

abbrev at_pos : (x y : ℕ) → Pos
at_pos x y = record { x = pos x; y = pos y; z = pos 0 }

abbrev room : ℕ → Room
room id = record { id = id; coords_anchor = false; coord = at_pos 0 0 }

abbrev town : List Room
town = room 1 ∷ room 2 ∷ room 3 ∷ room 4 ∷ []

abbrev exits : ℕ → List Exit
exits r =
    if r == 1
    then record { direction = north; to_room = 2 } ∷ record { direction = east; to_room = 3 } ∷ []
    else if r == 2
    then record { direction = south; to_room = 1 } ∷ record { direction = east; to_room = 3 } ∷ []
    else []

abbrev source : Source
source = record {
  list_all = some town;
  list_from = (λ r. some (exits r));
  can_update = (λ r p. true);
}

abbrev summary : CoordSummary
summary = record {
  anchors = 0;
  synthetic_anchor = true;
  assigned = 2;
  conflicts = 3 ∷ [];
  orphans = 4 ∷ [];
}

abbrev final : Walk
final = record {
  visited = (1, at_pos 0 0) ∷ (2, at_pos 0 1) ∷ (3, at_pos 1 0) ∷ [];
  queue = [];
  conflicts = 3 ∷ [];
  assigned = 2;
  writes = (2, at_pos 0 1) ∷ (3, at_pos 1 0) ∷ [];
}

derived : derive_coords source ≡ ok (summary, final)
unfolding derive_coords same_pos dir_deltas shift enqueue stored needs_write place follow follow_all
    expand walk by_id insert_by sort_by explicit_anchors synthetic_anchors anchors_of seed
    dedup_sorted unreached summarize lookup insert ◌+ℤ◌
derived = refl

abbrev all_in : List ℕ → List Exit → Bool
all_in rs [] = true
all_in rs (e ∷ es) = elem e.to_room rs && all_in rs es

LeadsInto-of : (rs : List ℕ) (es : List Exit) → all_in rs es ≡ true → LeadsInto rs es
LeadsInto-of rs [] h e m = absurd (Memᴰ.not-nil m)
LeadsInto-of rs (x ∷ es) h e m = elim (Memᴰ.cases_cons m) [
  | inl same ↦ grind (arith, h, same)
  | inr m' ↦ LeadsInto-of rs es (ground (arith, h)) e m'
]

reliable : Reliable source town exits
reliable = record {
  rooms = refl;
  reads = (λ r. refl);
  updates = (λ r p. refl);
  closed = (λ r h. LeadsInto-of (ids town) (exits r) (ground arith));
}

derive_coords_lem_example :
    (s : CoordSummary) × (w : Walk) × (derive_coords source ≡ ok (s, w))
    × ((r : ℕ) (p : Pos) → At (view w) r p → Placed exits (anchors_of town) r p)
    × ((r : ℕ) (p : Pos) → Placed exits (anchors_of town) r p → (q : Pos) × At (view w) r q)
    × ((r : ℕ)
        → (elem r s.orphans ≡ true)
          ↔ ((elem r (ids town) ≡ true) × ((p : Pos) → ¬ Placed exits (anchors_of town) r p)))
derive_coords_lem_example = derive_coords_lem town exits source reliable

conflicts_lem_example :
    (s : CoordSummary) × (w : Walk) × (derive_coords source ≡ ok (s, w))
    × ((r : ℕ) → (elem r s.conflicts ≡ true) ↔ Contested exits (view w) r)
conflicts_lem_example = conflicts_lem town exits source reliable

writes_lem_example :
    ((r : ℕ) (p : Pos) → Memᴰ (r, p) final.writes → At (view final) r p × Stale (by_id town []) r p)
    × (summary.assigned ≡ length final.writes)
writes_lem_example = writes_lem source town summary final refl derived
