-- ===== src/Mob/Bfs/Shortest.antt =====
-- The hops of `bfsNextStep` of internal/mob/bfs.go one after the other.
use Prim.Native.Nat.{min}
use mathlib.Core.Path.{subst}
use wheel_mud.Base.{
  ℕ, zero, suc, ◌+◌, ◌≤◌, ◌<◌, ◌≡◌, ◌≢◌, ◌⊎◌, inl, inr, refl, sym, Bool, true, false, ◌||◌, List,
  [], ◌∷◌, arith, ◌==◌, Bool-cases,
}
use wheel_mud.Base.Dict.{Dict, lookup, size, has}
use wheel_mud.Mob.Bfs.{
  Exit, Source, Result, ok, BfsConfig, bfs_hop_hard_cap, capped, Crumb, no_crumb, Search, NextStep,
  no_way, way, search_rooms, next_hops, bfs_next_step,
}
use wheel_mud.Mob.Bfs.Walk.{In, Hops, Level, Level-suc, Level-all, Behind}
use wheel_mud.Mob.Bfs.Reach.{Steady}
use wheel_mud.Mob.Bfs.Trail.{reconstruct_lem, First, AtHop}
use wheel_mud.Mob.Bfs.Next.{front, Open, Looked, search_rooms_lem}

module _ (src : Source) (zone : ℕ) (exits : ℕ → List Exit) (from target : ℕ) where
  abbrev Away : (k : ℕ) → Type 0
  Away k = ¬ Hops src zone exits from k target

  -- No way in `bound` steps, or the first exit of a shortest way.
  abbrev pub Outcome : (bound : ℕ) → Result NextStep → Type 0
  Outcome bound r =
      ((r ≡ ok no_way) × ((k : ℕ) → k ≤ bound → Away k))
      ⊎ ((e : Exit) × (k : ℕ) × (r ≡ ok (way e))
          × (k ≤ bound)
          × First src zone exits from k target e
          × ((j : ℕ) → j < k → Away j))

  abbrev known : Dict Crumb → ℕ → Bool
  known ps x = has x ps

  module _ (steady : Steady src exits) where
    abbrev hop_start : Dict Crumb → Search
    hop_start ps = record { parents = ps; next = []; found = false }

    -- A hop, from what its look at the rooms of the queue leaves.
    hop_lem :
        (left done room : ℕ) (rooms : List ℕ) (ps : Dict Crumb) (v : Search)
        → Level src zone exits from done (known ps) (room ∷ rooms)
        → has target ps ≡ false
        → search_rooms src zone target (room ∷ rooms) (hop_start ps) ≡ ok v
        → Looked src zone exits from target done
            (hop_start ps)
            v
            (Behind src zone exits from (room ∷ rooms))
        → (Open src zone exits from target done v
            → Level src zone exits from (suc done) (known v.parents) v.next
            → Outcome (suc done + left) (next_hops src zone target from left v.next v.parents))
        → Outcome (done + suc left) (next_hops src zone target from (suc left) (room ∷ rooms) ps)
    unfolding next_hops
    hop_lem left done room rooms ps v lv u e (inl (f, (d, t, le, first))) later =
        let back = reconstruct_lem from v.parents (suc done) (size v.parents) target d t le in
        inr (
          d,
          suc done,
          rw (e, f, back) refl,
          omega arith,
          first,
          λ j less p. cc (u, lv.complete j target (omega (arith, less)) p),
        )
    hop_lem left done room rooms ps v lv u e (inr (o, gr, keep)) later =
        let next_level =
          Level-suc src zone exits from done (known ps) (room ∷ rooms) (front v) lv gr in
        let count : suc done + left ≡ done + suc left = omega arith in
        rw (e, o.on)
          (subst (λ n. Outcome n (next_hops src zone target from left v.next v.parents)) count
            (later o next_level))

    next_hops_lem :
        (left done : ℕ) (queue : List ℕ) (ps : Dict Crumb)
        → Level src zone exits from done (known ps) queue
        → ((x : ℕ) → In x queue → AtHop src zone exits from ps done x)
        → has from ps ≡ true
        → has target ps ≡ false
        → Outcome (done + left) (next_hops src zone target from left queue ps)
    next_hops_lem zero done queue ps lv a h u =
        inl (unfold next_hops in refl, λ k le p. cc (u, lv.complete k target (omega (arith, le)) p))
    next_hops_lem (suc left) done [] ps lv a h u = inl (
      unfold next_hops in refl,
      λ k le p. cc (u, Level-all src zone exits from done (known ps) lv k target p),
    )
    next_hops_lem (suc left) done (room ∷ rooms) ps lv a h u =
        let (v, e, look) =
          search_rooms_lem src zone exits from target done steady (room ∷ rooms) (hop_start ps)
            (record { on = refl; first = h; unseen = u; known = (λ x p. cc) }) a in
        hop_lem left done room rooms ps v lv u e look (λ o next_level.
          next_hops_lem left (suc done) v.next v.parents next_level o.known o.first o.unseen)

    start-Level : Level src zone exits from 0 (known ((from, no_crumb) ∷ [])) (from ∷ [])
    unfolding lookup
    start-Level = record {
      sound = (λ x h. (0, omega arith, here_lem x h));
      complete = complete_lem;
      at_hop = (λ x h. ground (arith, h));
      closed = (λ x h. inl (ground (arith, h)));
    }
      where
        here_lem : (x : ℕ) → known ((from, no_crumb) ∷ []) x ≡ true → from ≡ x
        here_lem x h = ground (arith, h)

        complete_lem :
            (k x : ℕ)
            → k ≤ 0
            → Hops src zone exits from k x
            → known ((from, no_crumb) ∷ []) x ≡ true
        complete_lem zero x le p = ground (arith, p)
        complete_lem (suc k) x le p = ground (arith, le)

-- Where no read fails, the search starts in a room, and the target is another room, `bfsNextStep`
-- ends: it finds nothing and there is no way of walkable exits to rooms of the zone in at most
-- `maxHops` (and 64) steps, or it returns the first exit of such a way, and no way is shorter.
pub bfs_next_step_lem :
    (src : Source) (exits : ℕ → List Exit) (cfg : BfsConfig) (target : ℕ)
    → Steady src exits
    → cfg.from_room ≢ 0
    → target ≢ 0
    → target ≢ cfg.from_room
    → Outcome src cfg.zone_id exits cfg.from_room target
        (min bfs_hop_hard_cap cfg.max_hops)
        (bfs_next_step src cfg target)
unfolding bfs_next_step
bfs_next_step_lem src exits cfg target steady h g other = elim (Bool-cases (cfg.max_hops == 0)) [
  | inl none_left ↦
      rw (starts, none_left) (inl (refl, λ k le p. no_hop k (ground (arith, none_left, le)) p))
  | inr some_left ↦
      let bound : 0 + capped cfg.max_hops ≡ min bfs_hop_hard_cap cfg.max_hops = ground arith in
      let away : has target ((cfg.from_room, no_crumb) ∷ []) ≡ false =
        unfold lookup in ground (arith, other) in
      let home : has cfg.from_room ((cfg.from_room, no_crumb) ∷ []) ≡ true =
        unfold lookup in ground arith in
      rw (starts, some_left)
        (subst
          (λ n. Outcome src cfg.zone_id exits cfg.from_room target n (
            next_hops src cfg.zone_id target cfg.from_room (capped cfg.max_hops)
              (cfg.from_room ∷ []) ((cfg.from_room, no_crumb) ∷ [])))
          bound
          (next_hops_lem src cfg.zone_id exits cfg.from_room target steady (capped cfg.max_hops) 0
            (cfg.from_room ∷ []) ((cfg.from_room, no_crumb) ∷ [])
            (start-Level src cfg.zone_id exits cfg.from_room target steady)
            (λ x q. inl (refl, ground (arith, q))) home away))
]
  where
    starts : (target == 0 || cfg.from_room == 0 || target == cfg.from_room) ≡ false
    starts = ground (arith, h, g, other)

    no_hop : (k : ℕ) → k ≤ 0 → Away src cfg.zone_id exits cfg.from_room target k
    no_hop zero le p = other (sym p)
    no_hop (suc k) le p = ground (arith, le)
