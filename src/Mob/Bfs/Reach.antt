-- ===== src/Mob/Bfs/Reach.antt =====
-- `bfsReachable` of internal/mob/bfs.go: what it returns when no read fails.
use Prim.Native.Nat.{min}
use mathlib.Core.Path.{subst}
use wheel_mud.Base.{
  ℕ, zero, suc, ◌+◌, ◌≤◌, ◌≡◌, ◌≢◌, ◌↔◌, ◌⊎◌, inl, inr, ◌∙◌, refl, ap, sym, Bool, true, false, not,
  ◌||◌, List, [], ◌∷◌, ◌++◌, arith, ◌==◌, if-cases, Bool-cases, ==_iff, ==_refl,
}
use wheel_mud.Base.Members.{elem, elem-append}
use wheel_mud.Mob.Bfs.{
  Exit, Source, ok, BfsConfig, exit_walkable, is_zone, bfs_hop_hard_cap, capped, exits_of, Reached,
  visit, visit_all, scan, hops, bfs_reachable,
}
use wheel_mud.Mob.Bfs.Walk.{
  In, Front, Grows, Grows-same, Grows-add, Grows-then, passable, Leads, Hops, Level, Behind,
  Level-suc, Level-all,
}

abbrev front : Reached → Front
front w = record { seen = (λ x. elem x w.visited); next = w.next }

-- `out` holds the rooms seen but the first.
abbrev Apart : ℕ → Reached → Type 0
Apart from w =
    ((x : ℕ) → elem x w.visited ≡ ((from == x) || elem x w.out)) × (elem from w.out ≡ false)

-- No room of the search meets an error, and each has the exits given.
abbrev pub Steady : Source → (ℕ → List Exit) → Type 0
Steady src exits = (room : ℕ) → exits_of src room ≡ ok (exits room)

module _ (src : Source) (zone : ℕ) where
  abbrev LeadsTo : Exit → ℕ → Type 0
  LeadsTo e y = (passable src zone e ≡ true) × (e.to_room ≡ y)

  visit-Grows : (w : Reached) (e : Exit) → Grows (front w) (front (visit src zone w e)) (LeadsTo e)
  unfolding visit
  visit-Grows w e =
      if-cases (λ v. Grows (front w) (front v) (LeadsTo e))
        (not (exit_walkable e) || elem e.to_room w.visited)
        (λ h.
          Grows-same (front w)
            (λ x p. subst (λ y. elem y w.visited ≡ true) p.1 (grind (arith, h, p.0))))
        (λ h.
          if-cases (λ v. Grows (front w) (front v) (LeadsTo e))
            (is_zone zone (src.zone_of e.to_room))
            (λ z.
              Grows-add (front w) (λ x. elem x (e.to_room ∷ w.visited)) e.to_room (λ x. refl)
                (grind (arith, h, z), refl) (λ x p. p.1))
            (λ z. Grows-same (front w) (λ x p. grind (arith, p.0, z))))

  visit-Apart : (from : ℕ) (w : Reached) (e : Exit) → Apart from w → Apart from (visit src zone w e)
  unfolding visit
  visit-Apart from w e h =
      if-cases (Apart from) (not (exit_walkable e) || elem e.to_room w.visited) (λ a. h)
        (λ a.
          if-cases (Apart from) (is_zone zone (src.zone_of e.to_room))
            (λ z. (λ x. grind (arith, h.0 x, elem-append x w.out (e.to_room ∷ [])), apart_lem a))
            (λ z. h))
    where
      apart_lem :
          (not (exit_walkable e) || elem e.to_room w.visited) ≡ false
          → elem from (w.out ++ e.to_room ∷ []) ≡ false
      apart_lem a =
          let new : elem e.to_room w.visited ≡ false = grind (arith, a) in
          let old : elem from w.visited ≡ true = grind (arith, h.0 from, ==_refl from) in
          let other : (e.to_room == from) ≡ false = elim (Bool-cases (e.to_room == from)) [
            | inl same ↦ cc (new, old, (==_iff e.to_room from).0 same)
            | inr other ↦ other
          ] in
          grind (arith, h.1, elem-append from w.out (e.to_room ∷ []), other)

  visit_all-Grows :
      (w : Reached) (es : List Exit)
      → Grows (front w) (front (visit_all src zone w es)) (Leads src zone es)
  unfolding visit_all
  visit_all-Grows w [] = Grows-same (front w) (λ x p. elim p [ ])
  visit_all-Grows w (e ∷ es) =
      Grows-then (λ x p. inl p) (λ x p. inr p) (λ x p. p) (visit-Grows w e)
        (visit_all-Grows (visit src zone w e) es)

  visit_all-Apart :
      (from : ℕ) (w : Reached) (es : List Exit)
      → Apart from w
      → Apart from (visit_all src zone w es)
  unfolding visit_all
  visit_all-Apart from w [] h = h
  visit_all-Apart from w (e ∷ es) h =
      visit_all-Apart from (visit src zone w e) es (visit-Apart from w e h)

module _ (src : Source) (zone : ℕ) (exits : ℕ → List Exit) (steady : Steady src exits)
    (from : ℕ) where
  pub cons-Behind :
      (rooms : List ℕ) (room x : ℕ)
      → Behind src zone exits from (room ∷ rooms) x
      → Leads src zone (exits room) x ⊎ Behind src zone exits from rooms x
  cons-Behind rooms room x (y, q, l) = elim (Bool-cases (room == y)) [
    | inl e ↦ inl (subst (λ r. Leads src zone (exits r) x) (sym ((==_iff room y).0 e)) l)
    | inr e ↦ inr (y, grind (arith, q, e), l)
  ]

  -- What a look at all rooms of a queue leaves.
  abbrev Scanned : List ℕ → Reached → Type 0
  Scanned rooms w =
      (v : Reached) × (scan src zone rooms w ≡ ok v)
      × Grows (front w) (front v) (Behind src zone exits from rooms)
      × (Apart from w → Apart from v)

  scan-Scanned : (rooms : List ℕ) (w : Reached) → Scanned rooms w
  unfolding scan
  scan-Scanned [] w = (w, refl, Grows-same (front w) (λ x p. cc), λ a. a)
  scan-Scanned (room ∷ rooms) w =
      let (v, e, gr, ap_lem) = scan-Scanned rooms (visit_all src zone w (exits room)) in
      rw (steady room) (
        v,
        e,
        Grows-then (λ x p. (room, grind (arith, ==_refl room), p))
            (λ x (y, q, l). (y, grind (arith, q), l)) (λ x p. cons-Behind rooms room x p)
            (visit_all-Grows src zone w (exits room)) gr,
        λ a. ap_lem (visit_all-Apart src zone from w (exits room) a),
      )

  -- The rooms seen at the end, for a number of hops.
  abbrev Ends : (done : ℕ) → List ℕ → Type 0
  Ends done out =
      (x : ℕ)
      → (((from == x) || elem x out) ≡ true) ↔ ((k : ℕ) × (k ≤ done) × Hops src zone exits from k x)

  abbrev seen_in : List ℕ → ℕ → Bool
  seen_in visited x = elem x visited

  hops-Ends :
      (left done : ℕ) (queue visited out : List ℕ)
      → Level src zone exits from done (seen_in visited) queue
      → Apart from (record { visited = visited; out = out; next = [] })
      → (all : List ℕ) × (hops src zone left queue visited out ≡ ok all)
        × Ends (done + left) all
        × (elem from all ≡ false)
  unfolding hops
  hops-Ends zero done queue visited out lv a = (
    out,
    refl,
    (λ x. (
      λ h. let (k, le, p) = lv.sound x (a.0 x ∙ h) in (k, omega (arith, le), p),
      λ (k, le, p). sym (a.0 x) ∙ lv.complete k x (omega (arith, le)) p,
    )),
    a.1,
  )
  hops-Ends (suc left) done [] visited out lv a = (
    out,
    refl,
    (λ x. (
      λ h. let (k, le, p) = lv.sound x (a.0 x ∙ h) in (k, omega (arith, le), p),
      λ (k, le, p). sym (a.0 x) ∙ Level-all src zone exits from done (seen_in visited) lv k x p,
    )),
    a.1,
  )
  hops-Ends (suc left) done (room ∷ rooms) visited out lv a =
      let (w, e, gr, apart) =
        scan-Scanned (room ∷ rooms) (record { visited = visited; out = out; next = [] }) in
      let next_level =
        Level-suc src zone exits from done (seen_in visited) (room ∷ rooms) (front w) lv gr in
      let (all, e', ends, first) =
        hops-Ends left (suc done) w.next w.visited w.out next_level (apart a) in
      let count : suc done + left ≡ done + suc left = omega arith in
      (all, rw e e', subst (λ n. Ends n all) count ends, first)

  start-Level : Level src zone exits from 0 (seen_in (from ∷ [])) (from ∷ [])
  start-Level = record {
    sound = (λ x h. (0, omega arith, here_lem x h));
    complete = complete_lem;
    at_hop = here_lem;
    closed = (λ x h. inl h);
  }
    where
      here_lem : (x : ℕ) → In x (from ∷ []) → from ≡ x
      here_lem x h = ground (arith, h)

      complete_lem : (k x : ℕ) → k ≤ 0 → Hops src zone exits from k x → In x (from ∷ [])
      complete_lem zero x le p = ground (arith, p)
      complete_lem (suc k) x le p = ground (arith, le)

-- Where no read fails, and the search starts in a room, `bfsReachable` returns exactly the other rooms
-- that can be reached through walkable exits to rooms of the zone in at most `maxHops` steps, or 64
-- steps where `maxHops` is larger.
pub bfs_reachable_lem :
    (src : Source) (exits : ℕ → List Exit) (cfg : BfsConfig)
    → Steady src exits
    → cfg.from_room ≢ 0
    → (out : List ℕ) × (bfs_reachable src cfg ≡ ok out)
      × ((x : ℕ)
          → (elem x out ≡ true) ↔ (
              (cfg.from_room ≢ x)
              × (k : ℕ) × (k ≤ min bfs_hop_hard_cap cfg.max_hops)
              × Hops src cfg.zone_id exits cfg.from_room k x))
unfolding bfs_reachable
bfs_reachable_lem src exits cfg steady h = elim (Bool-cases (cfg.max_hops == 0)) [
  | inl none_left ↦ rw none_left (
    [],
    refl,
    λ x. (λ e. cc, λ (other, k, le, p). no_hop x k (grind (arith, none_left, le)) p other),
  )
  | inr some_left ↦
      let room : (cfg.from_room == 0) ≡ false = ground (arith, h) in
      let start : Apart cfg.from_room
          (record { visited = cfg.from_room ∷ []; out = []; next = [] }) =
        ((λ x. refl), refl) in
      let (out, e, ends, first) =
        hops-Ends src cfg.zone_id exits steady cfg.from_room (capped cfg.max_hops) 0
          (cfg.from_room ∷ []) (cfg.from_room ∷ []) []
          (start-Level src cfg.zone_id exits steady cfg.from_room) start in
      let bound : 0 + capped cfg.max_hops ≡ min bfs_hop_hard_cap cfg.max_hops = ground arith in
      (
        out,
        rw (some_left, room) e,
        λ x. (
          λ m.
              let in_reach : ((cfg.from_room == x) || elem x out) ≡ true = grind (arith, m) in
              let (k, le, p) = (ends x).0 (in_reach) in
              (λ same. cc (m, first, ap (λ y. elem y out) same), k, omega (arith, le, bound), p),
          λ (other, k, le, p).
              let seen : ((cfg.from_room == x) || elem x out) ≡ true =
                (ends x).1 (k, omega (arith, le, bound), p) in
              let apart : (cfg.from_room == x) ≡ false = ground (arith, other) in
              grind (arith, seen, apart),
        ),
      )
]
  where
    no_hop :
        (x k : ℕ)
        → k ≤ 0
        → Hops src cfg.zone_id exits cfg.from_room k x
        → cfg.from_room ≢ x
        → elem x [] ≡ true
    no_hop x zero le p other = elim (other p) [ ]
    no_hop x (suc k) le p other = ground (arith, le)
