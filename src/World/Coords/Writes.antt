-- ===== src/World/Coords/Writes.antt =====
-- `DeriveCoords` of internal/world/coords_derive.go: the calls of `UpdateCoords`.
use mathlib.Core.Path.{subst}
use mathlib.Core.List.{Memᴰ}
use mathlib.Core.List.Memᴰ
use wheel_mud.Base.{
  ℕ, zero, suc, ◌≡◌, ◌≢◌, inl, inr, ◌∙◌, refl, ap, true, false, none, some, List, [], ◌∷◌, ◌++◌,
  length, length-append, List-cases, arith, if◌then◌else◌, ==_refl, Bool-cases, Option-cases,
}
use wheel_mud.Base.Dict.{Dict, lookup, has, lookup-insert}
use wheel_mud.World.Coords.{
  Pos, same_pos, dir_deltas, shift, Exit, Room, Source, Walk, Result, ok, err, unending, ◌>>=◌,
  by_id, enqueue, stored, needs_write, place, follow, follow_all, expand, walk, pos_or, anchors_of,
  seed, no_walk, CoordSummary, summarize, derive_coords,
}
use wheel_mud.World.Coords.Placing.{view, At, same_pos_iff, arrive_lem}

-- A room of the list that is no anchor and has other coordinates than `p`.
abbrev pub Stale : Dict Room → ℕ → Pos → Type 0
Stale rooms r p =
    (dest : Room) × (lookup r rooms ≡ some dest) × (dest.coords_anchor ≡ false) × (dest.coord ≢ p)

-- Every write has been of a stale room and to the place that the room has, and they are counted.
pub record Sparing (rooms : Dict Room) (w : Walk) : Type 0 where
  pub each : (r : ℕ) (p : Pos) → Memᴰ (r, p) w.writes → At (view w) r p × Stale rooms r p
  pub counted : w.assigned ≡ length w.writes

bind_ok :
    {A B : Type 0} (m : Result A) (f : A → Result B) (b : B)
    → (m >>= f) ≡ ok b
    → (a : A) × (m ≡ ok a) × (f a ≡ ok b)
bind_ok (ok a) f b h = (a, refl, h)
bind_ok (err e) f b h = cc
bind_ok unending f b h = cc

module _ (rooms : Dict Room) (src : Source) where
  needs_write-Stale : (r : ℕ) (p : Pos) → needs_write rooms src r p ≡ true → Stale rooms r p
  unfolding needs_write
  needs_write-Stale r p h = elim (Option-cases (lookup r rooms)) [
    | inl e ↦ absurd (ground (arith, e, h))
    | inr (dest, e) ↦ (
      dest,
      e,
      ground (arith, e, h),
      λ same. ground (arith, e, h, (same_pos_iff dest.coord p).1 same),
    )
  ]

  enqueue-Sparing :
      (to : ℕ) (q : Pos) (w : Walk)
      → lookup to w.visited ≡ none
      → Sparing rooms w
      → Sparing rooms (enqueue to q w)
  unfolding enqueue
  enqueue-Sparing to q w new s = record {
    each = (λ r p m.
        let (a, stale) = s.each r p m in ((arrive_lem to q (view w) new).grows.kept r p a, stale));
    counted = s.counted;
  }

  stored-Sparing :
      (to : ℕ) (q : Pos) (w : Walk)
      → lookup to w.visited ≡ none
      → needs_write rooms src to q ≡ true
      → Sparing rooms w
      → Sparing rooms (enqueue to q (stored to q w))
  unfolding enqueue stored
  stored-Sparing to q w new h s =
      let arrived = arrive_lem to q (view w) new in
      record {
        each = (λ r p m. elim (Memᴰ.append_cases w.writes m) [
          | inl old ↦ let (a, stale) = s.each r p old in (arrived.grows.kept r p a, stale)
          | inr new_one ↦
              let same : (r, p) ≡ (to, q) = Memᴰ.eq_of_singleton new_one in
              let room : r ≡ to = ap (λ (y : ℕ × Pos). y.0) same in
              let place' : p ≡ q = ap (λ (y : ℕ × Pos). y.1) same in
              rw (room, place')
                (lookup-insert to to q w.visited ∙ rw (==_refl to) refl, needs_write-Stale to q h)
        ]);
        counted = omega (arith, s.counted, length-append {0} w.writes ((to, q) ∷ []));
      }

  place-Sparing :
      (to : ℕ) (q : Pos) (w w' : Walk)
      → place rooms src to q w ≡ ok w'
      → Sparing rooms w
      → Sparing rooms w'
  unfolding place
  place-Sparing to q w w' h s = elim (Option-cases (lookup to w.visited)) [
    | inl new ↦ elim (Bool-cases (needs_write rooms src to q)) [
      | inl e ↦ elim (Bool-cases (src.can_update to q)) [
        | inl u ↦
            let same : enqueue to q (stored to q w) ≡ w' = ground (arith, new, e, u, h) in
            subst (Sparing rooms) same (stored-Sparing to q w new e s)
        | inr u ↦ absurd (ground (arith, new, e, u, h))
      ]
      | inr e ↦
          let same : enqueue to q w ≡ w' = ground (arith, new, e, h) in
          subst (Sparing rooms) same (enqueue-Sparing to q w new s)
    ]
    | inr (p, old) ↦ elim (Bool-cases (same_pos p q)) [
      | inl e ↦ let same : w ≡ w' = ground (arith, old, e, h) in subst (Sparing rooms) same s
      | inr e ↦
          let same : record w { conflicts = w.conflicts ++ to ∷ [] } ≡ w' =
            ground (arith, old, e, h) in
          subst (Sparing rooms) same (record { each = s.each; counted = s.counted })
    ]
  ]

  follow-Sparing :
      (from : Pos) (e : Exit) (w w' : Walk)
      → follow rooms src from e w ≡ ok w'
      → Sparing rooms w
      → Sparing rooms w'
  unfolding follow
  follow-Sparing from e w w' h s = elim (Option-cases (dir_deltas e.direction)) [
    | inl unlisted ↦ let same : w ≡ w' = ground (arith, unlisted, h) in subst (Sparing rooms) same s
    | inr (d, listed) ↦ place-Sparing e.to_room (shift from d) w w' (ground (arith, listed, h)) s
  ]

  follow_all-Sparing :
      (from : Pos) (es : List Exit) (w w' : Walk)
      → follow_all rooms src from es w ≡ ok w'
      → Sparing rooms w
      → Sparing rooms w'
  unfolding follow_all
  follow_all-Sparing from [] w w' h s = subst (Sparing rooms) (cc (h)) s
  follow_all-Sparing from (e ∷ es) w w' h s =
      let (v, one, more) =
        bind_ok (follow rooms src from e w) (follow_all rooms src from es) w' h in
      follow_all-Sparing from es v w' more (follow-Sparing from e w v one s)

  expand-Sparing :
      (room : ℕ) (w w' : Walk)
      → expand rooms src room w ≡ ok w'
      → Sparing rooms w
      → Sparing rooms w'
  unfolding expand
  expand-Sparing room w w' h s = elim (Option-cases (src.list_from room)) [
    | inl e ↦ absurd (ground (arith, e, h))
    | inr (es, e) ↦
        follow_all-Sparing (pos_or rooms src (lookup room w.visited)) es w w' (ground (arith, e, h))
          s
  ]

  walk-Sparing :
      (fuel : ℕ) (w w' : Walk) → walk rooms src fuel w ≡ ok w' → Sparing rooms w → Sparing rooms w'
  unfolding walk
  walk-Sparing zero w w' h s = elim (List-cases w.queue) [
    | inl e ↦ let same : w ≡ w' = ground (arith, e, h) in subst (Sparing rooms) same s
    | inr (room, rest, e) ↦ absurd (ground (arith, e, h))
  ]
  walk-Sparing (suc fuel) w w' h s = elim (List-cases w.queue) [
    | inl e ↦ let same : w ≡ w' = ground (arith, e, h) in subst (Sparing rooms) same s
    | inr (room, rest, e) ↦
        let popped : Walk = record w { queue = rest } in
        let run : (expand rooms src room popped >>= walk rooms src fuel) ≡ ok w' =
          ground (arith, e, h) in
        let (v, turn, more) = bind_ok (expand rooms src room popped) (walk rooms src fuel) w' run in
        walk-Sparing fuel v w' more
          (expand-Sparing room popped v turn (record { each = s.each; counted = s.counted }))
  ]

  seed-Sparing : (l : List (ℕ × Pos)) (w : Walk) → Sparing rooms w → Sparing rooms (seed l w)
  unfolding seed
  seed-Sparing [] w s = s
  seed-Sparing ((id, p) ∷ l) w s = elim (Option-cases (lookup id w.visited)) [
    | inl new ↦
        let e : (if has id w.visited then w else enqueue id p w) ≡ enqueue id p w =
          ground (arith, new) in
        rw (e, seed) (seed-Sparing l (enqueue id p w) (enqueue-Sparing id p w new s))
    | inr (q, old) ↦
        let e : (if has id w.visited then w else enqueue id p w) ≡ w = ground (arith, old) in
        rw (e, seed) (seed-Sparing l w s)
  ]

abbrev report : List Room → Walk → Result (CoordSummary × Walk)
report all v = ok (summarize all v, v)

-- When the derivation ends without an error, each write has been of a room of the list that is no
-- anchor and had other coordinates, and has given it the place that the walk has for it; the summary
-- counts the writes.
pub writes_lem :
    (src : Source) (all : List Room) (s : CoordSummary) (w : Walk)
    → src.list_all ≡ some all
    → derive_coords src ≡ ok (s, w)
    → ((r : ℕ) (p : Pos) → Memᴰ (r, p) w.writes → At (view w) r p × Stale (by_id all []) r p)
      × (s.assigned ≡ length w.writes)
unfolding derive_coords summarize
writes_lem src all s w rooms h =
    let rooms' = by_id all [] in
    let (v, walked, e) =
      bind_ok (walk rooms' src (length all) (seed (anchors_of all) no_walk)) (report all) (s, w)
        (ground (arith, rooms, h)) in
    let start : Sparing rooms' no_walk = record {
      each = (λ r p m. absurd (Memᴰ.not-nil m));
      counted = refl;
    } in
    let sparing =
      walk-Sparing rooms' src (length all) (seed (anchors_of all) no_walk) v walked
        (seed-Sparing rooms' src (anchors_of all) no_walk start) in
    let same : v ≡ w = cc (e) in
    (
      subst
          (λ (x : Walk).
            (r : ℕ) (p : Pos) → Memᴰ (r, p) x.writes → At (view x) r p × Stale rooms' r p)
          same sparing.each,
      ground (arith, e, sparing.counted),
    )
