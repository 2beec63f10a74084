-- ===== src/World/Coords/Derived.antt =====
-- `DeriveCoords` of internal/world/coords_derive.go as a whole, where no call of a repository fails
-- and every exit leads to a room of the list.
use mathlib.Core.Path.{subst}
use mathlib.Core.List.{Memᴰ}
use mathlib.Core.List.Memᴰ
use wheel_mud.Base.{
  ℕ, ◌≤◌, ◌≡◌, ◌≢◌, ◌↔◌, inl, inr, ◌∙◌, refl, sym, true, false, none, some, List, [], ◌∷◌, length,
  arith, Option-cases, ==_iff, ap, if◌then◌else◌,
}
use wheel_mud.Base.Members.{elem, elem-append}
use wheel_mud.Base.Dict.{lookup, has}
use wheel_mud.World.Coords.{
  Pos, Exit, Room, Source, Walk, CoordSummary, ok, by_id, anchors_of, enqueue, seed, no_walk,
  summarize, sort_by, derive_coords, shift,
}
use wheel_mud.World.Coords.Placing.{
  View, view, At, Settled, left, unvisited-le-length, arrive, arrive_lem,
}
use wheel_mud.World.Coords.Turn.{LeadsInto}
use wheel_mud.World.Coords.Rounds.{Placed, Contested, Good, walk_ends}
use wheel_mud.World.Coords.Summary.{
  ids, elem-sort_by, elem-dedup_sorted, orphans_lem, anchors_of-listed,
}

-- The rooms, and the exits of each, as the repositories give them; every exit leads to a room of the
-- list, and every update succeeds.
pub record Reliable (src : Source) (all : List Room) (exits : ℕ → List Exit) : Type 0 where
  pub rooms : src.list_all ≡ some all
  pub reads : (r : ℕ) → src.list_from r ≡ some (exits r)
  pub updates : (r : ℕ) (p : Pos) → src.can_update r p ≡ true
  pub closed : (r : ℕ) → elem r (ids all) ≡ true → LeadsInto (ids all) (exits r)

length-ids : (all : List Room) → length (ids all) ≡ length all
length-ids [] = refl
length-ids (r ∷ all) = omega (arith, length-ids all)

module _ (all : List Room) (exits : ℕ → List Exit) where
  -- What holds while the anchors are put into the queue.
  record Sown (v : View) : Type 0 where
    pub sound : (r : ℕ) (p : Pos) → At v r p → Memᴰ (r, p) (anchors_of all)
    pub queued : (r : ℕ) (p : Pos) → At v r p → elem r v.queue ≡ true
    pub waiting : (r : ℕ) → elem r v.queue ≡ true → (p : Pos) × At v r p
    pub clean : v.conflicts ≡ []
    pub small : left (ids all) v ≤ length (ids all)

  Sown-arrive :
      (r : ℕ) (p : Pos) (v : View)
      → lookup r v.visited ≡ none
      → Memᴰ (r, p) (anchors_of all)
      → Sown v
      → Sown (arrive r p v)
  Sown-arrive r p v new m s =
      let arrived = arrive_lem r p v new in
      record {
        sound = (λ x q a. elim (arrived.origin x q a) [
          | inl old ↦ s.sound x q old
          | inr (to, at') ↦
              subst (λ y. Memᴰ (y, q) (anchors_of all)) to
                (subst (λ y. Memᴰ (r, y) (anchors_of all)) at' m)
        ]);
        queued = (λ x q a. elim (arrived.origin x q a) [
          | inl old ↦ arrived.grows.queued x (s.queued x q old)
          | inr (to, at') ↦ grind (arith, elem-append x v.queue (r ∷ []), (==_iff r x).1 to)
        ]);
        waiting = (λ x h. elim (arrived.grows.waits x h) [
          | inl old ↦ let (q, a) = s.waiting x old in (q, arrived.grows.kept x q a)
          | inr there ↦ there
        ]);
        clean = s.clean;
        small = omega (arith, s.small, arrived.shrinks (ids all) (anchors_of-listed all r p m));
      }

  -- One anchor.
  plant :
      (r : ℕ) (p : Pos) (w : Walk)
      → Memᴰ (r, p) (anchors_of all)
      → Sown (view w)
      → (w' : Walk) × ((if has r w.visited then w else enqueue r p w) ≡ w')
        × Sown (view w')
        × ((x : ℕ) (q : Pos) → At (view w) x q → At (view w') x q)
        × ((q : Pos) × At (view w') r q)
  unfolding enqueue
  plant r p w m s = elim (Option-cases (lookup r w.visited)) [
    | inl new ↦
        let arrived = arrive_lem r p (view w) new in
        let (q, there, _) = arrived.settled in
        (
          enqueue r p w,
          ground (arith, new),
          Sown-arrive r p (view w) new m s,
          arrived.grows.kept,
          (q, there),
        )
    | inr (q, old) ↦ (w, ground (arith, old), s, (λ x o a. a), (q, old))
  ]

  sow :
      (l : List (ℕ × Pos)) (w : Walk)
      → ((r : ℕ) (p : Pos) → Memᴰ (r, p) l → Memᴰ (r, p) (anchors_of all))
      → Sown (view w)
      → Sown (view (seed l w))
        × ((r : ℕ) (p : Pos) → At (view w) r p → At (view (seed l w)) r p)
        × ((r : ℕ) (p : Pos) → Memᴰ (r, p) l → (q : Pos) × At (view (seed l w)) r q)
  unfolding seed
  sow [] w h s = (s, (λ r p a. a), λ r p m. absurd (Memᴰ.not-nil m))
  sow ((id, p) ∷ l) w h s =
      let (w', e, s', kept, (q, there)) = plant id p w (h id p (Memᴰ.head refl)) s in
      let (done, kept', all_in) = sow l w' (λ r o m. h r o (Memᴰ.tail m)) s' in
      rw (e, seed)
        (
          done,
          (λ r o a. kept' r o (kept r o a)),
          (λ r o m. elim (Memᴰ.cases_cons m) [
            | inl same ↦ (
              q,
              kept' r q
                  (subst (λ x. At (view w') x q) (sym (ap (λ (y : ℕ × Pos). y.0) same)) there),
            )
            | inr m' ↦ all_in r o m'
          ]),
        )

  no_walk-Sown : Sown (view no_walk)
  unfolding lookup
  no_walk-Sown = record {
    sound = (λ r p a. cc (a));
    queued = (λ r p a. cc (a));
    waiting = (λ r h. cc (h));
    clean = refl;
    small = omega (arith, unvisited-le-length (ids all) []);
  }

  Sown-Good : (v : View) → Sown v → Good (ids all) exits (anchors_of all) v
  Sown-Good v s = record {
    sound = (λ r p a. Placed.anchored r p (s.sound r p a));
    listed = (λ r p a. anchors_of-listed all r p (s.sound r p a));
    waiting = s.waiting;
    contested = (λ r h. absurd (ground (arith, s.clean, h)));
    settled = (λ a p at' out r q l. cc (s.queued a p at', out));
  }

  abbrev Derivation : Source → Type 0
  Derivation src =
      (w : Walk) × (derive_coords src ≡ ok (summarize all w, w))
      × Good (ids all) exits (anchors_of all) (view w)
      × (w.queue ≡ [])
      × ((r : ℕ) (p : Pos) → Memᴰ (r, p) (anchors_of all) → (q : Pos) × At (view w) r q)

  derivation : (src : Source) → Reliable src all exits → Derivation src
  unfolding derive_coords
  derivation src rel =
      let (sown, _, planted) = sow (anchors_of all) no_walk (λ r p m. m) no_walk-Sown in
      let (w, run, good, empty, kept) =
        walk_ends (ids all) exits (anchors_of all) rel.closed (by_id all []) src rel.updates
          rel.reads (length all) (seed (anchors_of all) no_walk)
          (omega (arith, sown.small, length-ids all)) (Sown-Good _ sown) in
      (
        w,
        ground (arith, rel.rooms, run),
        good,
        empty,
        λ r p m. let (q, a) = planted r p m in (q, kept r q a),
      )

  -- In the end every room that can be placed has a place.
  reached :
      (w : Walk)
      → Good (ids all) exits (anchors_of all) (view w)
      → w.queue ≡ []
      → ((r : ℕ) (p : Pos) → Memᴰ (r, p) (anchors_of all) → (q : Pos) × At (view w) r q)
      → (r : ℕ) (p : Pos) → Placed exits (anchors_of all) r p
      → (q : Pos) × At (view w) r q
  reached w g empty planted r p (Placed.anchored _ _ m) = planted r p m
  reached w g empty planted r p (Placed.led a _ o _ from (e, m, (d, h, to, at'))) =
      let (o', there) = reached w g empty planted a o from in
      let (q, place, _) =
        g.settled a o' there (rw empty refl) r (shift o' d) (e, m, (d, h, to, refl)) in
      (q, place)

orphan_iff :
    (all : List Room) (w : Walk) (r : ℕ)
    → (elem r (summarize all w).orphans ≡ true)
      ↔ ((elem r (ids all) ≡ true) × (has r w.visited ≡ false))
unfolding summarize
orphan_iff all w r = (
  λ h. ground (arith, orphans_lem r w.visited all, h),
  λ (inside, out). ground (arith, orphans_lem r w.visited all, inside, out),
)

conflicts-elem :
    (all : List Room) (w : Walk) (r : ℕ) → elem r (summarize all w).conflicts ≡ elem r w.conflicts
unfolding summarize
conflicts-elem all w r =
    elem-dedup_sorted r (sort_by (λ id. id) w.conflicts) ∙ elem-sort_by r w.conflicts

blamed_lem :
    (v : View) (r : ℕ) (p q : Pos) → At v r p → p ≢ q → Settled v r q → elem r v.conflicts ≡ true
blamed_lem v r p q a ne (p', a', inl e) = absurd (ne (cc (a, a', e)))
blamed_lem v r p q a ne (p', a', inr e) = e

-- Where the repositories answer and exits lead to rooms of the list, the derivation ends. Every place
-- that it gives to a room follows from an anchor along exits; every room that exits join to an anchor
-- has a place; and the orphans are the rooms of the list that no exits join to an anchor.
pub derive_coords_lem :
    (all : List Room) (exits : ℕ → List Exit) (src : Source)
    → Reliable src all exits
    → (s : CoordSummary) × (w : Walk) × (derive_coords src ≡ ok (s, w))
      × ((r : ℕ) (p : Pos) → At (view w) r p → Placed exits (anchors_of all) r p)
      × ((r : ℕ) (p : Pos) → Placed exits (anchors_of all) r p → (q : Pos) × At (view w) r q)
      × ((r : ℕ)
          → (elem r s.orphans ≡ true)
            ↔ ((elem r (ids all) ≡ true) × ((p : Pos) → ¬ Placed exits (anchors_of all) r p)))
derive_coords_lem all exits src rel =
    let (w, run, good, empty, planted) = derivation all exits src rel in
    let found = reached all exits w good empty planted in
    (
      summarize all w,
      w,
      run,
      good.sound,
      found,
      λ r. (
        λ h.
            let (inside, out) = (orphan_iff all w r).0 h in
            (inside, λ p pl. let (q, a) = found r p pl in ground (arith, out, a)),
        λ (inside, apart). (orphan_iff all w r).1 (inside, unseen_lem w good r apart),
      ),
    )
  where
    unseen_lem :
        (w : Walk)
        → Good (ids all) exits (anchors_of all) (view w)
        → (r : ℕ) → ((p : Pos) → ¬ Placed exits (anchors_of all) r p)
        → has r w.visited ≡ false
    unseen_lem w good r apart = elim (Option-cases (lookup r w.visited)) [
      | inl e ↦ ground (arith, e)
      | inr (p, e) ↦ absurd (apart p (good.sound r p e))
    ]

-- Where the repositories answer, every update succeeds, and exits lead to rooms of the list, the
-- derivation ends, and the rooms in conflict are exactly the rooms with a place that an exit of a room
-- with a place contradicts, anchors among them; so where there is no conflict, the places agree with
-- every exit. (The comment in the source leaves the anchors out.)
pub conflicts_lem :
    (all : List Room) (exits : ℕ → List Exit) (src : Source)
    → Reliable src all exits
    → (s : CoordSummary) × (w : Walk) × (derive_coords src ≡ ok (s, w))
      × ((r : ℕ) → (elem r s.conflicts ≡ true) ↔ Contested exits (view w) r)
conflicts_lem all exits src rel =
    let (w, run, good, empty, planted) = derivation all exits src rel in
    (
      summarize all w,
      w,
      run,
      λ r. (
        λ h. good.contested r (sym (conflicts-elem all w r) ∙ h),
        λ (p, a, (b, o, there, (q, l, ne))).
            conflicts-elem all w r
            ∙ blamed_lem (view w) r p q a ne (good.settled b o there (rw empty refl) r q l),
      ),
    )
