-- ===== src/World/Coords/Turn.antt =====
-- `DeriveCoords` of internal/world/coords_derive.go: the turn of a room in the walk.
use mathlib.Core.Path.{subst}
use mathlib.Core.List.{Memᴰ}
use mathlib.Core.List.Memᴰ
use wheel_mud.Base.{
  ℕ, ◌≤◌, ◌≡◌, ◌≢◌, ◌⊎◌, inl, inr, ◌∙◌, refl, ap, true, some, List, [], ◌∷◌, ◌++◌, arith,
  Bool-cases, Option-cases,
}
use wheel_mud.Base.Members.{elem}
use wheel_mud.Base.Dict.{Dict, lookup}
use wheel_mud.World.Coords.{
  Pos, same_pos, dir_deltas, shift, Exit, Room, Source, Walk, ok, enqueue, stored, needs_write,
  place, follow, follow_all,
}
use wheel_mud.World.Coords.Placing.{
  same_pos_iff, View, view, At, left, Grows, Grows-refl, Grows-trans, Settled, Settled-Grows,
  Proposed, agree_lem, disagree_lem, arrive_lem,
}

-- An exit of the list puts the room `r` at `q`, seen from a room at `from`.
abbrev pub Leads : List Exit → Pos → ℕ → Pos → Type 0
Leads es from r q =
    (e : Exit) × Memᴰ e es
    × ((d : Pos) × (dir_deltas e.direction ≡ some d) × (e.to_room ≡ r) × (shift from d ≡ q))

abbrev pub LeadsInto : List ℕ → List Exit → Type 0
LeadsInto ids es = (e : Exit) → Memᴰ e es → elem e.to_room ids ≡ true

-- What following the exits of a room at `from` does.
pub record Turned (es : List Exit) (from : Pos) (v w : View) : Type 0 where
  pub grows : Grows v w
  pub settled : (r : ℕ) (q : Pos) → Leads es from r q → Settled w r q
  pub origin : (r : ℕ) (p : Pos) → At w r p → At v r p ⊎ Leads es from r p
  pub cause :
      (r : ℕ)
      → elem r w.conflicts ≡ true
      → (elem r v.conflicts ≡ true)
        ⊎ ((p : Pos) × At w r p × ((q : Pos) × Leads es from r q × (p ≢ q)))
  pub shrinks : (ids : List ℕ) → LeadsInto ids es → left ids w ≤ left ids v

Leads-head :
    (e : Exit) (es : List Exit) (from : Pos) (r : ℕ) (q : Pos)
    → Leads (e ∷ []) from r q
    → Leads (e ∷ es) from r q
Leads-head e es from r q (x, m, rest) = (x, Memᴰ.head (Memᴰ.eq_of_singleton m), rest)

Leads-tail :
    (e : Exit) (es : List Exit) (from : Pos) (r : ℕ) (q : Pos)
    → Leads es from r q
    → Leads (e ∷ es) from r q
Leads-tail e es from r q (x, m, rest) = (x, Memᴰ.tail m, rest)

Leads-cons :
    (e : Exit) (es : List Exit) (from : Pos) (r : ℕ) (q : Pos)
    → Leads (e ∷ es) from r q
    → Leads (e ∷ []) from r q ⊎ Leads es from r q
Leads-cons e es from r q (x, m, rest) = elim (Memᴰ.cases_cons m) [
  | inl same ↦ inl (x, Memᴰ.head same, rest)
  | inr m' ↦ inr (x, m', rest)
]

Turned-cons :
    (e : Exit) (es : List Exit) (from : Pos) (u v w : View)
    → Turned (e ∷ []) from u v
    → Turned es from v w
    → Turned (e ∷ es) from u w
Turned-cons e es from u v w s t = record {
  grows = Grows-trans u v w s.grows t.grows;
  settled = (λ r q l. elim (Leads-cons e es from r q l) [
    | inl one ↦ Settled-Grows v w r q t.grows (s.settled r q one)
    | inr more ↦ t.settled r q more
  ]);
  origin = (λ r p a. elim (t.origin r p a) [
    | inl old ↦ elim (s.origin r p old) [
      | inl older ↦ inl older
      | inr one ↦ inr (Leads-head e es from r p one)
    ]
    | inr more ↦ inr (Leads-tail e es from r p more)
  ]);
  cause = (λ r h. elim (t.cause r h) [
    | inl old ↦ elim (s.cause r old) [
      | inl older ↦ inl older
      | inr (p, a, (q, one, ne)) ↦
          inr (p, t.grows.kept r p a, (q, Leads-head e es from r q one, ne))
    ]
    | inr (p, a, (q, more, ne)) ↦ inr (p, a, (q, Leads-tail e es from r q more, ne))
  ]);
  shrinks = (λ ids h. omega (
    arith,
    s.shrinks ids (λ x m. h x (Memᴰ.head (Memᴰ.eq_of_singleton m))),
    t.shrinks ids (λ x m. h x (Memᴰ.tail m)),
  ));
}

module _ (rooms : Dict Room) (src : Source)
    (updates : (r : ℕ) (p : Pos) → src.can_update r p ≡ true) where
  place_lem :
      (to : ℕ) (q : Pos) (w : Walk)
      → (w' : Walk) × (place rooms src to q w ≡ ok w') × Proposed to q (view w) (view w')
  unfolding place enqueue stored
  place_lem to q w = elim (Option-cases (lookup to w.visited)) [
    | inl new ↦ elim (Bool-cases (needs_write rooms src to q)) [
      | inl e ↦
          (enqueue to q (stored to q w), ground (arith, updates to q), arrive_lem to q (view w) new)
      | inr e ↦ (enqueue to q w, ground arith, arrive_lem to q (view w) new)
    ]
    | inr (p, old) ↦ elim (Bool-cases (same_pos p q)) [
      | inl e ↦ (w, ground arith, agree_lem to q (view w) (old ∙ ap some ((same_pos_iff p q).0 e)))
      | inr e ↦ (
        record w { conflicts = w.conflicts ++ to ∷ [] },
        ground arith,
        disagree_lem to p q (view w) old (λ same. cc (e, (same_pos_iff p q).1 same)),
      )
    ]
  ]

  -- One exit is a list of exits.
  follow_lem :
      (from : Pos) (e : Exit) (w : Walk)
      → (w' : Walk) × (follow rooms src from e w ≡ ok w') × Turned (e ∷ []) from (view w) (view w')
  unfolding follow
  follow_lem from e w = elim (Option-cases (dir_deltas e.direction)) [
    | inl unlisted ↦ (
      w,
      ground arith,
      record {
        grows = Grows-refl (view w);
        settled = (λ r q (x, m, (d, h, to, at')). cc (unlisted, h, Memᴰ.eq_of_singleton m));
        origin = (λ r p h. inl h);
        cause = (λ r h. inl h);
        shrinks = (λ ids h. omega arith);
      },
    )
    | inr (d, listed) ↦
        let (w', run, p) = place_lem e.to_room (shift from d) w in
        let there : Leads (e ∷ []) from e.to_room (shift from d) =
          (e, Memᴰ.head refl, (d, listed, refl, refl)) in
        (
          w',
          rw (listed, follow) run,
          record {
            grows = p.grows;
            settled =
                (λ r q (x, m, (d', h, to, at')). settled_lem d listed w' p x m d' h r q to at');
            origin = (λ r o h. elim (p.origin r o h) [
              | inl old ↦ inl old
              | inr (to, at') ↦ inr (e, Memᴰ.head refl, (d, listed, to, at'))
            ]);
            cause = (λ r h. elim (p.cause r h) [
              | inl old ↦ inl old
              | inr (to, (o, a, ne)) ↦ inr (
                o,
                p.grows.kept r o (subst (λ x. At (view w) x o) to a),
                (shift from d, (e, Memᴰ.head refl, (d, listed, to, refl)), ne),
              )
            ]);
            shrinks = (λ ids h. p.shrinks ids (h e (Memᴰ.head refl)));
          },
        )
  ]
    where
      settled_lem :
          (d : Pos)
          → dir_deltas e.direction ≡ some d
          → (w' : Walk) → Proposed e.to_room (shift from d) (view w) (view w')
          → (x : Exit) → Memᴰ x (e ∷ [])
          → (d' : Pos) → dir_deltas x.direction ≡ some d'
          → (r : ℕ) (q : Pos) → x.to_room ≡ r
          → shift from d' ≡ q
          → Settled (view w') r q
      settled_lem d listed w' p x m d' h r q to at' =
          let same : x ≡ e = Memᴰ.eq_of_singleton m in
          let delta : d ≡ d' = cc (same, listed, h) in
          let room : e.to_room ≡ r = cc (same, to) in
          let place' : shift from d ≡ q = cc (delta, at') in
          subst (λ y. Settled (view w') y q) room
            (subst (λ y. Settled (view w') e.to_room y) place' p.settled)

  pub follow_all_lem :
      (from : Pos) (es : List Exit) (w : Walk)
      → (w' : Walk) × (follow_all rooms src from es w ≡ ok w') × Turned es from (view w) (view w')
  unfolding follow_all
  follow_all_lem from [] w = (
    w,
    refl,
    record {
      grows = Grows-refl (view w);
      settled = (λ r q (x, m, rest). absurd (Memᴰ.not-nil m));
      origin = (λ r p h. inl h);
      cause = (λ r h. inl h);
      shrinks = (λ ids h. omega arith);
    },
  )
  follow_all_lem from (e ∷ es) w =
      let (v, run, one) = follow_lem from e w in
      let (w', run', more) = follow_all_lem from es v in
      (w', rw run run', Turned-cons e es from (view w) (view v) (view w') one more)
