-- ===== src/World/Coords/Placing.antt =====
-- `DeriveCoords` of internal/world/coords_derive.go: what following one exit, and all exits of a
-- room, keeps and adds.
use wheel_mud.Base.{
  ℕ, suc, ◌+◌, ◌≤◌, ◌≡◌, ◌≢◌, ◌↔◌, ◌⊎◌, inl, inr, ◌∙◌, refl, true, false, none, some, List, [], ◌∷◌,
  ◌++◌, arith, ◌==◌, if◌then◌else◌, length, length-append, Bool-cases, ==_iff, ==_refl,
}
use wheel_mud.Base.Int.{==ℤ_iff}
use wheel_mud.Base.Members.{elem, elem-append}
use wheel_mud.Base.Dict.{Dict, lookup, insert, has, lookup-insert}
use wheel_mud.World.Coords.{Pos, same_pos, Walk}

pub same_pos_iff : (p q : Pos) → (same_pos p q ≡ true) ↔ (p ≡ q)
unfolding same_pos
same_pos_iff p q = (
  λ h. ground (arith, ==ℤ_iff p.x q.x, ==ℤ_iff p.y q.y, ==ℤ_iff p.z q.z, h),
  λ e. ground (arith, e, ==ℤ_iff p.x q.x, ==ℤ_iff p.y q.y, ==ℤ_iff p.z q.z),
)

-- The part of a walk that its course depends on.
pub record View : Type 0 where
  pub visited : Dict Pos
  pub queue : List ℕ
  pub conflicts : List ℕ

abbrev pub view : Walk → View
view w = record { visited = w.visited; queue = w.queue; conflicts = w.conflicts }

-- Where the walk has put a room.
abbrev pub At : View → ℕ → Pos → Type 0
At v r p = lookup r v.visited ≡ some p

-- How many of the rooms listed the walk has yet to reach.
unfoldable pub unvisited : List ℕ → Dict Pos → ℕ
unvisited [] m = 0
unvisited (r ∷ rs) m = if has r m then unvisited rs m else suc (unvisited rs m)

pub unvisited-le-length : (rs : List ℕ) (m : Dict Pos) → unvisited rs m ≤ length rs
unfolding unvisited
unvisited-le-length [] m = omega arith
unvisited-le-length (r ∷ rs) m = ground (arith, unvisited-le-length rs m)

pub unvisited-insert :
    (rs : List ℕ) (k : ℕ) (p : Pos) (m : Dict Pos) → unvisited rs (insert k p m) ≤ unvisited rs m
unfolding unvisited
unvisited-insert [] k p m = omega arith
unvisited-insert (r ∷ rs) k p m = ground (arith, unvisited-insert rs k p m, lookup-insert k r p m)

pub unvisited-insert_new :
    (rs : List ℕ) (k : ℕ) (p : Pos) (m : Dict Pos)
    → elem k rs ≡ true
    → lookup k m ≡ none
    → suc (unvisited rs (insert k p m)) ≤ unvisited rs m
unfolding unvisited
unvisited-insert_new [] k p m i n = cc
unvisited-insert_new (r ∷ rs) k p m i n = elim (Bool-cases (r == k)) [
  | inl e ↦
      let same : r ≡ k = (==_iff r k).0 e in
      rw same (ground (arith, unvisited-insert rs k p m, lookup-insert k k p m, n))
  | inr e ↦
      let inside : elem k rs ≡ true = grind (arith, i, e) in
      ground (
        arith,
        unvisited-insert_new rs k p m inside n,
        lookup-insert k r p m,
        ==_iff k r,
        ==_iff r k,
      )
]

-- How far the walk is from its end.
abbrev pub left : List ℕ → View → ℕ
left ids v = unvisited ids v.visited + length v.queue

-- What the walk keeps: rooms stay where they are, a conflict stays one, and a room that is new stands
-- in the queue.
pub record Grows (v w : View) : Type 0 where
  pub kept : (r : ℕ) (p : Pos) → At v r p → At w r p
  pub blamed : (r : ℕ) → elem r v.conflicts ≡ true → elem r w.conflicts ≡ true
  pub queued : (r : ℕ) → elem r v.queue ≡ true → elem r w.queue ≡ true
  pub fresh : (r : ℕ) (p : Pos) → At w r p → elem r w.queue ≡ false → At v r p
  pub waits : (r : ℕ) → elem r w.queue ≡ true → (elem r v.queue ≡ true) ⊎ ((p : Pos) × At w r p)

pub Grows-refl : (v : View) → Grows v v
Grows-refl v = record {
  kept = (λ r p h. h);
  blamed = (λ r h. h);
  queued = (λ r h. h);
  fresh = (λ r p h q. h);
  waits = (λ r h. inl h);
}

pub Grows-trans : (u v w : View) → Grows u v → Grows v w → Grows u w
Grows-trans u v w g h = record {
  kept = (λ r p a. h.kept r p (g.kept r p a));
  blamed = (λ r a. h.blamed r (g.blamed r a));
  queued = (λ r a. h.queued r (g.queued r a));
  fresh = (λ r p a out. g.fresh r p (h.fresh r p a out) (stays r out));
  waits = (λ r a. elim (h.waits r a) [
    | inl b ↦ elim (g.waits r b) [ inl c ↦ inl c | inr (p, c) ↦ inr (p, h.kept r p c) ]
    | inr b ↦ inr b
  ]);
}
  where
    stays : (r : ℕ) → elem r w.queue ≡ false → elem r v.queue ≡ false
    stays r out = elim (Bool-cases (elem r v.queue)) [ inl e ↦ cc (h.queued r e, out) | inr e ↦ e ]

-- The room has a place, which is the one proposed, or is reported.
abbrev pub Settled : View → ℕ → Pos → Type 0
Settled v r q = (p : Pos) × At v r p × ((p ≡ q) ⊎ (elem r v.conflicts ≡ true))

pub Settled-Grows : (v w : View) (r : ℕ) (q : Pos) → Grows v w → Settled v r q → Settled w r q
Settled-Grows v w r q g (p, a, inl e) = (p, g.kept r p a, inl e)
Settled-Grows v w r q g (p, a, inr e) = (p, g.kept r p a, inr (g.blamed r e))

-- What proposing the place `q` for the room `to` does.
pub record Proposed (to : ℕ) (q : Pos) (v w : View) : Type 0 where
  pub grows : Grows v w
  pub settled : Settled w to q
  pub origin : (r : ℕ) (p : Pos) → At w r p → At v r p ⊎ ((to ≡ r) × (q ≡ p))
  pub cause :
      (r : ℕ)
      → elem r w.conflicts ≡ true
      → (elem r v.conflicts ≡ true) ⊎ ((to ≡ r) × ((p : Pos) × At v to p × (p ≢ q)))
  pub shrinks : (ids : List ℕ) → elem to ids ≡ true → left ids w ≤ left ids v

pub agree_lem : (to : ℕ) (q : Pos) (v : View) → At v to q → Proposed to q v v
agree_lem to q v a = record {
  grows = Grows-refl v;
  settled = (q, a, inl refl);
  origin = (λ r p h. inl h);
  cause = (λ r h. inl h);
  shrinks = (λ ids h. omega arith);
}

abbrev pub blame : ℕ → View → View
blame to v = record v { conflicts = v.conflicts ++ to ∷ [] }

pub disagree_lem :
    (to : ℕ) (p q : Pos) (v : View) → At v to p → p ≢ q → Proposed to q v (blame to v)
disagree_lem to p q v a ne = record {
  grows = record {
    kept = (λ r o h. h);
    blamed = (λ r h. grind (arith, elem-append r v.conflicts (to ∷ []), h));
    queued = (λ r h. h);
    fresh = (λ r o h out. h);
    waits = (λ r h. inl h);
  };
  settled = (p, a, inr (grind (arith, elem-append to v.conflicts (to ∷ []), ==_refl to)));
  origin = (λ r o h. inl h);
  cause = (λ r h. elim (Bool-cases (to == r)) [
    | inl e ↦ inr ((==_iff to r).0 e, (p, a, ne))
    | inr e ↦ inl (grind (arith, elem-append r v.conflicts (to ∷ []), h, e))
  ]);
  shrinks = (λ ids h. omega arith);
}

abbrev pub arrive : ℕ → Pos → View → View
arrive to q v = record v { visited = insert to q v.visited; queue = v.queue ++ to ∷ [] }

pub arrive_lem :
    (to : ℕ) (q : Pos) (v : View) → lookup to v.visited ≡ none → Proposed to q v (arrive to q v)
arrive_lem to q v new = record {
  grows = record {
    kept = (λ r p h. elim (Bool-cases (to == r)) [
      | inl e ↦ cc (new, h, (==_iff to r).0 e)
      | inr e ↦ lookup-insert to r q v.visited ∙ rw e h
    ]);
    blamed = (λ r h. h);
    queued = (λ r h. grind (arith, elem-append r v.queue (to ∷ []), h));
    fresh = (λ r p h out. elim (Bool-cases (to == r)) [
      | inl e ↦
          let inside : elem r (v.queue ++ to ∷ []) ≡ true =
            grind (arith, elem-append r v.queue (to ∷ []), e) in
          cc (inside, out)
      | inr e ↦ ground (arith, lookup-insert to r q v.visited, e, h)
    ]);
    waits = (λ r h. elim (Bool-cases (to == r)) [
      | inl e ↦ inr (q, ground (arith, lookup-insert to r q v.visited, e))
      | inr e ↦ inl (grind (arith, elem-append r v.queue (to ∷ []), h, e))
    ]);
  };
  settled = (q, ground (arith, lookup-insert to to q v.visited), inl refl);
  origin = (λ r p h. elim (Bool-cases (to == r)) [
    | inl e ↦ inr ((==_iff to r).0 e, ground (arith, lookup-insert to r q v.visited, e, h))
    | inr e ↦ inl (ground (arith, lookup-insert to r q v.visited, e, h))
  ]);
  cause = (λ r h. inl h);
  shrinks = (λ ids h.
      omega (
        arith,
        unvisited-insert_new ids to q v.visited h new,
        length-append {0} v.queue (to ∷ []),
      ));
}
