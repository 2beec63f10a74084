-- ===== src/Mob/Bfs/Walk.antt =====
-- What internal/mob/bfs.go searches: the ways through walkable exits inside a zone, and how a set of
-- rooms seen, with the queue for the next hop, grows hop by hop.
use mathlib.Core.Path.{subst}
use wheel_mud.Base.{
  ℕ, zero, suc, ◌≤◌, ◌≡◌, ◌⊎◌, inl, inr, Bool, true, ◌&&◌, ◌||◌, List, [], ◌∷◌, ◌++◌, arith, ◌==◌,
  ==_iff, Bool-cases,
}
use wheel_mud.Base.Members.{elem, elem-append}
use wheel_mud.Mob.Bfs.{Exit, Source, exit_walkable, is_zone}

abbrev pub In : ℕ → List ℕ → Type 0
In x xs = elem x xs ≡ true

-- The rooms that are seen, and those whose turn is in the next hop.
pub record Front : Type 0 where
  pub seen : ℕ → Bool
  pub next : List ℕ

-- The front `g` comes from `f` by a look at the rooms in `found`.
pub record Grows (f g : Front) (found : ℕ → Type 0) : Type 0 where
  pub keeps : (x : ℕ) → f.seen x ≡ true → g.seen x ≡ true
  pub fresh : (x : ℕ) → g.seen x ≡ true → (f.seen x ≡ true) ⊎ In x g.next
  pub stays : (x : ℕ) → In x f.next → In x g.next
  pub comes : (x : ℕ) → In x g.next → In x f.next ⊎ found x
  pub covers : (x : ℕ) → found x → g.seen x ≡ true

pub Grows-same :
    (f : Front) {found : ℕ → Type 0} → ((x : ℕ) → found x → f.seen x ≡ true) → Grows f f found
Grows-same f old = record {
  keeps = (λ x h. h);
  fresh = (λ x h. inl h);
  stays = (λ x h. h);
  comes = (λ x h. inl h);
  covers = old;
}

-- A room is put into the set and into the queue.
pub Grows-add :
    (f : Front) (seen : ℕ → Bool) (to : ℕ) {found : ℕ → Type 0}
    → ((x : ℕ) → seen x ≡ ((to == x) || f.seen x))
    → found to
    → ((x : ℕ) → found x → to ≡ x)
    → Grows f (record { seen = seen; next = f.next ++ to ∷ [] }) found
Grows-add f seen to {found} law here only = record {
  keeps = (λ x h. grind (arith, law x, h));
  fresh = (λ x h. elim (Bool-cases (to == x)) [
    | inl e ↦ inr (grind (arith, elem-append x f.next (to ∷ []), e))
    | inr e ↦ inl (grind (arith, law x, h, e))
  ]);
  stays = (λ x h. grind (arith, elem-append x f.next (to ∷ []), h));
  comes = (λ x h. elim (Bool-cases (to == x)) [
    | inl e ↦ inr (subst found ((==_iff to x).0 e) here)
    | inr e ↦ inl (grind (arith, elem-append x f.next (to ∷ []), h, e))
  ]);
  covers =
      (λ x h. let e : (to == x) ≡ true = (==_iff to x).1 (only x h) in grind (arith, law x, e));
}

pub Grows-then :
    {f g k : Front} {first second found : ℕ → Type 0}
    → ((x : ℕ) → first x → found x)
    → ((x : ℕ) → second x → found x)
    → ((x : ℕ) → found x → first x ⊎ second x)
    → Grows f g first
    → Grows g k second
    → Grows f k found
Grows-then left right split a b = record {
  keeps = (λ x h. b.keeps x (a.keeps x h));
  fresh = (λ x h. elim (b.fresh x h) [
    | inl s ↦ elim (a.fresh x s) [ inl t ↦ inl t | inr n ↦ inr (b.stays x n) ]
    | inr n ↦ inr n
  ]);
  stays = (λ x h. b.stays x (a.stays x h));
  comes = (λ x h. elim (b.comes x h) [
    | inl n ↦ elim (a.comes x n) [ inl m ↦ inl m | inr l ↦ inr (left x l) ]
    | inr l ↦ inr (right x l)
  ]);
  covers = (λ x h. elim (split x h) [ inl l ↦ b.keeps x (a.covers x l) | inr l ↦ b.covers x l ]);
}

module _ (src : Source) (zone : ℕ) where
  -- The exit is walkable and ends in the zone.
  abbrev pub passable : Exit → Bool
  passable e = exit_walkable e && is_zone zone (src.zone_of e.to_room)

  -- One of the exits leads to the room.
  abbrev pub Leads : List Exit → ℕ → Type 0
  Leads [] y = ⊥
  Leads (e ∷ es) y = ((passable e ≡ true) × (e.to_room ≡ y)) ⊎ Leads es y

module _ (src : Source) (zone : ℕ) (exits : ℕ → List Exit) (from : ℕ) where
  -- The room can be reached by `k` passable exits.
  abbrev pub Hops : (k : ℕ) → ℕ → Type 0
  Hops zero y = from ≡ y
  Hops (suc k) y = (x : ℕ) × Hops k x × Leads src zone (exits x) y

  -- Behind `done` hops the rooms seen are those in reach, and the queue are the farthest of them.
  pub record Level (done : ℕ) (seen : ℕ → Bool) (queue : List ℕ) : Type 0 where
    pub sound : (x : ℕ) → seen x ≡ true → (k : ℕ) × (k ≤ done) × Hops k x
    pub complete : (k x : ℕ) → k ≤ done → Hops k x → seen x ≡ true
    pub at_hop : (x : ℕ) → In x queue → Hops done x
    pub closed :
        (x : ℕ)
        → seen x ≡ true
        → In x queue ⊎ ((y : ℕ) → Leads src zone (exits x) y → seen y ≡ true)

  -- The room is behind an exit of a room of the queue.
  abbrev pub Behind : List ℕ → ℕ → Type 0
  Behind queue y = (x : ℕ) × In x queue × Leads src zone (exits x) y

  -- One hop.
  pub Level-suc :
      (done : ℕ) (seen : ℕ → Bool) (queue : List ℕ) (g : Front)
      → Level done seen queue
      → Grows (record { seen = seen; next = [] }) g (Behind queue)
      → Level (suc done) g.seen g.next
  Level-suc done seen queue g lv gr = record {
    sound = sound_lem;
    complete = complete_lem;
    at_hop = at_hop_lem;
    closed = closed_lem;
  }
    where
      at_hop_lem : (x : ℕ) → In x g.next → Hops (suc done) x
      at_hop_lem x h = elim (gr.comes x h) [ inl n ↦ cc | inr (y, q, l) ↦ (y, lv.at_hop y q, l) ]

      sound_lem : (x : ℕ) → g.seen x ≡ true → (k : ℕ) × (k ≤ suc done) × Hops k x
      sound_lem x h = elim (gr.fresh x h) [
        | inl s ↦ let (k, le, p) = lv.sound x s in (k, omega (arith, le), p)
        | inr n ↦ (suc done, omega arith, at_hop_lem x n)
      ]

      next_lem : (x y : ℕ) → seen x ≡ true → Leads src zone (exits x) y → g.seen y ≡ true
      next_lem x y s l = elim (lv.closed x s) [
        | inl q ↦ gr.covers y (x, q, l)
        | inr c ↦ gr.keeps y (c y l)
      ]

      complete_lem : (k x : ℕ) → k ≤ suc done → Hops k x → g.seen x ≡ true
      complete_lem zero x h p = gr.keeps x (lv.complete 0 x (omega arith) p)
      complete_lem (suc k) x h (y, p, l) = next_lem y x (lv.complete k y (omega (arith, h)) p) l

      closed_lem :
          (x : ℕ)
          → g.seen x ≡ true
          → In x g.next ⊎ ((y : ℕ) → Leads src zone (exits x) y → g.seen y ≡ true)
      closed_lem x h = elim (gr.fresh x h) [ inl s ↦ inr (λ y l. next_lem x y s l) | inr n ↦ inl n ]

  -- With an empty queue all ways are covered.
  pub Level-all :
      (done : ℕ) (seen : ℕ → Bool) → Level done seen [] → (k x : ℕ) → Hops k x → seen x ≡ true
  Level-all done seen lv zero x p = lv.complete 0 x (omega arith) p
  Level-all done seen lv (suc k) x (y, p, l) = elim (lv.closed y (Level-all done seen lv k y p)) [
    | inl q ↦ cc
    | inr c ↦ c x l
  ]
