-- ===== src/World/Coords/Rounds.antt =====
-- `DeriveCoords` of internal/world/coords_derive.go: the loop over the queue.
use mathlib.Core.Path.{subst}
use mathlib.Core.List.{Memᴰ}
use wheel_mud.Base.{
  ℕ, zero, suc, ◌≤◌, ◌≡◌, ◌≢◌, inl, inr, ap, sym, true, false, some, List, [], ◌∷◌, arith, ◌==◌,
  length, List-cases, Bool-cases, ==_iff, ==_refl,
}
use wheel_mud.Base.Members.{elem}
use wheel_mud.Base.Dict.{Dict}
use wheel_mud.World.Coords.{Pos, Exit, Room, Source, Walk, ok, follow_all, expand, walk}
use wheel_mud.World.Coords.Placing.{View, view, At, left, Settled, Settled-Grows}
use wheel_mud.World.Coords.Turn.{Leads, LeadsInto, Turned, follow_all_lem}

-- A chain of exits from an anchor puts the room at the place.
pub data Placed (exits : ℕ → List Exit) (anchors : List (ℕ × Pos)) : ℕ → Pos → Type 0 where
  anchored : (r : ℕ) (p : Pos) → Memᴰ (r, p) anchors → Placed exits anchors r p
  led :
      (a r : ℕ) (p q : Pos)
      → Placed exits anchors a p
      → Leads (exits a) p r q
      → Placed exits anchors r q

-- An exit of a room that has a place would put the room `r`, at `p`, somewhere else.
abbrev pub Contested : (ℕ → List Exit) → View → ℕ → Type 0
Contested exits v r =
    (p : Pos) × At v r p
    × ((a : ℕ) × (o : Pos) × At v a o × ((q : Pos) × Leads (exits a) o r q × (p ≢ q)))

module _ (ids : List ℕ) (exits : ℕ → List Exit) (anchors : List (ℕ × Pos)) where
  -- The invariant of the loop.
  pub record Good (v : View) : Type 0 where
    pub sound : (r : ℕ) (p : Pos) → At v r p → Placed exits anchors r p
    pub listed : (r : ℕ) (p : Pos) → At v r p → elem r ids ≡ true
    pub waiting : (r : ℕ) → elem r v.queue ≡ true → (p : Pos) × At v r p
    pub contested : (r : ℕ) → elem r v.conflicts ≡ true → Contested exits v r
    pub settled :
        (a : ℕ) (p : Pos)
        → At v a p
        → elem a v.queue ≡ false
        → (r : ℕ) (q : Pos) → Leads (exits a) p r q
        → Settled v r q

  module _ (closed : (r : ℕ) → elem r ids ≡ true → LeadsInto ids (exits r)) (rooms : Dict Room)
      (src : Source) (updates : (r : ℕ) (p : Pos) → src.can_update r p ≡ true)
      (reads : (r : ℕ) → src.list_from r ≡ some (exits r)) where
    turn-Good :
        (room : ℕ) (rest : List ℕ) (from : Pos) (v w : View)
        → At v room from
        → Turned (exits room) from (record v { queue = rest }) w
        → v.queue ≡ room ∷ rest
        → Good v
        → Good w
    turn-Good room rest from v w here t q g = record {
      sound = (λ r p a. elim (t.origin r p a) [
        | inl old ↦ g.sound r p old
        | inr l ↦ Placed.led room r from p (g.sound room from here) l
      ]);
      listed = (λ r p a. elim (t.origin r p a) [
        | inl old ↦ g.listed r p old
        | inr (e, m, (d, h, to, at')) ↦
            subst (λ x. elem x ids ≡ true) to (closed room (g.listed room from here) e m)
      ]);
      waiting = (λ r h. elim (t.grows.waits r h) [
        | inl old ↦
            let (p, a) = g.waiting r (subst (λ k. elem r k ≡ true) (sym q) (grind (arith, old))) in
            (p, t.grows.kept r p a)
        | inr there ↦ there
      ]);
      contested = (λ r h. elim (t.cause r h) [
        | inl old ↦
            let (p, a, (b, o, c, (q', l, ne))) = g.contested r old in
            (p, t.grows.kept r p a, (b, o, t.grows.kept b o c, (q', l, ne)))
        | inr (p, a, (q', l, ne)) ↦ (p, a, (room, from, t.grows.kept room from here, (q', l, ne)))
      ]);
      settled = (λ a p at' out r o l. elim (Bool-cases (room == a)) [
        | inl e ↦ own_lem a p at' out r o l ((==_iff room a).0 e)
        | inr e ↦
            Settled-Grows (record v { queue = rest }) w r o t.grows
              (g.settled a p (t.grows.fresh a p at' out)
                (subst (λ k. elem a k ≡ false) (sym q) (grind (arith, e, gone a out))) r o l)
      ]);
    }
      where
        gone : (a : ℕ) → elem a w.queue ≡ false → elem a rest ≡ false
        gone a out = elim (Bool-cases (elem a rest)) [
          | inl e ↦ cc (t.grows.queued a e, out)
          | inr e ↦ e
        ]

        own_lem :
            (a : ℕ) (p : Pos)
            → At w a p
            → elem a w.queue ≡ false
            → (r : ℕ) (o : Pos) → Leads (exits a) p r o
            → room ≡ a
            → Settled w r o
        own_lem a p at' out r o l same =
            let place : p ≡ from = cc (t.grows.kept room from here, at', same) in
            t.settled r o (
              subst (λ x. Leads (exits x) from r o) (sym same)
                (subst (λ y. Leads (exits a) y r o) place l))

    walk_step :
        (fuel room : ℕ) (rest : List ℕ) (from : Pos) (w v w' : Walk)
        → w.queue ≡ room ∷ rest
        → At (view w) room from
        → follow_all rooms src from (exits room) (record w { queue = rest }) ≡ ok v
        → walk rooms src fuel v ≡ ok w'
        → walk rooms src (suc fuel) w ≡ ok w'
    unfolding walk expand
    walk_step fuel room rest from w v w' e here run run' =
        ground (arith, e, here, reads room, run, run')

    -- What the rest of the walk does: it ends, and no room that has a place loses it.
    abbrev Ended : ℕ → Walk → Type 0
    Ended fuel w =
        (w' : Walk) × (walk rooms src fuel w ≡ ok w')
        × Good (view w')
        × (w'.queue ≡ [])
        × ((r : ℕ) (p : Pos) → At (view w) r p → At (view w') r p)

    pub walk_ends : (fuel : ℕ) (w : Walk) → left ids (view w) ≤ fuel → Good (view w) → Ended fuel w
    unfolding walk
    walk_ends zero w le g =
        let empty : w.queue ≡ [] = elim (List-cases w.queue) [
          | inl e ↦ e
          | inr (room, rest, e) ↦ absurd (omega (arith, le, ap length e))
        ] in
        (w, ground (arith, empty), g, empty, λ r p a. a)
    walk_ends (suc fuel) w le g = elim (List-cases w.queue) [
      | inl e ↦ (w, ground (arith, e), g, e, λ r p a. a)
      | inr (room, rest, e) ↦
          let first : elem room w.queue ≡ true =
            subst (λ k. elem room k ≡ true) (sym e) (grind (arith, ==_refl room)) in
          let (from, here) = g.waiting room first in
          let (v, run, t) =
            follow_all_lem rooms src updates from (exits room) (record w { queue = rest }) in
          let short : suc (left ids (view v)) ≤ left ids (view w) =
            omega (arith, t.shrinks ids (closed room (g.listed room from here)), ap length e) in
          let (w', run', good, empty, kept) =
            walk_ends fuel v (omega (arith, le, short))
              (turn-Good room rest from (view w) (view v) here t e g) in
          (
            w',
            walk_step fuel room rest from w v w' e here run run',
            good,
            empty,
            λ r p a. kept r p (t.grows.kept r p a),
          )
    ]
