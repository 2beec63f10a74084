-- ===== src/Mob/Bfs/Trail.antt =====
-- The predecessors that `bfsNextStep` of internal/mob/bfs.go writes down, and what
-- `reconstructFirstEdge` finds along them.
use mathlib.Core.Path.{subst}
use wheel_mud.Base.{
  ℕ, zero, suc, ◌≤◌, ◌≡◌, ◌≢◌, ◌⊎◌, inl, inr, ◌∙◌, refl, ap, sym, true, false, some, List, [], ◌∷◌,
  arith, ◌==◌, Bool-cases, ==_iff, ==_refl, is_some,
}
use wheel_mud.Base.Dict.{Dict, lookup, insert, size, has, lookup-insert, size-insert}
use wheel_mud.Mob.Bfs.{Exit, Source, Crumb, reconstruct_first_edge}
use wheel_mud.Mob.Bfs.Walk.{passable, Leads, Hops}

abbrev pub Picks : List Exit → Exit → Type 0
Picks [] e = ⊥
Picks (d ∷ es) e = (d ≡ e) ⊎ Picks es e

-- The crumbs lead from the room back to an exit `e` of the first room in `k` steps.
abbrev pub Trail : (from : ℕ) → Dict Crumb → (k : ℕ) → ℕ → Exit → Type 0
Trail from ps zero x e = ⊥
Trail from ps (suc k) x e =
    (c : Crumb) × (lookup x ps ≡ some c)
    × (((c.parent ≡ from) × (c.edge ≡ e)) ⊎ ((c.parent ≢ from) × Trail from ps k c.parent e))

pub reconstruct_lem :
    (from : ℕ) (ps : Dict Crumb) (k fuel x : ℕ) (e : Exit)
    → Trail from ps k x e
    → k ≤ fuel
    → reconstruct_first_edge fuel ps from x ≡ some e
unfolding reconstruct_first_edge
reconstruct_lem from ps zero fuel x e t h = elim t [ ]
reconstruct_lem from ps (suc k) zero x e t h = ground (arith, h)
reconstruct_lem from ps (suc k) (suc fuel) x e (c, l, inl (here, edge)) h =
    let test : (c.parent == from) ≡ true = ground (arith, here) in rw (l, test) (ap some edge)
reconstruct_lem from ps (suc k) (suc fuel) x e (c, l, inr (on, t)) h =
    let test : (c.parent == from) ≡ false = ground (arith, on) in
    rw (l, test) (reconstruct_lem from ps k fuel c.parent e t (omega (arith, h)))

lookup-fresh :
    (ps : Dict Crumb) (y x : ℕ) (new c : Crumb)
    → has y ps ≡ false
    → lookup x ps ≡ some c
    → lookup x (insert y new ps) ≡ some c
lookup-fresh ps y x new c h l = elim (Bool-cases (y == x)) [
  | inl e ↦ cc (ap is_some l, h, ap (λ z. has z ps) ((==_iff y x).0 e))
  | inr e ↦ lookup-insert y x new ps ∙ rw e l
]

pub lookup-inserted :
    (ps : Dict Crumb) (y : ℕ) (new : Crumb) → lookup y (insert y new ps) ≡ some new
lookup-inserted ps y new =
    lookup-insert y y new ps ∙ (let e : (y == y) ≡ true = ==_refl y in rw e refl)

Trail-insert :
    (from : ℕ) (ps : Dict Crumb) (k x y : ℕ) (new : Crumb) (e : Exit)
    → has y ps ≡ false
    → Trail from ps k x e
    → Trail from (insert y new ps) k x e
Trail-insert from ps zero x y new e h t = t
Trail-insert from ps (suc k) x y new e h (c, l, inl here) =
    (c, lookup-fresh ps y x new c h l, inl here)
Trail-insert from ps (suc k) x y new e h (c, l, inr (on, t)) =
    (c, lookup-fresh ps y x new c h l, inr (on, Trail-insert from ps k c.parent y new e h t))

size_fresh :
    (ps : Dict Crumb) (y : ℕ) (new : Crumb)
    → has y ps ≡ false
    → size (insert y new ps) ≡ suc (size ps)
size_fresh ps y new h = size-insert y new ps ∙ rw h refl

module _ (src : Source) (zone : ℕ) (exits : ℕ → List Exit) (from : ℕ) where
  -- `e` is a passable exit of the first room, and the first of `k` that lead to `x`.
  abbrev pub First : (k : ℕ) → ℕ → Exit → Type 0
  First k x e =
      Picks (exits from) e
      × (passable src zone e ≡ true)
      × (j : ℕ) × (suc j ≡ k)
      × Hops src zone exits e.to_room j x

  abbrev pub Way : Dict Crumb → (k : ℕ) → ℕ → Type 0
  Way ps k x = (e : Exit) × Trail from ps k x e × (k ≤ size ps) × First k x e

  -- The crumbs at a room `k` hops away.
  abbrev pub AtHop : Dict Crumb → (k : ℕ) → ℕ → Type 0
  AtHop ps k x = ((k ≡ 0) × (from ≡ x)) ⊎ ((from ≢ x) × Way ps k x)

  pub AtHop-insert :
      (ps : Dict Crumb) (k x y : ℕ) (new : Crumb)
      → has y ps ≡ false
      → AtHop ps k x
      → AtHop (insert y new ps) k x
  AtHop-insert ps k x y new h (inl start) = inl start
  AtHop-insert ps k x y new h (inr (other, (e, t, le, f))) = inr (
    other,
    (e, Trail-insert from ps k x y new e h t, omega (arith, le, size_fresh ps y new h), f),
  )

  -- The way to a room that an exit of `room` leads to.
  pub Way-next :
      (ps : Dict Crumb) (k room : ℕ) (e : Exit)
      → has e.to_room ps ≡ false
      → AtHop ps k room
      → Picks (exits room) e
      → passable src zone e ≡ true
      → Leads src zone (exits room) e.to_room
      → Way (insert e.to_room (record { parent = room; edge = e }) ps) (suc k) e.to_room
  Way-next ps k room e h (inl (zero_hops, here)) pick ok_e leads =
      let crumb : Crumb = record { parent = room; edge = e } in
      (
        e,
        (crumb, lookup-inserted ps e.to_room crumb, inl (sym here, refl)),
        omega (arith, zero_hops, size_fresh ps e.to_room crumb h),
        (subst (λ r. Picks (exits r) e) (sym here) pick, ok_e, 0, ap suc (sym zero_hops), refl),
      )
  Way-next ps k room e h (inr (other, (d, t, le, (dp, dok, j, je, way)))) pick ok_e leads =
      let crumb : Crumb = record { parent = room; edge = e } in
      (
        d,
        (
          crumb,
          lookup-inserted ps e.to_room crumb,
          inr (λ s. other (sym s), Trail-insert from ps k room e.to_room crumb d h t),
        ),
        omega (arith, le, size_fresh ps e.to_room crumb h),
        (dp, dok, suc j, ap suc je, (room, way, leads)),
      )
