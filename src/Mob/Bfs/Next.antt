-- ===== src/Mob/Bfs/Next.antt =====
-- `bfsNextStep` of internal/mob/bfs.go: what it returns when no read fails.
use mathlib.Core.Path.{subst}
use wheel_mud.Base.{
  ℕ, suc, ◌≡◌, ◌⊎◌, inl, inr, ◌∙◌, refl, ap, sym, true, false, not, ◌||◌, List, [], ◌∷◌, ◌++◌,
  arith, ◌==◌, if-cases, Bool-cases, ==_iff, ==_refl,
}
use wheel_mud.Base.Dict.{Dict, insert, has, lookup-insert}
use wheel_mud.Base.Members.{elem-append}
use wheel_mud.Mob.Bfs.{
  Exit, Source, ok, exit_walkable, is_zone, Crumb, Search, try_exit, try_exits, search_rooms,
}
use wheel_mud.Mob.Bfs.Walk.{
  In, Front, Grows, Grows-same, Grows-add, Grows-then, passable, Leads, Behind,
}
use wheel_mud.Mob.Bfs.Reach.{Steady, cons-Behind}
use wheel_mud.Mob.Bfs.Trail.{Picks, Way, AtHop, AtHop-insert, Way-next}

has-insert :
    (ps : Dict Crumb) (y : ℕ) (c : Crumb) (x : ℕ) → has x (insert y c ps) ≡ ((y == x) || has x ps)
has-insert ps y c x = grind (arith, lookup-insert y x c ps)

abbrev pub front : Search → Front
front w = record { seen = (λ x. has x w.parents); next = w.next }

module _ (src : Source) (zone : ℕ) (exits : ℕ → List Exit) (from target done : ℕ) where
  abbrev LeadsTo : Exit → ℕ → Type 0
  LeadsTo e y = (passable src zone e ≡ true) × (e.to_room ≡ y)

  -- A hop under way: the target is not seen, and the crumbs at the rooms of the next hop are right.
  pub record Open (w : Search) : Type 0 where
    pub on : w.found ≡ false
    pub first : has from w.parents ≡ true
    pub unseen : has target w.parents ≡ false
    pub known : (x : ℕ) → In x w.next → AtHop src zone exits from w.parents (suc done) x

  abbrev Persists : Search → Search → Type 0
  Persists w v =
      (k x : ℕ) → AtHop src zone exits from w.parents k x → AtHop src zone exits from v.parents k x

  -- What a look at some exits leaves: the target found, or an open hop.
  abbrev pub Looked : Search → Search → (ℕ → Type 0) → Type 0
  Looked w v found =
      ((v.found ≡ true) × Way src zone exits from v.parents (suc done) target)
      ⊎ (Open v × Grows (front w) (front v) found × Persists w v)

  unmoved :
      {found : ℕ → Type 0} (w : Search)
      → Open w
      → ((x : ℕ) → found x → has x w.parents ≡ true)
      → Looked w w found
  unmoved w o old = inr (o, Grows-same (front w) old, λ k x a. a)

  -- A crumb for a room that is not the target.
  put-Open :
      (w : Search) (y : ℕ) (c : Crumb)
      → Open w
      → has y w.parents ≡ false
      → (y == target) ≡ false
      → Way src zone exits from (insert y c w.parents) (suc done) y
      → Open (record { parents = insert y c w.parents; next = w.next ++ y ∷ []; found = false })
  put-Open w y c o new t found_way = record {
    on = refl;
    first = grind (arith, has-insert w.parents y c from, o.first);
    unseen = grind (arith, has-insert w.parents y c target, o.unseen, t);
    known = (λ x h. elim (Bool-cases (y == x)) [
      | inl e ↦
          let same = (==_iff y x).0 e in
          inr (
            λ s. cc (o.first, new, ap (λ r. has r w.parents) (s ∙ sym same)),
            subst (λ r. Way src zone exits from (insert y c w.parents) (suc done) r) same found_way,
          )
      | inr e ↦
          AtHop-insert src zone exits from w.parents (suc done) x y c new
            (o.known x (grind (arith, elem-append x w.next (y ∷ []), h, e)))
    ]);
  }

  try_exit_lem :
      (room : ℕ) (w : Search) (e : Exit)
      → Open w
      → AtHop src zone exits from w.parents done room
      → Picks (exits room) e
      → (passable src zone e ≡ true → Leads src zone (exits room) e.to_room)
      → Looked w (try_exit src zone target room w e) (LeadsTo e)
  unfolding try_exit
  try_exit_lem room w e o a pick leads =
      if-cases (λ v. Looked w v (LeadsTo e))
        (w.found || not (exit_walkable e) || has e.to_room w.parents)
        (λ h.
          unmoved w o
            (λ x p. subst (λ y. has y w.parents ≡ true) p.1 (grind (arith, h, p.0, o.on))))
        (λ h.
          if-cases (λ v. Looked w v (LeadsTo e)) (is_zone zone (src.zone_of e.to_room))
            (λ z.
              let new : has e.to_room w.parents ≡ false = grind (arith, h) in
              let good : passable src zone e ≡ true = grind (arith, h, z) in
              let found_way =
                Way-next src zone exits from w.parents done room e new a pick good (leads good) in
              if-cases (λ v. Looked w v (LeadsTo e)) (e.to_room == target)
                (λ t. inl (
                  refl,
                  subst
                      (λ y.
                        Way src zone exits from
                          (insert e.to_room (record { parent = room; edge = e }) w.parents)
                          (suc done) y)
                      ((==_iff e.to_room target).0 t) found_way,
                ))
                (λ t. inr (
                  put-Open w e.to_room (record { parent = room; edge = e }) o new t found_way,
                  Grows-add (front w)
                      (λ x. has x (insert e.to_room (record { parent = room; edge = e }) w.parents))
                      e.to_room
                      (has-insert w.parents e.to_room (record { parent = room; edge = e }))
                      (good, refl) (λ x p. p.1),
                  λ k x b.
                      AtHop-insert src zone exits from w.parents k x e.to_room
                        (record { parent = room; edge = e }) new b,
                )))
            (λ z. unmoved w o (λ x p. grind (arith, p.0, z))))

  found_stays_one :
      (room : ℕ) (w : Search) (e : Exit) → w.found ≡ true → try_exit src zone target room w e ≡ w
  unfolding try_exit
  found_stays_one room w e h =
      if-cases (λ v. v ≡ w) (w.found || not (exit_walkable e) || has e.to_room w.parents)
        (λ g. refl) (λ g. let impossible : ⊥ = grind (arith, h, g) in elim impossible [ ])

  found_stays :
      (room : ℕ) (w : Search) (es : List Exit)
      → w.found ≡ true
      → try_exits src zone target room w es ≡ w
  unfolding try_exits
  found_stays room w [] h = refl
  found_stays room w (e ∷ es) h =
      ap (λ v. try_exits src zone target room v es) (found_stays_one room w e h)
      ∙ found_stays room w es h

  Looked-then :
      (w v u : Search) {a b found : ℕ → Type 0}
      → ((x : ℕ) → a x → found x)
      → ((x : ℕ) → b x → found x)
      → ((x : ℕ) → found x → a x ⊎ b x)
      → (v.found ≡ true → u ≡ v)
      → Looked w v a
      → (Open v → Persists w v → Looked v u b)
      → Looked w u found
  Looked-then w v u left right split stop (inl way_found) next = inl (
      subst (λ s. (s.found ≡ true) × Way src zone exits from s.parents (suc done) target)
        (sym (stop way_found.0)) way_found)
  Looked-then w v u left right split stop (inr (o, gr, keep)) next = elim (next o keep) [
    | inl f ↦ inl f
    | inr (o', gr', keep') ↦
        inr (o', Grows-then left right split gr gr', λ k x h. keep' k x (keep k x h))
  ]

  try_exits_lem :
      (room : ℕ) (w : Search) (es : List Exit)
      → Open w
      → AtHop src zone exits from w.parents done room
      → ((e : Exit) → Picks es e → Picks (exits room) e)
      → ((y : ℕ) → Leads src zone es y → Leads src zone (exits room) y)
      → Looked w (try_exits src zone target room w es) (Leads src zone es)
  unfolding try_exits
  try_exits_lem room w [] o a picks leads = unmoved w o (λ x p. elim p [ ])
  try_exits_lem room w (e ∷ es) o a picks leads =
      Looked-then w (try_exit src zone target room w e) _ (λ x p. inl p) (λ x p. inr p) (λ x p. p)
        (found_stays room (try_exit src zone target room w e) es)
        (try_exit_lem room w e o a (picks e (inl refl))
          (λ good. leads e.to_room (inl (good, refl))))
        (λ o' keep.
          try_exits_lem room (try_exit src zone target room w e) es o' (keep done room a)
            (λ d p. picks d (inr p)) (λ y p. leads y (inr p)))

  module _ (steady : Steady src exits) where
    search_found :
        (rooms : List ℕ) (w : Search) → w.found ≡ true → search_rooms src zone target rooms w ≡ ok w
    unfolding search_rooms
    search_found [] w h = refl
    search_found (room ∷ rooms) w h =
        if-cases (λ r. r ≡ ok w) w.found (λ g. refl)
          (λ g. let impossible : ⊥ = cc (h, g) in elim impossible [ ])

    search_cons :
        (room : ℕ) (rooms : List ℕ) (w : Search)
        → w.found ≡ false
        → search_rooms src zone target (room ∷ rooms) w
          ≡ search_rooms src zone target rooms (try_exits src zone target room w (exits room))
    unfolding search_rooms
    search_cons room rooms w h =
        if-cases
          (λ r.
            r ≡ search_rooms src zone target rooms (try_exits src zone target room w (exits room)))
          w.found (λ g. let impossible : ⊥ = cc (h, g) in elim impossible [ ])
          (λ g. rw (steady room) refl)

    pub search_rooms_lem :
        (rooms : List ℕ) (w : Search)
        → Open w
        → ((x : ℕ) → In x rooms → AtHop src zone exits from w.parents done x)
        → (v : Search) × (search_rooms src zone target rooms w ≡ ok v)
          × Looked w v (Behind src zone exits from rooms)
    search_rooms_lem [] w o a = (w, unfold search_rooms in refl, unmoved w o (λ x p. cc))
    search_rooms_lem (room ∷ rooms) w o a =
        let v = try_exits src zone target room w (exits room) in
        let look : Looked w v (Leads src zone (exits room)) =
          try_exits_lem room w (exits room) o (a room (grind (arith, ==_refl room))) (λ e p. p)
            (λ y p. p) in
        elim look [
          | inl f ↦ (v, search_cons room rooms w o.on ∙ search_found rooms v f.0, inl f)
          | inr (o', gr, keep) ↦
              let (u, e, rest) =
                search_rooms_lem rooms v o' (λ x p. keep done x (a x (grind (arith, p)))) in
              (
                u,
                search_cons room rooms w o.on ∙ e,
                Looked-then w v u (λ x p. (room, grind (arith, ==_refl room), p))
                    (λ x (y, q, l). (y, grind (arith, q), l))
                    (λ x p. cons-Behind src zone exits steady from rooms room x p)
                    (λ f. let impossible : ⊥ = cc (f, o'.on) in elim impossible [ ])
                    (inr (o', gr, keep)) (λ o'' keep''. rest),
              )
        ]
