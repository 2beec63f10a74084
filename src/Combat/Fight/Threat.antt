-- ===== src/Combat/Fight/Threat.antt =====
-- `HighestThreat` of internal/combat/fight.go. Go ranges over the row in an order of its own choosing.
use mathlib.Core.Path.{subst}
use mathlib.Core.List.{Memᴰ}
use mathlib.Core.List.Memᴰ
use wheel_mud.Base.{
  ◌≤◌, ◌≡◌, ◌≢◌, ◌↔◌, ◌⊎◌, inl, inr, ◌∙◌, refl, sym, ap, some, [], ◌∷◌, arith, ltb, Bool-cases,
}
use wheel_mud.Base.Int.{ℤ, pos, negsuc, ◌<ℤ◌, ◌≤ℤ◌, ltb_ℤ, ◌==ℤ◌, ==ℤ_iff, pos_part, neg_part}
use wheel_mud.Combat.Refs.{ActorRef, RefMap, lookup}
use wheel_mud.Combat.Fight.{Fight, no_ref, more_threat, threat_loop, highest_threat}

-- The first is a better target than the second, or as good: it has more threat, or as much and no
-- larger id.
abbrev pub Tops : ActorRef × ℤ → ActorRef × ℤ → Type 0
Tops t e = (e.1 <ℤ t.1) ⊎ ((e.1 ≡ t.1) × (t.0.id ≤ e.0.id))

Tops-refl : (t : ActorRef × ℤ) → Tops t t
Tops-refl t = inr (refl, omega arith)

Tops-trans : (a b c : ActorRef × ℤ) → Tops a b → Tops b c → Tops a c
Tops-trans a b c (inl h) (inl k) = inl (omega (arith, h, k))
Tops-trans a b c (inl h) (inr (e, i)) = inl (subst (λ x. x <ℤ a.1) (sym e) h)
Tops-trans a b c (inr (e, i)) (inl k) = inl (subst (λ x. c.1 <ℤ x) e k)
Tops-trans a b c (inr (e, i)) (inr (e', i')) = inr (e' ∙ e, omega (arith, i, i'))

more_threat-Tops :
    (b e : ActorRef × ℤ)
    → Tops (more_threat b e) b
      × Tops (more_threat b e) e
      × ((more_threat b e ≡ b) ⊎ (more_threat b e ≡ e))
unfolding more_threat
more_threat-Tops (best, high) (ref, score) = elim (Bool-cases (ltb_ℤ high score)) [
  | inl h ↦ rw h (inl (ground (arith, h)), Tops-refl (ref, score), inr refl)
  | inr h ↦ elim (Bool-cases (score ==ℤ high)) [
    | inl e ↦ elim (Bool-cases (ltb ref.id best.id)) [
      | inl i ↦
          let same : score ≡ high = (==ℤ_iff score high).0 e in
          rw (h, e, i)
            (
              inr (refl, ground (arith, i)),
              inr (same, omega arith),
              inr (ap (λ (x : ℤ). (ref, x)) (sym same)),
            )
      | inr i ↦
          rw (h, e, i)
            (Tops-refl (best, high), inr ((==ℤ_iff score high).0 e, ground (arith, i)), inl refl)
    ]
    | inr e ↦ rw (h, e) (Tops-refl (best, high), inl (ground (arith, h, e)), inl refl)
  ]
]

-- The loop ends at its start or at an entry of the row, and tops them all.
abbrev Best : ActorRef × ℤ → RefMap ℤ → ActorRef × ℤ → Type 0
Best b row t = Tops t b × ((e : ActorRef × ℤ) → Memᴰ e row → Tops t e) × ((t ≡ b) ⊎ Memᴰ t row)

threat_loop-Best : (b : ActorRef × ℤ) (row : RefMap ℤ) → Best b row (threat_loop b row)
unfolding threat_loop
threat_loop-Best b [] = (Tops-refl b, (λ e m. absurd (Memᴰ.not-nil m)), inl refl)
threat_loop-Best b (x ∷ row) =
    let next = more_threat b x in
    let (over_b, over_x, which) = more_threat-Tops b x in
    let (over_next, over_row, from) = threat_loop-Best next row in
    let t = threat_loop next row in
    (
      Tops-trans t next b over_next over_b,
      (λ e m. elim (Memᴰ.cases_cons m) [
        | inl same ↦ subst (Tops t) (sym same) (Tops-trans t next x over_next over_x)
        | inr m' ↦ over_row e m'
      ]),
      elim from [
        | inl at_next ↦ elim which [
          | inl old ↦ inl (at_next ∙ old)
          | inr new ↦ inr (Memᴰ.head (at_next ∙ new))
        ]
        | inr m ↦ inr (Memᴰ.tail m)
      ],
    )

-- Every score is that of damage dealt.
abbrev pub Scores : RefMap ℤ → Type 0
Scores row = (e : ActorRef × ℤ) → Memᴰ e row → pos 0 ≤ℤ e.1

abbrev pub IsHighest : RefMap ℤ → ActorRef → Type 0
IsHighest row r = (s : ℤ) × Memᴰ (r, s) row × ((e : ActorRef × ℤ) → Memᴰ e row → Tops (r, s) e)

highest_lem :
    (row : RefMap ℤ) → Scores row → row ≢ [] → IsHighest row (threat_loop (no_ref, negsuc 0) row).0
highest_lem [] scores ne = absurd (ne refl)
highest_lem (x ∷ row) scores ne =
    let t = threat_loop (no_ref, negsuc 0) (x ∷ row) in
    let (_, over, from) = threat_loop-Best (no_ref, negsuc 0) (x ∷ row) in
    elim from [
      | inl start ↦ absurd (
          too_low t x (ap (λ (y : ActorRef × ℤ). y.1) start) (over x (Memᴰ.head refl))
            (scores x (Memᴰ.head refl)))
      | inr m ↦ (t.1, m, over)
    ]
  where
    too_low : (t e : ActorRef × ℤ) → t.1 ≡ negsuc 0 → Tops t e → pos 0 ≤ℤ e.1 → ⊥
    too_low t e low (inl h) k = ground (arith, low, h, k)
    too_low t e low (inr (h, i)) k = ground (arith, low, h, k)

-- Against a defender with some threat, `HighestThreat` returns an attacker of the row that no other has
-- more threat than, with the lowest id among those that have as much.
pub highest_threat_lem :
    (f : Fight) (defender : ActorRef) (row : RefMap ℤ)
    → lookup defender f.threat ≡ some row
    → row ≢ []
    → Scores row
    → IsHighest row (highest_threat f defender)
unfolding highest_threat
highest_threat_lem f defender row h ne scores = rw (h, highest_threat) (highest_lem row scores ne)

-- It does not depend on the order in which Go ranges over the row, if no two attackers in it have the
-- same id.
pub highest_threat_stable :
    (f g : Fight) (defender : ActorRef) (row row' : RefMap ℤ)
    → lookup defender f.threat ≡ some row
    → lookup defender g.threat ≡ some row'
    → row ≢ []
    → row' ≢ []
    → Scores row
    → ((e : ActorRef × ℤ) → Memᴰ e row ↔ Memᴰ e row')
    → ((e e' : ActorRef × ℤ) → Memᴰ e row → Memᴰ e' row → e.0.id ≡ e'.0.id → e ≡ e')
    → highest_threat f defender ≡ highest_threat g defender
highest_threat_stable f g defender row row' h k ne ne' scores same apart =
    let (s, m, over) = highest_threat_lem f defender row h ne scores in
    let (s', m', over') =
      highest_threat_lem g defender row' k ne' (λ e i. scores e ((same e).1 i)) in
    let top : ActorRef × ℤ = (highest_threat f defender, s) in
    let top' : ActorRef × ℤ = (highest_threat g defender, s') in
    let back = (same top').1 m' in
    let ids = equal_ids top top' (over top' back) (over' top ((same top).0 m)) in
    ap (λ (e : ActorRef × ℤ). e.0) (apart top top' m back ids)
  where
    equal_ids : (a b : ActorRef × ℤ) → Tops a b → Tops b a → a.0.id ≡ b.0.id
    equal_ids a b (inl h') (inl k') = absurd (omega (arith, h', k'))
    equal_ids a b (inl h') (inr (e, i)) = absurd (omega (arith, h', ap pos_part e, ap neg_part e))
    equal_ids a b (inr (e, i)) (inl k') = absurd (omega (arith, k', ap pos_part e, ap neg_part e))
    equal_ids a b (inr (e, i)) (inr (e', i')) = omega (arith, i, i')
