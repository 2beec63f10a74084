-- ===== src/Affects/Ticking.antt =====
-- `Tick` of internal/affects/affects.go, once and many times.
use wheel_mud.Base.{
  ℕ, zero, suc, ◌+◌, ◌-◌, ◌<◌, ◌≡◌, inl, inr, ◌∙◌, ap, refl, true, false, List, [], ◌∷◌, arith, leb,
  if◌then◌else◌, Bool-cases, if-cases,
}
use wheel_mud.Base.Int.{pos, ◌-ℤ◌, wrap, wrap-eq_of_InRange}
use wheel_mud.Affects.{Affect, int32_bound, tick}

-- An affect with `n` ticks left.
abbrev pub with_left : Affect → ℕ → Affect
with_left a n = record a { duration_ticks = pos n }

-- Affects, each with the ticks that it has left.
abbrev pub timed : List (Affect × ℕ) → List Affect
timed [] = []
timed ((a, n) ∷ rows) = with_left a n ∷ timed rows

abbrev pub Lively : List (Affect × ℕ) → Type 0
Lively [] = Unit
Lively ((a, n) ∷ rows) = (n < int32_bound) × Lively rows

-- Those with more than `k` ticks left, `k` ticks later, and the others.
unfoldable pub alive_after : (k : ℕ) → List (Affect × ℕ) → List (Affect × ℕ)
alive_after k [] = []
alive_after k ((a, n) ∷ rows) =
    let rest = alive_after k rows in if leb n k then rest else (a, n - k) ∷ rest

unfoldable pub over_after : (k : ℕ) → List (Affect × ℕ) → List (Affect × ℕ)
over_after k [] = []
over_after k ((a, n) ∷ rows) =
    let rest = over_after k rows in if leb n k then (a, 0) ∷ rest else rest

-- What `k` ticks one after the other leave.
unfoldable pub ticked : (k : ℕ) → List Affect → List Affect
ticked zero affects = affects
ticked (suc k) affects = ticked k (tick affects).0

one_less : (n : ℕ) → n < int32_bound → wrap int32_bound (pos (suc n) -ℤ pos 1) ≡ pos n
unfolding ◌-ℤ◌
one_less n h =
    ground (arith, wrap-eq_of_InRange int32_bound (pos n) (omega arith) (omega arith, omega arith))

tick_lem :
    (rows : List (Affect × ℕ))
    → Lively rows
    → tick (timed rows) ≡ (timed (alive_after 1 rows), timed (over_after 1 rows))
unfolding tick alive_after over_after
tick_lem [] h = refl
tick_lem ((a, zero) ∷ rows) h = rw (tick_lem rows h.1) (unfold wrap ◌-ℤ◌ in refl)
tick_lem ((a, suc zero) ∷ rows) h = rw (tick_lem rows h.1, one_less 0 (omega arith)) refl
tick_lem ((a, suc (suc n)) ∷ rows) h =
    let on : leb (suc n + 0) 0 ≡ false = ground arith in
    let still : leb (suc (suc n)) 1 ≡ false = ground arith in
    let one : suc (suc n) - 1 ≡ suc n = omega arith in
    rw (tick_lem rows h.1, one_less (suc n) (omega (arith, h.0)), on, still, one) refl

alive-alive :
    (j k : ℕ) (rows : List (Affect × ℕ))
    → alive_after k (alive_after j rows) ≡ alive_after (j + k) rows
unfolding alive_after
alive-alive j k [] = refl
alive-alive j k ((a, n) ∷ rows) = elim (Bool-cases (leb n j)) [
  | inl gone ↦
      let later : leb n (j + k) ≡ true = ground (arith, gone) in
      rw (gone, later) (alive-alive j k rows)
  | inr on ↦ elim (Bool-cases (leb (n - j) k)) [
    | inl gone ↦
        let later : leb n (j + k) ≡ true = ground (arith, gone, on) in
        rw (on, gone, later) (alive-alive j k rows)
    | inr still ↦
        let later : leb n (j + k) ≡ false = ground (arith, still, on) in
        let rest : n - j - k ≡ n - (j + k) = omega arith in
        rw (on, still, later, rest) (ap (λ r. (a, n - (j + k)) ∷ r) (alive-alive j k rows))
  ]
]

alive-Lively : (k : ℕ) (rows : List (Affect × ℕ)) → Lively rows → Lively (alive_after k rows)
unfolding alive_after
alive-Lively k [] h = tt
alive-Lively k ((a, n) ∷ rows) h =
    if-cases Lively (leb n k) (λ gone. alive-Lively k rows h.1)
      (λ on. (omega (arith, h.0), alive-Lively k rows h.1))

-- After `k` ticks, one or more, exactly the affects with more than `k` ticks left are there, in their
-- order, each with `k` ticks less; the next tick reports exactly those of them that had one tick left
-- or none, with no ticks left. The ticks that an affect has left are a number of type int32.
pub ticks_lem :
    (k : ℕ) (rows : List (Affect × ℕ))
    → Lively rows
    → (ticked (suc k) (timed rows) ≡ timed (alive_after (suc k) rows))
      × ((tick (ticked (suc k) (timed rows))).1 ≡ timed (over_after 1 (alive_after (suc k) rows)))
unfolding ticked
ticks_lem zero rows h =
    let one = ap (λ r. r.0) (tick_lem rows h) in
    (
      one,
      ap (λ x. (tick x).1) one
          ∙ ap (λ r. r.1) (tick_lem (alive_after 1 rows) (alive-Lively 1 rows h)),
    )
ticks_lem (suc k) rows h =
    let one = ap (λ r. r.0) (tick_lem rows h) in
    let (rest, expired) = ticks_lem k (alive_after 1 rows) (alive-Lively 1 rows h) in
    let count : 1 + suc k ≡ suc (suc k) = omega arith in
    let all : alive_after (suc k) (alive_after 1 rows) ≡ alive_after (suc (suc k)) rows =
      alive-alive 1 (suc k) rows ∙ ap (λ j. alive_after j rows) count in
    (
      ap (ticked (suc k)) one ∙ rest ∙ ap timed all,
      ap (λ x. (tick (ticked (suc k) x)).1) one ∙ expired ∙ ap (λ r. timed (over_after 1 r)) all,
    )
