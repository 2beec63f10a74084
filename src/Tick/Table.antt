-- ===== src/Tick/Table.antt =====
-- The table of subscriptions of internal/tick/scheduler.go: no id stands in it twice, and what a
-- sweep does to one id.
use mathlib.Core.Path.{subst}
use wheel_mud.Base.{
  ℕ, ◌+◌, ◌≡◌, inl, inr, ◌∙◌, ap, refl, sym, false, Option, none, some, List, [], ◌∷◌, arith, leb,
  ◌==◌, if◌then◌else◌, Bool-cases, ==_iff,
}
use wheel_mud.Base.Dict.{Dict, lookup, insert, erase, lookup-insert, lookup-erase}
use wheel_mud.Tick.{Subscription, sweep}

abbrev pub Distinct : Dict Subscription → Type 0
Distinct [] = Unit
Distinct ((id, sub) ∷ subs) = (lookup id subs ≡ none) × Distinct subs

-- The starts of one id among those of a tick at `now`: the time and the handler.
unfoldable pub starts : (id now : ℕ) → List (ℕ × ℕ) → List (ℕ × ℕ)
starts id now [] = []
starts id now ((other, fn) ∷ due) =
    let rest = starts id now due in if other == id then (now, fn) ∷ rest else rest

-- The subscription behind a tick at `now`.
abbrev pub left_over : ℕ → Subscription → Option Subscription
left_over now sub =
    if leb sub.next now
    then (if sub.once then none else some (record sub { next = now + sub.every }))
    else some sub

pub insert-Distinct :
    (id : ℕ) (sub : Subscription) (subs : Dict Subscription)
    → Distinct subs
    → Distinct (insert id sub subs)
unfolding insert lookup
insert-Distinct id sub [] d = (refl, tt)
insert-Distinct id sub ((other, old) ∷ subs) (new, d) = elim (Bool-cases (other == id)) [
  | inl e ↦ rw e (ap (λ k. lookup k subs) (sym ((==_iff other id).0 e)) ∙ new, d)
  | inr e ↦ rw e (
    lookup-insert id other sub subs
        ∙ (let o : (id == other) ≡ false = ground (arith, e) in rw o new),
    insert-Distinct id sub subs d,
  )
]

pub erase-Distinct : (id : ℕ) (subs : Dict Subscription) → Distinct subs → Distinct (erase id subs)
unfolding erase lookup
erase-Distinct id [] d = tt
erase-Distinct id ((other, old) ∷ subs) (new, d) = elim (Bool-cases (other == id)) [
  | inl e ↦ rw e (erase-Distinct id subs d)
  | inr e ↦ rw e (
    lookup-erase id other subs ∙ (let o : (id == other) ≡ false = ground (arith, e) in rw o new),
    erase-Distinct id subs d,
  )
]

pub sweep-absent :
    (id now : ℕ) (subs : Dict Subscription)
    → lookup id subs ≡ none
    → (lookup id (sweep now subs).0 ≡ none) × (starts id now (sweep now subs).1 ≡ [])
unfolding sweep lookup starts
sweep-absent id now [] h = (refl, refl)
sweep-absent id now ((other, sub) ∷ subs) h = elim (Bool-cases (other == id)) [
  | inl e ↦ let impossible : ⊥ = grind (arith, h, e) in elim impossible [ ]
  | inr e ↦
      let rest : lookup id subs ≡ none = grind (arith, h, e) in
      let (l, s) = sweep-absent id now subs rest in
      elim (Bool-cases (leb sub.next now)) [
        | inl due ↦ elim (Bool-cases sub.once) [
          | inl once ↦ rw (due, once, e) (l, s)
          | inr more ↦ rw (due, more, e) (l, s)
        ]
        | inr later ↦ rw (later, e) (l, s)
      ]
]

some_inj : {a b : Subscription} → some a ≡ some b → a ≡ b
some_inj {a} {b} e = cc

pub sweep-present :
    (id now : ℕ) (sub : Subscription) (subs : Dict Subscription)
    → Distinct subs
    → lookup id subs ≡ some sub
    → (lookup id (sweep now subs).0 ≡ left_over now sub)
      × (starts id now (sweep now subs).1
          ≡ (if leb sub.next now then (now, sub.handler) ∷ [] else []))
unfolding sweep lookup starts
sweep-present id now sub [] d h = cc
sweep-present id now sub ((other, old) ∷ subs) (new, d) h = elim (Bool-cases (other == id)) [
  | inl e ↦
      let same : old ≡ sub = some_inj (sym (rw e refl) ∙ h) in
      let gone : lookup id subs ≡ none =
        ap (λ k. lookup k subs) (sym ((==_iff other id).0 e)) ∙ new in
      let (l, s) = sweep-absent id now subs gone in
      subst
        (λ x.
          (lookup id (sweep now ((other, old) ∷ subs)).0 ≡ left_over now x)
          × (starts id now (sweep now ((other, old) ∷ subs)).1
              ≡ (if leb x.next now then (now, x.handler) ∷ [] else [])))
        same
        (elim (Bool-cases (leb old.next now)) [
          | inl due ↦ elim (Bool-cases old.once) [
            | inl once ↦ rw (due, once, e, s) (l, refl)
            | inr more ↦ rw (due, more, e, s) (refl, refl)
          ]
          | inr later ↦ rw (later, e) (refl, s)
        ])
  | inr e ↦
      let rest : lookup id subs ≡ some sub = grind (arith, h, e) in
      let (l, s) = sweep-present id now sub subs d rest in
      elim (Bool-cases (leb old.next now)) [
        | inl due ↦ elim (Bool-cases old.once) [
          | inl once ↦ rw (due, once, e) (l, s)
          | inr more ↦ rw (due, more, e) (l, s)
        ]
        | inr later ↦ rw (later, e) (l, s)
      ]
]

pub sweep-Distinct :
    (now : ℕ) (subs : Dict Subscription) → Distinct subs → Distinct (sweep now subs).0
unfolding sweep lookup
sweep-Distinct now [] d = tt
sweep-Distinct now ((id, sub) ∷ subs) (new, d) =
    let absent = (sweep-absent id now subs new).0 in
    let rest = sweep-Distinct now subs d in
    elim (Bool-cases (leb sub.next now)) [
      | inl due ↦ elim (Bool-cases sub.once) [
        | inl once ↦ rw (due, once) rest
        | inr more ↦ rw (due, more) (absent, rest)
      ]
      | inr later ↦ rw later (absent, rest)
    ]
