-- ===== src/Affects/Latest.antt =====
-- The entries that `Apply` of internal/affects/affects.go adds, keeps and drops.
use mathlib.Core.Path.{subst}
use mathlib.Core.List.{append-nil}
use wheel_mud.Base.{
  ℕ, zero, suc, ◌≡◌, inl, inr, ◌∙◌, ap, ap₂, refl, sym, true, false, Option, none, some, List, [],
  ◌∷◌, ◌++◌, arith, get_elem?, take, drop, if◌then◌else◌, Bool-cases, Option-cases, if-cases,
}
use wheel_mud.Base.Int.{◌==ℤ◌, ==ℤ_iff}
use wheel_mud.Base.Text.{Bytes, same, same_iff}
use wheel_mud.Affects.{Affect, same_key, in_front, refresh, evict_for_name, apply}
use wheel_mud.Affects.Stacking.{count, is_key, key_parts}
use wheel_mud.Affects.Applying.{evict_lem, evict-count, refreshed_none}

-- The first entry with the key of `a`.
unfoldable pub entry : List Affect → Affect → Option Affect
entry [] a = none
entry (prev ∷ affects) a = let rest = entry affects a in if same_key prev a then some prev else rest

-- The entries with a name, in their order.
unfoldable pub named : Bytes → List Affect → List Affect
named name [] = []
named name (a ∷ affects) =
    let rest = named name affects in if same a.name name then a ∷ rest else rest

same_key_refl : (a : Affect) → same_key a a ≡ true
same_key_refl a =
    let s : (a.source ==ℤ a.source) ≡ true = (==ℤ_iff a.source a.source).1 refl in
    let n : same a.name a.name ≡ true = (same_iff a.name a.name).1 refl in rw (s, n) refl

entry-append :
    (xs : List Affect) (a : Affect)
    → count (is_key a.source a.name) xs ≡ 0
    → entry (xs ++ a ∷ []) a ≡ some a
unfolding entry count
entry-append [] a h = let own : same_key a a ≡ true = same_key_refl a in rw own refl
entry-append (x ∷ xs) a h = elim (Bool-cases (same_key x a)) [
  | inl e ↦ let impossible : ⊥ = ground (arith, h, e) in elim impossible [ ]
  | inr e ↦ rw e (entry-append xs a (ground (arith, h, e)))
]

named-append :
    (name : Bytes) (xs ys : List Affect) → named name (xs ++ ys) ≡ named name xs ++ named name ys
unfolding named
named-append name [] ys = refl
named-append name (x ∷ xs) ys = elim (Bool-cases (same x.name name)) [
  | inl e ↦ rw e (ap (λ r. x ∷ r) (named-append name xs ys))
  | inr e ↦ rw e (named-append name xs ys)
]

named-cut :
    (name : Bytes) (v : ℕ) (x : Affect) (xs : List Affect)
    → get_elem? xs v ≡ some x
    → same x.name name ≡ false
    → named name (take v xs ++ drop (suc v) xs) ≡ named name xs
unfolding named
named-cut name v x [] h e = cc
named-cut name zero x (y ∷ xs) h e =
    let here : x ≡ y = cc in
    let other : same y.name name ≡ false = subst (λ z. same z.name name ≡ false) here e in
    rw other refl
named-cut name (suc v) x (y ∷ xs) h e = elim (Bool-cases (same y.name name)) [
  | inl t ↦ rw t (ap (λ r. y ∷ r) (named-cut name v x xs h e))
  | inr t ↦ rw t (named-cut name v x xs h e)
]

-- What a refresh finds and leaves.
abbrev Fresh : Affect → List Affect → Option (List Affect) → Type 0
Fresh a affects none = Unit
Fresh a affects (some out) =
    (entry out a ≡ some a)
    × ((name : Bytes) → same a.name name ≡ false → named name out ≡ named name affects)

in_front-Fresh :
    (prev a : Affect) (affects : List Affect) (o : Option (List Affect))
    → same_key prev a ≡ false
    → Fresh a affects o
    → Fresh a (prev ∷ affects) (in_front prev o)
unfolding entry named
in_front-Fresh prev a affects none e h = tt
in_front-Fresh prev a affects (some out) e (found, rest) =
    (rw e found, λ name other. rw (rest name other) refl)

refresh-Fresh : (affects : List Affect) (a : Affect) → Fresh a affects (refresh affects a)
unfolding refresh
refresh-Fresh [] a = tt
refresh-Fresh (prev ∷ affects) a =
    if-cases (Fresh a (prev ∷ affects)) (same_key prev a)
      (λ e. (
        unfold entry in (let own : same_key a a ≡ true = same_key_refl a in rw own refl),
        λ name other.
            unfold named in
            (let before : same prev.name name ≡ false =
                subst (λ n. same n name ≡ false) (sym (key_parts prev a e).1) other in
              rw (other, before) refl),
      ))
      (λ e. in_front-Fresh prev a affects (refresh affects a) e (refresh-Fresh affects a))

evicted-named :
    (affects : List Affect) (gone name : Bytes)
    → same gone name ≡ false
    → named name (evict_for_name affects gone) ≡ named name affects
evicted-named affects gone name other = elim (evict_lem affects gone) [
  | inl (e, few) ↦ ap (named name) e
  | inr (v, x, e, get, is, least) ↦
      ap (named name) e
      ∙ named-cut name v x affects get (subst (λ n. same n name ≡ false) (sym is) other)
]

-- `Apply` leaves the new affect as the entry of its source and name, and the affects of other names as
-- they are, in their order.
pub apply_lem :
    (affects : List Affect) (a : Affect)
    → (entry (apply affects a) a ≡ some a)
      × ((name : Bytes)
          → same a.name name ≡ false
          → named name (apply affects a) ≡ named name affects)
unfolding apply
apply_lem affects a = elim (Option-cases (refresh affects a)) [
  | inl e ↦
      let none_left : count (is_key a.source a.name) (evict_for_name affects a.name) ≡ 0 =
        omega (
          arith,
          evict-count (is_key a.source a.name) affects a.name,
          refreshed_none affects a e,
        ) in
      rw e (
        entry-append (evict_for_name affects a.name) a none_left,
        λ name other.
            let last : named name (a ∷ []) ≡ [] = unfold named in rw other refl in
            named-append name (evict_for_name affects a.name) (a ∷ [])
            ∙ ap₂ (λ xs ys. xs ++ ys) (evicted-named affects a.name name other) last
            ∙ append-nil (named name affects),
      )
  | inr (out, e) ↦ rw e (subst (Fresh a affects) e (refresh-Fresh affects a))
]
