-- ===== src/Affects/Stacking.antt =====
-- `Apply` of internal/affects/affects.go: which entries a list of affects holds behind it.
use mathlib.Core.Path.{subst}
use wheel_mud.Base.{
  ℕ, zero, suc, ◌+◌, ◌<◌, ◌≡◌, ◌⊎◌, inl, inr, ap₂, refl, sym, Bool, true, false, ◌&&◌, Option, none,
  some, List, [], ◌∷◌, ◌++◌, arith, get_elem?, take, drop, if◌then◌else◌, Bool-cases, if-cases,
}
use wheel_mud.Base.Int.{ℤ, ◌==ℤ◌, ◌≤ℤ◌, ltb_ℤ, ==ℤ_iff}
use wheel_mud.Base.Text.{Bytes, same, same_iff}
use wheel_mud.Affects.{Affect, same_key, in_front, refresh, name_count, find_victim}

-- The entries whose source and name pass a test.
unfoldable pub count : (ℤ → Bytes → Bool) → List Affect → ℕ
count p [] = 0
count p (a ∷ affects) = let rest = count p affects in if p a.source a.name then suc rest else rest

abbrev pub is_key : ℤ → Bytes → ℤ → Bytes → Bool
is_key source name s n = (s ==ℤ source) && same n name

abbrev pub is_name : Bytes → ℤ → Bytes → Bool
is_name name s n = same n name

pub name_count_lem :
    (name : Bytes) (affects : List Affect) → name_count affects name ≡ count (is_name name) affects
unfolding name_count count
name_count_lem name [] = refl
name_count_lem name (a ∷ affects) = rw (name_count_lem name affects) refl

pub count-append :
    (p : ℤ → Bytes → Bool) (xs ys : List Affect) → count p (xs ++ ys) ≡ count p xs + count p ys
unfolding count
count-append p [] ys = omega arith
count-append p (a ∷ xs) ys = ground (arith, count-append p xs ys)

-- One entry is taken out.
pub count-cut :
    (p : ℤ → Bytes → Bool) (v : ℕ) (x : Affect) (xs : List Affect)
    → get_elem? xs v ≡ some x
    → count p (take v xs ++ drop (suc v) xs) + (if p x.source x.name then 1 else 0) ≡ count p xs
unfolding count
count-cut p v x [] h = cc
count-cut p zero x (y ∷ xs) h =
    let same : y ≡ x = cc in
    subst
      (λ z.
        count p xs + (if p z.source z.name then 1 else 0)
        ≡ (if p y.source y.name then suc (count p xs) else count p xs))
      same (ground arith)
count-cut p (suc v) x (y ∷ xs) h = ground (arith, count-cut p v x xs h)

pub key_parts :
    (prev a : Affect) → same_key prev a ≡ true → (prev.source ≡ a.source) × (prev.name ≡ a.name)
key_parts prev a h =
    let s : (prev.source ==ℤ a.source) ≡ true = grind (arith, h) in
    let n : same prev.name a.name ≡ true = grind (arith, h) in
    ((==ℤ_iff prev.source a.source).0 s, (same_iff prev.name a.name).0 n)

-- What a refresh of the list does to the number of entries under a test.
abbrev pub Refreshed : (ℤ → Bytes → Bool) → Affect → List Affect → Option (List Affect) → Type 0
Refreshed p a affects none = count (is_key a.source a.name) affects ≡ 0
Refreshed p a affects (some out) = count p out ≡ count p affects

in_front-Refreshed :
    (p : ℤ → Bytes → Bool) (prev a : Affect) (affects : List Affect) (o : Option (List Affect))
    → same_key prev a ≡ false
    → Refreshed p a affects o
    → Refreshed p a (prev ∷ affects) (in_front prev o)
unfolding count
in_front-Refreshed p prev a affects none e h = rw (e, h) refl
in_front-Refreshed p prev a affects (some out) e h = rw h refl

pub refresh-Refreshed :
    (p : ℤ → Bytes → Bool) (affects : List Affect) (a : Affect)
    → Refreshed p a affects (refresh affects a)
unfolding refresh
refresh-Refreshed p [] a = unfold count in refl
refresh-Refreshed p (prev ∷ affects) a =
    if-cases (Refreshed p a (prev ∷ affects)) (same_key prev a)
      (λ e.
        let (s, n) = key_parts prev a e in
        unfold count in
        ap₂ (λ source name. if p source name then suc (count p affects) else count p affects)
          (sym s) (sym n))
      (λ e.
        in_front-Refreshed p prev a affects (refresh affects a) e (refresh-Refreshed p affects a))

-- The entry that the search for a victim has come to, and that no other of the name is shorter.
abbrev pub Victim : Bytes → List Affect → ℕ → ℕ → ℤ → Type 0
Victim name affects i victim least =
    (j : ℕ) × (x : Affect) × (victim ≡ i + j)
    × (get_elem? affects j ≡ some x)
    × (same x.name name ≡ true)
    × (x.duration_ticks ≡ least)

abbrev pub Least : Bytes → List Affect → ℤ → Type 0
Least name [] d = Unit
Least name (a ∷ affects) d =
    (same a.name name ≡ true → d ≤ℤ a.duration_ticks) × Least name affects d

later-Victim :
    (name : Bytes) (a : Affect) (affects : List Affect) (i v : ℕ) (d : ℤ)
    → Victim name affects (suc i) v d
    → Victim name (a ∷ affects) i v d
later-Victim name a affects i v d (j, x, at, get, is, least) =
    (suc j, x, omega (arith, at), get, is, least)

find_victim_lem :
    (name : Bytes) (i : ℕ) (affects : List Affect) (v : ℕ) (d : ℤ)
    → (v' : ℕ) × (d' : ℤ) × (find_victim name i affects (some (v, d)) ≡ some (v', d'))
      × (((v' ≡ v) × (d' ≡ d)) ⊎ Victim name affects i v' d')
      × (d' ≤ℤ d)
      × Least name affects d'
unfolding find_victim
find_victim_lem name i [] v d = (v, d, refl, inl (refl, refl), omega arith, tt)
find_victim_lem name i (a ∷ affects) v d =
    elim (Bool-cases (same a.name name && ltb_ℤ a.duration_ticks d)) [
      | inl e ↦
          let (v', d', f, h, le, least) = find_victim_lem name (suc i) affects i a.duration_ticks in
          let is : same a.name name ≡ true = grind (arith, e) in
          let less : ltb_ℤ a.duration_ticks d ≡ true = grind (arith, e) in
          (
            v',
            d',
            rw e f,
            inr (elim h [
              | inl (at, dur) ↦ (0, a, omega (arith, at), refl, is, sym dur)
              | inr found ↦ later-Victim name a affects i v' d' found
            ]),
            ground (arith, le, less),
            (λ same_name. le, least),
          )
      | inr e ↦
          let (v', d', f, h, le, least) = find_victim_lem name (suc i) affects v d in
          (
            v',
            d',
            rw e f,
            elim h [
              | inl old ↦ inl old
              | inr found ↦ inr (later-Victim name a affects i v' d' found)
            ],
            le,
            (
              λ same_name.
                  let more : ltb_ℤ a.duration_ticks d ≡ false = grind (arith, e, same_name) in
                  ground (arith, le, more),
              least,
            ),
          )
    ]

pub find_first :
    (name : Bytes) (i : ℕ) (affects : List Affect)
    → 0 < name_count affects name
    → (v : ℕ) × (d : ℤ) × (find_victim name i affects none ≡ some (v, d))
      × Victim name affects i v d
      × Least name affects d
unfolding find_victim name_count
find_first name i [] h = ground (arith, h)
find_first name i (a ∷ affects) h = elim (Bool-cases (same a.name name)) [
  | inl is ↦
      let (v, d, f, at, le, least) = find_victim_lem name (suc i) affects i a.duration_ticks in
      (
        v,
        d,
        rw is f,
        elim at [
          | inl (at_i, dur) ↦ (0, a, omega (arith, at_i), refl, is, sym dur)
          | inr found ↦ later-Victim name a affects i v d found
        ],
        (λ same_name. le, least),
      )
  | inr other ↦
      let more : 0 < name_count affects name = ground (arith, h, other) in
      let (v, d, f, found, least) = find_first name (suc i) affects more in
      (
        v,
        d,
        rw other f,
        later-Victim name a affects i v d found,
        (λ same_name. cc (same_name, other), least),
      )
]
