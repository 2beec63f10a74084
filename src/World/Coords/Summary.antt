-- ===== src/World/Coords/Summary.antt =====
-- `DeriveCoords` of internal/world/coords_derive.go: what is made of the list of rooms before the
-- walk and of the walk in the end.
use mathlib.Core.Path.{subst}
use mathlib.Core.List.{Memᴰ}
use mathlib.Core.List.Memᴰ
use wheel_mud.Base.{
  ℕ, ◌≡◌, ◌⊎◌, inl, inr, refl, true, not, ◌&&◌, ◌||◌, some, List, [], ◌∷◌, map, arith, leb, ◌==◌,
  Bool-cases, Option-cases, ==_iff, ==_refl,
}
use wheel_mud.Base.Int.{pos}
use wheel_mud.Base.Members.{elem}
use wheel_mud.Base.Dict.{Dict, lookup, insert, keys, has, lookup-insert}
use wheel_mud.World.Coords.{
  Pos, Room, by_id, insert_by, sort_by, explicit_anchors, synthetic_anchors, or_else, anchors_of,
  starter_room_id, dedup_sorted, unreached,
}

abbrev pub ids : List Room → List ℕ
ids all = map (λ (r : Room). r.id) all

-- Sorting ids, and leaving out repeated ones, keeps the same ids.
elem-insert_by : (r a : ℕ) (l : List ℕ) → elem r (insert_by (λ x. x) a l) ≡ (a == r || elem r l)
unfolding insert_by
elem-insert_by r a [] = refl
elem-insert_by r a (b ∷ l) = ground (arith, elem-insert_by r a l)

pub elem-sort_by : (r : ℕ) (l : List ℕ) → elem r (sort_by (λ x. x) l) ≡ elem r l
unfolding sort_by
elem-sort_by r [] = refl
elem-sort_by r (a ∷ l) =
    ground (arith, elem-insert_by r a (sort_by (λ (x : ℕ). x) l), elem-sort_by r l)

pub elem-dedup_sorted : (r : ℕ) (l : List ℕ) → elem r (dedup_sorted l) ≡ elem r l
unfolding dedup_sorted
elem-dedup_sorted r [] = refl
elem-dedup_sorted r (a ∷ []) = refl
elem-dedup_sorted r (a ∷ b ∷ l) = ground (arith, elem-dedup_sorted r (b ∷ l))

elem-keys-insert {ℓ} :
    {V : Type ℓ} (r k : ℕ) (v : V) (m : Dict V)
    → elem r (keys (insert k v m)) ≡ (k == r || elem r (keys m))
unfolding keys insert
elem-keys-insert r k v [] = refl
elem-keys-insert r k v ((j, w) ∷ m) = ground (arith, elem-keys-insert r k v m)

elem-keys-by_id :
    (r : ℕ) (all : List Room) (m : Dict Room)
    → elem r (keys (by_id all m)) ≡ (elem r (ids all) || elem r (keys m))
unfolding by_id
elem-keys-by_id r [] m = refl
elem-keys-by_id r (x ∷ all) m =
    ground (arith, elem-keys-by_id r all (insert x.id x m), elem-keys-insert r x.id x m)

elem-unreached :
    (r : ℕ) (visited : Dict Pos) (m : Dict Room)
    → elem r (unreached visited m) ≡ (elem r (keys m) && not (has r visited))
unfolding unreached keys
elem-unreached r visited [] = refl
elem-unreached r visited ((id, x) ∷ m) = elim (Bool-cases (id == r)) [
  | inl e ↦
      subst
        (λ k.
          elem k (unreached visited ((id, x) ∷ m)) ≡ (elem k (id ∷ keys m) && not (has k visited)))
        ((==_iff id r).0 e) (ground (arith, ==_refl id, elem-unreached id visited m))
  | inr e ↦ ground (arith, e, elem-unreached r visited m)
]

pub orphans_lem :
    (r : ℕ) (visited : Dict Pos) (all : List Room)
    → elem r (sort_by (λ x. x) (unreached visited (by_id all [])))
      ≡ (elem r (ids all) && not (has r visited))
unfolding keys
orphans_lem r visited all = ground (
  arith,
  elem-sort_by r (unreached visited (by_id all [])),
  elem-unreached r visited (by_id all []),
  elem-keys-by_id r all [],
)

-- Every anchor is a room of the list.
Memᴰ-insert_by {ℓ} :
    {A : Type ℓ} (key : A → ℕ) (x a : A) (l : List A)
    → Memᴰ x (insert_by key a l)
    → (x ≡ a) ⊎ Memᴰ x l
unfolding insert_by
Memᴰ-insert_by key x a [] m = inl (Memᴰ.eq_of_singleton m)
Memᴰ-insert_by key x a (b ∷ l) m = elim (Bool-cases (leb (key a) (key b))) [
  | inl e ↦ Memᴰ.cases_cons (subst (Memᴰ x) (rw e refl) m)
  | inr e ↦ elim (Memᴰ.cases_cons (subst (Memᴰ x) (rw e refl) m)) [
    | inl first ↦ inr (Memᴰ.head first)
    | inr m' ↦ elim (Memᴰ-insert_by key x a l m') [
      | inl here ↦ inl here
      | inr there ↦ inr (Memᴰ.tail there)
    ]
  ]
]

lookup-by_id :
    (k : ℕ) (all : List Room) (m : Dict Room) (r : Room)
    → lookup k (by_id all m) ≡ some r
    → (elem r.id (ids all) ≡ true) ⊎ (lookup k m ≡ some r)
unfolding by_id
lookup-by_id k [] m r h = inr h
lookup-by_id k (x ∷ all) m r h = elim (lookup-by_id k all (insert x.id x m) r h) [
  | inl e ↦ inl (grind (arith, e))
  | inr e ↦ elim (Bool-cases (x.id == k)) [
    | inl same ↦ inl (
        let r_lem : x ≡ r = ground (arith, lookup-insert x.id k x m, e, same) in
        subst (λ (y : Room). elem y.id (ids (x ∷ all)) ≡ true) r_lem (grind (arith, ==_refl x.id)))
    | inr apart ↦ inr (ground (arith, lookup-insert x.id k x m, e, apart))
  ]
]

Memᴰ-sort_by {ℓ} :
    {A : Type ℓ} (key : A → ℕ) (x : A) (l : List A) → Memᴰ x (sort_by key l) → Memᴰ x l
unfolding sort_by
Memᴰ-sort_by key x [] m = m
Memᴰ-sort_by key x (a ∷ l) m = elim (Memᴰ-insert_by key x a (sort_by key l) m) [
  | inl here ↦ Memᴰ.head here
  | inr there ↦ Memᴰ.tail (Memᴰ-sort_by key x l there)
]

explicit-listed :
    (all : List Room) (a : ℕ × Pos) → Memᴰ a (explicit_anchors all) → elem a.0 (ids all) ≡ true
unfolding explicit_anchors
explicit-listed [] a m = absurd (Memᴰ.not-nil m)
explicit-listed (x ∷ all) a m = elim (Bool-cases x.coords_anchor) [
  | inl e ↦
      let m'' : Memᴰ a ((x.id, x.coord) ∷ explicit_anchors all) = subst (Memᴰ a) (rw e refl) m in
      elim (Memᴰ.cases_cons m'') [
        | inl first ↦ grind (arith, ==_refl x.id, first)
        | inr m' ↦ grind (arith, explicit-listed all a m')
      ]
  | inr e ↦ grind (arith, explicit-listed all a (subst (Memᴰ a) (rw e refl) m))
]

synthetic-listed :
    (all : List Room) (a : ℕ × Pos)
    → Memᴰ a (synthetic_anchors (by_id all []))
    → elem a.0 (ids all) ≡ true
unfolding synthetic_anchors lookup
synthetic-listed all a m = elim (Option-cases (lookup starter_room_id (by_id all []))) [
  | inl e ↦ absurd (Memᴰ.not-nil (subst (Memᴰ a) (ground (arith, e)) m))
  | inr (starter, e) ↦
      let same : a ≡ (starter.id, record { x = pos 0; y = pos 0; z = pos 0 }) =
        Memᴰ.eq_of_singleton (subst (Memᴰ a) (ground (arith, e)) m) in
      elim (lookup-by_id starter_room_id all [] starter e) [ inl h ↦ rw same h | inr h ↦ cc (h) ]
]

pub anchors_of-listed :
    (all : List Room) (r : ℕ) (p : Pos) → Memᴰ (r, p) (anchors_of all) → elem r (ids all) ≡ true
unfolding anchors_of
anchors_of-listed all r p m = listed_lem (explicit_anchors all) (explicit-listed all) (
    Memᴰ-sort_by (λ a. a.0) (r, p)
      (or_else (explicit_anchors all) (synthetic_anchors (by_id all []))) m)
  where
    listed_lem :
        (l : List (ℕ × Pos))
        → ((a : ℕ × Pos) → Memᴰ a l → elem a.0 (ids all) ≡ true)
        → Memᴰ (r, p) (or_else l (synthetic_anchors (by_id all [])))
        → elem r (ids all) ≡ true
    listed_lem [] h m' = synthetic-listed all (r, p) m'
    listed_lem (a ∷ l) h m' = h (r, p) m'
