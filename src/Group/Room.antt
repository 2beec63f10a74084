-- ===== src/Group/Room.antt =====
-- Who shares in what happens in a room (internal/group/manager.go, MembersInRoom).
use Prim.Native.String.{String}
use wheel_mud.Base.{
  ℕ, ◌≡◌, ◌≢◌, refl, ◌⊎◌, inl, inr, Bool, true, false, ◌&&◌, ◌||◌, some, List, [], ◌∷◌, arith, ◌==◌,
  Option-cases, Bool-cases,
}
use wheel_mud.Base.Dict.{Dict, lookup, has}
use wheel_mud.Group.Defs.{Manager, members_in_room, room_members, present, or_asker, SessionView}
use wheel_mud.Group.Invariant.{Inv, is_at}

unfoldable pub elem : ℕ → List ℕ → Bool
elem d [] = false
elem d (x ∷ xs) = x == d || elem d xs

-- Some session of the list is that character's, in that room.
unfoldable pub seen : ℕ → ℕ → List SessionView → Bool
seen d room [] = false
seen d room (s ∷ ss) = (s.character_id == d && s.current_room_id == room) || seen d room ss

elem-present :
    (members : Dict String) (d room : ℕ) (ss : List SessionView)
    → elem d (present members room ss) ≡ (seen d room ss && has d members)
unfolding elem present seen
elem-present members d room [] = refl
elem-present members d room (s ∷ ss) = elim (Bool-cases (s.character_id == d)) [
  | inl e ↦
      let same : s.character_id ≡ d = ground arith in
      rw same (ground (arith, elem-present members d room ss))
  | inr e ↦ ground (arith, elem-present members d room ss)
]

-- In a consistent manager, for a grouped character with an id other than 0 and sessions to look
-- through, `MembersInRoom` gives at least one id: every member of the group with a session in the
-- room is among them, and nobody else is but the character itself.
pub members_in_room_lem :
    (m : Manager) (c l room : ℕ) (ss : List SessionView)
    → Inv m
    → c ≢ 0
    → lookup c m.by_character ≡ some l
    → (ids : List ℕ) × (members_in_room m c room (some ss) ≡ some ids)
      × (ids ≢ [])
      × ((d : ℕ) → seen d room ss && is_at l (lookup d m.by_character) ≡ true → elem d ids ≡ true)
      × ((d : ℕ)
          → elem d ids ≡ true
          → (d ≡ c) ⊎ (seen d room ss && is_at l (lookup d m.by_character) ≡ true))
unfolding members_in_room elem
members_in_room_lem m c l room ss v nz e = elim (Option-cases (lookup l m.groups)) [
  | inl p ↦ cc (v.placed c l e)
  | inr (g, p) ↦
      let ids = present g.members room ss in
      (
        or_asker c ids,
        rw (e, members_in_room) (rw (p, room_members) (ground arith)),
        nonempty ids,
        λ d h. kept d ids (ground (arith, elem-present g.members d room ss, v.agree l g d p)),
        λ d h. ground (arith, back d ids h, elem-present g.members d room ss, v.agree l g d p),
      )
]
  where
    nonempty : (ids : List ℕ) → or_asker c ids ≢ []
    nonempty [] q = cc
    nonempty (x ∷ xs) q = cc

    kept : (d : ℕ) (ids : List ℕ) → elem d ids ≡ true → elem d (or_asker c ids) ≡ true
    kept d [] h = ground arith
    kept d (x ∷ xs) h = h

    back : (d : ℕ) (ids : List ℕ) → elem d (or_asker c ids) ≡ true → (d ≡ c) ⊎ (elem d ids ≡ true)
    back d [] h = ground arith
    back d (x ∷ xs) h = inr h
