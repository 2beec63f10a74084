-- ===== src/Group/Leaving.antt =====
-- Leaving, disbanding and logging out (internal/group/manager.go).
use wheel_mud.Base.{
  ℕ, ◌≡◌, ◌≢◌, inl, inr, Bool, true, false, Option, none, some, List, [], ◌∙◌, refl, ap, arith,
  ◌==◌, if◌then◌else◌, Option-cases, Bool-cases, if-cases,
}
use wheel_mud.Base.Dict.{
  lookup, erase, keys, has, unless, lookup-erase, lookup-insert, lookup-drop_where,
  lookup-erase_all-keys,
}
use wheel_mud.Group.Defs.{
  Group, Invite, Manager, ok, is_member, of_character, pending_invite, disband_locked, leave,
  clear_for_character, remove_member, clear_group, leave_group, drop_invite,
}
use wheel_mud.Group.Invariant.{Inv, is_at, drop_invite-Inv}
use wheel_mud.Group.Calls.{clear-Inv}

-- Who a `Leave` by `c` out of the group of `l` takes out of it: everybody if `c` is the leader.
abbrev pub goes : (c l : ℕ) → ℕ → Option ℕ → Bool
goes c l d at = if c == l then is_at l at else c == d

-- What is left of the group of `l`, and the ids that are returned, if `c` leaves it: nothing and all its
-- members if `c` is the leader, else the group without `c` and its other members.
abbrev pub group_left : (c l : ℕ) → Option Group → Option Group
group_left c l none = none
group_left c l (some g) = if c == l then none else some (record g { members = erase c g.members })

abbrev pub ids_left : (c l : ℕ) → Option Group → List ℕ
ids_left c l none = []
ids_left c l (some g) = if c == l then keys g.members else keys (erase c g.members)

-- Where the characters are, and which invites are left, once the group of `l` is disbanded.
disbanded :
    (m : Manager) (l : ℕ) (g : Group)
    → Inv m
    → lookup l m.groups ≡ some g
    → ((d : ℕ)
        → lookup d (disband_locked m l).0.by_character
          ≡ (if is_at l (lookup d m.by_character) then none else lookup d m.by_character))
      × ((k : ℕ)
          → lookup k (disband_locked m l).0.groups ≡ (if l == k then none else lookup k m.groups))
      × ((d : ℕ)
          → lookup d (disband_locked m l).0.invites
            ≡ unless (λ i. i.leader_id == l) (lookup d m.invites))
unfolding disband_locked
disbanded m l g v e = (
  λ d.
      rw (e, disband_locked)
        (ground (arith, lookup-erase_all-keys g.members d m.by_character, v.agree l g d e)),
  λ k. rw (e, disband_locked) (lookup-erase l k m.groups),
  λ d. rw (e, disband_locked) (lookup-drop_where (λ i. i.leader_id == l) d m.invites),
)

-- In a consistent manager a grouped character can leave. If it is the leader, the group is removed, all
-- in it are ungrouped, the invites into it are dropped, and the ids of all are returned; any other
-- member is taken out of the group alone, the ids of the rest are returned, and the invites stay.
-- Everybody else stays where it was, and so do the other groups and invites.
pub leave_lem :
    (m : Manager) (c l : ℕ)
    → Inv m
    → lookup c m.by_character ≡ some l
    → (n : Manager) × (leave m c ≡ some (n, ok (c == l, ids_left c l (lookup l m.groups))))
      × ((d : ℕ)
          → lookup d n.by_character
            ≡ (if goes c l d (lookup d m.by_character) then none else lookup d m.by_character))
      × ((k : ℕ)
          → lookup k n.groups
            ≡ (if l == k then group_left c l (lookup l m.groups) else lookup k m.groups))
      × ((d : ℕ)
          → lookup d n.invites ≡ (
              if c == l
              then unless (λ i. i.leader_id == l) (lookup d m.invites)
              else lookup d m.invites))
unfolding leave disband_locked
leave_lem m c l v e = elim (Option-cases (lookup l m.groups)) [
  | inl p ↦ cc (v.placed c l e)
  | inr (g, p) ↦ elim (Bool-cases (c == l)) [
    | inl own ↦
        let (places, groups, invites) = disbanded m l g v p in
        let ids : (disband_locked m l).1 ≡ keys g.members = rw (p, disband_locked) refl in
        let all : keys g.members ≡ ids_left c l (some g) = rw own refl in
        (
          (disband_locked m l).0,
          rw (e, leave)
              (rw own (rw p (ap (λ x. some ((disband_locked m l).0, ok (true, x))) (ids ∙ all)))),
          (λ d. rw own (places d)),
          (λ k. groups k ∙ rw (p, own) refl),
          λ d. rw own (invites d),
        )
    | inr other ↦ (
      remove_member m l g c,
      rw (e, leave) (rw other (rw (p, leave_group) (rw other refl))),
      (λ d. rw other (unfold remove_member in lookup-erase c d m.by_character)),
      (λ k. unfold remove_member in lookup-insert l k _ m.groups ∙ rw (p, other) refl),
      λ d. rw other (unfold remove_member in refl),
    )
  ]
]

abbrev Gone : ℕ → Option Manager → Type 0
Gone c none = Unit {0}
Gone c (some n) = (lookup c n.by_character ≡ none) × (lookup c n.invites ≡ none)

clear-Gone : (m : Manager) (c : ℕ) → Inv m → c ≢ 0 → Gone c (clear_for_character m c)
unfolding clear_for_character
clear-Gone m c v nz =
    if-cases (Gone c) (c == 0) (λ z. absurd (nz (ground arith)))
      λ _. elim (Option-cases (lookup c m.by_character)) [
        | inl e ↦ rw (e, clear_for_character) (e, ground (arith, lookup-erase c c m.invites))
        | inr (l, e) ↦ elim (Option-cases (lookup l m.groups)) [
          | inl p ↦ cc (v.placed c l e)
          | inr (g, p) ↦
              rw (e, clear_for_character)
                (if-cases (Gone c) (l == c)
                  (λ own.
                    let m' = drop_invite m c in
                    let (at, _, left) = disbanded m' l g (drop_invite-Inv m c v) p in
                    (ground (arith, at c), ground (arith, left c, lookup-erase c c m.invites)))
                  λ other.
                    rw (p, clear_group)
                      (unfold remove_member in
                        (
                          ground (arith, lookup-erase c c m.by_character),
                          ground (arith, lookup-erase c c m.invites),
                        )))
        ]
      ]

-- After `ClearForCharacter` in a consistent manager a character with an id other than 0 has no
-- group and no invite, no group lists it, and no invite names it as the leader.
pub clear_forgets :
    (m n : Manager) (c : ℕ)
    → Inv m
    → c ≢ 0
    → clear_for_character m c ≡ some n
    → (of_character n c ≡ none)
      × (pending_invite n c ≡ none)
      × ((l : ℕ) (g : Group) → lookup l n.groups ≡ some g → is_member g c ≡ false)
      × ((d : ℕ) (i : Invite) → lookup d n.invites ≡ some i → i.leader_id ≢ c)
unfolding of_character pending_invite is_member
clear_forgets m n c v nz e =
    let w : Inv n = rw e at (clear-Inv m c v) in
    let gone : (lookup c n.by_character ≡ none) × (lookup c n.invites ≡ none) =
      rw e at (clear-Gone m c v nz) in
    (
      ground arith,
      ground arith,
      λ l g p. ground (arith, w.agree l g c p),
      λ d i p q. leaderless w gone.0 (ground (arith, w.invited d i p)),
    )
  where
    leaderless : Inv n → lookup c n.by_character ≡ none → has c n.groups ≡ true → ⊥
    leaderless w gone h = elim (Option-cases (lookup c n.groups)) [
      | inl p ↦ cc
      | inr (g, p) ↦ ground (arith, w.agree c g c p, w.led c g p)
    ]
