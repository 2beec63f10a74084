-- ===== src/Group/Behaviour.antt =====
-- What the methods of internal/group/manager.go do for the characters, in a consistent manager.
use Prim.Native.String.{String}
use wheel_mud.Base.{ℕ, ◌≡◌, ◌≢◌, ◌↔◌, inl, inr, true, none, some, arith, Option-cases}
use wheel_mud.Base.Dict.{lookup, insert, erase, lookup-insert, lookup-erase}
use wheel_mud.Group.Defs.{
  Group, Invite, Manager, ok, err, no_invite, is_member, of_character, same_group, pending_invite,
  accept, accept_into,
}
use wheel_mud.Group.Invariant.{Inv}

-- What a successful `accept` has found, and the manager that it leaves.
accept-ok :
    (m n : Manager) (c : ℕ) (name : String) (g : Group)
    → accept m c name ≡ (n, ok g)
    → (i : Invite) × (h : Group) × (lookup c m.invites ≡ some i)
      × (lookup i.leader_id m.groups ≡ some h)
      × (lookup c m.by_character ≡ none)
      × (g ≡ record h { members = insert c name h.members })
      × (n ≡ record {
        groups = insert i.leader_id g m.groups;
        by_character = insert c i.leader_id m.by_character;
        invites = erase c m.invites;
      })
unfolding accept accept_into
accept-ok m n c name g e = ground arith

-- In a consistent manager an accepted invite puts the invitee into the group that is returned, takes
-- the invite away, and leaves the membership of everybody else as it was.
pub accept_joins :
    (m n : Manager) (c : ℕ) (name : String) (g : Group)
    → Inv m
    → accept m c name ≡ (n, ok g)
    → (of_character n c ≡ some g)
      × (is_member g c ≡ true)
      × (pending_invite n c ≡ none)
      × ((d : ℕ) → d ≢ c → lookup d n.by_character ≡ lookup d m.by_character)
unfolding of_character is_member pending_invite
accept_joins m n c name g v e =
    let (i, h, p, q, free, eg, en) = accept-ok m n c name g e in
    (
      ground (
        arith,
        lookup-insert c c i.leader_id m.by_character,
        lookup-insert i.leader_id i.leader_id g m.groups,
      ),
      ground (arith, lookup-insert c c name h.members),
      ground (arith, lookup-erase c c m.invites),
      λ d ne. ground (arith, lookup-insert c d i.leader_id m.by_character),
    )

-- In a consistent manager `accept` fails with `no_invite` exactly when there is no invite: the
-- group of a pending invite's leader is still there.
pub accept-no_invite :
    (m : Manager) (c : ℕ) (name : String)
    → Inv m
    → ((accept m c name).1 ≡ err no_invite) ↔ (pending_invite m c ≡ none)
unfolding accept accept_into pending_invite
accept-no_invite m c name v = (there, λ h. ground arith)
  where
    there : (accept m c name).1 ≡ err no_invite → pending_invite m c ≡ none
    there h = elim (Option-cases (lookup c m.invites)) [
      | inl e ↦ rw (e, pending_invite)
      | inr (i, e) ↦ ground (arith, v.invited c i e)
    ]

-- In a consistent manager, two characters with different ids other than 0 are in the same group
-- exactly when the group of the first lists the second.
pub same_group-is_member :
    (m : Manager) (a b : ℕ)
    → Inv m
    → a ≢ b
    → a ≢ 0
    → b ≢ 0
    → (same_group m a b ≡ true)
      ↔ ((g : Group) × (of_character m a ≡ some g) × (is_member g b ≡ true))
unfolding same_group of_character is_member
same_group-is_member m a b v ne za zb = elim (Option-cases (lookup a m.by_character)) [
  | inl e ↦ (λ h. ground arith, λ h. ground arith)
  | inr (l, e) ↦ elim (Option-cases (lookup l m.groups)) [
    | inl p ↦ cc (v.placed a l e)
    | inr (g, p) ↦ (
      λ h. (g, ground arith, ground (arith, v.agree l g b p)),
      λ h. ground (arith, v.agree l g b p),
    )
  ]
]
