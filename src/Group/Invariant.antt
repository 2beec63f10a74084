-- ===== src/Group/Invariant.antt =====
-- The consistency of the three maps of internal/group/manager.go, and which methods keep it.
use Prim.Native.String.{String}
use wheel_mud.Base.{
  ℕ, ◌≤◌, ◌≡◌, ◌≢◌, refl, ◌⊎◌, inl, inr, Bool, true, false, Option, none, some, [], ◌∷◌, arith, leb,
  ◌==◌, Option-cases, Bool-cases,
}
use wheel_mud.Base.Dict.{
  lookup, insert, erase, size, has, lookup-insert, lookup-erase, lookup-drop_where,
  lookup-erase_all-keys, size-insert, size-erase,
}
use wheel_mud.Group.Defs.{
  Group, Invite, Manager, max_group_size, ensure_group, drop_invite, accept_into, remove_member,
  disband_locked,
}

abbrev pub is_at : ℕ → Option ℕ → Bool
is_at l none = false
is_at l (some k) = k == l

-- `groups` is keyed by the leader, who is a member; no group is over its capacity; a character is
-- listed in a group exactly when `by_character` sends it to that group's leader; and neither
-- `by_character` nor an invite names a leader without a group.
pub record Inv (m : Manager) : Type 0 where
  pub led :
      (l : ℕ) (g : Group)
      → lookup l m.groups ≡ some g
      → (g.leader ≡ l) × (has l g.members ≡ true) × (size g.members ≤ max_group_size)
  pub agree :
      (l : ℕ) (g : Group) (c : ℕ)
      → lookup l m.groups ≡ some g
      → has c g.members ≡ is_at l (lookup c m.by_character)
  pub placed : (c l : ℕ) → lookup c m.by_character ≡ some l → has l m.groups ≡ true
  pub invited : (c : ℕ) (i : Invite) → lookup c m.invites ≡ some i → has i.leader_id m.groups ≡ true

pub disband_locked-Inv : (m : Manager) (l : ℕ) → Inv m → Inv (disband_locked m l).0
unfolding disband_locked
disband_locked-Inv m l v = elim (Option-cases (lookup l m.groups)) [
  | inl e ↦ rw (e, disband_locked) v
  | inr (g, e) ↦
      rw (e, disband_locked)
        (record {
          led = λ k h p. ground (arith, lookup-erase l k m.groups, v.led k h);
          agree = λ k h c p. ground (
            arith,
            lookup-erase l k m.groups,
            lookup-erase_all-keys g.members c m.by_character,
            v.agree k h c,
            v.agree l g c e,
          );
          placed = λ c k p. ground (
            arith,
            lookup-erase l k m.groups,
            lookup-erase_all-keys g.members c m.by_character,
            v.placed c k,
            v.agree l g c e,
          );
          invited = λ c i p. ground (
            arith,
            lookup-erase l i.leader_id m.groups,
            lookup-drop_where (λ (inv : Invite). inv.leader_id == l) c m.invites,
            v.invited c i,
          );
        })
]

pub drop_invite-Inv : (m : Manager) (c : ℕ) → Inv m → Inv (drop_invite m c)
drop_invite-Inv m c v = record {
  led = v.led;
  agree = v.agree;
  placed = v.placed;
  invited = λ j i p. ground (arith, lookup-erase c j m.invites, v.invited j i);
}

pub remove_member-Inv :
    (m : Manager) (l : ℕ) (g : Group) (c : ℕ)
    → Inv m
    → lookup l m.groups ≡ some g
    → has c g.members ≡ true
    → c ≢ l
    → Inv (remove_member m l g c)
unfolding remove_member
remove_member-Inv m l g c v e member other =
    let g' : Group = record g { members = erase c g.members } in
    record {
      led = λ k h p. ground (
        arith,
        lookup-insert l k g' m.groups,
        lookup-erase c k g.members,
        size-erase c g.members,
        v.led k h,
        v.led k g,
      );
      agree = λ k h j p. ground (
        arith,
        lookup-insert l k g' m.groups,
        lookup-erase c j g.members,
        lookup-erase c j m.by_character,
        v.agree k h j,
        v.agree l g j e,
        v.agree l g c e,
      );
      placed = λ j k p.
          ground
            (arith, lookup-insert l k g' m.groups, lookup-erase c j m.by_character, v.placed j k);
      invited = λ j i p. ground (arith, lookup-insert l i.leader_id g' m.groups, v.invited j i);
    }

-- An ungrouped character becomes the sole member of a group of its own.
pub ensure_group-Inv :
    (m : Manager) (l : ℕ) (name : String) (now : ℕ)
    → Inv m
    → (lookup l m.by_character ≡ none) ⊎ (lookup l m.by_character ≡ some l)
    → Inv (ensure_group m l name now).0
unfolding ensure_group
ensure_group-Inv m l name now v free = elim (Option-cases (lookup l m.groups)) [
  | inr (g, e) ↦ rw (e, ensure_group) v
  | inl e ↦
      let g : Group = record { leader = l; members = (l, name) ∷ []; created = now } in
      let lone : (j : ℕ) → has j g.members ≡ (l == j) = λ j. unfold lookup in ground arith in
      let one : size g.members ≡ 1 = unfold size in refl in
      rw (e, ensure_group)
        (record {
          led =
              λ k h p. ground (arith, lookup-insert l k g m.groups, lone l, lone k, one, v.led k h);
          agree = λ k h j p. ground (
            arith,
            lookup-insert l k g m.groups,
            lookup-insert l j l m.by_character,
            lone j,
            v.agree k h j,
            v.placed j l,
            v.placed l l,
          );
          placed = λ j k p. ground (
            arith,
            lookup-insert l k g m.groups,
            lookup-insert l j l m.by_character,
            v.placed j k,
          );
          invited = λ j i p. ground (arith, lookup-insert l i.leader_id g m.groups, v.invited j i);
        })
]

-- The invitee joins the group that the invite names.
pub accept_into-Inv :
    (m : Manager) (c : ℕ) (name : String) (i : Invite)
    → Inv m
    → lookup c m.by_character ≡ none
    → Inv (accept_into m c name i (lookup i.leader_id m.groups)).0
unfolding accept_into
accept_into-Inv m c name i v free = elim (Option-cases (lookup i.leader_id m.groups)) [
  | inl e ↦ rw (e, accept_into) (drop_invite-Inv m c v)
  | inr (g, e) ↦ elim (Bool-cases (leb max_group_size (size g.members))) [
    | inl full ↦ rw (e, accept_into) (rw full v)
    | inr room ↦ rw (e, accept_into) (rw room (joined g e room))
  ]
]
  where
    joined :
        (g : Group)
        → lookup i.leader_id m.groups ≡ some g
        → leb max_group_size (size g.members) ≡ false
        → Inv (record {
          groups = insert i.leader_id (record g { members = insert c name g.members }) m.groups;
          by_character = insert c i.leader_id m.by_character;
          invites = erase c m.invites;
        })
    joined g e room =
        let l = i.leader_id in
        let g' : Group = record g { members = insert c name g.members } in
        record {
          led = λ k h p. ground (
            arith,
            lookup-insert l k g' m.groups,
            lookup-insert c k name g.members,
            size-insert c name g.members,
            v.led k h,
            v.led k g,
          );
          agree = λ k h j p. ground (
            arith,
            lookup-insert l k g' m.groups,
            lookup-insert c j name g.members,
            lookup-insert c j l m.by_character,
            v.agree k h j,
            v.agree l g j e,
          );
          placed = λ j k p. ground (
            arith,
            lookup-insert l k g' m.groups,
            lookup-insert c j l m.by_character,
            v.placed j k,
          );
          invited = λ j h p. ground (
            arith,
            lookup-insert l h.leader_id g' m.groups,
            lookup-erase c j m.invites,
            v.invited j h,
          );
        }
