-- ===== src/Group/Defs.antt =====
-- The methods of internal/group/manager.go that change the manager, and those that read the members.
pub mod Registry
use Prim.Native.String.{String}
use wheel_mud.Base.{
  ℕ, Bool, true, false, ◌&&◌, ◌||◌, Option, none, some, List, [], ◌∷◌, leb, ◌==◌, if◌then◌else◌,
}
use wheel_mud.Base.Dict.{Dict, lookup, insert, erase, erase_all, keys, size, drop_where, has}
unfoldable pub use Registry.*

unfoldable pub ensure_group : Manager → ℕ → String → ℕ → Manager × Group
ensure_group m leader_id leader_name now = elim (lookup leader_id m.groups) [
  | some g ↦ (m, g)
  | none ↦
      let g : Group = record {
        leader = leader_id;
        members = (leader_id, leader_name) ∷ [];
        created = now;
      } in
      (
        record m {
          groups = insert leader_id g m.groups;
          by_character = insert leader_id leader_id m.by_character;
        },
        g,
      )
]

-- `opened` and `sent` are the two readings of the clock, in `ensureGroup` and for the invite.
unfoldable pub invite : Manager → ℕ → String → ℕ → (opened sent : ℕ) → Manager × Result (Unit {0})
invite m leader_id leader_name invitee_id opened sent =
    if leader_id == invitee_id
    then (m, err self_invite)
    else if has invitee_id m.by_character
    then (m, err already_grouped)
    else if has invitee_id m.invites
    then (m, err invitee_busy)
    else (let (m', g) = ensure_group m leader_id leader_name opened in
        if leb max_group_size (size g.members) then (m', err full) else (
          record m' {
            invites =
                insert invitee_id
                  (record { leader_id = leader_id; leader_name = leader_name; sent = sent })
                  m'.invites;
          },
          ok tt,
        ))

abbrev pub drop_invite : Manager → ℕ → Manager
drop_invite m invitee_id = record m { invites = erase invitee_id m.invites }

-- The rest of `Accept`, with the invite and the look-up of its leader's group at hand.
unfoldable pub accept_into : Manager → ℕ → String → Invite → Option Group → Manager × Result Group
accept_into m invitee_id invitee_name inv none = (drop_invite m invitee_id, err no_invite)
accept_into m invitee_id invitee_name inv (some g) =
    if leb max_group_size (size g.members)
    then (m, err full)
    else (let g' : Group = record g { members = insert invitee_id invitee_name g.members } in
        (
          record {
            groups = insert inv.leader_id g' m.groups;
            by_character = insert invitee_id inv.leader_id m.by_character;
            invites = erase invitee_id m.invites;
          },
          ok (copy_group g'),
        ))

unfoldable pub accept : Manager → ℕ → String → Manager × Result Group
unfolding accept_into
accept m invitee_id invitee_name = elim (lookup invitee_id m.invites) [
  | none ↦ (m, err no_invite)
  | some inv ↦
      if has invitee_id m.by_character
      then (drop_invite m invitee_id, err already_grouped)
      else accept_into m invitee_id invitee_name inv (lookup inv.leader_id m.groups)
]

unfoldable pub decline : Manager → ℕ → Manager × Result (Unit {0})
decline m invitee_id =
    if has invitee_id m.invites then (drop_invite m invitee_id, ok tt) else (m, err no_invite)

unfoldable pub disband_locked : Manager → ℕ → Manager × List ℕ
disband_locked m leader_id = elim (lookup leader_id m.groups) [
  | none ↦ (m, [])
  | some g ↦ (
    record {
      groups = erase leader_id m.groups;
      by_character = erase_all (keys g.members) m.by_character;
      invites = drop_where (λ inv. inv.leader_id == leader_id) m.invites;
    },
    keys g.members,
  )
]

-- `delete(g.Members, id)` and `delete(m.byCharacter, id)` through the pointer to the live group.
unfoldable pub remove_member : Manager → ℕ → Group → ℕ → Manager
remove_member m leader_id g id = record m {
  groups = insert leader_id (record g { members = erase id g.members }) m.groups;
  by_character = erase id m.by_character;
}

-- The result is whether the group was disbanded, and the ids of those in it. A by_character entry
-- with no group behind it makes Go read a nil pointer: `none`.
unfoldable pub leave_group :
    Manager → ℕ → ℕ → Option Group → Option (Manager × Result (Bool × List ℕ))
unfolding remove_member
leave_group m leader_id member_id none = none
leave_group m leader_id member_id (some g) =
    some (remove_member m leader_id g member_id, ok (false, keys (erase member_id g.members)))

unfoldable pub leave : Manager → ℕ → Option (Manager × Result (Bool × List ℕ))
unfolding leave_group
leave m member_id = elim (lookup member_id m.by_character) [
  | none ↦ some (m, err not_in_group)
  | some leader_id ↦
      if member_id == leader_id
      then (let (m', members) = disband_locked m leader_id in some (m', ok (true, members)))
      else leave_group m leader_id member_id (lookup leader_id m.groups)
]

unfoldable pub kick : Manager → ℕ → ℕ → Manager × Result (Unit {0})
unfolding remove_member
kick m leader_id target_id =
    if leader_id == target_id then (m, err not_in_group) else elim (lookup leader_id m.groups) [
      | none ↦ (m, err not_leader)
      | some g ↦
          if has target_id g.members
          then (remove_member m leader_id g target_id, ok tt)
          else (m, err not_in_group)
    ]

unfoldable pub disband : Manager → ℕ → Manager × Result (List ℕ)
disband m leader_id =
    if has leader_id m.groups
    then (let (m', members) = disband_locked m leader_id in (m', ok members))
    else (m, err not_leader)

-- A session as `MembersInRoom` reads it.
pub record SessionView : Type 0 where
  pub character_id : ℕ
  pub current_room_id : ℕ

-- The loop over the snapshot of the sessions.
unfoldable pub present : Dict String → ℕ → List SessionView → List ℕ
present members room_id [] = []
present members room_id (s ∷ ss) =
    let rest = present members room_id ss in
    if s.current_room_id == room_id && has s.character_id members
    then s.character_id ∷ rest
    else rest

abbrev pub or_asker : ℕ → List ℕ → List ℕ
or_asker char_id [] = char_id ∷ []
or_asker char_id (x ∷ xs) = x ∷ xs

-- The part under the lock ends by reading the members of the live group.
unfoldable pub room_members : ℕ → ℕ → Option (List SessionView) → Option Group → Option (List ℕ)
unfolding present
room_members char_id room_id sessions none = none
room_members char_id room_id none (some g) = some (char_id ∷ [])
room_members char_id room_id (some ss) (some g) =
    some (or_asker char_id (present g.members room_id ss))

-- `sessions` is none for a nil registry; the result is none where Go reads a nil pointer.
unfoldable pub members_in_room : Manager → ℕ → ℕ → Option (List SessionView) → Option (List ℕ)
unfolding room_members
members_in_room m char_id room_id sessions =
    if char_id == 0 then some [] else elim (lookup char_id m.by_character) [
      | none ↦ some (char_id ∷ [])
      | some leader_id ↦ room_members char_id room_id sessions (lookup leader_id m.groups)
    ]

-- `ClearForCharacter` once the invite is dropped; `none` is the nil pointer again.
unfoldable pub clear_group : Manager → ℕ → ℕ → Option Group → Option Manager
unfolding remove_member
clear_group m leader_id char_id none = none
clear_group m leader_id char_id (some g) = some (remove_member m leader_id g char_id)

unfoldable pub clear_for_character : Manager → ℕ → Option Manager
unfolding clear_group
clear_for_character m char_id =
    if char_id == 0
    then some m
    else (let m' = drop_invite m char_id in
        elim (lookup char_id m'.by_character) [
          | none ↦ some m'
          | some leader_id ↦
              if leader_id == char_id
              then some (disband_locked m' leader_id).0
              else clear_group m' leader_id char_id (lookup leader_id m'.groups)
        ])

-- The calls that change the manager, one method each; a call's result besides the manager is left
-- out. `none` is a nil pointer.
pub data Call : Type 0 where
  invites : (leader_id : ℕ) (leader_name : String) (invitee_id opened sent : ℕ) → Call
  accepts : (invitee_id : ℕ) (invitee_name : String) → Call
  declines leaves disbands clears : ℕ → Call
  kicks : (leader_id target_id : ℕ) → Call

abbrev pub state_of : Option (Manager × Result (Bool × List ℕ)) → Option Manager
state_of none = none
state_of (some (m, _)) = some m

unfoldable pub step : Manager → Call → Option Manager
step m (invites l name i opened sent) = some (invite m l name i opened sent).0
step m (accepts i name) = some (accept m i name).0
step m (declines i) = some (decline m i).0
step m (leaves i) = state_of (leave m i)
step m (disbands l) = some (disband m l).0
step m (clears i) = clear_for_character m i
step m (kicks l t) = some (kick m l t).0
