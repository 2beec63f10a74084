-- ===== src/Group/Tests.antt =====
-- Runs of internal/group/manager.go: 1 leads a group with 2 in it and has invited 3.
use wheel_mud.Base.{
  ℕ, ◌≡◌, ◌≢◌, refl, inl, inr, true, false, none, some, List, [], ◌∷◌, arith, ◌==◌, if◌then◌else◌,
}
use wheel_mud.Base.Dict.{lookup, insert, erase, erase_all, size, keys, drop_where, unless}
use wheel_mud.Group.Defs.{
  Group, Invite, Manager, ok, new, ensure_group, invite, accept, accept_into, of_character,
  is_member, pending_invite, leave, clear_for_character, disband_locked, SessionView, invites,
  accepts, leaves, step,
}
use wheel_mud.Group.Invariant.{Inv}
use wheel_mud.Group.Calls.{Reach, started, called, Safe, calls-Safe}
use wheel_mud.Group.Behaviour.{accept_joins}
use wheel_mud.Group.Leaving.{goes, group_left, ids_left, leave_lem, clear_forgets}
use wheel_mud.Group.Inviting.{member_invite_breaks}

abbrev band : Group
band = record { leader = 1; members = (1, "Rand") ∷ (2, "Mat") ∷ []; created = 10 }

abbrev asked : Invite
asked = record { leader_id = 1; leader_name = "Rand"; sent = 30 }

abbrev trio : Manager
trio = record {
  groups = (1, band) ∷ [];
  by_character = (1, 1) ∷ (2, 1) ∷ [];
  invites = (3, asked) ∷ [];
}

abbrev pair : Manager
pair = record { groups = (1, band) ∷ []; by_character = (1, 1) ∷ (2, 1) ∷ []; invites = [] }

abbrev first_invite : Manager
first_invite = record {
  groups = (1, record { leader = 1; members = (1, "Rand") ∷ []; created = 10 }) ∷ [];
  by_character = (1, 1) ∷ [];
  invites = (2, record { leader_id = 1; leader_name = "Rand"; sent = 20 }) ∷ [];
}

first_reached : Reach first_invite
unfolding new step invite ensure_group insert lookup size
first_reached = called (invites 1 "Rand" 2 10 20) (started new refl) (inl refl) refl

pair_reached : Reach pair
unfolding step accept accept_into insert lookup size erase
pair_reached = called (accepts 2 "Mat") first_reached tt refl

trio_reached : Reach trio
unfolding step invite ensure_group insert lookup size
trio_reached = called (invites 1 "Rand" 3 25 30) pair_reached (inr refl) refl

calls-Safe_example : Inv trio × Safe (step trio (leaves 2))
calls-Safe_example = calls-Safe trio_reached (leaves 2) tt

trio-Inv : Inv trio
trio-Inv = (calls-Safe trio_reached (leaves 2) tt).0

abbrev joined : Group
joined = record {
  leader = 1;
  members = (1, "Rand") ∷ (2, "Mat") ∷ (3, "Perrin") ∷ [];
  created = 10;
}

abbrev full_band : Manager
full_band = record {
  groups = (1, joined) ∷ [];
  by_character = (1, 1) ∷ (2, 1) ∷ (3, 1) ∷ [];
  invites = [];
}

perrin_joins : accept trio 3 "Perrin" ≡ (full_band, ok joined)
unfolding accept accept_into insert lookup size erase
perrin_joins = refl

accept_joins_example :
    (of_character full_band 3 ≡ some joined)
    × (is_member joined 3 ≡ true)
    × (pending_invite full_band 3 ≡ none)
    × ((d : ℕ) → d ≢ 3 → lookup d full_band.by_character ≡ lookup d trio.by_character)
accept_joins_example = accept_joins trio full_band 3 "Perrin" joined trio-Inv perrin_joins

mat_placed : lookup 2 trio.by_character ≡ some 1
unfolding lookup
mat_placed = refl

leave_lem_example :
    (n : Manager) × (leave trio 2 ≡ some (n, ok (2 == 1, ids_left 2 1 (lookup 1 trio.groups))))
    × ((d : ℕ)
        → lookup d n.by_character
          ≡ (if goes 2 1 d (lookup d trio.by_character) then none else lookup d trio.by_character))
    × ((k : ℕ)
        → lookup k n.groups
          ≡ (if 1 == k then group_left 2 1 (lookup 1 trio.groups) else lookup k trio.groups))
    × ((d : ℕ)
        → lookup d n.invites ≡ (
            if 2 == 1
            then unless (λ i. i.leader_id == 1) (lookup d trio.invites)
            else lookup d trio.invites))
leave_lem_example = leave_lem trio 2 1 trio-Inv mat_placed

abbrev rest : Manager
rest = record { groups = []; by_character = []; invites = [] }

rand_logs_out : clear_for_character trio 1 ≡ some rest
unfolding clear_for_character disband_locked erase erase_all keys drop_where lookup
rand_logs_out = refl

clear_forgets_example :
    (of_character rest 1 ≡ none)
    × (pending_invite rest 1 ≡ none)
    × ((l : ℕ) (g : Group) → lookup l rest.groups ≡ some g → is_member g 1 ≡ false)
    × ((d : ℕ) (i : Invite) → lookup d rest.invites ≡ some i → i.leader_id ≢ 1)
clear_forgets_example = clear_forgets trio rest 1 trio-Inv (omega arith) rand_logs_out

mat_invites : (invite trio 2 "Mat" 4 40 41).1 ≡ ok tt
unfolding invite ensure_group insert lookup size
mat_invites = refl

member_invite_breaks_example : ¬ Inv (invite trio 2 "Mat" 4 40 41).0
member_invite_breaks_example =
    member_invite_breaks trio 2 1 "Mat" 4 40 41 trio-Inv mat_placed (omega arith) mat_invites

abbrev nearby : List SessionView
nearby =
    record { character_id = 1; current_room_id = 7 }
    ∷ record { character_id = 2; current_room_id = 8 }
    ∷ record { character_id = 3; current_room_id = 7 }
    ∷ []
