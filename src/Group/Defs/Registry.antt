-- ===== src/Group/Defs/Registry.antt =====
-- The types of internal/group/manager.go and errors.go, and the methods that only read the manager.
use Prim.Native.String.{String}
use wheel_mud.Base.{ℕ, Bool, true, false, ◌||◌, Option, none, some, [], ◌==◌, if◌then◌else◌}
use wheel_mud.Base.Dict.{Dict, lookup, has}

pub record Group : Type 0 where
  pub leader : ℕ
  pub members : Dict String
  pub created : ℕ

pub record Invite : Type 0 where
  pub leader_id : ℕ
  pub leader_name : String
  pub sent : ℕ

pub record Manager : Type 0 where
  pub groups : Dict Group
  pub by_character : Dict ℕ
  pub invites : Dict Invite

pub data GroupError : Type 0 where
  already_grouped full not_in_group not_leader no_invite self_invite invitee_busy : GroupError

pub data Result {ℓ} (A : Type ℓ) : Type ℓ where
  ok : A → Result A
  err : GroupError → Result A

abbrev pub max_group_size : ℕ
max_group_size = 6

unfoldable pub is_member : Group → ℕ → Bool
is_member g char_id = has char_id g.members

unfoldable pub new : Manager
new = record { groups = []; by_character = []; invites = [] }

-- `copyGroup` copies a group field by field: as a value the copy is the group.
abbrev pub copy_group : Group → Group
copy_group g = record { leader = g.leader; members = g.members; created = g.created }

copy_by_member : Manager → ℕ → Option Group
copy_by_member m char_id = elim (lookup char_id m.by_character) [
  | none ↦ none
  | some leader_id ↦ elim (lookup leader_id m.groups) [ none ↦ none | some g ↦ some (copy_group g) ]
]

unfoldable pub of_character : Manager → ℕ → Option Group
unfolding copy_by_member
of_character m char_id = copy_by_member m char_id

abbrev same_leader : Option ℕ → Option ℕ → Bool
same_leader (some la) (some lb) = la == lb
same_leader _ _ = false

unfoldable pub same_group : Manager → ℕ → ℕ → Bool
same_group m a b =
    if a == 0 || b == 0
    then false
    else if a == b
    then true
    else same_leader (lookup a m.by_character) (lookup b m.by_character)

unfoldable pub pending_invite : Manager → ℕ → Option (ℕ × String)
pending_invite m invitee_id = elim (lookup invitee_id m.invites) [
  | none ↦ none
  | some inv ↦ some (inv.leader_id, inv.leader_name)
]
