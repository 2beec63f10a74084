-- ===== src/Group/Inviting.antt =====
-- Inviting (internal/group/manager.go, Invite).
use Prim.Native.String.{String}
use wheel_mud.Base.{ℕ, ◌<◌, ◌≡◌, ◌≢◌, ◌↔◌, inl, inr, none, some, [], ◌∷◌, arith, Option-cases}
use wheel_mud.Base.Dict.{lookup, size, lookup-insert}
use wheel_mud.Group.Defs.{Group, Invite, Manager, ok, ensure_group, invite}
use wheel_mud.Group.Invariant.{Inv}
use wheel_mud.Group.Defs.{max_group_size}

abbrev sends : ℕ → String → ℕ → Invite
sends l name sent = record { leader_id = l; leader_name = name; sent = sent }

ensure_group-invites :
    (m : Manager) (l : ℕ) (name : String) (now : ℕ)
    → (ensure_group m l name now).0.invites ≡ m.invites
unfolding ensure_group
ensure_group-invites m l name now = ground arith

ensure_group-size :
    (m : Manager) (l : ℕ) (name : String) (now : ℕ)
    → ((g : Group) → lookup l m.groups ≡ some g → (ensure_group m l name now).1 ≡ g)
      × (lookup l m.groups ≡ none → size (ensure_group m l name now).1.members ≡ 1)
unfolding ensure_group size
ensure_group-size m l name now = (λ g e. ground arith, λ e. ground arith)

-- An invite succeeds exactly when inviter and invitee differ, the invitee is in no group and has no
-- pending invite, and the inviter's group, if there is one, has room. Only then does the invitee
-- get the invite; the invites of all others stay as they were.
pub invite_lem :
    (m : Manager) (l : ℕ) (name : String) (i opened sent : ℕ)
    → let (n, r) = invite m l name i opened sent in
      ((r ≡ ok tt) ↔ (
        (l ≢ i)
        × (lookup i m.by_character ≡ none)
        × (lookup i m.invites ≡ none)
        × ((g : Group) → lookup l m.groups ≡ some g → size g.members < max_group_size)))
      × (r ≡ ok tt → lookup i n.invites ≡ some (sends l name sent))
      × ((r ≢ ok tt) → lookup i n.invites ≡ lookup i m.invites)
      × ((d : ℕ) → d ≢ i → lookup d n.invites ≡ lookup d m.invites)
unfolding invite
invite_lem m l name i opened sent =
    let same : (ensure_group m l name opened).0.invites ≡ m.invites =
      ensure_group-invites m l name opened in
    let put =
      λ (d : ℕ). lookup-insert i d (sends l name sent) (ensure_group m l name opened).0.invites in
    let sized = ensure_group-size m l name opened in
    (
      (
        λ h. (ground arith, ground arith, ground arith, λ g e. ground (arith, sized.0 g e)),
        λ h. elim (Option-cases (lookup l m.groups)) [
          | inl e ↦ ground (arith, sized.1 e)
          | inr (g, e) ↦ ground (arith, sized.0 g e, h.3 g e)
        ],
      ),
      λ h. ground (arith, put i),
      λ h. ground (arith, same),
      λ d ne. ground (arith, same, put d),
    )

-- A first invite founds the inviter's group.
invite-founds :
    (m : Manager) (l : ℕ) (name : String) (i opened sent k : ℕ)
    → lookup l m.groups ≡ none
    → k ≢ l
    → (invite m l name i opened sent).1 ≡ ok tt
    → (lookup k (invite m l name i opened sent).0.groups ≡ lookup k m.groups)
      × (lookup l (invite m l name i opened sent).0.by_character ≡ some l)
unfolding invite ensure_group
invite-founds m l name i opened sent k e ne h =
    let g : Group = record { leader = l; members = (l, name) ∷ []; created = opened } in
    (
      ground (arith, lookup-insert l k g m.groups),
      ground (arith, lookup-insert l l l m.by_character),
    )

-- If an invite by a member of another leader's group succeeds, then the maps are no longer
-- consistent afterwards, whatever consistent manager it starts from: the call founds a second
-- group for the member.
pub member_invite_breaks :
    (m : Manager) (l k : ℕ) (name : String) (i opened sent : ℕ)
    → Inv m
    → lookup l m.by_character ≡ some k
    → k ≢ l
    → (invite m l name i opened sent).1 ≡ ok tt
    → ¬ Inv (invite m l name i opened sent).0
member_invite_breaks m l k name i opened sent v e ne success w =
    elim (Option-cases (lookup k m.groups)) [
      | inl p ↦ cc (v.placed l k e)
      | inr (g, p) ↦ elim (Option-cases (lookup l m.groups)) [
        | inr (h, q) ↦ ground (arith, v.agree l h l q, v.led l h q)
        | inl q ↦
            let (same, moved) = invite-founds m l name i opened sent k q ne success in
            ground (arith, v.agree k g l p, w.agree k g l)
      ]
    ]
