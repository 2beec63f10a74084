-- ===== src/Group/Calls.antt =====
-- Every call of internal/group/manager.go keeps the maps consistent.
use Prim.Native.String.{String}
use wheel_mud.Base.{
  ℕ, ◌≡◌, ◌⊎◌, inl, inr, true, Option, none, some, [], ◌∷◌, arith, leb, ◌==◌, Option-cases,
  if-cases, sym,
}
use wheel_mud.Base.Dict.{lookup, size, has, lookup-insert}
use wheel_mud.Group.Defs.{
  Group, Invite, Manager, max_group_size, new, ensure_group, invite, accept, decline, drop_invite,
  remove_member, leave, kick, disband, clear_for_character, Call, invites, accepts, declines,
  leaves, kicks, disbands, clears, step, state_of, leave_group, clear_group,
}
use wheel_mud.Group.Invariant.{
  Inv, drop_invite-Inv, remove_member-Inv, ensure_group-Inv, accept_into-Inv, disband_locked-Inv,
}

abbrev Kept {ℓ} : {A : Type ℓ} → Manager × A → Type 0
Kept r = Inv r.0

-- Only leaders and ungrouped characters invite. The code does not check this.
abbrev pub IsAllowed : Manager → Call → Type 0
IsAllowed m (invites l name i opened sent) =
    (lookup l m.by_character ≡ none) ⊎ (lookup l m.by_character ≡ some l)
IsAllowed m _ = Unit

ensured :
    (m : Manager) (l : ℕ) (name : String) (now : ℕ)
    → has l (ensure_group m l name now).0.groups ≡ true
unfolding ensure_group
ensured m l name now = elim (Option-cases (lookup l m.groups)) [
  | inr (g, e) ↦ rw (e, ensure_group) (rw e)
  | inl e ↦
      let g : Group = record { leader = l; members = (l, name) ∷ []; created = now } in
      rw (e, ensure_group) (ground (arith, lookup-insert l l g m.groups))
]

invite-Inv :
    (m : Manager) (l : ℕ) (name : String) (i opened sent : ℕ)
    → Inv m
    → IsAllowed m (invites l name i opened sent)
    → Inv (invite m l name i opened sent).0
unfolding invite
invite-Inv m l name i opened sent v free =
    if-cases Kept (l == i) (λ _. v)
      λ _.
        if-cases Kept (has i m.by_character) (λ _. v)
          λ _.
            if-cases Kept (has i m.invites) (λ _. v)
              λ _.
                if-cases Kept (leb max_group_size (size (ensure_group m l name opened).1.members))
                  (λ _. w)
                  λ _. record {
                    led = w.led;
                    agree = w.agree;
                    placed = w.placed;
                    invited = λ c j p. ground (
                      arith,
                      lookup-insert i c sending (ensure_group m l name opened).0.invites,
                      w.invited c j,
                      ensured m l name opened,
                    );
                  }
  where
    sending : Invite
    sending = record { leader_id = l; leader_name = name; sent = sent }

    w : Inv (ensure_group m l name opened).0
    w = ensure_group-Inv m l name opened v free

abbrev pub Safe : Option Manager → Type 0
Safe none = ⊥
Safe (some m) = Inv m

accept-Inv : (m : Manager) (c : ℕ) (name : String) → Inv m → Inv (accept m c name).0
unfolding accept
accept-Inv m c name v = elim (Option-cases (lookup c m.invites)) [
  | inl e ↦ rw (e, accept) v
  | inr (i, e) ↦
      rw (e, accept)
        (if-cases Kept (has c m.by_character) (λ _. drop_invite-Inv m c v)
          λ free. accept_into-Inv m c name i v (ground arith))
]

decline-Inv : (m : Manager) (c : ℕ) → Inv m → Inv (decline m c).0
unfolding decline
decline-Inv m c v = if-cases Kept (has c m.invites) (λ _. drop_invite-Inv m c v) (λ _. v)

kick-Inv : (m : Manager) (l t : ℕ) → Inv m → Inv (kick m l t).0
unfolding kick
kick-Inv m l t v =
    if-cases Kept (l == t) (λ _. v)
      λ other. elim (Option-cases (lookup l m.groups)) [
        | inl e ↦ rw (e, kick) v
        | inr (g, e) ↦
            rw (e, kick)
              (if-cases Kept (has t g.members)
                (λ member. remove_member-Inv m l g t v e member (ground arith)) (λ _. v))
      ]

disband-Inv : (m : Manager) (l : ℕ) → Inv m → Inv (disband m l).0
unfolding disband
disband-Inv m l v = if-cases Kept (has l m.groups) (λ _. disband_locked-Inv m l v) (λ _. v)

-- A character that `by_character` sends to another leader can be taken out of that group.
removal :
    (m : Manager) (c l : ℕ)
    → Inv m
    → lookup c m.by_character ≡ some l
    → (l ≡ c → ⊥)
    → (g : Group) × (lookup l m.groups ≡ some g) × Inv (remove_member m l g c)
removal m c l v e other = elim (Option-cases (lookup l m.groups)) [
  | inl p ↦ cc (v.placed c l e)
  | inr (g, p) ↦
      (g, p, remove_member-Inv m l g c v p (ground (arith, v.agree l g c p)) (λ q. other (sym q)))
]

leave-Inv : (m : Manager) (c : ℕ) → Inv m → Safe (state_of (leave m c))
unfolding leave
leave-Inv m c v = elim (Option-cases (lookup c m.by_character)) [
  | inl e ↦ rw (e, leave) v
  | inr (l, e) ↦
      rw (e, leave)
        (if-cases (λ r. Safe (state_of r)) (c == l) (λ _. disband_locked-Inv m l v)
          (λ other. let (g, p, w) = removal m c l v e (ground arith) in rw (p, leave_group) w))
]

pub clear-Inv : (m : Manager) (c : ℕ) → Inv m → Safe (clear_for_character m c)
unfolding clear_for_character
clear-Inv m c v =
    if-cases Safe (c == 0) (λ _. v)
      λ _. elim (Option-cases (lookup c m.by_character)) [
        | inl e ↦ rw (e, clear_for_character) (drop_invite-Inv m c v)
        | inr (l, e) ↦
            rw (e, clear_for_character)
              (if-cases Safe (l == c)
                (λ _. disband_locked-Inv (drop_invite m c) l (drop_invite-Inv m c v))
                λ other.
                  let (g, p, w) =
                    removal (drop_invite m c) c l (drop_invite-Inv m c v) e (ground arith) in
                  rw (p, clear_group) w)
      ]

pub step-Inv : (m : Manager) (c : Call) → Inv m → IsAllowed m c → Safe (step m c)
unfolding step
step-Inv m (invites l name i opened sent) v h = invite-Inv m l name i opened sent v h
step-Inv m (accepts i name) v h = accept-Inv m i name v
step-Inv m (declines i) v h = decline-Inv m i v
step-Inv m (leaves i) v h = leave-Inv m i v
step-Inv m (disbands l) v h = disband-Inv m l v
step-Inv m (clears i) v h = clear-Inv m i v
step-Inv m (kicks l t) v h = kick-Inv m l t v

-- The managers that allowed calls lead to from the empty one.
pub data Reach : Manager → Type 0 where
  started : (m : Manager) → m ≡ new → Reach m
  called : {m n : Manager} (c : Call) → Reach m → IsAllowed m c → step m c ≡ some n → Reach n

new-Inv : Inv new
unfolding new lookup
new-Inv = record {
  led = λ l g p. cc;
  agree = λ l g c p. cc;
  placed = λ c l p. cc;
  invited = λ c i p. cc;
}

Reach-Inv : {m : Manager} → Reach m → Inv m
Reach-Inv (started m e) = rw e new-Inv
Reach-Inv (called {m = m} c r h e) = rw e at (step-Inv m c (Reach-Inv r) h)

-- In every manager that allowed calls lead to the maps are consistent, and a further allowed call
-- reads no nil pointer and leads to a consistent manager.
pub calls-Safe : {m : Manager} → Reach m → (c : Call) → IsAllowed m c → Inv m × Safe (step m c)
calls-Safe {m} r c h = (Reach-Inv r, step-Inv m c (Reach-Inv r) h)
