-- ===== src/Combat/Fight/Turns.antt =====
-- `sortInitiative` of internal/combat/fight.go: the order in which combatants act.
use mathlib.Core.Path.{subst}
use mathlib.Core.List.{Perm}
use mathlib.Core.List.Perm
use wheel_mud.Base.{
  ◌≤◌, ◌≡◌, ◌⊎◌, inl, inr, ◌∙◌, sym, true, false, List, [], ◌∷◌, arith, Bool-cases,
}
use wheel_mud.Base.Int.{◌<ℤ◌, ◌==ℤ◌, ==ℤ_iff}
use wheel_mud.Combat.Fight.{ActorEntry, acts_before, insert_entry, sort_initiative}

-- Nobody in the list acts before `a`.
abbrev pub NoneBefore : ActorEntry → List ActorEntry → Type 0
NoneBefore a [] = Unit
NoneBefore a (b ∷ bs) = (acts_before b a ≡ false) × NoneBefore a bs

abbrev pub InOrder : List ActorEntry → Type 0
InOrder [] = Unit
InOrder (a ∷ as') = NoneBefore a as' × InOrder as'

-- `a` does not act behind `b`.
abbrev NotBehind : ActorEntry → ActorEntry → Type 0
NotBehind a b =
    (b.initiative <ℤ a.initiative)
    ⊎ ((a.initiative ≡ b.initiative)
        × ((b.tiebreak <ℤ a.tiebreak) ⊎ ((a.tiebreak ≡ b.tiebreak) × (a.ref.id ≤ b.ref.id))))

NotBehind-trans : (a b c : ActorEntry) → NotBehind a b → NotBehind b c → NotBehind a c
NotBehind-trans a b c (inl h) (inl k) = inl (omega (arith, h, k))
NotBehind-trans a b c (inl h) (inr (e, _)) = inl (subst (λ x. x <ℤ a.initiative) e h)
NotBehind-trans a b c (inr (e, _)) (inl k) = inl (subst (λ x. c.initiative <ℤ x) (sym e) k)
NotBehind-trans a b c (inr (e, inl t)) (inr (e', inl t')) = inr (e ∙ e', inl (omega (arith, t, t')))
NotBehind-trans a b c (inr (e, inl t)) (inr (e', inr (u, i))) =
    inr (e ∙ e', inl (subst (λ x. x <ℤ a.tiebreak) u t))
NotBehind-trans a b c (inr (e, inr (u, i))) (inr (e', inl t)) =
    inr (e ∙ e', inl (subst (λ x. c.tiebreak <ℤ x) (sym u) t))
NotBehind-trans a b c (inr (e, inr (u, i))) (inr (e', inr (u', i'))) =
    inr (e ∙ e', inr (u ∙ u', omega (arith, i, i')))

NotBehind-of : (a b : ActorEntry) → acts_before b a ≡ false → NotBehind a b
unfolding acts_before
NotBehind-of a b h = elim (Bool-cases (b.initiative ==ℤ a.initiative)) [
  | inl e ↦
      let same : a.initiative ≡ b.initiative = sym ((==ℤ_iff b.initiative a.initiative).0 e) in
      elim (Bool-cases (b.tiebreak ==ℤ a.tiebreak)) [
        | inl u ↦
            inr (same, inr (sym ((==ℤ_iff b.tiebreak a.tiebreak).0 u), ground (arith, h, e, u)))
        | inr u ↦ inr (same, inl (ground (arith, h, e, u)))
      ]
  | inr e ↦ inl (ground (arith, h, e))
]

of-NotBehind : (a b : ActorEntry) → NotBehind a b → acts_before b a ≡ false
unfolding acts_before
of-NotBehind a b (inl h) = ground (arith, h)
of-NotBehind a b (inr (e, inl h)) = ground (arith, h, e)
of-NotBehind a b (inr (e, inr (u, i))) = ground (arith, e, u, i)

not_before_trans :
    (a b c : ActorEntry)
    → acts_before b a ≡ false
    → acts_before c b ≡ false
    → acts_before c a ≡ false
not_before_trans a b c h k =
    of-NotBehind a c (NotBehind-trans a b c (NotBehind-of a b h) (NotBehind-of b c k))

before_not_after : (a b : ActorEntry) → acts_before a b ≡ true → acts_before b a ≡ false
unfolding acts_before
before_not_after a b h = ground arith

NoneBefore-trans :
    (a b : ActorEntry) (l : List ActorEntry)
    → acts_before b a ≡ false
    → NoneBefore b l
    → NoneBefore a l
NoneBefore-trans a b [] h k = tt
NoneBefore-trans a b (c ∷ l) h (first, k) =
    (not_before_trans a b c h first, NoneBefore-trans a b l h k)

insert-NoneBefore :
    (a b : ActorEntry) (l : List ActorEntry)
    → acts_before a b ≡ false
    → NoneBefore b l
    → NoneBefore b (insert_entry a l)
unfolding insert_entry
insert-NoneBefore a b [] h k = (h, tt)
insert-NoneBefore a b (c ∷ l) h (first, k) = elim (Bool-cases (acts_before c a)) [
  | inl e ↦ rw (e, insert_entry) (first, insert-NoneBefore a b l h k)
  | inr e ↦ rw (e, insert_entry) (h, (first, k))
]

insert-InOrder : (a : ActorEntry) (l : List ActorEntry) → InOrder l → InOrder (insert_entry a l)
unfolding insert_entry
insert-InOrder a [] h = (tt, tt)
insert-InOrder a (b ∷ l) (first, rest) = elim (Bool-cases (acts_before b a)) [
  | inl e ↦
      rw (e, insert_entry)
        (insert-NoneBefore a b l (before_not_after b a e) first, insert-InOrder a l rest)
  | inr e ↦ rw (e, insert_entry) ((e, NoneBefore-trans a b l e first), (first, rest))
]

insert-Perm : (a : ActorEntry) (l : List ActorEntry) → Perm (insert_entry a l) (a ∷ l)
unfolding insert_entry
insert-Perm a [] = Perm.refl (a ∷ [])
insert-Perm a (b ∷ l) = elim (Bool-cases (acts_before b a)) [
  | inl e ↦ rw (e, insert_entry) (Perm.trans (Perm.cons b (insert-Perm a l)) (Perm.swap a b l))
  | inr e ↦ rw (e, insert_entry) (Perm.refl (a ∷ b ∷ l))
]

-- The order is made of the entries given, and nobody stands in it behind one who acts later: the higher
-- initiative comes first, then the higher roll, then the lower id.
pub sort_initiative_lem :
    (l : List ActorEntry) → InOrder (sort_initiative l) × Perm (sort_initiative l) l
unfolding sort_initiative
sort_initiative_lem [] = (tt, Perm.refl [])
sort_initiative_lem (a ∷ l) =
    let (sorted, same) = sort_initiative_lem l in
    (
      insert-InOrder a (sort_initiative l) sorted,
      Perm.trans (insert-Perm a (sort_initiative l)) (Perm.cons a same),
    )
