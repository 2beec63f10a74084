-- ===== src/Combat/Refs.antt =====
-- internal/combat/actor.go: references to combatants, and Go maps keyed by them as association lists.
use mathlib.Core.Option
use wheel_mud.Base.{
  ℕ, ◌≡◌, ◌↔◌, refl, Bool, true, false, ◌&&◌, ◌||◌, Option, none, some, List, [], ◌∷◌, arith, ◌==◌,
  if◌then◌else◌,
}

pub data ActorKind : Type 0 where
  unknown character mob : ActorKind

pub record ActorRef : Type 0 where
  pub kind : ActorKind
  pub id : ℕ

abbrev pub same_kind : ActorKind → ActorKind → Bool
same_kind unknown unknown = true
same_kind character character = true
same_kind mob mob = true
same_kind _ _ = false

pub same_kind_iff : (a b : ActorKind) → (same_kind a b ≡ true) ↔ (a ≡ b)
same_kind_iff unknown unknown = (λ h. refl, λ e. refl)
same_kind_iff a b = (λ h. ground arith, λ e. ground arith)

unfoldable pub same_ref : ActorRef → ActorRef → Bool
same_ref a b = same_kind a.kind b.kind && a.id == b.id

pub same_ref_iff : (a b : ActorRef) → (same_ref a b ≡ true) ↔ (a ≡ b)
unfolding same_ref
same_ref_iff a b = (
  λ h. ground (arith, h, same_kind_iff a.kind b.kind),
  λ e. ground (arith, e, same_kind_iff a.kind b.kind),
)

pub same_ref_self : (a : ActorRef) → same_ref a a ≡ true
same_ref_self a = (same_ref_iff a a).1 refl

abbrev pub RefMap {ℓ} : Type ℓ → Type ℓ
RefMap V = List (ActorRef × V)

-- A set of combatants.
abbrev pub member : ActorRef → List ActorRef → Bool
member r [] = false
member r (x ∷ xs) = same_ref x r || member r xs

module _ {ℓ} {V : Type ℓ} where
  unfoldable pub lookup : ActorRef → RefMap V → Option V
  lookup k [] = none
  lookup k ((j, v) ∷ m) = if same_ref j k then some v else lookup k m

  unfoldable pub insert : ActorRef → V → RefMap V → RefMap V
  insert k v [] = (k, v) ∷ []
  insert k v ((j, w) ∷ m) = if same_ref j k then (k, v) ∷ m else (j, w) ∷ insert k v m

  unfoldable pub erase : ActorRef → RefMap V → RefMap V
  erase k [] = []
  erase k ((j, w) ∷ m) = let rest = erase k m in if same_ref j k then rest else (j, w) ∷ rest

  pub lookup-insert :
      (at key : ActorRef) (new : V) (d : RefMap V)
      → lookup key (insert at new d) ≡ (if same_ref at key then some new else lookup key d)
  unfolding insert lookup
  lookup-insert at key new [] = refl
  lookup-insert at key new ((x, old) ∷ more) = ground (
    arith,
    lookup-insert at key new more,
    same_ref_iff x at,
    same_ref_iff x key,
    same_ref_iff at key,
  )

  pub lookup-erase :
      (at key : ActorRef) (d : RefMap V)
      → lookup key (erase at d) ≡ (if same_ref at key then none else lookup key d)
  unfolding erase lookup
  lookup-erase at key [] = ground arith
  lookup-erase at key ((x, old) ∷ more) =
      ground (
        arith,
        lookup-erase at key more,
        same_ref_iff x at,
        same_ref_iff x key,
        same_ref_iff at key,
      )

  -- Every value is changed in its place.
  unfoldable pub each : (V → V) → RefMap V → RefMap V
  each f [] = []
  each f ((j, v) ∷ m) = (j, f v) ∷ each f m

  pub lookup-each :
      (f : V → V) (key : ActorRef) (d : RefMap V)
      → lookup key (each f d) ≡ Option.map f (lookup key d)
  unfolding each lookup
  lookup-each f key [] = refl
  lookup-each f key ((x, v) ∷ d) = ground (arith, lookup-each f key d)
