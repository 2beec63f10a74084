-- ===== src/Base/Dict.antt =====
-- A Go map keyed by an integer, as an association list. `insert` is `m[k] = v`, `erase` is
-- `delete(m, k)`, `lookup` is `v, ok := m[k]`, `size` is `len(m)`. Go iterates over a map in an
-- order of its own choosing; here it is the order of insertion.
use Prim.Native.Nat.{ℕ, suc, ◌≤◌}
use mathlib.Core.Path.{◌≡◌, refl}
use mathlib.Core.Bool.{Bool}
use mathlib.Core.Option.{Option, none, some}
use mathlib.Core.List.{List, [], ◌∷◌}
use native.Mathlib.Omega.{arith}
use wheel_mud.Base.Tests.{◌==◌, if◌then◌else◌, is_some}

abbrev pub Dict {ℓ} : Type ℓ → Type ℓ
Dict V = List (ℕ × V)

module _ {ℓ} {V : Type ℓ} where
  unfoldable pub lookup : ℕ → Dict V → Option V
  lookup k [] = none
  lookup k ((j, v) ∷ m) = if j == k then some v else lookup k m

  unfoldable pub insert : ℕ → V → Dict V → Dict V
  insert k v [] = (k, v) ∷ []
  insert k v ((j, w) ∷ m) = if j == k then (k, v) ∷ m else (j, w) ∷ insert k v m

  unfoldable pub erase : ℕ → Dict V → Dict V
  erase k [] = []
  erase k ((j, w) ∷ m) = let rest = erase k m in if j == k then rest else (j, w) ∷ rest

  unfoldable pub keys : Dict V → List ℕ
  keys [] = []
  keys ((j, w) ∷ m) = j ∷ keys m

  unfoldable pub size : Dict V → ℕ
  size [] = 0
  size (e ∷ m) = suc (size m)

  -- `for k, v := range m { if p(v) { delete(m, k) } }`.
  unfoldable pub drop_where : (V → Bool) → Dict V → Dict V
  drop_where p [] = []
  drop_where p ((j, w) ∷ m) =
      let rest = drop_where p m in if p w then erase j rest else (j, w) ∷ rest

  unfoldable pub erase_all : List ℕ → Dict V → Dict V
  erase_all [] m = m
  erase_all (k ∷ ks) m = erase_all ks (erase k m)

  abbrev pub has : ℕ → Dict V → Bool
  has k m = is_some (lookup k m)

  pub lookup-insert :
      (at key : ℕ) (new : V) (d : Dict V)
      → lookup key (insert at new d) ≡ (if at == key then some new else lookup key d)
  unfolding insert lookup
  lookup-insert at key new [] = refl
  lookup-insert at key new ((x, old) ∷ more) = ground (arith, lookup-insert at key new more)

  pub lookup-erase :
      (at key : ℕ) (d : Dict V)
      → lookup key (erase at d) ≡ (if at == key then none else lookup key d)
  unfolding erase lookup
  lookup-erase at key [] = ground arith
  lookup-erase at key ((x, old) ∷ more) = ground (arith, lookup-erase at key more)

  pub size-insert :
      (k : ℕ) (v : V) (m : Dict V)
      → size (insert k v m) ≡ (if is_some (lookup k m) then size m else suc (size m))
  unfolding size insert lookup
  size-insert k v [] = refl
  size-insert k v ((i, w) ∷ m) = ground (arith, size-insert k v m)

  pub size-erase : (k : ℕ) (m : Dict V) → size (erase k m) ≤ size m
  unfolding size erase
  size-erase k [] = omega arith
  size-erase k ((i, w) ∷ m) = ground (arith, size-erase k m)

  abbrev pub unless : (V → Bool) → Option V → Option V
  unless p none = none
  unless p (some v) = if p v then none else some v

  pub lookup-drop_where :
      (p : V → Bool) (k : ℕ) (m : Dict V) → lookup k (drop_where p m) ≡ unless p (lookup k m)
  unfolding lookup drop_where
  lookup-drop_where p k [] = refl
  lookup-drop_where p k ((j, w) ∷ m) =
      ground (arith, lookup-drop_where p k m, lookup-erase j k (drop_where p m))

  pub lookup-erase_all :
      (ks : List ℕ) (j : ℕ) (m : Dict V) → lookup j m ≡ none → lookup j (erase_all ks m) ≡ none
  unfolding erase_all
  lookup-erase_all [] j m h = h
  lookup-erase_all (k ∷ ks) j m h =
      lookup-erase_all ks j (erase k m) (ground (arith, lookup-erase k j m))

-- Deleting every key of one dictionary from another.
pub lookup-erase_all-keys {ℓ κ} :
    {V : Type ℓ} {W : Type κ} (m : Dict W) (j : ℕ) (n : Dict V)
    → lookup j (erase_all (keys m) n) ≡ (if has j m then none else lookup j n)
unfolding erase_all keys lookup
lookup-erase_all-keys [] j n = refl
lookup-erase_all-keys ((k, w) ∷ m) j n = ground (
  arith,
  lookup-erase_all-keys m j (erase k n),
  lookup-erase k j n,
  lookup-erase_all (keys m) j (erase k n),
)
