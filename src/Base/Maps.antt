-- ===== src/Base/Maps.antt =====
-- Go maps as association lists, keyed by any type with an equality test.
use mathlib.Core.Path.{◌≡◌, refl, sym, subst}
use mathlib.Core.Bool.{true}
use mathlib.Core.Logic.{inl, inr}
use mathlib.Core.List.{List, [], ◌∷◌}
use mathlib.Core.Option.{Option, none, some}
use Prim.Native.Nat.{◌+◌, ◌≤◌}
use native.Mathlib.Omega.{arith}
use go_tiny_claw.Base.Tests.{if◌then◌else◌, is_some, Bool-cases}
use go_tiny_claw.Base.Lists.{length, All}
use go_tiny_claw.Base.Equality.{Eq, ◌≟◌}

module _ {ℓ κ} {K : Type ℓ} {V : Type κ} ⦃e : Eq K⦄ where
  unfoldable pub lookup : List (K × V) → K → Option V
  lookup [] k = none
  lookup ((j, v) ∷ m) k = if j ≟ k then some v else lookup m k

  -- `m[k] = v`
  unfoldable pub insert : List (K × V) → K → V → List (K × V)
  insert [] k v = (k, v) ∷ []
  insert ((j, w) ∷ m) k v = if j ≟ k then (j, v) ∷ m else (j, w) ∷ insert m k v

  -- `delete(m, k)`
  unfoldable pub delete : List (K × V) → K → List (K × V)
  delete [] k = []
  delete ((j, w) ∷ m) k = let rest = delete m k in if j ≟ k then rest else (j, w) ∷ rest

  pub lookup-insert :
      (m : List (K × V)) (k j : K) (v : V)
      → lookup (insert m k v) j ≡ (if k ≟ j then some v else lookup m j)
  unfolding lookup insert
  lookup-insert [] k j v = refl
  lookup-insert ((i, w) ∷ m) k j v =
      ground (arith, e.beq_iff i k, e.beq_iff k j, e.beq_iff i j, lookup-insert m k j v)

  pub lookup-delete :
      (m : List (K × V)) (k j : K) → lookup (delete m k) j ≡ (if k ≟ j then none else lookup m j)
  unfolding lookup delete
  lookup-delete [] k j = ground arith
  lookup-delete ((i, w) ∷ m) k j =
      ground (arith, e.beq_iff i k, e.beq_iff k j, e.beq_iff i j, lookup-delete m k j)

  pub length-insert_le : (m : List (K × V)) (k : K) (v : V) → length (insert m k v) ≤ length m + 1
  unfolding insert
  length-insert_le [] k v = omega arith
  length-insert_le ((i, w) ∷ m) k v = ground (arith, length-insert_le m k v)

  pub length-delete_le : (m : List (K × V)) (k : K) → length (delete m k) ≤ length m
  unfolding delete
  length-delete_le [] k = omega arith
  length-delete_le ((i, w) ∷ m) k = ground (arith, length-delete_le m k)

  pub length-delete_found :
      (m : List (K × V)) (k : K) → is_some (lookup m k) ≡ true → length (delete m k) + 1 ≤ length m
  unfolding lookup delete
  length-delete_found [] k h = ground arith
  length-delete_found ((i, w) ∷ m) k h =
      ground (arith, length-delete_found m k, length-delete_le m k)

  pub insert-insert :
      (m : List (K × V)) (k : K) (v w : V) → insert (insert m k v) k w ≡ insert m k w
  unfolding insert
  insert-insert [] k v w = ground (arith, e.beq_iff k k)
  insert-insert ((i, u) ∷ m) k v w = ground (arith, e.beq_iff i k, insert-insert m k v w)

  pub insert-All {ι} :
      (P : K × V → Type ι) (m : List (K × V)) (k : K) (v : V)
      → All P m
      → P (k, v)
      → All P (insert m k v)
  unfolding insert
  insert-All P [] k v h x = (x, tt)
  insert-All P ((j, w) ∷ m) k v (h, hs) x = elim (Bool-cases (j ≟ k)) [
    | inl f ↦
        let same : k ≡ j = sym ((e.beq_iff j k).0 f) in rw f (subst (λ i. P (i, v)) same x, hs)
    | inr f ↦ rw f (h, insert-All P m k v hs x)
  ]

  pub delete-All {ι} :
      (P : K × V → Type ι) (m : List (K × V)) (k : K) → All P m → All P (delete m k)
  unfolding delete
  delete-All P [] k h = tt
  delete-All P ((j, w) ∷ m) k (h, hs) = elim (Bool-cases (j ≟ k)) [
    | inl f ↦ rw f (delete-All P m k hs)
    | inr f ↦ rw f (h, delete-All P m k hs)
  ]
