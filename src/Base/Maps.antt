-- ===== src/Base/Maps.antt =====
-- Go's maps and `sync.Map`, as association lists: a key is bound by its first entry.
use noise.Base.Tests.{Key, ◌==◌, if◌then◌else◌}
use noise.Base.Lists.{length}
use Prim.Native.Nat.{◌≤◌}
use mathlib.Core.Path.{◌≡◌, refl}
use mathlib.Core.Logic.{◌≢◌}
use mathlib.Core.List.{List, [], ◌∷◌}
use mathlib.Core.Option.{Option, none, some}
use native.Mathlib.Omega.{arith}

module _ {ℓ κ} {K : Type ℓ} {V : Type κ} ⦃e : Key K⦄ where
  unfoldable pub load : K → List (K × V) → Option V
  load k [] = none
  load k ((j, v) ∷ m) = if k == j then some v else load k m

  unfoldable pub delete : K → List (K × V) → List (K × V)
  delete k [] = []
  delete k ((j, v) ∷ m) = if k == j then delete k m else (j, v) ∷ delete k m

  unfoldable pub store : K → V → List (K × V) → List (K × V)
  unfolding delete
  store k v m = (k, v) ∷ delete k m

  pub load-nil : (k : K) → load k [] ≡ none
  unfolding load
  load-nil k = refl

  pub load-delete :
      (j k : K) (m : List (K × V)) → load j (delete k m) ≡ (if j == k then none else load j m)
  unfolding load delete
  load-delete j k [] = ground arith
  load-delete j k ((i, w) ∷ m) =
      ground (arith, load-delete j k m, e.same_iff j k, e.same_iff k i, e.same_iff j i)

  pub load-store :
      (j k : K) (v : V) (m : List (K × V))
      → load j (store k v m) ≡ (if j == k then some v else load j m)
  unfolding load store
  load-store j k v m = ground (arith, load-delete j k m)

  pub load-store_self : (k : K) (v : V) (m : List (K × V)) → load k (store k v m) ≡ some v
  load-store_self k v m = rw (load-store k k v m, (e.same_iff k k).1 refl)

  pub load-delete_self : (k : K) (m : List (K × V)) → load k (delete k m) ≡ none
  load-delete_self k m = rw (load-delete k k m, (e.same_iff k k).1 refl)

  pub load-delete_ne : (j k : K) (m : List (K × V)) → j ≢ k → load j (delete k m) ≡ load j m
  load-delete_ne j k m h = ground (arith, load-delete j k m, e.same_iff j k)

  pub load-store_ne : (j k : K) (v : V) (m : List (K × V)) → j ≢ k → load j (store k v m) ≡ load j m
  load-store_ne j k v m h = ground (arith, load-store j k v m, e.same_iff j k)

  pub length-delete-le : (k : K) (m : List (K × V)) → length (delete k m) ≤ length m
  unfolding delete
  length-delete-le k [] = omega arith
  length-delete-le k ((j, v) ∷ m) = ground (arith, length-delete-le k m)
