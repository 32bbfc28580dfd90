-- ===== src/Base/Sort.antt =====
-- `sort.Slice` and `sort.SliceStable`, as insertion by a Boolean order: entries that the order does
-- not tell apart keep their places.
use noise.Base.Tests.{if◌then◌else◌, Bool-cases}
use noise.Base.Lists.{length, All, Any, take, drop}
use Prim.Native.Nat.{ℕ, zero, suc}
use mathlib.Core.Bool.{Bool, true, false}
use mathlib.Core.Path.{◌≡◌, refl}
use mathlib.Core.Logic.{inl, inr}
use mathlib.Core.List.{List, [], ◌∷◌, Perm}
use mathlib.Core.List.Perm
use native.Mathlib.Omega.{arith}

-- The entries that pass a Boolean test.
unfoldable pub keep {ℓ} : {A : Type ℓ} → (A → Bool) → List A → List A
keep p [] = []
keep p (x ∷ xs) = if p x then x ∷ keep p xs else keep p xs

-- No entry is below one that stands before it.
abbrev pub IsSorted {ℓ} : {A : Type ℓ} → (A → A → Bool) → List A → Type 0
IsSorted less [] = Unit {0}
IsSorted less (x ∷ xs) = All (λ y. less y x ≡ false) xs × IsSorted less xs

module _ {ℓ} {A : Type ℓ} (less : A → A → Bool) where
  unfoldable pub insert : A → List A → List A
  insert x [] = x ∷ []
  insert x (y ∷ ys) = if less y x then y ∷ insert x ys else x ∷ y ∷ ys

  unfoldable pub sort : List A → List A
  unfolding insert
  sort [] = []
  sort (x ∷ xs) = insert x (sort xs)

  insert-perm : (x : A) (ys : List A) → Perm (insert x ys) (x ∷ ys)
  unfolding insert
  insert-perm x [] = Perm.refl (x ∷ [])
  insert-perm x (y ∷ ys) = elim (Bool-cases (less y x)) [
    | inl below ↦ rw below (Perm.trans (Perm.cons y (insert-perm x ys)) (Perm.swap x y ys))
    | inr here ↦ rw here (Perm.refl (x ∷ y ∷ ys))
  ]

  -- Nothing is lost, added or repeated.
  pub sort-perm : (xs : List A) → Perm (sort xs) xs
  unfolding sort
  sort-perm [] = Perm.refl []
  sort-perm (x ∷ xs) = Perm.trans (insert-perm x (sort xs)) (Perm.cons x (sort-perm xs))

  length-insert : (x : A) (ys : List A) → length (insert x ys) ≡ suc (length ys)
  unfolding insert
  length-insert x [] = refl
  length-insert x (y ∷ ys) = ground (arith, length-insert x ys)

  pub length-sort : (xs : List A) → length (sort xs) ≡ length xs
  unfolding sort
  length-sort [] = refl
  length-sort (x ∷ xs) = omega (arith, length-insert x (sort xs), length-sort xs)

  insert-All {κ} : (P : A → Type κ) (x : A) (ys : List A) → P x → All P ys → All P (insert x ys)
  unfolding insert
  insert-All P x [] h hs = (h, hs)
  insert-All P x (y ∷ ys) h hs = elim (Bool-cases (less y x)) [
    | inl below ↦ rw below (hs.0, insert-All P x ys h hs.1)
    | inr here ↦ rw here (h, hs)
  ]

  pub sort-All {κ} : (P : A → Type κ) (xs : List A) → All P xs → All P (sort xs)
  unfolding sort
  sort-All P [] h = h
  sort-All P (x ∷ xs) h = insert-All P x (sort xs) h.0 (sort-All P xs h.1)

  insert-Any : (P : A → Type 0) (x : A) (ys : List A) → Any P (x ∷ ys) → Any P (insert x ys)
  unfolding insert
  insert-Any P x [] h = h
  insert-Any P x (y ∷ ys) h = elim (Bool-cases (less y x)) [
    | inl below ↦ rw below (elim h [
      | inl p ↦ inr (insert-Any P x ys (inl p))
      | inr (inl p) ↦ inl p
      | inr (inr p) ↦ inr (insert-Any P x ys (inr p))
    ])
    | inr here ↦ rw here h
  ]

  pub sort-Any : (P : A → Type 0) (xs : List A) → Any P xs → Any P (sort xs)
  unfolding sort
  sort-Any P [] h = h
  sort-Any P (x ∷ xs) (inl p) = insert-Any P x (sort xs) (inl p)
  sort-Any P (x ∷ xs) (inr p) = insert-Any P x (sort xs) (inr (sort-Any P xs p))

  -- Entries that pass a test under which the order never tells two apart keep their order.
  module _ (p : A → Bool) (tied : (x y : A) → p x ≡ true → p y ≡ true → less y x ≡ false) where
    keep-insert : (x : A) (ys : List A) → keep p (insert x ys) ≡ keep p (x ∷ ys)
    unfolding keep insert
    keep-insert x [] = refl
    keep-insert x (y ∷ ys) = ground (arith, keep-insert x ys, tied x y)

    pub keep-sort : (xs : List A) → keep p (sort xs) ≡ keep p xs
    unfolding keep sort
    keep-sort [] = refl
    keep-sort (x ∷ xs) = ground (arith, keep-insert x (sort xs), keep-sort xs)

  module _ (asym : (x y : A) → less x y ≡ true → less y x ≡ false)
      (ntrans : (x y z : A) → less z y ≡ false → less y x ≡ false → less z x ≡ false) where
    floor_trans :
        (x y : A) (zs : List A)
        → less y x ≡ false
        → All (λ z. less z y ≡ false) zs
        → All (λ z. less z x ≡ false) zs
    floor_trans x y [] h hs = tt
    floor_trans x y (z ∷ zs) h hs = (ntrans x y z hs.0 h, floor_trans x y zs h hs.1)

    insert-IsSorted : (x : A) (ys : List A) → IsSorted less ys → IsSorted less (insert x ys)
    unfolding insert
    insert-IsSorted x [] s = (tt, tt)
    insert-IsSorted x (y ∷ ys) s = elim (Bool-cases (less y x)) [
      | inl below ↦
          rw below
            (insert-All (λ z. less z y ≡ false) x ys (asym y x below) s.0, insert-IsSorted x ys s.1)
      | inr here ↦ rw here ((here, floor_trans x y ys here s.0), s)
    ]

    pub sort-IsSorted : (xs : List A) → IsSorted less (sort xs)
    unfolding sort
    sort-IsSorted [] = tt
    sort-IsSorted (x ∷ xs) = insert-IsSorted x (sort xs) (sort-IsSorted xs)

-- In a sorted list no entry after the first n is below one of them.
pub take-drop-IsSorted {ℓ} :
    {A : Type ℓ} (less : A → A → Bool) (n : ℕ) (xs : List A)
    → IsSorted less xs
    → All (λ x. All (λ y. less y x ≡ false) (drop n xs)) (take n xs)
take-drop-IsSorted less zero xs s = tt
take-drop-IsSorted less (suc n) [] s = tt
take-drop-IsSorted {A} less (suc n) (x ∷ xs) s =
    (All-drop n xs s.0, take-drop-IsSorted less n xs s.1)
  where
    All-drop :
        (m : ℕ) (ys : List A)
        → All (λ y. less y x ≡ false) ys
        → All (λ y. less y x ≡ false) (drop m ys)
    All-drop zero ys h = h
    All-drop (suc m) [] h = tt
    All-drop (suc m) (y ∷ ys) h = All-drop m ys h.1

pub take-IsSorted {ℓ} :
    {A : Type ℓ} (less : A → A → Bool) (n : ℕ) (xs : List A)
    → IsSorted less xs
    → IsSorted less (take n xs)
take-IsSorted less zero xs s = tt
take-IsSorted less (suc n) [] s = tt
take-IsSorted {A} less (suc n) (x ∷ xs) s = (All-take' n xs s.0, take-IsSorted less n xs s.1)
  where
    All-take' :
        (m : ℕ) (ys : List A)
        → All (λ y. less y x ≡ false) ys
        → All (λ y. less y x ≡ false) (take m ys)
    All-take' zero ys h = tt
    All-take' (suc m) [] h = tt
    All-take' (suc m) (y ∷ ys) h = (h.0, All-take' m ys h.1)
