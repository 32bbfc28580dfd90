-- ===== src/Base/Tests.antt =====
-- Boolean tests on numbers, conditionals, equality as an interface, and outcomes that may panic.
use Prim.Native.Nat.{ℕ, ◌<◌, compare, Ordering}
use mathlib.Core.Path.{◌≡◌, refl}
use mathlib.Core.Logic.{◌↔◌, ◌⊎◌, inl, inr, ◌≢◌}
use mathlib.Core.Bool.{Bool, true, false, ◌&&◌}
use mathlib.Core.Option.{Option, none, some}
use mathlib.Core.List.{List, [], ◌∷◌}
use native.Mathlib.Omega.{arith}

abbrev pub ltb : ℕ → ℕ → Bool
ltb a b = elim (compare a b) [ Ordering.lt ↦ true | _ ↦ false ]

abbrev pub leb : ℕ → ℕ → Bool
leb a b = elim (compare a b) [ Ordering.gt ↦ false | _ ↦ true ]

abbrev pub nat_beq : ℕ → ℕ → Bool
nat_beq a b = elim (compare a b) [ Ordering.eq ↦ true | _ ↦ false ]

infix 1 if◌then◌else◌
abbrev pub if◌then◌else◌ {ℓ} : {A : Type ℓ} → Bool → A → A → A
if true then x else y = x
if false then x else y = y

pub ltb→lt : (a b : ℕ) → ltb a b ≡ true → a < b
ltb→lt a b h = ground arith

pub lt→ltb : (a b : ℕ) → a < b → ltb a b ≡ true
lt→ltb a b h = ground arith

pub nat_beq_iff : (a b : ℕ) → (nat_beq a b ≡ true) ↔ (a ≡ b)
nat_beq_iff a b = ground arith

pub Bool-cases : (b : Bool) → (b ≡ true) ⊎ (b ≡ false)
Bool-cases true = inl refl
Bool-cases false = inr refl

pub none-ne-some : {A : Type 0} (a : A) → none ≢ some a
none-ne-some a e = cc

pub true-ne-false : true ≢ false
true-ne-false e = cc

pub Option-cases {ℓ} : {A : Type ℓ} (o : Option A) → (o ≡ none) ⊎ ((a : A) × (o ≡ some a))
Option-cases none = inl refl
Option-cases (some a) = inr (a, refl)

-- A type whose values Go compares with `==`, as it does the keys of a map.
pub record Key {ℓ} (K : Type ℓ) : Type ℓ where
  pub same : K → K → Bool
  pub same_iff : (j k : K) → (same j k ≡ true) ↔ (j ≡ k)

instance abbrev pub number_Key : Key ℕ
number_Key = record { same = nat_beq; same_iff = nat_beq_iff }

infix 50 ◌==◌
abbrev pub ◌==◌ {ℓ} : {K : Type ℓ} ⦃e : Key K⦄ → K → K → Bool
◌==◌ ⦃e⦄ j k = e.same j k

-- Byte strings and texts are lists of numbers.
abbrev pub Bytes : Type 0
Bytes = List ℕ

-- `bytes.Equal`, and `==` on strings.
unfoldable pub bytes_beq : Bytes → Bytes → Bool
bytes_beq [] [] = true
bytes_beq [] (y ∷ ys) = false
bytes_beq (x ∷ xs) [] = false
bytes_beq (x ∷ xs) (y ∷ ys) = nat_beq x y && bytes_beq xs ys

bytes_beq→eq : (a b : Bytes) → bytes_beq a b ≡ true → a ≡ b
unfolding bytes_beq
bytes_beq→eq [] [] h = refl
bytes_beq→eq [] (y ∷ ys) h = cc
bytes_beq→eq (x ∷ xs) [] h = cc
bytes_beq→eq (x ∷ xs) (y ∷ ys) h = ground (arith, bytes_beq→eq xs ys)

pub bytes_beq_refl : (a : Bytes) → bytes_beq a a ≡ true
unfolding bytes_beq
bytes_beq_refl [] = refl
bytes_beq_refl (x ∷ xs) = ground (arith, bytes_beq_refl xs)

eq→bytes_beq : (a b : Bytes) → a ≡ b → bytes_beq a b ≡ true
eq→bytes_beq a b h = rw h (bytes_beq_refl b)

pub bytes_beq_iff : (a b : Bytes) → (bytes_beq a b ≡ true) ↔ (a ≡ b)
bytes_beq_iff a b = (bytes_beq→eq a b, eq→bytes_beq a b)

instance abbrev pub bytes_Key : Key Bytes
bytes_Key = record { same = bytes_beq; same_iff = bytes_beq_iff }

-- What a call comes to: a value, or a run-time panic.
pub data Outcome {ℓ} (A : Type ℓ) : Type ℓ where
  done : A → Outcome A
  panic : Outcome A

infixl 5 ◌>>=◌
abbrev pub ◌>>=◌ {ℓ κ} : {A : Type ℓ} {B : Type κ} → Outcome A → (A → Outcome B) → Outcome B
done a >>= f = f a
panic >>= f = panic

-- A value with Go's `error` in its place.
pub data Result {ℓ κ} (E : Type ℓ) (A : Type κ) : Type (ℓ ⊔ κ) where
  ok : A → Result E A
  err : E → Result E A

pub Result-cases {ℓ κ} :
    {E : Type ℓ} {A : Type κ} (r : Result E A) → ((a : A) × (r ≡ ok a)) ⊎ ((e : E) × (r ≡ err e))
Result-cases (ok a) = inl (a, refl)
Result-cases (err e) = inr (e, refl)

-- A step whose outcome goes on to a value has an outcome itself.
pub >>=-eq-done :
    {A B : Type 0} (o : Outcome A) (f : A → Outcome B) (b : B)
    → (o >>= f) ≡ done b
    → (a : A) × (o ≡ done a) × (f a ≡ done b)
>>=-eq-done (done a) f b h = (a, refl, h)
>>=-eq-done panic f b h = cc
