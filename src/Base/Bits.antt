-- ===== src/Base/Bits.antt =====
-- Exclusive or of numbers: its laws at every width, from the recursion on binary digits.
use Prim.Native.Nat.{
  ℕ, zero, suc, ◌+◌, ◌*◌, ◌/◌, ◌%◌, ◌≤◌, ◌<◌, ◌^◌, digits, differ, bit_xor, bit_xor-bitwise,
}
use mathlib.Core.Path.{◌≡◌, refl, ap, ◌∙◌}
use mathlib.Core.Bool.{Bool, true, ◌&&◌}
use native.Mathlib.Omega.{arith}
use native.Mathlib.Nat.{pow-suc}

abbrev xor_digits : ℕ → ℕ → ℕ → ℕ
xor_digits n a b = digits (λ b. b) differ n a b

-- Any count of digits that reaches the first number will do.
xor_digits_fuel : (n m a b : ℕ) → a ≤ n → a ≤ m → xor_digits n a b ≡ xor_digits m a b
xor_digits_fuel zero zero a b p q = refl
xor_digits_fuel zero (suc m) zero b p q = refl
xor_digits_fuel zero (suc m) (suc a) b p q = absurd (omega arith)
xor_digits_fuel (suc n) zero zero b p q = refl
xor_digits_fuel (suc n) zero (suc a) b p q = absurd (omega arith)
xor_digits_fuel (suc n) (suc m) zero b p q = refl
xor_digits_fuel (suc n) (suc m) (suc a) b p q =
    omega (arith, xor_digits_fuel n m (suc a / 2) (b / 2) (omega arith) (omega arith))

zero-bit_xor : (b : ℕ) → bit_xor 0 b ≡ b
zero-bit_xor b = bit_xor-bitwise 0 b

differ_bit : (a b : ℕ) → a < 2 → b < 2 → differ a b ≡ (a + b) % 2
differ_bit zero zero p q = refl
differ_bit zero (suc zero) p q = refl
differ_bit (suc zero) zero p q = refl
differ_bit (suc zero) (suc zero) p q = refl
differ_bit (suc (suc a)) b p q = absurd (omega arith)
differ_bit zero (suc (suc b)) p q = absurd (omega arith)
differ_bit (suc zero) (suc (suc b)) p q = absurd (omega arith)

pub bit_xor_step : (a b : ℕ) → bit_xor a b ≡ bit_xor (a / 2) (b / 2) * 2 + (a % 2 + b % 2) % 2
bit_xor_step zero b = omega (arith, zero-bit_xor b, zero-bit_xor (b / 2))
bit_xor_step (suc a) b = omega (
  arith,
  bit_xor-bitwise (suc a) b,
  bit_xor-bitwise (suc a / 2) (b / 2),
  differ_bit (suc a % 2) (b % 2) (omega arith) (omega arith),
  xor_digits_fuel a (suc a / 2) (suc a / 2) (b / 2) (omega arith) (omega arith),
)

-- The laws below 2 ^ k, by induction on k.
module _ (k a b : ℕ) (p : a < 2 ^ suc k) (q : b < 2 ^ suc k) where
  half_left : a / 2 < 2 ^ k
  half_left = omega (arith, pow-suc 2 k)

  half_right : b / 2 < 2 ^ k
  half_right = omega (arith, pow-suc 2 k)

pub bit_xor_comm : (k a b : ℕ) → a < 2 ^ k → b < 2 ^ k → bit_xor a b ≡ bit_xor b a
bit_xor_comm zero a b p q =
    let ea : a ≡ 0 = omega arith in let eb : b ≡ 0 = omega arith in rw (ea, eb)
bit_xor_comm (suc k) a b p q = omega (
  arith,
  bit_xor_step a b,
  bit_xor_step b a,
  bit_xor_comm k (a / 2) (b / 2) (half_left k a b p q) (half_right k a b p q),
)

pub bit_xor-lt : (k a b : ℕ) → a < 2 ^ k → b < 2 ^ k → bit_xor a b < 2 ^ k
bit_xor-lt zero a b p q =
    let ea : a ≡ 0 = omega arith in let eb : b ≡ 0 = omega arith in rw (ea, eb) (omega arith)
bit_xor-lt (suc k) a b p q = omega (
  arith,
  pow-suc 2 k,
  bit_xor_step a b,
  bit_xor-lt k (a / 2) (b / 2) (half_left k a b p q) (half_right k a b p q),
)

-- A second exclusive or undoes the first.
pub bit_xor_cancel : (k a b : ℕ) → a < 2 ^ k → b < 2 ^ k → bit_xor (bit_xor a b) b ≡ a
bit_xor_cancel zero a b p q =
    let ea : a ≡ 0 = omega arith in let eb : b ≡ 0 = omega arith in rw (ea, eb)
bit_xor_cancel (suc k) a b p q =
    let low : bit_xor a b / 2 ≡ bit_xor (a / 2) (b / 2) = omega (arith, bit_xor_step a b) in
    let digit : bit_xor a b % 2 ≡ (a % 2 + b % 2) % 2 = omega (arith, bit_xor_step a b) in
    let rec : bit_xor (bit_xor (a / 2) (b / 2)) (b / 2) ≡ a / 2 =
      bit_xor_cancel k (a / 2) (b / 2) (half_left k a b p q) (half_right k a b p q) in
    omega (arith, bit_xor_step (bit_xor a b) b, digit, ap (λ (t : ℕ). bit_xor t (b / 2)) low, rec)

pub bit_xor_self : (k a : ℕ) → a < 2 ^ k → bit_xor a a ≡ 0
bit_xor_self zero a p = let ea : a ≡ 0 = omega arith in rw ea
bit_xor_self (suc k) a p =
    omega (arith, bit_xor_step a a, bit_xor_self k (a / 2) (half_left k a a p p))

-- A test on every number below a bound, run from the top.
unfoldable pub passes_below : (ℕ → Bool) → ℕ → Bool
passes_below test zero = true
passes_below test (suc top) = passes_below test top && test top

pub passes_below_at :
    (test : ℕ → Bool) (top k : ℕ) → k < top → passes_below test top ≡ true → test k ≡ true
unfolding passes_below
passes_below_at test zero k low h = absurd (omega arith)
passes_below_at test (suc top) k low h = ground (arith, passes_below_at test top k)

-- One binary digit of an exclusive or.
pub bit_xor_digits :
    (x y : ℕ)
    → (bit_xor x y % 2 ≡ (x % 2 + y % 2) % 2) × (bit_xor x y / 2 ≡ bit_xor (x / 2) (y / 2))
bit_xor_digits x y = (omega (arith, bit_xor_step x y), omega (arith, bit_xor_step x y))

-- The digit of place k.
abbrev pub digit : ℕ → ℕ → ℕ
digit zero x = x % 2
digit (suc k) x = digit k (x / 2)

pub digit-bit_xor : (k x y : ℕ) → digit k (bit_xor x y) ≡ (digit k x + digit k y) % 2
digit-bit_xor zero x y = (bit_xor_digits x y).0
digit-bit_xor (suc k) x y = ap (digit k) ((bit_xor_digits x y).1) ∙ digit-bit_xor k (x / 2) (y / 2)

pub digit-lt : (k x : ℕ) → digit k x < 2
digit-lt zero x = omega arith
digit-lt (suc k) x = digit-lt k (x / 2)
