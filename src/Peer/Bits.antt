-- ===== src/Peer/Bits.antt =====
-- Identities as strings of bits, highest first: `PrefixLen` counts the leading zeros.
use noise.Base.Int.{pos}
use noise.Base.Bits.{digit, passes_below, digit-lt, passes_below_at, digit-bit_xor}
use noise.Base.{
  ℕ, suc, ◌+◌, ◌%◌, ◌<◌, ◌≡◌, List, [], ◌∷◌, Bytes, arith, nat_beq, if◌then◌else◌, ◌++◌,
  nat_beq_iff, ◌∙◌, length, All, refl, ◌*◌, none, ◌⊎◌, min, some, ◌-◌, inl, true,
}
use noise.Peer.{leading_zeros8, prefix_from, prefix_len, xor_bytes, IsBytes, PeerId, pos}

-- The eight digits of a byte.
abbrev pub byte_bits : ℕ → List ℕ
byte_bits b =
    digit 7 b
    ∷ digit 6 b
    ∷ digit 5 b
    ∷ digit 4 b
    ∷ digit 3 b
    ∷ digit 2 b
    ∷ digit 1 b
    ∷ digit 0 b
    ∷ []

pub bits : Bytes → List ℕ
bits [] = []
bits (b ∷ bs) = byte_bits b ++ bits bs

-- The zeros before the first one.
pub zeros : List ℕ → ℕ
zeros [] = 0
zeros (x ∷ xs) = if nat_beq x 0 then suc (zeros xs) else 0

-- How far two bit strings agree.
pub common_prefix : List ℕ → List ℕ → ℕ
common_prefix [] ys = 0
common_prefix (x ∷ xs) [] = 0
common_prefix (x ∷ xs) (y ∷ ys) = if nat_beq x y then suc (common_prefix xs ys) else 0

zeros-append :
    (xs ys : List ℕ)
    → zeros (xs ++ ys) ≡ (if nat_beq (zeros xs) (length xs) then length xs + zeros ys else zeros xs)
unfolding zeros
zeros-append [] ys = ground arith
zeros-append (x ∷ xs) ys = ground (arith, zeros-append xs ys)

byte_zeros_table : passes_below (λ b. nat_beq (zeros (byte_bits b)) (leading_zeros8 b)) 256 ≡ true
unfolding passes_below leading_zeros8 zeros
byte_zeros_table = refl

byte_zeros : (b : ℕ) → b < 256 → zeros (byte_bits b) ≡ leading_zeros8 b
byte_zeros b h = (nat_beq_iff _ _).0 (passes_below_at _ 256 b h byte_zeros_table)

leading_zeros8_eight : (b : ℕ) → nat_beq (leading_zeros8 b) 8 ≡ nat_beq b 0
unfolding leading_zeros8
leading_zeros8_eight b = ground arith

zeros_byte :
    (b : ℕ) (bs : Bytes)
    → b < 256
    → zeros (bits (b ∷ bs)) ≡ (if nat_beq b 0 then 8 + zeros (bits bs) else leading_zeros8 b)
unfolding bits
zeros_byte b bs h =
    zeros-append (byte_bits b) (bits bs) ∙ rw (byte_zeros b h, leading_zeros8_eight b)

pub length-bits : (bs : Bytes) → length (bits bs) ≡ length bs * 8
unfolding bits
length-bits [] = omega arith
length-bits (b ∷ bs) = omega (arith, length-bits bs)

zeros_none : zeros (bits []) ≡ 0
unfolding zeros bits
zeros_none = refl

leading_zeros8-le : (b : ℕ) → 0 < b → leading_zeros8 b < 8
unfolding leading_zeros8
leading_zeros8-le b h = ground arith

-- The loop finds the first one, and finds none where all bits are zero.
prefix_from-zeros :
    (i : ℕ) (bs : Bytes)
    → IsBytes bs
    → ((prefix_from i bs ≡ none) × (zeros (bits bs) ≡ length bs * 8))
      ⊎ ((prefix_from i bs ≡ some (i * 8 + zeros (bits bs))) × (zeros (bits bs) < length bs * 8))
unfolding prefix_from
prefix_from-zeros i [] h = inl (refl, zeros_none)
prefix_from-zeros i (b ∷ bs) h =
    ground (arith, zeros_byte b bs h.0, prefix_from-zeros (suc i) bs h.1, leading_zeros8-le b)

-- `PrefixLen` is the number of leading zero bits, but one less where all bits are zero.
pub prefix_len-zeros :
    (p : PeerId)
    → IsBytes p.id
    → 0 < length p.id
    → prefix_len p ≡ pos (min (zeros (bits p.id)) (length p.id * 8 - 1))
unfolding prefix_len
prefix_len-zeros p h pos_len = ground (arith, prefix_from-zeros 0 p.id h)

-- Bitwise sums.
zip_differ : List ℕ → List ℕ → List ℕ
zip_differ [] ys = []
zip_differ (x ∷ xs) [] = []
zip_differ (x ∷ xs) (y ∷ ys) = (x + y) % 2 ∷ zip_differ xs ys

abbrev IsBits : List ℕ → Type 0
IsBits xs = All (λ x. x < 2) xs

zeros-zip_differ :
    (xs ys : List ℕ) → IsBits xs → IsBits ys → zeros (zip_differ xs ys) ≡ common_prefix xs ys
unfolding zeros common_prefix zip_differ
zeros-zip_differ [] ys h k = refl
zeros-zip_differ (x ∷ xs) [] h k = refl
zeros-zip_differ (x ∷ xs) (y ∷ ys) h k = ground (arith, zeros-zip_differ xs ys h.1 k.1)

bits-IsBits : (bs : Bytes) → IsBits (bits bs)
unfolding bits
bits-IsBits [] = tt
bits-IsBits (b ∷ bs) = (
  digit-lt 7 b,
  (
    digit-lt 6 b,
    (
      digit-lt 5 b,
      (
        digit-lt 4 b,
        (digit-lt 3 b, (digit-lt 2 b, (digit-lt 1 b, (digit-lt 0 b, bits-IsBits bs)))),
      ),
    ),
  ),
)

bits-xor_bytes :
    (xs ys : Bytes)
    → length xs ≡ length ys
    → bits (xor_bytes xs ys) ≡ zip_differ (bits xs) (bits ys)
unfolding xor_bytes bits zip_differ
bits-xor_bytes [] ys e = refl
bits-xor_bytes (x ∷ xs) [] e = absurd (omega arith)
bits-xor_bytes (x ∷ xs) (y ∷ ys) e = rw (
  digit-bit_xor 7 x y,
  digit-bit_xor 6 x y,
  digit-bit_xor 5 x y,
  digit-bit_xor 4 x y,
  digit-bit_xor 3 x y,
  digit-bit_xor 2 x y,
  digit-bit_xor 1 x y,
  digit-bit_xor 0 x y,
  bits-xor_bytes xs ys (omega arith),
)

pub zeros-xor_bytes :
    (xs ys : Bytes)
    → length xs ≡ length ys
    → zeros (bits (xor_bytes xs ys)) ≡ common_prefix (bits xs) (bits ys)
zeros-xor_bytes xs ys e =
    rw (bits-xor_bytes xs ys e)
      (zeros-zip_differ (bits xs) (bits ys) (bits-IsBits xs) (bits-IsBits ys))
