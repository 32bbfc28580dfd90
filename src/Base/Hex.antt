-- ===== src/Base/Hex.antt =====
-- encoding/hex: `EncodeToString` and `DecodeString`.
use noise.Base.Tests.{ltb, if◌then◌else◌, Bytes, leb}
use noise.Base.Lists.{All}
use Prim.Native.Nat.{ℕ, ◌+◌, ◌-◌, ◌*◌, ◌/◌, ◌%◌, ◌<◌}
use mathlib.Core.Bool.{◌&&◌}
use mathlib.Core.Path.{◌≡◌, refl, ap}
use mathlib.Core.List.{[], ◌∷◌}
use mathlib.Core.Option.{Option, none, some}
use native.Mathlib.Omega.{arith}

-- The digit of a number below 16: '0' to '9', 'a' to 'f'.
unfoldable pub hex_digit : ℕ → ℕ
hex_digit n = if ltb n 10 then n + 48 else n + 87

unfoldable pub hex_encode : Bytes → Bytes
unfolding hex_digit
hex_encode [] = []
hex_encode (b ∷ bs) = hex_digit (b / 16) ∷ hex_digit (b % 16) ∷ hex_encode bs

-- The value of a digit, in either case.
unfoldable pub from_hex_digit : ℕ → Option ℕ
from_hex_digit c =
    if leb 48 c && leb c 57
    then some (c - 48)
    else if leb 97 c && leb c 102
    then some (c - 87)
    else if leb 65 c && leb c 70
    then some (c - 55)
    else none

pair_up : Option ℕ → Option ℕ → Option Bytes → Option Bytes
pair_up (some h) (some l) (some rest) = some ((h * 16 + l) ∷ rest)
pair_up (some h) (some l) none = none
pair_up (some h) none rest = none
pair_up none l rest = none

-- `none` stands for the two errors, an invalid byte and an odd length.
unfoldable pub hex_decode : Bytes → Option Bytes
unfolding from_hex_digit pair_up
hex_decode [] = some []
hex_decode (c ∷ []) = none
hex_decode (c ∷ d ∷ cs) = pair_up (from_hex_digit c) (from_hex_digit d) (hex_decode cs)

digit_back : (n : ℕ) → n < 16 → from_hex_digit (hex_digit n) ≡ some n
unfolding from_hex_digit hex_digit
digit_back n h = ground arith

pub hex_decode-hex_encode :
    (bs : Bytes) → All (λ b. b < 256) bs → hex_decode (hex_encode bs) ≡ some bs
unfolding hex_decode hex_encode
hex_decode-hex_encode [] h = refl
hex_decode-hex_encode (b ∷ bs) h =
    rw
      (
        digit_back (b / 16) (omega arith),
        digit_back (b % 16) (omega arith),
        hex_decode-hex_encode bs h.1,
      )
      (ap (λ (t : ℕ). some (t ∷ bs)) (omega arith))

hex_digit_injective : (m n : ℕ) → m < 16 → n < 16 → hex_digit m ≡ hex_digit n → m ≡ n
unfolding hex_digit
hex_digit_injective m n p q e = ground arith

-- Two byte strings with the same text are equal.
pub hex_encode_injective :
    (xs ys : Bytes)
    → All (λ b. b < 256) xs
    → All (λ b. b < 256) ys
    → hex_encode xs ≡ hex_encode ys
    → xs ≡ ys
hex_encode_injective xs ys p q e = cc (hex_decode-hex_encode xs p, hex_decode-hex_encode ys q)
