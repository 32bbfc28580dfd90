-- ===== src/Peer.antt =====
-- peer/identity.go: node identities and the XOR distance between them.
pub mod Bits
pub mod Order
pub mod Distance
mod Tests
use noise.Base.{
  ℕ, suc, ◌+◌, ◌-◌, ◌*◌, ◌<◌, Bool, true, false, Option, none, some, List, [], ◌∷◌, Bytes,
  bytes_beq, ltb, nat_beq, if◌then◌else◌, length, All,
}
use noise.Base.Int.{ℤ, pos, sub_ℕ}
use noise.Base.Hex.{hex_encode}
use Prim.Native.Nat.{bit_xor}

-- `ID`, which is `protobuf.ID`.
pub record PeerId : Type 0 where
  pub address : Bytes
  pub public_key : Bytes
  pub id : Bytes

-- `CreateID`; the hash is the BLAKE2b of a package outside the repository.
unfoldable pub create_id : (Bytes → Bytes) → Bytes → Bytes → PeerId
create_id hash_bytes address public_key = record {
  address = address;
  public_key = public_key;
  id = hash_bytes public_key;
}

unfoldable pub equals : PeerId → PeerId → Bool
equals p other = bytes_beq p.id other.id

-- `bytes.Compare(a, b) == -1`.
unfoldable pub bytes_lt : Bytes → Bytes → Bool
bytes_lt [] [] = false
bytes_lt [] (y ∷ ys) = true
bytes_lt (x ∷ xs) [] = false
bytes_lt (x ∷ xs) (y ∷ ys) = if ltb x y then true else if ltb y x then false else bytes_lt xs ys

-- `Less`; `none` is an argument that is no `ID`.
unfoldable pub less : PeerId → Option PeerId → Bool
less p (some other) = bytes_lt p.id other.id
less p none = false

unfoldable pub public_key_hex : PeerId → Bytes
public_key_hex p = hex_encode p.public_key

-- The loop of `Xor` and `XorID`: as long as the first argument, and 0 where the second has ended.
unfoldable pub xor_bytes : Bytes → Bytes → Bytes
xor_bytes [] ys = []
xor_bytes (x ∷ xs) [] = 0 ∷ xor_bytes xs []
xor_bytes (x ∷ xs) (y ∷ ys) = bit_xor x y ∷ xor_bytes xs ys

unfoldable pub xor : PeerId → PeerId → PeerId
xor p other = record {
  address = p.address;
  public_key = xor_bytes p.public_key other.public_key;
  id = [];
}

unfoldable pub xor_id : PeerId → PeerId → PeerId
xor_id p other = record { address = p.address; public_key = []; id = xor_bytes p.id other.id }

-- `bits.LeadingZeros8`.
unfoldable pub leading_zeros8 : ℕ → ℕ
leading_zeros8 b =
    if ltb b 1
    then 8
    else if ltb b 2
    then 7
    else if ltb b 4
    then 6
    else if ltb b 8
    then 5
    else if ltb b 16
    then 4
    else if ltb b 32
    then 3
    else if ltb b 64
    then 2
    else if ltb b 128
    then 1
    else 0

-- The loop of `PrefixLen` from index `i` on.
unfoldable pub prefix_from : ℕ → Bytes → Option ℕ
prefix_from i [] = none
prefix_from i (b ∷ bs) =
    if nat_beq b 0 then prefix_from (suc i) bs else some (i * 8 + leading_zeros8 b)

unfoldable pub prefix_len : PeerId → ℤ
unfolding prefix_from
prefix_len p = elim (prefix_from 0 p.id) [ some n ↦ pos n | none ↦ sub_ℕ (length p.id * 8) 1 ]

-- What Go's type `byte` guarantees of the model's numbers.
abbrev pub IsBytes : Bytes → Type 0
IsBytes bs = All (λ b. b < 256) bs
