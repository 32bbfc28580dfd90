-- ===== src/Wire/Words.antt =====
-- The four bytes of a number lead back to it.
use noise.Base.{◌++◌, ◌<◌, Bytes, arith, ℕ, ◌≡◌}
use noise.Wire.{le32, be32, from_be32}

pub from_be32-be32 : (v : ℕ) (rest : Bytes) → v < 4294967296 → from_be32 (be32 v ++ rest) ≡ v
unfolding be32 from_be32
from_be32-be32 v rest h = omega arith

pub le32_injective : (v w : ℕ) → v < 4294967296 → w < 4294967296 → le32 v ≡ le32 w → v ≡ w
unfolding le32
le32_injective v w hv hw e = grind arith
