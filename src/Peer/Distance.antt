-- ===== src/Peer/Distance.antt =====
-- `XorID`: the distance between identities, and its prefix.
use noise.Peer.Bits.{common_prefix, bits, zeros, zeros-xor_bytes, prefix_len-zeros}
use noise.Base.Bits.{bit_xor-lt, bit_xor_cancel, bit_xor_comm}
use noise.Base.Int.{pos}
use noise.Base.{length, ◌<◌, Bytes, ◌≡◌, ℕ, ◌∷◌, ap, arith, min, ◌*◌, suc, ◌-◌, ◌∙◌, [], refl}
use Prim.Native.Nat.{ℕ, min, suc}
use noise.Peer.{PeerId, xor_bytes, length, xor_id, prefix_len, IsBytes, pos}

pub length-xor_bytes : (xs ys : Bytes) → length (xor_bytes xs ys) ≡ length xs
unfolding xor_bytes
length-xor_bytes [] ys = refl
length-xor_bytes (x ∷ xs) [] = ap suc (length-xor_bytes xs [])
length-xor_bytes (x ∷ xs) (y ∷ ys) = ap suc (length-xor_bytes xs ys)

pub xor_bytes-IsBytes : (xs ys : Bytes) → IsBytes xs → IsBytes ys → IsBytes (xor_bytes xs ys)
unfolding xor_bytes
xor_bytes-IsBytes [] ys h k = tt
xor_bytes-IsBytes (x ∷ xs) [] h k = (omega arith, xor_bytes-IsBytes xs [] h.1 k)
xor_bytes-IsBytes (x ∷ xs) (y ∷ ys) h k =
    (bit_xor-lt 8 x y h.0 k.0, xor_bytes-IsBytes xs ys h.1 k.1)

xor_bytes_comm :
    (xs ys : Bytes)
    → length xs ≡ length ys
    → IsBytes xs
    → IsBytes ys
    → xor_bytes xs ys ≡ xor_bytes ys xs
unfolding xor_bytes
xor_bytes_comm [] [] e h k = refl
xor_bytes_comm [] (y ∷ ys) e h k = absurd (omega arith)
xor_bytes_comm (x ∷ xs) [] e h k = absurd (omega arith)
xor_bytes_comm (x ∷ xs) (y ∷ ys) e h k =
    cc (bit_xor_comm 8 x y h.0 k.0, xor_bytes_comm xs ys (omega arith) h.1 k.1)

xor_bytes_cancel :
    (xs ys : Bytes)
    → length xs ≡ length ys
    → IsBytes xs
    → IsBytes ys
    → xor_bytes (xor_bytes xs ys) ys ≡ xs
unfolding xor_bytes
xor_bytes_cancel [] ys e h k = refl
xor_bytes_cancel (x ∷ xs) [] e h k = absurd (omega arith)
xor_bytes_cancel (x ∷ xs) (y ∷ ys) e h k =
    cc (bit_xor_cancel 8 x y h.0 k.0, xor_bytes_cancel xs ys (omega arith) h.1 k.1)

-- Two identities that share a length, over bytes.
pub record IsPair (p q : PeerId) : Type 0 where
  pub same_length : length p.id ≡ length q.id
  pub left_bytes : IsBytes p.id
  pub right_bytes : IsBytes q.id

-- For two keys of one length the XOR distance is the same in both orders.
pub xor_id_comm : (p q : PeerId) → IsPair p q → (xor_id p q).id ≡ (xor_id q p).id
unfolding xor_id
xor_id_comm p q v = xor_bytes_comm p.id q.id v.same_length v.left_bytes v.right_bytes

-- Two keys of a target's length at one XOR distance from it are one key.
pub xor_id_injective :
    (p q t : PeerId) → IsPair p t → IsPair q t → (xor_id p t).id ≡ (xor_id q t).id → p.id ≡ q.id
unfolding xor_id
xor_id_injective p q t v w e = cc (
  xor_bytes_cancel p.id t.id v.same_length v.left_bytes v.right_bytes,
  xor_bytes_cancel q.id t.id w.same_length w.left_bytes w.right_bytes,
)

-- For two keys of one length above 0, PrefixLen of XorID is the length of the common prefix of the
-- two bit strings, or the last index where they are the same.
pub prefix_len-xor_id :
    (p q : PeerId)
    → IsPair p q
    → 0 < length p.id
    → prefix_len (xor_id p q)
      ≡ pos (min (common_prefix (bits p.id) (bits q.id)) (length p.id * 8 - 1))
unfolding xor_id
prefix_len-xor_id p q v l =
    let n = length-xor_bytes p.id q.id in
    let common : zeros (bits (xor_bytes p.id q.id)) ≡ common_prefix (bits p.id) (bits q.id) =
      zeros-xor_bytes p.id q.id v.same_length in
    prefix_len-zeros (xor_id p q) (xor_bytes-IsBytes p.id q.id v.left_bytes v.right_bytes)
      (omega (arith, n))
    ∙ rw (n, common)

-- The prefix of a distance is a bucket's index.
pub prefix_len-xor_id_lt :
    (p q : PeerId)
    → IsPair p q
    → 0 < length p.id
    → (b : ℕ) × (prefix_len (xor_id p q) ≡ pos b) × (b < length p.id * 8)
prefix_len-xor_id_lt p q v l = (
  min (common_prefix (bits p.id) (bits q.id)) (length p.id * 8 - 1),
  prefix_len-xor_id p q v l,
  omega arith,
)
