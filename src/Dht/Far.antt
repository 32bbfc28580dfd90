-- ===== src/Dht/Far.antt =====
-- The XOR distance of two keys as a number, the first byte the highest, and the order of `Less` on
-- distances of peer/identity.go.
use native.Mathlib.Nat.{pow-suc}
use Prim.Native.Nat.{bit_xor}
use noise.Peer.Distance.{IsPair, length-xor_bytes, xor_bytes-IsBytes}
use noise.Dht.{closer}
use noise.Peer.{IsBytes, PeerId, bytes_lt, less, xor_bytes, xor_id}
use noise.Base.{
  Bool-cases, Bytes, [], arith, false, inl, inr, length, ltb, ℕ, ◌*◌, ◌+◌, ◌<◌, ◌^◌, ◌∙◌, ◌∷◌, ◌≡◌,
  ◌≤◌, sym, ap, refl,
}

-- The number that the exclusive or of two keys is.
unfoldable pub distance : Bytes → Bytes → ℕ
distance [] ys = 0
distance (x ∷ xs) [] = 0
distance (x ∷ xs) (y ∷ ys) = bit_xor x y * 256 ^ length xs + distance xs ys

-- The number that bytes are.
number : Bytes → ℕ
number [] = 0
number (b ∷ bs) = b * 256 ^ length bs + number bs

distance-number :
    (xs ys : Bytes) → length xs ≡ length ys → distance xs ys ≡ number (xor_bytes xs ys)
unfolding distance number xor_bytes
distance-number [] ys e = refl
distance-number (x ∷ xs) [] e = absurd (omega (arith, e))
distance-number (x ∷ xs) (y ∷ ys) e =
    rw (length-xor_bytes xs ys, distance-number xs ys (omega (arith, e))) refl

above : (b w u : ℕ) → b < 256 → u < w → b * w + u < 256 * w
above b w u h k = grind arith

number-lt : (bs : Bytes) → IsBytes bs → number bs < 256 ^ length bs
unfolding number
number-lt [] h = omega arith
number-lt (b ∷ bs) (h, hs) =
    omega
      (arith, above b (256 ^ length bs) (number bs) h (number-lt bs hs), pow-suc 256 (length bs))

step_lt : (x y w u v : ℕ) → x < y → u < w → x * w + u ≤ y * w + v
step_lt x y w u v h k = grind arith

-- A string of bytes that is not above another is no greater a number.
number-le :
    (xs ys : Bytes)
    → length xs ≡ length ys
    → IsBytes xs
    → bytes_lt ys xs ≡ false
    → number xs ≤ number ys
unfolding number bytes_lt
number-le [] ys e h l = omega arith
number-le (x ∷ xs) [] e h l = absurd (omega (arith, e))
number-le (x ∷ xs) (y ∷ ys) e (h, hs) l =
    let same : length xs ≡ length ys = omega (arith, e) in
    let weight : 256 ^ length xs ≡ 256 ^ length ys = ap (λ (n : ℕ). 256 ^ n) same in
    elim (Bool-cases (ltb x y)) [
      | inl lower ↦ rw (← weight) (
          step_lt x y (256 ^ length xs) (number xs) (number ys) (ground (arith, lower))
            (number-lt xs hs))
      | inr no_lower ↦
          let equal : x ≡ y = ground (arith, no_lower, l) in
          let rest = number-le xs ys same hs (ground (arith, no_lower, l)) in
          rw (← weight, equal) (omega (arith, rest))
    ]

-- How far a peer is from a target.
abbrev pub far : PeerId → PeerId → ℕ
far target p = distance p.id target.id

pub closer-far :
    (t p q : PeerId) → IsPair p t → IsPair q t → closer t q p ≡ false → far t p ≤ far t q
unfolding closer less xor_id
closer-far t p q v w h =
    let a = distance-number p.id t.id v.same_length in
    let b = distance-number q.id t.id w.same_length in
    omega (
      arith,
      a,
      b,
      number-le (xor_bytes p.id t.id) (xor_bytes q.id t.id)
          (length-xor_bytes p.id t.id
            ∙ v.same_length
            ∙ sym w.same_length
            ∙ sym (length-xor_bytes q.id t.id))
          (xor_bytes-IsBytes p.id t.id v.left_bytes v.right_bytes) h,
    )
