-- ===== src/Peer/Order.antt =====
-- `Less` orders identities by their hashes.
use noise.Base.{◌≡◌, refl, true, false, [], ◌∷◌, Bytes, arith}
use noise.Peer.{bytes_lt}

pub bytes_lt_asym : (a b : Bytes) → bytes_lt a b ≡ true → bytes_lt b a ≡ false
unfolding bytes_lt
bytes_lt_asym [] [] h = refl
bytes_lt_asym [] (y ∷ ys) h = refl
bytes_lt_asym (x ∷ xs) [] h = cc
bytes_lt_asym (x ∷ xs) (y ∷ ys) h = ground (arith, bytes_lt_asym xs ys)

-- Being not below is transitive.
pub bytes_lt_ntrans :
    (a b c : Bytes) → bytes_lt c b ≡ false → bytes_lt b a ≡ false → bytes_lt c a ≡ false
unfolding bytes_lt
bytes_lt_ntrans [] [] [] h k = refl
bytes_lt_ntrans [] [] (z ∷ zs) h k = refl
bytes_lt_ntrans [] (y ∷ ys) [] h k = refl
bytes_lt_ntrans [] (y ∷ ys) (z ∷ zs) h k = refl
bytes_lt_ntrans (x ∷ xs) [] c h k = cc
bytes_lt_ntrans (x ∷ xs) (y ∷ ys) [] h k = cc
bytes_lt_ntrans (x ∷ xs) (y ∷ ys) (z ∷ zs) h k = ground (arith, bytes_lt_ntrans xs ys zs)

-- Two byte strings of which neither is below the other are equal.
pub bytes_lt_total : (a b : Bytes) → bytes_lt a b ≡ false → bytes_lt b a ≡ false → a ≡ b
unfolding bytes_lt
bytes_lt_total [] [] h k = refl
bytes_lt_total [] (y ∷ ys) h k = cc
bytes_lt_total (x ∷ xs) [] h k = cc
bytes_lt_total (x ∷ xs) (y ∷ ys) h k = ground (arith, bytes_lt_total xs ys)
