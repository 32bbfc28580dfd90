-- ===== src/Wire/Serialize.antt =====
-- `SerializeMessage` fills its buffer with the parts one after the other, and what it signs tells
-- the address, the key hash and the message apart.
use noise.Base.{
  ◌++◌, ◌-◌, ◌<◌, Bytes, [], ap, arith, done, length, refl, replicate, suc, zero, ℕ, ◌∷◌, ◌≡◌, ◌≤◌,
  ◌+◌, false, length-append, length-replicate, ltb, nat_beq, sym, true, ◌∙◌, ◌>>=◌, Bool, Outcome,
  append-nil, append_assoc, if◌then◌else◌, panic,
}
use noise.Wire.{overwrite, copy, put_uint32, le32, u32_mod, SenderId, serialize_message}
use native.Mathlib.Nat.{mod-eq_of_lt}
use noise.Wire.Words.{le32_injective}

overwrite_zeros :
    (n : ℕ) (src : Bytes)
    → length src ≤ n
    → overwrite (replicate n 0) src ≡ src ++ replicate (n - length src) 0
unfolding overwrite
overwrite_zeros zero [] h = refl
overwrite_zeros zero (s ∷ ss) h = absurd (omega arith)
overwrite_zeros (suc n) [] h =
    let all : suc n ≡ suc n - 0 = omega arith in ap (λ k. replicate k 0) all
overwrite_zeros (suc n) (s ∷ ss) h = ground (arith, overwrite_zeros n ss)

-- The parts so far, and zeros: the next part takes the place of as many zeros.
copy_next :
    (done_parts src : Bytes) (room : ℕ)
    → length src ≤ room
    → copy (done_parts ++ replicate room 0) (length done_parts) src
      ≡ done ((done_parts ++ src) ++ replicate (room - length src) 0)
unfolding copy
copy_next [] src room h = ap done (overwrite_zeros room src h)
copy_next (p ∷ ps) src room h = rw (copy_next ps src room h) refl

copy_at :
    (before src : Bytes) (pos room left : ℕ)
    → length before ≡ pos
    → room ≡ length src + left
    → copy (before ++ replicate room 0) pos src ≡ done ((before ++ src) ++ replicate left 0)
copy_at before src pos room left at fits =
    ap (λ k. copy (before ++ replicate room 0) k src) (sym at)
    ∙ copy_next before src room (omega arith)
    ∙ ap (λ k. done ((before ++ src) ++ replicate k 0)) (omega arith)

put_uint32_at :
    (before : Bytes) (v pos room left : ℕ)
    → v < u32_mod
    → length before ≡ pos
    → room ≡ 4 + left
    → put_uint32 (before ++ replicate room 0) pos v ≡ done ((before ++ le32 v) ++ replicate left 0)
unfolding put_uint32
put_uint32_at before v pos room left small at fits =
    let enough : length (before ++ replicate room 0) ≡ length before + room =
      length-append before (replicate room 0)
      ∙ ap (λ k. length before + k) (length-replicate room 0) in
    let run : copy (before ++ replicate room 0) pos (le32 v)
        ≡ done ((before ++ le32 v) ++ replicate left 0) =
      copy_at before (le32 v) pos room left at (fits ∙ four) in
    let fit : ltb (length (before ++ replicate room 0)) (pos + 4) ≡ false =
      ground (arith, enough) in
    rw (fit, mod-eq_of_lt small) run
  where
    four : 4 + left ≡ length (le32 v) + left
    four = unfold le32 in refl

-- What is signed.
unfoldable pub signed_parts : SenderId → Bytes → Bytes
signed_parts id message =
    le32 (length id.address) ++ (id.address ++ (le32 (length id.id) ++ (id.id ++ message)))

length-le32 : (v : ℕ) → length (le32 v) ≡ 4
unfolding le32
length-le32 v = refl

-- Five steps that all succeed.
chain :
    {A : Type 0} {o : Outcome A} {a b c d r : A} (f g h k : A → Outcome A) (last : A → Outcome A)
    → o ≡ done a
    → f a ≡ done b
    → g b ≡ done c
    → h c ≡ done d
    → k d ≡ done r
    → (o >>= λ s1. f s1 >>= λ s2. g s2 >>= λ s3. h s3 >>= λ s4. k s4 >>= λ s5. last s5) ≡ last r
chain f g h k last e1 e2 e3 e4 e5 =
    ap (λ o. o >>= λ s1. f s1 >>= λ s2. g s2 >>= λ s3. h s3 >>= λ s4. k s4 >>= λ s5. last s5) e1
    ∙ ap (λ o. o >>= λ s2. g s2 >>= λ s3. h s3 >>= λ s4. k s4 >>= λ s5. last s5) e2
    ∙ ap (λ o. o >>= λ s3. h s3 >>= λ s4. k s4 >>= λ s5. last s5) e3
    ∙ ap (λ o. o >>= λ s4. k s4 >>= λ s5. last s5) e4
    ∙ ap (λ o. o >>= λ s5. last s5) e5

-- Where the address and the key hash are shorter than 2 ^ 32 bytes, SerializeMessage never panics
-- and yields the length and bytes of the address, the length and bytes of the key hash, and the
-- message.
pub serialize_message-signed_parts :
    (id : SenderId) (message : Bytes)
    → length id.address < u32_mod
    → length id.id < u32_mod
    → serialize_message id message ≡ done (signed_parts id message)
unfolding serialize_message signed_parts
serialize_message-signed_parts id message ha hi =
    let a = length id.address in
    let i = length id.id in
    let m = length message in
    let p1 = le32 a in
    let p2 = p1 ++ id.address in
    let p3 = p2 ++ le32 i in
    let p4 = p3 ++ id.id in
    let l2 : length p2 ≡ 4 + a = length-append p1 id.address ∙ ap (λ k. k + a) (length-le32 a) in
    let l3 : length p3 ≡ 4 + a + 4 = length-append p2 (le32 i) ∙ omega (arith, l2, length-le32 i) in
    let l4 : length p4 ≡ 4 + a + 4 + i = length-append p3 id.id ∙ omega (arith, l3) in
    let e1 = put_uint32_at [] a 0 (4 + a + 4 + i + m) (a + 4 + i + m) ha refl (omega arith) in
    let e2 = copy_at p1 id.address 4 (a + 4 + i + m) (4 + i + m) (length-le32 a) (omega arith) in
    let e3 = put_uint32_at p2 i (4 + a) (4 + i + m) (i + m) hi l2 (omega arith) in
    let e4 = copy_at p3 id.id (4 + a + 4) (i + m) m l3 (omega arith) in
    let e5 = copy_at p4 message (4 + a + 4 + i) m 0 l4 (omega arith) in
    let same : nat_beq (4 + a + 4 + i + m) (4 + a + 4 + i + m) ≡ true = ground arith in
    chain (λ s. copy s 4 id.address) (λ s. put_uint32 s (4 + a) i) (λ s. copy s (4 + a + 4) id.id)
      (λ s. copy s (4 + a + 4 + i) message)
      (λ s. if nat_beq (4 + a + 4 + i + m) (4 + a + 4 + i + m) then done s else panic) e1 e2 e3 e4
      e5
    ∙ ap (λ (c : Bool). if c then done ((p4 ++ message) ++ []) else panic) same
    ∙ ap done (
        append-nil (p4 ++ message)
        ∙ append_assoc p3 id.id message
        ∙ append_assoc p2 (le32 i) (id.id ++ message)
        ∙ append_assoc p1 id.address (le32 i ++ (id.id ++ message)))

append_cancel :
    (xs ys us vs : Bytes) → length xs ≡ length ys → xs ++ us ≡ ys ++ vs → (xs ≡ ys) × (us ≡ vs)
append_cancel [] [] us vs l e = (refl, e)
append_cancel [] (y ∷ ys) us vs l e = absurd (omega arith)
append_cancel (x ∷ xs) [] us vs l e = absurd (omega arith)
append_cancel (x ∷ xs) (y ∷ ys) us vs l e =
    let tails : xs ++ us ≡ ys ++ vs = cc in
    let (h, t) = append_cancel xs ys us vs (omega arith) tails in (cc, t)

-- Where the addresses and the key hashes are shorter than 2 ^ 32 bytes, two messages with one
-- serialization have one address, one key hash and one content.
pub serialize_message_injective :
    (i j : SenderId) (m n : Bytes)
    → length i.address < u32_mod
    → length i.id < u32_mod
    → length j.address < u32_mod
    → length j.id < u32_mod
    → serialize_message i m ≡ serialize_message j n
    → (i.address ≡ j.address) × (i.id ≡ j.id) × (m ≡ n)
unfolding signed_parts
serialize_message_injective i j m n ia ii ja ji e =
    let same : done (signed_parts i m) ≡ done (signed_parts j n) =
      sym (serialize_message-signed_parts i m ia ii)
      ∙ e
      ∙ serialize_message-signed_parts j n ja ji in
    let parts : signed_parts i m ≡ signed_parts j n = cc in
    let (w1, r1) =
      append_cancel (le32 (length i.address)) (le32 (length j.address)) _ _
        (length-le32 (length i.address) ∙ sym (length-le32 (length j.address))) parts in
    let (a, r2) = append_cancel i.address j.address _ _ (le32_injective _ _ ia ja w1) r1 in
    let (w2, r3) =
      append_cancel (le32 (length i.id)) (le32 (length j.id)) _ _
        (length-le32 (length i.id) ∙ sym (length-le32 (length j.id))) r2 in
    let (h, r4) = append_cancel i.id j.id _ _ (le32_injective _ _ ii ji w2) r3 in (a, h, r4)
