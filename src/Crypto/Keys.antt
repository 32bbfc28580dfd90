-- ===== src/Crypto/Keys.antt =====
-- Key pairs that `FromPrivateKey` makes: what they sign verifies, and their text leads back to them.
use noise.Base.{
  ◌<◌, All, Bytes, arith, length, ok, true, ◌≡◌, Option-cases, Result-cases, inl, inr, subst,
  Result,
}
use native.Mathlib.Decide.{ℕ_discrete}
use noise.Base.Hex.{hex_decode, hex_decode-hex_encode}
use noise.Crypto.{
  from_private_key_bytes, SignaturePolicy, HashPolicy, KeyPair, private_key_hex, sign,
  from_private_key, verify,
}

ok_injective : {F A : Type 0} (a b : A) (r : Result F A) → r ≡ ok a → r ≡ ok b → a ≡ b
ok_injective a b r e f = cc

-- What a signature scheme promises of a key pair that it generated; other keys of its size may not
-- be genuine.
pub record Lawful {E : Type 0} (sp : SignaturePolicy E) (k : KeyPair) : Type 0 where
  pub public_size : length k.public_key ≡ sp.public_key_size
  pub verifies :
      (message : Bytes)
      → sp.verify_with k.public_key message (sp.sign_with k.private_key message) ≡ true

module _ {E : Type 0} (sp : SignaturePolicy E) where
  -- A key pair of the policy.
  pub record IsKeyPair (k : KeyPair) : Type 0 where
    pub sized : length k.private_key ≡ sp.private_key_size
    pub paired : sp.private_to_public k.private_key ≡ ok k.public_key

  from_private_key_bytes-IsKeyPair :
      (raw : Bytes) (k : KeyPair) → from_private_key_bytes sp raw ≡ ok k → IsKeyPair k
  unfolding from_private_key_bytes
  from_private_key_bytes-IsKeyPair raw k e = elim (ℕ_discrete (length raw) sp.private_key_size) [
    | no wrong ↦ absurd (ground (arith, e))
    | yes size ↦ elim (Result-cases (sp.private_to_public raw)) [
      | inr (x, bad) ↦ absurd (ground (arith, e, bad))
      | inl (public, good) ↦
          let made : from_private_key_bytes sp raw
              ≡ ok (record { private_key = raw; public_key = public }) =
            ground (arith, good, size) in
          let same : (record { private_key = raw; public_key = public }) ≡ k =
            ok_injective _ k (from_private_key_bytes sp raw) made e in
          subst IsKeyPair same (record { sized = size; paired = good })
    ]
  ]

  -- A key pair that FromPrivateKey returns is one of the policy: its private key has the policy's
  -- size, and its public key is the one of the private key.
  pub from_private_key-IsKeyPair :
      (text : Bytes) (k : KeyPair) → from_private_key sp text ≡ ok k → IsKeyPair k
  unfolding from_private_key
  from_private_key-IsKeyPair text k e = elim (Option-cases (hex_decode text)) [
    | inl bad ↦ absurd (ground (arith, e, bad))
    | inr (raw, h) ↦ from_private_key_bytes-IsKeyPair raw k (ground (arith, e, h))
  ]

  -- A key pair of the policy for which the signature scheme keeps its promise signs every message,
  -- and Verify accepts the signature.
  pub verify-sign :
      (hp : HashPolicy) (k : KeyPair) (message : Bytes)
      → Lawful sp k
      → IsKeyPair k
      → (signature : Bytes) × (sign sp hp k message ≡ ok signature)
        × (verify sp hp k.public_key message signature ≡ true)
  unfolding sign verify
  verify-sign hp k message law p = (
    sp.sign_with k.private_key (hp.hash_bytes message),
    ground (arith, p.sized),
    ground (arith, law.public_size, law.verifies (hp.hash_bytes message)),
  )

  -- For a key pair of the policy whose private key is bytes, FromPrivateKey of its PrivateKeyHex
  -- is the key pair.
  pub from_private_key-private_key_hex :
      (k : KeyPair)
      → IsKeyPair k
      → All (λ b. b < 256) k.private_key
      → from_private_key sp (private_key_hex k) ≡ ok k
  unfolding from_private_key from_private_key_bytes private_key_hex
  from_private_key-private_key_hex k p small =
      rw (hex_decode-hex_encode k.private_key small, from_private_key)
        (ground (arith, p.sized, p.paired))
