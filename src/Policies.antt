-- ===== src/Policies.antt =====
-- crypto/ed25519/ed25519.go, crypto/blake2b/blake2b.go and crypto/noop/noop.go: the policies. What
-- they call, crypto/ed25519/base.go, which is Go's own package, and BLAKE2b, are parameters.
mod Tests
use noise.Crypto.Keys.{Lawful, IsKeyPair}
use noise.Base.{
  Bytes, List, Bool, Outcome, Result, Result-cases, [], arith, done, err, false, if◌then◌else◌, inl,
  inr, length, nat_beq, ok, panic, true, ℕ, ◌≡◌, ap, refl, subst, sym, ◌∙◌,
}
use noise.Crypto.{SignaturePolicy, HashPolicy, KeyPair, sign, verify}
use noise.Crypto.Keys.{Lawful, IsKeyPair, verify-sign}

-- `GenerateKey` on what the source of random bytes gives, as public and private key; `Public`, `Sign`
-- and `Verify`.
pub record Ed25519Package (E : Type 0) : Type 0 where
  pub generate_key : Bytes → Result E (Bytes × Bytes)
  pub public_of : Bytes → Bytes
  pub sign_message : Bytes → Bytes → Bytes
  pub verify_message : Bytes → Bytes → Bytes → Bool

-- `PrivateKeySize` and `PublicKeySize`.
abbrev pub ed25519_private_key_size : ℕ
ed25519_private_key_size = 64

abbrev pub ed25519_public_key_size : ℕ
ed25519_public_key_size = 32

module _ {E : Type 0} (pkg : Ed25519Package E) where
  -- `Ed25519`, as a `SignaturePolicy`.
  unfoldable pub ed25519 : SignaturePolicy E
  ed25519 = record {
    private_key_size = ed25519_private_key_size;
    private_to_public = λ k. ok (pkg.public_of k);
    public_key_size = ed25519_public_key_size;
    sign_with = λ k message.
        if nat_beq (length k) ed25519_private_key_size then pkg.sign_message k message else [];
    verify_with = λ public message signature.
        if nat_beq (length public) ed25519_public_key_size
        then pkg.verify_message public message signature
        else false;
  }

  -- `GenerateKeys`: the private key and the public one.
  unfoldable pub generate_keys : Bytes → Result E (Bytes × Bytes)
  generate_keys random = elim (pkg.generate_key random) [
    | err e ↦ err e
    | ok (public, private) ↦ ok (private, public)
  ]

  unfoldable pub random_key_pair : Bytes → Outcome KeyPair
  random_key_pair random = elim (pkg.generate_key random) [
    | err e ↦ panic
    | ok (public, private) ↦ done (record { private_key = private; public_key = public })
  ]

  -- What the package's documentation says of the keys that it generates.
  pub record Documented : Type 0 where
    pub sizes :
        (random public private : Bytes)
        → pkg.generate_key random ≡ ok (public, private)
        → (length private ≡ ed25519_private_key_size) × (length public ≡ ed25519_public_key_size)
    pub public_half :
        (random public private : Bytes)
        → pkg.generate_key random ≡ ok (public, private)
        → pkg.public_of private ≡ public
    pub signs :
        (random public private message : Bytes)
        → pkg.generate_key random ≡ ok (public, private)
        → pkg.verify_message public message (pkg.sign_message private message) ≡ true

  random_key_pair-generate_key :
      (random public private : Bytes) (k : KeyPair)
      → pkg.generate_key random ≡ ok (public, private)
      → random_key_pair random ≡ done k
      → record { private_key = private; public_key = public } ≡ k
  unfolding random_key_pair
  random_key_pair-generate_key random public private k e r =
      let same : done (record { private_key = private; public_key = public }) ≡ done k =
        sym (rw (e, random_key_pair) refl) ∙ r in
      cc

  random_key_pair-Lawful :
      (random : Bytes) (k : KeyPair)
      → Documented
      → random_key_pair random ≡ done k
      → Lawful ed25519 k × IsKeyPair ed25519 k
  unfolding random_key_pair ed25519
  random_key_pair-Lawful random k d e = elim (Result-cases (pkg.generate_key random)) [
    | inr (x, bad) ↦ absurd (ground (arith, bad, e))
    | inl ((public, private), made) ↦
        let (long, short) = d.sizes random public private made in
        let p : nat_beq (length private) 64 ≡ true = ground (arith, long) in
        let q : nat_beq (length public) 32 ≡ true = ground (arith, short) in
        subst (λ k. Lawful ed25519 k × IsKeyPair ed25519 k)
          (random_key_pair-generate_key random public private k made e)
          (
            record {
              public_size = short;
              verifies = λ message. rw (p, q) (d.signs random public private message made);
            },
            record { sized = long; paired = ap ok (d.public_half random public private made) },
          )
  ]

  -- Where the ed25519 package does what it documents of the keys that it generates, a key pair of
  -- RandomKeyPair signs every message under the Ed25519 policy, and Verify accepts the signature.
  pub random_key_pair-verify :
      (hp : HashPolicy) (random : Bytes) (k : KeyPair) (message : Bytes)
      → Documented
      → random_key_pair random ≡ done k
      → (signature : Bytes) × (sign ed25519 hp k message ≡ ok signature)
        × (verify ed25519 hp k.public_key message signature ≡ true)
  random_key_pair-verify hp random k message d e =
      let (law, paired) = random_key_pair-Lawful random k d e in
      verify-sign ed25519 hp k message law paired

-- `Blake2b`, over the hash of the package that it calls, and `Noop`.
unfoldable pub blake2b : (Bytes → Bytes) → HashPolicy
blake2b sum256 = record { hash_bytes = sum256 }

unfoldable pub noop : HashPolicy
noop = record { hash_bytes = λ bytes. bytes }
