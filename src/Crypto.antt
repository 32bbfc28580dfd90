-- ===== src/Crypto.antt =====
-- crypto/keypair.go and crypto/policy.go: key pairs over a signature policy and a hash policy. The
-- policies are interfaces; `Lawful` is what a signature scheme promises of a key pair.
pub mod Keys
mod Tests
use noise.Base.{Bool, Bytes, Result, err, false, if◌then◌else◌, length, nat_beq, none, ok, some, ℕ}
use noise.Base.Hex.{hex_encode, hex_decode}

-- `SignaturePolicy`, as far as key pairs use it.
pub record SignaturePolicy (E : Type 0) : Type 0 where
  pub private_key_size : ℕ
  pub private_to_public : Bytes → Result E Bytes
  pub public_key_size : ℕ
  pub sign_with : Bytes → Bytes → Bytes
  pub verify_with : Bytes → Bytes → Bytes → Bool

-- `HashPolicy`.
pub record HashPolicy : Type 0 where
  pub hash_bytes : Bytes → Bytes

pub record KeyPair : Type 0 where
  pub private_key : Bytes
  pub public_key : Bytes

pub data KeyError (E : Type 0) : Type 0 where
  private_key_size_err : KeyError E
  not_hex : KeyError E
  no_public_key : E → KeyError E

unfoldable pub private_key_hex : KeyPair → Bytes
private_key_hex k = hex_encode k.private_key

unfoldable pub public_key_hex : KeyPair → Bytes
public_key_hex k = hex_encode k.public_key

-- `String`.
unfoldable pub both_hex : KeyPair → Bytes × Bytes
unfolding private_key_hex public_key_hex
both_hex k = (private_key_hex k, public_key_hex k)

module _ {E : Type 0} (sp : SignaturePolicy E) where
  unfoldable pub sign : HashPolicy → KeyPair → Bytes → Result (KeyError E) Bytes
  sign hp k message =
      if nat_beq (length k.private_key) sp.private_key_size
      then ok (sp.sign_with k.private_key (hp.hash_bytes message))
      else err private_key_size_err

  unfoldable pub from_private_key_bytes : Bytes → Result (KeyError E) KeyPair
  from_private_key_bytes raw =
      if nat_beq (length raw) sp.private_key_size
      then elim (sp.private_to_public raw) [
        | ok public ↦ ok (record { private_key = raw; public_key = public })
        | err e ↦ err (no_public_key e)
      ]
      else err private_key_size_err

  unfoldable pub from_private_key : Bytes → Result (KeyError E) KeyPair
  unfolding from_private_key_bytes
  from_private_key private_key = elim (hex_decode private_key) [
    | none ↦ err not_hex
    | some raw ↦ from_private_key_bytes raw
  ]

  unfoldable pub verify : HashPolicy → Bytes → Bytes → Bytes → Bool
  verify hp public_key message signature =
      if nat_beq (length public_key) sp.public_key_size
      then sp.verify_with public_key (hp.hash_bytes message) signature
      else false
