-- ===== src/Crypto/Tests.antt =====
-- A policy whose public keys are the private keys, with signatures that carry the key.
use noise.Crypto.Keys.{Lawful, from_private_key-private_key_hex, IsKeyPair}
use noise.Crypto.{
  sign, SignaturePolicy, HashPolicy, KeyPair, from_private_key, verify, private_key_size_err,
  private_key_hex, from_private_key_bytes,
}
use noise.Base.{◌++◌, [], arith, bytes_beq, bytes_beq_refl, err, ok, refl, ℕ, ◌∷◌, ◌≡◌}
use noise.Base.Hex.{hex_encode, hex_decode}

program : Unit {0}
unfolding sign verify from_private_key from_private_key_bytes hex_encode hex_decode bytes_beq
    private_key_hex
program = tt

abbrev toy : SignaturePolicy ℕ
toy = record {
  private_key_size = 2;
  private_to_public = λ k. ok k;
  public_key_size = 2;
  sign_with = λ k message. k ++ message;
  verify_with = λ public message signature. bytes_beq (public ++ message) signature;
}

abbrev same_hash : HashPolicy
same_hash = record { hash_bytes = λ bs. bs }

abbrev pair : KeyPair
pair = record { private_key = 1 ∷ 255 ∷ []; public_key = 1 ∷ 255 ∷ [] }

toy-Lawful : Lawful toy pair
toy-Lawful = record { public_size = refl; verifies = λ message. bytes_beq_refl (1 ∷ 255 ∷ message) }

pair-IsKeyPair : IsKeyPair toy pair
pair-IsKeyPair = record { sized = refl; paired = refl }

wrong_size : from_private_key toy (48 ∷ 49 ∷ []) ≡ err private_key_size_err
unfolding program
wrong_size = refl

from_private_key-private_key_hex_example : from_private_key toy (private_key_hex pair) ≡ ok pair
from_private_key-private_key_hex_example =
    from_private_key-private_key_hex toy pair pair-IsKeyPair (omega arith, (omega arith, tt))
