-- ===== src/Policies/Tests.antt =====
-- A package whose keys are constant bytes, with signatures that are the message.
use noise.Crypto.{KeyPair, sign, verify}
use noise.Policies.{
  Ed25519Package, Documented, random_key_pair, ed25519, noop, random_key_pair-verify,
}
use noise.Base.{
  Bytes, [], bytes_beq, bytes_beq_refl, done, length, ok, refl, replicate, subst, true, ℕ, ◌∷◌, ◌≡◌,
  Result,
}

abbrev constant : Ed25519Package ℕ
constant = record {
  generate_key = λ random. ok (replicate 32 7, replicate 64 9);
  public_of = λ k. replicate 32 7;
  sign_message = λ k message. message;
  verify_message = λ public message signature. bytes_beq message signature;
}

same_pair :
    (a b c d : Bytes) (r : Result ℕ (Bytes × Bytes))
    → r ≡ ok (a, b)
    → r ≡ ok (c, d)
    → (a ≡ c) × (b ≡ d)
same_pair a b c d r e f = (cc, cc)

constant-Documented : Documented constant
constant-Documented = record {
  sizes = λ random public private e.
      let (p, q) =
        same_pair (replicate 32 7) (replicate 64 9) public private (constant.generate_key random)
          refl e in
      (
        subst (λ (bs : Bytes). length bs ≡ 64) q refl,
        subst (λ (bs : Bytes). length bs ≡ 32) p refl,
      );
  public_half = λ random public private e.
      (same_pair (replicate 32 7) (replicate 64 9) public private (constant.generate_key random)
        refl e).0;
  signs = λ random public private message e. bytes_beq_refl message;
}

abbrev pair : KeyPair
pair = record { private_key = replicate 64 9; public_key = replicate 32 7 }

made : random_key_pair constant [] ≡ done pair
unfolding random_key_pair
made = refl

random_key_pair-verify_example :
    (signature : Bytes) × (sign (ed25519 constant) noop pair (5 ∷ []) ≡ ok signature)
    × (verify (ed25519 constant) noop (replicate 32 7) (5 ∷ []) signature ≡ true)
random_key_pair-verify_example =
    random_key_pair-verify constant noop [] pair (5 ∷ []) constant-Documented made
