-- ===== src/Network/Signed.antt =====
-- The messages of `PrepareMessage` of network/network.go under the checks of `receiveMessage`.
use noise.Base.{
  bytes_Key, number_Key, ◌<◌, Bool-cases, Bytes, Outcome, Result, arith, done, false, inl, inr,
  length, nat_beq, none, ok, refl, some, true, ℕ, ◌≡◌, ap, ◌∙◌, subst, sym, ◌>>=◌,
}
use noise.Crypto.{verify, sign}
use noise.Crypto.Keys.{Lawful, IsKeyPair, verify-sign}
use noise.Client.{Proto}
use noise.Network.Context.{Context, get_sign_message}
use noise.Network.Messages.{
  signed_message, Opcodes, prepare_message, sender_of, unsigned_message, prepare_with,
}
use noise.Network.State.{Network, World}
use noise.Opcode.{get_opcode}
use noise.Wire.{Message, check_message, serialize_message, u32_mod, WireError}
use noise.Wire.Serialize.{serialize_message-signed_parts, signed_parts}

module _ {M L E : Type 0} (w : World M L E) where
  -- The checks of a receiver with the same policies.
  unfoldable pub check : Message → Outcome (Result (WireError E) Message)
  unfolding check_message
  check =
      check_message w.marshal_message w.unmarshal_message (verify w.signature_policy w.hash_policy)

module _ {M P L E : Type 0} (w : World M L E) where
  -- A network whose identity is of its key pair, and whose address and hash have lengths of 32 bits.
  pub record HasIdentity (net : Network M P L) : Type 0 where
    pub lawful : Lawful w.signature_policy net.keys
    pub paired : IsKeyPair w.signature_policy net.keys
    pub own_key : net.id.public_key ≡ net.keys.public_key
    pub has_address : 0 < length net.id.address
    pub short_address : length net.id.address < u32_mod
    pub short_id : length net.id.id < u32_mod

  check-unsigned_message :
      (net : Network M P L) (code : ℕ) (raw : Bytes)
      → HasIdentity net
      → 0 < code
      → check w (unsigned_message net code raw) ≡ done (ok (unsigned_message net code raw))
  unfolding check check_message unsigned_message sender_of
  check-unsigned_message net code raw h p =
      let c : nat_beq code 0 ≡ false = ground arith in
      let a : nat_beq (length net.id.address) 0 ≡ false = ground (arith, h.has_address) in
      rw (c, a) refl

  check-signed_message :
      (net : Network M P L) (code : ℕ) (raw signature : Bytes)
      → HasIdentity net
      → 0 < code
      → verify w.signature_policy w.hash_policy net.id.public_key
          (signed_parts (sender_of net.id) raw)
          signature
        ≡ true
      → check w (record (unsigned_message net code raw) { signature = some signature })
        ≡ done (ok (record (unsigned_message net code raw) { signature = some signature }))
  unfolding check check_message unsigned_message sender_of
  check-signed_message net code raw signature h p v =
      let c : nat_beq code 0 ≡ false = ground arith in
      let a : nat_beq (length net.id.address) 0 ≡ false = ground (arith, h.has_address) in
      let s = serialize_message-signed_parts (sender_of net.id) raw h.short_address h.short_id in
      rw (c, a, s, v) refl

  prepare_with-signed :
      (net : Network M P L) (ctx : Context) (message : Proto M) (code : ℕ) (raw signature : Bytes)
      → serialize_message (sender_of net.id) raw ≡ done (signed_parts (sender_of net.id) raw)
      → w.marshal message ≡ ok raw
      → get_sign_message ctx ≡ true
      → sign w.signature_policy w.hash_policy net.keys (signed_parts (sender_of net.id) raw)
        ≡ ok signature
      → prepare_with w net ctx message (code, none)
        ≡ done (ok (record (unsigned_message net code raw) { signature = some signature }))
  unfolding prepare_with signed_message
  prepare_with-signed net ctx message code raw signature s m signed made =
      rw (m, signed, s, prepare_with, ◌>>=◌) (rw (made, signed_message) refl)

  -- For a network whose identity is of its key pair, for which the signature scheme keeps its
  -- promise, a message with an opcode above 0 and an encoding is prepared, signed or not, and the
  -- prepared message holds the encoding and passes the checks of a receiver with the same
  -- policies.
  pub check_message-prepare_message :
      (opcodes : Opcodes M) (net : Network M P L) (ctx : Context) (message : Proto M) (code : ℕ)
      (raw : Bytes)
      → HasIdentity net
      → get_opcode w.type_of w.marshal w.clone opcodes message ≡ (code, none)
      → 0 < code
      → w.marshal message ≡ ok raw
      → (msg : Message) × (prepare_message w opcodes net ctx (some message) ≡ done (ok msg))
        × (msg.message ≡ raw)
        × (check w msg ≡ done (ok msg))
  unfolding prepare_message prepare_with unsigned_message
  check_message-prepare_message opcodes net ctx message code raw h g p m =
      let opened : prepare_message w opcodes net ctx (some message)
          ≡ prepare_with w net ctx message (code, none) =
        ap (prepare_with w net ctx message) g in
      elim (Bool-cases (get_sign_message ctx)) [
        | inr plain ↦ (
          unsigned_message net code raw,
          opened ∙ rw (m, plain, prepare_with) refl,
          refl,
          check-unsigned_message net code raw h p,
        )
        | inl signed ↦
            let s =
              serialize_message-signed_parts (sender_of net.id) raw h.short_address h.short_id in
            let (signature, made, good) =
              verify-sign w.signature_policy w.hash_policy net.keys
                (signed_parts (sender_of net.id) raw) h.lawful h.paired in
            (
              record (unsigned_message net code raw) { signature = some signature },
              opened ∙ prepare_with-signed net ctx message code raw signature s m signed made,
              refl,
              check-signed_message net code raw signature h p (
                  subst
                    (λ k.
                      verify w.signature_policy w.hash_policy k
                        (signed_parts (sender_of net.id) raw) signature
                      ≡ true)
                    (sym h.own_key) good),
            )
      ]
