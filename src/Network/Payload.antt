-- ===== src/Network/Payload.antt =====
-- `PrepareMessage` of a sender and `dispatchMessage` of a receiver, network/network.go: the payload of
-- a message.
use noise.Network.Registry.{Encodes, IsRegistry, empty_message-load}
use noise.Network.Dispatch.{decode, empty_message}
use noise.Base.Maps.{load}
use noise.Base.{
  bytes_Key, number_Key, ◌≡◌, Bool-cases, Bytes, Option, Outcome, Result, Result-cases, arith, done,
  false, inl, inr, none, ok, refl, some, ℕ, subst, Option-cases, [], length, ltb, ◌∙◌, ap, ◌∷◌,
  >>=-eq-done,
}
use noise.Client.{Proto}
use noise.Crypto.{sign}
use noise.Network.Context.{Context, get_sign_message}
use noise.Network.Messages.{Opcodes, prepare_with, sender_of, unsigned_message, signed_message}
use noise.Network.State.{Network, World, NetworkError}
use noise.Opcode.{Fault, get_opcode}
use noise.Wire.{Message, serialize_message}

module _ {M L E : Type 0} (w : World M L E) where
  -- What a prepared message holds of its payload.
  pub record Carries (opcodes : Opcodes M) (message : Proto M) (msg : Message) : Type 0 where
    pub known : get_opcode w.type_of w.marshal w.clone opcodes message ≡ (msg.opcode, none)
    pub encoded : w.marshal message ≡ ok msg.message
    pub no_request : msg.request_nonce ≡ 0
    pub no_reply : msg.reply_flag ≡ false

module _ {M P L E : Type 0} (w : World M L E) (net : Network M P L) (ctx : Context)
    (opcodes : Opcodes M) (message : Proto M) (msg : Message) where
  -- The outcome with the message.
  abbrev the_result : Message → Outcome (Result (NetworkError E) Message)
  the_result m = done (ok m)

  plainly :
      (code : ℕ) (raw : Bytes)
      → get_opcode w.type_of w.marshal w.clone opcodes message ≡ (code, none)
      → w.marshal message ≡ ok raw
      → Carries w opcodes message (unsigned_message net code raw)
  unfolding unsigned_message
  plainly code raw g m = record { known = g; encoded = m; no_request = refl; no_reply = refl }

  plainly_signed :
      (code : ℕ) (raw signature : Bytes)
      → get_opcode w.type_of w.marshal w.clone opcodes message ≡ (code, none)
      → w.marshal message ≡ ok raw
      → Carries w opcodes message
          (record (unsigned_message net code raw) { signature = some signature })
  unfolding unsigned_message
  plainly_signed code raw signature g m = record {
    known = g;
    encoded = m;
    no_request = refl;
    no_reply = refl;
  }

  made :
      (m : Message)
      → Carries w opcodes message m
      → done (ok m) ≡ the_result msg
      → Carries w opcodes message msg
  made m c e = subst (Carries w opcodes message) (cc) c

  signed_with :
      (code : ℕ) (raw bytes : Bytes)
      → get_opcode w.type_of w.marshal w.clone opcodes message ≡ (code, none)
      → w.marshal message ≡ ok raw
      → signed_message w net code raw bytes ≡ done (ok msg)
      → Carries w opcodes message msg
  unfolding signed_message
  signed_with code raw bytes g m h =
      elim (Result-cases (sign w.signature_policy w.hash_policy net.keys bytes)) [
        | inr (e, s) ↦ absurd (ground (arith, s, h))
        | inl (signature, s) ↦
            made (record (unsigned_message net code raw) { signature = some signature })
              (plainly_signed code raw signature g m) (ground (arith, s, h))
      ]

  pub prepare_with-Carries :
      (r : ℕ × Option (Fault E))
      → get_opcode w.type_of w.marshal w.clone opcodes message ≡ r
      → prepare_with w net ctx message r ≡ done (ok msg)
      → Carries w opcodes message msg
  unfolding prepare_with
  prepare_with-Carries (code, some e) g h = cc
  prepare_with-Carries (code, none) g h = elim (Result-cases (w.marshal message)) [
    | inr (e, m) ↦ absurd (ground (arith, m, h))
    | inl (raw, m) ↦ elim (Bool-cases (get_sign_message ctx)) [
      | inr plain ↦
          made (unsigned_message net code raw) (plainly code raw g m) (ground (arith, m, plain, h))
      | inl signed ↦
          let e =
            >>=-eq-done (serialize_message (sender_of net.id) raw) (signed_message w net code raw)
              (ok msg) (ground (arith, m, signed, h)) in
          signed_with code raw e.0 g m e.2
    ]
  ]

no_bytes : (bs : Bytes) → ltb 0 (length bs) ≡ false → bs ≡ []
no_bytes [] h = refl
no_bytes (b ∷ bs) h = absurd (ground (arith, h))

module _ {M L E : Type 0} (w : World M L E) where
  known_code :
      (opcodes : Opcodes M) (message : Proto M) (code : ℕ)
      → get_opcode w.type_of w.marshal w.clone opcodes message ≡ (code, none)
      → load (w.type_of message) opcodes.msg_tbl ≡ some code
  unfolding get_opcode
  known_code opcodes message code g =
      elim (Option-cases (load (w.type_of message) opcodes.msg_tbl)) [
        | inl missing ↦ ground (arith, missing, g)
        | inr (c, e) ↦ ground (arith, e, g)
      ]

  decoded :
      (opcodes : Opcodes M) (message e : Proto M) (msg : Message)
      → Encodes w
      → empty_message w opcodes msg.opcode ≡ some e
      → w.type_of e ≡ w.type_of message
      → w.marshal e ≡ ok []
      → w.marshal message ≡ ok msg.message
      → decode w opcodes msg ≡ some message
  unfolding decode
  decoded opcodes message e msg p found same empty m =
      elim (Bool-cases (ltb 0 (length msg.message))) [
        | inl full ↦ ground (arith, found, full, p.reads e message msg.message same m)
        | inr bare ↦ ground (
          arith,
          found,
          bare,
          p.one_empty e message same empty (m ∙ ap ok (no_bytes msg.message bare)),
        )
      ]

  -- A payload is read back.
  pub decode-Carries :
      (opcodes : Opcodes M) (message : Proto M) (msg : Message)
      → Encodes w
      → IsRegistry w opcodes
      → get_opcode w.type_of w.marshal w.clone opcodes message ≡ (msg.opcode, none)
      → w.marshal message ≡ ok msg.message
      → decode w opcodes msg ≡ some message
  decode-Carries opcodes message msg p v g m =
      let (m0, l, t) =
        v.agree.leads (w.type_of message) msg.opcode (known_code opcodes message msg.opcode g) in
      let (e, found, t', empty) = empty_message-load w opcodes msg.opcode m0 p v l in
      decoded opcodes message e msg p found (t' ∙ t) empty m
