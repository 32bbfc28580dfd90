-- ===== src/Network/Broadcast.antt =====
-- The broadcasts of network/network.go: what each address gets of a message that is written to many.
mod Tests
use noise.Base.{
  bytes_Key, number_Key, ◌<◌, ◌≤◌, ◌+◌, ◌%◌, ◌++◌, ◌≡◌, ◌≢◌, All, Bytes, List, [], ap, arith, done,
  get_elem?, none, ok, refl, some, subst, suc, sym, zero, ℕ, ◌∷◌, ◌∙◌, Option-cases, inl, inr,
  length,
}
use noise.Base.Maps.{load, load-store_ne, load-store_self}
use noise.Client.{Proto}
use noise.Crypto.{verify}
use noise.Network.Context.{Context}
use noise.Network.Messages.{
  Opcodes, numbered, prepare_message, write, write_on, write_each, broadcast_by_addresses,
}
use noise.Network.Signed.{HasIdentity, check, check_message-prepare_message}
use noise.Network.State.{ConnState, Network, World}
use noise.Opcode.{get_opcode}
use noise.Window.{u64_mod}
use noise.Wire.{Message, Segment, Writer, check_message, frame, receive_message, send_message}
use noise.Wire.Reads.{flat, Sound}
use noise.Wire.Stream.{receive_message-send_message, send_message-frame}
use noise.Network.Writes.{StandsOnce, next_nonce, load-write_each}

module _ {M L E : Type 0} (w : World M L E) where
  -- A writer takes a message whole and without an error, and protobuf encodes it as bytes that it
  -- reads back.
  pub record Passes (writer : Writer E) (message : Message) (body : Bytes) : Type 0 where
    pub flushes : writer.flush_error ≡ none
    pub takes : All (λ r. r.1 ≡ none) writer.writes
    pub encoded : w.marshal_message message ≡ ok body
    pub decoded : w.unmarshal_message body ≡ ok message
    pub some_bytes : 0 < length body
    pub few_bytes : length body ≤ 4000000

  -- What passes is read at the other end.
  receive_message-Passes :
      (writer : Writer E) (message : Message) (body more : Bytes) (conn : List Segment)
      → Passes writer message body
      → check w message ≡ done (ok message)
      → flat conn ≡ frame body ++ more
      → Sound conn
      → (left : List Segment) × (receive_message w.marshal_message w.unmarshal_message
            (verify w.signature_policy w.hash_policy)
            conn
          ≡ (done (ok message), left))
        × (flat left ≡ more)
  unfolding check
  receive_message-Passes writer message body more conn p good e sound =
      let v = verify w.signature_policy w.hash_policy in
      let framed =
        send_message-frame w.marshal_message w.unmarshal_message v writer message body p.encoded
          p.flushes p.takes in
      let (left, got, rest, still) =
        receive_message-send_message w.marshal_message w.unmarshal_message v writer message body
          more conn p.encoded p.decoded p.flushes p.takes p.some_bytes p.few_bytes
          (e ∙ ap (λ o. o.0 ++ more) (sym framed)) sound in
      (left, got ∙ ap (λ o. (o, left)) good, rest)

  -- The checks do not look at the nonce.
  check-numbered :
      (message : Message) (n : ℕ)
      → check w message ≡ done (ok message)
      → check w (numbered message n) ≡ done (ok (numbered message n))
  unfolding check check_message numbered
  check-numbered message n e = ground arith

module _ {M P L E : Type 0} (w : World M L E) where
  -- Where the network's identity is of its key pair, for which the signature scheme keeps its
  -- promise, the message has an opcode above 0 and an encoding and is prepared, an address with a
  -- connection stands once in the list, and the writer of its place takes the message with the
  -- connection's next nonce whole, BroadcastByAddresses adds its frame to what the connection got
  -- and takes that nonce, whatever the writers of the other places do; and at the other end of any
  -- connection without errors that starts with the frame, a receiver with the same policies gets
  -- the prepared message with that nonce, and what follows the frame is left.
  pub broadcast_by_addresses-Reaches :
      (writers : ℕ → Writer E) (now : ℕ) (opcodes : Opcodes M) (net : Network M P L) (ctx : Context)
      (message : Proto M) (code : ℕ) (raw : Bytes) (prepared : Message) (xs : List Bytes)
      (a : Bytes) (i : ℕ) (st : ConnState) (body more : Bytes) (conn : List Segment)
      → HasIdentity w net
      → get_opcode w.type_of w.marshal w.clone opcodes message ≡ (code, none)
      → 0 < code
      → w.marshal message ≡ ok raw
      → prepare_message w opcodes net ctx (some message) ≡ done (ok prepared)
      → StandsOnce xs a i
      → load a net.connections ≡ some st
      → Passes w (writers i) (numbered prepared (next_nonce st)) body
      → flat conn ≡ frame body ++ more
      → Sound conn
      → (net' : Network M P L) × (st' : ConnState) × (broadcast_by_addresses w writers now opcodes
            net ctx
            (some message)
            xs
          ≡ done net')
        × (load a net'.connections ≡ some st')
        × (st'.message_nonce ≡ next_nonce st)
        × (st'.written ≡ st.written ++ frame body)
        × (left : List Segment) × (receive_message w.marshal_message w.unmarshal_message
              (verify w.signature_policy w.hash_policy)
              conn
            ≡ (done (ok (numbered prepared (next_nonce st))), left))
        × (flat left ≡ more)
  unfolding broadcast_by_addresses
  broadcast_by_addresses-Reaches writers now opcodes net ctx message code raw prepared xs a i st
        body more conn identity known above encoded made once there passes starts sound =
      let (msg, made', holds, good) =
        check_message-prepare_message w opcodes net ctx message code raw identity known above
          encoded in
      let same : msg ≡ prepared = ground (arith, made, made') in
      let checked =
        check-numbered w prepared (next_nonce st)
          (subst (λ m. check w m ≡ done (ok m)) same good) in
      let (left, got, rest) =
        receive_message-Passes w (writers i) (numbered prepared (next_nonce st)) body more conn
          passes checked starts sound in
      let (st', there', wrote) =
        load-write_each w writers now net xs a prepared prepared i st (λ n. refl) once there in
      let framed =
        send_message-frame w.marshal_message w.unmarshal_message
          (verify w.signature_policy w.hash_policy) (writers i) (numbered prepared (next_nonce st))
          body passes.encoded passes.flushes passes.takes in
      (
        write_each w writers now net xs prepared,
        st',
        rw (made, broadcast_by_addresses) refl,
        there',
        wrote.nonce,
        wrote.bytes ∙ ap (λ o. st.written ++ o.0) framed,
        left,
        got,
        rest,
      )
