-- ===== src/Network/Messages.antt =====
-- network/network.go and network/client.go: the messages that a network prepares and writes.
use noise.Base.{
  bytes_Key, number_Key, ◌%◌, ◌+◌, ◌++◌, ◌>>=◌, Bytes, List, Option, Outcome, Result, [], done, err,
  false, if◌then◌else◌, none, ok, some, suc, ℕ, ◌∷◌,
}
use noise.Base.Maps.{load, store}
use noise.Client.{Proto}
use noise.Crypto.{sign, verify}
use noise.Network.Context.{Context, get_sign_message}
use noise.Network.State.{
  Network, World, NetworkError, ConnState, message_is_null, opcode_error, marshal_error, sign_error,
  no_connection, send_error,
}
use noise.Opcode.{Fault, Registry, get_opcode}
use noise.Peer.{PeerId}
use noise.Wire.{Message, SenderId, Writer, send_message, serialize_message}
use noise.Window.{u64_mod}

-- `protobuf.ID(n.ID)`.
unfoldable pub sender_of : PeerId → SenderId
sender_of id = record { public_key = some id.public_key; address = id.address; id = id.id }

-- A message and its nonce.
unfoldable pub numbered : Message → ℕ → Message
numbered msg nonce = record msg { message_nonce = nonce }

abbrev pub Opcodes : Type 0 → Type 0
Opcodes M = Registry (Proto M) ℕ

-- The addresses of identities.
unfoldable pub addresses_of : List PeerId → List Bytes
addresses_of [] = []
addresses_of (id ∷ ids) = id.address ∷ addresses_of ids

module _ {M P L : Type 0} where
  -- The message without a signature.
  unfoldable pub unsigned_message : Network M P L → ℕ → Bytes → Message
  unfolding sender_of
  unsigned_message net opcode raw = record {
    message = raw;
    opcode = opcode;
    sender = some (sender_of net.id);
    signature = none;
    request_nonce = 0;
    message_nonce = 0;
    reply_flag = false;
  }

module _ {M P L E : Type 0} (w : World M L E) where
  -- The message with the signature of its serialization.
  unfoldable pub signed_message :
      Network M P L → ℕ → Bytes → Bytes → Outcome (Result (NetworkError E) Message)
  unfolding sign unsigned_message
  signed_message net opcode raw bytes =
      elim (sign w.signature_policy w.hash_policy net.keys bytes) [
        | err e ↦ done (err (sign_error e))
        | ok signature ↦
            done (ok (record (unsigned_message net opcode raw) { signature = some signature }))
      ]

  -- What follows `GetOpcode` in `PrepareMessage`.
  unfoldable pub prepare_with :
      Network M P L
      → Context
      → Proto M
      → ℕ × Option (Fault E)
      → Outcome (Result (NetworkError E) Message)
  unfolding get_sign_message serialize_message signed_message unsigned_message
  prepare_with net ctx message (code, some e) = done (err (opcode_error e))
  prepare_with net ctx message (code, none) = elim (w.marshal message) [
    | err e ↦ done (err (marshal_error e))
    | ok raw ↦
        if get_sign_message ctx
        then serialize_message (sender_of net.id) raw >>= signed_message net code raw
        else done (ok (unsigned_message net code raw))
  ]

  -- `PrepareMessage`; none is a nil message.
  unfoldable pub prepare_message :
      Opcodes M
      → Network M P L
      → Context
      → Option (Proto M)
      → Outcome (Result (NetworkError E) Message)
  unfolding get_opcode prepare_with
  prepare_message opcodes net ctx none = done (err message_is_null)
  prepare_message opcodes net ctx (some message) =
      prepare_with net ctx message (get_opcode w.type_of w.marshal w.clone opcodes message)

  -- What `Write` does with a connection that it found.
  unfoldable pub write_on :
      Writer E
      → ℕ
      → Network M P L
      → Bytes
      → Message
      → ConnState
      → Network M P L × Message × Option (NetworkError E)
  unfolding store numbered send_message
  write_on writer now net address message state =
      let nonce = (state.message_nonce + 1) % u64_mod in
      let msg = numbered message nonce in
      let (out, failure) =
        send_message w.marshal_message w.unmarshal_message (verify w.signature_policy w.hash_policy)
          writer msg in
      let state' : ConnState = record {
        message_nonce = nonce;
        written = state.written ++ out;
        write_deadline = now + net.write_timeout;
      } in
      (
        record net { connections = store address state' net.connections },
        msg,
        elim failure [ none ↦ none | some e ↦ some (send_error e) ],
      )

  -- `Write` at time `now`, where the connection's writer does as `writer` says: the message gets the
  -- connection's next nonce. The error: none is nil.
  unfoldable pub write :
      Writer E
      → ℕ
      → Network M P L
      → Bytes
      → Message
      → Network M P L × Message × Option (NetworkError E)
  unfolding load write_on
  write writer now net address message = elim (load address net.connections) [
    | none ↦ (net, message, some no_connection)
    | some state ↦ write_on writer now net address message state
  ]

  -- The same message written to addresses, one after the other, as `BroadcastByAddresses`,
  -- `BroadcastByIDs` and `Broadcast` do; they go on after an error.
  unfoldable pub write_each :
      (ℕ → Writer E) → ℕ → Network M P L → List Bytes → Message → Network M P L
  unfolding write
  write_each writers now net [] message = net
  write_each writers now net (address ∷ addresses) message =
      let (net', message', failure) = write (writers 0) now net address message in
      write_each (λ i. writers (suc i)) now net' addresses message'

  unfoldable pub broadcast_by_addresses :
      (ℕ → Writer E)
      → ℕ
      → Opcodes M
      → Network M P L
      → Context
      → Option (Proto M)
      → List Bytes
      → Outcome (Network M P L)
  unfolding prepare_message write_each
  broadcast_by_addresses writers now opcodes net ctx message addresses =
      prepare_message opcodes net ctx message >>= λ r. elim r [
        | err e ↦ done net
        | ok signed ↦ done (write_each writers now net addresses signed)
      ]

  unfoldable pub broadcast_by_ids :
      (ℕ → Writer E)
      → ℕ
      → Opcodes M
      → Network M P L
      → Context
      → Option (Proto M)
      → List PeerId
      → Outcome (Network M P L)
  unfolding broadcast_by_addresses addresses_of
  broadcast_by_ids writers now opcodes net ctx message ids =
      broadcast_by_addresses writers now opcodes net ctx message (addresses_of ids)
