-- ===== src/Network/Dispatch.antt =====
-- network/network.go: what becomes of a message that was received, and of a connection that was
-- accepted.
use noise.Base.{
  bytes_Key, number_Key, ◌&&◌, Bool, Option, [], err, get_elem?, if◌then◌else◌, length, ltb,
  nat_beq, none, ok, some, ℕ,
}
use noise.Client.{
  PeerClient, Proto, handle_bytes, is_incoming_ready, bytes_message, ping, pong,
  lookup_node_request, lookup_node_response, registered,
}
use noise.Client.Requests.{deliver_reply, unknown_request, delivered, dropped, waits}
use noise.Network.State.{Network, World, notify, put_client, receive}
use noise.Network.Messages.{Opcodes}
use noise.Opcode.{
  get_message_type, bytes_code, ping_code, pong_code, lookup_node_request_code,
  lookup_node_response_code, unregistered_code,
}
use noise.Peer.{PeerId}
use noise.Wire.{Message, SenderId}

-- `peer.ID(*msg.Sender)`: a nil slice has no bytes.
unfoldable pub peer_of : SenderId → PeerId
peer_of s = record {
  address = s.address;
  public_key = elim s.public_key [ none ↦ [] | some key ↦ key ];
  id = s.id;
}

module _ {M L E : Type 0} (w : World M L E) where
  -- The empty message of an opcode; none is one that is not known.
  unfoldable pub empty_message : Opcodes M → ℕ → Option (Proto M)
  unfolding get_message_type
  empty_message opcodes code =
      if nat_beq code bytes_code
      then some (bytes_message [])
      else if nat_beq code ping_code
      then some ping
      else if nat_beq code pong_code
      then some pong
      else if nat_beq code lookup_node_request_code
      then some (lookup_node_request none)
      else if nat_beq code lookup_node_response_code
      then some (lookup_node_response [])
      else if nat_beq code unregistered_code
      then none
      else elim (get_message_type w.type_of w.marshal w.clone opcodes code) [
        | err e ↦ none
        | ok msg ↦ some msg
      ]

  -- The message that is decoded from what was received; none is one that is dropped.
  unfoldable pub decode : Opcodes M → Message → Option (Proto M)
  unfolding empty_message
  decode opcodes msg = elim (empty_message opcodes msg.opcode) [
    | none ↦ none
    | some empty ↦
        if ltb 0 (length msg.message)
        then elim (w.fill empty msg.message) [ err e ↦ none | ok full ↦ some full ]
        else some empty
  ]

module _ {M P L : Type 0} where
  -- Bytes go into the client's stream, all else to the plugins.
  unfoldable pub hand_on : Network M P L → ℕ → PeerClient M Message → Proto M → ℕ → Network M P L
  unfolding handle_bytes notify
  hand_on net place c (bytes_message bytes) nonce =
      put_client net place (record c { stream = (handle_bytes c.stream bytes).0 })
  hand_on net place c ping nonce = notify net (receive place ping nonce)
  hand_on net place c pong nonce = notify net (receive place pong nonce)
  hand_on net place c (lookup_node_request t) nonce =
      notify net (receive place (lookup_node_request t) nonce)
  hand_on net place c (lookup_node_response ps) nonce =
      notify net (receive place (lookup_node_response ps) nonce)
  hand_on net place c (registered m) nonce = notify net (receive place (registered m) nonce)

module _ {M P L E : Type 0} (w : World M L E) where
  -- `dispatchMessage` for the client at a place; none is a call that waits for a request to end.
  -- `put` is the choice of `deliver_reply`.
  unfoldable pub dispatch_message :
      Bool → Opcodes M → Network M P L → ℕ → Message → Option (Network M P L)
  unfolding decode hand_on deliver_reply
  dispatch_message put opcodes net place msg = elim (get_elem? net.clients place) [
    | none ↦ some net
    | some c ↦
        if is_incoming_ready c
        then elim (decode w opcodes msg) [
          | none ↦ some net
          | some body ↦
              if ltb 0 msg.request_nonce && msg.reply_flag
              then elim (deliver_reply put c msg.request_nonce body) [
                | unknown_request ↦ some (hand_on net place c body msg.request_nonce)
                | delivered c' ↦ some (put_client net place c')
                | dropped ↦ some net
                | waits ↦ none
              ]
              else some (hand_on net place c body msg.request_nonce)
        ]
        else some net
  ]
