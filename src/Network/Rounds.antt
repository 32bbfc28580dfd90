-- ===== src/Network/Rounds.antt =====
-- `PrepareMessage` of one network and `dispatchMessage` of another, network/network.go: what a message
-- that is told, a request and a reply do at the other end.
mod Tests
use noise.Base.{
  bytes_Key, number_Key, ◌<◌, ◌≡◌, ◌∙◌, Bool, ap, arith, done, false, get_elem?, none, ok, refl,
  some, true, ℕ,
}
use noise.Base.Maps.{load}
use noise.Client.{PeerClient, Proto, is_incoming_ready, RequestState}
use noise.Client.Replies.{put_reply}
use noise.Client.Requests.{deliver_reply, delivered, reply_of}
use noise.Network.Context.{Context}
use noise.Network.Dispatch.{decode, dispatch_message, hand_on}
use noise.Network.Handed.{handed, hand_on-handed}
use noise.Network.Messages.{Opcodes, numbered, prepare_message}
use noise.Network.Payload.{Carries, decode-Carries, prepare_with-Carries}
use noise.Network.Registry.{Encodes, IsRegistry}
use noise.Network.Sends.{replies_to, requests_with}
use noise.Network.State.{Network, World, put_client}
use noise.Opcode.{get_opcode}
use noise.Wire.{Message}

module _ {M P L E : Type 0} (w : World M L E) (to : Network M P L) (place : ℕ)
    (c : PeerClient M Message) (there : get_elem? to.clients place ≡ some c)
    (is_ready : c.incoming_ready ≡ true) (opcodes : Opcodes M) (msg : Message) (body : Proto M)
    (reads : decode w opcodes msg ≡ some body) where
  dispatch_message-hand_on :
      (put : Bool)
      → msg.reply_flag ≡ false
      → dispatch_message w put opcodes to place msg
        ≡ some (hand_on to place c body msg.request_nonce)
  unfolding dispatch_message is_incoming_ready
  dispatch_message-hand_on put plain = ground (arith, there, is_ready, reads, plain)

  dispatch_message-deliver_reply :
      (put : Bool) (c' : PeerClient M Message)
      → msg.reply_flag ≡ true
      → 0 < msg.request_nonce
      → deliver_reply put c msg.request_nonce body ≡ delivered c'
      → dispatch_message w put opcodes to place msg ≡ some (put_client to place c')
  unfolding dispatch_message is_incoming_ready
  dispatch_message-deliver_reply put c' reply some_nonce d =
      ground (arith, there, is_ready, reads, reply, some_nonce, d)

module _ {M P L E : Type 0} (w : World M L E) where
  prepared :
      (opcodes : Opcodes M) (from : Network M P L) (ctx : Context) (message : Proto M)
      (msg : Message)
      → prepare_message w opcodes from ctx (some message) ≡ done (ok msg)
      → Carries w opcodes message msg
  unfolding prepare_message
  prepared opcodes from ctx message msg e =
      prepare_with-Carries w from ctx opcodes message msg
        (get_opcode w.type_of w.marshal w.clone opcodes message) refl e

  -- Where protobuf reads back what it encodes, and sender and receiver have the tables of opcodes
  -- that init leaves and RegisterMessageType keeps well formed, a message that PrepareMessage
  -- returned, sent with any message nonce, told or as a request, makes dispatchMessage on a client
  -- that is ready append bytes to the client's stream, and call every plugin in order with any
  -- other payload as it was, and with the nonce of the request.
  pub dispatch_message-prepare_message :
      (opcodes : Opcodes M) (from to : Network M P L) (ctx : Context) (message : Proto M)
      (msg : Message) (place : ℕ) (c : PeerClient M Message) (put : Bool) (n k : ℕ)
      → Encodes w
      → IsRegistry w opcodes
      → prepare_message w opcodes from ctx (some message) ≡ done (ok msg)
      → get_elem? to.clients place ≡ some c
      → c.incoming_ready ≡ true
      → (dispatch_message w put opcodes to place (numbered msg n)
          ≡ some (handed to place c message 0))
        × (dispatch_message w put opcodes to place (numbered (requests_with msg k) n)
            ≡ some (handed to place c message k))
  unfolding numbered requests_with
  dispatch_message-prepare_message opcodes from to ctx message msg place c put n k p v e there
        is_ready =
      let h = prepared opcodes from ctx message msg e in
      let reads = decode-Carries w opcodes message (numbered msg n) p v h.known h.encoded in
      let reads' =
        decode-Carries w opcodes message (numbered (requests_with msg k) n) p v h.known h.encoded in
      (
        dispatch_message-hand_on w to place c there is_ready opcodes (numbered msg n) message reads
              put h.no_reply
            ∙ ap some (
                ap (hand_on to place c message) h.no_request ∙ hand_on-handed to place c message 0),
        dispatch_message-hand_on w to place c there is_ready opcodes
              (numbered (requests_with msg k) n) message reads' put h.no_reply
            ∙ ap some (hand_on-handed to place c message k),
      )

  -- Where protobuf reads back what it encodes, and sender and receiver have the tables of opcodes
  -- that init leaves and RegisterMessageType keeps well formed, a message that PrepareMessage
  -- returned for a reply to a positive nonce, which a waiting call of Request on the ready client
  -- tracks and has no reply to, makes dispatchMessage put the payload as it was where the call
  -- finds it.
  pub dispatch_message-replies_to :
      (opcodes : Opcodes M) (from to : Network M P L) (ctx : Context) (message : Proto M)
      (msg : Message) (place : ℕ) (c : PeerClient M Message) (put : Bool) (n k : ℕ)
      (state : RequestState M)
      → Encodes w
      → IsRegistry w opcodes
      → prepare_message w opcodes from ctx (some message) ≡ done (ok msg)
      → get_elem? to.clients place ≡ some c
      → c.incoming_ready ≡ true
      → 0 < k
      → load k c.requests ≡ some state
      → state.close_signal ≡ false
      → reply_of c k ≡ none
      → (c' : PeerClient M Message) × (dispatch_message w put opcodes to place
            (numbered (replies_to msg k) n)
          ≡ some (put_client to place c'))
        × (reply_of c' k ≡ some message)
  unfolding numbered replies_to
  dispatch_message-replies_to opcodes from to ctx message msg place c put n k state p v e there
        is_ready some_nonce tracked is_open waits_yet =
      let h = prepared opcodes from ctx message msg e in
      let reads =
        decode-Carries w opcodes message (numbered (replies_to msg k) n) p v h.known h.encoded in
      let (c', d, r) = put_reply c k message put state tracked is_open waits_yet in
      (
        c',
        dispatch_message-deliver_reply w to place c there is_ready opcodes
            (numbered (replies_to msg k) n) message reads put c' refl some_nonce d,
        r,
      )
