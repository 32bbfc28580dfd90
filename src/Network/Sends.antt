-- ===== src/Network/Sends.antt =====
-- network/client.go and network/network.go: `Tell`, `Reply`, `Write` on a client's stream, the start
-- of `Request`, and the broadcasts to peers.
use noise.Base.{
  ◌*◌, ◌+◌, ◌>>=◌, Bytes, List, Option, Outcome, Result, [], done, err, get_elem?, if◌then◌else◌,
  length, ltb, none, ok, panic, some, take, true, ℕ, ◌∷◌,
}
use noise.Client.{PeerClient, Proto, expired, bytes_message}
use noise.Client.Requests.{next_request_nonce, track_request}
use noise.Network.Context.{Context, with_sign_message}
use noise.Network.State.{Network, World, NetworkError, put_client}
use noise.Network.Messages.{Opcodes, prepare_message, write, write_each, broadcast_by_addresses}
use noise.Wire.{Message, Writer}

-- The nonce of a request, and the flag of a reply to it.
unfoldable pub replies_to : Message → ℕ → Message
replies_to msg nonce = record msg { request_nonce = nonce; reply_flag = true }

unfoldable pub requests_with : Message → ℕ → Message
requests_with msg nonce = record msg { request_nonce = nonce }

-- What an error of the stream's `Write` is.
pub data WriteError (E : Type 0) : Type 0 where
  write_deadline_exceeded : WriteError E
  not_told : NetworkError E → WriteError E

-- The addresses of the clients of the peers, in the order of `Range`.
unfoldable pub peer_addresses : {M P L : Type 0} → Network M P L → List (Bytes × ℕ) → List Bytes
peer_addresses net [] = []
peer_addresses net ((address, place) ∷ ps) = elim (get_elem? net.clients place) [
  | none ↦ peer_addresses net ps
  | some c ↦ c.address ∷ peer_addresses net ps
]

-- The addresses that `BroadcastRandomly` picks, for a `count` that is not negative: it collects
-- one more than three times as many at most, shuffles them, and takes the first.
unfoldable pub pick_peers :
    {M P L : Type 0} → (List Bytes → List Bytes) → ℕ → Network M P L → List Bytes
unfolding peer_addresses
pick_peers shuffle count net =
    let addresses = shuffle (take (count * 3 + 1) (peer_addresses net net.peers)) in
    take (if ltb (length addresses) count then length addresses else count) addresses

module _ {M P L E : Type 0} (w : World M L E) where
  -- `Tell` of the client at an address: the error, none is nil.
  unfoldable pub tell :
      Writer E
      → ℕ
      → Opcodes M
      → Network M P L
      → Context
      → Bytes
      → Option (Proto M)
      → Outcome (Network M P L × Option (NetworkError E))
  unfolding prepare_message write
  tell writer now opcodes net ctx address message =
      prepare_message w opcodes net ctx message >>= λ r. elim r [
        | err e ↦ done (net, some e)
        | ok signed ↦
            let (net', signed', failure) = write w writer now net address signed in
            done (net', failure)
      ]

  -- `Reply`.
  unfoldable pub reply :
      Writer E
      → ℕ
      → Opcodes M
      → Network M P L
      → Context
      → Bytes
      → ℕ
      → Option (Proto M)
      → Outcome (Network M P L × Option (NetworkError E))
  unfolding prepare_message write replies_to
  reply writer now opcodes net ctx address nonce message =
      prepare_message w opcodes net ctx message >>= λ r. elim r [
        | err e ↦ done (net, some e)
        | ok signed ↦
            let (net', signed', failure) =
              write w writer now net address (replies_to signed nonce) in
            done (net', failure)
      ]

  -- `Request` of the client at a place until it waits: the nonce that it then tracks.
  unfoldable pub start_request :
      Writer E
      → ℕ
      → Opcodes M
      → Network M P L
      → Context
      → ℕ
      → Option (Proto M)
      → Outcome (Network M P L × Result (NetworkError E) ℕ)
  unfolding prepare_message write requests_with next_request_nonce track_request
  start_request writer now opcodes net ctx place message = elim (get_elem? net.clients place) [
    | none ↦ panic
    | some c ↦ prepare_message w opcodes net ctx message >>= λ r. elim r [
      | err e ↦ done (net, err e)
      | ok signed ↦
          let c' = next_request_nonce c in
          let (net', signed', failure) =
            write w writer now (put_client net place c') c.address
              (requests_with signed c'.request_nonce) in
          elim failure [
            | some e ↦ done (net', err e)
            | none ↦
                done
                  (put_client net' place (track_request c' c'.request_nonce), ok c'.request_nonce)
          ]
    ]
  ]

  -- `Write` of a client's stream at time `now`: how many bytes are written, and the error.
  unfoldable pub write_stream :
      Writer E
      → ℕ
      → Opcodes M
      → Network M P L
      → PeerClient M Message
      → Bytes
      → Outcome (Network M P L × ℕ × Option (WriteError E))
  unfolding expired tell with_sign_message
  write_stream writer now opcodes net c bytes =
      if expired c.stream.write_deadline now
      then done (net, 0, some write_deadline_exceeded)
      else (tell writer now opcodes net (with_sign_message [] true) c.address
            (some (bytes_message bytes))
          >>= λ (net', failure). elim failure [
            | some e ↦ done (net', 0, some (not_told e))
            | none ↦ done (net', length bytes, none)
          ])

  unfoldable pub broadcast :
      (ℕ → Writer E)
      → ℕ
      → Opcodes M
      → Network M P L
      → Context
      → Option (Proto M)
      → Outcome (Network M P L)
  unfolding prepare_message write_each peer_addresses
  broadcast writers now opcodes net ctx message = prepare_message w opcodes net ctx message >>= λ r.
      elim r [
        | err e ↦ done net
        | ok signed ↦ done (write_each w writers now net (peer_addresses net net.peers) signed)
      ]

  unfoldable pub broadcast_randomly :
      (List Bytes → List Bytes)
      → (ℕ → Writer E)
      → ℕ
      → Opcodes M
      → Network M P L
      → Context
      → Option (Proto M)
      → ℕ
      → Outcome (Network M P L)
  unfolding broadcast_by_addresses pick_peers
  broadcast_randomly shuffle writers now opcodes net ctx message count =
      broadcast_by_addresses w writers now opcodes net ctx message (pick_peers shuffle count net)
