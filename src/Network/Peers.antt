-- ===== src/Network/Peers.antt =====
-- network/network.go and network/client.go: the tables of peers and connections.
use noise.Peer.{PeerId}
use noise.Wire.{Message}
use noise.Base.{
  bytes_Key, ◌++◌, ◌>>=◌, Bool, Bytes, List, Option, Outcome, Result, [], bytes_beq, done, err,
  false, get_elem?, if◌then◌else◌, length, none, ok, panic, some, true, ℕ, ◌∷◌,
}
use noise.Base.Maps.{load, store, delete}
use noise.Address.{parse_address, to_unified_address, host_port, localhost_v4, AddressInfo}
use noise.Client.{new_client, is_outgoing_ready, StreamState, PeerClient}
use noise.Network.State.{
  Network, World, NetworkError, ConnState, notify, put_client, peer_connect, peer_disconnect,
  address_error, dials_itself, failed_to_connect, dial_error,
}

-- The host that is dialled: the node's own is the local host.
unfoldable pub dialled_host : AddressInfo → Bytes → AddressInfo
dialled_host info own =
    if bytes_beq info.host own then record info { host = localhost_v4 } else info

module _ {M P L : Type 0} where
  -- `ConnectionState` and `ConnectionStateExists`.
  unfoldable pub connection_state : Network M P L → Bytes → Option ConnState
  unfolding load
  connection_state net address = load address net.connections

  unfoldable pub connection_state_exists : Network M P L → Bytes → Bool
  unfolding connection_state
  connection_state_exists net address = elim (connection_state net address) [
    | none ↦ false
    | some state ↦ true
  ]

  -- The client that is stored for an address by `LoadOrStore`, at the end of the clients.
  unfoldable pub add_client : Network M P L → Bytes → Network M P L
  unfolding store
  add_client net address = record net {
    clients = net.clients ++ (new_client address ∷ []);
    peers = store address (length net.clients) net.peers;
  }

  -- The deferred `setOutgoingReady`: its channel is closed here alone.
  unfoldable pub ready : Network M P L → Bytes → ℕ → Network M P L
  ready net address place = elim (get_elem? net.clients place) [
    | none ↦ net
    | some c ↦ put_client net place (record c { outgoing_ready = true })
  ]

  -- A new client's dial has ended.
  unfoldable pub connect : Network M P L → Bytes → ℕ → Network M P L
  unfolding store
  connect net address place =
      notify
        (record net {
          connections =
              store address (record { message_nonce = 0; written = []; write_deadline = 0 })
                net.connections;
        })
        (peer_connect place)

  -- The entries of an identity's address go, and its connection is closed.
  unfoldable pub drop_peer : Network M P L → Bytes → Network M P L
  unfolding delete
  drop_peer net address = record net {
    peers = delete address net.peers;
    connections = delete address net.connections;
  }

  -- The body that `Close` runs once, up to the entries of the peer.
  unfoldable pub shut : Network M P L → ℕ → PeerClient M Message → Network M P L
  unfolding notify put_client
  shut net place c =
      let closed : StreamState = record c.stream { is_closed = true } in
      notify (put_client net place (record c { closed = true; stream = closed }))
        (peer_disconnect place)

  unfoldable pub drop_id : Network M P L → Option PeerId → Network M P L
  unfolding drop_peer
  drop_id net none = net
  drop_id net (some id) = drop_peer net id.address

  -- `Close` of a client that is there.
  unfoldable pub close_found : Network M P L → ℕ → Option (PeerClient M Message) → Network M P L
  unfolding shut drop_id
  close_found net place none = net
  close_found net place (some c) = if c.closed then net else drop_id (shut net place c) c.id

  -- `Close` of the client at a place.
  unfoldable pub close_client : Network M P L → ℕ → Network M P L
  unfolding close_found
  close_client net place = close_found net place (get_elem? net.clients place)

  -- The calls of `Close` by `eachPeer`, for the places of the peers.
  unfoldable pub close_clients : Network M P L → List (Bytes × ℕ) → Network M P L
  unfolding close_client
  close_clients net [] = net
  close_clients net ((address, place) ∷ ps) = close_clients (close_client net place) ps

  -- `Close`: to close the channel twice panics.
  unfoldable pub close : Network M P L → Outcome (Network M P L)
  unfolding close_clients
  close net =
      if net.killed then panic else done (close_clients (record net { killed = true }) net.peers)

module _ {M P L E : Type 0} (w : World M L E) where
  -- The layer of the protocol dials; without one the process exits, which stands as a panic.
  unfoldable pub dial_with : Network M P L → AddressInfo → Outcome (Option (NetworkError E))
  unfolding load
  dial_with net info = elim (load info.protocol net.transports) [
    | none ↦ panic
    | some layer ↦ elim (w.dial_layer layer (host_port w.go info)) [
      | some e ↦ done (some (dial_error e))
      | none ↦ done none
    ]
  ]

  -- The error of `Dial`: none is a connection.
  unfoldable pub dial : Network M P L → Bytes → Outcome (Option (NetworkError E))
  unfolding dial_with dialled_host
  dial net address = elim (parse_address w.go address) [
    | err e ↦ done (some (address_error e))
    | ok info ↦
        if bytes_beq info.host localhost_v4
        then dial_with net info
        else elim (parse_address w.go net.address) [
          | err e ↦ done (some (address_error e))
          | ok own ↦ dial_with net (dialled_host info own.host)
        ]
  ]

  -- `Client` when the address has a client: whether its dial has succeeded.
  unfoldable pub known_client :
      Network M P L
      → ℕ
      → Option (PeerClient M Message)
      → Outcome (Network M P L × Result (NetworkError E) ℕ)
  unfolding is_outgoing_ready
  known_client net place none = panic
  known_client net place (some c) =
      done (net, if is_outgoing_ready c then ok place else err failed_to_connect)

  -- `Client` after the dial of a new client.
  unfoldable pub dialled_client :
      Network M P L
      → Bytes
      → ℕ
      → Option (NetworkError E)
      → Network M P L × Result (NetworkError E) ℕ
  unfolding delete ready connect
  dialled_client added address place (some e) =
      (ready (record added { peers = delete address added.peers }) address place, err e)
  dialled_client added address place none =
      (ready (connect added address place) address place, ok place)

  -- `Client` on the unified address: the place of the client.
  unfoldable pub client_of :
      Network M P L → Bytes → Outcome (Network M P L × Result (NetworkError E) ℕ)
  unfolding load add_client dial known_client dialled_client
  client_of net address = elim (load address net.peers) [
    | some place ↦ known_client net place (get_elem? net.clients place)
    | none ↦
        let added = add_client net address in
        dial added address >>= λ failure.
        done (dialled_client added address (length net.clients) failure)
  ]

  -- `Client`.
  unfoldable pub client :
      Network M P L → Bytes → Outcome (Network M P L × Result (NetworkError E) ℕ)
  unfolding client_of
  client net address = to_unified_address w.go net.hosts address >>= λ (hosts, r).
      let net' = record net { hosts = hosts } in
      elim r [
        | err e ↦ done (net', err (address_error e))
        | ok unified ↦
            if bytes_beq unified net.address
            then done (net', err dials_itself)
            else elim (parse_address w.go unified) [
              | err e ↦ done (net', err (address_error e))
              | ok info ↦ client_of net' unified
            ]
      ]
