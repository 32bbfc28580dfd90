-- ===== src/Network/Tests.antt =====
-- The runs of the theorems' examples, on a small network.
use noise.Peer.{equals}
use noise.Network.Own.{accept_all-messages_from}
use noise.Network.Identity.{IsOf, HasSender, is_from, messages_from}
use noise.Network.Accept.{Session, accept_all}
use noise.Network.Dispatch.{peer_of}
use noise.Network.Samples.{
  key_policy-Lawful, world, peer_address, other_address, net, net2, net2-At, opcodes, quiet, hello,
  known_peer, peer_sender, peer,
}
use noise.Network.Listen.{connected, failed, listen_loop}
use noise.Network.Flush.{killed, tick, flush_loop}
use noise.Window.{u64_mod, new_recv_window}
use noise.Network.Context.{with_sign_message}
use noise.Network.Peers.{client_of, close_client}
use noise.Client.{ping, new_client, PeerClient}
use noise.Network.Clients.{Answers, client_of-Answers}
use noise.Network.Tables.{IsTables, close_client_once}
use noise.Base.Maps.{load, load-nil}
use noise.Network.Numbering.{
  Attempt, messages_to, written_to, At, number_from, after_attempts, written_to-number_from,
}
use noise.Wire.{Message}
use noise.Opcode.{get_opcode}
use noise.Network.Messages.{prepare_message}
use noise.Network.Signed.{HasIdentity, check, check_message-prepare_message}
use noise.Network.State.{Network}
use noise.Base.{
  bytes_Key, number_Key, ◌-◌, false, ◌+◌, ◌<◌, Bytes, List, [], arith, bytes_beq, done, length,
  none, ok, refl, some, subst, sym, true, ℕ, ◌∷◌, ◌≡◌, Bool-cases, bytes_beq_iff, get_elem?, inl,
  inr,
}

net-HasIdentity : HasIdentity world net
net-HasIdentity = record {
  lawful = key_policy-Lawful;
  paired = record { sized = refl; paired = refl };
  own_key = refl;
  has_address = omega arith;
  short_address = omega arith;
  short_id = omega arith;
}

opcode_of_ping : get_opcode world.type_of world.marshal world.clone opcodes ping ≡ (1000, none)
unfolding get_opcode load
opcode_of_ping = refl

check_message-prepare_message_example :
    (msg : Message) × (prepare_message world opcodes net (with_sign_message [] true) (some ping)
      ≡ done (ok msg))
    × (msg.message ≡ 5 ∷ [])
    × (check world msg ≡ done (ok msg))
check_message-prepare_message_example =
    check_message-prepare_message world opcodes net (with_sign_message [] true) ping 1000 (5 ∷ [])
      net-HasIdentity opcode_of_ping (omega arith) refl

abbrev attempts : List (Attempt ℕ)
attempts =
    record { writer = quiet; now = 1; to = peer_address; message = hello }
    ∷ record { writer = quiet; now = 2; to = other_address; message = hello }
    ∷ record { writer = quiet; now = 3; to = peer_address; message = hello }
    ∷ []

two_messages : messages_to peer_address attempts ≡ hello ∷ hello ∷ []
unfolding messages_to bytes_beq
two_messages = refl

written_to-number_from_example :
    (written_to world net2 peer_address attempts
      ≡ number_from 5 (messages_to peer_address attempts))
    × At world
        (after_attempts world net2 attempts)
        peer_address
        (4 + length (messages_to peer_address attempts))
written_to-number_from_example =
    written_to-number_from world net2 peer_address attempts 4 net2-At
      (subst (λ (ms : List Message). 4 + length ms < u64_mod) (sym two_messages) (omega arith))

net-IsTables : IsTables net
net-IsTables = record { places = λ a p l. absurd (ground (arith, l, load-nil {V = ℕ} a)) }

client_of-Answers_example : Answers world net peer_address (client_of world net peer_address)
client_of-Answers_example = client_of-Answers world net peer_address net-IsTables

-- The network with a client for the peer, which has its identity.
abbrev one_client : Network ℕ ℕ ℕ
one_client = record net {
  peers = (peer_address, 0) ∷ [];
  clients =
      record (new_client peer_address) {
        id = some (record { address = peer_address; public_key = []; id = [] });
      }
      ∷ [];
}

one_client-IsTables : IsTables one_client
unfolding load new_client
one_client-IsTables = record { places = λ a p l. only_peer a p l }
  where
    only_peer :
        (a : Bytes) (p : ℕ)
        → load a one_client.peers ≡ some p
        → (c : PeerClient ℕ Message) × (get_elem? one_client.clients p ≡ some c) × (c.address ≡ a)
    only_peer a p l = elim (Bool-cases (bytes_beq a peer_address)) [
      | inl same ↦
          let e : a ≡ peer_address = (bytes_beq_iff a peer_address).0 same in
          let f : 0 ≡ p = ground (arith, same, l) in
          subst
            (λ q.
              (c : PeerClient ℕ Message) × (get_elem? one_client.clients q ≡ some c)
              × (c.address ≡ a))
            f
            (
              record (new_client peer_address) {
                id = some (record { address = peer_address; public_key = []; id = [] });
              },
              refl,
              sym e,
            )
      | inr other ↦ absurd (ground (arith, other, l))
    ]

close_client_once_example :
    IsTables (close_client one_client 0)
    × (close_client (close_client one_client 0) 0 ≡ close_client one_client 0)
close_client_once_example = close_client_once one_client 0 one_client-IsTables

-- A session of a client that has its identity, and a message of its own after one of a stranger.
abbrev known_client : PeerClient ℕ Message
known_client = record known_peer { initialised = true; incoming_ready = true }

abbrev in_touch : Network ℕ ℕ ℕ
in_touch = record net { clients = known_client ∷ [] }

abbrev session : Session
session = record { place = some 0; window = new_recv_window 4; running = true }

abbrev own_message : Message
own_message = record hello { sender = some peer_sender; message_nonce = 5 }

abbrev strange_message : Message
strange_message = record hello {
  sender = some (record { public_key = none; address = peer_address; id = 6 ∷ [] });
  message_nonce = 900;
}

session-IsOf : IsOf peer in_touch session
unfolding new_client
session-IsOf = record {
  place = 0;
  client = known_client;
  placed = refl;
  there = refl;
  named = refl;
  initialised = refl;
  running = refl;
}

only_own : messages_from peer (strange_message ∷ own_message ∷ []) ≡ own_message ∷ []
unfolding messages_from is_from equals bytes_beq peer_of
only_own = refl

accept_all-messages_from_example :
    accept_all world in_touch session (strange_message ∷ own_message ∷ [])
    ≡ accept_all world in_touch session (messages_from peer (strange_message ∷ own_message ∷ []))
unfolding HasSender
accept_all-messages_from_example =
    accept_all-messages_from world peer in_touch session (strange_message ∷ own_message ∷ [])
      session-IsOf
      (
        (record { public_key = none; address = peer_address; id = 6 ∷ [] }, refl),
        ((peer_sender, refl), tt),
      )

-- Errors do not end the loop of `Listen` until the network has been killed.
three_rounds :
    listen_loop {C = ℕ} (connected 1 ∷ failed false ∷ connected 2 ∷ failed true ∷ connected 3 ∷ [])
    ≡ (1 ∷ 2 ∷ [], true)
unfolding listen_loop
three_rounds = refl

-- Two ticks before the kill: the bytes that a connection holds back are passed on, where its flush
-- passes on at most two of them.
two_ticks :
    flush_loop {E = ℕ}
      (λ (held : ℕ). (held - 2, some 0))
      (tick ∷ tick ∷ killed ∷ tick ∷ [])
      ((peer_address, 5) ∷ (other_address, 1) ∷ [])
    ≡ ((peer_address, 1) ∷ (other_address, 0) ∷ [], true)
unfolding flush_loop
two_ticks = refl
