-- ===== src/Network/Rounds/Tests.antt =====
-- A world whose messages are encoded by their bytes, or by their number, and a program that registers one
-- type under opcode 1000.
use noise.Base.{
  number_Key, Bytes, Result, [], arith, done, err, none, ok, refl, some, suc, zero, ℕ, ◌∷◌, ◌≡◌,
  ◌∙◌, ap, sym, true, false,
}
use noise.Base.Maps.{load}
use noise.Client.{
  Proto, bytes_message, ping, pong, lookup_node_request, lookup_node_response, registered,
  PeerClient, new_client,
}
use noise.Client.Requests.{reply_of}
use noise.Network.Dispatch.{dispatch_message}
use noise.Network.Handed.{handed}
use noise.Network.Messages.{Opcodes, numbered, prepare_message, unsigned_message}
use noise.Network.Registry.{
  Encodes, IsRegistry, initial, init-IsRegistry, register_message_type-IsRegistry,
}
use noise.Network.Rounds.{dispatch_message-prepare_message, dispatch_message-replies_to}
use noise.Network.Samples.{world, net, known_peer}
use noise.Network.Sends.{replies_to, requests_with}
use noise.Network.State.{World, Network, put_client}
use noise.Opcode.{init, register_message_type}
use noise.Wire.{Message}

kind : Proto ℕ → ℕ
kind (bytes_message bs) = 0
kind ping = 1
kind pong = 2
kind (lookup_node_request t) = 3
kind (lookup_node_response ps) = 4
kind (registered m) = 5

encoding : Proto ℕ → Result ℕ Bytes
encoding (bytes_message bs) = ok bs
encoding ping = ok []
encoding pong = ok []
encoding (lookup_node_request none) = ok []
encoding (lookup_node_request (some id)) = err 0
encoding (lookup_node_response []) = ok []
encoding (lookup_node_response (p ∷ ps)) = err 0
encoding (registered zero) = ok []
encoding (registered (suc n)) = ok (suc n ∷ [])

number_of : Bytes → ℕ
number_of [] = 0
number_of (b ∷ bs) = b

message_of : ℕ → Bytes → Proto ℕ
unfolding number_of
message_of zero bs = bytes_message bs
message_of (suc zero) bs = ping
message_of (suc (suc zero)) bs = pong
message_of (suc (suc (suc zero))) bs = lookup_node_request none
message_of (suc (suc (suc (suc zero)))) bs = lookup_node_response []
message_of (suc (suc (suc (suc (suc n))))) bs = registered (number_of bs)

message_of-encoding : (m : Proto ℕ) (bs : Bytes) → encoding m ≡ ok bs → message_of (kind m) bs ≡ m
unfolding kind encoding message_of
message_of-encoding (bytes_message b) bs e = ground (arith, e)
message_of-encoding ping bs e = refl
message_of-encoding pong bs e = refl
message_of-encoding (lookup_node_request none) bs e = refl
message_of-encoding (lookup_node_request (some id)) bs e = absurd (ground (arith, e))
message_of-encoding (lookup_node_response []) bs e = refl
message_of-encoding (lookup_node_response (p ∷ ps)) bs e = absurd (ground (arith, e))
message_of-encoding (registered zero) bs e = ground (arith, e)
message_of-encoding (registered (suc n)) bs e = ground (arith, e)

abbrev coded : World ℕ ℕ ℕ
coded = record world {
  type_of = kind;
  marshal = encoding;
  fill = λ into bs. ok (message_of (kind into) bs);
}

coded-Encodes : Encodes coded
coded-Encodes = record {
  reads = λ into m raw t e. ap ok (ap (λ k. message_of k raw) t ∙ message_of-encoding m raw e);
  one_empty = λ a b t e f.
      sym (message_of-encoding a [] e) ∙ ap (λ k. message_of k []) t ∙ message_of-encoding b [] f;
  clone_type = λ m. refl;
  clone_empty = λ m e. e;
}

abbrev known : Opcodes ℕ
known = (register_message_type kind encoding (λ m. m) (initial coded) 1000 (registered 0)).0

known-IsRegistry : IsRegistry coded known
unfolding encoding
known-IsRegistry =
    register_message_type-IsRegistry coded (initial coded) 1000 (registered 0)
      (init-IsRegistry coded refl refl refl refl refl)

abbrev seven : Message
seven = unsigned_message net 1000 (7 ∷ [])

seven_prepared : prepare_message coded known net [] (some (registered 7)) ≡ done (ok seven)
unfolding prepare_message register_message_type init kind encoding
seven_prepared = refl

abbrev ready_peer : PeerClient ℕ Message
ready_peer = record known_peer {
  incoming_ready = true;
  requests = (3, record { reply = none; close_signal = false }) ∷ [];
}

abbrev ready_net : Network ℕ ℕ ℕ
ready_net = record net { clients = ready_peer ∷ [] }

dispatch_message-prepare_message_example :
    (dispatch_message coded true known ready_net 0 (numbered seven 9)
      ≡ some (handed ready_net 0 ready_peer (registered 7) 0))
    × (dispatch_message coded true known ready_net 0 (numbered (requests_with seven 3) 9)
        ≡ some (handed ready_net 0 ready_peer (registered 7) 3))
unfolding new_client
dispatch_message-prepare_message_example =
    dispatch_message-prepare_message coded known net ready_net [] (registered 7) seven 0 ready_peer
      true 9 3 coded-Encodes known-IsRegistry seven_prepared refl refl

dispatch_message-replies_to_example :
    (c' : PeerClient ℕ Message) × (dispatch_message coded true known ready_net 0
        (numbered (replies_to seven 3) 9)
      ≡ some (put_client ready_net 0 c'))
    × (reply_of c' 3 ≡ some (registered 7))
unfolding new_client load reply_of
dispatch_message-replies_to_example =
    dispatch_message-replies_to coded known net ready_net [] (registered 7) seven 0 ready_peer true
      9 3 (record { reply = none; close_signal = false }) coded-Encodes known-IsRegistry
      seven_prepared refl refl (omega arith) refl refl refl
