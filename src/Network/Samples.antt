-- ===== src/Network/Samples.antt =====
-- A small network, whose signatures carry the key, and messages for it: data for the examples.
use noise.Peer.{PeerId}
use noise.Base.Int.{pos}
use noise.Client.{ping, new_client, PeerClient}
use noise.Lru.{new_cache}
use noise.Base.Maps.{load}
use noise.Network.Numbering.{At}
use noise.Wire.{Message, Writer, SenderId}
use noise.Network.Messages.{Opcodes}
use noise.Network.State.{World, Network}
use noise.Address.{NetPackage}
use noise.Crypto.{SignaturePolicy, KeyPair}
use noise.Crypto.Keys.{Lawful}
use noise.Base.{
  bytes_beq_refl, bytes_Key, number_Key, ◌++◌, Bytes, [], bytes_beq, err, false, none, ok, refl,
  some, true, ℕ, ◌∷◌,
}

abbrev pub key_policy : SignaturePolicy ℕ
key_policy = record {
  private_key_size = 2;
  private_to_public = λ k. ok k;
  public_key_size = 2;
  sign_with = λ k message. k ++ message;
  verify_with = λ public message signature. bytes_beq (public ++ message) signature;
}

abbrev pub tests_package : NetPackage ℕ
tests_package = record {
  parse_url = λ bs. ok (bs, bs);
  split_host_port = λ bs. ok (bs, bs);
  parse_uint = λ bs. ok 80;
  join_host_port = λ h p. h;
  itoa = λ n. [];
  is_ip = λ bs. true;
  lookup_host = λ bs. err 0;
  trim_space = λ bs. bs;
}

abbrev pub world : World ℕ ℕ ℕ
world = record {
  go = tests_package;
  dial_layer = λ layer address. none;
  type_of = λ m. 0;
  marshal = λ m. ok (5 ∷ []);
  clone = λ m. m;
  fill = λ m bs. ok m;
  marshal_message = λ m. ok m.message;
  unmarshal_message = λ bs. err 0;
  signature_policy = key_policy;
  hash_policy = record { hash_bytes = λ bs. bs };
}

abbrev pub pair : KeyPair
pair = record { private_key = 1 ∷ 2 ∷ []; public_key = 1 ∷ 2 ∷ [] }

abbrev pub home : Bytes
home = 97 ∷ []

abbrev pub peer_address : Bytes
peer_address = 98 ∷ []

abbrev pub other_address : Bytes
other_address = 99 ∷ []

-- The network has layer 7 for the protocol that the address of the peer has.
abbrev pub net : Network ℕ ℕ ℕ
net = record {
  address = home;
  id = record { address = home; public_key = 1 ∷ 2 ∷ []; id = 3 ∷ [] };
  keys = pair;
  plugins = record { keys = []; values = [] };
  peers = [];
  connections = [];
  transports = (peer_address, 7) ∷ [];
  clients = [];
  hosts = new_cache (pos 10);
  calls = [];
  write_timeout = 3;
  listening = false;
  killed = false;
}

-- Two connections.
abbrev pub net2 : Network ℕ ℕ ℕ
net2 = record net {
  connections =
      (peer_address, record { message_nonce = 4; written = []; write_deadline = 0 })
      ∷ (other_address, record { message_nonce = 0; written = []; write_deadline = 0 })
      ∷ [];
}

-- Opcode 1000 for the one type.
abbrev pub opcodes : Opcodes ℕ
opcodes = record { msg_tbl = (0, 1000) ∷ []; opcode_tbl = (1000, ping) ∷ [] }

abbrev pub quiet : Writer ℕ
quiet = record { buffered = none; flush_error = none; writes = [] }

abbrev pub hello : Message
hello = record {
  message = 5 ∷ 6 ∷ [];
  opcode = 1000;
  sender = none;
  signature = none;
  request_nonce = 0;
  message_nonce = 0;
  reply_flag = false;
}

abbrev pub peer : PeerId
peer = record { address = peer_address; public_key = 8 ∷ []; id = 9 ∷ [] }

abbrev pub peer_sender : SenderId
peer_sender = record { public_key = some (8 ∷ []); address = peer_address; id = 9 ∷ [] }

abbrev pub known_peer : PeerClient ℕ Message
known_peer = record (new_client peer_address) { id = some peer }

pub net2-At : At world net2 peer_address 4
unfolding load bytes_beq
net2-At = record {
  state = record { message_nonce = 4; written = []; write_deadline = 0 };
  there = refl;
  at = refl;
}

pub key_policy-Lawful : Lawful key_policy pair
key_policy-Lawful = record {
  public_size = refl;
  verifies = λ message. bytes_beq_refl (1 ∷ 2 ∷ message);
}
