-- ===== src/Network/State.antt =====
-- network/network.go: the state of a network.
use noise.Base.{◌++◌, Bool, Bytes, List, Option, Result, [], set, ℕ, ◌∷◌}
use noise.Address.{NetPackage, AddressError}
use noise.Client.{PeerClient, Proto}
use noise.Crypto.{SignaturePolicy, HashPolicy, KeyPair, KeyError}
use noise.Lru.{Cache}
use noise.Opcode.{Fault}
use noise.Peer.{PeerId}
use noise.Plugins.{PluginList, each}
use noise.Wire.{Message, WireError}

-- `ConnState`, with what its writer has got and the deadline of the last write.
pub record ConnState : Type 0 where
  pub message_nonce : ℕ
  pub written : Bytes
  pub write_deadline : ℕ

-- The calls of `PluginInterface`; a client is known by its place among the clients.
pub data Event (M : Type 0) : Type 0 where
  startup : Event M
  cleanup : Event M
  peer_connect : ℕ → Event M
  peer_disconnect : ℕ → Event M
  receive : ℕ → Proto M → ℕ → Event M

-- `Network`. Clients are shared by pointer: they are held in `clients`, and `peers` has their
-- places. `hosts` is `domainLookupCache`, and `calls` the plugin calls so far.
pub record Network (M P L : Type 0) : Type 0 where
  pub address : Bytes
  pub id : PeerId
  pub keys : KeyPair
  pub plugins : PluginList P ℕ
  pub peers : List (Bytes × ℕ)
  pub connections : List (Bytes × ConnState)
  pub transports : List (Bytes × L)
  pub clients : List (PeerClient M Message)
  pub hosts : Cache Bytes
  pub calls : List (P × Event M)
  pub write_timeout : ℕ
  pub listening : Bool
  pub killed : Bool

-- What is not in the repository: Go's net packages, the transports' `Dial`, protobuf, and the two
-- policies. `fill` decodes into an empty message.
pub record World (M L E : Type 0) : Type 0 where
  pub go : NetPackage E
  pub dial_layer : L → Bytes → Option E
  pub type_of : Proto M → ℕ
  pub marshal : Proto M → Result E Bytes
  pub clone : Proto M → Proto M
  pub fill : Proto M → Bytes → Result E (Proto M)
  pub marshal_message : Message → Result E Bytes
  pub unmarshal_message : Bytes → Result E Message
  pub signature_policy : SignaturePolicy E
  pub hash_policy : HashPolicy

pub data NetworkError (E : Type 0) : Type 0 where
  address_error : AddressError E → NetworkError E
  dials_itself : NetworkError E
  failed_to_connect : NetworkError E
  dial_error : E → NetworkError E
  message_is_null : NetworkError E
  opcode_error : Fault E → NetworkError E
  marshal_error : E → NetworkError E
  sign_error : KeyError E → NetworkError E
  no_connection : NetworkError E
  send_error : WireError E → NetworkError E
  no_session : NetworkError E

module _ {M P L : Type 0} where
  -- A call of every plugin, in order.
  unfoldable pub notify : Network M P L → Event M → Network M P L
  unfolding each
  notify net event = record net {
    calls = each net.plugins (λ p calls. calls ++ ((p, event) ∷ [])) net.calls;
  }

  -- The client at a place is replaced.
  unfoldable pub put_client : Network M P L → ℕ → PeerClient M Message → Network M P L
  put_client net place c = record net { clients = set net.clients place c }
