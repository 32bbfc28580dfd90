-- ===== src/Builder.antt =====
-- network/builder.go: the builder of networks. A pointer to a plugin list that the network shares is
-- copied; numbers of options and durations are not negative. The default policies, the default
-- transports and random keys come from outside.
pub mod Order
mod Tests
use noise.Lru.{Cache}
use noise.Base.{
  number_Key, bytes_Key, Bytes, List, length, ◌+◌, ◌++◌, ◌>>=◌, Option, Outcome, Result, [], done,
  err, false, if◌then◌else◌, nat_beq, none, ok, some, ℕ, ◌∷◌, Bool, true,
}
use noise.Base.Int.{pos, ℤ}
use noise.Base.Maps.{store}
use noise.Address.{NetPackage, AddressError, to_unified_address}
use noise.Crypto.{SignaturePolicy, HashPolicy, KeyPair}
use noise.Network.State.{Network}
use noise.Peer.{create_id}
use noise.Plugins.{PluginList, new_plugin_list, put, sort_by_priority}

-- Durations are in milliseconds.
pub record Options (E : Type 0) : Type 0 where
  pub connection_timeout : ℕ
  pub signature_policy : SignaturePolicy E
  pub hash_policy : HashPolicy
  pub recv_window_size : ℕ
  pub send_window_size : ℕ
  pub write_buffer_size : ℕ
  pub write_flush_latency : ℕ
  pub write_timeout : ℕ

-- `BuilderOption`: what the functions that the options' names stand for hold.
pub data BuilderOption (E : Type 0) : Type 0 where
  connection_timeout : ℕ → BuilderOption E
  with_signature_policy : SignaturePolicy E → BuilderOption E
  with_hash_policy : HashPolicy → BuilderOption E
  recv_window_size : ℕ → BuilderOption E
  send_window_size : ℕ → BuilderOption E
  write_buffer_size : ℕ → BuilderOption E
  write_flush_latency : ℕ → BuilderOption E
  write_timeout : ℕ → BuilderOption E

-- none is a nil pointer.
pub record Builder (P L E : Type 0) : Type 0 where
  pub opts : Options E
  pub keys : Option KeyPair
  pub address : Bytes
  pub plugins : Option (PluginList P ℕ)
  pub plugin_count : ℕ
  pub transports : List (Bytes × L)

pub data BuilderError (E : Type 0) : Type 0 where
  duplicate_plugin : ℕ → BuilderError E
  no_address : BuilderError E
  no_key_pair : BuilderError E
  address_not_unified : AddressError E → BuilderError E

-- `"tcp"`, `"kcp"` and `"tcp://localhost:8588"`.
abbrev pub tcp_name : Bytes
tcp_name = b't' ∷ b'c' ∷ b'p' ∷ []

abbrev pub kcp_name : Bytes
kcp_name = b'k' ∷ b'c' ∷ b'p' ∷ []

abbrev pub default_address : Bytes
default_address =
    tcp_name
    ++ (b':' ∷ b'/' ∷ b'/' ∷ b'l' ∷ b'o' ∷ b'c' ∷ b'a' ∷ b'l' ∷ b'h' ∷ b'o' ∷ b's' ∷ b't' ∷ b':'
        ∷ b'8' ∷ b'5' ∷ b'8' ∷ b'8' ∷ [])

module _ {E : Type 0} where
  -- `defaultBuilderOptions`, with ed25519's and BLAKE2b's policies.
  unfoldable pub default_builder_options : SignaturePolicy E → HashPolicy → Options E
  default_builder_options ed25519 blake2b = record {
    connection_timeout = 60000;
    signature_policy = ed25519;
    hash_policy = blake2b;
    recv_window_size = 4096;
    send_window_size = 4096;
    write_buffer_size = 4096;
    write_flush_latency = 50;
    write_timeout = 3000;
  }

  -- The options' functions.
  unfoldable pub apply_option : BuilderOption E → Options E → Options E
  apply_option (connection_timeout d) o = record o { connection_timeout = d }
  apply_option (with_signature_policy policy) o = record o { signature_policy = policy }
  apply_option (with_hash_policy policy) o = record o { hash_policy = policy }
  apply_option (recv_window_size size) o = record o { recv_window_size = size }
  apply_option (send_window_size size) o = record o { send_window_size = size }
  apply_option (write_buffer_size size) o = record o { write_buffer_size = size }
  apply_option (write_flush_latency d) o = record o { write_flush_latency = d }
  apply_option (write_timeout d) o = record o { write_timeout = d }

  unfoldable pub apply_options : List (BuilderOption E) → Options E → Options E
  unfolding apply_option
  apply_options [] o = o
  apply_options (f ∷ fs) o = apply_options fs (apply_option f o)

module _ {P L E : Type 0} where
  unfoldable pub register_transport_layer : Builder P L E → Bytes → L → Builder P L E
  unfolding store
  register_transport_layer b name layer = record b { transports = store name layer b.transports }

  unfoldable pub clear_transport_layers : Builder P L E → Builder P L E
  clear_transport_layers b = record b { transports = [] }

  -- `NewBuilder`.
  unfoldable pub new_builder : SignaturePolicy E → HashPolicy → KeyPair → L → L → Builder P L E
  unfolding register_transport_layer default_builder_options
  new_builder ed25519 blake2b random_keys tcp kcp =
      let builder : Builder P L E = record {
        opts = default_builder_options ed25519 blake2b;
        keys = some random_keys;
        address = default_address;
        plugins = none;
        plugin_count = 0;
        transports = [];
      } in
      register_transport_layer (register_transport_layer builder tcp_name tcp) kcp_name kcp

  -- `NewBuilderWithOptions`, for the builder that `NewBuilder` returns.
  unfoldable pub with_options : List (BuilderOption E) → Builder P L E → Builder P L E
  unfolding apply_options
  with_options fs b = record b { opts = apply_options fs b.opts }

  unfoldable pub set_keys : Builder P L E → Option KeyPair → Builder P L E
  set_keys b pair = record b { keys = pair }

  unfoldable pub set_address : Builder P L E → Bytes → Builder P L E
  set_address b address = record b { address = address }

  -- The plugin list, which is made when it is not there.
  unfoldable pub plugins_of : Builder P L E → PluginList P ℕ
  unfolding new_plugin_list
  plugins_of b = elim b.plugins [ none ↦ new_plugin_list | some m ↦ m ]

  -- What `AddPluginWithPriority` does with what `Put` returns.
  unfoldable pub plugged :
      Builder P L E → ℕ → PluginList P ℕ × Bool → Builder P L E × Option (BuilderError E)
  plugged b ty (m, true) = (record b { plugins = some m }, none)
  plugged b ty (m, false) = (record b { plugins = some m }, some (duplicate_plugin ty))

  -- Without an error the count grows.
  unfoldable pub counted :
      Builder P L E × Option (BuilderError E) → Builder P L E × Option (BuilderError E)
  counted (b, none) = (record b { plugin_count = b.plugin_count + 1 }, none)
  counted (b, some e) = (b, some e)

module _ {P L E : Type 0} (type_of : P → ℕ) where
  -- The error: none is nil.
  unfoldable pub add_plugin_with_priority :
      Builder P L E → ℤ → P → Builder P L E × Option (BuilderError E)
  unfolding plugins_of put plugged
  add_plugin_with_priority b priority plugin =
      plugged b (type_of plugin) (put type_of (plugins_of b) priority plugin)

  unfoldable pub add_plugin : Builder P L E → P → Builder P L E × Option (BuilderError E)
  unfolding add_plugin_with_priority counted
  add_plugin b plugin = counted (add_plugin_with_priority b (pos b.plugin_count) plugin)

module _ {M P L E : Type 0} (go : NetPackage E) (hash_id : Bytes → Bytes) where
  -- The network of a unified address and keys; `hosts` is the cache that is shared by all networks.
  unfoldable pub network_of :
      Builder P L E → PluginList P ℕ → KeyPair → Bytes → Cache Bytes → Network M P L
  unfolding create_id
  network_of b plugins keys address hosts = record {
    address = address;
    id = create_id hash_id address keys.public_key;
    keys = keys;
    plugins = plugins;
    peers = [];
    connections = [];
    transports = b.transports;
    clients = [];
    hosts = hosts;
    calls = [];
    write_timeout = b.opts.write_timeout;
    listening = false;
    killed = false;
  }

  -- `Build` with keys and an address: the plugin list is sorted before the address is resolved.
  unfoldable pub build_with :
      Cache Bytes
      → Builder P L E
      → KeyPair
      → Outcome (Cache Bytes × Builder P L E × Result (BuilderError E) (Network M P L))
  unfolding to_unified_address network_of sort_by_priority plugins_of
  build_with hosts b keys =
      let m = sort_by_priority (plugins_of b) in
      let b' = record b { plugins = some m } in
      to_unified_address go hosts b.address >>= λ (hosts', r). done (
        hosts',
        b',
        elim r [
          | err e ↦ err (address_not_unified e)
          | ok unified ↦ ok (network_of b' m keys unified hosts')
        ],
      )

  -- `Build` with what the keys are.
  unfoldable pub build_keys :
      Cache Bytes
      → Builder P L E
      → Option KeyPair
      → Outcome (Cache Bytes × Builder P L E × Result (BuilderError E) (Network M P L))
  unfolding build_with
  build_keys hosts b none = done (hosts, b, err no_key_pair)
  build_keys hosts b (some keys) =
      if nat_beq (length b.address) 0
      then done (hosts, b, err no_address)
      else build_with hosts b keys

  -- `Build`: the cache and the builder afterwards, and the network.
  unfoldable pub build :
      Cache Bytes
      → Builder P L E
      → Outcome (Cache Bytes × Builder P L E × Result (BuilderError E) (Network M P L))
  unfolding build_keys
  build hosts b = build_keys hosts b b.keys
