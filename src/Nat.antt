-- ===== src/Nat.antt =====
-- network/nat/plugin.go: the plugin that maps a port of the gateway to the node's own. The gateway is
-- go-nat's; the log calls are left out.
pub mod Mapping
mod Tests
use noise.Base.{Bytes, List, ◌%◌, Option, Result, ◌^◌, err, none, ok, some, ℕ}
use noise.Address.{NetPackage, AddressInfo, parse_address, address_string}
use noise.Network.State.{Network}
use noise.Peer.{create_id}

-- `nat.NAT`, with addresses as text: the port that `AddPortMapping` gives is an int.
pub record Gateway (E : Type 0) : Type 0 where
  pub internal_address : Result E Bytes
  pub external_address : Result E Bytes
  pub add_port_mapping : ℕ → Result E ℕ
  pub delete_port_mapping : ℕ → Option E

-- `plugin`; none is nil.
pub record NatPlugin (E : Type 0) : Type 0 where
  pub gateway : Option (Gateway E)
  pub internal_ip : Option Bytes
  pub external_ip : Option Bytes
  pub internal_port : ℕ
  pub external_port : ℕ

-- The bound of uint16.
abbrev pub u16_mod : ℕ
u16_mod = 2 ^ 16

-- The network under its new address.
unfoldable pub readdress :
    {M P L E : Type 0}
    → NetPackage E
    → (Bytes → Bytes)
    → Network M P L
    → AddressInfo
    → Network M P L
unfolding address_string create_id
readdress go hash_id net info = record net {
  address = address_string go info;
  id = create_id hash_id (address_string go info) net.keys.public_key;
}

module _ {M P L E : Type 0} (go : NetPackage E) (hash_id : Bytes → Bytes) where
  -- `Startup` after the external address is known.
  unfoldable pub map_port :
      NatPlugin E → Network M P L → AddressInfo → Gateway E → Bytes → NatPlugin E × Network M P L
  unfolding readdress
  map_port p net info gateway external = elim (gateway.add_port_mapping p.internal_port) [
    | err e ↦ (record p { external_port = 0 }, net)
    | ok port ↦ (
      record p { external_port = port; gateway = some gateway },
      readdress go hash_id net (record info { host = external; port = port % u16_mod }),
    )
  ]

  -- `Startup` with a gateway.
  unfoldable pub use_gateway :
      NatPlugin E → Network M P L → AddressInfo → Gateway E → NatPlugin E × Network M P L
  unfolding map_port
  use_gateway p net info gateway = elim gateway.internal_address [
    | err e ↦ (record p { internal_ip = none }, net)
    | ok internal ↦ elim gateway.external_address [
      | err e ↦ (record p { internal_ip = some internal; external_ip = none }, net)
      | ok external ↦
          map_port (record p { internal_ip = some internal; external_ip = some external }) net info
            gateway external
    ]
  ]

  -- `Startup`, where `discovered` is what `nat.DiscoverGateway` finds.
  unfoldable pub startup :
      Result E (Gateway E) → NatPlugin E → Network M P L → NatPlugin E × Network M P L
  unfolding parse_address use_gateway
  startup discovered p net = elim (parse_address go net.address) [
    | err e ↦ (p, net)
    | ok info ↦
        let p' = record p { internal_port = info.port } in
        elim discovered [ err e ↦ (p', net) | ok gateway ↦ use_gateway p' net info gateway ]
  ]

-- `Cleanup`: the port whose mapping is deleted. An error is only logged.
unfoldable pub cleanup : {E : Type 0} → NatPlugin E → Option ℕ
cleanup p = elim p.gateway [ none ↦ none | some gateway ↦ some p.internal_port ]
