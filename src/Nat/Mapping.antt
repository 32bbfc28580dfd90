-- ===== src/Nat/Mapping.antt =====
-- What `Startup` of network/nat/plugin.go comes to.
use noise.Base.{Bytes, ◌%◌, Result, err, none, ok, some, ℕ, ◌≡◌}
use noise.Address.{NetPackage, AddressInfo, AddressError, parse_address}
use noise.Network.State.{Network}
use noise.Nat.{NatPlugin, Gateway, cleanup, readdress, u16_mod}

-- Why nothing is mapped: the address does not parse, there is no gateway, it has no internal or
-- external address, or it maps no port.
pub data Hindrance {M P L E : Type 0} (go : NetPackage E) (discovered : Result E (Gateway E))
    (net : Network M P L) : Type 0 where
  bad_address :
      (e : AddressError E) → parse_address go net.address ≡ err e → Hindrance go discovered net
  no_gateway : (e : E) → discovered ≡ err e → Hindrance go discovered net
  no_internal :
      (g : Gateway E) (e : E)
      → discovered ≡ ok g
      → g.internal_address ≡ err e
      → Hindrance go discovered net
  no_external :
      (g : Gateway E) (e : E)
      → discovered ≡ ok g
      → g.external_address ≡ err e
      → Hindrance go discovered net
  no_port :
      (info : AddressInfo) (g : Gateway E) (e : E)
      → parse_address go net.address ≡ ok info
      → discovered ≡ ok g
      → g.add_port_mapping info.port ≡ err e
      → Hindrance go discovered net

-- Nothing is mapped, for a reason: the network stays, and nothing will be unmapped.
pub record Unmapped {M P L E : Type 0} (go : NetPackage E) (discovered : Result E (Gateway E))
    (net : Network M P L) (r : NatPlugin E × Network M P L) : Type 0 where
  pub hindrance : Hindrance go discovered net
  pub network : r.1 ≡ net
  pub cleans : cleanup r.0 ≡ none

module _ {M P L E : Type 0} (go : NetPackage E) (hash_id : Bytes → Bytes) where
  -- A port is mapped, and the network has the external address; it will be unmapped.
  pub record Mapped (discovered : Result E (Gateway E)) (net : Network M P L)
      (r : NatPlugin E × Network M P L) : Type 0 where
    pub info : AddressInfo
    pub own : parse_address go net.address ≡ ok info
    pub gateway : Gateway E
    pub found : discovered ≡ ok gateway
    pub external : Bytes
    pub seen : gateway.external_address ≡ ok external
    pub port : ℕ
    pub mapped : gateway.add_port_mapping info.port ≡ ok port
    pub network :
        r.1 ≡ readdress go hash_id net (record info { host = external; port = port % u16_mod })
    pub cleans : cleanup r.0 ≡ some info.port
