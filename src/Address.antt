-- ===== src/Address.antt =====
-- network/address.go: addresses as a protocol, a host and a port, and hosts resolved through the
-- cache. The parsing of URLs and numbers and the look-up of hosts are Go's packages.
pub mod Resolve
pub mod Fresh
pub mod Filter
mod Tests
use noise.Base.{
  ◌++◌, ◌>>=◌, Bool, Bytes, List, Outcome, Result, [], bytes_beq, done, err, if◌then◌else◌, length,
  ltb, nat_beq, ok, ℕ, ◌∷◌,
}
use noise.Lru.{Cache, get}

pub record AddressInfo : Type 0 where
  pub protocol : Bytes
  pub host : Bytes
  pub port : ℕ

unfoldable pub new_address_info : Bytes → Bytes → ℕ → AddressInfo
new_address_info protocol host port = record { protocol = protocol; host = host; port = port }

-- The packages net, net/url, strconv and strings: `url.Parse` as scheme and host, `net.SplitHostPort`,
-- `strconv.ParseUint` to base 10 with 16 bits, `net.JoinHostPort`, `strconv.Itoa`, whether
-- `net.ParseIP` is not nil, `net.LookupHost`, and `strings.TrimSpace`.
pub record NetPackage (E : Type 0) : Type 0 where
  pub parse_url : Bytes → Result E (Bytes × Bytes)
  pub split_host_port : Bytes → Result E (Bytes × Bytes)
  pub parse_uint : Bytes → Result E ℕ
  pub join_host_port : Bytes → Bytes → Bytes
  pub itoa : ℕ → Bytes
  pub is_ip : Bytes → Bool
  pub lookup_host : Bytes → Result E (List Bytes)
  pub trim_space : Bytes → Bytes

pub data AddressError (E : Type 0) : Type 0 where
  malformed : E → AddressError E
  address_empty : AddressError E
  no_available_addresses : AddressError E

-- `"://"`, `"::1"` and `"127.0.0.1"`.
abbrev pub scheme_mark : Bytes
scheme_mark = b':' ∷ b'/' ∷ b'/' ∷ []

abbrev pub localhost_v6 : Bytes
localhost_v6 = b':' ∷ b':' ∷ b'1' ∷ []

abbrev pub localhost_v4 : Bytes
localhost_v4 = b'1' ∷ b'2' ∷ b'7' ∷ b'.' ∷ b'0' ∷ b'.' ∷ b'0' ∷ b'.' ∷ b'1' ∷ []

module _ {E : Type 0} (go : NetPackage E) where
  unfoldable pub host_port : AddressInfo → Bytes
  host_port info = go.join_host_port info.host (go.itoa info.port)

  -- `String`.
  unfoldable pub address_string : AddressInfo → Bytes
  unfolding host_port
  address_string info =
      if ltb 0 (length info.protocol)
      then info.protocol ++ (scheme_mark ++ host_port info)
      else host_port info

  unfoldable pub format_address : Bytes → Bytes → ℕ → Bytes
  unfolding address_string new_address_info
  format_address protocol host port = address_string (new_address_info protocol host port)

  unfoldable pub parse_address : Bytes → Result (AddressError E) AddressInfo
  parse_address address = elim (go.parse_url address) [
    | err e ↦ err (malformed e)
    | ok (scheme, url_host) ↦ elim (go.split_host_port url_host) [
      | err e ↦ err (malformed e)
      | ok (host, raw_port) ↦ elim (go.parse_uint raw_port) [
        | err e ↦ err (malformed e)
        | ok port ↦ ok (record { protocol = scheme; host = host; port = port })
      ]
    ]
  ]

  -- The function that `ToUnifiedHost` hands to the cache.
  unfoldable pub resolve : Bytes → Result (AddressError E) Bytes
  resolve host = if go.is_ip host then ok host else elim (go.lookup_host host) [
    | err e ↦ err no_available_addresses
    | ok [] ↦ err no_available_addresses
    | ok (first ∷ others) ↦ if bytes_beq first localhost_v6 then ok localhost_v4 else ok first
  ]

  -- The cache afterwards, and the host: with an error the cache's value is nil.
  unfoldable pub to_unified_host :
      Cache Bytes → Bytes → Outcome (Cache Bytes × Result (AddressError E) Bytes)
  unfolding get resolve
  to_unified_host cache host = get cache host (resolve host) >>= λ (cache', r). elim r [
    | err e ↦ done (cache', err no_available_addresses)
    | ok unified ↦ done (cache', ok unified)
  ]

  unfoldable pub to_unified_address :
      Cache Bytes → Bytes → Outcome (Cache Bytes × Result (AddressError E) Bytes)
  unfolding parse_address to_unified_host address_string
  to_unified_address cache address =
      if nat_beq (length (go.trim_space address)) 0
      then done (cache, err address_empty)
      else elim (parse_address (go.trim_space address)) [
        | err e ↦ done (cache, err e)
        | ok info ↦ to_unified_host cache info.host >>= λ (cache', r). elim r [
          | err e ↦ done (cache', err e)
          | ok host ↦ done (cache', ok (address_string (record info { host = host })))
        ]
      ]
