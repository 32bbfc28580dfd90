-- ===== src/Address/Tests.antt =====
-- Hosts of one letter, where `a` is a name of the local host and `b` has no address.
use noise.Address.Filter.{filter_peers-Fresh, Sane, all_unified, filter_peers}
use noise.Address.Fresh.{Fresh, seen}
use noise.Address.{
  resolve, localhost_v6, NetPackage, to_unified_host, localhost_v4, no_available_addresses,
  AddressInfo,
}
use noise.Base.{
  ◌++◌, ◌-◌, Bytes, List, Result, [], bytes_beq, done, drop, err, false, if◌then◌else◌, length,
  nat_beq, ok, refl, take, ℕ, ◌∷◌, ◌≡◌, ◌&&◌, not,
}
use noise.Base.Int.{pos}
use noise.Lru.{Cache, new_cache, get}
use noise.Lru.Refine.{new_cache-IsCache}

program : Unit {0}
unfolding resolve to_unified_host get new_cache bytes_beq
program = tt

look_up : Bytes → Result ℕ (List Bytes)
look_up [] = err 0
look_up (c ∷ cs) = if nat_beq c 97 then ok (localhost_v6 ∷ []) else err 1

first_digit : Bytes → Result ℕ ℕ
first_digit [] = err 0
first_digit (n ∷ rest) = ok n

-- A scheme and a port are one byte each.
abbrev toy : NetPackage ℕ
toy = record {
  parse_url = λ bs. ok (take 1 bs, drop 4 bs);
  split_host_port = λ bs. ok (take (length bs - 1) bs, drop (length bs - 1) bs);
  parse_uint = first_digit;
  join_host_port = λ h p. h ++ p;
  itoa = λ n. n ∷ [];
  is_ip = λ bs. false;
  lookup_host = look_up;
  trim_space = λ bs. bs;
}

abbrev hosts : Cache Bytes
hosts = new_cache (pos 1000)

localhost : resolve toy (97 ∷ []) ≡ ok localhost_v4
unfolding program look_up
localhost = refl

unknown : resolve toy (98 ∷ []) ≡ err no_available_addresses
unfolding program look_up
unknown = refl

abbrev server : AddressInfo
server = record { protocol = b't' ∷ []; host = 97 ∷ []; port = 80 }

hosts-Sane : Sane toy 999 hosts
unfolding new_cache
hosts-Sane = record { formed = new_cache-IsCache 999; faithful = tt }

-- Twice the local host with the port 80 and once with 81.
abbrev peers : List Bytes
peers =
    (116 ∷ 58 ∷ 47 ∷ 47 ∷ 97 ∷ 80 ∷ [])
    ∷ (116 ∷ 58 ∷ 47 ∷ 47 ∷ 97 ∷ 80 ∷ [])
    ∷ (116 ∷ 58 ∷ 47 ∷ 47 ∷ 97 ∷ 81 ∷ [])
    ∷ []

filter_peers-Fresh_example :
    (c' : Cache Bytes) × (out : List Bytes) × (filter_peers toy hosts (1 ∷ []) peers
      ≡ done (c', out))
    × Sane toy 999 c'
    × Fresh ((1 ∷ []) ∷ []) out
    × ((b : Bytes) → seen b out ≡ (seen b (all_unified toy peers) && not (bytes_beq b (1 ∷ []))))
filter_peers-Fresh_example = filter_peers-Fresh toy 999 hosts (1 ∷ []) peers hosts-Sane
