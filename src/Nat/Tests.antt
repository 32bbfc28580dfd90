-- ===== src/Nat/Tests.antt =====
-- A gateway that maps each port to the next one.
use noise.Base.Int.{pos}
use noise.Lru.{new_cache}
use noise.Network.State.{Network}
use noise.Nat.{Gateway, NatPlugin, startup, use_gateway, map_port, readdress}
use noise.Address.{NetPackage, parse_address, address_string, host_port}
use noise.Base.{bytes_Key, number_Key, ◌+◌, ◌++◌, [], err, false, none, ok, refl, true, ℕ, ◌∷◌, ◌≡◌}

abbrev tests_package : NetPackage ℕ
tests_package = record {
  parse_url = λ bs. ok ([], bs);
  split_host_port = λ bs. ok (bs, bs);
  parse_uint = λ bs. ok 80;
  join_host_port = λ h p. h ++ p;
  itoa = λ n. n ∷ [];
  is_ip = λ bs. true;
  lookup_host = λ bs. err 0;
  trim_space = λ bs. bs;
}

abbrev next_port : Gateway ℕ
next_port = record {
  internal_address = ok (1 ∷ []);
  external_address = ok (2 ∷ []);
  add_port_mapping = λ port. ok (port + 1);
  delete_port_mapping = λ port. none;
}

abbrev new_plugin : NatPlugin ℕ
new_plugin = record {
  gateway = none;
  internal_ip = none;
  external_ip = none;
  internal_port = 0;
  external_port = 0;
}

abbrev net : Network ℕ ℕ ℕ
net = record {
  address = 97 ∷ [];
  id = record { address = 97 ∷ []; public_key = 1 ∷ []; id = 1 ∷ [] };
  keys = record { private_key = 1 ∷ []; public_key = 1 ∷ [] };
  plugins = record { keys = []; values = [] };
  peers = [];
  connections = [];
  transports = [];
  clients = [];
  hosts = new_cache (pos 10);
  calls = [];
  write_timeout = 3;
  listening = false;
  killed = false;
}

readdressed :
    (startup tests_package (λ bs. bs) (ok next_port) new_plugin net).1.address ≡ 2 ∷ 81 ∷ []
unfolding startup use_gateway map_port readdress parse_address address_string host_port
readdressed = refl
