-- ===== src/Builder/Tests.antt =====
-- A builder with two plugins, whose types are the plugins themselves.
use noise.Base.Maps.{load, store, delete}
use noise.Peer.{create_id}
use noise.Plugins.{put, put_info, new_plugin_list}
use noise.Network.State.{Network}
use noise.Base.Int.{pos}
use noise.Builder.Order.{Apart, add_plugins, in_order, build-add_plugins}
use noise.Lru.{get, Cache, new_cache, evict}
use noise.Builder.{
  Builder, set_address, add_plugin, new_builder, pos, add_plugin_with_priority,
  register_transport_layer, plugged, Network, counted, build, plugins_of, put, create_id,
  new_plugin_list, duplicate_plugin,
}
use noise.Crypto.{KeyPair, SignaturePolicy}
use noise.Address.{
  NetPackage, to_unified_address, to_unified_host, parse_address, address_string, host_port,
  resolve,
}
use noise.Base.{
  number_Key, bytes_Key, Bytes, List, [], arith, bytes_beq, done, err, false, ok, refl, some, true,
  ℕ, ◌∷◌, ◌≡◌,
}

abbrev tests_package : NetPackage ℕ
tests_package = record {
  parse_url = λ bs. ok ([], bs);
  split_host_port = λ bs. ok (bs, bs);
  parse_uint = λ bs. ok 80;
  join_host_port = λ h p. h;
  itoa = λ n. [];
  is_ip = λ bs. true;
  lookup_host = λ bs. err 0;
  trim_space = λ bs. bs;
}

abbrev server : Bytes
server = 97 ∷ []

abbrev pair : KeyPair
pair = record { private_key = 1 ∷ 2 ∷ []; public_key = 1 ∷ 2 ∷ [] }

abbrev no_policy : SignaturePolicy ℕ
no_policy = record {
  private_key_size = 2;
  private_to_public = λ k. ok k;
  public_key_size = 2;
  sign_with = λ k message. [];
  verify_with = λ public message signature. false;
}

abbrev builder : Builder ℕ ℕ ℕ
builder = set_address (new_builder no_policy (record { hash_bytes = λ bs. bs }) pair 1 2) server

abbrev hosts : Cache Bytes
hosts = new_cache (pos 2)

abbrev one_host : Cache Bytes
one_host = record {
  order = record { key = server; value = server } ∷ [];
  items = (server, record { key = server; value = server }) ∷ [];
  limit = pos 2;
}

resolved : to_unified_address tests_package hosts server ≡ done (one_host, ok server)
unfolding to_unified_address to_unified_host parse_address address_string host_port resolve get
    new_cache evict bytes_beq load store delete
resolved = refl

abbrev two_plugins : List ℕ
two_plugins = 5 ∷ 3 ∷ []

two_plugins-Apart : Apart (λ p. p) two_plugins
unfolding Apart
two_plugins-Apart = ((omega arith, tt), (tt, tt))

build-add_plugins_example :
    (b' : Builder ℕ ℕ ℕ) × (net : Network ℕ ℕ ℕ) × (build tests_package
        (λ bs. bs)
        hosts
        (add_plugins (λ p. p) builder two_plugins)
      ≡ done (one_host, b', ok net))
    × (in_order net.plugins.values ≡ two_plugins)
    × (net.address ≡ server)
    × (net.keys ≡ pair)
    × (net.id ≡ create_id (λ bs. bs) server (1 ∷ 2 ∷ []))
unfolding set_address new_builder register_transport_layer
build-add_plugins_example =
    build-add_plugins (λ p. p) tests_package (λ bs. bs) hosts one_host builder pair server
      two_plugins refl refl two_plugins-Apart refl (omega arith) resolved

-- A second plugin of one type is refused.
refused : (add_plugin (λ p. 0) (add_plugin (λ p. 0) builder 5).0 3).1 ≡ some (duplicate_plugin 0)
unfolding add_plugin add_plugin_with_priority plugged counted plugins_of put put_info
    new_plugin_list set_address new_builder register_transport_layer load store
refused = refl
