-- ===== src/Dht/Tests.antt =====
-- A routing table over keys of one byte, and the theorems on it.
use noise.Base.Sort.{sort}
use noise.Base.Hex.{hex_encode}
use noise.Dht.Nearest.{Nearest, find_closest_peers-Nearest}
use noise.Dht.Faults.{peer_exists_panic}
use noise.Dht.Update.{update-IsRouting, has_room, peer_exists-remove_peer, peer_exists-update}
use noise.Dht.Listing.{Fresh, IsListed, get_peers_unique}
use noise.Dht.Bucket.{IsBucket}
use noise.Dht.Table.{IsPlaced, IsRouting}
use noise.Peer.Distance.{IsPair}
use noise.Base.{
  ◌&&◌, ◌<◌, All, Bool, List, [], arith, bytes_beq, done, length, not, panic, refl, ◌||◌, ℕ, ◌∷◌,
  ◌≡◌, ◌≢◌,
}
use noise.Peer.{
  PeerId, equals, public_key_hex, bytes_lt, less, xor_bytes, xor_id, leading_zeros8, prefix_from,
  prefix_len,
}
use noise.Dht.{
  RoutingTable, update, create_routing_table, get_peers, find_closest_peers, remove_peer,
  peer_exists, get_peer_addresses, equals, public_key_hex, less, xor_id, prefix_len, sort,
}

program : Unit {0}
unfolding update create_routing_table remove_peer peer_exists get_peers get_peer_addresses
    find_closest_peers equals bytes_beq bytes_lt less public_key_hex hex_encode xor_bytes xor_id
    leading_zeros8 prefix_from prefix_len sort
program = tt

abbrev named : ℕ → PeerId
named k = record { address = k ∷ []; public_key = k ∷ k ∷ []; id = k ∷ [] }

-- The node 0, which knows 128 in bucket 0, 32 in bucket 2 and 1 in the last bucket.
abbrev small_table : RoutingTable
small_table = record {
  self = named 0;
  buckets =
      (named 128 ∷ []) ∷ [] ∷ (named 32 ∷ []) ∷ [] ∷ [] ∷ [] ∷ [] ∷ (named 1 ∷ named 0 ∷ []) ∷ [];
}

created :
    create_routing_table (named 0)
    ≡ done (record {
      self = named 0;
      buckets = [] ∷ [] ∷ [] ∷ [] ∷ [] ∷ [] ∷ [] ∷ (named 0 ∷ []) ∷ [];
    })
unfolding program
created = refl

listed : get_peers small_table ≡ named 128 ∷ named 32 ∷ named 1 ∷ []
unfolding program
listed = refl

-- A known peer moves to the front of its bucket, and keeps the address that it had.
moved :
    update small_table (record { address = 99 ∷ []; public_key = []; id = 0 ∷ [] })
    ≡ done (record small_table {
      buckets =
          (named 128 ∷ [])
          ∷ []
          ∷ (named 32 ∷ [])
          ∷ []
          ∷ []
          ∷ []
          ∷ []
          ∷ (named 0 ∷ named 1 ∷ [])
          ∷ [];
    })
unfolding program
moved = refl

closest : find_closest_peers small_table (named 2) 3 ≡ done (named 0 ∷ named 1 ∷ named 32 ∷ [])
unfolding program
closest = refl

-- Searched for from the empty bucket 1, peer 128 of bucket 0 is met first, and peer 16 of bucket 3,
-- which is closer, is not looked for.
missed :
    find_closest_peers
      (record small_table {
        buckets = (named 128 ∷ []) ∷ [] ∷ [] ∷ (named 16 ∷ []) ∷ [] ∷ [] ∷ [] ∷ (named 0 ∷ []) ∷ [];
      })
      (named 64)
      1
    ≡ done (named 128 ∷ [])
unfolding program
missed = refl

named-IsPair : (k : ℕ) → k < 256 → IsPair (named k) (named 0)
named-IsPair k h = record { same_length = refl; left_bytes = (h, tt); right_bytes = omega arith }

named_128-IsPlaced : IsPlaced (named 0) 0 (named 128)
unfolding program
named_128-IsPlaced = record { pair = named-IsPair 128 (omega arith); index = refl }

named_32-IsPlaced : IsPlaced (named 0) 2 (named 32)
unfolding program
named_32-IsPlaced = record { pair = named-IsPair 32 (omega arith); index = refl }

named_1-IsPlaced : IsPlaced (named 0) 7 (named 1)
unfolding program
named_1-IsPlaced = record { pair = named-IsPair 1 (omega arith); index = refl }

named_0-IsPlaced : IsPlaced (named 0) 7 (named 0)
unfolding program
named_0-IsPlaced = record { pair = named-IsPair 0 (omega arith); index = refl }

nil-IsBucket : IsBucket []
nil-IsBucket = record { small = omega arith; distinct = tt }

one-IsBucket : (p : PeerId) → IsBucket (p ∷ [])
one-IsBucket p = record { small = omega arith; distinct = (tt, tt) }

last-IsBucket : IsBucket (named 1 ∷ named 0 ∷ [])
unfolding program
last-IsBucket = record { small = omega arith; distinct = ((refl, tt), (tt, tt)) }

small_table-IsRouting : IsRouting small_table
small_table-IsRouting = record {
  self_bytes = omega arith;
  self_named = omega arith;
  count = refl;
  placed = (
    one-IsBucket (named 128),
    (named_128-IsPlaced, tt),
    (
      nil-IsBucket,
      tt,
      (
        one-IsBucket (named 32),
        (named_32-IsPlaced, tt),
        (
          nil-IsBucket,
          tt,
          (
            nil-IsBucket,
            tt,
            (
              nil-IsBucket,
              tt,
              (nil-IsBucket, tt, (last-IsBucket, (named_1-IsPlaced, (named_0-IsPlaced, tt)), tt)),
            ),
          ),
        ),
      ),
    ),
  );
}

update-IsRouting_example :
    (t' : RoutingTable) × (update small_table (named 64) ≡ done t')
    × IsRouting t'
    × (t'.self ≡ named 0)
    × (length small_table.self.id ≢ length (named 64).id → t' ≡ small_table)
update-IsRouting_example =
    update-IsRouting small_table (named 64) small_table-IsRouting (omega arith)

peer_exists-update_example :
    (t' : RoutingTable) × (old : Bool) × (update small_table (named 64) ≡ done t')
    × (peer_exists small_table (named 32) ≡ done old)
    × (peer_exists t' (named 32)
        ≡ done (old || (equals (named 64) (named 32) && has_room small_table (named 64))))
peer_exists-update_example =
    peer_exists-update small_table (named 64) (named 32) small_table-IsRouting
      (named-IsPair 64 (omega arith)) (named-IsPair 32 (omega arith))

peer_exists-remove_peer_example :
    (t' : RoutingTable) × (removed old : Bool) × (remove_peer small_table (named 32)
      ≡ done (t', removed))
    × (peer_exists small_table (named 32) ≡ done removed)
    × (peer_exists small_table (named 1) ≡ done old)
    × (peer_exists t' (named 1) ≡ done (old && not (equals (named 32) (named 1))))
peer_exists-remove_peer_example =
    peer_exists-remove_peer small_table (named 32) (named 1) small_table-IsRouting
      (named-IsPair 32 (omega arith)) (named-IsPair 1 (omega arith))

long_key : PeerId
long_key = record { address = []; public_key = []; id = 0 ∷ 7 ∷ [] }

peer_exists_panic_example :
    (peer_exists small_table long_key ≡ panic)
    × (remove_peer small_table long_key ≡ panic)
    × (update small_table long_key ≡ done small_table)
unfolding long_key
peer_exists_panic_example =
    peer_exists_panic small_table long_key (7 ∷ []) small_table-IsRouting refl (omega arith)

get_peers_unique_example :
    Fresh (public_key_hex (named 0) ∷ []) (get_peers small_table)
    × All
        (All (IsListed (public_key_hex (named 0) ∷ []) (get_peers small_table)))
        small_table.buckets
get_peers_unique_example = get_peers_unique small_table

find_closest_peers-Nearest_example :
    (peers : List PeerId) × (find_closest_peers small_table (named 64) 2 ≡ done peers)
    × Nearest small_table (named 64) 2 peers
find_closest_peers-Nearest_example =
    find_closest_peers-Nearest small_table (named 64) 2 small_table-IsRouting
      (named-IsPair 64 (omega arith))
