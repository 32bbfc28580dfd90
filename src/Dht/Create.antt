-- ===== src/Dht/Create.antt =====
-- `CreateRoutingTable`, and the operations on a peer whose key is too long for the table.
use noise.Dht.Update.{update-IsRouting, peer_exists-update, has_room}
use noise.Peer.Distance.{IsPair}
use noise.Dht.Table.{IsRouting, Buckets-replicate, find-Spot}
use noise.Peer.{PeerId, IsBytes, equals}
use noise.Base.{
  ◌*◌, ◌<◌, [], arith, done, length, length-replicate, refl, replicate, true, ◌≡◌, List, ◌&&◌, ap,
  bytes_beq_refl, sym, ◌||◌, ◌∙◌, get_elem?-replicate,
}
use noise.Dht.{RoutingTable, PeerId, create_routing_table, peer_exists, bucket, equals}

abbrev blank : PeerId → RoutingTable
blank id = record { self = id; buckets = replicate (length id.id * 8) [] }

blank-IsRouting : (id : PeerId) → IsBytes id.id → 0 < length id.id → IsRouting (blank id)
blank-IsRouting id h l = record {
  self_bytes = h;
  self_named = l;
  count = length-replicate (length id.id * 8) [];
  placed = Buckets-replicate id 0 (length id.id * 8);
}

blank_room : (id : PeerId) → IsBytes id.id → 0 < length id.id → has_room (blank id) id ≡ true
unfolding bucket
blank_room id h l =
    let w : IsPair id id = record { same_length = refl; left_bytes = h; right_bytes = h } in
    let s = find-Spot (blank id) id (blank-IsRouting id h l) w in
    let low : s.at < length id.id * 8 =
      omega (arith, s.below, length-replicate {A = List PeerId} (length id.id * 8) []) in
    ground (arith, s.index, get_elem?-replicate {A = List PeerId} (length id.id * 8) s.at [] low)

-- For a key of at least one byte, CreateRoutingTable returns a well-formed table of the node,
-- which holds the node itself.
pub create_routing_table-IsRouting :
    (id : PeerId)
    → IsBytes id.id
    → 0 < length id.id
    → (t : RoutingTable) × (create_routing_table id ≡ done t)
      × IsRouting t
      × (t.self ≡ id)
      × (peer_exists t id ≡ done true)
unfolding create_routing_table equals
create_routing_table-IsRouting id h l =
    let v = blank-IsRouting id h l in
    let w : IsPair id id = record { same_length = refl; left_bytes = h; right_bytes = h } in
    let (t, e, r, s, _) = update-IsRouting (blank id) id v h in
    let (t', old, e', was, now) = peer_exists-update (blank id) id id v w w in
    let same : t' ≡ t = cc in
    let self_equal = bytes_beq_refl id.id in
    let room = blank_room id h l in
    let known : (old || (equals id id && has_room (blank id) id)) ≡ true = ground arith in
    (t, e, r, s, ap (λ (x : RoutingTable). peer_exists x id) (sym same) ∙ now ∙ ap done known)
