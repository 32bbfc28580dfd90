-- ===== src/Discovery/Tests.antt =====
-- A node that knows itself, and searches among the peers 1, 2 and 3.
use noise.Discovery.Whole.{InTime, Settled, adds_upto, Enough, find_node-returns}
use noise.Dht.Create.{create_routing_table-IsRouting}
use noise.Base.Hex.{hex_encode}
use noise.Discovery.{
  Lookup, perform_lookup, visits, search, search_round, expand, add_found, start_queries,
  first_results, pull,
}
use noise.Discovery.Found.{Known, IsLookup, Distinct, keys_of}
use noise.Discovery.Ends.{Within, perform_lookup-IsLookup}
use noise.Discovery.Routes.{HasTarget, Received}
use noise.Discovery.Rpc.{receive-Received}
use noise.Client.{pong}
use noise.Discovery.Plugin.{
  Plugin, receive, Run, find_node, spread, grow, perform_all, visit_all, wait_done,
}
use noise.Dht.Table.{IsRouting}
use noise.Peer.{PeerId, xor_bytes, public_key_hex, xor_id, prefix_len, prefix_from, leading_zeros8}
use noise.Dht.{update, RoutingTable, create_routing_table, bucket_size, find_closest_peers}
use noise.Base.{
  min, panic, suc, zero, Bytes, List, [], arith, bytes_beq, done, false, refl, some, subst, sym, ℕ,
  ◌∙◌, ◌∷◌, ◌≡◌, length,
}

program : Unit {0}
unfolding update create_routing_table bytes_beq public_key_hex hex_encode xor_bytes xor_id
    prefix_len prefix_from leading_zeros8 visits keys_of Distinct
program = tt

abbrev named : ℕ → PeerId
named k = record { address = k ∷ []; public_key = k ∷ []; id = k ∷ [] }

abbrev alone : RoutingTable
alone = record { self = named 0; buckets = [] ∷ [] ∷ [] ∷ [] ∷ [] ∷ [] ∷ [] ∷ (named 0 ∷ []) ∷ [] }

alone_created : create_routing_table (named 0) ≡ done alone
unfolding program
alone_created = refl

alone-IsRouting : IsRouting alone
alone-IsRouting =
    let made = create_routing_table-IsRouting (named 0) (omega arith, tt) (omega arith) in
    let same : done made.0 ≡ done alone = sym made.1 ∙ alone_created in subst IsRouting (cc) made.2

abbrev plugin : Plugin
plugin = record {
  disable_ping = false;
  disable_pong = false;
  disable_lookup = false;
  routes = alone;
}

-- Every peer answers with 2 and 3; the oldest query ends first.
abbrev answers : ℕ → PeerId → List PeerId
answers n p = named 2 ∷ named 3 ∷ []

abbrev keys : List Bytes
keys = public_key_hex (named 2) ∷ public_key_hex (named 3) ∷ []

answers-Within : (n : ℕ) (p : PeerId) → Within keys (answers n p)
unfolding program Within
answers-Within n p = (refl, (refl, tt))

seed-Distinct : Distinct (named 1 ∷ [])
unfolding program
seed-Distinct = (refl, tt)

seed-Known : Known (public_key_hex (named 1) ∷ []) (named 1 ∷ [])
unfolding program
seed-Known = (refl, tt)

perform_lookup-IsLookup_example :
    (t : Lookup) × (perform_lookup 2
        (λ n. 0)
        answers
        3
        (named 1 ∷ [])
        (public_key_hex (named 1) ∷ [])
      ≡ some t)
    × (t.flying ≡ [])
    × IsLookup 2 t
perform_lookup-IsLookup_example =
    perform_lookup-IsLookup 2 (λ n. 0) answers (named 1 ∷ []) (public_key_hex (named 1) ∷ []) keys
      answers-Within seed-Distinct seed-Known

abbrev runs : ℕ → Run
runs i = record { pick = λ n. 0; ask = answers; fuel = 18; adds = 1 }

runs-Enough : Enough runs 2 keys
runs-Enough = record { within = λ i. answers-Within; fuelled = λ i. omega arith }

-- The lookups get the mutex in their order.
abbrev same_order : List (List PeerId) → List (List PeerId)
same_order queues = queues

find_node-returns_example :
    (seeds : List PeerId) × (find_closest_peers alone (named 2) 2 ≡ done seeds)
    × Settled runs
        (min 8 (length seeds))
        (find_node (λ less ps. ps) same_order runs alone (named 2) 2 8)
find_node-returns_example =
    find_node-returns (λ less ps. ps) same_order runs alone (named 2) 2 8 keys alone-IsRouting
      (omega arith, tt) (omega arith)
      (record { keeps = λ Q queues h. h; same_length = λ queues. refl }) runs-Enough

-- A lookup that ends before `wait.Add(1)` is called.
too_early :
    find_node (λ less ps. ps) same_order (λ i. record (runs i) { adds = 0 }) alone (named 2) 2 8
    ≡ panic
unfolding program find_node spread grow perform_all wait_done perform_lookup search search_round
    expand add_found start_queries first_results pull visit_all find_closest_peers
too_early = refl

runs-InTime : InTime 0 runs 8
unfolding adds_upto
runs-InTime zero l = omega arith
runs-InTime (suc zero) l = omega arith
runs-InTime (suc (suc zero)) l = omega arith
runs-InTime (suc (suc (suc zero))) l = omega arith
runs-InTime (suc (suc (suc (suc zero)))) l = omega arith
runs-InTime (suc (suc (suc (suc (suc zero))))) l = omega arith
runs-InTime (suc (suc (suc (suc (suc (suc zero)))))) l = omega arith
runs-InTime (suc (suc (suc (suc (suc (suc (suc zero))))))) l = omega arith
runs-InTime (suc (suc (suc (suc (suc (suc (suc (suc i)))))))) l = absurd (omega arith)

runs-Fuelled : Enough runs bucket_size keys
runs-Fuelled = record { within = λ i. answers-Within; fuelled = λ i. omega arith }

receive-Received_example :
    Received {M = ℕ} plugin
      (named 1)
      pong
      (receive (λ less ps. ps) same_order runs plugin (named 1) pong)
unfolding HasTarget
receive-Received_example =
    receive-Received (λ less ps. ps) same_order runs keys (record { keeps = λ Q less ps h. h })
      (record { keeps = λ Q queues h. h; same_length = λ queues. refl }) runs-Fuelled
      (λ i n p. ((omega arith, tt), ((omega arith, tt), tt))) runs-InTime plugin (named 1) pong
      alone-IsRouting (omega arith, tt) tt

-- The one seed stands twice among the results, and the peers that were found are not sorted.
found_twice :
    find_node (λ less ps. ps) same_order runs alone (named 2) 2 8
    ≡ done (some (named 0 ∷ named 0 ∷ named 2 ∷ named 3 ∷ []))
unfolding program find_node spread grow perform_all wait_done perform_lookup search search_round
    expand add_found start_queries first_results pull visit_all find_closest_peers
found_twice = refl
