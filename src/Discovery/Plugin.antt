-- ===== src/Discovery/Plugin.antt =====
-- network/discovery/plugin.go: the plugin that keeps the routing table, and `FindNode` of
-- network/discovery/rpc.go. The log calls are left out.
use noise.Base.{
  min, zero, ◌-◌, Bytes, List, length, ◌%◌, ◌+◌, ◌++◌, ◌>>=◌, Bool, Option, Outcome, [], done,
  get_elem?, if◌then◌else◌, ltb, nat_beq, none, panic, set, some, suc, take, ℕ, ◌∷◌,
}
use noise.Client.{
  Proto, ping, pong, lookup_node_request, lookup_node_response, bytes_message, registered,
}
use noise.Dht.{
  RoutingTable, bucket_size, find_closest_peers, create_routing_table, update, peer_exists,
  remove_peer,
}
use noise.Discovery.{perform_lookup}
use noise.Peer.{PeerId, public_key_hex, xor, less}

-- `Plugin`.
pub record Plugin : Type 0 where
  pub disable_ping : Bool
  pub disable_pong : Bool
  pub disable_lookup : Bool
  pub routes : RoutingTable

unfoldable pub startup : Plugin → PeerId → Outcome Plugin
unfolding create_routing_table
startup s id = create_routing_table id >>= λ t. done (record s { routes = t })

-- The loop that updates the routing table.
unfoldable pub update_all : RoutingTable → List PeerId → Outcome RoutingTable
unfolding update
update_all t [] = done t
update_all t (p ∷ ps) = update t p >>= λ t'. update_all t' ps

-- `PeerDisconnect` of a client, by its identity; none is nil.
unfoldable pub peer_disconnect : Plugin → Option PeerId → Outcome Plugin
unfolding peer_exists remove_peer
peer_disconnect s none = done s
peer_disconnect s (some id) = peer_exists s.routes id >>= λ there.
    if there
    then (remove_peer s.routes id >>= λ (t, removed). done (record s { routes = t }))
    else done s

-- One more queue while there are fewer than the paths.
unfoldable pub grow : ℕ → List (List PeerId) → List (List PeerId)
grow paths queues = if ltb (length queues) paths then queues ++ ([] ∷ []) else queues

-- The queues of the lookups: peer number `i` goes to lookup `i % paths`.
unfoldable pub spread : ℕ → ℕ → List PeerId → List (List PeerId) → Outcome (List (List PeerId))
unfolding grow
spread paths i [] queues = done queues
spread paths i (p ∷ ps) queues =
    let queues' = grow paths queues in
    if nat_beq paths 0 then panic else elim (get_elem? queues' (i % paths)) [
      | none ↦ panic
      | some queue ↦ spread paths (i + 1) ps (set queues' (i % paths) (queue ++ (p ∷ [])))
    ]

-- How the queries of a lookup end, and how many calls of `wait.Add(1)` there are between the
-- `wait.Done()` of the lookup that has ended before, or the start, and its own.
pub record Run : Type 0 where
  pub pick : ℕ → ℕ
  pub ask : ℕ → PeerId → List PeerId
  pub fuel : ℕ
  pub adds : ℕ

-- `wait.Done()`: a counter below 0 panics.
unfoldable pub wait_done : ℕ → Outcome ℕ
wait_done zero = panic
wait_done (suc n) = done n

-- The lookups, one after the other: each holds the mutex from its start to its end, and then calls
-- `wait.Done()`. The loop that starts them has `left` calls of `wait.Add(1)` to go, and `wait.Wait()`
-- comes after the last; with a counter that stays above 0 it never returns. None is a call that
-- waits.
unfoldable pub perform_all :
    ℕ
    → (ℕ → Run)
    → (left counter : ℕ) → List (List PeerId)
    → List PeerId
    → List Bytes
    → Outcome (Option (List PeerId))
unfolding perform_lookup wait_done
perform_all alpha runs left counter [] results visited =
    done (if nat_beq (counter + left) 0 then some results else none)
perform_all alpha runs left counter (queue ∷ queues) results visited =
    let r = runs 0 in
    let added = min r.adds left in
    elim (perform_lookup alpha r.pick r.ask r.fuel queue visited) [
      | none ↦ done none
      | some s ↦ wait_done (counter + added) >>= λ counter'.
          perform_all alpha (λ i. runs (suc i)) (left - added) counter' queues
            (results ++ s.results) s.visited
    ]

unfoldable pub visit_all : List PeerId → List Bytes → List Bytes
visit_all [] visited = visited
visit_all (p ∷ ps) visited = visit_all ps (public_key_hex p ∷ visited)

-- `left.Less(right)` of two results.
unfoldable pub nearer : PeerId → PeerId → PeerId → Bool
unfolding xor less
nearer target p q = less (xor p target) (some (xor q target))

-- `FindNode` with the plugin: `order` is the order in which the lookups get the mutex, and
-- `sort_slice` is `sort.Slice`. None is a search that still has queries in flight or waits.
unfoldable pub find_node :
    ((PeerId → PeerId → Bool) → List PeerId → List PeerId)
    → (List (List PeerId) → List (List PeerId))
    → (ℕ → Run)
    → RoutingTable
    → PeerId
    → (alpha paths : ℕ) → Outcome (Option (List PeerId))
unfolding spread perform_all find_closest_peers visit_all nearer
find_node sort_slice order runs t target alpha paths =
    find_closest_peers t target alpha >>= λ seeds. spread paths 0 seeds [] >>= λ queues.
    perform_all alpha runs (length queues) 0 (order queues) seeds (visit_all seeds []) >>= λ ends.
    done (elim ends [
      | none ↦ none
      | some results ↦ some (take bucket_size (sort_slice (nearer target) results))
    ])

-- `Receive`: the plugin afterwards and what it replies; a failed reply changes nothing. `found` is
-- what `FindNode` returns; of a target none is nil, and none is a call whose search still goes on.
unfoldable pub receive_over :
    {M : Type 0}
    → (RoutingTable → Outcome (Option (List PeerId)))
    → Plugin
    → PeerId
    → Proto M
    → Outcome (Option (Plugin × Option (Proto M)))
unfolding update update_all find_closest_peers
receive_over found s sender msg = update s.routes sender >>= λ t.
    let s' = record s { routes = t } in
    elim msg [
      | ping ↦ done (some (s', if s.disable_ping then none else some pong))
      | pong ↦
          if s.disable_pong
          then done (some (s', none))
          else (found t >>= λ r. elim r [
            | none ↦ done none
            | some peers ↦ update_all t peers >>= λ t'. done (some (record s { routes = t' }, none))
          ])
      | lookup_node_request target ↦
          if s.disable_lookup then done (some (s', none)) else elim target [
            | none ↦ panic
            | some id ↦ find_closest_peers t id bucket_size >>= λ peers.
                done (some (s', some (lookup_node_response peers)))
          ]
      | bytes_message bs ↦ done (some (s', none))
      | lookup_node_response ps ↦ done (some (s', none))
      | registered m ↦ done (some (s', none))
    ]

-- How many lookups `Receive` asks `FindNode` for.
abbrev pub disjoint_paths : ℕ
disjoint_paths = 8

-- `Receive`, where the searches go as `sort_slice`, `order` and `runs` say.
unfoldable pub receive :
    {M : Type 0}
    → ((PeerId → PeerId → Bool) → List PeerId → List PeerId)
    → (List (List PeerId) → List (List PeerId))
    → (ℕ → Run)
    → Plugin
    → PeerId
    → Proto M
    → Outcome (Option (Plugin × Option (Proto M)))
unfolding receive_over find_node
receive sort_slice order runs s sender msg =
    receive_over (λ t. find_node sort_slice order runs t sender bucket_size disjoint_paths) s sender
      msg
