-- ===== src/Discovery/Rpc.antt =====
-- `Receive` of network/discovery/plugin.go with `FindNode` of network/discovery/rpc.go.
use noise.Base.{Bytes, List, arith, ℕ, Bool, inl, inr, ◌<◌}
use noise.Client.{Proto}
use noise.Dht.{bucket_size}
use noise.Dht.Table.{IsRouting}
use noise.Discovery.Answers.{Sorts, find_node-All, seeds-AllBytes}
use noise.Discovery.Origin.{Answers}
use noise.Discovery.Plugin.{Plugin, Run, disjoint_paths, find_node, receive}
use noise.Discovery.Routes.{Finds, HasTarget, Received, receive_over-Received}
use noise.Discovery.Whole.{Enough, InTime, Reorders, find_node-returns}
use noise.Peer.{IsBytes, PeerId}

-- All responses hold identities of bytes.
abbrev pub InBytes : (ℕ → Run) → Type 0
InBytes runs = (i : ℕ) → Answers (λ p. IsBytes p.id) (runs i).ask

module _ (sort_slice : (PeerId → PeerId → Bool) → List PeerId → List PeerId)
    (order : List (List PeerId) → List (List PeerId)) (runs : ℕ → Run) (keys : List Bytes)
    (sorts : Sorts sort_slice) (reorders : Reorders order) (enough : Enough runs bucket_size keys)
    (in_bytes : InBytes runs) (in_time : InTime 0 runs disjoint_paths) where
  find_node-Finds :
      (target : PeerId)
      → IsBytes target.id
      → Finds (λ t. find_node sort_slice order runs t target bucket_size disjoint_paths)
  find_node-Finds target h t v =
      let (seeds, s, settled) =
        find_node-returns sort_slice order runs t target bucket_size disjoint_paths keys v h
          (omega arith) reorders enough in
      elim settled [
        | inr ((i, below, early), e) ↦ absurd (
            let below' : i < disjoint_paths = ground (arith, below) in
            omega (arith, in_time i below', early))
        | inl (timely, peers, e, short) ↦ (
          peers,
          e,
          find_node-All (λ p. IsBytes p.id) sort_slice order runs t target bucket_size
              disjoint_paths peers sorts reorders in_bytes
              (λ seeds f. seeds-AllBytes t target bucket_size seeds v h f) e,
        )
      ]

  -- Where the sort returns what it is given, all responses hold identities of bytes with keys of a
  -- list, for which the searches have fuel, and each lookup that ends calls Done after more calls
  -- of Add than lookups ended before it, Receive of a message whose target, where it has one, is
  -- there and of bytes, from a sender of bytes on a well-formed routing table, never panics, ends
  -- whatever the order of the searches, and leaves the table well formed. It replies to a ping with
  -- a pong, and to a lookup with at most BucketSize peers in ascending order of distance, none of
  -- which is farther than one left out of the buckets that were searched, or with no peers where
  -- the target's key has another length, unless that is disabled; and to nothing else.
  pub receive-Received :
      {M : Type 0} (s : Plugin) (sender : PeerId) (msg : Proto M)
      → IsRouting s.routes
      → IsBytes sender.id
      → HasTarget msg
      → Received s sender msg (receive sort_slice order runs s sender msg)
  unfolding receive
  receive-Received s sender msg v h g =
      receive_over-Received
        (λ t. find_node sort_slice order runs t sender bucket_size disjoint_paths) s sender msg v h
        g (find_node-Finds sender h)
