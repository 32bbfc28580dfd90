-- ===== src/Discovery/Routes.antt =====
-- The routing table and the replies of network/discovery/plugin.go.
use noise.Base.{
  List, length, Option, Outcome, some, none, ◌∷◌, [], done, ◌≡◌, ◌>>=◌, refl, sym, All, arith, inl,
  inr, Bool-cases, if◌then◌else◌, false, ◌⊎◌, ◌≢◌,
}
use noise.Client.{
  Proto, ping, pong, lookup_node_request, lookup_node_response, bytes_message, registered,
}
use noise.Dht.{RoutingTable, find_closest_peers, bucket_size, update}
use noise.Dht.Table.{IsRouting}
use noise.Dht.Update.{update-IsRouting}
use noise.Dht.Nearest.{Nearest, find_closest_peers-Nearest}
use noise.Discovery.Plugin.{Plugin, receive_over, update_all}
use noise.Peer.{PeerId, IsBytes}
use native.Mathlib.Decide.{ℕ_discrete}

-- Identities whose keys are bytes.
abbrev pub AllBytes : List PeerId → Type 0
AllBytes ps = All (λ p. IsBytes p.id) ps

update_all-IsRouting :
    (t : RoutingTable) (ps : List PeerId)
    → IsRouting t
    → AllBytes ps
    → (t' : RoutingTable) × (update_all t ps ≡ done t') × IsRouting t'
unfolding update_all
update_all-IsRouting t [] v b = (t, refl, v)
update_all-IsRouting t (p ∷ ps) v (h, b) =
    let (t1, e, v1, same, other) = update-IsRouting t p v h in
    let (t2, e2, v2) = update_all-IsRouting t1 ps v1 b in (t2, rw (e, ◌>>=◌) e2, v2)

-- The peers that a lookup of a target is answered with: the nearest ones, where the target's key has
-- the table's length, and none otherwise.
abbrev pub Closest : RoutingTable → PeerId → List PeerId → Type 0
Closest t target peers =
    ((length t.self.id ≡ length target.id) × Nearest t target bucket_size peers)
    ⊎ ((length t.self.id ≢ length target.id) × (peers ≡ []))

-- The search for the closest peers answers for every target of bytes.
find_closest_peers-answers :
    (t : RoutingTable) (target : PeerId)
    → IsRouting t
    → IsBytes target.id
    → (peers : List PeerId) × (find_closest_peers t target bucket_size ≡ done peers)
      × Closest t target peers
unfolding find_closest_peers
find_closest_peers-answers t target v h = elim (ℕ_discrete (length t.self.id) (length target.id)) [
  | yes e ↦
      let (peers, f, n) =
        find_closest_peers-Nearest t target bucket_size v
          (record { same_length = sym e; left_bytes = h; right_bytes = v.self_bytes }) in
      (peers, f, inl (e, n))
  | no ne ↦ ([], ground (arith, ne), inr (ne, refl))
]

-- A message whose target, where it has one, is there and of bytes.
unfoldable pub HasTarget : {M : Type 0} → Proto M → Type 0
HasTarget (lookup_node_request none) = ⊥
HasTarget (lookup_node_request (some target)) = IsBytes target.id
HasTarget ping = Unit
HasTarget pong = Unit
HasTarget (bytes_message bs) = Unit
HasTarget (lookup_node_response ps) = Unit
HasTarget (registered m) = Unit

-- A pong, where it is not disabled.
pong_comes :
    {M : Type 0} (found : RoutingTable → Outcome (Option (List PeerId))) (s : Plugin)
    (sender : PeerId) (t t2 : RoutingTable) (peers : List PeerId)
    → update s.routes sender ≡ done t
    → s.disable_pong ≡ false
    → found t ≡ done (some peers)
    → update_all t peers ≡ done t2
    → receive_over {M = M} found s sender pong ≡ done (some (record s { routes = t2 }, none))
unfolding receive_over
pong_comes found s sender t t2 peers e on q e2 = ground (arith, e, on, q, e2)

-- What `Receive` replies to a message with a routing table.
unfoldable pub Replies : {M : Type 0} → Plugin → Proto M → RoutingTable → Option (Proto M) → Type 0
Replies s ping t reply = reply ≡ (if s.disable_ping then none else some pong)
Replies s (lookup_node_request none) t reply = ⊥
Replies s (lookup_node_request (some target)) t reply =
    (peers : List PeerId) × Closest t target peers
    × (reply ≡ (if s.disable_lookup then none else some (lookup_node_response peers)))
Replies s pong t reply = reply ≡ none
Replies s (bytes_message bs) t reply = reply ≡ none
Replies s (lookup_node_response ps) t reply = reply ≡ none
Replies s (registered m) t reply = reply ≡ none

-- What `Receive` comes to: the plugin afterwards, and the reply from the table that has the sender.
pub record Received {M : Type 0} (s : Plugin) (sender : PeerId) (msg : Proto M)
    (o : Outcome (Option (Plugin × Option (Proto M)))) : Type 0 where
  pub plugin : Plugin
  pub reply : Option (Proto M)
  pub comes : o ≡ done (some (plugin, reply))
  pub formed : IsRouting plugin.routes
  pub table : RoutingTable
  pub updated : update s.routes sender ≡ done table
  pub replied : Replies s msg table reply

-- On a well-formed table `FindNode` returns identities whose keys are bytes.
abbrev pub Finds : (RoutingTable → Outcome (Option (List PeerId))) → Type 0
Finds found =
    (t : RoutingTable)
    → IsRouting t
    → (peers : List PeerId) × (found t ≡ done (some peers)) × AllBytes peers

-- On a well-formed routing table, a sender whose key is bytes, a message whose target, where it
-- has one, is there and of bytes, and a FindNode that returns identities of bytes, Receive never
-- panics and leaves the table well formed; it replies to a ping with a pong and to a lookup with
-- the nearest peers of the buckets searched, unless that is disabled, and to nothing else.
pub receive_over-Received :
    {M : Type 0} (found : RoutingTable → Outcome (Option (List PeerId))) (s : Plugin)
    (sender : PeerId) (msg : Proto M)
    → IsRouting s.routes
    → IsBytes sender.id
    → HasTarget msg
    → Finds found
    → Received s sender msg (receive_over found s sender msg)
unfolding receive_over HasTarget Replies
receive_over-Received found s sender ping v h g f =
    let (t, e, w, same, other) = update-IsRouting s.routes sender v h in
    record {
      plugin = record s { routes = t };
      reply = if s.disable_ping then none else some pong;
      comes = rw (e, ◌>>=◌) refl;
      formed = w;
      table = t;
      updated = e;
      replied = refl;
    }
receive_over-Received found s sender pong v h g f =
    let (t, e, w, same, other) = update-IsRouting s.routes sender v h in
    elim (Bool-cases s.disable_pong) [
      | inl off ↦ record {
        plugin = record s { routes = t };
        reply = none;
        comes = rw (e, ◌>>=◌, off) refl;
        formed = w;
        table = t;
        updated = e;
        replied = refl;
      }
      | inr on ↦
          let (peers, q, b) = f t w in
          let (t2, e2, w2) = update_all-IsRouting t peers w b in
          record {
            plugin = record s { routes = t2 };
            reply = none;
            comes = pong_comes found s sender t t2 peers e on q e2;
            formed = w2;
            table = t;
            updated = e;
            replied = refl;
          }
    ]
receive_over-Received found s sender (lookup_node_request none) v h g f = absurd g
receive_over-Received found s sender (lookup_node_request (some target)) v h g f =
    let (t, e, w, same, other) = update-IsRouting s.routes sender v h in
    let (peers, q, near) = find_closest_peers-answers t target w g in
    elim (Bool-cases s.disable_lookup) [
      | inl off ↦ record {
        plugin = record s { routes = t };
        reply = none;
        comes = rw (e, ◌>>=◌, off) refl;
        formed = w;
        table = t;
        updated = e;
        replied = (peers, near, rw off refl);
      }
      | inr on ↦ record {
        plugin = record s { routes = t };
        reply = some (lookup_node_response peers);
        comes = rw (e, ◌>>=◌, on, q) refl;
        formed = w;
        table = t;
        updated = e;
        replied = (peers, near, rw on refl);
      }
    ]
receive_over-Received found s sender (bytes_message bs) v h g f =
    let (t, e, w, same, other) = update-IsRouting s.routes sender v h in
    record {
      plugin = record s { routes = t };
      reply = none;
      comes = rw (e, ◌>>=◌) refl;
      formed = w;
      table = t;
      updated = e;
      replied = refl;
    }
receive_over-Received found s sender (lookup_node_response ps) v h g f =
    let (t, e, w, same, other) = update-IsRouting s.routes sender v h in
    record {
      plugin = record s { routes = t };
      reply = none;
      comes = rw (e, ◌>>=◌) refl;
      formed = w;
      table = t;
      updated = e;
      replied = refl;
    }
receive_over-Received found s sender (registered m) v h g f =
    let (t, e, w, same, other) = update-IsRouting s.routes sender v h in
    record {
      plugin = record s { routes = t };
      reply = none;
      comes = rw (e, ◌>>=◌) refl;
      formed = w;
      table = t;
      updated = e;
      replied = refl;
    }
