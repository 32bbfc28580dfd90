-- ===== src/Discovery.antt =====
-- network/discovery/rpc.go: the search for the nodes closest to a target. A query is a goroutine that
-- sends its response over a channel; the order in which the queries end is a parameter.
pub mod Plugin
pub mod Routes
pub mod Spread
pub mod Whole
pub mod Origin
pub mod Answers
pub mod Rpc
pub mod Steps
pub mod Found
pub mod Ends
mod Tests
use noise.Base.{
  bytes_Key, Bytes, List, length, ◌+◌, ◌++◌, Bool, Option, [], bytes_beq, false, if◌then◌else◌, ltb,
  none, some, suc, zero, ◌||◌, ℕ, ◌∷◌,
}
use noise.Client.{
  Proto, lookup_node_response, bytes_message, ping, pong, lookup_node_request, registered,
}
use noise.Peer.{PeerId, public_key_hex}

-- What `queryPeerByID` sends: none is an error of `Client` or `Request`.
unfoldable pub query_response : {M : Type 0} → Option (Proto M) → List PeerId
query_response none = []
query_response (some (lookup_node_response peers)) = peers
query_response (some (bytes_message bs)) = []
query_response (some ping) = []
query_response (some pong) = []
query_response (some (lookup_node_request t)) = []
query_response (some (registered m)) = []

-- Whether a key was visited.
unfoldable pub visits : Bytes → List Bytes → Bool
visits key [] = false
visits key (other ∷ others) = bytes_beq key other || visits key others

-- `lookupBucket`, with the queries in flight, whose number is `pending`; the results, and the keys
-- visited by all lookups.
pub record Lookup : Type 0 where
  pub flying : List PeerId
  pub queue : List PeerId
  pub results : List PeerId
  pub visited : List Bytes

-- The loops that start queries while fewer than `alpha` are in flight.
unfoldable pub start_queries : ℕ → List PeerId → List PeerId → List PeerId
start_queries alpha flying [] = flying
start_queries alpha flying (p ∷ queue) =
    if ltb (length flying) alpha then start_queries alpha (flying ++ (p ∷ [])) queue else flying

-- The results of the first of these loops, with `pending` queries in flight.
unfoldable pub first_results : ℕ → ℕ → List PeerId → List PeerId
first_results alpha pending [] = []
first_results alpha pending (p ∷ queue) =
    let rest = first_results alpha (pending + 1) queue in if ltb pending alpha then p ∷ rest else []

-- A peer that was not visited before.
unfoldable pub add_found : Lookup → PeerId → Lookup
unfolding public_key_hex
add_found s p = record s {
  queue = s.queue ++ (p ∷ []);
  results = s.results ++ (p ∷ []);
  visited = public_key_hex p ∷ s.visited;
}

-- The loop over the peers of a response.
unfoldable pub expand : Lookup → List PeerId → Lookup
unfolding visits public_key_hex add_found
expand s [] = s
expand s (p ∷ ps) = expand (if visits (public_key_hex p) s.visited then s else add_found s p) ps

-- The query at a place, or the last one, and the others.
unfoldable pub pull : ℕ → PeerId → List PeerId → PeerId × List PeerId
pull zero p ps = (p, ps)
pull (suc i) p [] = (p, [])
pull (suc i) p (q ∷ qs) = ((pull i q qs).0, p ∷ (pull i q qs).1)

-- A round of the search: a query ends with a response.
unfoldable pub search_round : ℕ → Lookup → List PeerId → List PeerId → Lookup
unfolding expand start_queries
search_round alpha s others response =
    let e = expand (record s { flying = others }) response in
    record e { flying = start_queries alpha others e.queue; queue = [] }

-- The search, with fuel: before round `n` is the last but `n` the query at place `pick n` ends, with
-- the response `ask n` of its peer. None is a search that still has queries in flight.
unfoldable pub search : ℕ → (ℕ → ℕ) → (ℕ → PeerId → List PeerId) → ℕ → Lookup → Option Lookup
unfolding search_round pull
search alpha pick ask zero s = elim s.flying [ [] ↦ some s | p ∷ ps ↦ none ]
search alpha pick ask (suc n) s = elim s.flying [
  | [] ↦ some s
  | p ∷ ps ↦
      let (peer, others) = pull (pick n) p ps in
      search alpha pick ask n (search_round alpha s others (ask n peer))
]

-- `performLookup` of a lookup with no query in flight.
unfoldable pub perform_lookup :
    ℕ → (ℕ → ℕ) → (ℕ → PeerId → List PeerId) → ℕ → List PeerId → List Bytes → Option Lookup
unfolding search start_queries first_results
perform_lookup alpha pick ask fuel queue visited = search alpha pick ask fuel (record {
  flying = start_queries alpha [] queue;
  queue = [];
  results = first_results alpha 0 queue;
  visited = visited;
})
