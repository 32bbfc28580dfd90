-- ===== src/Dht.antt =====
-- dht/routes.go: the routing table. Each operation holds a bucket's mutex throughout, so it is one
-- step; a nil bucket is dereferenced when its mutex is taken, which panics.
pub mod Bucket
pub mod Entries
pub mod Table
pub mod Update
pub mod Closest
mod Tests
pub mod Far
pub mod Members
pub mod Nearest
pub mod Listing
pub mod Faults
pub mod Create
use noise.Base.Int.{ℤ, pos, negsuc}
use noise.Peer.{PeerId, prefix_len, equals, xor_id, public_key_hex, less}
use noise.Base.{
  ◌*◌, ◌>>=◌, Bool, List, Option, Outcome, [], done, false, get_elem?, leb, length, nat_beq, none,
  panic, replicate, set, some, true, ◌||◌, ℕ, ◌∷◌, if◌then◌else◌, ◌&&◌, ◌+◌, ◌++◌, ◌-◌, Bytes,
  bytes_beq, ltb, suc, take, zero,
}
use noise.Base.Sort.{sort}

-- `BucketSize`.
abbrev pub bucket_size : ℕ
bucket_size = 16

pub record RoutingTable : Type 0 where
  pub self : PeerId
  pub buckets : List (List PeerId)

-- `RoutingTable.Bucket`; `none` is nil.
unfoldable pub bucket : RoutingTable → ℤ → Option (List PeerId)
bucket t (pos n) = get_elem? t.buckets n
bucket t (negsuc n) = none

-- `bucket.mutex.Lock()`.
unfoldable pub lock : Option (List PeerId) → Outcome (List PeerId)
lock none = panic
lock (some b) = done b

-- What the pointer to a bucket shares with the table.
unfoldable pub put_bucket : RoutingTable → ℤ → List PeerId → RoutingTable
put_bucket t (pos n) b = record t { buckets = set t.buckets n b }
put_bucket t (negsuc n) b = t

unfoldable pub bucket_id : RoutingTable → PeerId → ℤ
bucket_id t target = prefix_len (xor_id target t.self)

-- The search loop of `Update` and `RemovePeer`: the first equal entry, and the others.
unfoldable pub take_out : PeerId → List PeerId → Option (PeerId × List PeerId)
take_out target [] = none
take_out target (e ∷ es) =
    if equals e target
    then some (e, es)
    else elim (take_out target es) [ none ↦ none | some (x, rest) ↦ some (x, e ∷ rest) ]

-- The locked part of `Update`: the entry found moves to the front as it is; a new one comes in
-- while no more than `BucketSize` are there.
unfoldable pub update_bucket : PeerId → List PeerId → List PeerId
unfolding take_out
update_bucket target b = elim (take_out target b) [
  | some (e, rest) ↦ e ∷ rest
  | none ↦ if leb (length b) bucket_size then target ∷ b else b
]

unfoldable pub update : RoutingTable → PeerId → Outcome RoutingTable
unfolding bucket_id bucket lock put_bucket update_bucket
update t target =
    if nat_beq (length t.self.id) (length target.id)
    then (lock (bucket t (bucket_id t target)) >>= λ b.
        done (put_bucket t (bucket_id t target) (update_bucket target b)))
    else done t

unfoldable pub create_routing_table : PeerId → Outcome RoutingTable
unfolding update
create_routing_table id =
    update (record { self = id; buckets = replicate (length id.id * 8) [] }) id

-- What is left after `bucket.Remove(e)`, and whether there was an entry to remove.
unfoldable pub remove_from : PeerId → List PeerId → List PeerId × Bool
unfolding take_out
remove_from target b = elim (take_out target b) [
  | some (e, rest) ↦ (rest, true)
  | none ↦ (b, false)
]

unfoldable pub remove_peer : RoutingTable → PeerId → Outcome (RoutingTable × Bool)
unfolding bucket_id bucket lock put_bucket remove_from
remove_peer t target = lock (bucket t (bucket_id t target)) >>= λ b.
    done (put_bucket t (bucket_id t target) (remove_from target b).0, (remove_from target b).1)

-- The loop of `PeerExists`.
unfoldable pub has_peer : PeerId → List PeerId → Bool
has_peer target [] = false
has_peer target (e ∷ es) = equals e target || has_peer target es

unfoldable pub peer_exists : RoutingTable → PeerId → Outcome Bool
unfolding bucket_id bucket lock has_peer
peer_exists t target = lock (bucket t (bucket_id t target)) >>= λ b. done (has_peer target b)

-- The set `visited` and the list `peers` of the two listings.
pub record Visit {ℓ} (A : Type ℓ) : Type ℓ where
  pub visited : List Bytes
  pub peers : List A

unfoldable pub was_visited : Bytes → List Bytes → Bool
was_visited k [] = false
was_visited k (v ∷ vs) = bytes_beq k v || was_visited k vs

-- The loop body of `GetPeers` and `GetPeerAddresses`; `view` is what they append.
unfoldable pub visit_peer {ℓ} : {A : Type ℓ} → (PeerId → A) → Visit A → PeerId → Visit A
unfolding was_visited
visit_peer view s id =
    if was_visited (public_key_hex id) s.visited
    then s
    else record { visited = public_key_hex id ∷ s.visited; peers = s.peers ++ (view id ∷ []) }

unfoldable pub visit_bucket {ℓ} : {A : Type ℓ} → (PeerId → A) → Visit A → List PeerId → Visit A
unfolding visit_peer
visit_bucket view s [] = s
visit_bucket view s (id ∷ ids) = visit_bucket view (visit_peer view s id) ids

unfoldable pub visit_buckets {ℓ} :
    {A : Type ℓ} → (PeerId → A) → Visit A → List (List PeerId) → Visit A
unfolding visit_bucket
visit_buckets view s [] = s
visit_buckets view s (b ∷ bs) = visit_buckets view (visit_bucket view s b) bs

abbrev start_visit {ℓ} : {A : Type ℓ} → RoutingTable → Visit A
start_visit t = record { visited = public_key_hex t.self ∷ []; peers = [] }

unfoldable pub get_peers : RoutingTable → List PeerId
unfolding visit_buckets
get_peers t = (visit_buckets (λ id. id) (start_visit t) t.buckets).peers

unfoldable pub get_peer_addresses : RoutingTable → List Bytes
unfolding visit_buckets
get_peer_addresses t = (visit_buckets (λ id. id.address) (start_visit t) t.buckets).peers

-- `other := t.Bucket(j)` and the loop over it.
unfoldable pub append_bucket : RoutingTable → ℕ → List PeerId → Outcome (List PeerId)
unfolding bucket lock
append_bucket t j peers = lock (bucket t (pos j)) >>= λ b. done (peers ++ b)

-- One round of the loop that widens the search around bucket `c`, which runs only if at least one
-- of the buckets `c - i` and `c + i` is there.
unfoldable pub widen_once : RoutingTable → ℕ → ℕ → List PeerId → Outcome (List PeerId)
unfolding append_bucket
widen_once t c i peers = (if leb i c then append_bucket t (c - i) peers else done peers) >>= λ left.
    if ltb (c + i) (length t.self.id * 8) then append_bucket t (c + i) left else done left

-- The loop from `i` on, with fuel for the rounds; `count` is not negative here.
unfoldable pub widen : ℕ → RoutingTable → ℕ → ℕ → ℕ → List PeerId → Outcome (List PeerId)
unfolding widen_once
widen zero t c i count peers = done peers
widen (suc fuel) t c i count peers =
    elim (ltb (length peers) count && (leb i c || ltb (c + i) (length t.self.id * 8))) [
      | true ↦ widen_once t c i peers >>= λ more. widen fuel t c (suc i) count more
      | false ↦ done peers
    ]

-- The comparison that the peers are sorted by.
unfoldable pub closer : PeerId → PeerId → PeerId → Bool
closer target p q = less (xor_id p target) (some (xor_id q target))

-- The sort, and the cut to `count` peers.
unfoldable pub nearest : PeerId → ℕ → List PeerId → List PeerId
unfolding sort closer
nearest target count peers = take count (sort (closer target) peers)

-- `FindClosestPeers` for a `count` that is not negative. As many rounds as there are buckets reach
-- every bucket.
find_in : RoutingTable → PeerId → ℤ → ℕ → Outcome (List PeerId)
unfolding bucket lock widen nearest
find_in t target (negsuc c) count = panic
find_in t target (pos c) count = lock (bucket t (pos c)) >>= λ b.
    widen (length t.self.id * 8) t c 1 count b >>= λ peers. done (nearest target count peers)

unfoldable pub find_closest_peers : RoutingTable → PeerId → ℕ → Outcome (List PeerId)
unfolding find_in bucket_id
find_closest_peers t target count =
    if nat_beq (length t.self.id) (length target.id)
    then find_in t target (bucket_id t target) count
    else done []
