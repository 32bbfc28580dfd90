-- ===== src/Dht/Listing.antt =====
-- `GetPeers` and `GetPeerAddresses`: every peer but the node itself, once.
use noise.Dht.Bucket.{All-append_inv}
use mathlib.Core.List.{map-append, map-id}
use noise.Peer.{PeerId, public_key_hex}
use noise.Base.{
  ◌++◌, Bytes, List, [], append-nil, arith, if◌then◌else◌, map, refl, sym, ◌∷◌, ◌≡◌, All,
  Bool-cases, append_assoc, false, inl, inr, true, ◌∙◌, All-mono, bytes_beq_refl, ◌||◌, subst,
}
use noise.Dht.{
  RoutingTable, PeerId, was_visited, public_key_hex, visit_bucket, visit_buckets, Visit, visit_peer,
  get_peers, get_peer_addresses, start_visit,
}

pub flatten {ℓ} : {A : Type ℓ} → List (List A) → List A
flatten [] = []
flatten (b ∷ bs) = b ++ flatten bs

-- The entries that are the first with their key and whose key is not among those seen.
pub unseen : List Bytes → List PeerId → List PeerId
unseen seen [] = []
unseen seen (p ∷ ps) =
    if was_visited (public_key_hex p) seen
    then unseen seen ps
    else p ∷ unseen (public_key_hex p ∷ seen) ps

seen_after : List Bytes → List PeerId → List Bytes
seen_after seen [] = seen
seen_after seen (p ∷ ps) =
    seen_after (if was_visited (public_key_hex p) seen then seen else public_key_hex p ∷ seen) ps

unseen-append :
    (seen : List Bytes) (xs ys : List PeerId)
    → unseen seen (xs ++ ys) ≡ unseen seen xs ++ unseen (seen_after seen xs) ys
unfolding unseen seen_after
unseen-append seen [] ys = refl
unseen-append seen (x ∷ xs) ys =
    ground (arith, unseen-append seen xs ys, unseen-append (public_key_hex x ∷ seen) xs ys)

module _ {ℓ} {A : Type ℓ} (view : PeerId → A) where
  visit_bucket-unseen :
      (s : Visit A) (ids : List PeerId)
      → visit_bucket view s ids ≡ record {
        visited = seen_after s.visited ids;
        peers = s.peers ++ map view (unseen s.visited ids);
      }
  unfolding visit_bucket visit_peer unseen seen_after
  visit_bucket-unseen s [] = rw append-nil
  visit_bucket-unseen s (p ∷ ps) = elim (Bool-cases (was_visited (public_key_hex p) s.visited)) [
    | inl old ↦ rw (old, visit_peer) (visit_bucket-unseen s ps)
    | inr new ↦
        rw (new, visit_peer)
          (visit_bucket-unseen
              (record { visited = public_key_hex p ∷ s.visited; peers = s.peers ++ (view p ∷ []) })
              ps
            ∙ rw append_assoc)
  ]

  visit_buckets-unseen :
      (s : Visit A) (bs : List (List PeerId))
      → (visit_buckets view s bs).peers ≡ s.peers ++ map view (unseen s.visited (flatten bs))
  unfolding visit_buckets flatten unseen
  visit_buckets-unseen s [] = sym (append-nil s.peers)
  visit_buckets-unseen s (b ∷ bs) =
      visit_buckets-unseen (visit_bucket view s b) bs
      ∙ rw (
        visit_bucket-unseen s b,
        append_assoc,
        unseen-append s.visited b (flatten bs),
        map-append,
      )

-- The listing, in one equation.
pub get_peers-unseen :
    (t : RoutingTable) → get_peers t ≡ unseen (public_key_hex t.self ∷ []) (flatten t.buckets)
unfolding get_peers
get_peers-unseen t = visit_buckets-unseen (λ id. id) (start_visit t) t.buckets ∙ map-id _

-- `GetPeerAddresses` lists the addresses of the peers that `GetPeers` lists, in order.
pub get_peer_addresses-get_peers :
    (t : RoutingTable) → get_peer_addresses t ≡ map (λ p. p.address) (get_peers t)
unfolding get_peer_addresses
get_peer_addresses-get_peers t =
    rw get_peers-unseen (visit_buckets-unseen (λ id. id.address) (start_visit t) t.buckets)

-- No key of the list is among those seen, and none comes twice.
abbrev pub Fresh : List Bytes → List PeerId → Type 0
Fresh seen [] = Unit {0}
Fresh seen (p ∷ ps) =
    (was_visited (public_key_hex p) seen ≡ false) × Fresh (public_key_hex p ∷ seen) ps

unseen-Fresh : (seen : List Bytes) (ps : List PeerId) → Fresh seen (unseen seen ps)
unfolding unseen
unseen-Fresh seen [] = tt
unseen-Fresh seen (p ∷ ps) = elim (Bool-cases (was_visited (public_key_hex p) seen)) [
  | inl old ↦ rw old (unseen-Fresh seen ps)
  | inr new ↦ rw new (new, unseen-Fresh (public_key_hex p ∷ seen) ps)
]

-- The key of an entry is among those seen or those of the list.
abbrev pub IsListed : List Bytes → List PeerId → PeerId → Type 0
IsListed seen ps p =
    (was_visited (public_key_hex p) seen || was_visited (public_key_hex p) (map public_key_hex ps))
    ≡ true

unseen-IsListed : (seen : List Bytes) (ps : List PeerId) → All (IsListed seen (unseen seen ps)) ps
unfolding unseen was_visited
unseen-IsListed seen [] = tt
unseen-IsListed seen (p ∷ ps) = elim (Bool-cases (was_visited (public_key_hex p) seen)) [
  | inl old ↦
      let e : unseen seen (p ∷ ps) ≡ unseen seen ps = rw old in
      subst (λ r. All (IsListed seen r) (p ∷ ps)) (sym e) (ground arith, unseen-IsListed seen ps)
  | inr new ↦
      let more = unseen (public_key_hex p ∷ seen) ps in
      let e : unseen seen (p ∷ ps) ≡ p ∷ more = rw new in
      subst (λ r. All (IsListed seen r) (p ∷ ps)) (sym e)
        (
          ground (arith, bytes_beq_refl (public_key_hex p)),
          All-mono (IsListed (public_key_hex p ∷ seen) more) (IsListed seen (p ∷ more)) ps
              (λ q h. ground arith) (unseen-IsListed (public_key_hex p ∷ seen) ps),
        )
]

All-flatten : (P : PeerId → Type 0) (bs : List (List PeerId)) → All P (flatten bs) → All (All P) bs
unfolding flatten
All-flatten P [] h = tt
All-flatten P (b ∷ bs) h = let (l, r) = All-append_inv P b (flatten bs) h in (l, All-flatten P bs r)

-- GetPeers lists no key twice and not the node's own, and every other key of the table.
pub get_peers_unique :
    (t : RoutingTable)
    → Fresh (public_key_hex t.self ∷ []) (get_peers t)
      × All (All (IsListed (public_key_hex t.self ∷ []) (get_peers t))) t.buckets
get_peers_unique t = rw get_peers-unseen (
  unseen-Fresh (public_key_hex t.self ∷ []) (flatten t.buckets),
  All-flatten _ t.buckets (unseen-IsListed (public_key_hex t.self ∷ []) (flatten t.buckets)),
)
