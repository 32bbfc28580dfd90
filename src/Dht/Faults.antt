-- ===== src/Dht/Faults.antt =====
-- `PeerExists` and `RemovePeer` on a peer whose key is longer than the table's.
use noise.Base.Int.{sub_ℕ}
use noise.Dht.Table.{IsRouting}
use noise.Base.Bits.{bit_xor_self}
use noise.Peer.{xor_bytes, prefix_from, IsBytes, xor_id, prefix_len, PeerId}
use noise.Base.{
  ◌*◌, ◌+◌, ◌++◌, ◌-◌, ◌<◌, Bytes, List, [], ap, arith, done, get_elem?, length, length-append,
  none, panic, refl, replicate, suc, zero, ℕ, ◌∙◌, ◌∷◌, ◌≡◌, ◌≤◌, leb, length-replicate, true,
}
use noise.Dht.{
  RoutingTable, bucket_id, peer_exists, bucket, remove_peer, xor_id, update, prefix_len, PeerId,
}

xor_bytes-nil : (xs : Bytes) → xor_bytes xs [] ≡ replicate (length xs) 0
unfolding xor_bytes
xor_bytes-nil [] = refl
xor_bytes-nil (x ∷ xs) = ap (◌∷◌ 0) (xor_bytes-nil xs)

xor_bytes_extended :
    (xs extra : Bytes)
    → IsBytes xs
    → xor_bytes (xs ++ extra) xs ≡ replicate (length (xs ++ extra)) 0
unfolding xor_bytes
xor_bytes_extended [] extra h = xor_bytes-nil extra
xor_bytes_extended (x ∷ xs) extra h = rw (bit_xor_self 8 x h.0, xor_bytes_extended xs extra h.1)

prefix_from-replicate : (i n : ℕ) → prefix_from i (replicate n 0) ≡ none
unfolding prefix_from
prefix_from-replicate i zero = refl
prefix_from-replicate i (suc n) = prefix_from-replicate (suc i) n

prefix_len_zeros :
    (a k : Bytes) (n : ℕ)
    → prefix_len (record { address = a; public_key = k; id = replicate n 0 }) ≡ sub_ℕ (n * 8) 1
unfolding prefix_len
prefix_len_zeros a k n = ground (arith, prefix_from-replicate 0 n, length-replicate {A = ℕ} n 0)

get_elem?-none {ℓ} : {A : Type ℓ} (xs : List A) (i : ℕ) → length xs ≤ i → get_elem? xs i ≡ none
get_elem?-none [] i h = refl
get_elem?-none (x ∷ xs) zero h = absurd (omega arith)
get_elem?-none (x ∷ xs) (suc i) h = get_elem?-none xs i (omega arith)

extended_bucket :
    (t : RoutingTable) (target : PeerId) (extra : Bytes)
    → IsRouting t
    → target.id ≡ t.self.id ++ extra
    → 0 < length extra
    → bucket t (bucket_id t target) ≡ none
unfolding bucket_id bucket xor_id
extended_bucket t target extra v e l =
    let n : length (t.self.id ++ extra) ≡ length t.self.id + length extra =
      length-append t.self.id extra in
    let last = length (t.self.id ++ extra) * 8 - 1 in
    let far : length t.buckets ≤ last = omega (arith, n, v.count) in
    let positive : leb 1 (length (t.self.id ++ extra) * 8) ≡ true = ground (arith, n) in
    rw (e, xor_bytes_extended t.self.id extra v.self_bytes, prefix_len_zeros, positive)
      (get_elem?-none t.buckets last far)

-- On a well-formed table, a peer whose key is the node's own key and at least one byte more makes
-- PeerExists and RemovePeer panic, and Update does nothing with it.
pub peer_exists_panic :
    (t : RoutingTable) (target : PeerId) (extra : Bytes)
    → IsRouting t
    → target.id ≡ t.self.id ++ extra
    → 0 < length extra
    → (peer_exists t target ≡ panic) × (remove_peer t target ≡ panic) × (update t target ≡ done t)
unfolding peer_exists remove_peer update
peer_exists_panic t target extra v e l =
    let nil = extended_bucket t target extra v e l in
    let n : length target.id ≡ length t.self.id + length extra =
      ap length e ∙ length-append t.self.id extra in
    (ground (arith, nil), ground (arith, nil), ground (arith, n))
