-- ===== src/Dht/Members.antt =====
-- The peers that a routing table has.
use noise.Base.{
  All, Bool-cases, List, [], arith, bytes_beq_iff, bytes_beq_refl, inl, inr, sym, true, ℕ, ◌+◌, ◌∙◌,
  ◌∷◌, ◌≡◌, ap, length, subst,
}
use noise.Dht.{RoutingTable, has_peer}
use noise.Dht.Closest.{has_any, some_bucket}
use noise.Dht.Table.{IsRouting, IsPlaced, Buckets-get_elem?}
use noise.Peer.{IsBytes, PeerId, equals}
use noise.Peer.Distance.{IsPair}

-- Identities of one hash.
pub equals_id : (p q : PeerId) → equals p q ≡ true → p.id ≡ q.id
unfolding equals
equals_id p q h = (bytes_beq_iff p.id q.id).0 h

equals_self : (p : PeerId) → equals p p ≡ true
unfolding equals
equals_self p = bytes_beq_refl p.id

-- A property of all entries that the list has, by `has_peer`.
pub All-members :
    (P : PeerId → Type 0) (ps : List PeerId)
    → ((q : PeerId) → has_peer q ps ≡ true → P q)
    → All P ps
unfolding has_peer
All-members P [] h = tt
All-members P (p ∷ ps) h =
    (h p (ground (arith, equals_self p)), All-members P ps (λ q e. h q (ground (arith, e))))

placed_pair :
    (self q : PeerId) (i : ℕ) (ps : List PeerId)
    → All (IsPlaced self i) ps
    → has_peer q ps ≡ true
    → IsPair q self
unfolding has_peer
placed_pair self q i [] a h = absurd (ground (arith, h))
placed_pair self q i (p ∷ ps) (a, as_) h = elim (Bool-cases (equals p q)) [
  | inl same ↦
      let e = equals_id p q same in
      record {
        same_length = ap (λ bs. length bs) (sym e) ∙ a.pair.same_length;
        left_bytes = subst IsBytes e a.pair.left_bytes;
        right_bytes = a.pair.right_bytes;
      }
  | inr other ↦ placed_pair self q i ps as_ (ground (arith, other, h))
]

-- Every peer of a well-formed table has a key of the table's length, over bytes.
pub table_pair :
    (t : RoutingTable) (q : PeerId) → IsRouting t → has_any q t.buckets ≡ true → IsPair q t.self
table_pair t q v h =
    let (j, b, at, inside) = some_bucket q t.buckets h in
    placed_pair t.self q (0 + j) b (Buckets-get_elem? t.self 0 j t.buckets b v.placed at).1 inside
