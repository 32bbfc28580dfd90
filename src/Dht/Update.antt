-- ===== src/Dht/Update.antt =====
-- `Update`, `RemovePeer`, `PeerExists` and `CreateRoutingTable` on a whole table.
use native.Mathlib.Decide.{ℕ_discrete}
use noise.Dht.Entries.{
  remove_from-IsBucket, remove_from-All, update_bucket-IsBucket, update_bucket-All,
  has_peer-update_bucket, has_peer-remove_from,
}
use noise.Peer.Distance.{IsPair}
use noise.Base.Int.{pos, ℤ, negsuc}
use noise.Dht.Bucket.{IsBucket}
use noise.Dht.Table.{Spot, IsRouting, IsPlaced, find-Spot, Buckets-set}
use noise.Peer.{PeerId, IsBytes, equals, xor_id, prefix_len}
use noise.Base.{
  ◌+◌, All, Bool, List, arith, done, length, length-set, refl, some, subst, sym, ◌∙◌, ◌≡◌, ◌≢◌,
  ◌&&◌, ap, bytes_beq_iff, false, get_elem?, get_elem?-set_ne, get_elem?-set_self, leb, nat_beq,
  none, not, true, ◌||◌, if◌then◌else◌,
}
use noise.Dht.{
  RoutingTable, put_bucket, bucket, update, remove_peer, peer_exists, PeerId, bucket_id, pos,
  has_peer, update_bucket, remove_from, equals, bucket_size, xor_id, prefix_len,
}

-- The table with one bucket's content replaced stays well formed.
put-IsRouting :
    (t : RoutingTable) (target : PeerId) (s : Spot t target) (b : List PeerId)
    → IsRouting t
    → IsBucket b
    → All (IsPlaced t.self s.at) b
    → IsRouting (put_bucket t (pos s.at) b)
unfolding put_bucket
put-IsRouting t target s b v w a = record {
  self_bytes = v.self_bytes;
  self_named = v.self_named;
  count = length-set t.buckets s.at b ∙ v.count;
  placed =
      Buckets-set t.self 0 s.at t.buckets b v.placed w
        (subst (λ j. All (IsPlaced t.self j) b) zero_at a);
}
  where
    zero_at : s.at ≡ 0 + s.at
    zero_at = omega arith

bucket_at :
    (t : RoutingTable) (target : PeerId) (s : Spot t target)
    → bucket t (bucket_id t target) ≡ some s.content
unfolding bucket
bucket_at t target s = rw (s.index) s.entry

update_at :
    (t : RoutingTable) (target : PeerId) (s : Spot t target)
    → length t.self.id ≡ length target.id
    → update t target ≡ done (put_bucket t (pos s.at) (update_bucket target s.content))
unfolding update
update_at t target s e = ground (arith, bucket_at t target s, s.index)

remove_at :
    (t : RoutingTable) (target : PeerId) (s : Spot t target)
    → remove_peer t target
      ≡ done (
        put_bucket t (pos s.at) (remove_from target s.content).0,
        (remove_from target s.content).1,
      )
unfolding remove_peer
remove_at t target s = ground (arith, bucket_at t target s, s.index)

exists_at :
    (t : RoutingTable) (q : PeerId) (s : Spot t q) → peer_exists t q ≡ done (has_peer q s.content)
unfolding peer_exists
exists_at t q s = ground (arith, bucket_at t q s)

update_other :
    (t : RoutingTable) (target : PeerId)
    → length t.self.id ≢ length target.id
    → update t target ≡ done t
unfolding update
update_other t target ne = ground arith

put_self : (t : RoutingTable) (n : ℤ) (b : List PeerId) → (put_bucket t n b).self ≡ t.self
unfolding put_bucket
put_self t (pos n) b = refl
put_self t (negsuc n) b = refl

-- On a well-formed table and a peer whose key is bytes, Update never panics and leaves the table
-- well formed with the same node; a peer whose key has another length changes nothing.
pub update-IsRouting :
    (t : RoutingTable) (target : PeerId)
    → IsRouting t
    → IsBytes target.id
    → (t' : RoutingTable) × (update t target ≡ done t')
      × IsRouting t'
      × (t'.self ≡ t.self)
      × (length t.self.id ≢ length target.id → t' ≡ t)
update-IsRouting t target v h = elim (ℕ_discrete (length t.self.id) (length target.id)) [
  | yes e ↦
      let w : IsPair target t.self = record {
        same_length = sym e;
        left_bytes = h;
        right_bytes = v.self_bytes;
      } in
      let s = find-Spot t target v w in
      (
        put_bucket t (pos s.at) (update_bucket target s.content),
        update_at t target s e,
        put-IsRouting t target s (update_bucket target s.content) v
            (update_bucket-IsBucket target s.content s.well)
            (update_bucket-All target s.content (IsPlaced t.self s.at) s.target_placed
              s.all_placed),
        put_self t (pos s.at) _,
        λ ne. absurd (ne e),
      )
  | no ne ↦ (t, update_other t target ne, v, refl, λ _. refl)
]

-- On a well-formed table and for a peer of its key length, RemovePeer never panics and leaves the
-- table well formed.
pub remove_peer-IsRouting :
    (t : RoutingTable) (target : PeerId)
    → IsRouting t
    → IsPair target t.self
    → (t' : RoutingTable) × (removed : Bool) × (remove_peer t target ≡ done (t', removed))
      × IsRouting t'
remove_peer-IsRouting t target v w =
    let s = find-Spot t target v w in
    (
      put_bucket t (pos s.at) (remove_from target s.content).0,
      (remove_from target s.content).1,
      remove_at t target s,
      put-IsRouting t target s _ v (remove_from-IsBucket target s.content s.well)
          (remove_from-All target s.content (IsPlaced t.self s.at) s.all_placed),
    )

-- The bucket of a peer after a write to the bucket of another, or of the same one.
bucket-put :
    (t : RoutingTable) (target q : PeerId) (s : Spot t target) (z : Spot t q) (b : List PeerId)
    → bucket (put_bucket t (pos s.at) b) (pos z.at)
      ≡ (if nat_beq s.at z.at then some b else some z.content)
unfolding bucket put_bucket
bucket-put t target q s z b = ground (
  arith,
  get_elem?-set_self t.buckets s.at b s.below,
  get_elem?-set_ne t.buckets s.at z.at b,
  z.entry,
)

bucket_id-put :
    (t : RoutingTable) (n : ℤ) (b : List PeerId) (q : PeerId)
    → bucket_id (put_bucket t n b) q ≡ bucket_id t q
unfolding bucket_id
bucket_id-put t n b q = rw (put_self t n b)

bucket_id_congr : (t : RoutingTable) (p q : PeerId) → p.id ≡ q.id → bucket_id t p ≡ bucket_id t q
unfolding bucket_id xor_id prefix_len
bucket_id_congr t p q e = rw e

-- Two names of one peer go to one bucket.
spots_agree :
    (t : RoutingTable) (target q : PeerId) (s : Spot t target) (z : Spot t q)
    → equals target q ≡ true
    → s.at ≡ z.at
unfolding equals
spots_agree t target q s z h =
    let e : target.id ≡ q.id = (bytes_beq_iff target.id q.id).0 h in
    let same = bucket_id_congr t target q e in ground (arith, same, s.index, z.index)

exists_after :
    (t : RoutingTable) (target q : PeerId) (s : Spot t target) (z : Spot t q) (b : List PeerId)
    → peer_exists (put_bucket t (pos s.at) b) q
      ≡ done (if nat_beq s.at z.at then has_peer q b else has_peer q z.content)
unfolding peer_exists
exists_after t target q s z b =
    rw (bucket_id-put t (pos s.at) b q, z.index) (ground (arith, bucket-put t target q s z b))

-- Where two spots are the same place, their contents are the same.
content_agree :
    (t : RoutingTable) (target q : PeerId) (s : Spot t target) (z : Spot t q)
    → s.at ≡ z.at
    → s.content ≡ z.content
content_agree t target q s z h =
    let e : get_elem? t.buckets s.at ≡ get_elem? t.buckets z.at = ap (get_elem? t.buckets) h in
    cc (s.entry, z.entry)

-- Whether the bucket of a peer takes a new entry.
abbrev pub has_room : RoutingTable → PeerId → Bool
has_room t target = elim (bucket t (bucket_id t target)) [
  | none ↦ false
  | some b ↦ leb (length b) bucket_size
]

-- On a well-formed table and for peers of its key length, after Update exactly the peers exist
-- that did before, and the target if its bucket held at most BucketSize entries.
pub peer_exists-update :
    (t : RoutingTable) (target q : PeerId)
    → IsRouting t
    → IsPair target t.self
    → IsPair q t.self
    → (t' : RoutingTable) × (old : Bool) × (update t target ≡ done t')
      × (peer_exists t q ≡ done old)
      × (peer_exists t' q ≡ done (old || (equals target q && has_room t target)))
peer_exists-update t target q v w x =
    let s = find-Spot t target v w in
    let z = find-Spot t q v x in
    (
      put_bucket t (pos s.at) (update_bucket target s.content),
      has_peer q z.content,
      update_at t target s (sym w.same_length),
      exists_at t q z,
      exists_after t target q s z (update_bucket target s.content)
          ∙ ap done (
              ground (
                arith,
                has_peer-update_bucket target s.content q,
                content_agree t target q s z,
                spots_agree t target q s z,
                bucket_at t target s,
              )),
    )

-- On a well-formed table and for peers of its key length, RemovePeer reports whether the target
-- existed, and afterwards exactly the peers exist that did before and are not the target.
pub peer_exists-remove_peer :
    (t : RoutingTable) (target q : PeerId)
    → IsRouting t
    → IsPair target t.self
    → IsPair q t.self
    → (t' : RoutingTable) × (removed old : Bool) × (remove_peer t target ≡ done (t', removed))
      × (peer_exists t target ≡ done removed)
      × (peer_exists t q ≡ done old)
      × (peer_exists t' q ≡ done (old && not (equals target q)))
peer_exists-remove_peer t target q v w x =
    let s = find-Spot t target v w in
    let z = find-Spot t q v x in
    let law = has_peer-remove_from target s.content q s.well.distinct in
    (
      put_bucket t (pos s.at) (remove_from target s.content).0,
      (remove_from target s.content).1,
      has_peer q z.content,
      remove_at t target s,
      exists_at t target s ∙ ap done (sym law.0),
      exists_at t q z,
      exists_after t target q s z (remove_from target s.content).0
          ∙ ap done (ground (arith, law, content_agree t target q s z, spots_agree t target q s z)),
    )
