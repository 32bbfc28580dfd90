-- ===== src/Dht/Entries.antt =====
-- What `Update` and `RemovePeer` do to the entries of one bucket.
use noise.Dht.{has_peer, update_bucket, remove_from, equals, bucket_size}
use noise.Peer.{PeerId, equals}
use noise.Base.{
  ◌&&◌, All, All-append, List, ap, arith, false, inl, inr, leb, length, length-append, not, subst,
  suc, sym, ◌||◌, ◌∷◌, ◌≡◌,
}
use noise.Dht.Bucket.{
  Split, All-append_inv, Distinct, Distinct-append_inv, IsBucket, take_out-Found, has_peer-append,
  has_peer-All, equals_congr, has_peer_congr,
}

module _ (t : PeerId) (b : List PeerId) (x : PeerId) (rest : List PeerId)
    (s : Split t b x rest) where
  open s use {before, after, whole, others, found}

  split_length : length b ≡ suc (length rest)
  split_length = omega (
    arith,
    ap length whole,
    ap length others,
    length-append before (x ∷ after),
    length-append before after,
  )

  split_has_peer : (q : PeerId) → has_peer q b ≡ (equals x q || has_peer q rest)
  unfolding has_peer
  split_has_peer q =
      rw (whole, others, has_peer-append q before (x ∷ after), has_peer-append q before after)
        (ground arith)

  split_All : (P : PeerId → Type 0) → All P b → P x × All P rest
  split_All P h =
      let (l, r) = All-append_inv P before (x ∷ after) (subst (All P) whole h) in
      (r.0, subst (All P) (sym others) (All-append P before after l r.1))

  split_Distinct : Distinct b → (has_peer x rest ≡ false) × Distinct rest
  split_Distinct d =
      let (l, r, o) = Distinct-append_inv before x after (subst Distinct whole d) in
      (rw others (rw (has_peer-append x before after, l) r), subst Distinct (sym others) o)

module _ (t : PeerId) (b : List PeerId) where
  -- `Update` keeps a bucket well formed.
  pub update_bucket-IsBucket : IsBucket b → IsBucket (update_bucket t b)
  unfolding update_bucket
  update_bucket-IsBucket v = elim (take_out-Found t b) [
    | inl (e, absent) ↦ rw (e, update_bucket) (ground (arith, has_peer-All t b absent))
    | inr (x, rest, e, s) ↦
        let (fresh, d) = split_Distinct t b x rest s v.distinct in
        rw (e, update_bucket)
          (record {
            small = omega (arith, v.small, split_length t b x rest s);
            distinct = (has_peer-All x rest fresh, d);
          })
  ]

  -- After `Update` the bucket holds what it held, and the target if there was room.
  pub has_peer-update_bucket :
      (q : PeerId)
      → has_peer q (update_bucket t b)
        ≡ (has_peer q b || (equals t q && leb (length b) bucket_size))
  unfolding update_bucket has_peer
  has_peer-update_bucket q = elim (take_out-Found t b) [
    | inl (e, absent) ↦ rw (e, update_bucket) (ground arith)
    | inr (x, rest, e, s) ↦
        rw (e, update_bucket)
          (ground (arith, split_has_peer t b x rest s q, equals_congr x t q s.found))
  ]

  -- `RemovePeer` keeps a bucket well formed.
  pub remove_from-IsBucket : IsBucket b → IsBucket (remove_from t b).0
  unfolding remove_from
  remove_from-IsBucket v = elim (take_out-Found t b) [
    | inl (e, absent) ↦ rw (e, remove_from) v
    | inr (x, rest, e, s) ↦
        rw (e, remove_from)
          (record {
            small = omega (arith, v.small, split_length t b x rest s);
            distinct = (split_Distinct t b x rest s v.distinct).1;
          })
  ]

  -- It reports whether the target was there, and afterwards exactly the others are.
  pub has_peer-remove_from :
      (q : PeerId)
      → Distinct b
      → ((remove_from t b).1 ≡ has_peer t b)
        × (has_peer q (remove_from t b).0 ≡ (has_peer q b && not (equals t q)))
  unfolding remove_from has_peer
  has_peer-remove_from q d = elim (take_out-Found t b) [
    | inl (e, absent) ↦ rw (e, remove_from) (ground (arith, has_peer_congr t q b))
    | inr (x, rest, e, s) ↦
        rw (e, remove_from)
          (ground (
            arith,
            split_has_peer t b x rest s t,
            split_has_peer t b x rest s q,
            equals_congr x t q s.found,
            has_peer_congr x q rest,
            split_Distinct t b x rest s d,
          ))
  ]

  pub update_bucket-All : (P : PeerId → Type 0) → P t → All P b → All P (update_bucket t b)
  unfolding update_bucket
  update_bucket-All P p h = elim (take_out-Found t b) [
    | inl (e, absent) ↦ rw (e, update_bucket) (ground arith)
    | inr (x, rest, e, s) ↦ rw (e, update_bucket) (split_All t b x rest s P h)
  ]

  pub remove_from-All : (P : PeerId → Type 0) → All P b → All P (remove_from t b).0
  unfolding remove_from
  remove_from-All P h = elim (take_out-Found t b) [
    | inl (e, absent) ↦ rw (e, remove_from) h
    | inr (x, rest, e, s) ↦ rw (e, remove_from) (split_All t b x rest s P h).1
  ]
