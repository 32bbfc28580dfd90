-- ===== src/Dht/Table.antt =====
-- The routing table's invariant, and `Update`, `RemovePeer` and `PeerExists` under it.
use noise.Base.Int.{pos}
use noise.Dht.Bucket.{IsBucket}
use noise.Peer.Distance.{IsPair, prefix_len-xor_id_lt}
use noise.Peer.{PeerId, IsBytes, prefix_len, xor_id}
use noise.Base.{
  ◌*◌, ◌+◌, ◌<◌, All, List, [], arith, get_elem?, get_elem?_total, length, replicate, set, some,
  subst, suc, zero, ℕ, ◌∷◌, ◌≡◌,
}
use noise.Dht.{RoutingTable, PeerId, bucket_id, pos, prefix_len, xor_id}

-- A peer that belongs into bucket `i` of the table of `self`.
pub record IsPlaced (self : PeerId) (i : ℕ) (p : PeerId) : Type 0 where
  pub pair : IsPair p self
  pub index : prefix_len (xor_id p self) ≡ pos i

-- Bucket `i` and those behind it.
abbrev pub Buckets : PeerId → ℕ → List (List PeerId) → Type 0
Buckets self i [] = Unit {0}
Buckets self i (b ∷ bs) = IsBucket b × All (IsPlaced self i) b × Buckets self (suc i) bs

pub record IsRouting (t : RoutingTable) : Type 0 where
  pub self_bytes : IsBytes t.self.id
  pub self_named : 0 < length t.self.id
  pub count : length t.buckets ≡ length t.self.id * 8
  pub placed : Buckets t.self 0 t.buckets

pub Buckets-get_elem? :
    (self : PeerId) (i n : ℕ) (bs : List (List PeerId)) (b : List PeerId)
    → Buckets self i bs
    → get_elem? bs n ≡ some b
    → IsBucket b × All (IsPlaced self (i + n)) b
Buckets-get_elem? self i n [] b h e = absurd (ground arith)
Buckets-get_elem? self i zero (c ∷ bs) b h e =
    let k : i ≡ i + zero = omega arith in
    let same : c ≡ b = cc in
    subst (λ x. IsBucket x × All (IsPlaced self (i + zero)) x) same
      (h.0, subst (λ j. All (IsPlaced self j) c) k h.1)
Buckets-get_elem? self i (suc n) (c ∷ bs) b h e =
    let k : suc i + n ≡ i + suc n = omega arith in
    subst (λ j. IsBucket b × All (IsPlaced self j) b) k
      (Buckets-get_elem? self (suc i) n bs b h.2 e)

pub Buckets-set :
    (self : PeerId) (i n : ℕ) (bs : List (List PeerId)) (b : List PeerId)
    → Buckets self i bs
    → IsBucket b
    → All (IsPlaced self (i + n)) b
    → Buckets self i (set bs n b)
Buckets-set self i n [] b h v a = tt
Buckets-set self i zero (c ∷ bs) b h v a =
    let k : i + zero ≡ i = omega arith in (v, subst (λ j. All (IsPlaced self j) b) k a, h.2)
Buckets-set self i (suc n) (c ∷ bs) b h v a =
    let k : i + suc n ≡ suc i + n = omega arith in
    (h.0, h.1, Buckets-set self (suc i) n bs b h.2 v (subst (λ j. All (IsPlaced self j) b) k a))

pub Buckets-replicate : (self : PeerId) (i n : ℕ) → Buckets self i (replicate n [])
Buckets-replicate self i zero = tt
Buckets-replicate self i (suc n) =
    (record { small = omega arith; distinct = tt }, tt, Buckets-replicate self (suc i) n)

-- Where an operation on a peer of the table's key length goes.
pub record Spot (t : RoutingTable) (target : PeerId) : Type 0 where
  pub at : ℕ
  pub content : List PeerId
  pub index : bucket_id t target ≡ pos at
  pub below : at < length t.buckets
  pub entry : get_elem? t.buckets at ≡ some content
  pub well : IsBucket content
  pub all_placed : All (IsPlaced t.self at) content
  pub target_placed : IsPlaced t.self at target

pub find-Spot :
    (t : RoutingTable) (target : PeerId) → IsRouting t → IsPair target t.self → Spot t target
unfolding bucket_id
find-Spot t target v w =
    let (at, e, lt) =
      prefix_len-xor_id_lt target t.self w (omega (arith, v.self_named, w.same_length)) in
    let low : at < length t.buckets = omega (arith, v.count, w.same_length, lt) in
    let (content, here) = get_elem?_total t.buckets at low in
    let (well, placed) = Buckets-get_elem? t.self 0 at t.buckets content v.placed here in
    let zero_at : 0 + at ≡ at = omega arith in
    record {
      at = at;
      content = content;
      index = e;
      below = low;
      entry = here;
      well = well;
      all_placed = subst (λ j. All (IsPlaced t.self j) content) zero_at placed;
      target_placed = record { pair = w; index = e };
    }
