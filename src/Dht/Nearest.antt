-- ===== src/Dht/Nearest.antt =====
-- What `FindClosestPeers` of dht/routes.go returns.
use native.Mathlib.Decide.{dec_le}
use noise.Peer.Distance.{IsPair}
use noise.Peer.Order.{bytes_lt_asym, bytes_lt_ntrans}
use noise.Dht.Bucket.{Any-has_peer, has_peer-Any, All-has_peer, has_peer-All}
use noise.Dht.Table.{IsRouting, find-Spot, Spot}
use noise.Dht.Closest.{has_any, IsSound, IsComplete, widen_lem, has_any_of, Covers}
use noise.Peer.{PeerId, less, xor_id, equals}
use noise.Base.{
  All, All-take, refl, ◌+◌, ◌<◌, ◌*◌, Bool, Bool-cases, List, [], arith, done, false, inl, inr,
  length, length-take, suc, sym, take, take_all, true, zero, ℕ, ◌∙◌, ◌∷◌, ◌≡◌, ◌≤◌, ◌⊎◌, ap,
  get_elem?, nat_beq, some, subst,
}
use noise.Dht.Far.{closer-far, distance, far}
use noise.Dht.Members.{All-members, equals_id, table_pair}
use noise.Base.Int.{pos}
use noise.Dht.{
  bucket_id, RoutingTable, has_peer, PeerId, closer, nearest, find_closest_peers, less, xor_id,
  equals, widen,
}
use noise.Base.Sort.{IsSorted, sort, sort-Any, sort-IsSorted, sort-All, length-sort}

has_peer-take :
    (q : PeerId) (n : ℕ) (ps : List PeerId) → has_peer q (take n ps) ≡ true → has_peer q ps ≡ true
unfolding has_peer
has_peer-take q zero ps h = absurd (ground arith)
has_peer-take q (suc n) [] h = h
has_peer-take q (suc n) (p ∷ ps) h = ground (arith, has_peer-take q n ps)

-- The order in which the entries stand does not matter.
has_peer-sort :
    (q : PeerId) (less : PeerId → PeerId → Bool) (ps : List PeerId)
    → has_peer q (sort less ps) ≡ has_peer q ps
has_peer-sort q less ps = elim (Bool-cases (has_peer q ps)) [
  | inl present ↦
      Any-has_peer q (sort less ps)
        (sort-Any less (λ p. equals p q ≡ true) ps (has_peer-Any q ps present))
      ∙ sym present
  | inr absent ↦
      All-has_peer q (sort less ps)
        (sort-All less (λ p. equals p q ≡ false) ps (has_peer-All q ps absent))
      ∙ sym absent
]

closer_asym : (t p q : PeerId) → closer t p q ≡ true → closer t q p ≡ false
unfolding closer less
closer_asym t p q = bytes_lt_asym (xor_id p t).id (xor_id q t).id

closer_ntrans :
    (t p q r : PeerId) → closer t r q ≡ false → closer t q p ≡ false → closer t r p ≡ false
unfolding closer less
closer_ntrans t p q r = bytes_lt_ntrans (xor_id p t).id (xor_id q t).id (xor_id r t).id

-- Each peer is at most as far from the target as those behind it.
abbrev pub Outwards : PeerId → List PeerId → Type 0
Outwards target [] = Unit {0}
Outwards target (p ∷ ps) = All (λ q. far target p ≤ far target q) ps × Outwards target ps

Outwards-take :
    (target : PeerId) (n : ℕ) (ps : List PeerId) → Outwards target ps → Outwards target (take n ps)
Outwards-take target zero ps h = tt
Outwards-take target (suc n) [] h = tt
Outwards-take target (suc n) (p ∷ ps) (h, hs) =
    (All-take (λ q. far target p ≤ far target q) n ps h, Outwards-take target n ps hs)

behind :
    (target p : PeerId) (qs : List PeerId)
    → IsPair p target
    → All (λ q. IsPair q target) qs
    → All (λ q. closer target q p ≡ false) qs
    → All (λ q. far target p ≤ far target q) qs
behind target p [] v vs h = tt
behind target p (q ∷ qs) v (w, vs) (h, hs) =
    (closer-far target p q v w h, behind target p qs v vs hs)

IsSorted-Outwards :
    (target : PeerId) (ps : List PeerId)
    → All (λ q. IsPair q target) ps
    → IsSorted (closer target) ps
    → Outwards target ps
IsSorted-Outwards target [] v h = tt
IsSorted-Outwards target (p ∷ ps) (v, vs) (h, hs) =
    (behind target p ps v vs h, IsSorted-Outwards target ps vs hs)

far_member :
    (target p q : PeerId) (ps : List PeerId)
    → All (λ r. far target p ≤ far target r) ps
    → has_peer q ps ≡ true
    → far target p ≤ far target q
unfolding has_peer
far_member target p q [] h e = absurd (ground (arith, e))
far_member target p q (r ∷ ps) (h, hs) e = elim (Bool-cases (equals r q)) [
  | inl same ↦ subst (λ k. far target p ≤ distance k target.id) (equals_id r q same) h
  | inr other ↦ far_member target p q ps hs (ground (arith, other, e))
]

-- A peer is among the first, or none of them is farther.
first_or_farther :
    (target q : PeerId) (n : ℕ) (ps : List PeerId)
    → Outwards target ps
    → has_peer q ps ≡ true
    → (has_peer q (take n ps) ≡ true) ⊎ All (λ p. far target p ≤ far target q) (take n ps)
unfolding has_peer
first_or_farther target q zero ps h e = inr tt
first_or_farther target q (suc n) [] h e = absurd (ground (arith, e))
first_or_farther target q (suc n) (p ∷ ps) (h, hs) e = elim (Bool-cases (equals p q)) [
  | inl same ↦ inl (rw same refl)
  | inr other ↦
      let there : has_peer q ps ≡ true = ground (arith, other, e) in
      elim (first_or_farther target q n ps hs there) [
        | inl first ↦ inl (ground (arith, other, first))
        | inr farther ↦ inr (far_member target p q ps h there, farther)
      ]
]

-- Peers of the table: the nearest ones of the buckets that stand closer than `reach` to the target's,
-- in order of the number that their XOR distance is.
pub record Nearest (t : RoutingTable) (target : PeerId) (count : ℕ) (peers : List PeerId)
    : Type 0 where
  pub short : length peers ≤ count
  pub sorted : Outwards target peers
  pub known : (q : PeerId) → has_peer q peers ≡ true → has_any q t.buckets ≡ true
  pub full : (length peers ≡ count) ⊎ IsComplete t peers
  pub at : ℕ
  pub indexed : bucket_id t target ≡ pos at
  pub reach : ℕ
  pub reaches : 0 < reach
  pub chosen :
      (q : PeerId) (j : ℕ) (b : List PeerId)
      → j < at + reach
      → at < j + reach
      → get_elem? t.buckets j ≡ some b
      → has_peer q b ≡ true
      → (has_peer q peers ≡ true) ⊎ All (λ p. far target p ≤ far target q) peers

pairs :
    (t : RoutingTable) (target : PeerId) (r : List PeerId)
    → IsRouting t
    → IsPair target t.self
    → IsSound t r
    → All (λ q. IsPair q target) r
pairs t target r v w s =
    All-members (λ q. IsPair q target) r
      (λ q h.
        let p = table_pair t q v (s q h) in
        record {
          same_length = p.same_length ∙ sym w.same_length;
          left_bytes = p.left_bytes;
          right_bytes = w.left_bytes;
        })

nearest-Nearest :
    (t : RoutingTable) (target : PeerId) (count at reach : ℕ) (r : List PeerId)
    → IsRouting t
    → IsPair target t.self
    → bucket_id t target ≡ pos at
    → IsSound t r
    → (count ≤ length r) ⊎ IsComplete t r
    → 0 < reach
    → Covers t at reach r
    → Nearest t target count (nearest target count r)
unfolding nearest
nearest-Nearest t target count at reach r v w index s end far_enough covers =
    let out = sort (closer target) r in
    let ordered =
      IsSorted-Outwards target out
        (sort-All (closer target) (λ q. IsPair q target) r (pairs t target r v w s))
        (sort-IsSorted (closer target) (closer_asym target) (closer_ntrans target) r) in
    record {
      short = omega (arith, length-take count out);
      sorted = Outwards-take target count out ordered;
      known = λ q h. s q (sym (has_peer-sort q (closer target) r) ∙ has_peer-take q count _ h);
      full = elim (dec_le count (length r)) [
        | yes enough ↦ inl (omega (arith, length-take count out, length-sort (closer target) r))
        | no few ↦ elim end [
          | inl enough ↦ absurd (few enough)
          | inr all ↦ inr λ q h.
              rw (take_all out count (omega (arith, length-sort (closer target) r)))
                (has_peer-sort q (closer target) r ∙ all q h)
        ]
      ];
      at = at;
      indexed = index;
      reach = reach;
      reaches = far_enough;
      chosen = λ q j b lo hi e h.
          first_or_farther target q count out ordered
            (has_peer-sort q (closer target) r ∙ covers q j b lo hi e h);
    }

near-Covers : (t : RoutingTable) (target : PeerId) (s : Spot t target) → Covers t s.at 1 s.content
near-Covers t target s q j b lo hi e h =
    let here : j ≡ s.at = omega arith in
    let e' : get_elem? t.buckets s.at ≡ some b =
      subst (λ k. get_elem? t.buckets k ≡ some b) here e in
    let same : s.content ≡ b = cc (s.entry, e') in ap (has_peer q) same ∙ h

find_at :
    (t : RoutingTable) (target : PeerId) (count : ℕ) (s : Spot t target) (r : List PeerId)
    → length t.self.id ≡ length target.id
    → widen (length t.self.id * 8) t s.at 1 count s.content ≡ done r
    → find_closest_peers t target count ≡ done (nearest target count r)
unfolding find_closest_peers
find_at t target count s r same e =
    let test : nat_beq (length t.self.id) (length target.id) ≡ true = ground arith in
    rw (test, s.index, s.entry, e)

-- On a well-formed table and for a target of its key length, FindClosestPeers returns without a
-- panic at most count peers of the table, in ascending order of the number that their XOR distance
-- to the target is, and either count of them or every peer; and of the buckets within some reach of
-- the target's, that one included, every peer that is not returned is at least as far as all that
-- are.
pub find_closest_peers-Nearest :
    (t : RoutingTable) (target : PeerId) (count : ℕ)
    → IsRouting t
    → IsPair target t.self
    → (peers : List PeerId) × (find_closest_peers t target count ≡ done peers)
      × Nearest t target count peers
find_closest_peers-Nearest t target count v w =
    let s = find-Spot t target v w in
    let (r, e, sound, end, reach, more, covers) =
      widen_lem t s.at v.count s.below (length t.self.id * 8) 1 count s.content (omega arith)
        (omega (arith, v.count)) (λ q h. has_any_of q t.buckets s.at s.content s.entry h)
        (near-Covers t target s) in
    (
      nearest target count r,
      find_at t target count s r (sym w.same_length) e,
      nearest-Nearest t target count s.at reach r v w s.index sound end (omega (arith, more))
          covers,
    )
