-- ===== src/Discovery/Found.antt =====
-- The results of `performLookup` of network/discovery/rpc.go, and its queries in flight.
use noise.Base.{
  All, Bool-cases, Bytes, List, length, ◌++◌, [], arith, bytes_beq, bytes_beq_iff, bytes_beq_refl,
  false, inl, inr, length-append, ltb, refl, subst, sym, true, ◌||◌, ℕ, ◌∙◌, ◌∷◌, ◌≡◌, ◌≤◌, ◌+◌,
}
use noise.Discovery.Steps.{expand-old, expand-new}
use noise.Discovery.{Lookup, visits, add_found, expand, start_queries, search_round, first_results}
use noise.Peer.{PeerId, public_key_hex}

unfoldable pub keys_of : List PeerId → List Bytes
keys_of [] = []
keys_of (p ∷ ps) = public_key_hex p ∷ keys_of ps

-- No two peers have one key.
unfoldable pub Distinct : List PeerId → Type 0
Distinct [] = Unit
Distinct (p ∷ ps) = (visits (public_key_hex p) (keys_of ps) ≡ false) × Distinct ps

abbrev pub Known : List Bytes → List PeerId → Type 0
Known visited ps = All (λ p. visits (public_key_hex p) visited ≡ true) ps

pub record IsLookup (alpha : ℕ) (s : Lookup) : Type 0 where
  pub few : length s.flying ≤ alpha
  pub distinct : Distinct s.results
  pub known : Known s.visited s.results

visits-append :
    (key : Bytes) (ps : List PeerId) (p : PeerId)
    → visits key (keys_of (ps ++ (p ∷ [])))
      ≡ (visits key (keys_of ps) || bytes_beq key (public_key_hex p))
unfolding visits keys_of
visits-append key [] p = ground arith
visits-append key (q ∷ ps) p = ground (arith, visits-append key ps p)

visits-congr :
    (a b : Bytes) (visited : List Bytes)
    → visits a visited ≡ true
    → visits b visited ≡ false
    → bytes_beq a b ≡ false
visits-congr a b visited h g = elim (Bool-cases (bytes_beq a b)) [
  | inr f ↦ f
  | inl e ↦
      let same = (bytes_beq_iff a b).0 e in
      absurd (ground (arith, subst (λ x. visits x visited ≡ true) same h, g))
]

Distinct-append :
    (ps : List PeerId) (p : PeerId) (visited : List Bytes)
    → Distinct ps
    → Known visited ps
    → visits (public_key_hex p) visited ≡ false
    → Distinct (ps ++ (p ∷ []))
unfolding Distinct keys_of visits
Distinct-append [] p visited d k new = (refl, tt)
Distinct-append (q ∷ ps) p visited (a, d) (h, k) new = (
  visits-append (public_key_hex q) ps p
      ∙ ground (arith, a, visits-congr (public_key_hex q) (public_key_hex p) visited h new),
  Distinct-append ps p visited d k new,
)

Known-append :
    (ps : List PeerId) (p : PeerId) (visited : List Bytes)
    → Known visited ps
    → Known (public_key_hex p ∷ visited) (ps ++ (p ∷ []))
unfolding visits
Known-append [] p visited k = (ground (arith, bytes_beq_refl (public_key_hex p)), tt)
Known-append (q ∷ ps) p visited (h, k) = (ground (arith, h), Known-append ps p visited k)

-- The results of a lookup are as they should be.
record IsFound (s : Lookup) : Type 0 where
  distinct : Distinct s.results
  known : Known s.visited s.results

expand-IsFound : (s : Lookup) (ps : List PeerId) → IsFound s → IsFound (expand s ps)
unfolding expand add_found
expand-IsFound s [] v = v
expand-IsFound s (p ∷ ps) v = elim (Bool-cases (visits (public_key_hex p) s.visited)) [
  | inl old ↦ subst IsFound (sym (expand-old s p ps old)) (expand-IsFound s ps v)
  | inr new ↦ subst IsFound (sym (expand-new s p ps new)) (
      expand-IsFound (add_found s p) ps (record {
        distinct = Distinct-append s.results p s.visited v.distinct v.known new;
        known = Known-append s.results p s.visited v.known;
      }))
]

start_queries-le :
    (alpha : ℕ) (flying queue : List PeerId)
    → length flying ≤ alpha
    → length (start_queries alpha flying queue) ≤ alpha
unfolding start_queries
start_queries-le alpha flying [] h = h
start_queries-le alpha flying (p ∷ queue) h = elim (Bool-cases (ltb (length flying) alpha)) [
  | inl l ↦ rw l (
      start_queries-le alpha (flying ++ (p ∷ [])) queue
        (ground (arith, l, length-append flying (p ∷ []))))
  | inr l ↦ rw l h
]

pub search_round-IsLookup :
    (alpha : ℕ) (s : Lookup) (others response : List PeerId)
    → length others ≤ alpha
    → IsLookup alpha s
    → IsLookup alpha (search_round alpha s others response)
unfolding search_round
search_round-IsLookup alpha s others response l v =
    let t : Lookup = record s { flying = others } in
    let f = expand-IsFound t response (record { distinct = v.distinct; known = v.known }) in
    record {
      few = start_queries-le alpha others (expand t response).queue l;
      distinct = f.distinct;
      known = f.known;
    }

first_results-visits :
    (alpha pending : ℕ) (queue : List PeerId) (key : Bytes)
    → visits key (keys_of queue) ≡ false
    → visits key (keys_of (first_results alpha pending queue)) ≡ false
unfolding first_results visits keys_of
first_results-visits alpha pending [] key h = refl
first_results-visits alpha pending (p ∷ queue) key h = elim (Bool-cases (ltb pending alpha)) [
  | inr e ↦ rw e refl
  | inl e ↦ rw e (ground (arith, h, first_results-visits alpha (pending + 1) queue key))
]

first_results-Distinct :
    (alpha pending : ℕ) (queue : List PeerId)
    → Distinct queue
    → Distinct (first_results alpha pending queue)
unfolding first_results Distinct
first_results-Distinct alpha pending [] d = tt
first_results-Distinct alpha pending (p ∷ queue) (a, d) = elim (Bool-cases (ltb pending alpha)) [
  | inr e ↦ rw e tt
  | inl e ↦ rw e (
    first_results-visits alpha (pending + 1) queue (public_key_hex p) a,
    first_results-Distinct alpha (pending + 1) queue d,
  )
]

first_results-Known :
    (alpha pending : ℕ) (visited : List Bytes) (queue : List PeerId)
    → Known visited queue
    → Known visited (first_results alpha pending queue)
unfolding first_results
first_results-Known alpha pending visited [] k = tt
first_results-Known alpha pending visited (p ∷ queue) (h, k) =
    elim (Bool-cases (ltb pending alpha)) [
      | inr e ↦ rw e tt
      | inl e ↦ rw e (h, first_results-Known alpha (pending + 1) visited queue k)
    ]

pub first-IsLookup :
    (alpha : ℕ) (queue : List PeerId) (visited : List Bytes)
    → Distinct queue
    → Known visited queue
    → IsLookup alpha (record {
      flying = start_queries alpha [] queue;
      queue = [];
      results = first_results alpha 0 queue;
      visited = visited;
    })
first-IsLookup alpha queue visited d k = record {
  few = start_queries-le alpha [] queue (omega arith);
  distinct = first_results-Distinct alpha 0 queue d;
  known = first_results-Known alpha 0 visited queue k;
}
