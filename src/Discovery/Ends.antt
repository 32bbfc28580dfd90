-- ===== src/Discovery/Ends.antt =====
-- The rounds of `performLookup` of network/discovery/rpc.go.
use noise.Peer.{PeerId, public_key_hex}
use noise.Discovery.Found.{IsLookup, Distinct, Known, search_round-IsLookup, first-IsLookup}
use noise.Discovery.Steps.{expand-old, expand-new, flying-cases, search-nil, search-cons}
use noise.Discovery.{
  add_found, visits, expand, start_queries, pull, Lookup, search_round, search, perform_lookup,
}
use noise.Base.{
  Bytes, List, length, ◌+◌, ◌++◌, All, Bool-cases, [], ap, arith, bytes_beq, bytes_beq_iff, false,
  if◌then◌else◌, inl, inr, length-append, refl, some, subst, suc, sym, true, zero, ◌∙◌, ℕ, ◌∷◌, ◌≡◌,
  ◌≤◌,
}

-- How many keys of a list were not visited.
unfoldable pub unvisited : List Bytes → List Bytes → ℕ
unfolding visits
unvisited visited [] = 0
unvisited visited (key ∷ keys) =
    let rest = unvisited visited keys in if visits key visited then rest else suc rest

-- A response with keys of a list only.
unfoldable pub Within : List Bytes → List PeerId → Type 0
Within keys ps = All (λ p. visits (public_key_hex p) keys ≡ true) ps

unvisited-le :
    (key : Bytes) (visited keys : List Bytes)
    → unvisited (key ∷ visited) keys ≤ unvisited visited keys
unfolding unvisited visits
unvisited-le key visited [] = omega arith
unvisited-le key visited (k ∷ keys) = ground (arith, unvisited-le key visited keys)

unvisited-lt :
    (key : Bytes) (visited keys : List Bytes)
    → visits key keys ≡ true
    → visits key visited ≡ false
    → suc (unvisited (key ∷ visited) keys) ≤ unvisited visited keys
unfolding unvisited visits
unvisited-lt key visited [] h new = absurd cc
unvisited-lt key visited (k ∷ keys) h new = elim (Bool-cases (bytes_beq key k)) [
  | inl same ↦
      let e = (bytes_beq_iff key k).0 same in
      let old : visits k visited ≡ false = subst (λ x. visits x visited ≡ false) e new in
      let here : bytes_beq k key ≡ true = (bytes_beq_iff k key).1 (sym e) in
      ground (arith, old, here, unvisited-le key visited keys)
  | inr other ↦ ground (arith, other, unvisited-lt key visited keys, new, h)
]

-- What a response adds to the queue was not visited before.
expand-unvisited :
    (keys : List Bytes) (s : Lookup) (ps : List PeerId)
    → Within keys ps
    → length (expand s ps).queue + unvisited (expand s ps).visited keys
      ≤ length s.queue + unvisited s.visited keys
unfolding add_found Within expand unvisited
expand-unvisited keys s [] w = omega arith
expand-unvisited keys s (p ∷ ps) (here, w) =
    elim (Bool-cases (visits (public_key_hex p) s.visited)) [
      | inl old ↦
          subst
            (λ (e : Lookup).
              length e.queue + unvisited e.visited keys ≤ length s.queue + unvisited s.visited keys)
            (sym (expand-old s p ps old)) (expand-unvisited keys s ps w)
      | inr new ↦
          let t = add_found s p in
          subst
            (λ (e : Lookup).
              length e.queue + unvisited e.visited keys ≤ length s.queue + unvisited s.visited keys)
            (sym (expand-new s p ps new)) omega
            (
              arith,
              expand-unvisited keys t ps w,
              length-append s.queue (p ∷ []),
              unvisited-lt (public_key_hex p) s.visited keys here new,
            )
    ]

length-start_queries :
    (alpha : ℕ) (flying queue : List PeerId)
    → length (start_queries alpha flying queue) ≤ length flying + length queue
unfolding start_queries
length-start_queries alpha flying [] = omega arith
length-start_queries alpha flying (p ∷ queue) =
    ground
      (arith, length-start_queries alpha (flying ++ (p ∷ [])) queue, length-append flying (p ∷ []))

length-pull : (i : ℕ) (p : PeerId) (ps : List PeerId) → length (pull i p ps).1 ≡ length ps
unfolding pull
length-pull zero p ps = refl
length-pull (suc i) p [] = refl
length-pull (suc i) p (q ∷ qs) = ap suc (length-pull i q qs)

-- The rounds that a search still needs at most.
abbrev pub rounds : List Bytes → Lookup → ℕ
rounds keys s = length s.flying + unvisited s.visited keys

search_round-rounds :
    (alpha : ℕ) (keys : List Bytes) (s : Lookup) (others response : List PeerId)
    → s.queue ≡ []
    → Within keys response
    → rounds keys (search_round alpha s others response) ≤ length others + unvisited s.visited keys
unfolding search_round
search_round-rounds alpha keys s others response q w =
    let t : Lookup = record s { flying = others } in
    omega (
      arith,
      length-start_queries alpha others (expand t response).queue,
      expand-unvisited keys t response w,
      ap (λ (l : List PeerId). length l) q,
    )

-- What holds of a search, if its rounds keep it.
abbrev Kept : ℕ → (Lookup → Type 0) → Type 0
Kept alpha holds =
    (s : Lookup) (others response : List PeerId)
    → suc (length others) ≡ length s.flying
    → holds s
    → holds (search_round alpha s others response)

search-ends :
    (alpha : ℕ) (pick : ℕ → ℕ) (ask : ℕ → PeerId → List PeerId) (keys : List Bytes)
    (holds : Lookup → Type 0) (fuel : ℕ) (s : Lookup)
    → Kept alpha holds
    → ((n : ℕ) (p : PeerId) → Within keys (ask n p))
    → s.queue ≡ []
    → rounds keys s ≤ fuel
    → holds s
    → (t : Lookup) × (search alpha pick ask fuel s ≡ some t) × (t.flying ≡ []) × holds t
unfolding search_round
search-ends alpha pick ask keys holds zero s keep w q f v = elim (flying-cases s.flying) [
  | inl e ↦ (s, search-nil alpha pick ask 0 s e, e, v)
  | inr (p, ps, e) ↦ absurd (omega (arith, f, ap (λ (l : List PeerId). length l) e))
]
search-ends alpha pick ask keys holds (suc n) s keep w q f v = elim (flying-cases s.flying) [
  | inl e ↦ (s, search-nil alpha pick ask (suc n) s e, e, v)
  | inr (p, ps, e) ↦
      let (peer, others) = pull (pick n) p ps in
      let s' = search_round alpha s others (ask n peer) in
      let less = search_round-rounds alpha keys s others (ask n peer) q (w n peer) in
      let one : suc (length others) ≡ length s.flying =
        omega (arith, length-pull (pick n) p ps, ap (λ (l : List PeerId). length l) e) in
      let (t, r, end, v') =
        search-ends alpha pick ask keys holds n s' keep w refl (omega (arith, f, less, one))
          (keep s others (ask n peer) one v) in
      (t, search-cons alpha pick ask n s p ps e ∙ r, end, v')
]

unvisited-length : (visited keys : List Bytes) → unvisited visited keys ≤ length keys
unfolding unvisited
unvisited-length visited [] = omega arith
unvisited-length visited (k ∷ keys) = ground (arith, unvisited-length visited keys)

-- Where the responses hold only keys of a list, and the queue has peers of different keys that
-- count as visited, performLookup ends after at most as many rounds as the queue and the list have
-- entries, in whatever order the queries end; its results are of different keys, all visited.
pub perform_lookup-IsLookup :
    (alpha : ℕ) (pick : ℕ → ℕ) (ask : ℕ → PeerId → List PeerId) (queue : List PeerId)
    (visited keys : List Bytes)
    → ((n : ℕ) (p : PeerId) → Within keys (ask n p))
    → Distinct queue
    → Known visited queue
    → (t : Lookup) × (perform_lookup alpha pick ask (length queue + length keys) queue visited
        ≡ some t)
      × (t.flying ≡ [])
      × IsLookup alpha t
unfolding perform_lookup
perform_lookup-IsLookup alpha pick ask queue visited keys w d k =
    search-ends alpha pick ask keys (IsLookup alpha) (length queue + length keys) _
      (λ s others response one v.
        search_round-IsLookup alpha s others response (omega (arith, one, v.few)) v)
      w refl (omega (arith, length-start_queries alpha [] queue, unvisited-length visited keys))
      (first-IsLookup alpha queue visited d k)

-- With enough fuel a lookup ends, whatever its queue.
pub perform_lookup-ends :
    (alpha : ℕ) (pick : ℕ → ℕ) (ask : ℕ → PeerId → List PeerId) (fuel : ℕ) (queue : List PeerId)
    (visited keys : List Bytes)
    → ((n : ℕ) (p : PeerId) → Within keys (ask n p))
    → length queue + length keys ≤ fuel
    → (t : Lookup) × (perform_lookup alpha pick ask fuel queue visited ≡ some t)
unfolding perform_lookup
perform_lookup-ends alpha pick ask fuel queue visited keys w f =
    let (t, e, end, v) =
      search-ends alpha pick ask keys (λ s. Unit {0}) fuel _ (λ s others response one v. tt) w refl
        (omega (arith, f, length-start_queries alpha [] queue, unvisited-length visited keys)) tt in
    (t, e)
