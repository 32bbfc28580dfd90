-- ===== src/Discovery/Origin.antt =====
-- The identities that the search of network/discovery/rpc.go hands on: all come from the routing table or
-- from a response.
use noise.Base.{
  Bytes, List, ◌+◌, ◌++◌, ◌≡◌, ◌∙◌, ◌∷◌, All, All-append, Bool-cases, [], arith, inl, inr, length,
  ltb, none, some, subst, suc, sym, zero, ℕ, none-ne-some,
}
use noise.Discovery.{
  Lookup, add_found, expand, first_results, perform_lookup, pull, search, search_round,
  start_queries, visits,
}
use noise.Discovery.Steps.{flying-cases, search-cons, search-nil}
use noise.Peer.{PeerId, public_key_hex}

pub some_injective : {A : Type 0} (a b : A) → some a ≡ some b → a ≡ b
some_injective a b e = cc

search-stuck :
    (alpha : ℕ) (pick : ℕ → ℕ) (ask : ℕ → PeerId → List PeerId) (s : Lookup) (p : PeerId)
    (ps : List PeerId)
    → s.flying ≡ p ∷ ps
    → search alpha pick ask zero s ≡ none
unfolding search
search-stuck alpha pick ask s p ps f = ground (arith, f)

module _ (P : PeerId → Type 0) where
  -- What a lookup holds is of the kind `P`.
  pub record Pure (s : Lookup) : Type 0 where
    pub flying : All P s.flying
    pub queue : All P s.queue
    pub results : All P s.results

  add_found-Pure : (s : Lookup) (p : PeerId) → Pure s → P p → Pure (add_found s p)
  unfolding add_found
  add_found-Pure s p v h = record {
    flying = v.flying;
    queue = All-append P s.queue (p ∷ []) v.queue (h, tt);
    results = All-append P s.results (p ∷ []) v.results (h, tt);
  }

  expand-Pure : (s : Lookup) (ps : List PeerId) → Pure s → All P ps → Pure (expand s ps)
  unfolding expand
  expand-Pure s [] v h = v
  expand-Pure s (p ∷ ps) v (h, hs) = elim (Bool-cases (visits (public_key_hex p) s.visited)) [
    | inl old ↦ rw old (expand-Pure s ps v hs)
    | inr new ↦ rw new (expand-Pure (add_found s p) ps (add_found-Pure s p v h) hs)
  ]

  start_queries-All :
      (alpha : ℕ) (flying queue : List PeerId)
      → All P flying
      → All P queue
      → All P (start_queries alpha flying queue)
  unfolding start_queries
  start_queries-All alpha flying [] f q = f
  start_queries-All alpha flying (p ∷ queue) f (h, q) =
      elim (Bool-cases (ltb (length flying) alpha)) [
        | inl room ↦ rw room (
            start_queries-All alpha (flying ++ (p ∷ [])) queue
              (All-append P flying (p ∷ []) f (h, tt)) q)
        | inr full ↦ rw full f
      ]

  first_results-All :
      (alpha pending : ℕ) (queue : List PeerId)
      → All P queue
      → All P (first_results alpha pending queue)
  unfolding first_results
  first_results-All alpha pending [] q = tt
  first_results-All alpha pending (p ∷ queue) (h, q) = elim (Bool-cases (ltb pending alpha)) [
    | inl room ↦ rw room (h, first_results-All alpha (pending + 1) queue q)
    | inr full ↦ rw full tt
  ]

  pull-All : (i : ℕ) (p : PeerId) (ps : List PeerId) → All P (p ∷ ps) → All P (pull i p ps).1
  unfolding pull
  pull-All zero p ps h = h.1
  pull-All (suc i) p [] h = h.1
  pull-All (suc i) p (q ∷ qs) h = (h.0, pull-All i q qs h.1)

  search_round-Pure :
      (alpha : ℕ) (s : Lookup) (others response : List PeerId)
      → Pure s
      → All P others
      → All P response
      → Pure (search_round alpha s others response)
  unfolding search_round
  search_round-Pure alpha s others response v o r =
      let e =
        expand-Pure (record s { flying = others }) response
          (record { flying = o; queue = v.queue; results = v.results }) r in
      record {
        flying =
            start_queries-All alpha others (expand (record s { flying = others }) response).queue o
              e.queue;
        queue = tt;
        results = e.results;
      }

  -- Every response is of the kind.
  abbrev pub Answers : (ℕ → PeerId → List PeerId) → Type 0
  Answers ask = (n : ℕ) (p : PeerId) → All P (ask n p)

  search-Pure :
      (alpha : ℕ) (pick : ℕ → ℕ) (ask : ℕ → PeerId → List PeerId) (fuel : ℕ) (s t : Lookup)
      → Answers ask
      → Pure s
      → search alpha pick ask fuel s ≡ some t
      → Pure t
  search-Pure alpha pick ask zero s t a v e = elim (flying-cases s.flying) [
    | inl none_left ↦
        subst Pure (some_injective s t (sym (search-nil alpha pick ask 0 s none_left) ∙ e)) v
    | inr (p, ps, f) ↦ absurd (none-ne-some t (sym (search-stuck alpha pick ask s p ps f) ∙ e))
  ]
  search-Pure alpha pick ask (suc n) s t a v e = elim (flying-cases s.flying) [
    | inl none_left ↦
        subst Pure (some_injective s t (sym (search-nil alpha pick ask (suc n) s none_left) ∙ e)) v
    | inr (p, ps, f) ↦
        let (peer, others) = pull (pick n) p ps in
        search-Pure alpha pick ask n (search_round alpha s others (ask n peer)) t a
          (search_round-Pure alpha s others (ask n peer) v
            (pull-All (pick n) p ps (subst (All P) f v.flying)) (a n peer))
          (sym (search-cons alpha pick ask n s p ps f) ∙ e)
  ]

  pub perform_lookup-Pure :
      (alpha : ℕ) (pick : ℕ → ℕ) (ask : ℕ → PeerId → List PeerId) (fuel : ℕ) (queue : List PeerId)
      (visited : List Bytes) (t : Lookup)
      → Answers ask
      → All P queue
      → perform_lookup alpha pick ask fuel queue visited ≡ some t
      → Pure t
  unfolding perform_lookup
  perform_lookup-Pure alpha pick ask fuel queue visited t a q e =
      search-Pure alpha pick ask fuel _ t a
        (record {
          flying = start_queries-All alpha [] queue tt q;
          queue = tt;
          results = first_results-All alpha 0 queue q;
        })
        e
