-- ===== src/Address/Filter.antt =====
-- network/utils.go, `FilterPeers`: the addresses of peers, resolved, without the node's own and without
-- repeats.
use noise.Address.Fresh.{seen, fresh, Fresh, fresh-Fresh, seen-fresh, seen-one}
use noise.Lru.Refine.{IsCache}
use noise.Lru.{Cache}
use noise.Base.{
  Bytes, List, length, ◌>>=◌, Bool-cases, Option, Outcome, Result, Result-cases, [], bytes_beq,
  done, err, false, if◌then◌else◌, inl, inr, nat_beq, none, ok, refl, some, true, ◌||◌, ℕ, ◌∷◌, ◌≡◌,
  Option-cases, ap, ◌∙◌, ◌&&◌, not,
}
use noise.Address.{
  NetPackage, to_unified_address, Cache, parse_address, resolve, AddressError, address_string,
  address_empty,
}
use noise.Address.Resolve.{Faithful, to_unified_host-Faithful}

module _ {E : Type 0} (go : NetPackage E) where
  -- A peer's address resolved; none is one that is passed over.
  unfoldable pub unify_peer : Cache Bytes → Bytes → Outcome (Cache Bytes × Option Bytes)
  unfolding to_unified_address
  unify_peer c p =
      if nat_beq (length p) 0
      then done (c, none)
      else (to_unified_address go c p >>= λ (c', r).
          done (c', elim r [ err e ↦ none | ok unified ↦ some unified ]))

  -- The loop with the addresses visited so far, and what it adds.
  unfoldable pub filter_from :
      List Bytes → List Bytes → Cache Bytes → Outcome (Cache Bytes × List Bytes)
  unfolding unify_peer seen
  filter_from visited [] c = done (c, [])
  filter_from visited (p ∷ ps) c = unify_peer c p >>= λ (c', r). elim r [
    | none ↦ filter_from visited ps c'
    | some a ↦ elim (seen a visited) [
      | true ↦ filter_from visited ps c'
      | false ↦ filter_from (a ∷ visited) ps c' >>= λ (c2, rest). done (c2, a ∷ rest)
    ]
  ]

  unfoldable pub filter_peers :
      Cache Bytes → Bytes → List Bytes → Outcome (Cache Bytes × List Bytes)
  unfolding filter_from
  filter_peers c address peers = filter_from (address ∷ []) peers c

  -- The address of a peer without a cache.
  unfoldable pub unified : Bytes → Option Bytes
  unified p =
      if nat_beq (length p) 0 || nat_beq (length (go.trim_space p)) 0
      then none
      else elim (parse_address go (go.trim_space p)) [
        | err e ↦ none
        | ok info ↦ elim (resolve go info.host) [
          | err e ↦ none
          | ok host ↦ some (address_string go (record info { host = host }))
        ]
      ]

  unfoldable pub all_unified : List Bytes → List Bytes
  unfolding unified
  all_unified [] = []
  all_unified (p ∷ ps) = elim (unified p) [ none ↦ all_unified ps | some a ↦ a ∷ all_unified ps ]

  -- A well-formed cache that holds what hosts resolve to.
  pub record Sane (n : ℕ) (c : Cache Bytes) : Type 0 where
    pub formed : IsCache n c
    pub faithful : Faithful go c.order

  to_unified_address-Sane :
      (n : ℕ) (c : Cache Bytes) (p : Bytes)
      → Sane n c
      → nat_beq (length p) 0 ≡ false
      → (c' : Cache Bytes) × (r : Result (AddressError E) Bytes) × (to_unified_address go c p
          ≡ done (c', r))
        × Sane n c'
        × ((elim r [ err e ↦ none | ok a ↦ some a ]) ≡ unified p)
  unfolding to_unified_address unified
  to_unified_address-Sane n c p s f = elim (Bool-cases (nat_beq (length (go.trim_space p)) 0)) [
    | inl empty ↦ (c, err address_empty, rw empty refl, s, rw (f, empty) refl)
    | inr full ↦ elim (Result-cases (parse_address go (go.trim_space p))) [
      | inr (e, bad) ↦ (c, err e, rw (full, bad) refl, s, rw (f, full, bad) refl)
      | inl (info, good) ↦
          let (c', got, formed, faithful) =
            to_unified_host-Faithful go n c info.host s.formed s.faithful in
          elim (Result-cases (resolve go info.host)) [
            | inr (e, lost) ↦ (
              c',
              err e,
              rw (full, good, got, ◌>>=◌, lost) refl,
              record { formed = formed; faithful = faithful },
              rw (f, full, good, lost) refl,
            )
            | inl (host, found) ↦ (
              c',
              ok (address_string go (record info { host = host })),
              rw (full, good, got, ◌>>=◌, found) refl,
              record { formed = formed; faithful = faithful },
              rw (f, full, good, found) refl,
            )
          ]
    ]
  ]

  unify_peer-full :
      (c c' : Cache Bytes) (p : Bytes) (r : Result (AddressError E) Bytes)
      → nat_beq (length p) 0 ≡ false
      → to_unified_address go c p ≡ done (c', r)
      → unify_peer c p ≡ done (c', elim r [ err e ↦ none | ok a ↦ some a ])
  unfolding unify_peer
  unify_peer-full c c' p r full e = rw (full, e, ◌>>=◌) refl

  unify_peer-unified :
      (n : ℕ) (c : Cache Bytes) (p : Bytes)
      → Sane n c
      → (c' : Cache Bytes) × (unify_peer c p ≡ done (c', unified p)) × Sane n c'
  unfolding unify_peer unified
  unify_peer-unified n c p s = elim (Bool-cases (nat_beq (length p) 0)) [
    | inl empty ↦ (c, rw empty refl, s)
    | inr full ↦
        let (c', r, e, s', u) = to_unified_address-Sane n c p s full in
        (c', unify_peer-full c c' p r full e ∙ ap (λ x. done (c', x)) u, s')
  ]

  all_unified-none :
      (p : Bytes) (ps : List Bytes) → unified p ≡ none → all_unified (p ∷ ps) ≡ all_unified ps
  unfolding all_unified
  all_unified-none p ps e = rw (e, all_unified) refl

  all_unified-some :
      (p a : Bytes) (ps : List Bytes)
      → unified p ≡ some a
      → all_unified (p ∷ ps) ≡ a ∷ all_unified ps
  unfolding all_unified
  all_unified-some p a ps e = rw (e, all_unified) refl

  filter_from-none :
      (visited ps : List Bytes) (p : Bytes) (c c1 : Cache Bytes)
      → unify_peer c p ≡ done (c1, none)
      → filter_from visited (p ∷ ps) c ≡ filter_from visited ps c1
  unfolding filter_from
  filter_from-none visited ps p c c1 e = rw (e, ◌>>=◌) refl

  filter_from-old :
      (visited ps : List Bytes) (p a : Bytes) (c c1 : Cache Bytes)
      → unify_peer c p ≡ done (c1, some a)
      → seen a visited ≡ true
      → filter_from visited (p ∷ ps) c ≡ filter_from visited ps c1
  unfolding filter_from
  filter_from-old visited ps p a c c1 e old = rw (e, ◌>>=◌, old) refl

  filter_from-new :
      (visited ps rest : List Bytes) (p a : Bytes) (c c1 c2 : Cache Bytes)
      → unify_peer c p ≡ done (c1, some a)
      → seen a visited ≡ false
      → filter_from (a ∷ visited) ps c1 ≡ done (c2, rest)
      → filter_from visited (p ∷ ps) c ≡ done (c2, a ∷ rest)
  unfolding filter_from
  filter_from-new visited ps rest p a c c1 c2 e new r = rw (e, ◌>>=◌, new, r, ◌>>=◌) refl

  -- The loop comes to a list.
  abbrev Comes : ℕ → List Bytes → List Bytes → Cache Bytes → List Bytes → Type 0
  Comes n visited peers c out =
      (c' : Cache Bytes) × (filter_from visited peers c ≡ done (c', out)) × Sane n c'

  filter_from-fresh :
      (n : ℕ) (visited peers : List Bytes) (c : Cache Bytes)
      → Sane n c
      → Comes n visited peers c (fresh visited (all_unified peers))
  unfolding filter_from fresh all_unified
  filter_from-fresh n visited [] c s = (c, refl, s)
  filter_from-fresh n visited (p ∷ ps) c s =
      let (c1, e, s1) = unify_peer-unified n c p s in
      elim (Option-cases (unified p)) [
        | inl bad ↦
            let (c2, r, s2) = filter_from-fresh n visited ps c1 s1 in
            rw (all_unified-none p ps bad)
              (c2, filter_from-none visited ps p c c1 (e ∙ ap (λ o. done (c1, o)) bad) ∙ r, s2)
        | inr (a, good) ↦
            let e' = e ∙ ap (λ o. done (c1, o)) good in
            rw (all_unified-some p a ps good) elim (Bool-cases (seen a visited)) [
              | inl old ↦
                  let (c2, r, s2) = filter_from-fresh n visited ps c1 s1 in
                  rw old (c2, filter_from-old visited ps p a c c1 e' old ∙ r, s2)
              | inr new ↦
                  let (c2, r, s2) = filter_from-fresh n (a ∷ visited) ps c1 s1 in
                  rw new (c2, filter_from-new visited ps _ p a c c1 c2 e' new r, s2)
            ]
      ]

  -- With a well-formed cache whose every value is what its key resolves to, FilterPeers returns,
  -- without a repeat, exactly the resolved addresses of the peers that are not the node's own.
  pub filter_peers-Fresh :
      (n : ℕ) (c : Cache Bytes) (own : Bytes) (peers : List Bytes)
      → Sane n c
      → (c' : Cache Bytes) × (out : List Bytes) × (filter_peers c own peers ≡ done (c', out))
        × Sane n c'
        × Fresh (own ∷ []) out
        × ((b : Bytes) → seen b out ≡ (seen b (all_unified peers) && not (bytes_beq b own)))
  unfolding filter_peers
  filter_peers-Fresh n c own peers s =
      let (c', e, s') = filter_from-fresh n (own ∷ []) peers c s in
      (
        c',
        fresh (own ∷ []) (all_unified peers),
        e,
        s',
        fresh-Fresh (own ∷ []) (all_unified peers),
        λ b.
            seen-fresh b (own ∷ []) (all_unified peers)
            ∙ seen-one b own (seen b (all_unified peers)),
      )
