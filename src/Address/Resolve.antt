-- ===== src/Address/Resolve.antt =====
-- The cache of hosts does not show: with it a host resolves as it does without.
use noise.Lru.Refine.{answer, after, IsCache, get-after}
use noise.Lru.Order.{find_item, find_item-key}
use noise.Base.{
  All, Bytes, List, ok, ◌≡◌, All-take, Bool-cases, Option-cases, Result-cases, [], ap, arith,
  bytes_beq, bytes_beq_iff, done, err, inl, inr, refl, some, subst, sym, ℕ, ◌∙◌, ◌∷◌, ◌>>=◌,
  Outcome, Result,
}
use noise.Address.{
  NetPackage, resolve, AddressError, to_unified_host, no_available_addresses, localhost_v6,
}
use noise.Lru.{Item, without, Cache, get}

module _ {E : Type 0} (go : NetPackage E) where
  -- Every item of the cache is what its key resolves to.
  abbrev pub Faithful : List (Item Bytes) → Type 0
  Faithful is = All (λ i. resolve go i.key ≡ ok i.value) is

  find_item-Faithful :
      (host : Bytes) (is : List (Item Bytes)) (i : Item Bytes)
      → Faithful is
      → find_item host is ≡ some i
      → resolve go host ≡ ok i.value
  unfolding find_item
  find_item-Faithful host [] i f h = absurd cc
  find_item-Faithful host (j ∷ js) i f h = elim (Bool-cases (bytes_beq host j.key)) [
    | inl e ↦
        let here : some j ≡ some i = ground (arith, e, h) in
        let same : j ≡ i = cc in
        subst (λ k. resolve go host ≡ ok k.value) same
          (ap (resolve go) ((bytes_beq_iff host j.key).0 e) ∙ f.0)
    | inr e ↦ find_item-Faithful host js i f.1 (ground (arith, e, h))
  ]

  without-Faithful :
      (key : Bytes) (is : List (Item Bytes)) → Faithful is → Faithful (without key is)
  unfolding without
  without-Faithful key [] f = tt
  without-Faithful key (i ∷ is) f = elim (Bool-cases (bytes_beq i.key key)) [
    | inl e ↦ rw e f.1
    | inr e ↦ rw e (f.0, without-Faithful key is f.1)
  ]

  answer-resolve :
      (host : Bytes) (is : List (Item Bytes))
      → Faithful is
      → answer host (resolve go host) is ≡ resolve go host
  unfolding answer
  answer-resolve host is f = elim (Option-cases (find_item host is)) [
    | inl miss ↦ rw (miss, answer) refl
    | inr (i, hit) ↦ rw (hit, answer) (sym (find_item-Faithful host is i f hit))
  ]

  after-Faithful :
      (n : ℕ) (host : Bytes) (is : List (Item Bytes))
      → Faithful is
      → Faithful (after n host (resolve go host) is)
  unfolding after
  after-Faithful n host is f = elim (Option-cases (find_item host is)) [
    | inr (i, hit) ↦
        let same : i.key ≡ host = find_item-key host is i hit in
        rw (hit, after)
          (ap (resolve go) same ∙ find_item-Faithful host is i f hit, without-Faithful host is f)
    | inl miss ↦ elim (Result-cases (resolve go host)) [
      | inl (value, good) ↦ rw (miss, after) (rw good (good, All-take _ n is f))
      | inr (e, bad) ↦ rw (miss, after) (rw bad (All-take _ n is f))
    ]
  ]

  resolve_err :
      (host : Bytes) (e : AddressError E) → resolve go host ≡ err e → e ≡ no_available_addresses
  unfolding resolve
  resolve_err host e h = elim (Bool-cases (go.is_ip host)) [
    | inl ip ↦ absurd (ground (arith, ip, h))
    | inr domain ↦ elim (Result-cases (go.lookup_host host)) [
      | inr (x, bad) ↦ ground (arith, domain, bad, h)
      | inl ([], l) ↦ ground (arith, domain, l, h)
      | inl (first ∷ others, l) ↦ elim (Bool-cases (bytes_beq first localhost_v6)) [
        | inl six ↦ absurd (ground (arith, domain, l, six, h))
        | inr other ↦ absurd (ground (arith, domain, l, other, h))
      ]
    ]
  ]

  -- What `ToUnifiedHost` does with the cache's answer.
  pass_on :
      Cache Bytes × Result (AddressError E) Bytes
      → Outcome (Cache Bytes × Result (AddressError E) Bytes)
  pass_on (c, err e) = done (c, err no_available_addresses)
  pass_on (c, ok unified) = done (c, ok unified)

  pass_on_lem :
      (c : Cache Bytes) (r : Result (AddressError E) Bytes)
      → ((e : AddressError E) → r ≡ err e → e ≡ no_available_addresses)
      → pass_on (c, r) ≡ done (c, r)
  unfolding pass_on
  pass_on_lem c (ok unified) h = refl
  pass_on_lem c (err e) h = ap (λ x. done (c, err x)) (sym (h e refl))

  -- With a well-formed cache whose every value is what its key resolves to, ToUnifiedHost returns
  -- what the host resolves to without a cache, and the cache stays well formed and so.
  pub to_unified_host-Faithful :
      (n : ℕ) (c : Cache Bytes) (host : Bytes)
      → IsCache n c
      → Faithful c.order
      → (c' : Cache Bytes) × (to_unified_host go c host ≡ done (c', resolve go host))
        × IsCache n c'
        × Faithful c'.order
  unfolding to_unified_host pass_on
  to_unified_host-Faithful n c host v f =
      let (c', e, o, w) = get-after n c host (resolve go host) v in
      let got : get c host (resolve go host) ≡ done (c', resolve go host) =
        e ∙ ap (λ r. done (c', r)) (answer-resolve host c.order f) in
      (
        c',
        ap
              (λ a. a >>= λ (k, r). elim r [
                | err x ↦ done (k, err no_available_addresses)
                | ok unified ↦ done (k, ok unified)
              ])
              got
            ∙ pass_on_lem c' (resolve go host) (resolve_err host),
        w,
        subst Faithful (sym o) (after-Faithful n host c.order f),
      )
