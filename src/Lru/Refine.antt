-- ===== src/Lru/Refine.antt =====
-- A cache of a positive limit refines a list of items, most recently used first.
use noise.Base.Maps.{load, load-nil, delete, load-delete, load-store}
use noise.Lru.Order.{
  find_item, Distinct, split_back_lem, take-Distinct, find_item-key, length-without,
  find_item-without, find_item-take-none, without-Distinct,
}
use noise.Base.Int.{pos, leb_ℤ}
use native.Mathlib.Decide.{dec_le}
use noise.Base.{
  bytes_Key, Bytes, List, Result, [], ap, arith, done, err, length, length-take, none, ok, refl,
  some, subst, suc, sym, take, take_all, ℕ, ◌∷◌, ◌≡◌, ◌≤◌, Option-cases, inl, inr, true, ◌∙◌,
  bytes_beq_iff, bytes_beq_refl,
}
use noise.Lru.{Item, Cache, new_cache, evict, without, get, split_back, push_front}

-- The map and the order hold the same items, none twice, and at most `limit` of them.
pub record IsCache {V : Type 0} (n : ℕ) (c : Cache V) : Type 0 where
  pub limited : c.limit ≡ pos (suc n)
  pub distinct : Distinct c.order
  pub agrees : (q : Bytes) → load q c.items ≡ find_item q c.order
  pub bounded : length c.order ≤ suc n

module _ {V : Type 0} where
  -- A new cache of positive limit is well formed.
  pub new_cache-IsCache : (n : ℕ) → IsCache n (new_cache {V = V} (pos (suc n)))
  unfolding new_cache find_item
  new_cache-IsCache n = record {
    limited = refl;
    distinct = tt;
    agrees = λ q. load-nil q;
    bounded = omega arith;
  }

  drop_last :
      (n : ℕ) (c : Cache V) (i : Item V) (is : List (Item V))
      → IsCache n c
      → c.order ≡ i ∷ is
      → length is ≡ n
      → (c' : Cache V) × (evict c ≡ done c') × (c'.order ≡ take n c.order) × IsCache n c'
  unfolding evict
  drop_last n c i is v e short =
      let (last, s, b) = split_back_lem i is in
      let d : Distinct (i ∷ is) = subst Distinct e v.distinct in
      let cut : take (length is) (i ∷ is) ≡ take n (i ∷ is) = ap (λ m. take m (i ∷ is)) short in
      let s' : split_back c.order ≡ some (take n (i ∷ is), last) =
        ap split_back e ∙ s ∙ ap (λ x. some (x, last)) cut in
      let full : leb_ℤ c.limit (pos (length c.order)) ≡ true =
        ground (arith, v.limited, ap length e) in
      (
        record c { order = take n (i ∷ is); items = delete last.key c.items },
        rw (full, s'),
        ap (take n) (sym e),
        record {
          limited = v.limited;
          distinct = take-Distinct n (i ∷ is) d;
          agrees = λ q. ground (
            arith,
            load-delete q last.key c.items,
            v.agrees q,
            ap (find_item q) e,
            (b d).others q,
            ap (find_item q) cut,
          );
          bounded = omega (arith, length-take n (i ∷ is));
        },
      )

  evict_full :
      (n : ℕ) (c : Cache V)
      → IsCache n c
      → suc n ≤ length c.order
      → (c' : Cache V) × (evict c ≡ done c') × (c'.order ≡ take n c.order) × IsCache n c'
  evict_full n c v full = go c.order refl
    where
      go :
          (o : List (Item V))
          → c.order ≡ o
          → (c' : Cache V) × (evict c ≡ done c') × (c'.order ≡ take n c.order) × IsCache n c'
      go [] e = absurd (omega (arith, ap length e))
      go (i ∷ is) e = drop_last n c i is v e (omega (arith, ap length e, v.bounded))

  -- The eviction leaves room for one item.
  evict_lem :
      (n : ℕ) (c : Cache V)
      → IsCache n c
      → (c' : Cache V) × (evict c ≡ done c') × (c'.order ≡ take n c.order) × IsCache n c'
  unfolding evict
  evict_lem n c v = elim (dec_le (suc n) (length c.order)) [
    | yes full ↦ evict_full n c v full
    | no room ↦ (c, ground (arith, v.limited), sym (take_all c.order n (omega arith)), v)
  ]

  -- What a call makes of the items, and what it returns.
  unfoldable pub after {ℓ} : {E : Type ℓ} → ℕ → Bytes → Result E V → List (Item V) → List (Item V)
  after n key init order = elim (find_item key order) [
    | some i ↦ i ∷ without key order
    | none ↦ elim init [
      | ok value ↦ record { key = key; value = value } ∷ take n order
      | err e ↦ take n order
    ]
  ]

  unfoldable pub answer {ℓ} : {E : Type ℓ} → Bytes → Result E V → List (Item V) → Result E V
  answer key init order = elim (find_item key order) [ some i ↦ ok i.value | none ↦ init ]

  get_hit {ℓ} :
      {E : Type ℓ} (n : ℕ) (c : Cache V) (key : Bytes) (init : Result E V) (i : Item V)
      → IsCache n c
      → find_item key c.order ≡ some i
      → (c' : Cache V) × (get c key init ≡ done (c', ok i.value))
        × (c'.order ≡ i ∷ without key c.order)
        × IsCache n c'
  unfolding get find_item
  get_hit n c key init i v hit =
      let same : i.key ≡ key = find_item-key key c.order i hit in
      let self : find_item i.key c.order ≡ some i = ap (λ k. find_item k c.order) same ∙ hit in
      let size = length-without i.key c.order i self in
      (
        record c { order = i ∷ without i.key c.order },
        rw (v.agrees key ∙ hit, get),
        ap (λ k. i ∷ without k c.order) same,
        record {
          limited = v.limited;
          distinct = (
            find_item-without i.key i.key c.order v.distinct ∙ rw (bytes_beq_refl i.key),
            without-Distinct i.key c.order v.distinct,
          );
          agrees = λ q. ground (
            arith,
            v.agrees q,
            find_item-without q i.key c.order v.distinct,
            bytes_beq_iff q i.key,
            self,
          );
          bounded = omega (arith, size, v.bounded);
        },
      )

  get_miss {ℓ} :
      {E : Type ℓ} (n : ℕ) (c : Cache V) (key : Bytes) (init : Result E V)
      → IsCache n c
      → find_item key c.order ≡ none
      → (c' : Cache V) × (get c key init ≡ done (c', init))
        × (c'.order ≡ elim init [
          | ok value ↦ record { key = key; value = value } ∷ take n c.order
          | err e ↦ take n c.order
        ])
        × IsCache n c'
  unfolding get find_item push_front
  get_miss n c key (ok value) v miss =
      let (c', e, o, w) = evict_lem n c v in
      let absent : find_item key c'.order ≡ none =
        ap (find_item key) o ∙ find_item-take-none key n c.order miss in
      (
        push_front c' key value,
        rw (v.agrees key ∙ miss, get) (rw e),
        ap (λ r. record { key = key; value = value } ∷ r) o,
        record {
          limited = w.limited;
          distinct = (absent, w.distinct);
          agrees = λ q.
              ground (
                arith,
                load-store q key (record { key = key; value = value }) c'.items,
                w.agrees q,
              );
          bounded = omega (arith, ap length o, length-take n c.order);
        },
      )
  get_miss n c key (err e) v miss =
      let (c', e', o, w) = evict_lem n c v in (c', rw (v.agrees key ∙ miss, get) (rw e'), o, w)

  -- On a well-formed cache of positive limit Get never panics, returns the stored value on a hit
  -- and what init returns on a miss, gives its items the order of the least-recently-used policy,
  -- and leaves the cache well formed.
  pub get-after {ℓ} :
      {E : Type ℓ} (n : ℕ) (c : Cache V) (key : Bytes) (init : Result E V)
      → IsCache n c
      → (c' : Cache V) × (get c key init ≡ done (c', answer key init c.order))
        × (c'.order ≡ after n key init c.order)
        × IsCache n c'
  unfolding get after answer
  get-after n c key init v = elim (Option-cases (find_item key c.order)) [
    | inr (i, hit) ↦ rw (hit, answer, after) (get_hit n c key init i v hit)
    | inl miss ↦ rw (miss, answer, after) (get_miss n c key init v miss)
  ]

  answer-after {ℓ} :
      {E : Type ℓ} (n : ℕ) (key : Bytes) (init later : Result E V) (value : V)
      (order : List (Item V))
      → answer key init order ≡ ok value
      → answer key later (after n key init order) ≡ ok value
  unfolding answer after find_item
  answer-after n key init later value order h = elim (Option-cases (find_item key order)) [
    | inr (i, hit) ↦ ground (arith, hit, find_item-key key order i hit, bytes_beq_iff key i.key)
    | inl miss ↦ ground (arith, miss, bytes_beq_refl key)
  ]

  -- On a well-formed cache of positive limit, a value that Get returned is what the next Get of
  -- the key returns, whatever its init does.
  pub get_again {ℓ} :
      {E : Type ℓ} (n : ℕ) (c : Cache V) (key : Bytes) (init later : Result E V) (value : V)
      → IsCache n c
      → answer key init c.order ≡ ok value
      → (c' c'' : Cache V) × (get c key init ≡ done (c', ok value))
        × (get c' key later ≡ done (c'', ok value))
  get_again n c key init later value v h =
      let (c', e, o, w) = get-after n c key init v in
      let (c'', e', _, _) = get-after n c' key later w in
      (
        c',
        c'',
        e ∙ ap (λ r. done (c', r)) h,
        e'
            ∙ ap (λ r. done (c'', r))
                (ap (answer key later) o ∙ answer-after n key init later value c.order h),
      )
