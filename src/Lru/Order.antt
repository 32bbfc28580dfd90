-- ===== src/Lru/Order.antt =====
-- The order of a cache as a list of items without a key twice.
use noise.Base.{
  Bytes, List, Option, [], arith, bytes_beq_iff, if◌then◌else◌, length, none, refl, some, suc, take,
  zero, ℕ, ◌∷◌, ◌≡◌, bytes_beq, bytes_beq_refl, false,
}
use noise.Lru.{Item, without, split_back}

module _ {V : Type 0} where
  -- The item of a key.
  unfoldable pub find_item : Bytes → List (Item V) → Option (Item V)
  find_item key [] = none
  find_item key (i ∷ is) = if bytes_beq key i.key then some i else find_item key is

  abbrev pub Distinct : List (Item V) → Type 0
  Distinct [] = Unit {0}
  Distinct (i ∷ is) = (find_item i.key is ≡ none) × Distinct is

  pub find_item-key :
      (key : Bytes) (is : List (Item V)) (i : Item V) → find_item key is ≡ some i → i.key ≡ key
  unfolding find_item
  find_item-key key [] i h = cc
  find_item-key key (j ∷ js) i h = ground (arith, bytes_beq_iff key j.key, find_item-key key js i)

  pub find_item-without :
      (q key : Bytes) (is : List (Item V))
      → Distinct is
      → find_item q (without key is) ≡ (if bytes_beq q key then none else find_item q is)
  unfolding find_item without
  find_item-without q key [] d = ground arith
  find_item-without q key (i ∷ is) d = ground (
    arith,
    find_item-without q key is d.1,
    bytes_beq_iff q key,
    bytes_beq_iff i.key key,
    bytes_beq_iff q i.key,
    d.0,
  )

  pub without-Distinct :
      (key : Bytes) (is : List (Item V)) → Distinct is → Distinct (without key is)
  unfolding find_item without
  without-Distinct key [] d = tt
  without-Distinct key (i ∷ is) d =
      ground (arith, find_item-without i.key key is d.1, without-Distinct key is d.1)

  pub length-without :
      (key : Bytes) (is : List (Item V)) (i : Item V)
      → find_item key is ≡ some i
      → length is ≡ suc (length (without key is))
  unfolding find_item without
  length-without key [] i h = cc
  length-without key (j ∷ js) i h =
      ground (arith, length-without key js i, bytes_beq_iff key j.key, bytes_beq_iff j.key key)

  -- The last item is not met earlier, and the others keep their places.
  pub record Backed (i : Item V) (is : List (Item V)) (last : Item V) : Type 0 where
    pub found : find_item last.key (i ∷ is) ≡ some last
    pub others :
        (q : Bytes)
        → find_item q (take (length is) (i ∷ is))
          ≡ (if bytes_beq q last.key then none else find_item q (i ∷ is))

  Backed-cons :
      (i j : Item V) (js : List (Item V)) (last : Item V)
      → find_item i.key (j ∷ js) ≡ none
      → Backed j js last
      → Backed i (j ∷ js) last
  Backed-cons i j js last fresh b = record { found = Backed_found; others = Backed_others }
    where
      apart : bytes_beq last.key i.key ≡ false
      apart = ground (arith, bytes_beq_iff last.key i.key, b.found)

      Backed_found : find_item last.key (i ∷ j ∷ js) ≡ some last
      Backed_found = unfold find_item in ground (arith, apart, b.found)

      Backed_others :
          (q : Bytes)
          → find_item q (take (length (j ∷ js)) (i ∷ j ∷ js))
            ≡ (if bytes_beq q last.key then none else find_item q (i ∷ j ∷ js))
      Backed_others q =
          unfold find_item in ground (arith, apart, b.others q, bytes_beq_iff q last.key)

  pub split_back_lem :
      (i : Item V) (is : List (Item V))
      → (last : Item V) × (split_back (i ∷ is) ≡ some (take (length is) (i ∷ is), last))
        × (Distinct (i ∷ is) → Backed i is last)
  unfolding split_back find_item
  split_back_lem i [] = (
    i,
    refl,
    λ d. record { found = ground (arith, bytes_beq_refl i.key); others = λ q. ground arith },
  )
  split_back_lem i (j ∷ js) =
      let (last, e, h) = split_back_lem j js in
      (last, rw e, λ d. Backed-cons i j js last d.0 (h d.1))

  pub find_item-take-none :
      (q : Bytes) (n : ℕ) (is : List (Item V))
      → find_item q is ≡ none
      → find_item q (take n is) ≡ none
  unfolding find_item
  find_item-take-none q zero is h = refl
  find_item-take-none q (suc n) [] h = refl
  find_item-take-none q (suc n) (i ∷ is) h = ground (arith, find_item-take-none q n is)

  pub take-Distinct : (n : ℕ) (is : List (Item V)) → Distinct is → Distinct (take n is)
  take-Distinct zero is d = tt
  take-Distinct (suc n) [] d = tt
  take-Distinct (suc n) (i ∷ is) d = (find_item-take-none i.key n is d.0, take-Distinct n is d.1)
