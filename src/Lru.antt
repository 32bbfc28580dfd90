-- ===== src/Lru.antt =====
-- types/lru/cache.go: the cache with least-recently-used eviction. The mutex is held throughout
-- `Get`, so a call is one step; the callback `init` is what it returns.
pub mod Order
pub mod Refine
mod Tests
use noise.Base.Int.{ℤ, leb_ℤ, pos}
use noise.Base.{
  ◌==◌, ◌>>=◌, Bytes, List, Option, Outcome, Result, [], done, err, if◌then◌else◌, length, none, ok,
  panic, some, ◌∷◌, bytes_beq,
}
use noise.Base.{bytes_Key}
use noise.Base.Maps.{load, store, delete}

-- `cacheItem`; its element is its place in the order.
pub record Item (V : Type 0) : Type 0 where
  pub key : Bytes
  pub value : V

-- `Cache`: the most recently used item stands first.
pub record Cache (V : Type 0) : Type 0 where
  pub order : List (Item V)
  pub items : List (Bytes × Item V)
  pub limit : ℤ

module _ {V : Type 0} where
  unfoldable pub new_cache : ℤ → Cache V
  new_cache limit = record { order = []; items = []; limit = limit }

  -- The order without an element.
  unfoldable pub without : Bytes → List (Item V) → List (Item V)
  without key [] = []
  without key (i ∷ is) = if bytes_beq i.key key then is else i ∷ without key is

  -- `Back`, with what `Remove` leaves.
  unfoldable pub split_back : List (Item V) → Option (List (Item V) × Item V)
  split_back [] = none
  split_back (i ∷ is) = elim (split_back is) [
    | none ↦ some ([], i)
    | some (rest, last) ↦ some (i ∷ rest, last)
  ]

  -- The eviction: to remove the nil element of an empty order panics.
  unfoldable pub evict : Cache V → Outcome (Cache V)
  unfolding split_back delete
  evict c =
      if leb_ℤ c.limit (pos (length c.order))
      then elim (split_back c.order) [
        | none ↦ panic
        | some (rest, item) ↦ done (record c { order = rest; items = delete item.key c.items })
      ]
      else done c

  -- A new item at the front.
  unfoldable pub push_front : Cache V → Bytes → V → Cache V
  unfolding store
  push_front c key value =
      let item : Item V = record { key = key; value = value } in
      record c { order = item ∷ c.order; items = store key item c.items }

  unfoldable pub get {ℓ} :
      {E : Type ℓ} → Cache V → Bytes → Result E V → Outcome (Cache V × Result E V)
  unfolding load without evict push_front
  get c key init = elim (load key c.items) [
    | some item ↦ done (record c { order = item ∷ without item.key c.order }, ok item.value)
    | none ↦ evict c >>= λ kept. elim init [
      | ok value ↦ done (push_front kept key value, ok value)
      | err e ↦ done (kept, err e)
    ]
  ]
