-- ===== src/Lru/Tests.antt =====
-- The cache on short histories, as in types/lru/cache_test.go.
use noise.Lru.Refine.{IsCache, answer, new_cache-IsCache, after, get-after}
use noise.Base.Int.{pos}
use noise.Base.{Bytes, [], bytes_beq, done, err, ok, panic, refl, ℕ, ◌∷◌, ◌≡◌}
use noise.Lru.{Cache, get, pos, new_cache, evict}

program : Unit {0}
unfolding get new_cache bytes_beq evict
program = tt

abbrev key_a : Bytes
key_a = b'a' ∷ []

abbrev key_b : Bytes
key_b = b'b' ∷ []

-- One item of two.
abbrev one_item : Cache ℕ
one_item = record {
  order = record { key = key_a; value = 1 } ∷ [];
  items = (key_a, record { key = key_a; value = 1 }) ∷ [];
  limit = pos 2;
}

first_get : get {E = ℕ} (new_cache (pos 2)) key_a (ok 1) ≡ done (one_item, ok 1)
unfolding program
first_get = refl

hit_runs : get {E = ℕ} one_item key_a (err 7) ≡ done (one_item, ok 1)
unfolding program
hit_runs = refl

-- A cache of limit 0 panics on its first miss.
limit_zero : get {V = ℕ} {E = ℕ} (new_cache (pos 0)) key_a (ok 1) ≡ panic
unfolding program
limit_zero = refl

get-after_example :
    (c' : Cache ℕ) × (get {E = ℕ} (new_cache (pos 2)) key_a (ok 1)
      ≡ done (c', answer key_a (ok 1) []))
    × (c'.order ≡ after {E = ℕ} 1 key_a (ok 1) [])
    × IsCache 1 c'
unfolding new_cache
get-after_example = get-after 1 (new_cache (pos 2)) key_a (ok 1) (new_cache-IsCache 1)
