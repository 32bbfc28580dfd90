-- ===== src/Network/Flush.antt =====
-- network/network.go, `flushLoop`, over connections whose writers flush as bufio's `Flush` does: `flush`
-- is what becomes of a connection and the error it returns, which is only logged.
use noise.Base.{
  bytes_Key, arith, Bool, Bytes, List, Option, [], false, refl, suc, true, zero, ℕ, ◌∷◌, ◌≡◌,
  Option-cases, inl, inr,
}
use noise.Base.Maps.{load}
use mathlib.Core.Option.{map}

-- What the `select` of a round takes.
pub data Signal : Type 0 where
  killed : Signal
  tick : Signal

module _ {S E : Type 0} (flush : S → S × Option E) where
  -- The body of a tick: `Range` goes on after an error.
  unfoldable pub flush_each : List (Bytes × S) → List (Bytes × S)
  flush_each [] = []
  flush_each ((address, state) ∷ m) = (address, (flush state).0) ∷ flush_each m

  -- The loop: the connections, and whether it has returned.
  unfoldable pub flush_loop : List Signal → List (Bytes × S) → List (Bytes × S) × Bool
  unfolding flush_each
  flush_loop [] m = (m, false)
  flush_loop (killed ∷ signals) m = (m, true)
  flush_loop (tick ∷ signals) m = flush_loop signals (flush_each m)

  -- The ticks before the first kill.
  unfoldable pub ticks : List Signal → ℕ
  ticks [] = 0
  ticks (killed ∷ signals) = 0
  ticks (tick ∷ signals) = suc (ticks signals)

  unfoldable pub flushed : ℕ → S → S
  flushed zero state = state
  flushed (suc n) state = flushed n (flush state).0

  pub load-flush_each :
      (a : Bytes) (m : List (Bytes × S)) → load a (flush_each m) ≡ map (λ s. (flush s).0) (load a m)
  unfolding load flush_each
  load-flush_each a [] = refl
  load-flush_each a ((b, s) ∷ m) = ground (arith, load-flush_each a m)

  -- However its flushes end, the loop flushes each connection once for every tick before the network
  -- is killed, and stores nothing else.
  pub load-flush_loop :
      (a : Bytes) (signals : List Signal) (m : List (Bytes × S))
      → load a (flush_loop signals m).0 ≡ map (flushed (ticks signals)) (load a m)
  unfolding flush_loop ticks flushed
  load-flush_loop a [] m = elim (Option-cases (load a m)) [
    | inl e ↦ rw e refl
    | inr (s, e) ↦ rw e refl
  ]
  load-flush_loop a (killed ∷ signals) m = elim (Option-cases (load a m)) [
    | inl e ↦ rw e refl
    | inr (s, e) ↦ rw e refl
  ]
  load-flush_loop a (tick ∷ signals) m = elim (Option-cases (load a m)) [
    | inl e ↦ rw (load-flush_loop a signals (flush_each m), load-flush_each a m, e) refl
    | inr (s, e) ↦ rw (load-flush_loop a signals (flush_each m), load-flush_each a m, e) refl
  ]
