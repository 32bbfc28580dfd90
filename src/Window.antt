-- ===== src/Window.antt =====
-- network/recv_window.go: the window that puts incoming messages in order. Each method holds the
-- mutex; a value is an interface, so `none` is nil.
pub mod Ring
pub mod Deliver
pub mod Take
pub mod Stream
mod Tests
use noise.Base.{
  ◌%◌, ◌+◌, ◌++◌, Bool, List, Option, Outcome, [], ◌^◌, done, false, get_elem?, if◌then◌else◌,
  nat_beq, none, panic, replicate, set, some, suc, true, zero, ℕ, ◌∷◌,
}

-- `RecvWindow`; `pushed` is what `once` has recorded.
pub record Window (V : Type 0) : Type 0 where
  pub last_nonce : ℕ
  pub size : ℕ
  pub buf : List (Option V)
  pub pushed : Bool

-- The bound of uint64.
abbrev pub u64_mod : ℕ
u64_mod = 2 ^ 64

module _ {V : Type 0} where
  unfoldable pub new_recv_window : ℕ → Window V
  new_recv_window size = record {
    last_nonce = 0;
    size = size;
    buf = replicate size none;
    pushed = false;
  }

  unfoldable pub set_local_nonce : Window V → ℕ → Window V
  set_local_nonce w nonce = record w { last_nonce = nonce }

  unfoldable pub local_nonce : Window V → ℕ
  local_nonce w = w.last_nonce

  -- A window of size 0 divides by zero.
  unfoldable pub push : Window V → ℕ → Option V → Outcome (Window V)
  push w nonce value =
      let w' = if w.pushed then w else record w { last_nonce = nonce; pushed = true } in
      if nat_beq w.size 0
      then panic
      else done (record w' { buf = set w'.buf (nonce % w.size) value })

  -- The loop of `Range` with `rounds` rounds to go, at `id`, with the results so far.
  unfoldable pub range_from :
      ℕ
      → (ℕ → Option V → Bool)
      → ℕ
      → Window V
      → List (Option V)
      → Outcome (Window V × List (Option V))
  range_from zero fn id w res = done (w, res)
  range_from (suc rounds) fn id w res = elim (get_elem? w.buf (id % w.size)) [
    | none ↦ panic
    | some val ↦ elim (fn id val) [
      | false ↦ done (record w { last_nonce = id % w.size }, res)
      | true ↦
          range_from rounds fn ((id + 1) % u64_mod)
            (record w { buf = set w.buf (id % w.size) none }) (res ++ (val ∷ []))
    ]
  ]

  unfoldable pub range : Window V → (ℕ → Option V → Bool) → Outcome (Window V × List (Option V))
  unfolding range_from
  range w fn = range_from w.size fn w.last_nonce w []

  -- `v != nil`.
  abbrev pub is_some : Option V → Bool
  is_some none = false
  is_some (some v) = true

  unfoldable pub pop : Window V → Outcome (Window V × List (Option V))
  unfolding range
  pop w = range w (λ nonce v. is_some v)
