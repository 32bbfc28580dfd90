-- ===== src/Window/Deliver.antt =====
-- The window as a map from nonces to messages: what it holds for each nonce it expects, and `Push`
-- of a message to it.
use noise.Window.Ring.{mod_injective}
use native.Mathlib.Decide.{ℕ_discrete}
use native.Mathlib.Nat.{mod-lt}
use noise.Base.{
  ◌%◌, ◌*◌, ◌+◌, ◌<◌, List, Option, [], arith, done, get_elem?, if◌then◌else◌, length, length-set,
  ltb, nat_beq, none, set, some, suc, true, zero, ℕ, ◌∙◌, ◌∷◌, ◌≡◌, ◌≤◌, ap, get_elem?-replicate,
  get_elem?-set_ne, get_elem?-set_self, length-replicate, refl, replicate, sym,
}
use noise.Window.{Window, u64_mod, push, new_recv_window}

module _ {V : Type 0} where
  -- The messages from nonce `b` on up to the first gap, at most `k`.
  unfoldable pub run : (ℕ → Option V) → ℕ → ℕ → List (Option V)
  run pending b zero = []
  run pending b (suc k) = elim (pending b) [ none ↦ [] | some v ↦ some v ∷ run pending (suc b) k ]

  -- Nothing is left below `b`.
  abbrev pub cut : (ℕ → Option V) → ℕ → ℕ → Option V
  cut pending b n = if ltb n b then none else pending n

  abbrev pub arrived : (ℕ → Option V) → ℕ → Option V → ℕ → Option V
  arrived pending nonce value n = if nat_beq n nonce then value else pending n

  -- From nonce `base` on, the ring holds one message or none for each of `size` nonces.
  abbrev pub Slots : Window V → ℕ → (ℕ → Option V) → Type 0
  Slots w base pending =
      (n : ℕ) → base ≤ n → n < base + w.size → get_elem? w.buf (n % w.size) ≡ some (pending n)

  -- The window expects nonce `base` next and holds what is pending. Nonces do not reach 2 ^ 64.
  pub record Tracks (w : Window V) (base : ℕ) (pending : ℕ → Option V) : Type 0 where
    pub nonempty : 0 < w.size
    pub sized : length w.buf ≡ w.size
    pub started : w.pushed ≡ true
    pub place : w.last_nonce % w.size ≡ base % w.size
    pub slots : Slots w base pending
    pub beyond : (n : ℕ) → base + w.size ≤ n → pending n ≡ none
    pub fits : 2 * w.size < u64_mod
    pub low : w.last_nonce + w.size < u64_mod

  pub length-run : (pending : ℕ → Option V) (b k : ℕ) → length (run pending b k) ≤ k
  unfolding run
  length-run pending b zero = omega arith
  length-run pending b (suc k) = ground (arith, length-run pending (suc b) k)

  -- A write to the slot of one nonce leaves the other slots.
  pub write_slot :
      (w : Window V) (base nonce : ℕ) (value : Option V) (pending : ℕ → Option V)
      → 0 < w.size
      → length w.buf ≡ w.size
      → base ≤ nonce
      → nonce < base + w.size
      → Slots w base pending
      → Slots
          (record w { buf = set w.buf (nonce % w.size) value })
          base
          (arrived pending nonce value)
  write_slot w base nonce value pending pos_size sized lo hi s n l h = elim (ℕ_discrete n nonce) [
    | yes e ↦
        ap (get_elem? (set w.buf (nonce % w.size) value)) (ap (λ (m : ℕ). m % w.size) e)
        ∙ get_elem?-set_self w.buf (nonce % w.size) value
            (omega (arith, sized, mod-lt nonce pos_size))
        ∙ ground arith
    | no ne ↦
        get_elem?-set_ne w.buf (nonce % w.size) (n % w.size) value
          (λ e. ne (mod_injective w.size base n nonce l h lo hi (sym e)))
        ∙ s n l h
        ∙ ground arith
  ]

  -- On a window that tracks nonces, Push of a message with one of the nonces inside the window
  -- never panics, and the window then tracks the same nonces with the message pending.
  pub push-Tracks :
      (w : Window V) (base nonce : ℕ) (value : Option V) (pending : ℕ → Option V)
      → Tracks w base pending
      → base ≤ nonce
      → nonce < base + w.size
      → (w' : Window V) × (push w nonce value ≡ done w')
        × Tracks w' base (arrived pending nonce value)
  unfolding push
  push-Tracks w base nonce value pending t lo hi = (
    record w { buf = set w.buf (nonce % w.size) value },
    ground (arith, t.started, t.nonempty),
    record {
      nonempty = t.nonempty;
      sized = length-set w.buf (nonce % w.size) value ∙ t.sized;
      started = t.started;
      place = t.place;
      slots = write_slot w base nonce value pending t.nonempty t.sized lo hi t.slots;
      beyond = λ n h. ground (arith, t.beyond n h);
      fits = t.fits;
      low = t.low;
    },
  )

  -- The first Push to a new window of positive size never panics, and the window then tracks its
  -- nonce and those after it, with the message pending, where twice the size and the nonce plus
  -- the size are below 2 ^ 64.
  pub first_push-Tracks :
      (size nonce : ℕ) (value : Option V)
      → 0 < size
      → 2 * size < u64_mod
      → nonce + size < u64_mod
      → (w' : Window V) × (push (new_recv_window size) nonce value ≡ done w')
        × Tracks w' nonce (arrived (λ n. none) nonce value)
  unfolding push new_recv_window
  first_push-Tracks size nonce value p f l = (
    record {
      last_nonce = nonce;
      size = size;
      buf = set (replicate size none) (nonce % size) value;
      pushed = true;
    },
    ground arith,
    record {
      nonempty = p;
      sized = length-set (replicate size none) (nonce % size) value ∙ length-replicate size none;
      started = refl;
      place = refl;
      slots =
          write_slot
            (record { last_nonce = nonce; size = size; buf = replicate size none; pushed = true })
            nonce nonce value (λ n. none) p (length-replicate size none) (omega arith) (omega arith)
            (λ n lo hi. get_elem?-replicate size (n % size) none (mod-lt n p));
      beyond = λ n h. ground arith;
      fits = f;
      low = l;
    },
  )
