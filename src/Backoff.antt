-- ===== src/Backoff.antt =====
-- network/backoff/backoff.go and plugin.go: the delays between attempts to reconnect, and the loop
-- that makes the attempts. Durations are nanoseconds; floating-point numbers are a parameter.
pub mod Bounds
pub mod Attempts
pub mod Exhaust
pub mod Plugin
mod Tests
use noise.Base.{
  ◌&&◌, ◌++◌, Bool, List, Option, [], if◌then◌else◌, leb, none, not, some, suc, zero, ◌||◌, ℕ, ◌∷◌,
}
use noise.Base.Int.{ℤ, pos, leb_ℤ, ltb_ℤ, pos_part}

-- `Backoff`.
pub record Backoff (F : Type 0) : Type 0 where
  pub attempt : ℕ
  pub max_attempts : ℤ
  pub backoff_interval : F
  pub jitter : F
  pub min_interval : ℤ
  pub max_interval : ℤ

abbrev pub default_max_attempts : ℤ
default_max_attempts = pos 5

abbrev pub default_min_interval : ℤ
default_min_interval = pos 1000000000

abbrev pub default_max_interval : ℤ
default_max_interval = pos 16000000000

-- The floating-point part: the two default constants, the test against 0, and the new duration,
-- `float64(min) * math.Pow(backoffInterval*(1-jitter), float64(attempt))` with its random jitter,
-- where none is one above `maxInt64`.
pub record Floats (F : Type 0) : Type 0 where
  pub default_backoff_interval : F
  pub default_jitter : F
  pub above_zero : F → Bool
  pub duration : ℤ → F → F → ℕ → Option ℤ

-- What a round of the loop meets: whether the back-off is still stored, whether there is a
-- connection before the dial, whether the dial succeeds, whether there is a connection after it, and
-- whether the ping is sent.
pub record Round : Type 0 where
  pub active : Bool
  pub connected : Bool
  pub dialled : Bool
  pub reconnected : Bool
  pub pinged : Bool

-- What the loop has done: how long it slept each time, and how often it dialled.
pub record Retries : Type 0 where
  pub sleeps : List ℤ
  pub dials : ℕ

module _ {F : Type 0} (floats : Floats F) where
  unfoldable pub default_backoff : Backoff F
  default_backoff = record {
    attempt = 0;
    max_attempts = default_max_attempts;
    backoff_interval = floats.default_backoff_interval;
    jitter = floats.default_jitter;
    min_interval = default_min_interval;
    max_interval = default_max_interval;
  }

  -- The bounds in force: a bound that is not above 0 is the default one.
  abbrev pub low_bound : Backoff F → ℤ
  low_bound b = if leb_ℤ b.min_interval (pos 0) then default_min_interval else b.min_interval

  abbrev pub high_bound : Backoff F → ℤ
  high_bound b = if leb_ℤ b.max_interval (pos 0) then default_max_interval else b.max_interval

  unfoldable pub for_attempt : Backoff F → ℕ → ℤ
  for_attempt b attempt =
      let low = low_bound b in
      let high = high_bound b in
      if leb_ℤ high low
      then high
      else let interval =
          if floats.above_zero b.backoff_interval
          then b.backoff_interval
          else floats.default_backoff_interval in
        elim (floats.duration low interval b.jitter attempt) [
          | none ↦ high
          | some dur ↦ if ltb_ℤ dur low then low else if ltb_ℤ high dur then high else dur
        ]

  unfoldable pub next_duration : Backoff F → ℤ × Backoff F
  unfolding for_attempt
  next_duration b = (for_attempt b b.attempt, record b { attempt = suc b.attempt })

  unfoldable pub timeout_exceeded : Backoff F → Bool
  timeout_exceeded b = leb (pos_part b.max_attempts) b.attempt

  unfoldable pub reset : Backoff F → Backoff F
  reset b = record b { attempt = 0 }

  -- The loop of `startBackoff` with `rounds` rounds to go, from round `i` on.
  unfoldable pub retry_loop : ℕ → ℕ → (ℕ → Round) → Backoff F → Retries → Retries
  unfolding next_duration timeout_exceeded
  retry_loop zero i world b s = s
  retry_loop (suc rounds) i world b s =
      let r = world i in
      let (d, b') = next_duration b in
      let slept = record s { sleeps = s.sleeps ++ (d ∷ []) } in
      let dialled = record slept { dials = suc s.dials } in
      let again = retry_loop rounds (suc i) world b' dialled in
      if not r.active || timeout_exceeded b
      then s
      else if r.connected
      then slept
      else if r.dialled && r.reconnected && r.pinged
      then dialled
      else again

  -- `startBackoff`: nothing if a back-off of the address is stored. The back-offs afterwards do not
  -- hold the address.
  unfoldable pub start_backoff : ℤ → Bool → (ℕ → Round) → Retries
  unfolding retry_loop default_backoff
  start_backoff max_attempts exists world =
      let idle : Retries = record { sleeps = []; dials = 0 } in
      if exists then idle else retry_loop (pos_part max_attempts) 0 world default_backoff idle
