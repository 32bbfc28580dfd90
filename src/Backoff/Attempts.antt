-- ===== src/Backoff/Attempts.antt =====
-- How often the loop dials.
use noise.Base.{
  ◌+◌, ◌++◌, ◌<◌, All, All-append, Bool, [], ap, arith, false, length, length-append, refl, suc,
  true, zero, ℕ, ◌∙◌, ◌∷◌, ◌≡◌, ◌≤◌, ◌&&◌, if◌then◌else◌, not, subst, sym, ◌||◌,
}
use noise.Base.Int.{ℤ, pos, ◌≤ℤ◌, leb_ℤ, pos_part}
use noise.Backoff.{
  Backoff, Floats, Round, Retries, retry_loop, start_backoff, default_backoff, next_duration,
  timeout_exceeded,
}
use noise.Backoff.Bounds.{for_attempt-le}
use noise.Backoff.{for_attempt, low_bound, high_bound}

module _ {F : Type 0} (floats : Floats F) where
  -- A delay of the default configuration.
  abbrev pub Delay : ℤ → Type 0
  Delay d = (pos 1000000000 ≤ℤ d) × (d ≤ℤ pos 16000000000)

  -- The back-off is the default one, and its attempts are the dials so far.
  pub record Going (b : Backoff F) (s : Retries) : Type 0 where
    pub least : b.min_interval ≡ pos 1000000000
    pub most : b.max_interval ≡ pos 16000000000
    pub allowed : b.max_attempts ≡ pos 5
    pub counted : b.attempt ≡ s.dials
    pub slept : length s.sleeps ≡ s.dials
    pub few : s.dials ≤ 5
    pub delays : All Delay s.sleeps

  -- At most 5 dials, and at most `most`; at most 5 sleeps, each of them a delay.
  pub record Modest (most : ℕ) (s : Retries) : Type 0 where
    pub few : s.dials ≤ 5
    pub bounded : s.dials ≤ most
    pub rests : length s.sleeps ≤ 5
    pub delays : All Delay s.sleeps

  pub next-Delay : (b : Backoff F) (s : Retries) → Going b s → Delay (next_duration floats b).0
  unfolding next_duration
  next-Delay b s g =
      let low : low_bound floats b ≡ pos 1000000000 =
        ap (λ (t : ℤ). if leb_ℤ t (pos 0) then pos 1000000000 else t) g.least in
      let high : high_bound floats b ≡ pos 16000000000 =
        ap (λ (t : ℤ). if leb_ℤ t (pos 0) then pos 16000000000 else t) g.most in
      let h = for_attempt-le floats b b.attempt (
        subst (λ l. l ≤ℤ high_bound floats b) (sym low)
          (subst (λ t. pos 1000000000 ≤ℤ t) (sym high) (omega arith))) in
      (
        subst (λ l. l ≤ℤ for_attempt floats b b.attempt) low h.0,
        subst (λ t. for_attempt floats b b.attempt ≤ℤ t) high h.1,
      )

  pub next_Going :
      (b : Backoff F) (s : Retries) (d : ℤ)
      → Going b s
      → Delay d
      → s.dials < 5
      → Going
          (next_duration floats b).1
          (record { sleeps = s.sleeps ++ (d ∷ []); dials = suc s.dials })
  unfolding next_duration
  next_Going b s d g h l = record {
    least = g.least;
    most = g.most;
    allowed = g.allowed;
    counted = ap (λ n. suc n) g.counted;
    slept = length-append s.sleeps (d ∷ []) ∙ omega (arith, g.slept);
    few = omega arith;
    delays = All-append Delay s.sleeps (d ∷ []) g.delays (h, tt);
  }

  stop_Modest : (b : Backoff F) (s : Retries) (rounds : ℕ) → Going b s → Modest (s.dials + rounds) s
  stop_Modest b s rounds g = record {
    few = g.few;
    bounded = omega arith;
    rests = omega (arith, g.slept, g.few);
    delays = g.delays;
  }

  rest_Modest :
      (b : Backoff F) (s : Retries) (rounds : ℕ) (d : ℤ)
      → Going b s
      → Delay d
      → s.dials < 5
      → Modest (s.dials + rounds) (record s { sleeps = s.sleeps ++ (d ∷ []) })
  rest_Modest b s rounds d g h l = record {
    few = g.few;
    bounded = omega arith;
    rests = omega (arith, length-append s.sleeps (d ∷ []), g.slept);
    delays = All-append Delay s.sleeps (d ∷ []) g.delays (h, tt);
  }

  four_ways :
      (P : Retries → Type 0) (c1 c2 c3 : Bool) (s1 s2 s3 s4 : Retries)
      → P s1
      → (c1 ≡ false → P s2)
      → (c1 ≡ false → P s3)
      → (c1 ≡ false → P s4)
      → P (if c1 then s1 else if c2 then s2 else if c3 then s3 else s4)
  four_ways P true c2 c3 s1 s2 s3 s4 p1 p2 p3 p4 = p1
  four_ways P false true c3 s1 s2 s3 s4 p1 p2 p3 p4 = p2 refl
  four_ways P false false true s1 s2 s3 s4 p1 p2 p3 p4 = p3 refl
  four_ways P false false false s1 s2 s3 s4 p1 p2 p3 p4 = p4 refl

  -- A round that does not end at once has a dial left.
  below :
      (b : Backoff F) (s : Retries)
      → Going b s
      → (active : Bool) → (not active || timeout_exceeded floats b) ≡ false
      → s.dials < 5
  unfolding timeout_exceeded
  below b s g false e = absurd cc
  below b s g true e =
      let five : pos_part b.max_attempts ≡ 5 = ap pos_part g.allowed in
      ground (arith, five, g.counted, e)

  retry_loop-Modest :
      (rounds i : ℕ) (world : ℕ → Round) (b : Backoff F) (s : Retries)
      → Going b s
      → Modest (s.dials + rounds) (retry_loop floats rounds i world b s)
  unfolding retry_loop next_duration
  retry_loop-Modest zero i world b s g = stop_Modest b s 0 g
  retry_loop-Modest (suc rounds) i world b s g =
      let r = world i in
      let d = (next_duration floats b).0 in
      let delay = next-Delay b s g in
      let dialled : Retries = record { sleeps = s.sleeps ++ (d ∷ []); dials = suc s.dials } in
      four_ways (Modest (s.dials + suc rounds)) (not r.active || timeout_exceeded floats b)
        r.connected (r.dialled && r.reconnected && r.pinged) s
        (record s { sleeps = s.sleeps ++ (d ∷ []) }) dialled _ (stop_Modest b s (suc rounds) g)
        (λ e. rest_Modest b s (suc rounds) d g delay (below b s g r.active e))
        (λ e.
          subst (λ n. Modest n dialled) (omega arith)
            (stop_Modest (next_duration floats b).1 dialled rounds
              (next_Going b s d g delay (below b s g r.active e))))
        (λ e.
          subst
            (λ n.
              Modest n (retry_loop floats rounds (suc i) world (next_duration floats b).1 dialled))
            (omega arith)
            (retry_loop-Modest rounds (suc i) world (next_duration floats b).1 dialled
              (next_Going b s d g delay (below b s g r.active e))))

  pub default_Going : Going (default_backoff floats) (record { sleeps = []; dials = 0 })
  unfolding default_backoff
  default_Going = record {
    least = refl;
    most = refl;
    allowed = refl;
    counted = refl;
    slept = refl;
    few = omega arith;
    delays = tt;
  }

  -- However its dials end, startBackoff dials at most 5 times and at most as often as maxAttempts
  -- says, and its loop sleeps at most 5 times, each time 1 to 16 seconds.
  pub start_backoff-Modest :
      (max_attempts : ℤ) (exists : Bool) (world : ℕ → Round)
      → Modest (pos_part max_attempts) (start_backoff floats max_attempts exists world)
  unfolding start_backoff default_backoff
  start_backoff-Modest max_attempts true world = record {
    few = omega arith;
    bounded = omega arith;
    rests = omega arith;
    delays = tt;
  }
  start_backoff-Modest max_attempts false world =
      subst (λ n. Modest n (start_backoff floats max_attempts false world)) (omega arith)
        (retry_loop-Modest (pos_part max_attempts) 0 world (default_backoff floats)
          (record { sleeps = []; dials = 0 }) default_Going)
