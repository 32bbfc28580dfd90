-- ===== src/Backoff/Exhaust.antt =====
-- How often the loop of `startBackoff` dials where every attempt fails.
use noise.Backoff.Attempts.{Going, next-Delay, next_Going, default_Going}
use noise.Base.{
  ◌+◌, ◌++◌, ◌<◌, [], ap, arith, false, refl, suc, true, zero, ℕ, ◌∙◌, ◌∷◌, ◌≡◌, ◌≤◌, ◌&&◌,
  Bool-cases, inl, inr, leb, min,
}
use native.Mathlib.Decide.{dec_lt}
use noise.Base.Int.{ℤ, pos_part}
use noise.Backoff.{
  Backoff, Floats, Round, Retries, retry_loop, start_backoff, default_backoff, next_duration,
  timeout_exceeded,
}

module _ {F : Type 0} (floats : Floats F) where
  -- In every round the back-off is stored, there is no connection, and the attempt fails.
  abbrev pub Fails : (ℕ → Round) → Type 0
  Fails world =
      (i : ℕ)
      → ((world i).active ≡ true)
        × ((world i).connected ≡ false)
        × (((world i).dialled && (world i).reconnected && (world i).pinged) ≡ false)

  retry_loop_again :
      (rounds i : ℕ) (world : ℕ → Round) (b : Backoff F) (s : Retries)
      → Fails world
      → b.attempt < pos_part b.max_attempts
      → retry_loop floats (suc rounds) i world b s
        ≡ retry_loop floats rounds
            (suc i)
            world
            (next_duration floats b).1
            (record { sleeps = s.sleeps ++ ((next_duration floats b).0 ∷ []); dials = suc s.dials })
  unfolding retry_loop next_duration timeout_exceeded
  retry_loop_again rounds i world b s f l =
      let more : leb (pos_part b.max_attempts) b.attempt ≡ false = ground arith in
      rw (retry_loop, (f i).0, more, (f i).1, (f i).2) refl

  retry_loop_over :
      (rounds i : ℕ) (world : ℕ → Round) (b : Backoff F) (s : Retries)
      → pos_part b.max_attempts ≤ b.attempt
      → retry_loop floats rounds i world b s ≡ s
  unfolding retry_loop timeout_exceeded
  retry_loop_over zero i world b s l = refl
  retry_loop_over (suc rounds) i world b s l = elim (Bool-cases (world i).active) [
    | inl e ↦ ground (arith, e)
    | inr e ↦ ground (arith, e)
  ]

  retry_loop-Fails :
      (rounds i : ℕ) (world : ℕ → Round) (b : Backoff F) (s : Retries)
      → Fails world
      → Going floats b s
      → (retry_loop floats rounds i world b s).dials ≡ min (s.dials + rounds) 5
  unfolding next_duration
  retry_loop-Fails zero i world b s f g = unfold retry_loop in omega (arith, g.few)
  retry_loop-Fails (suc rounds) i world b s f g =
      let five : pos_part b.max_attempts ≡ 5 = ap pos_part g.allowed in
      elim (dec_lt s.dials 5) [
        | yes l ↦
            let d = (next_duration floats b).0 in
            ap (λ r. r.dials)
              (retry_loop_again rounds i world b s f (omega (arith, five, g.counted)))
            ∙ retry_loop-Fails rounds (suc i) world (next_duration floats b).1
                (record { sleeps = s.sleeps ++ (d ∷ []); dials = suc s.dials }) f
                (next_Going floats b s d g (next-Delay floats b s g) l)
            ∙ omega arith
        | no l ↦
            ap (λ r. r.dials)
              (retry_loop_over (suc rounds) i world b s (omega (arith, five, g.counted)))
            ∙ omega (arith, g.few)
      ]

  -- Where no back-off is stored before, every attempt fails, no connection comes up and the back-
  -- off stays stored, startBackoff dials maxAttempts times, but no more than 5.
  pub start_backoff-Fails :
      (max_attempts : ℤ) (world : ℕ → Round)
      → Fails world
      → (start_backoff floats max_attempts false world).dials ≡ min (pos_part max_attempts) 5
  unfolding start_backoff
  start_backoff-Fails max_attempts world f =
      retry_loop-Fails (pos_part max_attempts) 0 world (default_backoff floats)
        (record { sleeps = []; dials = 0 }) f (default_Going floats)
      ∙ omega arith
