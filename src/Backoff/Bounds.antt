-- ===== src/Backoff/Bounds.antt =====
-- The delays lie between the bounds.
use noise.Base.{
  ℕ, Bool, Bool-cases, Option, arith, false, if◌then◌else◌, inl, inr, none, some, true,
}
use noise.Base.Int.{ltb_ℤ, ℤ, ◌≤ℤ◌, leb_ℤ}
use noise.Backoff.{Backoff, Floats, for_attempt, low_bound, high_bound}

between :
    (low high dur : ℤ)
    → low ≤ℤ high
    → (low ≤ℤ (if ltb_ℤ dur low then low else if ltb_ℤ high dur then high else dur))
      × ((if ltb_ℤ dur low then low else if ltb_ℤ high dur then high else dur) ≤ℤ high)
between low high dur h = elim (Bool-cases (ltb_ℤ dur low)) [
  | inl below ↦ rw below (omega arith, h)
  | inr above ↦ elim (Bool-cases (ltb_ℤ high dur)) [
    | inl over ↦ rw (above, over) (h, omega arith)
    | inr under ↦ rw (above, under) (ground arith, ground arith)
  ]
]

picked :
    (c : Bool) (low high : ℤ) (o : Option ℤ)
    → low ≤ℤ high
    → (low ≤ℤ (
        if c then high else elim o [
          | none ↦ high
          | some dur ↦ if ltb_ℤ dur low then low else if ltb_ℤ high dur then high else dur
        ]))
      × ((if c then high else elim o [
        | none ↦ high
        | some dur ↦ if ltb_ℤ dur low then low else if ltb_ℤ high dur then high else dur
      ])
          ≤ℤ high)
picked true low high o h = (h, omega arith)
picked false low high none h = (h, omega arith)
picked false low high (some dur) h = between low high dur h

module _ {F : Type 0} (floats : Floats F) where
  -- Where the lower bound in force is at most the upper one, ForAttempt lies between them,
  -- whatever the floating-point numbers do.
  pub for_attempt-le :
      (b : Backoff F) (attempt : ℕ)
      → low_bound floats b ≤ℤ high_bound floats b
      → (low_bound floats b ≤ℤ for_attempt floats b attempt)
        × (for_attempt floats b attempt ≤ℤ high_bound floats b)
  unfolding for_attempt
  for_attempt-le b attempt h =
      picked (leb_ℤ (high_bound floats b) (low_bound floats b)) (low_bound floats b)
        (high_bound floats b) _ h
