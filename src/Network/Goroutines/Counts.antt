-- ===== src/Network/Goroutines/Counts.antt =====
-- Counting the messages that the goroutines of `Accept` hold, by tests on messages.
use noise.Base.{
  ◌+◌, ◌++◌, ◌≡◌, Bool, List, Option, [], ap, arith, get_elem?, if◌then◌else◌, none, set, some, suc,
  zero, ℕ, ◌∷◌,
}
use noise.Network.Goroutines.{Routine, checking, popping, submitting}
use noise.Wire.{Message}

-- How many messages pass a test.
unfoldable pub times : (Message → Bool) → List Message → ℕ
times test [] = 0
times test (m ∷ ms) = (if test m then 1 else 0) + times test ms

-- How many of the messages that are there pass a test.
unfoldable pub times? : (Message → Bool) → List (Option Message) → ℕ
times? test [] = 0
times? test (none ∷ ms) = times? test ms
times? test (some m ∷ ms) = (if test m then 1 else 0) + times? test ms

-- How many that pass a test a goroutine has popped and not submitted.
abbrev pub held : (Message → Bool) → Routine → ℕ
held test (checking msg) = 0
held test popping = 0
held test (submitting ms) = times? test ms

unfoldable pub waiting : (Message → Bool) → List Routine → ℕ
waiting test [] = 0
waiting test (r ∷ rs) = held test r + waiting test rs

pub times-append :
    (test : Message → Bool) (xs ys : List Message)
    → times test (xs ++ ys) ≡ times test xs + times test ys
unfolding times
times-append test [] ys = omega arith
times-append test (x ∷ xs) ys = omega (arith, times-append test xs ys)

pub times?-append :
    (test : Message → Bool) (xs ys : List (Option Message))
    → times? test (xs ++ ys) ≡ times? test xs + times? test ys
unfolding times?
times?-append test [] ys = omega arith
times?-append test (none ∷ xs) ys = times?-append test xs ys
times?-append test (some x ∷ xs) ys = omega (arith, times?-append test xs ys)

pub waiting-append :
    (test : Message → Bool) (xs ys : List Routine)
    → waiting test (xs ++ ys) ≡ waiting test xs + waiting test ys
unfolding waiting
waiting-append test [] ys = omega arith
waiting-append test (x ∷ xs) ys = omega (arith, waiting-append test xs ys)

pub waiting-set :
    (test : Message → Bool) (rs : List Routine) (i : ℕ) (old new : Routine)
    → get_elem? rs i ≡ some old
    → waiting test (set rs i new) + held test old ≡ waiting test rs + held test new
unfolding waiting
waiting-set test [] i old new e = absurd (ground (arith, e))
waiting-set test (r ∷ rs) zero old new e =
    let same : r ≡ old = cc in omega (arith, ap (held test) same)
waiting-set test (r ∷ rs) (suc i) old new e = omega (arith, waiting-set test rs i old new e)
