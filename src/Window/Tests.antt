-- ===== src/Window/Tests.antt =====
-- The window of four slots on a short history.
use noise.Window.Stream.{
  Use, Honest, InWindow, run_uses, arrives, values_from, takes, run_uses-values_from,
}
use noise.Window.Deliver.{arrived, Tracks, first_push-Tracks, run}
use noise.Window.{Window, push, pop, new_recv_window, range, range_from, set_local_nonce}
use noise.Base.{
  arith, Option, [], done, none, refl, some, subst, true, ℕ, ◌∷◌, ◌≡◌, ◌+◌, sym, ◌∙◌, List,
  if◌then◌else◌, nat_beq,
}

-- A window with only nonce 10 in it.
abbrev only_ten : ℕ → Option ℕ
only_ten = arrived (λ n. none) 10 (some 7)

abbrev holding : Window ℕ
holding = record {
  last_nonce = 10;
  size = 4;
  buf = none ∷ none ∷ some 7 ∷ none ∷ [];
  pushed = true;
}

held : push (new_recv_window 4) 10 (some 7) ≡ done holding
unfolding push new_recv_window
held = refl

holding-Tracks : Tracks holding 10 only_ten
holding-Tracks =
    let made = first_push-Tracks 4 10 (some 7) (omega arith) (omega arith) (omega arith) in
    let same : done made.0 ≡ done holding = sym made.1 ∙ held in
    subst (λ w. Tracks w 10 only_ten) (cc) made.2

-- `Range` stores the slot number where the nonce was: nonce 11 is expected, and it is 3.
ten_pops :
    pop holding
    ≡ done (record holding { last_nonce = 3; buf = none ∷ none ∷ none ∷ none ∷ [] }, some 7 ∷ [])
unfolding pop range range_from
ten_pops = refl

-- The first push overrides a nonce that was set.
first_overrides :
    push {V = ℕ} (set_local_nonce (new_recv_window 1) 5) 6 none
    ≡ done (record { last_nonce = 6; size = 1; buf = none ∷ []; pushed = true })
unfolding push new_recv_window set_local_nonce
first_overrides = refl

-- 11 comes before 10, and is popped after it.
abbrev out_of_order : List Use
out_of_order = arrives 11 ∷ takes ∷ arrives 12 ∷ takes ∷ []

abbrev numbers : ℕ → ℕ
numbers n = if nat_beq n 10 then 7 else n

only_ten-Honest : Honest numbers only_ten
only_ten-Honest n v e = ground (arith, e)

out_of_order-InWindow : InWindow numbers 4 10 only_ten out_of_order
unfolding InWindow run
out_of_order-InWindow = (omega arith, omega arith, (omega arith, omega arith, tt))

run_uses-values_from_example :
    (w' : Window ℕ) × (count : ℕ) × (run_uses numbers holding out_of_order
      ≡ done (w', values_from numbers 10 count))
    × (pending' : ℕ → Option ℕ) × Tracks w' (10 + count) pending'
    × Honest numbers pending'
run_uses-values_from_example =
    run_uses-values_from numbers holding 10 only_ten out_of_order holding-Tracks only_ten-Honest
      out_of_order-InWindow
