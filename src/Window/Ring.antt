-- ===== src/Window/Ring.antt =====
-- Nonces as places in a ring.
use noise.Base.{◌%◌, ◌*◌, ◌+◌, ◌/◌, ◌<◌, ap, arith, suc, sym, ℕ, ◌∙◌, ◌≡◌, ◌≤◌}
use native.Mathlib.Nat.{div-add-mod, suc-mod}
use native.Mathlib.Decide.{dec_lt}

mul_gap : (s p q : ℕ) → p < q → s * p + s ≤ s * q
mul_gap s p q h = grind arith

-- Two numbers less than `size` apart with one remainder are one number.
pub mod_injective :
    (size base a b : ℕ)
    → base ≤ a
    → a < base + size
    → base ≤ b
    → b < base + size
    → a % size ≡ b % size
    → a ≡ b
mod_injective size base a b la ha lb hb e =
    let da = div-add-mod a size in
    let db = div-add-mod b size in
    elim (dec_lt (a / size) (b / size)) [
      | yes below ↦ absurd (omega (arith, da, db, mul_gap size (a / size) (b / size) below))
      | no above ↦ elim (dec_lt (b / size) (a / size)) [
        | yes below ↦ absurd (omega (arith, da, db, mul_gap size (b / size) (a / size) below))
        | no under ↦
            let q : a / size ≡ b / size = omega arith in
            omega (arith, da, db, ap (λ (t : ℕ). size * t) q)
      ]
    ]

pub suc-mod_congr : (size a b : ℕ) → a % size ≡ b % size → suc a % size ≡ suc b % size
suc-mod_congr size a b e = suc-mod a size ∙ ap (λ (t : ℕ). suc t % size) e ∙ sym (suc-mod b size)
