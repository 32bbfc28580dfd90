-- ===== src/Wire/Reads.antt =====
-- The loops of `receiveMessage` that read until a number of bytes is there, on connections that are
-- cut into reads in any way.
use noise.Base.{
  ◌+◌, ◌++◌, ◌-◌, ◌<◌, All, Bytes, List, [], ap, append-nil, arith, drop, drop-append_length, false,
  length, length-append, refl, subst, suc, sym, take, take-append_length, ℕ, ◌∙◌, ◌∷◌, ◌≡◌, ◌≤◌,
}
use native.Mathlib.Decide.{dec_le}
use noise.Wire.{Segment, Reading, read_loop, padded}

-- All that a connection will yield, where no read fails.
abbrev pub flat : List Segment → Bytes
flat [] = []
flat (s ∷ ss) = s.bytes ++ flat ss

abbrev pub Sound : List Segment → Type 0
Sound ss = All (λ s. s.fails ≡ false) ss

-- A reading that got `want`, before `more`.
pub record Got (want more : Bytes) (r : Reading) : Type 0 where
  pub is_read : r.read ≡ want
  pub succeeded : r.failed ≡ false
  pub remains : flat r.left ≡ more
  pub stays_sound : Sound r.left

append_split :
    (xs ys us vs : Bytes)
    → xs ++ us ≡ ys ++ vs
    → length xs ≤ length ys
    → (zs : Bytes) × (ys ≡ xs ++ zs) × (us ≡ zs ++ vs)
append_split [] ys us vs e l = (ys, refl, e)
append_split (x ∷ xs) [] us vs e l = absurd (omega arith)
append_split (x ∷ xs) (y ∷ ys) us vs e l =
    let tails : xs ++ us ≡ ys ++ vs = cc in
    let (zs, f, g) = append_split xs ys us vs tails (omega arith) in (zs, cc, g)

read_loop_more :
    (need : ℕ) (s : Segment) (ss : List Segment)
    → 0 < need
    → length s.bytes ≤ need
    → s.fails ≡ false
    → read_loop need (s ∷ ss) ≡ (record {
      read = s.bytes ++ (read_loop (need - length s.bytes) ss).read;
      failed = (read_loop (need - length s.bytes) ss).failed;
      left = (read_loop (need - length s.bytes) ss).left;
    })
unfolding read_loop
read_loop_more need s ss p l f = ground arith

read_loop_enough :
    (need : ℕ) (s : Segment) (ss : List Segment)
    → 0 < need
    → need < length s.bytes
    → read_loop need (s ∷ ss) ≡ (record {
      read = take need s.bytes;
      failed = false;
      left = record s { bytes = drop need s.bytes } ∷ ss;
    })
unfolding read_loop
read_loop_enough need s ss p l = ground arith

pub read_loop-Got :
    (want more : Bytes) (ss : List Segment)
    → flat ss ≡ want ++ more
    → Sound ss
    → Got want more (read_loop (length want) ss)
unfolding read_loop
read_loop-Got [] more [] e h = record {
  is_read = refl;
  succeeded = refl;
  remains = e;
  stays_sound = tt;
}
read_loop-Got [] more (s ∷ ss) e h = record {
  is_read = refl;
  succeeded = refl;
  remains = e;
  stays_sound = h;
}
read_loop-Got (w ∷ ws) more [] e h = absurd cc
read_loop-Got (w ∷ ws) more (s ∷ ss) e h = elim (dec_le (length s.bytes) (suc (length ws))) [
  | yes l ↦
      let (zs, f, g) = append_split s.bytes (w ∷ ws) (flat ss) more e l in
      let size : length zs ≡ suc (length ws) - length s.bytes =
        omega (arith, length-append s.bytes zs, ap (λ (bs : Bytes). length bs) f) in
      let q : Got zs more (read_loop (suc (length ws) - length s.bytes) ss) =
        subst (λ k. Got zs more (read_loop k ss)) size (read_loop-Got zs more ss g h.1) in
      subst (Got (w ∷ ws) more) (sym (read_loop_more (suc (length ws)) s ss (omega arith) l h.0))
        (record {
          is_read = ap (λ bs. s.bytes ++ bs) q.is_read ∙ sym f;
          succeeded = q.succeeded;
          remains = q.remains;
          stays_sound = q.stays_sound;
        })
  | no l ↦
      let (zs, f, g) = append_split (w ∷ ws) s.bytes more (flat ss) (sym e) (omega arith) in
      subst (Got (w ∷ ws) more)
        (sym (read_loop_enough (suc (length ws)) s ss (omega arith) (omega arith)))
        (record {
          is_read = ap (take (suc (length ws))) f ∙ take-append_length (w ∷ ws) zs;
          succeeded = refl;
          remains =
              ap (λ bs. bs ++ flat ss)
                (ap (drop (suc (length ws))) f ∙ drop-append_length (w ∷ ws) zs)
              ∙ sym g;
          stays_sound = (h.0, h.1);
        })
]

-- A connection that ends before `need` bytes are there yields what it had.
pub read_loop_short :
    (need : ℕ) (part : Bytes) (ss : List Segment)
    → flat ss ≡ part
    → Sound ss
    → length part < need
    → (read_loop need ss).read ≡ part
unfolding read_loop
read_loop_short need part [] e h l = ground (arith, e)
read_loop_short need part (s ∷ ss) e h l =
    let sizes : length part ≡ length s.bytes + length (flat ss) =
      ap (λ (bs : Bytes). length bs) (sym e) ∙ length-append s.bytes (flat ss) in
    ap (λ r. r.read) (read_loop_more need s ss (omega arith) (omega arith) h.0)
    ∙ ap (λ bs. s.bytes ++ bs)
        (read_loop_short (need - length s.bytes) (flat ss) ss refl h.1 (omega arith))
    ∙ e

pub padded_full : (bs : Bytes) → padded (length bs) bs ≡ bs
unfolding padded
padded_full bs =
    let none_left : length bs - length bs ≡ 0 = omega arith in rw none_left (append-nil bs)
