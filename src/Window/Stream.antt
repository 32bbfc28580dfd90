-- ===== src/Window/Stream.antt =====
-- network/recv_window.go: a window in use, as `Accept` uses it: messages are pushed in any order, and
-- those that are ready are popped.
use noise.Window.{push, Window, pop, range_from, range, is_some, u64_mod}
use noise.Base.{
  ◌+◌, ◌++◌, ◌<◌, ◌>>=◌, List, Option, Option-cases, Outcome, [], ap, arith, done, inl, inr, length,
  refl, some, suc, zero, ℕ, ◌∷◌, ◌≡◌, ◌≤◌, ◌%◌, Bool, get_elem?, none, set, subst, sym, ◌∙◌,
}
use noise.Window.Deliver.{Tracks, run, cut, arrived, push-Tracks}
use noise.Window.Take.{pop-Tracks}

-- A push of the message with a nonce, or a pop.
pub data Use : Type 0 where
  arrives : ℕ → Use
  takes : Use

module _ {V : Type 0} where
  pub push-size : (w w' : Window V) (n : ℕ) (v : Option V) → push w n v ≡ done w' → w'.size ≡ w.size
  unfolding push
  push-size w w' n v e = ground (arith, e)

  range_from-size :
      (rounds : ℕ) (fn : ℕ → Option V → Bool) (id : ℕ) (w w' : Window V) (res out : List (Option V))
      → range_from rounds fn id w res ≡ done (w', out)
      → w'.size ≡ w.size
  unfolding range_from
  range_from-size zero fn id w w' res out e = cc
  range_from-size (suc rounds) fn id w w' res out e =
      elim (Option-cases (get_elem? w.buf (id % w.size))) [
        | inl n ↦ ground (arith, n, e)
        | inr (val, s) ↦ ground (
          arith,
          s,
          e,
          range_from-size rounds fn ((id + 1) % u64_mod)
              (record w { buf = set w.buf (id % w.size) none }) w' (res ++ (val ∷ [])) out,
        )
      ]

  pub pop-size :
      (w w' : Window V) (out : List (Option V)) → pop w ≡ done (w', out) → w'.size ≡ w.size
  unfolding pop range
  pop-size w w' out e = range_from-size w.size (λ nonce v. is_some v) w.last_nonce w w' [] out e

module _ {V : Type 0} (value : ℕ → V) where
  -- The window after the uses, and all that was popped.
  unfoldable pub run_uses : Window V → List Use → Outcome (Window V × List (Option V))
  unfolding push pop
  run_uses w [] = done (w, [])
  run_uses w (arrives n ∷ us) = push w n (some (value n)) >>= λ w'. run_uses w' us
  run_uses w (takes ∷ us) =
      pop w >>= λ (w', out). run_uses w' us >>= λ (w2, rest). done (w2, out ++ rest)

  -- The messages of `count` nonces from `base`.
  unfoldable pub values_from : ℕ → ℕ → List (Option V)
  values_from base zero = []
  values_from base (suc count) = some (value base) ∷ values_from (suc base) count

  -- Where `base` is next and `pending` has come, each message that comes has a nonce in the window.
  unfoldable pub InWindow : ℕ → ℕ → (ℕ → Option V) → List Use → Type 0
  unfolding run
  InWindow size base pending [] = Unit
  InWindow size base pending (arrives n ∷ us) =
      (base ≤ n) × (n < base + size) × InWindow size base (arrived pending n (some (value n))) us
  InWindow size base pending (takes ∷ us) =
      let next = base + length (run pending base size) in InWindow size next (cut pending next) us

  -- What is pending is the message of its nonce.
  abbrev pub Honest : (ℕ → Option V) → Type 0
  Honest pending = (n : ℕ) (v : V) → pending n ≡ some v → v ≡ value n

  run-found :
      (pending : ℕ → Option V) (base k : ℕ) (v : V)
      → pending base ≡ some v
      → run pending base (suc k) ≡ some v ∷ run pending (suc base) k
  unfolding run
  run-found pending base k v e = rw (e, run) refl

  pub run-values_from :
      (pending : ℕ → Option V) (base k : ℕ)
      → Honest pending
      → run pending base k ≡ values_from base (length (run pending base k))
  unfolding run values_from
  run-values_from pending base zero h = refl
  run-values_from pending base (suc k) h = elim (Option-cases (pending base)) [
    | inl e ↦ rw (e, run) refl
    | inr (v, e) ↦
        rw (run-found pending base k v e, h base v e)
          (ap (λ l. some (value base) ∷ l) (run-values_from pending (suc base) k h))
  ]

  pub values_from-append :
      (base j k : ℕ) → values_from base j ++ values_from (base + j) k ≡ values_from base (j + k)
  unfolding values_from
  values_from-append base zero k =
      let e : base + 0 ≡ base = omega arith in let f : 0 + k ≡ k = omega arith in rw (e, f) refl
  values_from-append base (suc j) k =
      let e : base + suc j ≡ suc base + j = omega arith in
      let f : suc j + k ≡ suc (j + k) = omega arith in
      rw (e, f) (ap (λ l. some (value base) ∷ l) (values_from-append (suc base) j k))

  pub Honest-arrived :
      (pending : ℕ → Option V) (n : ℕ)
      → Honest pending
      → Honest (arrived pending n (some (value n)))
  Honest-arrived pending n h m v e = ground (arith, h m v)

  pub Honest-cut : (pending : ℕ → Option V) (n : ℕ) → Honest pending → Honest (cut pending n)
  Honest-cut pending n h m v e = ground (arith, h m v)

  run_uses-takes :
      (w w' w2 : Window V) (out rest : List (Option V)) (us : List Use)
      → pop w ≡ done (w', out)
      → run_uses w' us ≡ done (w2, rest)
      → run_uses w (takes ∷ us) ≡ done (w2, out ++ rest)
  unfolding run_uses
  run_uses-takes w w' w2 out rest us e f = rw (e, ◌>>=◌, f) refl

  -- From a window that tracks nonces, any pushes of messages inside the window and any pops never
  -- panic, and what is popped is the messages of consecutive nonces from the expected one on, each
  -- once and in order.
  pub run_uses-values_from :
      (w : Window V) (base : ℕ) (pending : ℕ → Option V) (us : List Use)
      → Tracks w base pending
      → Honest pending
      → InWindow w.size base pending us
      → (w' : Window V) × (count : ℕ) × (run_uses w us ≡ done (w', values_from base count))
        × (pending' : ℕ → Option V) × Tracks w' (base + count) pending'
        × Honest pending'
  unfolding run_uses InWindow values_from
  run_uses-values_from w base pending [] t h i =
      (w, 0, refl, pending, subst (λ b. Tracks w b pending) (omega arith) t, h)
  run_uses-values_from w base pending (arrives n ∷ us) t h (lo, hi, i) =
      let (w', e, t') = push-Tracks w base n (some (value n)) pending t lo hi in
      let s = push-size w w' n (some (value n)) e in
      let (w2, count, e2, pending', t2, h2) =
        run_uses-values_from w' base (arrived pending n (some (value n))) us t'
          (Honest-arrived pending n h)
          (subst (λ z. InWindow z base (arrived pending n (some (value n))) us) (sym s) i) in
      (w2, count, rw (e, run_uses) e2, pending', t2, h2)
  run_uses-values_from w base pending (takes ∷ us) t h i =
      let (w', e, t') = pop-Tracks w base pending t in
      let s = pop-size w w' (run pending base w.size) e in
      let k = length (run pending base w.size) in
      let (w2, count, e2, pending', t2, h2) =
        run_uses-values_from w' (base + k) (cut pending (base + k)) us t'
          (Honest-cut pending (base + k) h)
          (subst (λ z. InWindow z (base + k) (cut pending (base + k)) us) (sym s) i) in
      (
        w2,
        k + count,
        run_uses-takes w w' w2 (run pending base w.size) (values_from (base + k) count) us e e2
            ∙ ap (λ l. done (w2, l))
                (ap (λ l. l ++ values_from (base + k) count) (run-values_from pending base w.size h)
                  ∙ values_from-append base k count),
        pending',
        subst (λ b. Tracks w2 b pending') (omega arith) t2,
        h2,
      )
