-- ===== src/Window/Take.antt =====
-- `Pop`: it takes the run of messages from the next expected nonce up to the first gap.
use noise.Window.Ring.{suc-mod_congr}
use native.Mathlib.Decide.{dec_lt}
use native.Mathlib.Nat.{mod-eq_of_lt, mod-lt, mod-mod, add-mod_right}
use noise.Base.{
  ◌%◌, ◌*◌, ◌+◌, ◌<◌, List, Option, [], arith, done, get_elem?, length, length-set, none, set, some,
  suc, zero, ℕ, ◌∙◌, ◌∷◌, ◌≡◌, ◌≤◌, ◌++◌, Outcome, ap, refl, sym, ◌⊎◌, append-nil, inr, subst,
  Option-cases, append_assoc, inl, ◌-◌,
}
use noise.Window.{Window, u64_mod, range_from, is_some, pop, range}
use noise.Window.Deliver.{Tracks, run, cut, Slots, length-run, write_slot}

module _ {V : Type 0} where
  -- The end of the loop of `Pop`, entered at nonce `b` with `r` rounds to go: it takes `out`.
  record Popped (base b r : ℕ) (w : Window V) (pending : ℕ → Option V) (res out : List (Option V))
      (o : Outcome (Window V × List (Option V))) : Type 0 where
    next : Window V
    returns : o ≡ done (next, res ++ out)
    same_size : next.size ≡ w.size
    same_length : length next.buf ≡ length w.buf
    same_start : next.pushed ≡ w.pushed
    left : Slots next base (cut pending (b + length out))
    ends :
        ((length out ≡ r) × (next.last_nonce ≡ w.last_nonce))
        ⊎ ((length out < r)
            × (pending (b + length out) ≡ none)
            × (next.last_nonce ≡ (b + length out) % w.size))

  loop_stop :
      (base b r id : ℕ) (w : Window V) (pending : ℕ → Option V) (res : List (Option V))
      → get_elem? w.buf (id % w.size) ≡ some none
      → pending b ≡ none
      → id % w.size ≡ b % w.size
      → Slots w base (cut pending b)
      → Popped base b (suc r) w pending res [] (range_from (suc r) (λ n v. is_some v) id w res)
  unfolding range_from
  loop_stop base b r id w pending res here nothing place s = record {
    next = record w { last_nonce = id % w.size };
    returns =
        rw (here, range_from)
          (ap (λ l. done (record w { last_nonce = id % w.size }, l)) (sym (append-nil res)));
    same_size = refl;
    same_length = refl;
    same_start = refl;
    left = λ n l h. s n l h ∙ ground arith;
    ends = inr (
      omega arith,
      ap pending (omega arith) ∙ nothing,
      place ∙ ap (λ m. m % w.size) (omega arith),
    );
  }

  -- The slot of nonce `b` emptied.
  emptied : Window V → ℕ → Window V
  emptied w id = record w { buf = set w.buf (id % w.size) none }

  emptied-Slots :
      (base b id : ℕ) (w : Window V) (pending : ℕ → Option V)
      → 0 < w.size
      → length w.buf ≡ w.size
      → base ≤ b
      → b < base + w.size
      → id % w.size ≡ b % w.size
      → Slots w base (cut pending b)
      → Slots (emptied w id) base (cut pending (suc b))
  unfolding emptied
  emptied-Slots base b id w pending p sized lo hi place s n l h =
      ap (λ i. get_elem? (set w.buf i none) (n % w.size)) place
      ∙ write_slot w base b none (cut pending b) p sized lo hi s n l h
      ∙ ground arith

  loop_more :
      (base b r id : ℕ) (w : Window V) (pending : ℕ → Option V) (res out : List (Option V)) (v : V)
      → get_elem? w.buf (id % w.size) ≡ some (some v)
      → Popped base (suc b) r (emptied w id) pending (res ++ (some v ∷ [])) out (
          range_from r
            (λ n v. is_some v)
            ((id + 1) % u64_mod)
            (emptied w id)
            (res ++ (some v ∷ [])))
      → Popped base b
          (suc r)
          w
          pending
          res
          (some v ∷ out)
          (range_from (suc r) (λ n v. is_some v) id w res)
  unfolding range_from emptied
  loop_more base b r id w pending res out v here q =
      let step : b + suc (length out) ≡ suc b + length out = omega arith in
      record {
        next = q.next;
        returns =
            rw (here, range_from)
              (q.returns ∙ ap (λ l. done (q.next, l)) (append_assoc res (some v ∷ []) out));
        same_size = q.same_size;
        same_length = q.same_length ∙ length-set w.buf (id % w.size) none;
        same_start = q.same_start;
        left = subst (λ m. Slots q.next base (cut pending m)) (sym step) q.left;
        ends = elim q.ends [
          | inl e ↦ inl (omega (arith, e.0), e.1)
          | inr e ↦
              inr (omega (arith, e.0), ap pending step ∙ e.1, e.2 ∙ ap (λ m. m % w.size) (sym step))
        ];
      }

  -- What the loop of `Pop` does, from the window as it is when the loop stands at nonce `b`.
  loop_lem :
      (base b r id : ℕ) (w : Window V) (pending : ℕ → Option V) (res : List (Option V))
      → 0 < w.size
      → length w.buf ≡ w.size
      → base ≤ b
      → b + r ≡ base + w.size
      → id % w.size ≡ b % w.size
      → id + r < u64_mod
      → Slots w base (cut pending b)
      → Popped base b r w pending res (run pending b r) (range_from r (λ n v. is_some v) id w res)
  unfolding run emptied
  loop_lem base b zero id w pending res p sized lo size place small s = record {
    next = w;
    returns = unfold range_from in ap (λ l. done (w, l)) (sym (append-nil res));
    same_size = refl;
    same_length = refl;
    same_start = refl;
    left = λ n l h. s n l h ∙ ground arith;
    ends = inl (refl, refl);
  }
  loop_lem base b (suc r) id w pending res p sized lo size place small s =
      let here : get_elem? w.buf (id % w.size) ≡ some (pending b) =
        ap (get_elem? w.buf) place ∙ s b lo (omega (arith, size)) ∙ ground arith in
      elim (Option-cases (pending b)) [
        | inl e ↦
            subst
              (λ l.
                Popped base b (suc r) w pending res l
                  (range_from (suc r) (λ n v. is_some v) id w res))
              (rw (e, run) refl) (loop_stop base b r id w pending res (here ∙ ap some e) e place s)
        | inr (v, e) ↦
            let nx : (id + 1) % u64_mod ≡ suc id = mod-eq_of_lt (omega arith) ∙ omega arith in
            subst
              (λ l.
                Popped base b (suc r) w pending res l
                  (range_from (suc r) (λ n v. is_some v) id w res))
              (rw (e, run) refl)
              (loop_more base b r id w pending res (run pending (suc b) r) v (here ∙ ap some e) (
                loop_lem base (suc b) r ((id + 1) % u64_mod) (emptied w id) pending
                  (res ++ (some v ∷ [])) p (length-set w.buf (id % w.size) none ∙ sized)
                  (omega arith) (omega (arith, size))
                  (ap (λ m. m % w.size) nx ∙ suc-mod_congr w.size id b place)
                  (omega (arith, small, nx))
                  (emptied-Slots base b id w pending p sized lo (omega (arith, size)) place s)))
      ]

  -- A nonce past the old end has the slot of one that was taken.
  after_slots :
      (w : Window V) (base : ℕ) (pending : ℕ → Option V) (out : List (Option V))
      → (o : Outcome (Window V × List (Option V))) → Tracks w base pending
      → length out ≤ w.size
      → (q : Popped base base w.size w pending [] out o) → (n : ℕ) → base + length out ≤ n
      → n < base + length out + w.size
      → get_elem? q.next.buf (n % w.size) ≡ some (cut pending (base + length out) n)
  after_slots w base pending out o t most q n l h =
      let back =
        subst
          (λ k.
            (m : ℕ)
            → base ≤ m
            → m < base + k
            → get_elem? q.next.buf (m % k) ≡ some (cut pending (base + length out) m))
          q.same_size q.left in
      elim (dec_lt n (base + w.size)) [
        | yes low ↦ back n (omega arith) low
        | no high ↦
            let split : n ≡ n - w.size + w.size = omega arith in
            ap (λ k. get_elem? q.next.buf (k % w.size)) split
            ∙ ap (get_elem? q.next.buf) (add-mod_right (n - w.size) w.size)
            ∙ back (n - w.size) (omega arith) (omega arith)
            ∙ ground (arith, t.beyond n (omega arith))
      ]

  after_pop :
      (w : Window V) (base : ℕ) (pending : ℕ → Option V) (out : List (Option V))
      → (o : Outcome (Window V × List (Option V))) → Tracks w base pending
      → length out ≤ w.size
      → (q : Popped base base w.size w pending [] out o)
      → Tracks q.next (base + length out) (cut pending (base + length out))
  after_pop w base pending out o t most q =
      let e = q.same_size in
      let m = mod-lt (base + length out) t.nonempty in
      record {
        nonempty = subst (λ k. 0 < k) (sym e) t.nonempty;
        sized = q.same_length ∙ t.sized ∙ sym e;
        started = q.same_start ∙ t.started;
        place =
            subst (λ k. q.next.last_nonce % k ≡ (base + length out) % k) (sym e)
              (elim q.ends [
                | inl h ↦
                    ap (λ k. k % w.size) h.1
                    ∙ t.place
                    ∙ sym (add-mod_right base w.size)
                    ∙ ap (λ k. (base + k) % w.size) (sym h.0)
                | inr h ↦ ap (λ k. k % w.size) h.2 ∙ mod-mod (base + length out) w.size
              ]);
        slots =
            subst
              (λ k.
                (n : ℕ)
                → base + length out ≤ n
                → n < base + length out + k
                → get_elem? q.next.buf (n % k) ≡ some (cut pending (base + length out) n))
              (sym e) (after_slots w base pending out o t most q);
        beyond = λ n h. ground (arith, t.beyond n (omega (arith, e)));
        fits = subst (λ k. 2 * k < u64_mod) (sym e) t.fits;
        low = elim q.ends [
          | inl h ↦ omega (arith, h.1, t.low)
          | inr h ↦ omega (arith, h.2, t.fits, m)
        ];
      }

  -- On a window that tracks nonces below 2 ^ 64, Pop returns the run of messages from the expected
  -- nonce up to the first gap, at most a window of them, and leaves the window tracking the nonces
  -- after them.
  pub pop-Tracks :
      (w : Window V) (base : ℕ) (pending : ℕ → Option V)
      → Tracks w base pending
      → (w' : Window V) × (pop w ≡ done (w', run pending base w.size))
        × Tracks w'
            (base + length (run pending base w.size))
            (cut pending (base + length (run pending base w.size)))
  unfolding pop range
  pop-Tracks w base pending t =
      let q =
        loop_lem base base w.size w.last_nonce w pending [] t.nonempty t.sized (omega arith) refl
          t.place t.low (λ n l h. t.slots n l h ∙ ground arith) in
      (
        q.next,
        q.returns,
        after_pop w base pending (run pending base w.size) _ t (length-run pending base w.size) q,
      )
