-- ===== src/Dht/Closest.antt =====
-- `FindClosestPeers`: the widening search, and the sort by distance.
use native.Mathlib.Decide.{dec_lt}
use noise.Dht.Bucket.{has_peer-append}
use noise.Peer.{PeerId}
use noise.Base.{
  ◌*◌, ◌+◌, ◌++◌, ◌-◌, ◌<◌, Bool, Bool-cases, List, [], arith, done, false, get_elem?,
  get_elem?_total, if◌then◌else◌, inl, inr, leb, length, lt_of_get_elem?, ltb, refl, some, suc,
  true, zero, ◌||◌, ℕ, ◌∷◌, ◌≡◌, ◌≤◌, ◌&&◌, subst, ◌⊎◌, ◌∙◌,
}
use noise.Dht.{RoutingTable, PeerId, append_bucket, widen_once, has_peer, widen}

-- Whether some bucket holds a peer.
pub has_any : PeerId → List (List PeerId) → Bool
has_any q [] = false
has_any q (b ∷ bs) = has_peer q b || has_any q bs

pub has_any_of :
    (q : PeerId) (bs : List (List PeerId)) (j : ℕ) (b : List PeerId)
    → get_elem? bs j ≡ some b
    → has_peer q b ≡ true
    → has_any q bs ≡ true
unfolding has_any
has_any_of q [] j b e h = absurd (ground arith)
has_any_of q (c ∷ bs) zero b e h = let same : c ≡ b = cc in ground arith
has_any_of q (c ∷ bs) (suc j) b e h = ground (arith, has_any_of q bs j b e h)

pub some_bucket :
    (q : PeerId) (bs : List (List PeerId))
    → has_any q bs ≡ true
    → (j : ℕ) × (b : List PeerId) × (get_elem? bs j ≡ some b) × (has_peer q b ≡ true)
unfolding has_any
some_bucket q [] h = absurd (ground arith)
some_bucket q (c ∷ bs) h = elim (Bool-cases (has_peer q c)) [
  | inl here ↦ (0, c, refl, here)
  | inr not_here ↦ let (j, b, e, k) = some_bucket q bs (ground arith) in (suc j, b, e, k)
]

-- Everything collected is in the table.
abbrev pub IsSound : RoutingTable → List PeerId → Type 0
IsSound t ps = (q : PeerId) → has_peer q ps ≡ true → has_any q t.buckets ≡ true

-- Everything in the buckets at a distance below `i` from bucket `c` is collected.
abbrev pub Covers : RoutingTable → ℕ → ℕ → List PeerId → Type 0
Covers t c i ps =
    (q : PeerId) (j : ℕ) (b : List PeerId)
    → j < c + i
    → c < j + i
    → get_elem? t.buckets j ≡ some b
    → has_peer q b ≡ true
    → has_peer q ps ≡ true

-- Everything in the table is collected.
abbrev pub IsComplete : RoutingTable → List PeerId → Type 0
IsComplete t ps = (q : PeerId) → has_any q t.buckets ≡ true → has_peer q ps ≡ true

place :
    (c i j : ℕ)
    → j < c + suc i
    → c < j + suc i
    → (j ≡ c + i) ⊎ (((i ≤ c) × (j ≡ c - i)) ⊎ ((j < c + i) × (c < j + i)))
place c i j u v = elim (dec_lt j (c + i)) [
  | yes lo ↦ elim (dec_lt c (j + i)) [
    | yes hi ↦ inr (inr (lo, hi))
    | no hi ↦ inr (inl (omega arith, omega arith))
  ]
  | no lo ↦ inl (omega arith)
]

append_bucket_lem :
    (t : RoutingTable) (j : ℕ) (ps : List PeerId)
    → j < length t.buckets
    → (b : List PeerId) × (get_elem? t.buckets j ≡ some b) × (append_bucket t j ps ≡ done (ps ++ b))
unfolding append_bucket
append_bucket_lem t j ps h = let (b, e) = get_elem?_total t.buckets j h in (b, e, ground (arith, e))

append-IsSound :
    (t : RoutingTable) (j : ℕ) (ps b : List PeerId)
    → get_elem? t.buckets j ≡ some b
    → IsSound t ps
    → IsSound t (ps ++ b)
append-IsSound t j ps b e s q h =
    ground (arith, has_peer-append q ps b, s q, has_any_of q t.buckets j b e)

module _ (t : RoutingTable) (c : ℕ) (size : length t.buckets ≡ length t.self.id * 8)
    (low : c < length t.buckets) where
  left_step :
      (i : ℕ) (ps : List PeerId)
      → 1 ≤ i
      → IsSound t ps
      → (r : List PeerId) × ((if leb i c then append_bucket t (c - i) ps else done ps) ≡ done r)
        × IsSound t r
        × ((q : PeerId) → has_peer q ps ≡ true → has_peer q r ≡ true)
        × ((q : PeerId) (b : List PeerId)
            → i ≤ c
            → get_elem? t.buckets (c - i) ≡ some b
            → has_peer q b ≡ true
            → has_peer q r ≡ true)
  left_step i ps one s = elim (Bool-cases (leb i c)) [
    | inl there ↦
        let (b, e, a) = append_bucket_lem t (c - i) ps (omega (arith, low)) in
        (
          ps ++ b,
          rw there a,
          append-IsSound t (c - i) ps b e s,
          (λ q h. ground (arith, has_peer-append q ps b)),
          λ q b' _ e' h. let same : b ≡ b' = cc in ground (arith, has_peer-append q ps b),
        )
    | inr out ↦ (ps, rw out, s, (λ q h. h), λ q b' le _ _. absurd (ground arith))
  ]

  right_step :
      (i : ℕ) (ps : List PeerId)
      → IsSound t ps
      → (r : List PeerId) × ((if ltb (c + i) (length t.self.id * 8)
            then append_bucket t (c + i) ps
            else done ps)
          ≡ done r)
        × IsSound t r
        × ((q : PeerId) → has_peer q ps ≡ true → has_peer q r ≡ true)
        × ((q : PeerId) (b : List PeerId)
            → get_elem? t.buckets (c + i) ≡ some b
            → has_peer q b ≡ true
            → has_peer q r ≡ true)
  right_step i ps s = elim (Bool-cases (ltb (c + i) (length t.self.id * 8))) [
    | inl there ↦
        let (b, e, a) = append_bucket_lem t (c + i) ps (ground (arith, size)) in
        (
          ps ++ b,
          rw there a,
          append-IsSound t (c + i) ps b e s,
          (λ q h. ground (arith, has_peer-append q ps b)),
          λ q b' e' h. let same : b ≡ b' = cc in ground (arith, has_peer-append q ps b),
        )
    | inr out ↦ (
      ps,
      rw out,
      s,
      (λ q h. h),
      λ q b' e' _. absurd (ground (arith, size, lt_of_get_elem? t.buckets (c + i) b' e')),
    )
  ]

  -- Where no bucket is left on either side, everything is covered.
  all_covered :
      (i : ℕ) (ps : List PeerId)
      → c < i
      → length t.buckets ≤ c + i
      → Covers t c i ps
      → IsComplete t ps
  all_covered i ps lo hi cov q h =
      let (j, b, e, k) = some_bucket q t.buckets h in
      let inside = lt_of_get_elem? t.buckets j b e in
      cov q j b (omega (arith, inside)) (omega (arith, inside)) e k

  -- One round covers one more bucket on each side.
  widen_once_lem :
      (i : ℕ) (ps : List PeerId)
      → 1 ≤ i
      → IsSound t ps
      → Covers t c i ps
      → (r : List PeerId) × (widen_once t c i ps ≡ done r) × IsSound t r × Covers t c (suc i) r
  unfolding widen_once
  widen_once_lem i ps one s cov =
      let (l, el, sl, kl, hl) = left_step i ps one s in
      let (r, er, sr, kr, hr) = right_step i l sl in
      (
        r,
        rw (el, er),
        sr,
        λ q j b u v e h. elim (place c i j u v) [
          | inl right ↦ hr q b (subst (λ k. get_elem? t.buckets k ≡ some b) right e) h
          | inr (inl (le, left)) ↦
              kr q (hl q b le (subst (λ k. get_elem? t.buckets k ≡ some b) left e) h)
          | inr (inr (lo, hi)) ↦ kr q (kl q (cov q j b lo hi e h))
        ],
      )

  widen_more :
      (fuel i count : ℕ) (ps r : List PeerId)
      → (ltb (length ps) count && (leb i c || ltb (c + i) (length t.self.id * 8))) ≡ true
      → widen_once t c i ps ≡ done r
      → widen (suc fuel) t c i count ps ≡ widen fuel t c (suc i) count r
  unfolding widen
  widen_more fuel i count ps r h e = rw (h, widen) (rw e)

  widen_stop :
      (fuel i count : ℕ) (ps : List PeerId)
      → (ltb (length ps) count && (leb i c || ltb (c + i) (length t.self.id * 8))) ≡ false
      → widen (suc fuel) t c i count ps ≡ done ps
  unfolding widen
  widen_stop fuel i count ps h = rw (h, widen)

  -- The loop ends with `count` peers or with every peer, if the fuel reaches the last bucket.
  pub widen_lem :
      (fuel i count : ℕ) (ps : List PeerId)
      → 1 ≤ i
      → length t.buckets ≤ fuel + i
      → IsSound t ps
      → Covers t c i ps
      → (r : List PeerId) × (widen fuel t c i count ps ≡ done r)
        × IsSound t r
        × ((count ≤ length r) ⊎ IsComplete t r)
        × (reach : ℕ) × (i ≤ reach)
        × Covers t c reach r
  unfolding widen
  widen_lem zero i count ps one f s cov =
      (ps, refl, s, inr (all_covered i ps (omega arith) (omega arith) cov), i, omega arith, cov)
  widen_lem (suc fuel) i count ps one f s cov =
      elim (Bool-cases (ltb (length ps) count && (leb i c || ltb (c + i) (length t.self.id * 8)))) [
        | inl more ↦
            let (r, e, sr, cr) = widen_once_lem i ps one s cov in
            let (r', e', sr', end, reach, more_reach, covers) =
              widen_lem fuel (suc i) count r (omega arith) (omega arith) sr cr in
            (
              r',
              widen_more fuel i count ps r more e ∙ e',
              sr',
              end,
              reach,
              omega (arith, more_reach),
              covers,
            )
        | inr stop ↦ (
          ps,
          widen_stop fuel i count ps stop,
          s,
          elim (dec_lt (length ps) count) [
            | yes short ↦ inr (all_covered i ps (ground (arith, size)) (ground (arith, size)) cov)
            | no long ↦ inl (omega arith)
          ],
          i,
          omega arith,
          cov,
        )
      ]
