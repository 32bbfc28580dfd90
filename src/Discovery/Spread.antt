-- ===== src/Discovery/Spread.antt =====
-- How `FindNode` of network/discovery/rpc.go spreads its seeds over the lookups.
use native.Mathlib.Nat.{mod-eq_of_lt, mod-lt}
use noise.Discovery.Plugin.{spread, grow}
use noise.Peer.{PeerId}
use noise.Base.{
  List, length, ◌+◌, ◌++◌, ◌<◌, All, [], arith, done, refl, suc, ℕ, ◌∷◌, ◌≡◌, ◌≤◌, ◌%◌, All-append,
  All-get_elem?, Bool-cases, false, get_elem?_total, inl, inr, length-append, length-set, ltb,
  nat_beq, set, subst, sym, zero, ◌⊎◌,
}

-- The queues have at most `n` peers each.
abbrev pub Short : ℕ → List (List PeerId) → Type 0
Short n queues = All (λ q. length q ≤ n) queues

pub Short-mono : (m n : ℕ) (queues : List (List PeerId)) → m ≤ n → Short m queues → Short n queues
Short-mono m n [] l h = tt
Short-mono m n (q ∷ qs) l (s, h) = (omega (arith, l, s), Short-mono m n qs l h)

Short-set :
    (n i : ℕ) (queues : List (List PeerId)) (queue : List PeerId)
    → length queue ≤ n
    → Short n queues
    → Short n (set queues i queue)
Short-set n i [] queue l h = tt
Short-set n zero (q ∷ qs) queue l (s, h) = (l, h)
Short-set n (suc i) (q ∷ qs) queue l (s, h) = (s, Short-set n i qs queue l h)

Short-grow :
    (paths n : ℕ) (queues : List (List PeerId)) → Short n queues → Short n (grow paths queues)
unfolding grow
Short-grow paths n queues h = elim (Bool-cases (ltb (length queues) paths)) [
  | inl e ↦ rw e (All-append _ queues ([] ∷ []) h (omega arith, tt))
  | inr e ↦ rw e h
]

-- As many queues as peers came, but no more than the paths.
abbrev pub Grown : ℕ → ℕ → List (List PeerId) → Type 0
Grown paths i queues =
    (length queues ≤ i) × (length queues ≤ paths) × ((i ≤ length queues) ⊎ (paths ≤ length queues))

grow-Grown :
    (paths i : ℕ) (queues : List (List PeerId))
    → Grown paths i queues
    → Grown paths (i + 1) (grow paths queues)
unfolding grow
grow-Grown paths i queues g = elim (Bool-cases (ltb (length queues) paths)) [
  | inl e ↦ rw e (ground (arith, g, e, length-append queues ([] ∷ [])))
  | inr e ↦ rw e (ground (arith, g, e))
]

Grown-place :
    (paths i : ℕ) (queues : List (List PeerId))
    → 0 < paths
    → Grown paths (i + 1) queues
    → i % paths < length queues
Grown-place paths i queues p (a, b, inl c) =
    let below : i < paths = omega (arith, b, c) in
    let same : i % paths ≡ i = mod-eq_of_lt below in omega (arith, same, c)
Grown-place paths i queues p (a, b, inr c) = omega (arith, mod-lt i p, c)

pub spread-Short :
    (paths i n : ℕ) (ps : List PeerId) (queues : List (List PeerId))
    → 0 < paths
    → Grown paths i queues
    → Short n queues
    → (queues' : List (List PeerId)) × (spread paths i ps queues ≡ done queues')
      × Short (n + length ps) queues'
      × Grown paths (i + length ps) queues'
unfolding spread
spread-Short paths i n [] queues p g h = (
  queues,
  refl,
  Short-mono n (n + 0) queues (omega arith) h,
  subst (λ (k : ℕ). Grown paths k queues) (omega arith) g,
)
spread-Short paths i n (q ∷ ps) queues p g h =
    let more = grow paths queues in
    let g' = grow-Grown paths i queues g in
    let h' = Short-grow paths n queues h in
    let (queue, there) = get_elem?_total more (i % paths) (Grown-place paths i more p g') in
    let short : length queue ≤ n = All-get_elem? _ more (i % paths) queue h' there in
    let next = set more (i % paths) (queue ++ (q ∷ [])) in
    let longer =
      Short-set (n + 1) (i % paths) more (queue ++ (q ∷ []))
        (omega (arith, short, length-append queue (q ∷ [])))
        (Short-mono n (n + 1) more (omega arith) h') in
    let (queues', e, s, grown) =
      spread-Short paths (i + 1) (n + 1) ps next p
        (subst (λ (k : ℕ). (k ≤ i + 1) × (k ≤ paths) × ((i + 1 ≤ k) ⊎ (paths ≤ k)))
          (sym (length-set more (i % paths) (queue ++ (q ∷ [])))) g')
        longer in
    let z : nat_beq paths 0 ≡ false = ground (arith, p) in
    (
      queues',
      rw (z, there) e,
      Short-mono (n + 1 + length ps) (n + suc (length ps)) queues' (omega arith) s,
      subst (λ (k : ℕ). Grown paths k queues') (omega arith) grown,
    )
