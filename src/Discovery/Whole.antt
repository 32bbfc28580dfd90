-- ===== src/Discovery/Whole.antt =====
-- `FindNode` of network/discovery/rpc.go as a whole.
use noise.Dht.Nearest.{find_closest_peers-Nearest}
use native.Mathlib.Decide.{dec_lt, ℕ_discrete}
use noise.Discovery.Spread.{Grown, Short, Short-mono, spread-Short}
use noise.Dht.Table.{IsRouting}
use noise.Dht.{find_closest_peers, RoutingTable, bucket_size}
use noise.Discovery.Ends.{Within, perform_lookup-ends}
use noise.Discovery.Plugin.{Run, perform_all, find_node, visit_all, nearer, wait_done}
use noise.Peer.{PeerId, IsBytes}
use noise.Base.{
  Bool, Bytes, List, Option, Outcome, length, ◌+◌, ◌-◌, ◌++◌, ◌<◌, All, [], arith, done, inl, inr,
  length-take, min, nat_beq, panic, refl, some, subst, suc, sym, take, true, zero, ℕ, ◌>>=◌, ◌∙◌,
  ◌∷◌, ◌≡◌, ◌≤◌, ◌⊎◌,
}

-- Every run answers within some keys, and has fuel for queues of `n` peers.
pub record Enough (runs : ℕ → Run) (n : ℕ) (keys : List Bytes) : Type 0 where
  pub within : (i m : ℕ) (p : PeerId) → Within keys ((runs i).ask m p)
  pub fuelled : (i : ℕ) → n + length keys ≤ (runs i).fuel

-- The calls of `wait.Add(1)` before the first `n` lookups have all called `wait.Done()`.
unfoldable pub adds_upto : (ℕ → Run) → ℕ → ℕ
adds_upto runs zero = 0
adds_upto runs (suc n) = (runs 0).adds + adds_upto (λ i. runs (suc i)) n

-- Each of `n` lookups calls `wait.Done()` after more calls of `wait.Add(1)` than lookups ended before
-- it, where the counter starts at `counter`.
abbrev pub InTime : ℕ → (ℕ → Run) → ℕ → Type 0
InTime counter runs n = (i : ℕ) → i < n → i < counter + adds_upto runs (suc i)

-- One of them does not.
abbrev pub Early : ℕ → (ℕ → Run) → ℕ → Type 0
Early counter runs n = (i : ℕ) × (i < n) × (counter + adds_upto runs (suc i) ≤ i)

counted :
    (counter a left n : ℕ)
    → counter + left ≡ suc n
    → 0 < counter + a
    → (c : ℕ) × (counter + min a left ≡ suc c)
      × (c + (left - min a left) ≡ n)
      × (suc c ≤ counter + a)
      × ((suc c ≡ counter + a) ⊎ (c ≡ n))
counted counter a left n e p = (
  counter + min a left - 1,
  ground arith,
  ground arith,
  ground arith,
  elim (dec_lt left a) [ yes more ↦ inr (ground arith) | no fewer ↦ inl (ground arith) ],
)

later :
    (runs : ℕ → Run) (counter c n : ℕ)
    → 0 < counter + (runs 0).adds
    → suc c ≤ counter + (runs 0).adds
    → InTime c (λ i. runs (suc i)) n
    → InTime counter runs (suc n)
unfolding adds_upto
later runs counter c n first most t zero l = omega arith
later runs counter c n first most t (suc i) l = omega (arith, t i)

perform_all-settles :
    (alpha n : ℕ) (keys : List Bytes) (runs : ℕ → Run) (left counter : ℕ)
    (queues : List (List PeerId)) (results : List PeerId) (visited : List Bytes)
    → Enough runs n keys
    → Short n queues
    → counter + left ≡ length queues
    → (InTime counter runs (length queues)
        × (found : List PeerId) × (perform_all alpha runs left counter queues results visited
            ≡ done (some found)))
      ⊎ (Early counter runs (length queues)
          × (perform_all alpha runs left counter queues results visited ≡ panic))
unfolding perform_all adds_upto wait_done
perform_all-settles alpha n keys runs left counter [] results visited g h z =
    let zero' : nat_beq (counter + left) 0 ≡ true = ground (arith, z) in
    inl (λ i l. absurd (omega arith), results, rw zero' refl)
perform_all-settles alpha n keys runs left counter (q ∷ qs) results visited g (short, h) z =
    let r = runs 0 in
    let (s, e) =
      perform_lookup-ends alpha r.pick r.ask r.fuel q visited keys (g.within 0)
        (omega (arith, g.fuelled 0, short)) in
    elim (dec_lt 0 (counter + r.adds)) [
      | no early ↦
          let none_yet : counter + min r.adds left ≡ 0 = ground arith in
          inr ((0, omega arith, omega arith), rw (e, perform_all, none_yet) refl)
      | yes in_time ↦
          let (c, up, total, most, exact) = counted counter r.adds left (length qs) z in_time in
          let went : perform_all alpha runs left counter (q ∷ qs) results visited
              ≡ perform_all alpha (λ i. runs (suc i)) (left - min r.adds left) c qs
                  (results ++ s.results) s.visited =
            rw (e, perform_all, up) refl in
          elim (perform_all-settles alpha n keys (λ i. runs (suc i)) (left - min r.adds left) c qs
            (results ++ s.results) s.visited
            (record { within = λ i. g.within (suc i); fuelled = λ i. g.fuelled (suc i) }) h total) [
              | inl (timely, found, f) ↦
                  inl (later runs counter c (length qs) in_time most timely, found, went ∙ f)
              | inr ((i, l, early), f) ↦ inr ((suc i, omega arith, omega arith), went ∙ f)
            ]
    ]

-- The order in which the lookups get the mutex has the queues that there are.
pub record Reorders (order : List (List PeerId) → List (List PeerId)) : Type 1 where
  pub keeps :
      (Q : List PeerId → Type 0) (queues : List (List PeerId)) → All Q queues → All Q (order queues)
  pub same_length : (queues : List (List PeerId)) → length (order queues) ≡ length queues

-- A target of another key length has no seeds.
seeds-answer :
    (t : RoutingTable) (target : PeerId) (count : ℕ)
    → IsRouting t
    → IsBytes target.id
    → (seeds : List PeerId) × (find_closest_peers t target count ≡ done seeds)
      × (length seeds ≤ count)
unfolding find_closest_peers
seeds-answer t target count v h = elim (ℕ_discrete (length t.self.id) (length target.id)) [
  | yes e ↦
      let (peers, f, n) =
        find_closest_peers-Nearest t target count v
          (record { same_length = sym e; left_bytes = h; right_bytes = v.self_bytes }) in
      (peers, f, n.short)
  | no ne ↦ ([], ground (arith, ne), omega arith)
]

-- What FindNode with `n` lookups comes to: each calls `wait.Done()` in time, and it returns at most
-- BucketSize peers; or one does so too early, and it panics.
abbrev pub Settled : (ℕ → Run) → ℕ → Outcome (Option (List PeerId)) → Type 0
Settled runs n o =
    (InTime 0 runs n
      × (peers : List PeerId) × (o ≡ done (some peers))
      × (length peers ≤ bucket_size))
    ⊎ (Early 0 runs n × (o ≡ panic))

how_many :
    (paths i : ℕ) (queues : List (List PeerId)) → Grown paths i queues → length queues ≡ min paths i
how_many paths i queues (a, b, inl c) = ground arith
how_many paths i queues (a, b, inr c) = ground arith

-- On a well-formed routing table, for a target whose key is bytes, at least one path, and
-- responses that hold only keys of a list, with fuel for alpha and the keys of the list, FindNode
-- has as many lookups as paths, or as closest peers where these are fewer. Whatever the order of
-- the queries and of the lookups and whatever the sort does, either each lookup that ends calls
-- Done after more calls of Add than lookups ended before it, and then FindNode returns at most
-- BucketSize peers; or one does not, and then it panics.
pub find_node-returns :
    (sort_slice : (PeerId → PeerId → Bool) → List PeerId → List PeerId)
    (order : List (List PeerId) → List (List PeerId)) (runs : ℕ → Run) (t : RoutingTable)
    (target : PeerId) (alpha paths : ℕ) (keys : List Bytes)
    → IsRouting t
    → IsBytes target.id
    → 0 < paths
    → Reorders order
    → Enough runs alpha keys
    → (seeds : List PeerId) × (find_closest_peers t target alpha ≡ done seeds)
      × Settled runs
          (min paths (length seeds))
          (find_node sort_slice order runs t target alpha paths)
unfolding find_node
find_node-returns sort_slice order runs t target alpha paths keys v h p o g =
    let (seeds, e, short) = seeds-answer t target alpha v h in
    let (queues, f, q, grown) =
      spread-Short paths 0 0 seeds [] p (omega arith, omega arith, inl (omega arith)) tt in
    let lookups : length (order queues) ≡ min paths (length seeds) =
      o.same_length queues
      ∙ how_many paths (length seeds) queues
          (subst (λ (k : ℕ). Grown paths k queues) (omega arith) grown) in
    let found =
      perform_all-settles alpha alpha keys runs (length queues) 0 (order queues) seeds
        (visit_all seeds []) g
        (o.keeps (λ q. length q ≤ alpha) queues
          (Short-mono (0 + length seeds) alpha queues (omega (arith, short)) q))
        (omega (arith, o.same_length queues)) in
    (
      seeds,
      e,
      elim found [
        | inl (timely, results, r) ↦
            let out = sort_slice (nearer target) results in
            inl (
              subst (InTime 0 runs) lookups timely,
              take bucket_size out,
              rw (e, ◌>>=◌, f, r) refl,
              omega (arith, length-take bucket_size out),
            )
        | inr (early, r) ↦ inr (subst (Early 0 runs) lookups early, rw (e, ◌>>=◌, f, r) refl)
      ],
    )
