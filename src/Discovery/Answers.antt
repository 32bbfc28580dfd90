-- ===== src/Discovery/Answers.antt =====
-- What `FindNode` of network/discovery/rpc.go returns: identities of the routing table and of responses.
use noise.Dht.Members.{All-members, table_pair}
use noise.Dht.Nearest.{find_closest_peers-Nearest}
use noise.Dht.Table.{IsRouting}
use native.Mathlib.Decide.{ℕ_discrete}
use noise.Base.{
  ap, min, ◌-◌, Bytes, List, Option, Option-cases, Outcome, ◌+◌, ◌++◌, ◌≡◌, ◌∷◌, ◌%◌, All,
  All-append, All-get_elem?, All-take, Bool, Bool-cases, [], arith, done, get_elem?, inl, inr,
  length, ltb, nat_beq, set, some, subst, suc, take, zero, ℕ, >>=-eq-done, sym, ◌∙◌,
}
use noise.Dht.{RoutingTable, bucket_size, find_closest_peers}
use noise.Discovery.Origin.{Answers, perform_lookup-Pure}
use noise.Discovery.Plugin.{Run, find_node, grow, nearer, perform_all, spread, visit_all, wait_done}
use noise.Discovery.{perform_lookup}
use noise.Discovery.Whole.{Reorders}
use noise.Peer.{PeerId, IsBytes}

-- A sort returns what it is given.
pub record Sorts (sort_slice : (PeerId → PeerId → Bool) → List PeerId → List PeerId) : Type 1 where
  pub keeps :
      (Q : PeerId → Type 0) (less : PeerId → PeerId → Bool) (ps : List PeerId)
      → All Q ps
      → All Q (sort_slice less ps)

abbrev found_list : List PeerId → Outcome (List PeerId)
found_list peers = done peers

abbrev found_these : List PeerId → Outcome (Option (List PeerId))
found_these peers = done (some peers)

module _ (P : PeerId → Type 0) where
  grow-All :
      (paths : ℕ) (queues : List (List PeerId))
      → All (All P) queues
      → All (All P) (grow paths queues)
  unfolding grow
  grow-All paths queues h = elim (Bool-cases (ltb (length queues) paths)) [
    | inl e ↦ rw e (All-append (All P) queues ([] ∷ []) h (tt, tt))
    | inr e ↦ rw e h
  ]

  set-All :
      (i : ℕ) (queues : List (List PeerId)) (queue : List PeerId)
      → All P queue
      → All (All P) queues
      → All (All P) (set queues i queue)
  set-All i [] queue q h = tt
  set-All zero (x ∷ xs) queue q (h, hs) = (q, hs)
  set-All (suc i) (x ∷ xs) queue q (h, hs) = (h, set-All i xs queue q hs)

  spread-All :
      (paths i : ℕ) (ps : List PeerId) (queues out : List (List PeerId))
      → All P ps
      → All (All P) queues
      → spread paths i ps queues ≡ done out
      → All (All P) out
  unfolding spread
  spread-All paths i [] queues out h q e = subst (All (All P)) (cc) q
  spread-All paths i (p ∷ ps) queues out (h, hs) q e =
      let queues' = grow paths queues in
      let q' = grow-All paths queues q in
      elim (Bool-cases (nat_beq paths 0)) [
        | inl bad ↦ absurd (ground (arith, bad, e))
        | inr good ↦ elim (Option-cases (get_elem? queues' (i % paths))) [
          | inl missing ↦ absurd (ground (arith, good, missing, e))
          | inr (queue, there) ↦
              spread-All paths (i + 1) ps (set queues' (i % paths) (queue ++ (p ∷ []))) out hs
                (set-All (i % paths) queues' (queue ++ (p ∷ []))
                  (All-append P queue (p ∷ [])
                    (All-get_elem? (All P) queues' (i % paths) queue q' there) (h, tt))
                  q')
                (ground (arith, good, there, e))
        ]
      ]

  perform_all-All :
      (alpha : ℕ) (runs : ℕ → Run) (left counter : ℕ) (queues : List (List PeerId))
      (results found : List PeerId) (visited : List Bytes)
      → ((i : ℕ) → Answers P (runs i).ask)
      → All (All P) queues
      → All P results
      → perform_all alpha runs left counter queues results visited ≡ done (some found)
      → All P found
  unfolding perform_all
  perform_all-All alpha runs left counter [] results found visited a q r e =
      elim (Bool-cases (nat_beq (counter + left) 0)) [
        | inl settled ↦
            let out : found_these results ≡ found_these found = ground (arith, settled, e) in
            subst (All P) (cc) r
        | inr waits ↦ absurd (ground (arith, waits, e))
      ]
  perform_all-All alpha runs left counter (queue ∷ queues) results found visited a (q, qs) r e =
      elim (Option-cases
        (perform_lookup alpha (runs 0).pick (runs 0).ask (runs 0).fuel queue visited)) [
          | inl stuck ↦ absurd (ground (arith, stuck, e))
          | inr (s, ends) ↦
              let v =
                perform_lookup-Pure P alpha (runs 0).pick (runs 0).ask (runs 0).fuel queue visited s
                  (a 0) q ends in
              let added = min (runs 0).adds left in
              let (counter', d, e') =
                >>=-eq-done (wait_done (counter + added))
                  (λ c.
                    perform_all alpha (λ i. runs (suc i)) (left - added) c queues
                      (results ++ s.results) s.visited)
                  (some found) (ground (arith, ends, e)) in
              perform_all-All alpha (λ i. runs (suc i)) (left - added) counter' queues
                (results ++ s.results) found s.visited (λ i. a (suc i)) qs
                (All-append P results s.results r v.results) e'
        ]

  -- What FindNode returns comes from its seeds and the responses.
  pub find_node-All :
      (sort_slice : (PeerId → PeerId → Bool) → List PeerId → List PeerId)
      (order : List (List PeerId) → List (List PeerId)) (runs : ℕ → Run) (t : RoutingTable)
      (target : PeerId) (alpha paths : ℕ) (peers : List PeerId)
      → Sorts sort_slice
      → Reorders order
      → ((i : ℕ) → Answers P (runs i).ask)
      → ((seeds : List PeerId) → find_closest_peers t target alpha ≡ done seeds → All P seeds)
      → find_node sort_slice order runs t target alpha paths ≡ done (some peers)
      → All P peers
  unfolding find_node
  find_node-All sort_slice order runs t target alpha paths peers so o a from e =
      let (seeds, s1, e1) = >>=-eq-done (find_closest_peers t target alpha) _ (some peers) e in
      let (queues, s2, e2) = >>=-eq-done (spread paths 0 seeds []) _ (some peers) e1 in
      let q = spread-All paths 0 seeds [] queues (from seeds s1) tt s2 in
      let (ends, r, e3) =
        >>=-eq-done
          (perform_all alpha runs (length queues) 0 (order queues) seeds (visit_all seeds [])) _
          (some peers) e2 in
      elim (Option-cases ends) [
        | inl stuck ↦ absurd (ground (arith, stuck, e3))
        | inr (results, these) ↦
            let all =
              perform_all-All alpha runs (length queues) 0 (order queues) seeds results
                (visit_all seeds []) a (o.keeps (All P) queues q) (from seeds s1)
                (r ∙ ap (λ (x : Option (List PeerId)). done x) these) in
            let out : done (some (take bucket_size (sort_slice (nearer target) results)))
                ≡ found_these peers =
              ground (arith, these, e3) in
            subst (All P) (cc) (
              All-take P bucket_size (sort_slice (nearer target) results)
                (so.keeps P (nearer target) results all))
      ]

-- The seeds of a search are identities of bytes.
pub seeds-AllBytes :
    (t : RoutingTable) (target : PeerId) (count : ℕ) (seeds : List PeerId)
    → IsRouting t
    → IsBytes target.id
    → find_closest_peers t target count ≡ done seeds
    → All (λ p. IsBytes p.id) seeds
unfolding find_closest_peers
seeds-AllBytes t target count seeds v h e =
    elim (ℕ_discrete (length t.self.id) (length target.id)) [
      | no ne ↦
          let empty : found_list [] ≡ found_list seeds = ground (arith, ne, e) in
          let same : [] ≡ seeds = cc in subst (All (λ p. IsBytes p.id)) same tt
      | yes same ↦
          let (peers, f, n) =
            find_closest_peers-Nearest t target count v
              (record { same_length = sym same; left_bytes = h; right_bytes = v.self_bytes }) in
          let eq : found_list peers ≡ found_list seeds = sym f ∙ e in
          let these : peers ≡ seeds = cc in
          subst (All (λ p. IsBytes p.id)) these (
            All-members (λ p. IsBytes p.id) peers
              (λ q k. (table_pair t q v (n.known q k)).left_bytes))
    ]
