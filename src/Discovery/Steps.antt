-- ===== src/Discovery/Steps.antt =====
-- The steps of `performLookup` of network/discovery/rpc.go.
use noise.Base.{List, ◌≡◌, refl, ap, inl, inr, true, false, ℕ, suc, zero, some, [], ◌∷◌, none, ◌⊎◌}
use noise.Discovery.{Lookup, visits, add_found, expand, pull, search, search_round}
use noise.Peer.{PeerId, public_key_hex}

pub expand-old :
    (s : Lookup) (p : PeerId) (ps : List PeerId)
    → visits (public_key_hex p) s.visited ≡ true
    → expand s (p ∷ ps) ≡ expand s ps
unfolding expand
expand-old s p ps old = rw old refl

pub expand-new :
    (s : Lookup) (p : PeerId) (ps : List PeerId)
    → visits (public_key_hex p) s.visited ≡ false
    → expand s (p ∷ ps) ≡ expand (add_found s p) ps
unfolding expand
expand-new s p ps new = rw new refl

pub flying-cases : (l : List PeerId) → (l ≡ []) ⊎ ((p : PeerId) × (ps : List PeerId) × (l ≡ p ∷ ps))
flying-cases [] = inl refl
flying-cases (p ∷ ps) = inr (p, ps, refl)

module _ (alpha : ℕ) (pick : ℕ → ℕ) (ask : ℕ → PeerId → List PeerId) where
  pub search-nil : (fuel : ℕ) (s : Lookup) → s.flying ≡ [] → search alpha pick ask fuel s ≡ some s
  unfolding search
  search-nil zero s e = ap (λ l. elim l [ [] ↦ some s | p ∷ ps ↦ none ]) e
  search-nil (suc n) s e =
      ap
        (λ l. elim l [
          | [] ↦ some s
          | p ∷ ps ↦
              search alpha pick ask n
                (search_round alpha s (pull (pick n) p ps).1 (ask n (pull (pick n) p ps).0))
        ])
        e

  pub search-cons :
      (n : ℕ) (s : Lookup) (p : PeerId) (ps : List PeerId)
      → s.flying ≡ p ∷ ps
      → search alpha pick ask (suc n) s
        ≡ search alpha pick ask n
            (search_round alpha s (pull (pick n) p ps).1 (ask n (pull (pick n) p ps).0))
  unfolding search
  search-cons n s p ps e = rw (e, search) refl
