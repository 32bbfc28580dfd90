-- ===== src/Address/Fresh.antt =====
-- network/utils.go, `FilterPeers`: lists of addresses without repeats.
use noise.Base.{
  Bytes, ◌&&◌, Bool, Bool-cases, List, [], arith, bytes_beq, bytes_beq_iff, false, if◌then◌else◌,
  inl, inr, not, refl, true, ◌||◌, ◌∷◌, ◌≡◌,
}

-- Whether an address is among those visited.
unfoldable pub seen : Bytes → List Bytes → Bool
seen a [] = false
seen a (b ∷ bs) = bytes_beq a b || seen a bs

-- A list without what was visited before and without repeats.
unfoldable pub fresh : List Bytes → List Bytes → List Bytes
unfolding seen
fresh visited [] = []
fresh visited (a ∷ rest) =
    if seen a visited then fresh visited rest else a ∷ fresh (a ∷ visited) rest

-- Each address is new where it stands.
unfoldable pub Fresh : List Bytes → List Bytes → Type 0
Fresh visited [] = Unit
Fresh visited (a ∷ rest) = (seen a visited ≡ false) × Fresh (a ∷ visited) rest

pub fresh-Fresh : (visited list : List Bytes) → Fresh visited (fresh visited list)
unfolding Fresh fresh
fresh-Fresh visited [] = tt
fresh-Fresh visited (a ∷ rest) = elim (Bool-cases (seen a visited)) [
  | inl old ↦ rw old (fresh-Fresh visited rest)
  | inr new ↦ rw new (new, fresh-Fresh (a ∷ visited) rest)
]

pub seen-one :
    (b own : Bytes) (t : Bool) → (t && not (seen b (own ∷ []))) ≡ (t && not (bytes_beq b own))
unfolding seen
seen-one b own t = elim (Bool-cases (bytes_beq b own)) [ inl e ↦ rw e refl | inr e ↦ rw e refl ]

pub seen-fresh :
    (b : Bytes) (visited list : List Bytes)
    → seen b (fresh visited list) ≡ (seen b list && not (seen b visited))
unfolding seen fresh
seen-fresh b visited [] = refl
seen-fresh b visited (a ∷ rest) = elim (Bool-cases (seen a visited)) [
  | inl old ↦ elim (Bool-cases (bytes_beq b a)) [
    | inl e ↦
        let v : seen b visited ≡ true = rw ((bytes_beq_iff b a).0 e) old in
        rw (old, seen-fresh b visited rest, v) ground arith
    | inr e ↦ rw (old, seen-fresh b visited rest, e) refl
  ]
  | inr new ↦ elim (Bool-cases (bytes_beq b a)) [
    | inl e ↦
        let v : seen b visited ≡ false = rw ((bytes_beq_iff b a).0 e) new in rw (new, e, v) refl
    | inr e ↦ rw (new, seen-fresh b (a ∷ visited) rest, e) refl
  ]
]
