-- ===== src/Dht/Bucket.antt =====
-- One bucket: moving an entry to the front, adding and removing entries.
use noise.Peer.{PeerId, equals}
use noise.Base.{
  All, List, [], arith, bytes_beq_iff, false, length, none, refl, some, true, ◌||◌, ◌∷◌, ◌≡◌, ◌++◌,
  Bool-cases, ap, inl, inr, ◌+◌, All-append, Option, ◌≤◌, ◌⊎◌, Any,
}
use noise.Dht.{PeerId, equals, take_out, has_peer, bucket_size}

-- No two entries are the same peer.
abbrev pub Distinct : List PeerId → Type 0
Distinct [] = Unit {0}
Distinct (p ∷ ps) = All (λ q. equals q p ≡ false) ps × Distinct ps

pub equals_sym : (p q : PeerId) → equals p q ≡ equals q p
unfolding equals
equals_sym p q = ground (arith, bytes_beq_iff p.id q.id, bytes_beq_iff q.id p.id)

pub equals_congr : (p q r : PeerId) → equals p q ≡ true → equals p r ≡ equals q r
unfolding equals
equals_congr p q r h = let e : p.id ≡ q.id = (bytes_beq_iff p.id q.id).0 h in rw e

pub All-has_peer :
    (p : PeerId) (b : List PeerId) → All (λ q. equals q p ≡ false) b → has_peer p b ≡ false
unfolding has_peer
All-has_peer p [] h = refl
All-has_peer p (e ∷ es) h = rw (h.0, All-has_peer p es h.1)

pub has_peer-All :
    (p : PeerId) (b : List PeerId) → has_peer p b ≡ false → All (λ q. equals q p ≡ false) b
unfolding has_peer
has_peer-All p [] h = tt
has_peer-All p (e ∷ es) h = (ground arith, has_peer-All p es (ground arith))

pub has_peer-Any :
    (p : PeerId) (b : List PeerId) → has_peer p b ≡ true → Any (λ q. equals q p ≡ true) b
unfolding has_peer
has_peer-Any p [] h = absurd (ground arith)
has_peer-Any p (e ∷ es) h = elim (Bool-cases (equals e p)) [
  | inl hit ↦ inl hit
  | inr miss ↦ inr (has_peer-Any p es (ground arith))
]

pub Any-has_peer :
    (p : PeerId) (b : List PeerId) → Any (λ q. equals q p ≡ true) b → has_peer p b ≡ true
unfolding has_peer
Any-has_peer p [] h = elim h [ ]
Any-has_peer p (e ∷ es) (inl hit) = ground arith
Any-has_peer p (e ∷ es) (inr later) = ground (arith, Any-has_peer p es later)

-- A bucket split at the entry found.
pub record Split (t : PeerId) (b : List PeerId) (x : PeerId) (rest : List PeerId) : Type 0 where
  pub before : List PeerId
  pub after : List PeerId
  pub whole : b ≡ before ++ (x ∷ after)
  pub others : rest ≡ before ++ after
  pub found : equals x t ≡ true
  pub first : has_peer t before ≡ false

Split-cons :
    (t e x : PeerId) (es rest : List PeerId)
    → equals e t ≡ false
    → Split t es x rest
    → Split t (e ∷ es) x (e ∷ rest)
unfolding has_peer
Split-cons t e x es rest h s = record {
  before = e ∷ s.before;
  after = s.after;
  whole = ap (◌∷◌ e) s.whole;
  others = ap (◌∷◌ e) s.others;
  found = s.found;
  first = rw (h, s.first);
}

-- What the search loop comes to: it finds no such peer, or the first one.
abbrev pub Found : PeerId → List PeerId → Option (PeerId × List PeerId) → Type 0
Found t b r =
    ((r ≡ none) × (has_peer t b ≡ false))
    ⊎ ((x : PeerId) × (rest : List PeerId) × (r ≡ some (x, rest)) × Split t b x rest)

pub take_out-Found : (t : PeerId) (b : List PeerId) → Found t b (take_out t b)
unfolding take_out has_peer
take_out-Found t [] = inl (refl, refl)
take_out-Found t (e ∷ es) = elim (Bool-cases (equals e t)) [
  | inl hit ↦ inr (
    e,
    es,
    rw hit,
    record { before = []; after = es; whole = refl; others = refl; found = hit; first = refl },
  )
  | inr miss ↦ elim (take_out-Found t es) [
    | inl (none_left, absent) ↦ inl (rw (miss, none_left), rw (miss, absent))
    | inr (x, rest, e', s) ↦ inr (x, e ∷ rest, rw (miss, e'), Split-cons t e x es rest miss s)
  ]
]

pub has_peer-append :
    (q : PeerId) (xs ys : List PeerId) → has_peer q (xs ++ ys) ≡ (has_peer q xs || has_peer q ys)
unfolding has_peer
has_peer-append q [] ys = refl
has_peer-append q (x ∷ xs) ys = ground (arith, has_peer-append q xs ys)

pub has_peer_congr :
    (p q : PeerId) (b : List PeerId) → equals p q ≡ true → has_peer p b ≡ has_peer q b
unfolding has_peer
has_peer_congr p q [] h = refl
has_peer_congr p q (e ∷ es) h =
    cc (equals_sym e p, equals_sym e q, equals_congr p q e h, has_peer_congr p q es h)

pub All-append_inv :
    (P : PeerId → Type 0) (xs ys : List PeerId) → All P (xs ++ ys) → All P xs × All P ys
All-append_inv P [] ys h = (tt, h)
All-append_inv P (x ∷ xs) ys h = let (l, r) = All-append_inv P xs ys h.1 in ((h.0, l), r)

pub Distinct-append_inv :
    (xs : List PeerId) (x : PeerId) (ys : List PeerId)
    → Distinct (xs ++ (x ∷ ys))
    → (has_peer x xs ≡ false) × (has_peer x ys ≡ false) × Distinct (xs ++ ys)
unfolding has_peer
Distinct-append_inv [] x ys d = (refl, All-has_peer x ys d.0, d.1)
Distinct-append_inv (z ∷ zs) x ys d =
    let (a, b, c) = Distinct-append_inv zs x ys d.1 in
    let (l, r) = All-append_inv (λ q. equals q z ≡ false) zs (x ∷ ys) d.0 in
    (ground (arith, equals_sym x z), b, (All-append (λ q. equals q z ≡ false) zs ys l r.1, c))

-- A bucket is well formed: at most one entry more than `BucketSize`, and no peer twice.
pub record IsBucket (b : List PeerId) : Type 0 where
  pub small : length b ≤ bucket_size + 1
  pub distinct : Distinct b
