-- ===== src/Network/Numbering.antt =====
-- `Write` of network/network.go: the nonces of the messages that go to one address.
use noise.Window.{u64_mod}
use noise.Network.Messages.{numbered, write, write_on}
use noise.Network.State.{World, Network, NetworkError, ConnState}
use noise.Wire.{Writer, Message}
use noise.Base.{
  bytes_Key, List, length, ◌+◌, ◌<◌, ◌==◌, Bytes, Option, [], if◌then◌else◌, refl, some, suc, ℕ,
  ◌∷◌, ◌≡◌, ◌≢◌, number_Key, ◌%◌, Bool-cases, ap, arith, inl, inr, ◌∙◌, Option-cases, subst, sym,
  bytes_beq_iff, false, true, bytes_beq,
}
use noise.Base.Maps.{load, load-store_self, load-store_ne}

-- A call of `Write`.
pub record Attempt (E : Type 0) : Type 0 where
  pub writer : Writer E
  pub now : ℕ
  pub to : Bytes
  pub message : Message

-- The messages for an address, in order.
unfoldable pub messages_to : {E : Type 0} → Bytes → List (Attempt E) → List Message
messages_to a [] = []
messages_to a (t ∷ ts) = if a == t.to then t.message ∷ messages_to a ts else messages_to a ts

-- Messages with the nonces `n`, `n + 1` and so on.
unfoldable pub number_from : ℕ → List Message → List Message
number_from n [] = []
number_from n (m ∷ ms) = numbered m n ∷ number_from (suc n) ms

pub beq_false-ne : (a b : Bytes) → bytes_beq a b ≡ false → a ≢ b
beq_false-ne a b h e = ground (arith, h, (bytes_beq_iff a b).1 e)

module _ {M P L E : Type 0} (w : World M L E) where
  unfoldable pub attempt :
      Network M P L → Attempt E → Network M P L × Message × Option (NetworkError E)
  unfolding write
  attempt net t = write w t.writer t.now net t.to t.message

  unfoldable pub after_attempts : Network M P L → List (Attempt E) → Network M P L
  unfolding attempt
  after_attempts net [] = net
  after_attempts net (t ∷ ts) = after_attempts (attempt net t).0 ts

  -- What goes to an address, as it is written.
  unfoldable pub written_to : Network M P L → Bytes → List (Attempt E) → List Message
  unfolding attempt
  written_to net a [] = []
  written_to net a (t ∷ ts) =
      let rest = written_to (attempt net t).0 a ts in
      if a == t.to then (attempt net t).1 ∷ rest else rest

  -- The nonce of an address's connection is `n`.
  pub record At (net : Network M P L) (a : Bytes) (n : ℕ) : Type 0 where
    pub state : ConnState
    pub there : load a net.connections ≡ some state
    pub at : state.message_nonce ≡ n

  attempt-found :
      (net : Network M P L) (t : Attempt E) (st : ConnState)
      → load t.to net.connections ≡ some st
      → attempt net t ≡ write_on w t.writer t.now net t.to t.message st
  unfolding attempt write
  attempt-found net t st e = rw (e, write) refl

  attempt-At_same :
      (net : Network M P L) (t : Attempt E) (n : ℕ)
      → At net t.to n
      → suc n < u64_mod
      → At (attempt net t).0 t.to (suc n) × ((attempt net t).1 ≡ numbered t.message (suc n))
  unfolding write_on
  attempt-At_same net t n h p =
      let nonce : (h.state.message_nonce + 1) % u64_mod ≡ suc n = rw h.at (omega arith) in
      rw (attempt-found net t h.state h.there) (
        record { state = _; there = load-store_self t.to _ net.connections; at = nonce },
        ap (numbered t.message) nonce,
      )

  attempt-At_other :
      (net : Network M P L) (t : Attempt E) (a : Bytes) (n : ℕ)
      → At net a n
      → a ≢ t.to
      → At (attempt net t).0 a n
  unfolding attempt write write_on
  attempt-At_other net t a n h p = elim (Option-cases (load t.to net.connections)) [
    | inl e ↦ rw (e, write) h
    | inr (st, e) ↦ rw (attempt-found net t st e) (record {
      state = h.state;
      there = load-store_ne a t.to _ net.connections p ∙ h.there;
      at = h.at;
    })
  ]

  -- The statement at a list of calls.
  abbrev Numbers : Network M P L → Bytes → List (Attempt E) → ℕ → Type 0
  Numbers net a ts n =
      (written_to net a ts ≡ number_from (suc n) (messages_to a ts))
      × At (after_attempts net ts) a (n + length (messages_to a ts))

  Numbers-same :
      (net : Network M P L) (a : Bytes) (t : Attempt E) (ts : List (Attempt E)) (n : ℕ)
      → (a == t.to) ≡ true
      → (attempt net t).1 ≡ numbered t.message (suc n)
      → Numbers (attempt net t).0 a ts (suc n)
      → Numbers net a (t ∷ ts) n
  unfolding written_to number_from messages_to after_attempts
  Numbers-same net a t ts n same m (e, r) =
      rw same
        (rw (m, e) refl, subst (λ k. At (after_attempts (attempt net t).0 ts) a k) (omega arith) r)

  Numbers-other :
      (net : Network M P L) (a : Bytes) (t : Attempt E) (ts : List (Attempt E)) (n : ℕ)
      → (a == t.to) ≡ false
      → Numbers (attempt net t).0 a ts n
      → Numbers net a (t ∷ ts) n
  unfolding written_to messages_to after_attempts
  Numbers-other net a t ts n other r = rw other r

  -- However Write is called for several addresses, and whatever its writers do, the messages that
  -- go to an address with a connection get the next nonces after the connection's, without a gap
  -- and in order, as long as these are below 2 ^ 64.
  pub written_to-number_from :
      (net : Network M P L) (a : Bytes) (ts : List (Attempt E)) (n : ℕ)
      → At net a n
      → n + length (messages_to a ts) < u64_mod
      → (written_to net a ts ≡ number_from (suc n) (messages_to a ts))
        × At (after_attempts net ts) a (n + length (messages_to a ts))
  unfolding written_to number_from messages_to after_attempts
  written_to-number_from net a [] n h p = (refl, subst (λ k. At net a k) (omega arith) h)
  written_to-number_from net a (t ∷ ts) n h p = elim (Bool-cases (a == t.to)) [
    | inl same ↦
        let q : n + suc (length (messages_to a ts)) < u64_mod =
          subst
            (λ b.
              n + length (if b then t.message ∷ messages_to a ts else messages_to a ts) < u64_mod)
            same p in
        let to = (bytes_beq_iff a t.to).0 same in
        let (h', m) = attempt-At_same net t n (subst (λ b. At net b n) to h) (omega arith) in
        Numbers-same net a t ts n same m (
          written_to-number_from (attempt net t).0 a ts (suc n)
            (subst (λ b. At (attempt net t).0 b (suc n)) (sym to) h') (omega arith))
    | inr other ↦ Numbers-other net a t ts n other (
        written_to-number_from (attempt net t).0 a ts n
          (attempt-At_other net t a n h (beq_false-ne a t.to other))
          (subst
            (λ b.
              n + length (if b then t.message ∷ messages_to a ts else messages_to a ts) < u64_mod)
            other p))
  ]
