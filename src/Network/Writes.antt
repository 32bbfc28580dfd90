-- ===== src/Network/Writes.antt =====
-- `Write` and the loops of the broadcasts of network/network.go: what the connection of an address gets.
use noise.Base.{
  bytes_Key, number_Key, ◌+◌, ◌%◌, ◌++◌, ◌≡◌, ◌≢◌, Bytes, List, [], ap, arith, get_elem?, refl,
  some, suc, sym, zero, ℕ, ◌∷◌, ◌∙◌, Option-cases, inl, inr,
}
use noise.Base.Maps.{load, load-store_ne, load-store_self}
use noise.Crypto.{verify}
use noise.Network.Messages.{numbered, write, write_on, write_each}
use noise.Network.State.{ConnState, Network, World}
use noise.Window.{u64_mod}
use noise.Wire.{Message, Writer, send_message}

-- An address stands at place `i` of a list and at no other.
pub record StandsOnce (xs : List Bytes) (a : Bytes) (i : ℕ) : Type 0 where
  pub here : get_elem? xs i ≡ some a
  pub only : (j : ℕ) → get_elem? xs j ≡ some a → j ≡ i

-- The nonce that a connection's next message gets.
abbrev pub next_nonce : ConnState → ℕ
next_nonce st = (st.message_nonce + 1) % u64_mod

module _ {M L E : Type 0} (w : World M L E) where
  -- A message was written to a connection, which gave it the next nonce.
  pub record Wrote (writer : Writer E) (message : Message) (st st' : ConnState) : Type 0 where
    pub nonce : st'.message_nonce ≡ next_nonce st
    pub bytes :
        st'.written
        ≡ st.written
          ++ (send_message w.marshal_message w.unmarshal_message
              (verify w.signature_policy w.hash_policy)
              writer
              (numbered message (next_nonce st))).0

  Wrote-same :
      (writer : Writer E) (message given : Message) (st st' : ConnState)
      → ((n : ℕ) → numbered given n ≡ numbered message n)
      → Wrote writer given st st'
      → Wrote writer message st st'
  Wrote-same writer message given st st' m h = record {
    nonce = h.nonce;
    bytes =
        h.bytes
        ∙ ap
            (λ x.
              st.written
              ++ (send_message w.marshal_message w.unmarshal_message
                  (verify w.signature_policy w.hash_policy) writer x).0)
            (m (next_nonce st));
  }

module _ {M P L E : Type 0} (w : World M L E) where
  load-write_ne :
      (writer : Writer E) (now : ℕ) (net : Network M P L) (a b : Bytes) (message : Message)
      → a ≢ b
      → load a (write w writer now net b message).0.connections ≡ load a net.connections
  unfolding write write_on
  load-write_ne writer now net a b message p = elim (Option-cases (load b net.connections)) [
    | inl e ↦ rw (e, write) refl
    | inr (st, e) ↦ rw (e, write) (load-store_ne a b _ net.connections p)
  ]

  load-write_self :
      (writer : Writer E) (now : ℕ) (net : Network M P L) (a : Bytes) (message : Message)
      (st : ConnState)
      → load a net.connections ≡ some st
      → (st' : ConnState) × (load a (write w writer now net a message).0.connections ≡ some st')
        × Wrote w writer message st st'
  unfolding write write_on
  load-write_self writer now net a message st e =
      let out =
        send_message w.marshal_message w.unmarshal_message (verify w.signature_policy w.hash_policy)
          writer (numbered message (next_nonce st)) in
      let st' : ConnState = record {
        message_nonce = next_nonce st;
        written = st.written ++ out.0;
        write_deadline = now + net.write_timeout;
      } in
      (
        st',
        rw (e, write) (load-store_self a st' net.connections),
        record { nonce = refl; bytes = refl },
      )

  -- `Write` changes nothing of the message but its nonce.
  write-Renumbered :
      (writer : Writer E) (now : ℕ) (net : Network M P L) (a : Bytes) (message : Message) (n : ℕ)
      → numbered (write w writer now net a message).1 n ≡ numbered message n
  unfolding write write_on numbered
  write-Renumbered writer now net a message n = elim (Option-cases (load a net.connections)) [
    | inl e ↦ rw (e, write) refl
    | inr (st, e) ↦ rw (e, write) refl
  ]

  load-write_each_ne :
      (writers : ℕ → Writer E) (now : ℕ) (net : Network M P L) (xs : List Bytes) (a : Bytes)
      (message : Message)
      → ((j : ℕ) → get_elem? xs j ≢ some a)
      → load a (write_each w writers now net xs message).connections ≡ load a net.connections
  unfolding write_each
  load-write_each_ne writers now net [] a message p = refl
  load-write_each_ne writers now net (b ∷ bs) a message p =
      let after = write w (writers 0) now net b message in
      load-write_each_ne (λ i. writers (suc i)) now after.0 bs a after.1 (λ j. p (suc j))
      ∙ load-write_ne (writers 0) now net a b message (λ e. p 0 (ap some (sym e)))

  -- Each write is with the writer of its place, and only the one to an address has an effect there.
  pub load-write_each :
      (writers : ℕ → Writer E) (now : ℕ) (net : Network M P L) (xs : List Bytes) (a : Bytes)
      (message given : Message) (i : ℕ) (st : ConnState)
      → ((n : ℕ) → numbered given n ≡ numbered message n)
      → StandsOnce xs a i
      → load a net.connections ≡ some st
      → (st' : ConnState) × (load a (write_each w writers now net xs given).connections ≡ some st')
        × Wrote w (writers i) message st st'
  unfolding write_each
  load-write_each writers now net [] a message given i st m s e = absurd (ground (arith, s.here))
  load-write_each writers now net (b ∷ bs) a message given zero st m s e =
      let same : b ≡ a = ground (arith, s.here) in
      let after = write w (writers 0) now net b given in
      let (st', there, wrote) = load-write_self (writers 0) now net a given st e in
      let rest =
        load-write_each_ne (λ i. writers (suc i)) now after.0 bs a after.1
          (λ j q. absurd (omega (arith, s.only (suc j) q))) in
      (
        st',
        rest ∙ ap (λ c. load a (write w (writers 0) now net c given).0.connections) same ∙ there,
        Wrote-same w (writers 0) message given st st' m wrote,
      )
  load-write_each writers now net (b ∷ bs) a message given (suc i) st m s e =
      let after = write w (writers 0) now net b given in
      load-write_each (λ k. writers (suc k)) now after.0 bs a message after.1 i st
        (λ n. write-Renumbered (writers 0) now net b given n ∙ m n)
        (record { here = s.here; only = λ j q. omega (arith, s.only (suc j) q) })
        (load-write_ne (writers 0) now net a b given
            (λ q. absurd (omega (arith, s.only 0 (ap some (sym q)))))
          ∙ e)
