-- ===== src/Network/Clients.antt =====
-- What `Client` of network/network.go answers.
use noise.Wire.{Message}
use noise.Network.Tables.{
  IsTables, ready-IsTables, delete-IsTables, add_client-IsTables, get_elem?-length,
}
use noise.Client.{PeerClient, is_outgoing_ready, new_client}
use noise.Network.Peers.{known_client, dialled_client, client_of, dial, add_client, connect, ready}
use noise.Base.Maps.{load, delete, load-store_self}
use noise.Network.State.{Network, World, NetworkError, notify, put_client}
use noise.Base.{
  bytes_Key, Bool-cases, Bytes, Option, Option-cases, Outcome, Result, done, err, get_elem?, inl,
  inr, length, none, ok, panic, some, true, ℕ, ◌≡◌, ◌>>=◌, refl, get_elem?-set_self,
  lt_of_get_elem?,
}

module _ {M P L : Type 0} where
  -- The address's entry is the place, and its client has the address and has dialled.
  pub record Gives (net : Network M P L) (a : Bytes) (p : ℕ) : Type 0 where
    pub entry : load a net.peers ≡ some p
    pub found : PeerClient M Message
    pub there : get_elem? net.clients p ≡ some found
    pub has_address : found.address ≡ a
    pub dialled : found.outgoing_ready ≡ true

  ready-Gives :
      (net : Network M P L) (a : Bytes) (p : ℕ) (c : PeerClient M Message)
      → load a net.peers ≡ some p
      → get_elem? net.clients p ≡ some c
      → c.address ≡ a
      → Gives (ready net a p) a p
  unfolding ready put_client
  ready-Gives net a p c l e addr =
      rw (e, ready)
        (record {
          entry = l;
          found = record c { outgoing_ready = true };
          there = get_elem?-set_self net.clients p _ (lt_of_get_elem? net.clients p c e);
          has_address = addr;
          dialled = refl;
        })

module _ {M P L E : Type 0} (w : World M L E) where
  -- What `Client` comes to: on an error the peers still lead to clients of their addresses, on success
  -- the address's does; only the dial ends the process.
  abbrev pub Answers :
      Network M P L → Bytes → Outcome (Network M P L × Result (NetworkError E) ℕ) → Type 0
  Answers net a panic = dial w (add_client net a) a ≡ panic
  Answers net a (done (net', err e)) = IsTables net'
  Answers net a (done (net', ok p)) = IsTables net' × Gives net' a p

  known_client-Answers :
      (net : Network M P L) (a : Bytes) (p : ℕ)
      → IsTables net
      → load a net.peers ≡ some p
      → Answers net a (known_client w net p (get_elem? net.clients p))
  unfolding known_client
  known_client-Answers net a p h l =
      let (c, there, addr) = h.places a p l in
      elim (Bool-cases (is_outgoing_ready c)) [
        | inl f ↦
            rw (there, known_client, f)
              (h, record { entry = l; found = c; there = there; has_address = addr; dialled = f })
        | inr f ↦ rw (there, known_client, f) h
      ]

  dialled_client-Answers :
      (net : Network M P L) (a : Bytes) (failure : Option (NetworkError E))
      → IsTables net
      → Answers net a (done (dialled_client w (add_client net a) a (length net.clients) failure))
  unfolding dialled_client connect notify add_client new_client
  dialled_client-Answers net a (some e) h =
      let added = add_client net a in
      ready-IsTables (record added { peers = delete a added.peers }) a (length net.clients)
        (delete-IsTables added a (add_client-IsTables net a h))
  dialled_client-Answers net a none h =
      let added = connect (add_client net a) a (length net.clients) in
      (
        ready-IsTables added a (length net.clients)
            (record { places = (add_client-IsTables net a h).places }),
        ready-Gives added a (length net.clients) (new_client a)
            (load-store_self a (length net.clients) net.peers)
            (get_elem?-length net.clients (new_client a)) refl,
      )

  bind-Answers :
      (net : Network M P L) (a : Bytes) (o : Outcome (Option (NetworkError E)))
      → IsTables net
      → dial w (add_client net a) a ≡ o
      → Answers net a (
          o >>= λ failure.
          done (dialled_client w (add_client net a) a (length net.clients) failure))
  bind-Answers net a panic h e = e
  bind-Answers net a (done failure) h e = dialled_client-Answers net a failure h

  -- Where each entry of the peers leads to a client of its address, Client on a unified address
  -- keeps it so; where it succeeds, the entry of the address is the client that it returns, which
  -- has the address and has dialled; and it ends the process only where the dial does.
  pub client_of-Answers :
      (net : Network M P L) (a : Bytes) → IsTables net → Answers net a (client_of w net a)
  unfolding client_of
  client_of-Answers net a h = elim (Option-cases (load a net.peers)) [
    | inr (p, l) ↦ rw (l, client_of) (known_client-Answers net a p h l)
    | inl l ↦ rw (l, client_of) (bind-Answers net a (dial w (add_client net a) a) h refl)
  ]
