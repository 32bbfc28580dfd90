-- ===== src/Network/Tables.antt =====
-- The peers and the clients of network/network.go, and `Close` of network/client.go.
use noise.Peer.{PeerId}
use noise.Network.Numbering.{beq_false-ne}
use noise.Wire.{Message}
use noise.Network.Peers.{add_client, ready, close_client, close_found, shut, drop_id, drop_peer}
use noise.Network.State.{Network, put_client, notify}
use noise.Base.{
  bytes_Key, List, length, ◌++◌, Bool-cases, Bytes, [], arith, bytes_beq, get_elem?,
  get_elem?-set_ne, inl, inr, refl, some, suc, zero, ℕ, ◌∙◌, ◌∷◌, ◌≡◌, ap, bytes_beq_iff,
  get_elem?-set_self, lt_of_get_elem?, none, sym, Option-cases, true, Option, false,
}
use native.Mathlib.Decide.{ℕ_discrete}
use noise.Base.Maps.{load, store, delete, load-store_self, load-store_ne, load-delete}
use noise.Client.{PeerClient, new_client, StreamState}

module _ {A : Type 0} where
  get_elem?-append :
      (xs ys : List A) (i : ℕ) (x : A) → get_elem? xs i ≡ some x → get_elem? (xs ++ ys) i ≡ some x
  get_elem?-append [] ys i x e = cc
  get_elem?-append (y ∷ xs) ys zero x e = e
  get_elem?-append (y ∷ xs) ys (suc i) x e = get_elem?-append xs ys i x e

  pub get_elem?-length : (xs : List A) (x : A) → get_elem? (xs ++ (x ∷ [])) (length xs) ≡ some x
  get_elem?-length [] x = refl
  get_elem?-length (y ∷ xs) x = get_elem?-length xs x

module _ {M P L : Type 0} where
  -- Each entry of the peers leads to a client of its address.
  pub record IsTables (net : Network M P L) : Type 0 where
    pub places :
        (a : Bytes) (p : ℕ)
        → load a net.peers ≡ some p
        → (c : PeerClient M Message) × (get_elem? net.clients p ≡ some c) × (c.address ≡ a)

  put_client-IsTables :
      (net : Network M P L) (p : ℕ) (c c' : PeerClient M Message)
      → IsTables net
      → get_elem? net.clients p ≡ some c
      → c'.address ≡ c.address
      → IsTables (put_client net p c')
  unfolding put_client
  put_client-IsTables net p c c' h e same = record {
    places = λ a q l.
        let (d, there, addr) = h.places a q l in
        elim (ℕ_discrete p q) [
          | yes eq ↦
              let dc : d ≡ c = cc in
              (
                c',
                rw eq (get_elem?-set_self net.clients q c' (lt_of_get_elem? net.clients q d there)),
                same ∙ sym (ap (λ x. x.address) dc) ∙ addr,
              )
          | no ne ↦ (d, get_elem?-set_ne net.clients p q c' ne ∙ there, addr)
        ];
  }

  pub delete-IsTables :
      (net : Network M P L) (b : Bytes)
      → IsTables net
      → IsTables (record net { peers = delete b net.peers })
  delete-IsTables net b h = record {
    places = λ a p l. h.places a p (ground (arith, load-delete a b net.peers, l));
  }

  pub add_client-IsTables :
      (net : Network M P L) (b : Bytes) → IsTables net → IsTables (add_client net b)
  unfolding add_client new_client
  add_client-IsTables net b h = record {
    places = λ a p l. elim (Bool-cases (bytes_beq a b)) [
      | inl same ↦
          let e = (bytes_beq_iff a b).0 same in
          let f : load a (store b (length net.clients) net.peers) ≡ some (length net.clients) =
            rw e (load-store_self b (length net.clients) net.peers) in
          let g : length net.clients ≡ p = cc in
          (new_client b, rw (sym g) (get_elem?-length net.clients (new_client b)), sym e)
      | inr other ↦
          let (c, there, addr) =
            h.places a p (
              sym (load-store_ne a b (length net.clients) net.peers (beq_false-ne a b other))
              ∙ l) in
          (c, get_elem?-append net.clients (new_client b ∷ []) p c there, addr)
    ];
  }

  pub ready-IsTables :
      (net : Network M P L) (a : Bytes) (p : ℕ) → IsTables net → IsTables (ready net a p)
  unfolding ready
  ready-IsTables net a p h = elim (Option-cases (get_elem? net.clients p)) [
    | inl e ↦ rw (e, ready) h
    | inr (c, e) ↦
        rw (e, ready) (put_client-IsTables net p c (record c { outgoing_ready = true }) h e refl)
  ]

  shut-IsTables :
      (net : Network M P L) (p : ℕ) (c : PeerClient M Message)
      → IsTables net
      → get_elem? net.clients p ≡ some c
      → IsTables (shut net p c)
  unfolding shut notify
  shut-IsTables net p c h e =
      let closed : StreamState = record c.stream { is_closed = true } in
      record {
        places =
            (put_client-IsTables net p c (record c { closed = true; stream = closed }) h e
              refl).places;
      }

  drop_id-IsTables :
      (net : Network M P L) (id : Option PeerId) → IsTables net → IsTables (drop_id net id)
  unfolding drop_id drop_peer
  drop_id-IsTables net none h = h
  drop_id-IsTables net (some id) h = record { places = (delete-IsTables net id.address h).places }

  pub close_client-IsTables :
      (net : Network M P L) (p : ℕ) → IsTables net → IsTables (close_client net p)
  unfolding close_client close_found
  close_client-IsTables net p h = elim (Option-cases (get_elem? net.clients p)) [
    | inl e ↦ rw (e, close_found) h
    | inr (c, e) ↦ elim (Bool-cases c.closed) [
      | inl f ↦ rw (e, close_found, f) h
      | inr f ↦
          rw (e, close_found, f) (drop_id-IsTables (shut net p c) c.id (shut-IsTables net p c h e))
    ]
  ]

  clients-drop_id :
      (net : Network M P L) (id : Option PeerId) → (drop_id net id).clients ≡ net.clients
  unfolding drop_id drop_peer
  clients-drop_id net none = refl
  clients-drop_id net (some id) = refl

  -- A client that is closed is left as it is.
  close_found-closed :
      (net : Network M P L) (p : ℕ) (c : PeerClient M Message)
      → get_elem? net.clients p ≡ some c
      → c.closed ≡ true
      → close_client net p ≡ net
  unfolding close_client
  close_found-closed net p c e f = rw (e, close_found, f) refl

  close_client-missing :
      (net : Network M P L) (p : ℕ) → get_elem? net.clients p ≡ none → close_client net p ≡ net
  unfolding close_client
  close_client-missing net p e = rw (e, close_found) refl

  close_client-open :
      (net : Network M P L) (p : ℕ) (c : PeerClient M Message)
      → get_elem? net.clients p ≡ some c
      → c.closed ≡ false
      → close_client net p ≡ drop_id (shut net p c) c.id
  unfolding close_client
  close_client-open net p c e f = rw (e, close_found, f) refl

  get_elem?-shut :
      (net : Network M P L) (p : ℕ) (c : PeerClient M Message)
      → get_elem? net.clients p ≡ some c
      → get_elem? (shut net p c).clients p
        ≡ some (record c { closed = true; stream = record c.stream { is_closed = true } })
  unfolding shut notify put_client
  get_elem?-shut net p c e = get_elem?-set_self net.clients p _ (lt_of_get_elem? net.clients p c e)

  close_client-close_client :
      (net : Network M P L) (p : ℕ) → close_client (close_client net p) p ≡ close_client net p
  close_client-close_client net p = elim (Option-cases (get_elem? net.clients p)) [
    | inl e ↦ ap (λ n. close_client n p) (close_client-missing net p e)
    | inr (c, e) ↦ elim (Bool-cases c.closed) [
      | inl f ↦ ap (λ n. close_client n p) (close_found-closed net p c e f)
      | inr f ↦
          let closed : StreamState = record c.stream { is_closed = true } in
          let c' : PeerClient M Message = record c { closed = true; stream = closed } in
          close_found-closed (close_client net p) p c'
            (rw
              (
                ap (λ n. n.clients) (close_client-open net p c e f),
                clients-drop_id (shut net p c) c.id,
              )
              (get_elem?-shut net p c e))
            refl
    ]
  ]

  -- Where each entry of the peers leads to a client of its address, it does after Close of a
  -- client, and a second Close changes nothing.
  pub close_client_once :
      (net : Network M P L) (p : ℕ)
      → IsTables net
      → IsTables (close_client net p) × (close_client (close_client net p) p ≡ close_client net p)
  close_client_once net p h = (close_client-IsTables net p h, close_client-close_client net p)
