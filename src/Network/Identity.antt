-- ===== src/Network/Identity.antt =====
-- `Accept` of network/network.go: the identity of a connection. The first message sets it, and messages
-- of another sender are passed over.
use noise.Base.{
  ◌>>=◌, ◌∙◌, ◌∷◌, ◌≡◌, Bool, List, Option, Option-cases, Outcome, [], ap, arith, done, false,
  get_elem?, if◌then◌else◌, inl, inr, none, refl, set, some, suc, sym, true, zero, ℕ, >>=-eq-done,
  get_elem?-set_self, lt_of_get_elem?, subst,
}
use noise.Client.{PeerClient, submit}
use noise.Network.Accept.{
  Session, accept_message, initialise, session_client, submit_all, take_in, accept_client,
  accept_from, accept_at, take_from,
}
use noise.Network.Dispatch.{peer_of}
use noise.Network.State.{Network, World, put_client}
use noise.Peer.{PeerId, equals}
use noise.Window.{Window, push, pop}
use noise.Wire.{Message, SenderId}

-- Whether a message has a sender of an identity.
unfoldable pub is_from : PeerId → Option SenderId → Bool
is_from id none = false
is_from id (some sender) = equals id (peer_of sender)

-- The messages of an identity, in order.
unfoldable pub messages_from : PeerId → List Message → List Message
unfolding is_from
messages_from id [] = []
messages_from id (msg ∷ msgs) =
    let rest = messages_from id msgs in if is_from id msg.sender then msg ∷ rest else rest

-- `receiveMessage` has checked that every message has a sender.
unfoldable pub HasSender : Message → Type 0
HasSender msg = (sender : SenderId) × (msg.sender ≡ some sender)

set_same : {A : Type 0} (xs : List A) (i : ℕ) (x : A) → get_elem? xs i ≡ some x → set xs i x ≡ xs
set_same [] i x e = refl
set_same (y ∷ xs) zero x e = ground (arith, e)
set_same (y ∷ xs) (suc i) x e = ap (λ l. y ∷ l) (set_same xs i x e)

module _ {M P L : Type 0} where
  put_client_same :
      (net : Network M P L) (place : ℕ) (c : PeerClient M Message)
      → get_elem? net.clients place ≡ some c
      → put_client net place c ≡ net
  unfolding put_client
  put_client_same net place c e =
      ap (λ l. record net { clients = l }) (set_same net.clients place c e)

  -- A client that has the identity of its connection.
  pub record IsOf (id : PeerId) (net : Network M P L) (s : Session) : Type 0 where
    pub place : ℕ
    pub client : PeerClient M Message
    pub placed : s.place ≡ some place
    pub there : get_elem? net.clients place ≡ some client
    pub named : client.id ≡ some id
    pub initialised : client.initialised ≡ true
    pub running : s.running ≡ true

module _ {M : Type 0} where
  submit-keeps :
      (c c' : PeerClient M Message) (m : Message)
      → submit true c m ≡ some c'
      → (c'.id ≡ c.id) × (c'.initialised ≡ c.initialised)
  unfolding submit
  submit-keeps c c' m e = ground (arith, e)

  submit_all-keeps :
      (c c' : PeerClient M Message) (ms : List (Option Message))
      → submit_all c ms ≡ some c'
      → (c'.id ≡ c.id) × (c'.initialised ≡ c.initialised)
  unfolding submit_all
  submit_all-keeps c c' [] e = ground (arith, e)
  submit_all-keeps c c' (none ∷ ms) e = submit_all-keeps c c' ms e
  submit_all-keeps c c' (some m ∷ ms) e = elim (Option-cases (submit true c m)) [
    | inl full ↦ absurd (ground (arith, full, e))
    | inr (d, went) ↦
        let one = submit-keeps c d m went in
        let all = submit_all-keeps d c' ms (ground (arith, went, e)) in
        (all.0 ∙ one.0, all.1 ∙ one.1)
  ]

module _ {M P L : Type 0} where
  initialise_old :
      (net : Network M P L) (c : PeerClient M Message) (sender : SenderId)
      → c.initialised ≡ true
      → initialise net c sender ≡ done (c, true)
  unfolding initialise
  initialise_old net c sender e = ground (arith, e)

module _ {M P L E : Type 0} (w : World M L E) where
  -- What is made of the outcome for a session.
  abbrev pub in_session :
      Session
      → Outcome (Option (Network M P L) × Window Message)
      → Outcome (Option (Network M P L) × Session)
  in_session s o = o >>= λ (taken, window). done (taken, record s { window = window })

  abbrev at_place :
      Session
      → ℕ
      → Outcome (Option (Network M P L) × Window Message)
      → Outcome (Option (Network M P L) × Session)
  at_place s place o = in_session (record s { place = some place }) o

  accept_client-take_in :
      (net : Network M P L) (s : Session) (msg : Message) (sender : SenderId) (place : ℕ)
      (c : PeerClient M Message)
      → s.place ≡ some place
      → get_elem? net.clients place ≡ some c
      → c.initialised ≡ true
      → accept_client w net s msg sender place (some c)
        ≡ in_session s (take_in net place c s.window msg sender)
  unfolding accept_client
  accept_client-take_in net s msg sender place c placed there old =
      let begun : accept_client w net s msg sender place (some c)
          ≡ at_place s place (take_in (put_client net place c) place c s.window msg sender) =
        rw (initialise_old net c sender old, ◌>>=◌) refl in
      begun
      ∙ ap (λ n. at_place s place (take_in n place c s.window msg sender))
          (put_client_same net place c there)
      ∙ ap (λ p. in_session (record s { place = p }) (take_in net place c s.window msg sender))
          (sym placed)

  -- The round for a connection whose client is known.
  pub accept_message-take_in :
      (id : PeerId) (net : Network M P L) (s : Session) (msg : Message) (sender : SenderId)
      (h : IsOf id net s)
      → msg.sender ≡ some sender
      → accept_message w net s msg ≡ in_session s (take_in net h.place h.client s.window msg sender)
  unfolding accept_message accept_from session_client accept_at
  accept_message-take_in id net s msg sender h sent =
      ap (accept_from w net s msg) sent
      ∙ ap
          (λ p.
            session_client w net p sender >>= λ (net', found). accept_at w net' s msg sender found)
          h.placed
      ∙ ap (accept_client w net s msg sender h.place) h.there
      ∙ accept_client-take_in net s msg sender h.place h.client h.placed h.there h.initialised

module _ {M P L : Type 0} where
  pub take_in_other :
      (net : Network M P L) (place : ℕ) (c : PeerClient M Message) (id : PeerId)
      (window : Window Message) (msg : Message) (sender : SenderId)
      → c.id ≡ some id
      → equals id (peer_of sender) ≡ false
      → take_in net place c window msg sender ≡ done (some net, window)
  unfolding take_in take_from
  take_in_other net place c id window msg sender named other =
      ap (take_from net place c window msg sender) named ∙ rw (other, take_from) refl

  put_there :
      (net : Network M P L) (place : ℕ) (c c' : PeerClient M Message)
      → get_elem? net.clients place ≡ some c
      → get_elem? (put_client net place c').clients place ≡ some c'
  unfolding put_client
  put_there net place c c' there =
      get_elem?-set_self net.clients place c' (lt_of_get_elem? net.clients place c there)

  -- What `take_from` does with what was popped, and with what was pushed.
  abbrev after_pop :
      Network M P L
      → ℕ
      → PeerClient M Message
      → Window Message × List (Option Message)
      → Outcome (Option (Network M P L) × Window Message)
  after_pop net place c (window', ready) = done (
    elim (submit_all c ready) [ none ↦ none | some c' ↦ some (put_client net place c') ],
    window',
  )

  abbrev after_push :
      Network M P L
      → ℕ
      → PeerClient M Message
      → Window Message
      → Outcome (Option (Network M P L) × Window Message)
  after_push net place c pushed = pop pushed >>= after_pop net place c

  -- The client of a message that was taken in keeps its identity.
  pub take_from-keeps :
      (net net' : Network M P L) (place : ℕ) (c : PeerClient M Message) (id : PeerId)
      (window window' : Window Message) (msg : Message) (sender : SenderId)
      → get_elem? net.clients place ≡ some c
      → equals id (peer_of sender) ≡ true
      → take_from net place c window msg sender (some id) ≡ done (some net', window')
      → (c' : PeerClient M Message) × (get_elem? net'.clients place ≡ some c')
        × (c'.id ≡ c.id)
        × (c'.initialised ≡ c.initialised)
  unfolding take_from
  take_from-keeps net net' place c id window window' msg sender there same e =
      let end : Option (Network M P L) × Window Message = (some net', window') in
      let (pushed, e1, f1) =
        >>=-eq-done (push window msg.message_nonce (some msg)) (after_push net place c) end
          (ground (arith, same, e)) in
      let (popped, e2, f2) = >>=-eq-done (pop pushed) (after_pop net place c) end f1 in
      elim (Option-cases (submit_all c popped.1)) [
        | inl full ↦ absurd (ground (arith, full, f2))
        | inr (c', went) ↦
            let made : put_client net place c' ≡ net' = ground (arith, went, f2) in
            let kept = submit_all-keeps c c' popped.1 went in
            (
              c',
              subst (λ (n : Network M P L). get_elem? n.clients place ≡ some c') made
                  (put_there net place c c' there),
              kept.0,
              kept.1,
            )
      ]
