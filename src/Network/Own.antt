-- ===== src/Network/Own.antt =====
-- `Accept` of network/network.go: a connection of which the client's identity is known, and messages of
-- this and of other senders on it.
use noise.Base.{
  ◌>>=◌, ◌∙◌, ◌∷◌, ◌≡◌, All, Bool-cases, List, Option, Outcome, [], ap, arith, done, false,
  if◌then◌else◌, inl, inr, none, panic, refl, some, sym, true,
}
use noise.Network.Accept.{Session, accept_all, accept_message, take_from, take_in}
use noise.Network.Dispatch.{peer_of}
use noise.Network.Identity.{
  HasSender, IsOf, accept_message-take_in, in_session, is_from, messages_from, take_from-keeps,
  take_in_other,
}
use noise.Network.State.{Network, World}
use noise.Peer.{PeerId, equals}
use noise.Window.{Window}
use noise.Wire.{Message, SenderId}

is_from_sender :
    (id : PeerId) (msg : Message) (sender : SenderId)
    → msg.sender ≡ some sender
    → is_from id msg.sender ≡ equals id (peer_of sender)
unfolding is_from
is_from_sender id msg sender e = ap (is_from id) e

module _ {M P L E : Type 0} (w : World M L E) where
  -- How the loop goes on after a round.
  go_on :
      List Message → Option (Network M P L) × Session → Outcome (Option (Network M P L) × Session)
  go_on msgs (none, s) = done (none, s)
  go_on msgs (some net, s) = if s.running then accept_all w net s msgs else done (some net, s)

  accept_all-go_on :
      (net : Network M P L) (s : Session) (msg : Message) (msgs : List Message)
      (o : Outcome (Option (Network M P L) × Session))
      → accept_message w net s msg ≡ o
      → accept_all w net s (msg ∷ msgs) ≡ (o >>= go_on msgs)
  unfolding accept_all go_on
  accept_all-go_on net s msg msgs panic e = rw (e, ◌>>=◌) refl
  accept_all-go_on net s msg msgs (done (none, s')) e = rw (e, ◌>>=◌) refl
  accept_all-go_on net s msg msgs (done (some net', s')) e = rw (e, ◌>>=◌) refl

  -- Two lists of messages that go on alike after a round.
  go_on_alike :
      (s : Session) (msgs rest : List Message)
      (o : Outcome (Option (Network M P L) × Window Message))
      → ((net' : Network M P L) (window' : Window Message)
          → o ≡ done (some net', window')
          → accept_all w net' (record s { window = window' }) msgs
            ≡ accept_all w net' (record s { window = window' }) rest)
      → (in_session w s o >>= go_on msgs) ≡ (in_session w s o >>= go_on rest)
  unfolding go_on
  go_on_alike s msgs rest panic h = refl
  go_on_alike s msgs rest (done (none, window')) h = refl
  go_on_alike s msgs rest (done (some net', window')) h =
      ap (λ o. if s.running then o else done (some net', record s { window = window' }))
        (h net' window' refl)

  -- The session after a message of its own.
  kept :
      (id : PeerId) (net net' : Network M P L) (s : Session) (msg : Message) (sender : SenderId)
      (window' : Window Message) (h : IsOf id net s)
      → equals id (peer_of sender) ≡ true
      → take_in net h.place h.client s.window msg sender ≡ done (some net', window')
      → IsOf id net' (record s { window = window' })
  unfolding take_in
  kept id net net' s msg sender window' h same e =
      let (c', there, named, old) =
        take_from-keeps net net' h.place h.client id s.window window' msg sender h.there same
          (ap (take_from net h.place h.client s.window msg sender) (sym h.named) ∙ e) in
      record {
        place = h.place;
        client = c';
        placed = h.placed;
        there = there;
        named = named ∙ h.named;
        initialised = old ∙ h.initialised;
        running = h.running;
      }

  passed_over :
      (id : PeerId) (net : Network M P L) (s : Session) (msg : Message) (sender : SenderId)
      → IsOf id net s
      → msg.sender ≡ some sender
      → equals id (peer_of sender) ≡ false
      → accept_message w net s msg ≡ done (some net, s)
  passed_over id net s msg sender h sent other =
      accept_message-take_in w id net s msg sender h sent
      ∙ ap (in_session w s)
          (take_in_other net h.place h.client id s.window msg sender h.named other)

  skipped :
      (net : Network M P L) (s : Session) (msgs : List Message)
      → s.running ≡ true
      → go_on msgs (some net, s) ≡ accept_all w net s msgs
  unfolding go_on
  skipped net s msgs e = ground (arith, e)

  -- On a connection that goes on, whose client has had its first message and is known by an
  -- identity, where every message has a sender, and each message's goroutine ends before the next
  -- message is received, Accept does with the messages that come exactly what it does with those of
  -- them that are of this identity: the others have no effect on the network, the client, the
  -- window or the end of the loop.
  pub accept_all-messages_from :
      (id : PeerId) (net : Network M P L) (s : Session) (msgs : List Message)
      → IsOf id net s
      → All HasSender msgs
      → accept_all w net s msgs ≡ accept_all w net s (messages_from id msgs)
  unfolding messages_from HasSender
  accept_all-messages_from id net s [] h a = refl
  accept_all-messages_from id net s (msg ∷ msgs) h ((sender, sent), a) =
      let from = is_from_sender id msg sender sent in
      elim (Bool-cases (equals id (peer_of sender))) [
        | inl same ↦
            let own : is_from id msg.sender ≡ true = from ∙ same in
            let o = take_in net h.place h.client s.window msg sender in
            let e = accept_message-take_in w id net s msg sender h sent in
            rw own (
              accept_all-go_on net s msg msgs (in_session w s o) e
              ∙ go_on_alike s msgs (messages_from id msgs) o (λ net' window' f.
                accept_all-messages_from id net' (record s { window = window' }) msgs
                  (kept id net net' s msg sender window' h same f) a)
              ∙ sym (accept_all-go_on net s msg (messages_from id msgs) (in_session w s o) e))
        | inr other ↦
            let strange : is_from id msg.sender ≡ false = from ∙ other in
            rw strange (
              accept_all-go_on net s msg msgs (done (some net, s))
                (passed_over id net s msg sender h sent other)
              ∙ skipped net s msgs h.running
              ∙ accept_all-messages_from id net s msgs h a)
      ]
