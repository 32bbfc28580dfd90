-- ===== src/Network/Accept.antt =====
-- network/network.go, `Accept`: the messages of a connection, in the one order in which each message's
-- goroutine runs to its end before the next message is received. Goroutines has the goroutines' steps
-- in every order.
use noise.Base.{
  bytes_Key, ◌>>=◌, Bool, List, Option, Outcome, [], done, err, false, get_elem?, if◌then◌else◌,
  none, ok, panic, some, true, ℕ, ◌∷◌,
}
use noise.Client.{PeerClient, submit, set_incoming_ready}
use noise.Network.State.{Network, World, put_client}
use noise.Network.Peers.{client, connection_state_exists, close_client}
use noise.Network.Dispatch.{peer_of}
use noise.Peer.{PeerId, equals}
use noise.Window.{Window, push, pop}
use noise.Wire.{Message, SenderId}

-- What `Accept` keeps of a connection: the place of its client, its window, and whether it goes on.
pub record Session : Type 0 where
  pub place : Option ℕ
  pub window : Window Message
  pub running : Bool

module _ {M : Type 0} where
  -- The jobs of the messages that are ready, in order; a full queue would wait, and so does this.
  unfoldable pub submit_all :
      PeerClient M Message → List (Option Message) → Option (PeerClient M Message)
  unfolding submit
  submit_all c [] = some c
  submit_all c (none ∷ ms) = submit_all c ms
  submit_all c (some m ∷ ms) = elim (submit true c m) [ none ↦ none | some c' ↦ submit_all c' ms ]

module _ {M P L : Type 0} where
  -- The first message of a client's connections sets its identity: `client.Do`. The error: none is
  -- nil.
  unfoldable pub initialise :
      Network M P L → PeerClient M Message → SenderId → Outcome (PeerClient M Message × Bool)
  unfolding connection_state_exists set_incoming_ready peer_of
  initialise net c sender =
      if c.initialised
      then done (c, true)
      else (set_incoming_ready (record c { id = some (peer_of sender); initialised = true })
          >>= λ c'. done (c', connection_state_exists net sender.address))

  -- The steps of a message's goroutine in a row, with none of another between, for the client at a
  -- place, which has an identity or none. None is a call that waits.
  unfoldable pub take_from :
      Network M P L
      → ℕ
      → PeerClient M Message
      → Window Message
      → Message
      → SenderId
      → Option PeerId
      → Outcome (Option (Network M P L) × Window Message)
  unfolding submit_all push pop equals peer_of
  take_from net place c window msg sender none = panic
  take_from net place c window msg sender (some id) =
      if equals id (peer_of sender)
      then (push window msg.message_nonce (some msg) >>= λ pushed.
          pop pushed >>= λ (window', ready). done (
            elim (submit_all c ready) [ none ↦ none | some c' ↦ some (put_client net place c') ],
            window',
          ))
      else done (some net, window)

  unfoldable pub take_in :
      Network M P L
      → ℕ
      → PeerClient M Message
      → Window Message
      → Message
      → SenderId
      → Outcome (Option (Network M P L) × Window Message)
  unfolding take_from
  take_in net place c window msg sender = take_from net place c window msg sender c.id

module _ {M P L : Type 0} where
  -- The deferred calls of `Accept`.
  unfoldable pub finish : Network M P L → Session → Network M P L
  unfolding close_client
  finish net s = elim s.place [ none ↦ net | some place ↦ close_client net place ]

module _ {M P L E : Type 0} (w : World M L E) where
  -- The client of a session, which the first message's sender gives.
  unfoldable pub session_client :
      Network M P L → Option ℕ → SenderId → Outcome (Network M P L × Option ℕ)
  unfolding client
  session_client net (some place) sender = done (net, some place)
  session_client net none sender = client w net sender.address >>= λ (net', r). elim r [
    | err e ↦ done (net', none)
    | ok place ↦ done (net', some place)
  ]

  -- What follows for the client at a place, once it is there.
  unfoldable pub accept_client :
      Network M P L
      → Session
      → Message
      → SenderId
      → ℕ
      → Option (PeerClient M Message)
      → Outcome (Option (Network M P L) × Session)
  unfolding initialise take_in
  accept_client net s msg sender place none = panic
  accept_client net s msg sender place (some c) = initialise net c sender >>= λ (c', known).
      let net' = put_client net place c' in
      let s' : Session = record s { place = some place } in
      if known
      then (take_in net' place c' s.window msg sender >>= λ (taken, window).
          done (taken, record s' { window = window }))
      else done (some net', record s' { running = false })

  -- What follows once the session has a client, or none could be had.
  unfoldable pub accept_at :
      Network M P L
      → Session
      → Message
      → SenderId
      → Option ℕ
      → Outcome (Option (Network M P L) × Session)
  unfolding accept_client
  accept_at net s msg sender none = done (some net, record s { running = false })
  accept_at net s msg sender (some place) =
      accept_client net s msg sender place (get_elem? net.clients place)

  unfoldable pub accept_from :
      Network M P L
      → Session
      → Message
      → Option SenderId
      → Outcome (Option (Network M P L) × Session)
  unfolding session_client accept_at
  accept_from net s msg none = panic
  accept_from net s msg (some sender) =
      session_client net s.place sender >>= λ (net', found). accept_at net' s msg sender found

  -- A round of the loop of `Accept`, for a message that `receiveMessage` returned, whose sender it has
  -- checked to be there; none is a call that waits.
  unfoldable pub accept_message :
      Network M P L → Session → Message → Outcome (Option (Network M P L) × Session)
  unfolding accept_from
  accept_message net s msg = accept_from net s msg msg.sender

  -- The loop of `Accept` over the messages of a connection, as long as it goes on.
  unfoldable pub accept_all :
      Network M P L → Session → List Message → Outcome (Option (Network M P L) × Session)
  unfolding accept_message
  accept_all net s [] = done (some net, s)
  accept_all net s (msg ∷ msgs) = accept_message net s msg >>= λ (taken, s'). elim taken [
    | none ↦ done (none, s')
    | some net' ↦ if s'.running then accept_all net' s' msgs else done (some net', s')
  ]
