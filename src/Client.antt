-- ===== src/Client.antt =====
-- network/client.go: what a peer client keeps by itself, its stream of bytes, its table of requests
-- and its queue of jobs. What it does over its network is in Network. A closed channel is `true`;
-- time is a number of nanoseconds, and `none` is the zero time.
pub mod Stream
pub mod Reads
pub mod Prompt
pub mod Requests
pub mod Calls
pub mod Replies
mod Tests
use noise.Base.{
  number_Key, suc, zero, ◌+◌, ◌&&◌, ◌++◌, Bool, Bytes, List, Option, Outcome, [], done, drop, false,
  if◌then◌else◌, length, ltb, nat_beq, none, not, panic, some, take, true, ◌||◌, ℕ, ◌∷◌,
}
use noise.Base.Maps.{load, store, delete}
use noise.Peer.{PeerId}

-- The messages: those of `protobuf`, and one that the program registers.
pub data Proto (M : Type 0) : Type 0 where
  bytes_message : Bytes → Proto M
  ping : Proto M
  pong : Proto M
  lookup_node_request : Option PeerId → Proto M
  lookup_node_response : List PeerId → Proto M
  registered : M → Proto M

-- `StreamState`; its channel `buffered` holds nothing.
pub record StreamState : Type 0 where
  pub buffer : Bytes
  pub is_closed : Bool
  pub read_deadline : Option ℕ
  pub write_deadline : Option ℕ

-- `RequestState`: what is in the channel of one place, and whether `closeSignal` is closed.
pub record RequestState (M : Type 0) : Type 0 where
  pub reply : Option (Proto M)
  pub close_signal : Bool

-- `PeerClient`; a job dispatches the message that stands for it.
pub record PeerClient (M J : Type 0) : Type 0 where
  pub id : Option PeerId
  pub address : Bytes
  pub requests : List (ℕ × RequestState M)
  pub request_nonce : ℕ
  pub stream : StreamState
  pub outgoing_ready : Bool
  pub incoming_ready : Bool
  pub jobs : List J
  pub closed : Bool
  pub initialised : Bool

-- How many jobs the channel holds.
abbrev pub max_jobs : ℕ
max_jobs = 128

-- Why a read or a write fails.
pub data StreamError : Type 0 where
  stream_closed : StreamError
  deadline_exceeded : StreamError

-- `!deadline.IsZero() && time.Now().After(deadline)`.
unfoldable pub expired : Option ℕ → ℕ → Bool
expired none now = false
expired (some deadline) now = ltb deadline now

-- `handleBytes`: the stream afterwards, and whether a signal is offered on `buffered`. That channel has
-- no room, so the signal is lost unless a `Read` waits for it.
unfoldable pub handle_bytes : StreamState → Bytes → StreamState × Bool
handle_bytes s pkt = (record s { buffer = s.buffer ++ pkt }, nat_beq (length s.buffer) 0)

-- One round of the loop of `Read` for `room` bytes at time `now`: the bytes and the error of the
-- result, where there is one.
unfoldable pub read_round : StreamState → ℕ → ℕ → StreamState × Option (Bytes × Option StreamError)
unfolding expired
read_round s room now =
    let out = take room s.buffer in
    let s' = record s { buffer = drop room s.buffer } in
    if s.is_closed
    then (s', some (out, some stream_closed))
    else if expired s.read_deadline now
    then (s', some (out, some deadline_exceeded))
    else if nat_beq (length out) 0
    then (s', none)
    else (s', some (out, none))

-- What comes while a `Read` runs: a packet, where `heard` says whether this `Read` is the one that a
-- signal reaches; the close of the client; or a round of another `Read`, for `room` bytes.
pub data Event : Type 0 where
  packet : (heard : Bool) (pkt : Bytes) → Event
  closing : Event
  taken : (room : ℕ) → Event

-- An event and its time.
pub record Timed : Type 0 where
  pub at : ℕ
  pub event : Event

-- The stream after an event at a time, and whether it wakes the `Read`.
unfoldable pub happens : StreamState → ℕ → Event → StreamState × Bool
unfolding handle_bytes read_round
happens s at (packet heard pkt) = let (s', offered) = handle_bytes s pkt in (s', offered && heard)
happens s at closing = (record s { is_closed = true }, false)
happens s at (taken room) = ((read_round s room at).0, false)

-- The nanoseconds of `time.After(1 * time.Second)`.
abbrev pub second : ℕ
second = 1000000000

-- The `select` of `Read`, with the timer at `until`, through the events to come, in order: the stream
-- and the time at its end, and the events after it.
unfoldable pub select_wait : ℕ → StreamState → List Timed → StreamState × ℕ × List Timed
unfolding happens
select_wait until s [] = (s, until, [])
select_wait until s (e ∷ es) =
    let rest = select_wait until (happens s e.at e.event).0 es in
    if ltb until e.at
    then (s, until, e ∷ es)
    else if (happens s e.at e.event).1
    then ((happens s e.at e.event).0, e.at, es)
    else rest

-- `Read` from time `now` on, with fuel for its rounds, which take no time: when it returns, and what.
unfoldable pub read :
    ℕ → StreamState → (room now : ℕ) → List Timed → Option (ℕ × (Bytes × Option StreamError))
unfolding read_round select_wait
read zero s room now es = none
read (suc fuel) s room now es =
    let (s', r) = read_round s room now in
    let (s2, now', es') = select_wait (now + second) s' es in
    let later = read fuel s2 room now' es' in
    elim r [ some result ↦ some (now, result) | none ↦ later ]

unfoldable pub set_deadline : StreamState → Option ℕ → StreamState
set_deadline s t = record s { read_deadline = t; write_deadline = t }

unfoldable pub set_read_deadline : StreamState → Option ℕ → StreamState
set_read_deadline s t = record s { read_deadline = t }

unfoldable pub set_write_deadline : StreamState → Option ℕ → StreamState
set_write_deadline s t = record s { write_deadline = t }

module _ {M J : Type 0} where
  -- The client that `createPeerClient` makes of an address that parses.
  unfoldable pub new_client : Bytes → PeerClient M J
  new_client address = record {
    id = none;
    address = address;
    requests = [];
    request_nonce = 0;
    stream = record { buffer = []; is_closed = false; read_deadline = none; write_deadline = none };
    outgoing_ready = false;
    incoming_ready = false;
    jobs = [];
    closed = false;
    initialised = false;
  }

  -- `Submit`: where both cases of the `select` are ready, `queue` says which is taken. None is a
  -- call that waits.
  unfoldable pub submit : Bool → PeerClient M J → J → Option (PeerClient M J)
  submit queue c job =
      if ltb (length c.jobs) max_jobs && (not c.closed || queue)
      then some (record c { jobs = c.jobs ++ (job ∷ []) })
      else if c.closed
      then some c
      else none

  -- A round of `executeJobs`: where both cases are ready, `work` says which is taken. The job that
  -- is run, and whether the loop goes on.
  unfoldable pub execute_job : Bool → PeerClient M J → PeerClient M J × Option J × Bool
  execute_job work c = elim c.jobs [
    | [] ↦ (c, none, not c.closed)
    | job ∷ jobs ↦
        if not c.closed || work
        then (record c { jobs = jobs }, some job, true)
        else (c, none, false)
  ]

  -- `IsIncomingReady` and `IsOutgoingReady`, where nothing happens while they wait.
  unfoldable pub is_incoming_ready : PeerClient M J → Bool
  is_incoming_ready c = c.incoming_ready

  unfoldable pub is_outgoing_ready : PeerClient M J → Bool
  is_outgoing_ready c = c.outgoing_ready

  -- To close a closed channel panics.
  unfoldable pub set_incoming_ready : PeerClient M J → Outcome (PeerClient M J)
  set_incoming_ready c =
      if c.incoming_ready then panic else done (record c { incoming_ready = true })

  unfoldable pub set_outgoing_ready : PeerClient M J → Outcome (PeerClient M J)
  set_outgoing_ready c =
      if c.outgoing_ready then panic else done (record c { outgoing_ready = true })
