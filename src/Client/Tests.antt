-- ===== src/Client/Tests.antt =====
-- A client on short histories.
use noise.Base.Maps.{load, store, delete}
use noise.Client.Replies.{Reached-Came, deliver_reply-reply_of}
use noise.Client.Requests.{
  next_request_nonce, track_request, untrack_request, deliver_reply, reply_of, delivered,
}
use noise.Client.Stream.{Section, run_sections, fresh_traffic, round, run_sections_lem}
use noise.Client.Calls.{
  Calls, Came, idle, at_nonce, Reached, sending, waiting, later, returned, start, begin, track,
  reply, answer,
}
use noise.Client.Prompt.{latest, read_returns}
use noise.Client.{
  StreamState, StreamError, new_client, PeerClient, read, pong, Timed, closing, expired,
  handle_bytes, happens, packet, read_round, second, select_wait, stream_closed,
}
use noise.Base.{
  number_Key, ◌++◌, Bytes, List, Option, [], arith, false, inl, inr, none, refl, some, true, ℕ, ◌∷◌,
  ◌≡◌, ◌+◌, ◌*◌, ◌≤◌, Bool,
}

abbrev peer_address : Bytes
peer_address = 98 ∷ []

abbrev stream : StreamState
stream = record { buffer = 1 ∷ []; is_closed = false; read_deadline = none; write_deadline = none }

-- Two packets and two rounds.
abbrev sections : List Section
sections = Section.packet (2 ∷ 3 ∷ []) ∷ round 2 0 ∷ Section.packet (4 ∷ []) ∷ round 9 0 ∷ []

run_sections_lem_example :
    (run_sections (fresh_traffic stream) sections).read_out
      ++ (run_sections (fresh_traffic stream) sections).stream.buffer
    ≡ (run_sections (fresh_traffic stream) sections).handled
run_sections_lem_example = run_sections_lem stream sections

abbrev empty_stream : StreamState
empty_stream = record stream { buffer = [] }

-- A packet comes at time 5, and its signal reaches the `Read` or is lost.
abbrev one_packet : Bool → List Timed
one_packet heard = record { at = 5; event = packet heard (7 ∷ []) } ∷ []

abbrev one_close : List Timed
one_close = record { at = 5; event = closing } ∷ []

at_once : read 2 empty_stream 4 0 (one_packet true) ≡ some (5, (7 ∷ [], none))
unfolding read read_round select_wait happens handle_bytes expired
at_once = refl

by_timer : read 2 empty_stream 4 0 (one_packet false) ≡ some (second, (7 ∷ [], none))
unfolding read read_round select_wait happens handle_bytes expired
by_timer = refl

-- Nothing tells a `Read` that the client is closed.
closed_by_timer : read 2 empty_stream 4 0 one_close ≡ some (second, ([], some stream_closed))
unfolding read read_round select_wait happens handle_bytes expired
closed_by_timer = refl

read_returns_example :
    (end : ℕ) × (x : Bytes × Option StreamError) × (read
        (2 * second)
        empty_stream
        4
        0
        (one_packet true)
      ≡ some (end, x))
    × (end ≤ 5 + second)
    × (end ≤ latest 5 (one_packet true))
read_returns_example =
    read_returns (2 * second) empty_stream 4 0 5 (one_packet true) (omega arith) (omega arith, tt)
      (inr ((tt, tt), inl (refl, omega arith))) (omega arith)

abbrev started : Calls ℕ ℕ
started = record { client = new_client peer_address; phase = λ n. idle; replies = [] }

abbrev begun : Calls ℕ ℕ
begun = record {
  client = next_request_nonce started.client;
  phase = at_nonce started.phase 1 sending;
  replies = [];
}

abbrev tracked : Calls ℕ ℕ
tracked = record {
  client = track_request begun.client 1;
  phase = at_nonce begun.phase 1 waiting;
  replies = [];
}

tracked-Reached : Reached peer_address tracked
unfolding new_client next_request_nonce
tracked-Reached = later (later start (begin (omega arith))) (track 1 refl)

abbrev replied : PeerClient ℕ ℕ
replied = record tracked.client {
  requests = (1, record { reply = some pong; close_signal = false }) ∷ [];
}

abbrev received : Calls ℕ ℕ
received = record tracked { client = replied; replies = (1, pong) ∷ [] }

abbrev finished : Calls ℕ ℕ
finished = record received {
  client = untrack_request replied 1;
  phase = at_nonce tracked.phase 1 (returned pong);
}

finished-Reached : Reached peer_address finished
unfolding new_client next_request_nonce track_request deliver_reply reply_of load store delete
finished-Reached =
    later (later tracked-Reached (reply 1 pong true replied refl)) (answer 1 pong refl refl)

Reached-Came_example : Came finished.replies 1 pong
Reached-Came_example = Reached-Came peer_address finished 1 pong finished-Reached refl

deliver_reply-reply_of_example :
    (c : PeerClient ℕ ℕ) × (deliver_reply true tracked.client 1 pong ≡ delivered c)
    × (reply_of c 1 ≡ some pong)
unfolding new_client next_request_nonce track_request reply_of load store delete
deliver_reply-reply_of_example =
    deliver_reply-reply_of peer_address tracked 1 pong true tracked-Reached refl refl
