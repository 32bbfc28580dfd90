-- ===== src/Network/Goroutines.antt =====
-- network/network.go, `Accept`, and network/client.go, `executeJobs`: the goroutines that `Accept` starts
-- for the messages of a connection, and the worker of its client. A step is what one of them does while
-- it holds a lock or a channel, so steps of different goroutines come in any order.
pub mod Counts
pub mod Worker
pub mod Once
mod Tests
use noise.Base.{
  ◌++◌, ◌>>=◌, List, Option, Outcome, [], done, get_elem?, if◌then◌else◌, none, panic, set, some,
  true, ℕ, ◌∷◌,
}
use noise.Client.{PeerClient, execute_job, submit}
use noise.Network.Dispatch.{peer_of}
use noise.Peer.{PeerId, equals}
use noise.Window.{Window, pop, push}
use noise.Wire.{Message, SenderId}

-- What a goroutine does next: it compares the sender and pushes its message, it pops, or it submits
-- the messages that it has popped, one by one. One with nothing to submit has ended.
pub data Routine : Type 0 where
  checking : Message → Routine
  popping : Routine
  submitting : List (Option Message) → Routine

-- The client and the window of a connection, its goroutines, the messages of the jobs that the worker
-- has executed, and what all pops have returned.
pub record Crew (M : Type 0) : Type 0 where
  pub client : PeerClient M Message
  pub window : Window Message
  pub routines : List Routine
  pub executed : List Message
  pub popped : List (Option Message)

-- The loop starts a goroutine, a goroutine has its next step, or the worker has a round.
pub data Step : Type 0 where
  spawns : Message → Step
  runs : ℕ → Step
  works : Step

-- The job of a round, where there is one.
abbrev pub ran : Option Message → List Message
ran none = []
ran (some msg) = msg ∷ []

module _ {M : Type 0} where
  -- The goroutine at a place goes on with something else.
  unfoldable pub turn : Crew M → ℕ → Routine → Crew M
  turn c i r = record c { routines = set c.routines i r }

  -- The comparison and `recvWindow.Push`, with the sender of the message and the client's identity; of
  -- each, none is nil.
  unfoldable pub check_sender :
      Crew M → ℕ → Message → Option SenderId → Option PeerId → Outcome (Crew M)
  unfolding equals peer_of push turn
  check_sender c i msg none id = panic
  check_sender c i msg (some sender) none = panic
  check_sender c i msg (some sender) (some id) =
      if equals id (peer_of sender)
      then (push c.window msg.message_nonce (some msg) >>= λ window.
          done (turn (record c { window = window }) i popping))
      else done (turn c i (submitting []))

  -- `client.Submit` of one message; where the queue is full, the goroutine waits.
  unfoldable pub submit_next :
      Crew M → ℕ → List (Option Message) → Option (PeerClient M Message) → Crew M
  unfolding turn
  submit_next c i ms none = c
  submit_next c i ms (some client) = turn (record c { client = client }) i (submitting ms)

  -- The next step of the goroutine at a place.
  unfoldable pub run_routine : Crew M → ℕ → Routine → Outcome (Crew M)
  unfolding check_sender pop turn submit submit_next
  run_routine c i (checking msg) = check_sender c i msg msg.sender c.client.id
  run_routine c i popping = pop c.window >>= λ (window, ready).
      done (turn (record c { window = window; popped = c.popped ++ ready }) i (submitting ready))
  run_routine c i (submitting []) = done c
  run_routine c i (submitting (none ∷ ms)) = done (turn c i (submitting ms))
  run_routine c i (submitting (some msg ∷ ms)) =
      done (submit_next c i ms (submit true c.client msg))

  unfoldable pub step : Crew M → Step → Outcome (Crew M)
  unfolding run_routine execute_job
  step c (spawns msg) = done (record c { routines = c.routines ++ (checking msg ∷ []) })
  step c (runs i) = elim (get_elem? c.routines i) [ none ↦ done c | some r ↦ run_routine c i r ]
  step c works =
      let (client, job, goes_on) = execute_job true c.client in
      done (record c { client = client; executed = c.executed ++ ran job })

  unfoldable pub run_steps : Crew M → List Step → Outcome (Crew M)
  unfolding step
  run_steps c [] = done c
  run_steps c (s ∷ ss) = step c s >>= λ c'. run_steps c' ss
