-- ===== src/Network/Goroutines/Tests.antt =====
-- The goroutines of three messages, whose steps interleave so that they submit in the other order.
use noise.Base.{
  Option, Outcome, List, [], arith, bytes_beq, done, panic, subst, sym, ◌∙◌, get_elem?, none, refl,
  some, true, ℕ, ◌∷◌, ◌≡◌, inr,
}
use noise.Client.{new_client, submit, execute_job}
use noise.Network.Dispatch.{peer_of}
use noise.Network.Goroutines.{
  Crew, Step, check_sender, checking, popping, run_routine, run_steps, runs, spawns, step,
  submit_next, submitting, turn, works,
}
use noise.Network.Goroutines.Counts.{times, times?, waiting}
use noise.Network.Goroutines.Once.{AllFit, Belongs, Fits, Once, run_steps-Once}
use noise.Network.Samples.{hello, known_peer, peer, peer_sender}
use noise.Peer.{equals}
use noise.Window.{Window, new_recv_window, pop, push, range, range_from}
use noise.Window.Deliver.{Tracks, arrived, first_push-Tracks}
use noise.Window.Stream.{values_from}
use noise.Wire.{Message}

abbrev sent : ℕ → Message
sent n = record hello { message = n ∷ []; sender = some peer_sender; message_nonce = n }

-- The first message has nonce 5 and is pushed.
abbrev holding : Window Message
holding = record {
  last_nonce = 5;
  size = 4;
  buf = none ∷ some (sent 5) ∷ none ∷ none ∷ [];
  pushed = true;
}

abbrev only_five : ℕ → Option Message
only_five = arrived (λ n. none) 5 (some (sent 5))

abbrev start : Crew ℕ
start = record {
  client = known_peer;
  window = holding;
  routines = popping ∷ [];
  executed = [];
  popped = [];
}

-- The first message is popped, and the second goroutine starts.
abbrev popped_first : Crew ℕ
popped_first = record {
  client = known_peer;
  window = record { last_nonce = 2; size = 4; buf = none ∷ none ∷ none ∷ none ∷ []; pushed = true };
  routines = submitting (some (sent 5) ∷ []) ∷ checking (sent 6) ∷ [];
  executed = [];
  popped = some (sent 5) ∷ [];
}

abbrev steps : List Step
steps = runs 0 ∷ spawns (sent 6) ∷ runs 1 ∷ runs 1 ∷ runs 1 ∷ works ∷ runs 0 ∷ []

held : push (new_recv_window 4) 5 (some (sent 5)) ≡ done holding
unfolding push new_recv_window
held = refl

holding-Tracks : Tracks holding 5 only_five
holding-Tracks =
    let made = first_push-Tracks 4 5 (some (sent 5)) (omega arith) (omega arith) (omega arith) in
    let same : done made.0 ≡ done holding = sym made.1 ∙ held in
    subst (λ w. Tracks w 5 only_five) (cc) made.2

start-Once : Once peer 5 4 sent start
unfolding new_client times times? waiting values_from
start-Once = record {
  named = refl;
  is_open = refl;
  sized = refl;
  count = 0;
  in_order = refl;
  pending = only_five;
  tracks = subst (λ b. Tracks holding b only_five) (omega arith) holding-Tracks;
  honest = λ n v e. ground (arith, e);
  balance = λ test. refl;
}

same_peer : equals peer (peer_of peer_sender) ≡ true
unfolding equals peer_of bytes_beq
same_peer = refl

Fits-known :
    (c : Crew ℕ) (i : ℕ) (known : Message)
    → get_elem? c.routines i ≡ some (checking known)
    → Belongs peer 5 4 sent c known
    → Fits peer 5 4 sent c (runs i)
Fits-known c i known e b msg f =
    let same : known ≡ msg = cc in subst (Belongs peer 5 4 sent c) same b

steps-AllFit : AllFit peer 5 4 sent start steps
unfolding AllFit step run_routine check_sender submit_next turn pop push range range_from submit
    execute_job new_client equals peer_of bytes_beq
steps-AllFit = (
  (λ msg e. absurd (ground (arith, e))),
  (
    tt,
    (
      Fits-known popped_first 1 (sent 6) refl
          (peer_sender, refl, inr (same_peer, refl, omega arith, omega arith)),
      (
        (λ msg e. absurd (ground (arith, e))),
        ((λ msg e. absurd (ground (arith, e))), (tt, ((λ msg e. absurd (ground (arith, e))), tt))),
      ),
    ),
  ),
)

run_steps-Once_example : (c : Crew ℕ) × (run_steps start steps ≡ done c) × Once peer 5 4 sent c
run_steps-Once_example = run_steps-Once peer 5 4 sent start steps start-Once steps-AllFit

-- The messages of the jobs that were executed, and of those that are queued.
abbrev order_of : Outcome (Crew ℕ) → List ℕ × List ℕ
order_of panic = ([], [])
order_of (done c) = (nonces c.executed, nonces c.client.jobs)
  where
    nonces : List Message → List ℕ
    nonces [] = []
    nonces (m ∷ ms) = m.message_nonce ∷ nonces ms

-- The second message is executed before the first one is queued.
second_first : order_of (run_steps start steps) ≡ (6 ∷ [], 5 ∷ [])
unfolding run_steps step run_routine check_sender submit_next turn pop push range range_from submit
    execute_job new_client equals peer_of bytes_beq
second_first = refl
