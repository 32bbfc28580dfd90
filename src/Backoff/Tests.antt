-- ===== src/Backoff/Tests.antt =====
-- Delays and attempts with one number in place of the floating-point ones: the duration doubles.
use noise.Backoff.Plugin.{
  BackoffPlugin, new_backoff_plugin, with_max_attempts, with_initial_delay, with_priority,
  disconnected, disconnected-Fails,
}
use noise.Base.Maps.{load}
use noise.Backoff.Attempts.{Modest, start_backoff-Modest}
use noise.Backoff.{
  for_attempt, Floats, Backoff, Round, start_backoff, next_duration, timeout_exceeded, retry_loop,
  default_backoff,
}
use noise.Base.{
  bytes_Key, ◌*◌, [], ◌^◌, false, leb, ltb, min, refl, some, true, ℕ, ◌∷◌, ◌≡◌, Bytes, none, ◌≢◌,
}
use noise.Base.Int.{pos, negsuc, pos_part}

program : Unit {0}
unfolding for_attempt next_duration timeout_exceeded retry_loop start_backoff default_backoff
program = tt

abbrev doubling : Floats ℕ
doubling = record {
  default_backoff_interval = 2;
  default_jitter = 0;
  above_zero = λ n. ltb 0 n;
  duration = λ low interval jitter attempt. some (pos (pos_part low * interval ^ attempt));
}

abbrev standard : Backoff ℕ
standard = record {
  attempt = 0;
  max_attempts = pos 5;
  backoff_interval = 2;
  jitter = 0;
  min_interval = negsuc 0;
  max_interval = pos 16000000000;
}

third : for_attempt doubling standard 3 ≡ pos 8000000000
unfolding program
third = refl

sixth : for_attempt doubling standard 6 ≡ pos 16000000000
unfolding program
sixth = refl

-- A world in which every dial fails.
abbrev unreachable : ℕ → Round
unreachable i = record {
  active = true;
  connected = false;
  dialled = false;
  reconnected = false;
  pinged = false;
}

abbrev answers_second : ℕ → Round
answers_second i = record {
  active = true;
  connected = false;
  dialled = leb 1 i;
  reconnected = true;
  pinged = true;
}

hundred_attempts : (start_backoff doubling (pos 100) false unreachable).dials ≡ 5
unfolding program
hundred_attempts = refl

second_attempt :
    start_backoff doubling (pos 100) false answers_second
    ≡ record { sleeps = pos 1000000000 ∷ pos 2000000000 ∷ []; dials = 2 }
unfolding program
second_attempt = refl

start_backoff-Modest_example :
    Modest doubling (pos_part (pos 3)) (start_backoff doubling (pos 3) false answers_second)
start_backoff-Modest_example = start_backoff-Modest doubling (pos 3) false answers_second

abbrev plugin : BackoffPlugin ℕ
plugin = record { initial_delay = pos 1; max_attempts = pos 7; priority = pos 3; backoffs = [] }

-- The last option of a kind counts.
plugin_made :
    new_backoff_plugin (
      with_max_attempts (pos 9)
      ∷ with_initial_delay (pos 1)
      ∷ with_priority (pos 3)
      ∷ with_max_attempts (pos 7)
      ∷ [])
    ≡ plugin
unfolding new_backoff_plugin
plugin_made = refl

not_stored : load (1 ∷ []) plugin.backoffs ≡ none
unfolding load
not_stored = refl

disconnected-Fails_example :
    ((disconnected doubling plugin (1 ∷ []) unreachable).1.dials ≡ min (pos_part (pos 7)) 5)
    × (load (1 ∷ []) (disconnected doubling plugin (1 ∷ []) unreachable).0.backoffs ≡ none)
    × ((other : Bytes)
        → other ≢ 1 ∷ []
        → load other (disconnected doubling plugin (1 ∷ []) unreachable).0.backoffs
          ≡ load other plugin.backoffs)
disconnected-Fails_example =
    disconnected-Fails doubling plugin (1 ∷ []) unreachable not_stored (λ i. (refl, refl, refl))
