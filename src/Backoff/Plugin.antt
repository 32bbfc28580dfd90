-- ===== src/Backoff/Plugin.antt =====
-- network/backoff/plugin.go: the plugin with its options and the back-offs that are stored, and what a
-- disconnect starts. `net` is only used by the dials, which the world of the loop stands for.
use noise.Backoff.{Backoff, Floats, Retries, Round, default_backoff, start_backoff}
use noise.Backoff.Exhaust.{Fails, start_backoff-Fails}
use noise.Base.{bytes_Key, Bytes, List, [], false, min, none, refl, some, ℕ, ◌∙◌, ◌∷◌, ◌≡◌, ◌≢◌, ap}
use noise.Base.Int.{ℤ, pos, pos_part}
use noise.Base.Maps.{load, store, delete, load-delete_self, load-delete_ne, load-store_ne}

-- `Plugin`; `backoffs` is the map of the addresses that are dialled.
pub record BackoffPlugin (F : Type 0) : Type 0 where
  pub initial_delay : ℤ
  pub max_attempts : ℤ
  pub priority : ℤ
  pub backoffs : List (Bytes × Backoff F)

-- `PluginOption`, by the functions that make one.
pub data PluginOption : Type 0 where
  with_initial_delay : ℤ → PluginOption
  with_max_attempts : ℤ → PluginOption
  with_priority : ℤ → PluginOption

module _ {F : Type 0} where
  unfoldable pub apply_option : BackoffPlugin F → PluginOption → BackoffPlugin F
  apply_option o (with_initial_delay d) = record o { initial_delay = d }
  apply_option o (with_max_attempts i) = record o { max_attempts = i }
  apply_option o (with_priority i) = record o { priority = i }

  -- `defaultOptions` of a new plugin: 5 seconds, 100 attempts, and priority 100.
  unfoldable pub default_options : BackoffPlugin F
  default_options = record {
    initial_delay = pos 5000000000;
    max_attempts = pos 100;
    priority = pos 100;
    backoffs = [];
  }

  unfoldable pub apply_each : BackoffPlugin F → List PluginOption → BackoffPlugin F
  unfolding apply_option
  apply_each p [] = p
  apply_each p (opt ∷ opts) = apply_each (apply_option p opt) opts

  -- `New`.
  unfoldable pub new_backoff_plugin : List PluginOption → BackoffPlugin F
  unfolding apply_each default_options
  new_backoff_plugin opts = apply_each default_options opts

module _ {F : Type 0} (floats : Floats F) where
  -- `startBackoff` for an address with what it sleeps first, where nothing else uses the map until it
  -- ends.
  unfoldable pub disconnected : BackoffPlugin F → Bytes → (ℕ → Round) → BackoffPlugin F × Retries
  unfolding load store delete start_backoff default_backoff
  disconnected p addr world = elim (load addr p.backoffs) [
    | some old ↦ (p, record { sleeps = p.initial_delay ∷ []; dials = 0 })
    | none ↦
        let tried = start_backoff floats p.max_attempts false world in
        (
          record p { backoffs = delete addr (store addr (default_backoff floats) p.backoffs) },
          record tried { sleeps = p.initial_delay ∷ tried.sleeps },
        )
  ]

  disconnected-none :
      (p : BackoffPlugin F) (addr : Bytes) (world : ℕ → Round)
      → load addr p.backoffs ≡ none
      → disconnected p addr world ≡ (
        record p { backoffs = delete addr (store addr (default_backoff floats) p.backoffs) },
        record (start_backoff floats p.max_attempts false world) {
          sleeps = p.initial_delay ∷ (start_backoff floats p.max_attempts false world).sleeps;
        },
      )
  unfolding disconnected
  disconnected-none p addr world e = rw (e, disconnected) refl

  -- Where no back-off of an address is stored, every attempt fails, no connection comes up and the
  -- back-off stays stored, a disconnect of the address dials maxAttempts times, but no more than
  -- 5, and afterwards no back-off of the address is stored, and those of other addresses are as
  -- before.
  pub disconnected-Fails :
      (p : BackoffPlugin F) (addr : Bytes) (world : ℕ → Round)
      → load addr p.backoffs ≡ none
      → Fails floats world
      → ((disconnected p addr world).1.dials ≡ min (pos_part p.max_attempts) 5)
        × (load addr (disconnected p addr world).0.backoffs ≡ none)
        × ((other : Bytes)
            → other ≢ addr
            → load other (disconnected p addr world).0.backoffs ≡ load other p.backoffs)
  disconnected-Fails p addr world e f =
      let d = disconnected-none p addr world e in
      (
        ap (λ r. r.1.dials) d ∙ start_backoff-Fails floats p.max_attempts world f,
        ap (λ r. load addr r.0.backoffs) d
            ∙ load-delete_self addr (store addr (default_backoff floats) p.backoffs),
        λ other ne.
            ap (λ r. load other r.0.backoffs) d
            ∙ load-delete_ne other addr (store addr (default_backoff floats) p.backoffs) ne
            ∙ load-store_ne other addr (default_backoff floats) p.backoffs ne,
      )
