-- ===== src/Network/Listen.antt =====
-- network/network.go: `Listen`, `Bootstrap`, and `Plugin`. An exit of the process stands as a panic.
-- The loop of `Listen` meets what `Accept` of the listener returns, round by round; it hands
-- connections to goroutines of the network's `Accept`.
use noise.Base.{
  bytes_Key, number_Key, Bool, false, Bytes, List, ◌>>=◌, Option, Outcome, [], done, err, get_elem?,
  if◌then◌else◌, none, ok, panic, some, true, ℕ, ◌∷◌,
}
use noise.Base.Maps.{load}
use noise.Address.{parse_address}
use noise.Address.Filter.{filter_peers}
use noise.Client.{ping}
use noise.Network.State.{Network, World, notify, startup, cleanup}
use noise.Network.Peers.{client}
use noise.Network.Sends.{tell}
use noise.Network.Messages.{Opcodes}
use noise.Plugins.{get}
use noise.Wire.{Writer}

-- What a round of `Listen` finds: a connection, or an error, when the network had been killed or not.
pub data Incoming (C : Type 0) : Type 0 where
  connected : C → Incoming C
  failed : Bool → Incoming C

module _ {C : Type 0} where
  -- The loop of `Listen`: the connections it hands on, and whether it has returned.
  unfoldable pub listen_loop : List (Incoming C) → List C × Bool
  listen_loop [] = ([], false)
  listen_loop (connected conn ∷ rounds) =
      let (conns, returned) = listen_loop rounds in (conn ∷ conns, returned)
  listen_loop (failed true ∷ rounds) = ([], true)
  listen_loop (failed false ∷ rounds) = listen_loop rounds

module _ {M P L : Type 0} where
  -- `BlockUntilListening`; none is a call that waits.
  unfoldable pub block_until_listening : Network M P L → Option (Network M P L)
  block_until_listening net = if net.listening then some net else none

  -- `startListening`: to close the channel twice panics.
  unfoldable pub start_listening : Network M P L → Outcome (Network M P L)
  start_listening net = if net.listening then panic else done (record net { listening = true })

  -- The deferred calls of `Listen`.
  unfoldable pub listen_end : Network M P L → Network M P L
  unfolding notify
  listen_end net = notify net cleanup

  unfoldable pub plugin_of : (P → ℕ) → Network M P L → P → Option P
  unfolding get
  plugin_of type_of net key = get type_of net.plugins key

module _ {M P L E : Type 0} (w : World M L E) where
  -- `Listen` until it takes connections; `listen_layer` is the layer's `Listen` on a port.
  unfoldable pub listen_start : (L → ℕ → Option E) → Network M P L → Outcome (Network M P L)
  unfolding notify load parse_address start_listening
  listen_start listen_layer net =
      let started = notify net startup in
      elim (parse_address w.go net.address) [
        | err e ↦ panic
        | ok info ↦ elim (load info.protocol net.transports) [
          | none ↦ panic
          | some layer ↦ elim (listen_layer layer info.port) [
            | some e ↦ panic
            | none ↦ start_listening started
          ]
        ]
      ]

  -- `Listen`: the network, the connections that it handed on, and whether it has returned.
  unfoldable pub listen :
      {C : Type 0}
      → (L → ℕ → Option E)
      → List (Incoming C)
      → Network M P L
      → Outcome (Network M P L × List C × Bool)
  unfolding listen_start listen_loop listen_end
  listen listen_layer rounds net = listen_start listen_layer net >>= λ started.
      let (conns, returned) = listen_loop rounds in
      done (if returned then listen_end started else started, conns, returned)

  -- The loop of `Bootstrap`, which goes on after an error.
  unfoldable pub bootstrap_each :
      Writer E → ℕ → Opcodes M → Network M P L → List Bytes → Outcome (Network M P L)
  unfolding client tell
  bootstrap_each writer now opcodes net [] = done net
  bootstrap_each writer now opcodes net (address ∷ addresses) =
      client w net address >>= λ (net1, r). elim r [
        | err e ↦ bootstrap_each writer now opcodes net1 addresses
        | ok place ↦ elim (get_elem? net1.clients place) [
          | none ↦ panic
          | some c ↦ tell w writer now opcodes net1 [] c.address (some ping) >>= λ (net2, failure).
              bootstrap_each writer now opcodes net2 addresses
        ]
      ]

  -- `Bootstrap`; none is one that waits until the network listens.
  unfoldable pub bootstrap :
      Writer E → ℕ → Opcodes M → Network M P L → List Bytes → Outcome (Option (Network M P L))
  unfolding block_until_listening filter_peers bootstrap_each
  bootstrap writer now opcodes net addresses = elim (block_until_listening net) [
    | none ↦ done none
    | some net' ↦ filter_peers w.go net'.hosts net'.address addresses >>= λ (hosts, filtered).
        bootstrap_each writer now opcodes (record net' { hosts = hosts }) filtered >>= λ net''.
        done (some net'')
  ]
