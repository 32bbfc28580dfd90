-- ===== src/Network/Handed.antt =====
-- What `dispatchMessage` of network/network.go does with a message that it has decoded: a description
-- of the state afterwards.
use noise.Base.{◌++◌, ◌∙◌, ◌∷◌, ◌≡◌, List, [], ap, append-nil, append_assoc, map, refl, sym, ℕ}
use noise.Client.{
  PeerClient, Proto, bytes_message, ping, pong, lookup_node_request, lookup_node_response,
  registered, handle_bytes,
}
use noise.Network.Dispatch.{hand_on}
use noise.Network.State.{Network, Event, receive, notify, put_client}
use noise.Plugins.{PluginInfo, each, each_of}
use noise.Wire.{Message}

module _ {M P : Type 0} where
  -- All plugins are called with an event, in order.
  each_of-calls :
      (infos : List (PluginInfo P)) (event : Event M) (calls : List (P × Event M))
      → each_of infos (λ p calls. calls ++ ((p, event) ∷ [])) calls
        ≡ calls ++ map (λ info. (info.plugin, event)) infos
  unfolding each_of
  each_of-calls [] event calls = sym (append-nil calls)
  each_of-calls (info ∷ infos) event calls =
      each_of-calls infos event (calls ++ ((info.plugin, event) ∷ []))
      ∙ append_assoc calls ((info.plugin, event) ∷ []) (map (λ info. (info.plugin, event)) infos)

module _ {M P L : Type 0} where
  -- The network after every plugin was called with an event, in the order of the list.
  abbrev pub all_called : Network M P L → Event M → Network M P L
  all_called net event = record net {
    calls = net.calls ++ map (λ info. (info.plugin, event)) net.plugins.values;
  }

  notify-all_called :
      (net : Network M P L) (event : Event M) → notify net event ≡ all_called net event
  unfolding notify each
  notify-all_called net event =
      ap (λ calls. record net { calls = calls }) (each_of-calls net.plugins.values event net.calls)

  -- What becomes of a payload: bytes go to the end of the client's stream, anything else to every
  -- plugin with the request's nonce.
  abbrev pub handed : Network M P L → ℕ → PeerClient M Message → Proto M → ℕ → Network M P L
  handed net place c (bytes_message bytes) nonce =
      put_client net place
        (record c { stream = record c.stream { buffer = c.stream.buffer ++ bytes } })
  handed net place c ping nonce = all_called net (receive place ping nonce)
  handed net place c pong nonce = all_called net (receive place pong nonce)
  handed net place c (lookup_node_request t) nonce =
      all_called net (receive place (lookup_node_request t) nonce)
  handed net place c (lookup_node_response ps) nonce =
      all_called net (receive place (lookup_node_response ps) nonce)
  handed net place c (registered m) nonce = all_called net (receive place (registered m) nonce)

  pub hand_on-handed :
      (net : Network M P L) (place : ℕ) (c : PeerClient M Message) (message : Proto M) (nonce : ℕ)
      → hand_on net place c message nonce ≡ handed net place c message nonce
  unfolding hand_on handle_bytes
  hand_on-handed net place c (bytes_message bytes) nonce = refl
  hand_on-handed net place c ping nonce = notify-all_called net (receive place ping nonce)
  hand_on-handed net place c pong nonce = notify-all_called net (receive place pong nonce)
  hand_on-handed net place c (lookup_node_request t) nonce =
      notify-all_called net (receive place (lookup_node_request t) nonce)
  hand_on-handed net place c (lookup_node_response ps) nonce =
      notify-all_called net (receive place (lookup_node_response ps) nonce)
  hand_on-handed net place c (registered m) nonce =
      notify-all_called net (receive place (registered m) nonce)
