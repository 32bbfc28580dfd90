-- ===== src/Network/PluginContext.antt =====
-- network/message.go: what a plugin is given with a message. A client is known by its place among the
-- clients of its network.
use noise.Base.{Option, Outcome, done, get_elem?, none, panic, some, ℕ}
use noise.Client.{Proto}
use noise.Network.Context.{Context}
use noise.Network.Messages.{Opcodes}
use noise.Network.Sends.{reply}
use noise.Network.State.{Network, NetworkError, World}
use noise.Peer.{PeerId}
use noise.Wire.{Writer}

pub record PluginContext (M : Type 0) : Type 0 where
  pub client : ℕ
  pub message : Proto M
  pub nonce : ℕ

module _ {M : Type 0} where
  unfoldable pub context_message : PluginContext M → Proto M
  context_message pctx = pctx.message

  unfoldable pub context_client : PluginContext M → ℕ
  context_client pctx = pctx.client

module _ {M P L : Type 0} where
  -- `Self`: the identity of the client's network.
  unfoldable pub context_self : Network M P L → PluginContext M → PeerId
  context_self net pctx = net.id

  -- `Sender`: a client without an identity panics.
  unfoldable pub context_sender : Network M P L → PluginContext M → Outcome PeerId
  context_sender net pctx = elim (get_elem? net.clients pctx.client) [
    | none ↦ panic
    | some c ↦ elim c.id [ none ↦ panic | some id ↦ done id ]
  ]

module _ {M P L E : Type 0} (w : World M L E) where
  -- `Reply`: the nonce is the one of the message.
  unfoldable pub context_reply :
      Writer E
      → ℕ
      → Opcodes M
      → Network M P L
      → Context
      → PluginContext M
      → Option (Proto M)
      → Outcome (Network M P L × Option (NetworkError E))
  unfolding reply
  context_reply writer now opcodes net ctx pctx message = elim (get_elem? net.clients pctx.client) [
    | none ↦ panic
    | some c ↦ reply w writer now opcodes net ctx c.address pctx.nonce message
  ]
