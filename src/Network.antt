-- ===== src/Network.antt =====
-- network/network.go, and what network/client.go does over its network. State is passed on by hand;
-- the calls of plugins are recorded in their order.
pub mod State
pub mod Peers
pub mod Context
pub mod Messages
pub mod Sends
pub mod PluginContext
pub mod Dispatch
pub mod Accept
pub mod Goroutines
pub mod Listen
pub mod Flush
pub mod Writes
pub mod Broadcast
pub mod Signed
pub mod Registry
pub mod Payload
pub mod Handed
pub mod Rounds
pub mod Numbering
pub mod Tables
pub mod Clients
pub mod Identity
pub mod Own
mod Samples
mod Tests
