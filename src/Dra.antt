-- ===== src/Dra.antt =====
-- The Diameter routing agent (dra): the shallow view of messages that it forwards.
pub mod Outcome
pub mod Header
pub mod Avp
pub mod Rewrite
pub mod Layout
pub mod Iterate
pub mod Routing
pub mod Proxy
pub mod Origin
pub mod Unpadded
pub mod Outgoing
pub mod Peers
pub mod Pending
pub mod ProtocolError
pub mod Node
pub mod Framing
pub mod Relay
pub mod Kept
pub mod Invariant
pub mod Waiting
pub mod Answering
pub mod Picking
pub mod ErrorAnswer
mod Runs
mod NodeRuns
