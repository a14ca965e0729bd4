-- ===== src/Client.antt =====
-- client/: the connections of the gateway to its Diameter agents, as the senders of messages see them.
pub mod State
pub mod AddressPool
pub mod SingleFlight
pub mod Stale
pub mod Waiters
pub mod Inbox
pub mod Dispatching
pub mod Config
pub mod Connection
pub mod Lifecycle
pub mod Interleaving
pub mod Reconnecting
pub mod Recovery
pub mod Backoff
pub mod LocalBind
pub mod ConnectionPool
pub mod DraPool
pub mod Rotation
pub mod Delivery
pub mod Priority
pub mod Grouping
mod Runs
mod LifecycleRuns
mod InboxRuns
mod AddressRuns
