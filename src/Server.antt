-- ===== src/Server.antt =====
-- server/: the chain of middlewares in front of a handler, the limit on connections, and the loop that serves one.
pub mod Middleware
pub mod Chaining
pub mod Accepting
pub mod Stats
pub mod Serving
pub mod Counters
pub mod Accounts
mod Runs
