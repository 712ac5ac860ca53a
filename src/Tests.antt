-- ===== src/Tests.antt =====
-- Concrete runs of the modelled code, and an instance of each theorem at concrete data.
pub mod Poller
pub mod Requests
pub mod Windows
pub mod Routes
pub mod Caches
pub mod Senders
pub mod Calls
pub mod Exchanges
pub mod Readers
pub mod Sockets
pub mod Starts
pub mod Trackers
pub mod Connections
pub mod Whole
