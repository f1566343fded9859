-- ===== src/Server.antt =====
-- The C++ server, src/server/*.cpp: its state (State), the group manager (Groups), what a session
-- does with a packet (Handlers), and the events of the sockets (Events). The other modules prove.
pub mod State
pub mod Groups
pub mod Handlers
pub mod Events
pub mod Lifecycle
pub mod Main
pub mod Frame
pub mod Identity
pub mod Reachable
pub mod Isolation
pub mod Delivery
pub mod Login
pub mod Sockets
pub mod Presence
pub mod Vouched
pub mod Unstored
mod Examples
