-- ===== src/Api.antt =====
-- src/api.rs, src/protocol.rs: the downstream interface, HTTP requests and websocket sessions.
pub mod Protocol
pub mod Server
pub mod Commands
pub mod Session
pub mod Requests
pub mod Joint
pub mod Agrees
pub mod Agreement
pub mod Reached
pub mod Searches
pub mod Replies
pub mod Runs
pub mod Ends
pub mod Accepted
pub mod Readiness
pub mod Volumes
