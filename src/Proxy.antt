-- ===== src/Proxy.antt =====
-- crates/budu-proxy/src: what one request does between the client, the pipeline and the upstream
-- server.
pub mod Model
pub mod Headers
pub mod Reqid
pub mod Handle
pub mod Respond
pub mod Serve
pub mod Tally
pub mod Fate
pub mod Keeping
pub mod Answers
pub mod Detect
pub mod Sent
pub mod Refused
pub mod Framing
pub mod Admin
pub mod HopByHop
pub mod Ids
pub mod Buffer
