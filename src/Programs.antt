-- ===== src/Programs.antt =====
-- The example programs: what they compute themselves, and how they use the libraries.
pub mod Echo
pub mod EchoServer
pub mod UdpEchoServer
pub mod Watcher
mod Examples
