-- ===== src/Sockets.antt =====
-- win_socks/include/unifex_IOCP_sockets.hpp: sockets over an I/O completion port. The header turns
-- assertions on in every build, so a failed one stops the program.
pub mod Buffers
pub mod Transfer
pub mod Operation
pub mod Schedulers
pub mod Senders
pub mod Select
pub mod RangeConnect
pub mod Handles
mod Examples
pub mod Stream
pub mod Accept
pub mod Resolve
pub mod Wait
