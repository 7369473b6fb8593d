-- ===== src/File.antt =====
-- win_io_coro/include/win_io_coro/coro_async_file.h: unbuffered overlapped reads of files.
pub mod Sectors
pub mod Read
pub mod Task
pub mod Open
mod Examples
