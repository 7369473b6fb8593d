-- ===== src/Directory.antt =====
-- win_io/include/win_io/read_directory_changes.h: changes of directories, and the watch over one.
pub mod Parser
pub mod Watch
