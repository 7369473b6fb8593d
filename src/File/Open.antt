-- ===== src/File/Open.antt =====
-- win_io_coro/include/win_io_coro/coro_async_file.h: AsyncFile, which owns the handle of a file.
pub mod Ownership
mod Examples
use win_io.Base.{ℕ, ◌%◌, ◌^◌, Bool, not, ◌==◌, if◌then◌else◌}
use win_io.Base.Outcome.{Outcome, done, ◌>>=◌}
use win_io.Os.{Ptr, null, invalid_handle, ErrorCode, no_error}
use win_io.Port.{PortApi, IoCompletionPort, associate_with_impl}
use win_io.File.Task.{file_key}

-- GetFileSizeEx also returns the size that it writes.
pub record FileApi : Type 1 where
  pub port_api : PortApi
  pub create_file : port_api.World → Ptr × port_api.World
  pub set_completion_notification_modes : Ptr → port_api.World → Bool × port_api.World
  pub get_file_size : Ptr → port_api.World → (Bool × ℕ) × port_api.World

-- `iocp` is the address of a port.
pub record AsyncFile : Type 0 where
  pub file_handle : Ptr
  pub iocp : Ptr
  pub file_size : ℕ

-- What a move leaves behind, and `close_file`.
abbrev pub no_file : AsyncFile
no_file = record { file_handle = invalid_handle; iocp = null; file_size = 0 }

module _ (api : FileApi) where
  open api use {port_api, create_file, set_completion_notification_modes, get_file_size}

  -- AsyncFile::open, with the address of the port: the file, whether an error is written, and the
  -- state. The file owns its handle on an error too.
  unfoldable pub open_file :
      (address : Ptr)
      → IoCompletionPort
      → port_api.World
      → Outcome (AsyncFile × ErrorCode × port_api.World)
  unfolding associate_with_impl
  open_file address port w =
      let (handle, w1) = create_file w in
      let file : AsyncFile = record { file_handle = handle; iocp = address; file_size = 0 } in
      if handle == invalid_handle
      then done (file, port_api.get_last_error w1, w1)
      else let (ok, w2) = set_completion_notification_modes handle w1 in
        if not ok
        then done (file, port_api.get_last_error w2, w2)
        else let ((sized, size), w3) = get_file_size handle w2 in
          if not sized then done (file, port_api.get_last_error w3, w3) else do
            associated ← associate_with_impl port_api port handle file_key w3
            done (record file { file_size = size % 2 ^ 64 }, associated.0, associated.1)

  -- AsyncFile::close_file, which the destructor calls.
  unfoldable pub close_file : AsyncFile → port_api.World → AsyncFile × port_api.World
  close_file o w =
      if not (o.file_handle == invalid_handle)
      then (no_file, (port_api.close_handle o.file_handle w).1)
      else (no_file, w)

  -- The move assignment from another object: what the two objects are afterwards.
  unfoldable pub move_file :
      (this rhs : AsyncFile) → port_api.World → AsyncFile × AsyncFile × port_api.World
  unfolding close_file
  move_file this rhs w = (rhs, no_file, (close_file this w).1)
