-- ===== src/Directory/Watch.antt =====
-- win_io/include/win_io/read_directory_changes.h: DirectoryChanges, which watches a directory
-- through a port that it does not own, and DirectoryChangesResults.
pub mod Results
pub mod Ownership
pub mod Examples
use win_io.Base.{ℕ, ◌%◌, Bool, true, false, not, ◌&&◌, Option, none, some, ◌==◌, if◌then◌else◌}
use win_io.Base.Outcome.{Outcome, done, ◌>>=◌, ◌>>◌, assert}
use win_io.Os.{Ptr, null, is_null, invalid_handle, ErrorCode, no_error, is_error, infinite}
use win_io.Port.{PortEntry, PortApi, IoCompletionPort, wait_for, associate_with_impl}
use win_io.Directory.Parser.{Range, range_of_entry}

-- CreateFileW on the name of the directory, and ReadDirectoryChangesW on a handle, a buffer with
-- its length, the two settings and the address of the OVERLAPPED.
pub record WatchApi : Type 1 where
  pub port_api : PortApi
  pub create_file : port_api.World → Ptr × port_api.World
  pub read_directory_changes :
      (directory buffer : Ptr) (length : ℕ) (watch_sub_tree : Bool) (notify_filter : ℕ) (ov : Ptr)
      → port_api.World
      → Bool × port_api.World

-- `ov` is the address of `ov_`, which lies in the object; `io_port` is what `io_port_` points to.
pub record DirectoryChanges : Type 0 where
  pub io_port : Option IoCompletionPort
  pub directory : Ptr
  pub buffer : Ptr
  pub dir_key : ℕ
  pub ov : Ptr
  pub length_bytes : ℕ
  pub notify_filter : ℕ
  pub owns_directory : Bool
  pub watch_sub_tree : Bool

-- What a move leaves of an object whose `ov_` is at this address.
abbrev pub moved_from : Ptr → DirectoryChanges
moved_from ov = record {
  io_port = none;
  directory = invalid_handle;
  buffer = null;
  dir_key = 0;
  ov = ov;
  length_bytes = 0;
  notify_filter = 0;
  owns_directory = false;
  watch_sub_tree = false;
}

-- DirectoryChangesResults
pub data DirectoryChangesResults : Type 0 where
  no_results : DirectoryChangesResults
  directory_changes : Range → DirectoryChangesResults
  port_changes : PortEntry → DirectoryChangesResults

unfoldable pub is_directory_change : DirectoryChanges → PortEntry → Bool
is_directory_change o entry = (entry.completion_key == o.dir_key) && (entry.overlapped == o.ov)

unfoldable pub has_buffer_overflow : DirectoryChanges → PortEntry → Bool
unfolding is_directory_change
has_buffer_overflow o entry = is_directory_change o entry && (entry.bytes_transferred == 0)

unfoldable pub is_valid_directory_change : DirectoryChanges → PortEntry → Bool
unfolding is_directory_change
is_valid_directory_change o entry =
    is_directory_change o entry && not (entry.bytes_transferred == 0)

-- What a caller of either `make` gives, but for the directory.
pub record WatchSettings : Type 0 where
  pub buffer : Ptr
  pub length : ℕ
  pub watch_sub_tree : Bool
  pub notify_filter : ℕ
  pub io_port : IoCompletionPort
  pub dir_key : ℕ

module _ (api : WatchApi) where
  open api use {port_api, create_file, read_directory_changes}

  -- `make` on a handle, with the address of `ov_` in the object that it makes: the object, the
  -- error and the state.
  unfoldable pub make_on_handle :
      (directory : Ptr)
      → WatchSettings
      → (ov : Ptr) → port_api.World
      → Outcome (Option DirectoryChanges × ErrorCode × port_api.World)
  unfolding associate_with_impl
  make_on_handle directory settings ov w = do
    assert (settings.buffer % 4 == 0)
    assert (not (directory == invalid_handle) && not (is_null directory))
    associated ← associate_with_impl port_api settings.io_port directory settings.dir_key w
    if is_error associated.0
        then done (none, associated.0, associated.1)
        else done (
          some (record {
            io_port = some settings.io_port;
            directory = directory;
            buffer = settings.buffer;
            dir_key = settings.dir_key;
            ov = ov;
            length_bytes = settings.length;
            notify_filter = settings.notify_filter;
            owns_directory = false;
            watch_sub_tree = settings.watch_sub_tree;
          }),
          associated.0,
          associated.1,
        )

  -- open_directory: the handle and the error code, which a success leaves alone.
  unfoldable pub open_directory : ErrorCode → port_api.World → Ptr × ErrorCode × port_api.World
  open_directory ec w =
      let (handle, w') = create_file w in
      if handle == invalid_handle
      then (handle, port_api.get_last_error w', w')
      else (handle, ec, w')

  -- The last part of `make` on a name.
  abbrev pub take_over :
      (directory : Ptr)
      → Option DirectoryChanges × ErrorCode × port_api.World
      → Option DirectoryChanges × ErrorCode × port_api.World
  take_over directory (none, ec, w) = (none, ec, (port_api.close_handle directory w).1)
  take_over directory (some o, ec, w) =
      if is_error ec
      then (none, ec, (port_api.close_handle directory w).1)
      else (some (record o { owns_directory = true }), ec, w)

  -- `make` on a name, with the error code that the caller passes in.
  unfoldable pub make_on_name :
      ErrorCode
      → WatchSettings
      → (ov : Ptr) → port_api.World
      → Outcome (Option DirectoryChanges × ErrorCode × port_api.World)
  unfolding open_directory make_on_handle
  make_on_name ec settings ov w =
      let (directory, ec', w') = open_directory ec w in
      if is_error ec'
      then done (none, ec', w')
      else do made ← make_on_handle directory settings ov w'; done (take_over directory made)

  -- `close`, and the destructor, which calls it.
  unfoldable pub stop : DirectoryChanges → port_api.World → DirectoryChanges × port_api.World
  stop o w =
      if o.owns_directory
      then (
        record o { directory = null; owns_directory = false },
        (port_api.close_handle o.directory w).1,
      )
      else (o, w)

  -- The move assignment from another object: what the two objects are afterwards.
  unfoldable pub move_watch :
      (this rhs : DirectoryChanges)
      → port_api.World
      → DirectoryChanges × DirectoryChanges × port_api.World
  unfolding stop
  move_watch this rhs w = (record rhs { ov = this.ov }, moved_from rhs.ov, (stop this w).1)

  unfoldable pub start_watch : DirectoryChanges → port_api.World → ErrorCode × port_api.World
  start_watch o w =
      let (status, w') =
        read_directory_changes o.directory o.buffer o.length_bytes o.watch_sub_tree o.notify_filter
          o.ov w in
      if not status then (port_api.get_last_error w', w') else (no_error, w')

  -- What `wait_impl` makes of the entry that it got.
  abbrev pub results_of : DirectoryChanges → Option PortEntry → DirectoryChangesResults
  results_of o none = no_results
  results_of o (some entry) =
      if not (is_valid_directory_change o entry)
      then port_changes entry
      else directory_changes (range_of_entry o.buffer entry)

  -- wait_impl, on the port that the object was made with.
  unfoldable pub wait_results :
      DirectoryChanges
      → IoCompletionPort
      → ℕ
      → port_api.World
      → DirectoryChangesResults × ErrorCode × port_api.World
  unfolding wait_for is_valid_directory_change range_of_entry
  wait_results o port milliseconds w =
      let (entry, ec, w') = wait_for port_api port milliseconds w in (results_of o entry, ec, w')

  unfoldable pub get_results :
      DirectoryChanges
      → IoCompletionPort
      → port_api.World
      → DirectoryChangesResults × ErrorCode × port_api.World
  unfolding wait_results
  get_results o port w = wait_results o port infinite w

  unfoldable pub query_results :
      DirectoryChanges
      → IoCompletionPort
      → port_api.World
      → DirectoryChangesResults × ErrorCode × port_api.World
  unfolding wait_results
  query_results o port w = wait_results o port 0 w
