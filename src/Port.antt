-- ===== src/Port.antt =====
-- win_io/include/win_io/io_completion_port.h: the wrapper of one I/O completion port.
-- The functions of Windows are the fields of a record over a state of the system, `World`; what a
-- successful call is documented to do is in `Port.Fifo`, for the theorems that need it.
pub mod Fifo
pub mod Association
pub mod Examples
use win_io.Base.{
  ℕ, Bool, true, false, not, ◌&&◌, Option, none, some, List, [], ◌==◌, if◌then◌else◌, length,
}
use win_io.Base.Outcome.{Outcome, done, ◌>>=◌, ◌>>◌, assert}
use win_io.Os.{Ptr, null, is_null, invalid_handle, ErrorCode, no_error, dword, infinite}

pub record PortEntry : Type 0 where
  pub completion_key : ℕ
  pub overlapped : Ptr
  pub bytes_transferred : ℕ

-- The constructor of PortEntry, in the order of its parameters.
abbrev pub port_entry : (bytes key : ℕ) (overlapped : Ptr) → PortEntry
port_entry bytes key ov = record {
  completion_key = key;
  overlapped = ov;
  bytes_transferred = bytes;
}

-- operator== of PortEntry
unfoldable pub entry_eq : PortEntry → PortEntry → Bool
entry_eq lhs rhs =
    (lhs.bytes_transferred == rhs.bytes_transferred)
    && (lhs.completion_key == rhs.completion_key)
    && (lhs.overlapped == rhs.overlapped)

-- What GetQueuedCompletionStatus returns and writes through its pointers.
pub record Dequeued : Type 0 where
  pub status : Bool
  pub bytes_transferred : ℕ
  pub completion_key : ℕ
  pub overlapped : Ptr

-- The functions of Windows that the wrapper calls. CreateIoCompletionPort returns null when it
-- fails; GetQueuedCompletionStatusEx returns the entries that it wrote, as many as its count.
pub record PortApi : Type 1 where
  pub World : Type 0
  pub create_io_completion_port : (device existing : Ptr) (key threads : ℕ) → World → Ptr × World
  pub post_queued_completion_status :
      (port : Ptr) (bytes key : ℕ) (overlapped : Ptr) → World → Bool × World
  pub get_queued_completion_status : (port : Ptr) (milliseconds : ℕ) → World → Dequeued × World
  pub get_queued_completion_status_ex :
      (port : Ptr) (max_count milliseconds : ℕ) (alertable : Bool)
      → World
      → (Bool × List PortEntry) × World
  pub close_handle : Ptr → World → Bool × World
  pub get_last_error : World → ErrorCode

pub record IoCompletionPort : Type 0 where
  pub io_port : Ptr

-- IoCompletionPort(), and what a move leaves behind.
abbrev pub invalid_port : IoCompletionPort
invalid_port = record { io_port = null }

module _ (api : PortApi) where
  open api use {
    World, create_io_completion_port, post_queued_completion_status, get_queued_completion_status,
    get_queued_completion_status_ex, close_handle, get_last_error,
  }

  -- `make` with a hint of threads: the port, the error code, which a success leaves alone, and the
  -- state of the system.
  unfoldable pub make : ℕ → ErrorCode → World → Option IoCompletionPort × ErrorCode × World
  make concurrent_threads_hint ec w =
      let (port, w') = create_io_completion_port invalid_handle null 0 concurrent_threads_hint w in
      if is_null port
      then (none, get_last_error w', w')
      else (some (record { io_port = port }), ec, w')

  -- `close`, and the destructor, which calls it.
  unfoldable pub close : IoCompletionPort → World → Outcome (IoCompletionPort × World)
  close o w =
      if is_null o.io_port
      then done (o, w)
      else do let closed = close_handle o.io_port w; assert closed.0; done (invalid_port, closed.1)

  -- The move assignment from another object: what the two objects are afterwards.
  unfoldable pub move_assign :
      (this rhs : IoCompletionPort) → World → Outcome (IoCompletionPort × IoCompletionPort × World)
  unfolding close
  move_assign this rhs w = do closed ← close this w; done (rhs, invalid_port, closed.1)

  unfoldable pub post : IoCompletionPort → PortEntry → World → ErrorCode × World
  post o entry w =
      let (ok, w') =
        post_queued_completion_status o.io_port entry.bytes_transferred entry.completion_key
          entry.overlapped w in
      if not ok then (get_last_error w', w') else (no_error, w')

  -- There may be an entry beside an error: of an operation that failed.
  unfoldable pub wait_impl : IoCompletionPort → ℕ → World → Option PortEntry × ErrorCode × World
  wait_impl o milliseconds w =
      let (r, w') = get_queued_completion_status o.io_port milliseconds w in
      let entry = port_entry r.bytes_transferred r.completion_key r.overlapped in
      if r.status
      then (some entry, no_error, w')
      else if not (is_null r.overlapped)
      then (some entry, get_last_error w', w')
      else (none, get_last_error w', w')

  -- The span that is returned is the part of the caller's span that was written.
  unfoldable pub wait_many_impl :
      IoCompletionPort → (size milliseconds : ℕ) → Bool → World → List PortEntry × ErrorCode × World
  wait_many_impl o size milliseconds alertable w =
      let ((status, entries), w') =
        get_queued_completion_status_ex o.io_port (dword size) milliseconds alertable w in
      if status then (entries, no_error, w') else (entries, get_last_error w', w')

  unfoldable pub get : IoCompletionPort → World → Option PortEntry × ErrorCode × World
  unfolding wait_impl
  get o w = wait_impl o infinite w

  unfoldable pub query : IoCompletionPort → World → Option PortEntry × ErrorCode × World
  unfolding wait_impl
  query o w = wait_impl o 0 w

  -- `wait_for`, with the time in milliseconds: the count is cast to DWORD.
  unfoldable pub wait_for : IoCompletionPort → ℕ → World → Option PortEntry × ErrorCode × World
  unfolding wait_impl
  wait_for o ms w = wait_impl o (dword ms) w

  unfoldable pub get_many : IoCompletionPort → ℕ → Bool → World → List PortEntry × ErrorCode × World
  unfolding wait_many_impl
  get_many o size alertable w = wait_many_impl o size infinite alertable w

  unfoldable pub query_many :
      IoCompletionPort → ℕ → Bool → World → List PortEntry × ErrorCode × World
  unfolding wait_many_impl
  query_many o size alertable w = wait_many_impl o size 0 alertable w

  unfoldable pub wait_for_many :
      IoCompletionPort → (size ms : ℕ) → Bool → World → List PortEntry × ErrorCode × World
  unfolding wait_many_impl
  wait_for_many o size ms alertable w = wait_many_impl o size (dword ms) alertable w

  -- `associate_device`, and `associate_socket`, which does the same with a socket.
  unfoldable pub associate_with_impl :
      IoCompletionPort → (device : Ptr) (key : ℕ) → World → Outcome (ErrorCode × World)
  associate_with_impl o device key w =
      let (this_port, w') = create_io_completion_port device o.io_port key 0 w in
      if is_null this_port
      then done (get_last_error w', w')
      else do assert (this_port == o.io_port); done (no_error, w')
