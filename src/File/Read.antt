-- ===== src/File/Read.antt =====
-- win_io_coro/include/win_io_coro/coro_async_file.h: one read of a file that is open for unbuffered
-- overlapped reads. `ReadFile` and `VirtualAlloc` are arguments; addresses do not wrap, as the
-- memory that VirtualAlloc returns lies inside the address space.
pub mod Delivery
use win_io.Base.{
  ℕ, ◌+◌, ◌-◌, ◌*◌, ◌/◌, ◌%◌, ◌^◌, min, Bool, not, List, [], ◌∷◌, ltb, leb, ◌==◌, if◌then◌else◌,
}
use win_io.Base.Outcome.{Outcome, done, ◌>>=◌, ◌>>◌, assert}
use win_io.Os.{
  Ptr, null, is_null, invalid_handle, ErrorCode, no_error, is_error, dword, error_invalid_data,
  error_bad_length, error_io_pending,
}
use win_io.File.Sectors.{
  sector_size, u64, roundup, from_any_offset_and_size, max_read_size_per_single_call,
}

-- ReadBuffer: it owns the pages at `pages_start`.
pub record ReadBuffer : Type 0 where
  pub pages_start : Ptr
  pub user_offset : ℕ
  pub user_size : ℕ

-- ReadBuffer{}, and what a move leaves behind.
abbrev pub empty_buffer : ReadBuffer
empty_buffer = record { pages_start = null; user_offset = 0; user_size = 0 }

-- ReadBuffer::GetData, as an address and a length.
unfoldable pub get_data : ReadBuffer → Outcome (Ptr × ℕ)
get_data b = do
  assert (not (is_null b.pages_start))
  done (b.pages_start + b.user_offset, b.user_size)

-- ~ReadBuffer: the pages that it gives back to VirtualFree.
unfoldable pub destroy_buffer : ReadBuffer → List Ptr
destroy_buffer b = if is_null b.pages_start then [] else b.pages_start ∷ []

-- The move assignment from another buffer: what is given back, this buffer, and the other one.
unfoldable pub move_buffer : (this rhs : ReadBuffer) → List Ptr × ReadBuffer × ReadBuffer
unfolding destroy_buffer
move_buffer this rhs = (destroy_buffer this, rhs, empty_buffer)

-- GetAligned: `& ~(Alignment - 1)` of a power of two rounds down to a multiple.
unfoldable pub get_aligned : ℕ → Ptr → Outcome Ptr
get_aligned alignment base = do
  assert (not (is_null base))
  let memory = u64 (base + alignment - 1) / alignment * alignment
  assert (memory % alignment == 0)
  done memory

-- SingleReadOverlapped, with the fields Internal and InternalHigh of its OVERLAPPED, which the
-- system writes when the read ends.
pub record SingleReadOverlapped : Type 0 where
  pub internal : ℕ
  pub internal_high : ℕ
  pub user_offset : ℕ
  pub user_size : ℕ
  pub pages_start : Ptr
  pub overlapped_size : ℕ
  pub callback : Ptr

-- sizeof and alignof of SingleReadOverlapped where pointers have 64 bits: OVERLAPPED has 32 bytes.
abbrev pub sizeof_overlapped : ℕ
sizeof_overlapped = 72

abbrev pub alignof_overlapped : ℕ
alignof_overlapped = 8

-- GetReadBufferStart
unfoldable pub get_read_buffer_start : SingleReadOverlapped → Ptr
get_read_buffer_start ov = ov.pages_start + ov.overlapped_size

-- The call of `AsyncReadTask::on_end`, and the pages that were given back before it.
pub record ReadEnd : Type 0 where
  pub callback : Ptr
  pub error : ErrorCode
  pub buffer : ReadBuffer
  pub freed : List Ptr

-- InvokeReadFail
unfoldable pub invoke_read_fail : SingleReadOverlapped → ℕ → ReadEnd
invoke_read_fail ov last_error = record {
  callback = ov.callback;
  error = last_error;
  buffer = empty_buffer;
  freed = ov.pages_start ∷ [];
}

-- InvokeReadEnd
unfoldable pub invoke_read_end : SingleReadOverlapped → ℕ → Outcome ReadEnd
unfolding invoke_read_fail from_any_offset_and_size
invoke_read_end ov read_bytes =
    if not (ov.internal == 0) then done (invoke_read_fail ov (dword ov.internal)) else do
      assert (read_bytes == ov.internal_high)
      let io_sizes = from_any_offset_and_size ov.user_offset ov.user_size
      assert (leb io_sizes.offset ov.user_offset)
      let delta = ov.user_offset - io_sizes.offset
      if ltb read_bytes delta then done (invoke_read_fail ov error_invalid_data) else do
        let size = min (read_bytes - delta) ov.user_size
        if not (size == ov.user_size)
            then done (invoke_read_fail ov error_bad_length)
            else done (record {
              callback = ov.callback;
              error = no_error;
              buffer = record {
                pages_start = ov.pages_start;
                user_offset = ov.overlapped_size + delta;
                user_size = ov.user_size;
              };
              freed = [];
            })

-- What the code asks of ReadFile.
pub record ReadRequest : Type 0 where
  pub file : Ptr
  pub start : Ptr
  pub bytes : ℕ
  pub offset : ℕ

-- The call that ScheduleReadImpl_ makes for the offset and size in `ov`.
unfoldable pub read_request : Ptr → SingleReadOverlapped → ReadRequest
unfolding get_read_buffer_start
read_request file ov =
    let io_size = from_any_offset_and_size ov.user_offset ov.user_size in
    record {
      file = file;
      start = get_read_buffer_start ov;
      bytes = dword io_size.size;
      offset = io_size.offset;
    }

-- ReadFile returns TRUE with the two fields of OVERLAPPED written, or FALSE and GetLastError.
pub data ReadStart : Type 0 where
  finished : (internal internal_high : ℕ) → ReadStart
  failed : (last_error : ErrorCode) → ReadStart

-- What is left when ScheduleReadImpl_ returns: the end of the read, or a pending read that the
-- completion port will report.
pub data Scheduled : Type 0 where
  ended : ReadEnd → Scheduled
  pending : SingleReadOverlapped → Scheduled

-- The last part of ScheduleReadImpl_, by what ReadFile returned.
unfoldable pub after_read_file : SingleReadOverlapped → ℕ → ReadStart → Outcome Scheduled
unfolding invoke_read_end
after_read_file ov bytes (finished internal internal_high) = do
  let ov' = record ov { internal = internal; internal_high = internal_high }
  e ← invoke_read_end ov' (dword bytes)
  done (ended e)
after_read_file ov bytes (failed last_error) =
    if not (last_error == error_io_pending)
    then done (ended (invoke_read_fail ov last_error))
    else done (pending ov)

-- EmplaceIntoPage
unfoldable pub emplace_into_page : Ptr → ℕ → Outcome SingleReadOverlapped
unfolding get_aligned
emplace_into_page pages_start overlapped_size = do
  assert (not (is_null pages_start))
  ptr ← get_aligned alignof_overlapped pages_start
  assert (leb (ptr + sizeof_overlapped) (ptr + overlapped_size))
  done (record {
    internal = 0;
    internal_high = 0;
    user_offset = 0;
    user_size = 0;
    pages_start = pages_start;
    overlapped_size = overlapped_size;
    callback = null;
  })

-- ScheduleReadImpl_
unfoldable pub schedule_read :
    (virtual_alloc : ℕ → Ptr) (read_file : ReadRequest → ReadStart)
    → (file : Ptr) (user_offset user_size : ℕ) (on_finish : Ptr) → Outcome Scheduled
unfolding roundup max_read_size_per_single_call
schedule_read virtual_alloc read_file file user_offset user_size on_finish = do
  assert (not (file == invalid_handle))
  assert (not (user_size == 0))
  assert (leb user_offset max_read_size_per_single_call)
  let overlapped_size = roundup sizeof_overlapped sector_size
  let io_size = from_any_offset_and_size user_offset user_size
  let pages_start = virtual_alloc (u64 (io_size.size + overlapped_size))
  assert (not (is_null pages_start))
  assert (pages_start % sector_size == 0)
  emplaced ← emplace_into_page pages_start overlapped_size
  let ov = record emplaced {
    callback = on_finish;
    user_offset = user_offset;
    user_size = user_size;
  }
  after_read_file ov io_size.size (read_file (read_request file ov))
