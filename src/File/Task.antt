-- ===== src/File/Task.antt =====
-- win_io_coro/include/win_io_coro/coro_async_file.h: the coroutine side of a read, AsyncReadTask, and
-- HandleIOCP_Once, which ends the reads whose entries a port delivers. A task is known by its address;
-- resuming its coroutine is left to the caller, who has the task as the coroutine finds it.
pub mod Completion
mod Examples
use win_io.Base.{
  ℕ, Bool, true, false, not, Option, none, some, List, [], ◌∷◌, ◌==◌, length, if◌then◌else◌,
}
use win_io.Base.Outcome.{Outcome, done, ◌>>=◌, ◌>>◌, assert}
use win_io.Os.{Ptr, null, is_null, ErrorCode, no_error, is_error, dword}
use win_io.Port.{PortEntry, PortApi, IoCompletionPort, get_many}
use win_io.File.Read.{
  ReadBuffer, empty_buffer, SingleReadOverlapped, ReadEnd, ReadRequest, ReadStart, Scheduled, ended,
  pending, invoke_read_end, invoke_read_fail, schedule_read,
}

-- kAsyncIOCPFileKey
abbrev pub file_key : ℕ
file_key = 42

-- `file` is the handle of the AsyncFile; `awaiter` is null before `co_await`.
pub record AsyncReadTask : Type 0 where
  pub file : Ptr
  pub offset : ℕ
  pub size : ℕ
  pub error : ErrorCode
  pub read_data : ReadBuffer
  pub awaiter : Ptr

-- AsyncReadTask(file, offset, size), which AsyncFile::read calls.
unfoldable pub new_read : (file : Ptr) (offset size : ℕ) → AsyncReadTask
new_read file offset size = record {
  file = file;
  offset = offset;
  size = size;
  error = no_error;
  read_data = empty_buffer;
  awaiter = null;
}

-- `on_end`, up to where the coroutine is resumed.
unfoldable pub on_end : AsyncReadTask → ErrorCode → ReadBuffer → Outcome AsyncReadTask
on_end task ec buffer = do
  assert (not (is_null task.awaiter))
  done (record task { error = ec; read_data = buffer })

-- `await_resume`: the result of `co_await`, and the task whose buffer has been moved out.
unfoldable pub await_resume : AsyncReadTask → (ErrorCode × ReadBuffer) × AsyncReadTask
await_resume task = ((task.error, task.read_data), record task { read_data = empty_buffer })

-- `await_suspend`. If the read ends at once, `resumed` is the task as the coroutine finds it when it
-- is resumed, which is before `_error` is written. `suspends` is what is returned.
pub record Suspended : Type 0 where
  pub resumed : Option AsyncReadTask
  pub waiting : Option SingleReadOverlapped
  pub task : AsyncReadTask
  pub suspends : Bool

-- `_error = ScheduleReadImpl_(...)`, which returns no error.
abbrev pub finish_suspend :
    Option AsyncReadTask → Option SingleReadOverlapped → AsyncReadTask → Suspended
finish_suspend resumed waiting task = record {
  resumed = resumed;
  waiting = waiting;
  task = record task { error = no_error };
  suspends = not (is_error no_error);
}

unfoldable pub await_suspend :
    (virtual_alloc : ℕ → Ptr) (read_file : ReadRequest → ReadStart)
    → (address awaiter : Ptr) → AsyncReadTask
    → Outcome Suspended
unfolding schedule_read on_end
await_suspend virtual_alloc read_file address awaiter task = do
  let task' : AsyncReadTask = record task { awaiter = awaiter }
  scheduled ← schedule_read virtual_alloc read_file task.file task.offset task.size address
  elim scheduled [
    | ended e ↦ on_end task' e.error e.buffer >>= λ t. done (finish_suspend (some t) none t)
    | pending ov ↦ done (finish_suspend none (some ov) task')
  ]

-- The loops of HandleIOCP_Once, with what memory holds at the address of an OVERLAPPED; `end_read`
-- is the call in the loop. The ends of the reads are in the order of the calls of `on_end`.
abbrev pub end_reads :
    (overlapped_at : Ptr → SingleReadOverlapped)
    → (end_read : SingleReadOverlapped → PortEntry → Outcome ReadEnd) → List PortEntry
    → Outcome (List ReadEnd)
end_reads overlapped_at end_read [] = done []
end_reads overlapped_at end_read (entry ∷ entries) = do
  assert (entry.completion_key == file_key)
  assert (not (is_null entry.overlapped))
  e ← end_read (overlapped_at entry.overlapped) entry
  es ← end_reads overlapped_at end_read entries
  done (e ∷ es)

-- HandleIOCP_Once
unfoldable pub handle_iocp_once :
    (api : PortApi) (overlapped_at : Ptr → SingleReadOverlapped)
    → IoCompletionPort
    → api.World
    → Outcome (ℕ × List ReadEnd × api.World)
unfolding get_many invoke_read_end invoke_read_fail
handle_iocp_once api overlapped_at port w = do
  let (ready, ec, w') = get_many api port 64 false w
  es ←
      if is_error ec
      then end_reads overlapped_at (λ ov entry. done (invoke_read_fail ov ec)) ready
      else end_reads overlapped_at (λ ov entry. invoke_read_end ov (dword entry.bytes_transferred))
          ready
  done (length ready, es, w')
