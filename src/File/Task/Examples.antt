-- ===== src/File/Task/Examples.antt =====
-- The reads of the examples of File, awaited by the coroutine at 55 with the task at 99; the port
-- has the entry of the read, whose OVERLAPPED is at 0x10000.
use win_io.Base.{ℕ, ◌≡◌, refl, arith, none, some, List, [], ◌∷◌, true}
use win_io.Base.Outcome.{done}
use win_io.Os.{Ptr, no_error, error_invalid_data}
use win_io.Port.{PortEntry, port_entry}
use win_io.Port.Examples.{system, system_fifo, port}
use win_io.File.Read.{empty_buffer, SingleReadOverlapped, ReadEnd, failed, invoke_read_end}
use win_io.File.Read.Delivery.{completed, scheduled_ov}
use win_io.File.Examples.{
  pages, waiting, content, filled, pages-IsPages, valid-IsRequest, same_bytes,
}
use win_io.File.Task.{
  file_key, AsyncReadTask, new_read, on_end, await_resume, finish_suspend, await_suspend,
  handle_iocp_once,
}
use win_io.File.Task.Completion.{
  handle_iocp_once-AllEnd, Reads, await_suspend-Reads, await_suspend-at_once,
}

-- The system has finished the read with all 1000 bytes that there are.
abbrev overlapped_at : Ptr → SingleReadOverlapped
overlapped_at _ = completed (scheduled_ov pages 99 5000 10) 1000

abbrev entry : PortEntry
entry = port_entry 1000 file_key pages

await_suspend-Reads_example :
    (task : AsyncReadTask) × (await_suspend (λ _. pages) waiting 99 55 (new_read 7 5000 10)
      ≡ done (finish_suspend none (some (scheduled_ov pages 99 5000 10)) task))
    × (e : ReadEnd) × (w' : List PortEntry × ℕ) × (handle_iocp_once system overlapped_at port
          (entry ∷ [], no_error)
        ≡ done (1, e ∷ [], w'))
    × (e.callback ≡ 99)
    × (task' : AsyncReadTask) × (on_end task e.error e.buffer ≡ done task')
    × Reads filled content 5000 10 task'
await_suspend-Reads_example =
    await_suspend-Reads (λ _. pages) waiting 7 99 5000 10 pages valid-IsRequest pages-IsPages
      (λ _. refl) 55 filled content 1000 system system_fifo port (entry ∷ [], no_error)
      overlapped_at pages (omega arith) (omega arith) (omega arith) (omega arith) (λ _. refl)
      same_bytes refl refl

await_suspend-at_once_example :
    (resumed : AsyncReadTask) × (task : AsyncReadTask) × (await_suspend
        (λ _. pages)
        (λ _. failed 38)
        99
        55
        (new_read 7 5000 10)
      ≡ done (record { resumed = some resumed; waiting = none; task = task; suspends = true }))
    × ((await_resume resumed).0 ≡ (38, empty_buffer))
    × ((await_resume task).0.0 ≡ no_error)
await_suspend-at_once_example =
    await_suspend-at_once (λ _. pages) (λ _. failed 38) 7 99 5000 10 pages valid-IsRequest
      pages-IsPages (λ _. refl) 55 38 (omega arith) (omega arith) (λ _. refl)

-- Two reads that stopped before their first byte, with pages at the address of their OVERLAPPED.
abbrev short_at : Ptr → SingleReadOverlapped
short_at a = completed (scheduled_ov a 99 5000 10) 0

abbrev short_end : Ptr → ReadEnd
short_end a = record {
  callback = 99;
  error = error_invalid_data;
  buffer = empty_buffer;
  freed = a ∷ [];
}

short_ends : (a : Ptr) → invoke_read_end (short_at a) 0 ≡ done (short_end a)
unfolding invoke_read_end
short_ends a = refl

abbrev two : List PortEntry
two = port_entry 0 file_key 600 ∷ port_entry 0 file_key 700 ∷ []

handle_iocp_once-AllEnd_example :
    (w' : List PortEntry × ℕ) × (handle_iocp_once system short_at port (two, no_error)
      ≡ done (2, short_end 600 ∷ short_end 700 ∷ [], w'))
handle_iocp_once-AllEnd_example =
    handle_iocp_once-AllEnd short_at system system_fifo port (two, no_error) two
      (short_end 600 ∷ short_end 700 ∷ []) refl (λ e. ground (arith, e)) (omega arith)
      (
        refl,
        (λ e. omega (arith, e)),
        short_ends 600,
        (refl, (λ e. omega (arith, e)), short_ends 700, record {}),
      )
