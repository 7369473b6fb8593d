-- ===== src/File/Task/Completion.antt =====
-- A read from `co_await` to its result.
use win_io.Base.{
  ℕ, zero, suc, ◌+◌, ◌%◌, ◌^◌, ◌≤◌, ◌<◌, ◌≡◌, ◌≢◌, refl, sym, ap, ◌∙◌, true, false, not, none, some,
  List, [], ◌∷◌, arith, length, take, ◌==◌,
}
use win_io.Base.Outcome.{Outcome, done}
use win_io.Os.{Ptr, null, no_error, error_io_pending, dword, infinite}
use win_io.Port.{PortEntry, port_entry, PortApi, IoCompletionPort, get_many}
use win_io.Port.Fifo.{IsFifo}
use win_io.File.Sectors.{sector_size}
use win_io.File.Read.{
  empty_buffer, get_data, SingleReadOverlapped, ReadEnd, ReadRequest, ReadStart, failed,
  invoke_read_end, read_request, after_read_file,
}
use win_io.File.Read.Delivery.{
  completed, scheduled_ov, IsPages, IsRequest, schedule_read_lem, schedule_read-Delivers,
}
use win_io.File.Task.{
  file_key, AsyncReadTask, new_read, on_end, await_resume, finish_suspend, await_suspend, end_reads,
  handle_iocp_once,
}

-- Each of the entries ends a read, with the given end.
abbrev pub AllEnd : (Ptr → SingleReadOverlapped) → List PortEntry → List ReadEnd → Type 0
AllEnd overlapped_at [] [] = Unit {0}
AllEnd overlapped_at [] (r ∷ rs) = ⊥
AllEnd overlapped_at (e ∷ es) [] = ⊥
AllEnd overlapped_at (e ∷ es) (r ∷ rs) =
    (e.completion_key ≡ file_key)
    × (e.overlapped ≢ null)
    × (invoke_read_end (overlapped_at e.overlapped) (dword e.bytes_transferred) ≡ done r)
    × AllEnd overlapped_at es rs

abbrev by_end : SingleReadOverlapped → PortEntry → Outcome ReadEnd
by_end ov entry = invoke_read_end ov (dword entry.bytes_transferred)

module _ (overlapped_at : Ptr → SingleReadOverlapped) where
  end_reads-AllEnd :
      (es : List PortEntry) (rs : List ReadEnd)
      → AllEnd overlapped_at es rs
      → end_reads overlapped_at by_end es ≡ done rs
  end_reads-AllEnd [] [] all = refl
  end_reads-AllEnd [] (r ∷ rs) all = absurd all
  end_reads-AllEnd (e ∷ es) [] all = absurd all
  end_reads-AllEnd (e ∷ es) (r ∷ rs) (keyed, some_ov, ends, all) =
      let key : (e.completion_key == 42) ≡ true = ground (arith, keyed) in
      let ov : (e.overlapped == 0) ≡ false = ground (arith, some_ov) in
      rw (key, ov, ends, end_reads-AllEnd es rs all) refl

  -- Up to 64 entries of finished reads, all that wait at the port, are ended together, in their
  -- order, and their number is returned.
  pub handle_iocp_once-AllEnd :
      (api : PortApi) (fifo : IsFifo api) (port : IoCompletionPort) (w : api.World)
      (es : List PortEntry) (rs : List ReadEnd)
      → fifo.queue w port.io_port ≡ es
      → es ≢ []
      → length es ≤ 64
      → AllEnd overlapped_at es rs
      → (w' : api.World) × (handle_iocp_once api overlapped_at port w ≡ done (length es, rs, w'))
  unfolding handle_iocp_once get_many
  handle_iocp_once-AllEnd api fifo port w es rs queued some_entry few all =
      let fits : dword 64 ≡ 64 = omega arith in
      let many =
        fifo.many w port.io_port 64 infinite false (omega arith)
          (λ e. some_entry (sym queued ∙ e)) in
      let whole : take 64 es ≡ es = take_few 64 es few in
      ((get_many api port 64 false w).2, rw (many, queued, whole, end_reads-AllEnd es rs all) refl)
    where
      take_few : (n : ℕ) (xs : List PortEntry) → length xs ≤ n → take n xs ≡ xs
      take_few zero [] h = refl
      take_few zero (x ∷ xs) h = absurd (omega arith)
      take_few (suc n) [] h = refl
      take_few (suc n) (x ∷ xs) h = ap (◌∷◌ x) (take_few n xs (omega arith))

-- What the coroutine gets from `co_await`: no error, and the bytes of the file.
pub record Reads (memory content : ℕ → ℕ) (offset size : ℕ) (task : AsyncReadTask) : Type 0 where
  pub success : (await_resume task).0.0 ≡ no_error
  pub address : ℕ
  pub span : get_data (await_resume task).0.1 ≡ done (address, size)
  pub same : (i : ℕ) → i < size → memory (address + i) ≡ content (offset + i)

module _ (virtual_alloc : ℕ → Ptr) (read_file : ReadRequest → ReadStart) (file address o s p : ℕ)
    (req : IsRequest file o s) (pages : IsPages p) (alloc : (n : ℕ) → virtual_alloc n ≡ p) where
  -- The coroutine suspends on a read that the system has accepted; when the entry of the read is the
  -- one at the port and the bytes are in the pages, HandleIOCP_Once ends this read alone, the task at
  -- the address that the read was given is told, and its coroutine gets the bytes of the file from
  -- `o` to `o + s`.
  pub await_suspend-Reads :
      (awaiter : Ptr) (memory content : ℕ → ℕ) (n : ℕ) (api : PortApi) (fifo : IsFifo api)
      (port : IoCompletionPort) (w : api.World) (overlapped_at : Ptr → SingleReadOverlapped)
      (a : Ptr)
      → awaiter ≢ null
      → a ≢ null
      → n < 2 ^ 32
      → o % sector_size + s ≤ n
      → ((r : ReadRequest) → read_file r ≡ failed error_io_pending)
      → let r = read_request file (scheduled_ov p address o s) in
        ((i : ℕ) → i < n → memory (r.start + i) ≡ content (r.offset + i))
        → fifo.queue w port.io_port ≡ port_entry n file_key a ∷ []
        → overlapped_at a ≡ completed (scheduled_ov p address o s) n
        → (task : AsyncReadTask) × (await_suspend virtual_alloc read_file address awaiter
              (new_read file o s)
            ≡ done (finish_suspend none (some (scheduled_ov p address o s)) task))
          × (e : ReadEnd) × (w' : api.World) × (handle_iocp_once api overlapped_at port w
              ≡ done (1, e ∷ [], w'))
          × (e.callback ≡ address)
          × (task' : AsyncReadTask) × (on_end task e.error e.buffer ≡ done task')
          × Reads memory content o s task'
  unfolding await_suspend new_read on_end await_resume
  await_suspend-Reads awaiter memory content n api fifo port w overlapped_at a some_awaiter some_ov
        small enough waits copied queued held =
      let (scheduled, e, ends, delivers) =
        schedule_read-Delivers virtual_alloc read_file file address o s p req pages alloc memory
          content n waits enough copied in
      let is_small : dword n ≡ n = omega arith in
      let is_awaited : not (awaiter == 0) ≡ true = ground arith in
      let (w', handled) =
        handle_iocp_once-AllEnd overlapped_at api fifo port w (port_entry n file_key a ∷ [])
          (e ∷ []) queued (λ e. ground (arith, e)) (omega arith)
          (refl, some_ov, rw (held, is_small) ends, record {}) in
      (
        record (new_read file o s) { awaiter = awaiter },
        rw (scheduled) refl,
        e,
        w',
        handled,
        delivers.told,
        record (new_read file o s) { awaiter = awaiter; error = e.error; read_data = e.buffer },
        rw (is_awaited) refl,
        record {
          success = delivers.success;
          address = delivers.address;
          span = delivers.span;
          same = delivers.same;
        },
      )

  -- If ReadFile fails at once, the coroutine is resumed with the error while `await_suspend` still
  -- runs; `await_suspend` then clears the error and still returns that the coroutine is suspended.
  pub await_suspend-at_once :
      (awaiter : Ptr) (code : ℕ)
      → awaiter ≢ null
      → code ≢ error_io_pending
      → ((r : ReadRequest) → read_file r ≡ failed code)
      → (resumed : AsyncReadTask) × (task : AsyncReadTask) × (await_suspend virtual_alloc read_file
            address awaiter
            (new_read file o s)
          ≡ done (record { resumed = some resumed; waiting = none; task = task; suspends = true }))
        × ((await_resume resumed).0 ≡ (code, empty_buffer))
        × ((await_resume task).0.0 ≡ no_error)
  unfolding await_suspend new_read on_end await_resume after_read_file
  await_suspend-at_once awaiter code some_awaiter final fails =
      let scheduled =
        schedule_read_lem virtual_alloc read_file file address o s p req pages alloc in
      let is_final : (code == 997) ≡ false = ground arith in
      let is_awaited : not (awaiter == 0) ≡ true = ground arith in
      (
        record (new_read file o s) { awaiter = awaiter; error = code; read_data = empty_buffer },
        record (new_read file o s) {
          awaiter = awaiter;
          error = no_error;
          read_data = empty_buffer;
        },
        rw (scheduled, fails, is_final, is_awaited) refl,
        refl,
        refl,
      )
