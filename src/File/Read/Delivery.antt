-- ===== src/File/Read/Delivery.antt =====
-- What a read of AsyncFile delivers to the coroutine that awaits it.
use win_io.Base.{
  ℕ, ◌+◌, ◌-◌, ◌%◌, ◌^◌, ◌≤◌, ◌<◌, ◌≡◌, refl, ◌∙◌, true, ◌≢◌, [], ◌∷◌, ◌++◌, ap, append-nil, arith,
  not, ltb, leb, ◌==◌, if◌then◌else◌,
}
use win_io.Base.Outcome.{done}
use win_io.Os.{Ptr, null, no_error, error_invalid_data, error_bad_length, error_io_pending}
use win_io.File.Sectors.{sector_size, from_any_offset_and_size}
use win_io.File.Read.{
  ReadBuffer, move_buffer, SingleReadOverlapped, ReadEnd, ReadRequest, ReadStart, failed, pending,
  get_data, destroy_buffer, emplace_into_page, after_read_file, read_request, invoke_read_fail,
  invoke_read_end, schedule_read,
}

-- `ov` when the system has finished the read with the given number of bytes.
abbrev pub completed : SingleReadOverlapped → ℕ → SingleReadOverlapped
completed ov bytes = record ov { internal = 0; internal_high = bytes }

-- What the awaiting coroutine is promised: it is `callback` that is told, with no error, and the
-- data are the `size` bytes of the file from `offset` on.
pub record Delivers (memory content : ℕ → ℕ) (callback : Ptr) (offset size : ℕ) (e : ReadEnd)
    : Type 0 where
  pub told : e.callback ≡ callback
  pub success : e.error ≡ no_error
  pub kept : e.freed ≡ []
  pub address : ℕ
  pub span : get_data e.buffer ≡ done (address, size)
  pub same : (i : ℕ) → i < size → memory (address + i) ≡ content (offset + i)

-- The bookkeeping of a read of `s` bytes at `o` whose pages begin at `p`.
abbrev pub scheduled_ov : Ptr → Ptr → (o s : ℕ) → SingleReadOverlapped
scheduled_ov p on_finish o s = record {
  internal = 0;
  internal_high = 0;
  user_offset = o;
  user_size = s;
  pages_start = p;
  overlapped_size = sector_size;
  callback = on_finish;
}

-- Pages as VirtualAlloc documents them: page-aligned, and in the half of the address space that
-- a process has.
pub record IsPages (p : Ptr) : Type 0 where
  pub some_memory : p ≢ null
  pub aligned : p % sector_size ≡ 0
  pub user_space : p < 2 ^ 63

pub record IsRequest (file o s : ℕ) : Type 0 where
  pub valid : file ≢ 2 ^ 64 - 1
  pub some_bytes : 0 < s
  pub size_dword : s < 2 ^ 32
  pub offset_small : o ≤ 2 ^ 32 - sector_size

emplace_into_page-ok :
    (p : Ptr) → IsPages p → emplace_into_page p sector_size ≡ done (scheduled_ov p null 0 0)
unfolding emplace_into_page
emplace_into_page-ok p pages = ground arith

pub schedule_read_lem :
    (virtual_alloc : ℕ → Ptr) (read_file : ReadRequest → ReadStart) (file on_finish o s p : ℕ)
    → IsRequest file o s
    → IsPages p
    → ((n : ℕ) → virtual_alloc n ≡ p)
    → schedule_read virtual_alloc read_file file o s on_finish
      ≡ after_read_file
          (scheduled_ov p on_finish o s)
          (from_any_offset_and_size o s).size
          (read_file (read_request file (scheduled_ov p on_finish o s)))
unfolding schedule_read
schedule_read_lem virtual_alloc read_file file on_finish o s p req pages alloc =
    let is_valid : not (file == 2 ^ 64 - 1) ≡ true = ground arith in
    let is_some : not (s == 0) ≡ true = ground arith in
    let is_small : leb o (2 ^ 32 - 4096) ≡ true = ground arith in
    let is_memory : not (p == 0) ≡ true = ground arith in
    let is_aligned : (p % 4096 == 0) ≡ true = ground arith in
    rw (is_valid, is_some, is_small, alloc, is_memory, is_aligned, emplace_into_page-ok p pages)

module _ (virtual_alloc : ℕ → Ptr) (read_file : ReadRequest → ReadStart) (file on_finish o s p : ℕ)
    (req : IsRequest file o s) (pages : IsPages p) (alloc : (n : ℕ) → virtual_alloc n ≡ p) where
  -- A read of `s` bytes at `o` that the system finishes later: the schedule leaves it pending, and
  -- when the system reports enough bytes of the file at the requested place, the coroutine is told
  -- of success and gets exactly the bytes of the file from `o` to `o + s`.
  pub schedule_read-Delivers :
      (memory content : ℕ → ℕ) (n : ℕ)
      → ((r : ReadRequest) → read_file r ≡ failed error_io_pending)
      → o % sector_size + s ≤ n
      → let r = read_request file (scheduled_ov p on_finish o s) in
        ((i : ℕ) → i < n → memory (r.start + i) ≡ content (r.offset + i))
        → (schedule_read virtual_alloc read_file file o s on_finish
            ≡ done (pending (scheduled_ov p on_finish o s)))
          × (e : ReadEnd) × (invoke_read_end (completed (scheduled_ov p on_finish o s) n) n
              ≡ done e)
          × Delivers memory content on_finish o s e
  unfolding invoke_read_end after_read_file get_data read_request
  schedule_read-Delivers memory content n waits enough copied = (
    schedule_read_lem virtual_alloc read_file file on_finish o s p req pages alloc
        ∙ ground (arith, waits (read_request file (scheduled_ov p on_finish o s))),
    delivered,
    ground arith,
    record {
      told = refl;
      success = refl;
      kept = refl;
      address = p + (sector_size + o % sector_size);
      span = ground arith;
      same = λ i lt. ground (arith, copied (o % sector_size + i));
    },
  )
    where
      delivered : ReadEnd
      delivered = record {
        callback = on_finish;
        error = no_error;
        buffer = record {
          pages_start = p;
          user_offset = sector_size + o % sector_size;
          user_size = s;
        };
        freed = [];
      }

-- Moving a buffer into another gives back the pages that this one had, and each of the two gives back
-- its pages once when both are destroyed afterwards.
pub move_buffer-destroy_buffer :
    (this rhs : ReadBuffer)
    → let (freed, this', rhs') = move_buffer this rhs in
      freed ++ (destroy_buffer this' ++ destroy_buffer rhs')
      ≡ destroy_buffer this ++ destroy_buffer rhs
unfolding move_buffer destroy_buffer
move_buffer-destroy_buffer this rhs =
    ap (λ l. destroy_buffer this ++ l) (append-nil (destroy_buffer rhs))

module _ (ov : SingleReadOverlapped) where
  -- Whatever the end of a read is, the pages that hold it are given back exactly once: at the end
  -- of the read if it failed, and by the buffer that the coroutine got if it did not.
  pub invoke_read_end-pages :
      (n : ℕ) (e : ReadEnd)
      → ov.pages_start ≢ null
      → invoke_read_end ov n ≡ done e
      → e.freed ++ destroy_buffer e.buffer ≡ ov.pages_start ∷ []
  unfolding invoke_read_end destroy_buffer
  invoke_read_end-pages n e memory end = ground arith

  -- A read that stops short of the requested bytes fails: with ERROR_INVALID_DATA if it does not
  -- even reach their first one, with ERROR_BAD_LENGTH otherwise, at the end of the file too.
  pub invoke_read_end-short :
      (n : ℕ)
      → ov.user_offset + ov.user_size < 2 ^ 63
      → n < ov.user_offset % sector_size + ov.user_size
      → invoke_read_end (completed ov n) n
        ≡ done (
            invoke_read_fail ov (
              if ltb n (ov.user_offset % sector_size)
              then error_invalid_data
              else error_bad_length))
  unfolding invoke_read_end
  invoke_read_end-short n room short = ground arith

  -- A request that ends within the last sector below 4 GiB of its first sector does not fit the
  -- DWORD that ReadFile takes: it asks for too few bytes, and fails however long the file is.
  pub read_request-truncates :
      (file n : ℕ)
      → ov.user_offset < 2 ^ 32
      → ov.user_size < 2 ^ 32
      → 2 ^ 32 - sector_size < ov.user_offset % sector_size + ov.user_size
      → n ≤ (read_request file ov).bytes
      → (code : ℕ) × (code ≢ no_error)
        × (invoke_read_end (completed ov n) n ≡ done (invoke_read_fail ov code))
  unfolding read_request from_any_offset_and_size
  read_request-truncates file n offset_small size_small long few = (
    (if ltb n (ov.user_offset % sector_size) then error_invalid_data else error_bad_length),
    ground arith,
    invoke_read_end-short n (omega arith) (ground arith),
  )
