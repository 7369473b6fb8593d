-- ===== src/File/Examples.antt =====
-- Reads of 10 bytes at the offset 5000 of a file, into pages at 0x10000.
use win_io.Base.{ℕ, ◌+◌, ◌-◌, ◌%◌, ◌<◌, ◌≡◌, refl, arith, [], ◌∷◌, ◌++◌}
use win_io.Base.Outcome.{done}
use win_io.Os.{Ptr, error_invalid_data, error_io_pending}
use win_io.File.Sectors.{sector_size, from_any_offset_and_size}
use win_io.File.Read.{
  empty_buffer, destroy_buffer, ReadEnd, ReadRequest, ReadStart, failed, read_request,
  invoke_read_end,
}
use win_io.File.Read.Delivery.{completed, scheduled_ov, IsPages, IsRequest, invoke_read_end-pages}

abbrev pub pages : Ptr
pages = 0x10000

abbrev pub waiting : ReadRequest → ReadStart
waiting _ = failed error_io_pending

-- Every byte of the file is its offset modulo 256, and the sector that is read begins at 4096.
abbrev pub content : ℕ → ℕ
content i = i % 256

abbrev pub filled : ℕ → ℕ
filled a = (a - (pages + sector_size) + 4096) % 256

pub pages-IsPages : IsPages pages
pages-IsPages = record { some_memory = omega arith; aligned = refl; user_space = omega arith }

pub valid-IsRequest : IsRequest 7 5000 10
valid-IsRequest = record {
  valid = omega arith;
  some_bytes = omega arith;
  size_dword = omega arith;
  offset_small = omega arith;
}

pub same_bytes :
    (i : ℕ)
    → i < 1000
    → filled ((read_request 7 (scheduled_ov pages 99 5000 10)).start + i)
      ≡ content ((read_request 7 (scheduled_ov pages 99 5000 10)).offset + i)
unfolding read_request from_any_offset_and_size
same_bytes i less = ground arith

abbrev pub ended : ReadEnd
ended = record {
  callback = 99;
  error = error_invalid_data;
  buffer = empty_buffer;
  freed = pages ∷ [];
}

pub ends : invoke_read_end (completed (scheduled_ov pages 99 5000 10) 0) 0 ≡ done ended
unfolding invoke_read_end
ends = refl

invoke_read_end-pages_example : ended.freed ++ destroy_buffer ended.buffer ≡ pages ∷ []
invoke_read_end-pages_example =
    invoke_read_end-pages (completed (scheduled_ov pages 99 5000 10) 0) 0 ended (omega arith) ends
