-- ===== src/File/Sectors.antt =====
-- win_io_coro/include/win_io_coro/coro_async_file.h: rounding of offsets and sizes to whole sectors,
-- in `std::uint64_t` arithmetic. The functions assert that the multiple is positive, which the
-- theorems about them ask for.
pub mod Bounds
use win_io.Base.{ℕ, ◌+◌, ◌-◌, ◌*◌, ◌/◌, ◌%◌, ◌^◌, ◌≤◌, ◌<◌, ◌≡◌, arith, ltb, if◌then◌else◌}

-- kSectorSize
abbrev pub sector_size : ℕ
sector_size = 4 * 1024

abbrev pub u64 : ℕ → ℕ
u64 n = n % 2 ^ 64

-- Rounddowmn: division first, so the product cannot wrap.
unfoldable pub rounddown : ℕ → ℕ → ℕ
rounddown value multiple = value / multiple * multiple

unfoldable pub roundup : ℕ → ℕ → ℕ
unfolding rounddown
roundup value multiple =
    u64 (rounddown value multiple + (if ltb 0 (value % multiple) then multiple else 0))

pub record SizeOffsetBySector : Type 0 where
  pub offset : ℕ
  pub size : ℕ

-- SizeOffsetBySector::FromAnyOffsetAndSize
unfoldable pub from_any_offset_and_size : ℕ → ℕ → SizeOffsetBySector
unfolding rounddown roundup
from_any_offset_and_size any_offset any_size =
    let offset = rounddown any_offset sector_size in
    record {
      offset = offset;
      size = u64 (roundup (u64 (any_offset + any_size)) sector_size + 2 ^ 64 - offset);
    }

-- MaxReadSizePerSingleCall
unfoldable pub max_read_size_per_single_call : ℕ
unfolding rounddown
max_read_size_per_single_call = rounddown (2 ^ 32 - 1) sector_size
