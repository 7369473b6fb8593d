-- ===== src/Sockets/Buffers.antt =====
-- win_socks/include/unifex_IOCP_sockets.hpp: the buffers of a read or a write.
use win_io.Base.{ℕ, ◌+◌, ◌%◌, ◌^◌, Bool, false, ◌||◌, Option, none, some, List, [], ◌∷◌, ltb}
use win_io.Base.Outcome.{Outcome, done, failed_assert}
use win_io.Os.{Ptr, null}

abbrev pub size_t : ℕ → ℕ
size_t n = n % 2 ^ 64

-- BufferRef, a WSABUF.
pub record BufferRef : Type 0 where
  pub len : ℕ
  pub buf : Ptr

-- OneBufferOwnerOrManyRef. A span is the list of what its array holds.
pub record OneBufferOwnerOrManyRef : Type 0 where
  pub single_buffer : BufferRef
  pub buffers : Option (List BufferRef)
  pub total_size : Option ℕ

unfoldable pub one_buffer : BufferRef → OneBufferOwnerOrManyRef
one_buffer single_buffer = record {
  single_buffer = single_buffer;
  buffers = none;
  total_size = some single_buffer.len;
}

abbrev empty_ref : BufferRef
empty_ref = record { len = 0; buf = null }

unfoldable pub many_buffers : List BufferRef → OneBufferOwnerOrManyRef
many_buffers buffers = record {
  single_buffer = empty_ref;
  buffers = some buffers;
  total_size = none;
}

unfoldable pub many_buffers_of_size : List BufferRef → ℕ → OneBufferOwnerOrManyRef
many_buffers_of_size buffers total_size = record {
  single_buffer = empty_ref;
  buffers = some buffers;
  total_size = some total_size;
}

unfoldable pub as_ref : OneBufferOwnerOrManyRef → List BufferRef
as_ref b = elim b.buffers [ none ↦ b.single_buffer ∷ [] | some buffers ↦ buffers ]

abbrev pub any_len : List BufferRef → Bool
any_len [] = false
any_len (b ∷ bs) = ltb 0 b.len || any_len bs

unfoldable pub has_data : OneBufferOwnerOrManyRef → Outcome Bool
has_data b = elim b.total_size [
  | some total ↦ done (ltb 0 total)
  | none ↦ elim b.buffers [ none ↦ failed_assert | some buffers ↦ done (any_len buffers) ]
]

-- `value += buffer.len` over the buffers.
abbrev pub sum_from : ℕ → List BufferRef → ℕ
sum_from value [] = value
sum_from value (b ∷ bs) = sum_from (size_t (value + b.len)) bs

-- total_size(): the size, and the object with the size kept.
unfoldable pub total_size : OneBufferOwnerOrManyRef → Outcome (ℕ × OneBufferOwnerOrManyRef)
total_size b = elim b.total_size [
  | some total ↦ done (total, b)
  | none ↦ elim b.buffers [
    | none ↦ failed_assert
    | some buffers ↦
        let value = sum_from 0 buffers in done (value, record b { total_size = some value })
  ]
]
