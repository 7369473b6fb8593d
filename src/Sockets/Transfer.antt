-- ===== src/Sockets/Transfer.antt =====
-- win_socks/include/unifex_IOCP_sockets.hpp: State_AsyncReadWrite and the loop of `async_read` and
-- `async_write` over calls that transfer a part.
pub mod Consume
pub mod Loop
mod Examples
use win_io.Base.{
  ℕ, zero, suc, ◌+◌, ◌-◌, ◌%◌, ◌^◌, Bool, true, false, not, Option, none, some, List, [], ◌∷◌, ◌++◌,
  leb, if◌then◌else◌,
}
use win_io.Base.Outcome.{Outcome, done, ◌>>=◌, ◌>>◌, assert}
use win_io.Os.{ErrorCode}
use win_io.Sockets.Buffers.{BufferRef, OneBufferOwnerOrManyRef, size_t, as_ref, total_size}

-- `_buffers` is the array `passed ++ rest`, and `_current_buffer` points to the first of `rest`.
pub record State : Type 0 where
  pub buffers_impl : OneBufferOwnerOrManyRef
  pub passed : List BufferRef
  pub rest : List BufferRef
  pub processed_bytes : ℕ

-- The constructor; a move constructs it anew from the same buffers.
unfoldable pub start_state : OneBufferOwnerOrManyRef → State
unfolding as_ref
start_state buffers_impl = record {
  buffers_impl = buffers_impl;
  passed = [];
  rest = as_ref buffers_impl;
  processed_bytes = 0;
}

-- Where `_buffers_impl` refers to the caller's array, it sees what `consume` writes there.
abbrev pub current_impl : State → OneBufferOwnerOrManyRef
current_impl s = record s.buffers_impl {
  buffers = elim s.buffers_impl.buffers [ none ↦ none | some _ ↦ some (s.passed ++ s.rest) ];
}

-- The `for` loop of `consume`: the buffers that it goes past, and those from where it stops.
abbrev pub consume_loop : ℕ → List BufferRef → List BufferRef → List BufferRef × List BufferRef
consume_loop bytes passed [] = (passed, [])
consume_loop bytes passed (b ∷ bs) =
    let further = consume_loop (bytes - b.len) (passed ++ b ∷ []) bs in
    if leb b.len bytes
    then further
    else (passed, record { len = b.len - bytes; buf = b.buf + bytes } ∷ bs)

abbrev pub is_nonempty : List BufferRef → Bool
is_nonempty [] = false
is_nonempty (_ ∷ _) = true

unfoldable pub consume : State → ℕ → Outcome State
unfolding total_size
consume s bytes_transferred = do
  let processed = size_t (s.processed_bytes + bytes_transferred)
  (total, impl) ← total_size (current_impl s)
  if leb total processed
      then done (record {
        buffers_impl = impl;
        passed = s.passed ++ s.rest;
        rest = [];
        processed_bytes = processed;
      })
      else do
        let split = consume_loop bytes_transferred s.passed s.rest
        assert (is_nonempty split.1)
        done (record {
          buffers_impl = impl;
          passed = split.0;
          rest = split.1;
          processed_bytes = processed;
        })

unfoldable pub is_completed : State → Outcome (Bool × State)
unfolding total_size
is_completed s = do
  (total, impl) ← total_size (current_impl s)
  done (leb total s.processed_bytes, record s { buffers_impl = impl })

-- How a sender completes.
pub data Signal {ℓ} (A : Type ℓ) : Type ℓ where
  set_value : A → Signal A
  set_error : ErrorCode → Signal A
  set_done : Signal A

-- async_read_write_impl, with the completions of the calls of `async_read_some` or
-- `async_write_some` that it makes, one after another, on `rest`: its own completion, or the state
-- in which it waits for the next one.
pub data Progress : Type 0 where
  completes : Signal ℕ → Progress
  waits : State → Progress

unfoldable pub async_read_write : List (Signal ℕ) → State → Outcome Progress
async_read_write [] s = done (waits s)
async_read_write (set_error ec ∷ signals) s = done (completes (set_error ec))
async_read_write (set_done ∷ signals) s = done (completes set_done)
async_read_write (set_value bytes ∷ signals) s = do
  s' ← consume s bytes
  (finished, s'') ← is_completed s'
  let more = async_read_write signals s''
  if finished then done (completes (set_value s''.processed_bytes)) else more
