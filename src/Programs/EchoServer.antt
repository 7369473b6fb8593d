-- ===== src/Programs/EchoServer.antt =====
-- unifex_tcp_echo_server/main.cpp: what the server does for one client, and its loop over clients.
pub mod Reads
pub mod Echoes
mod Examples
use win_io.Base.{
  ℕ, ◌+◌, ◌%◌, ◌^◌, ◌≤◌, ◌≡◌, ◌⊎◌, inl, inr, ◌==◌, if◌then◌else◌, List, [], ◌++◌, map, take, length,
}
use win_io.Base.Outcome.{Outcome, done, ◌>>=◌}
use win_io.Os.{Ptr}
use win_io.Sockets.Buffers.{OneBufferOwnerOrManyRef, as_ref}
use win_io.Sockets.Transfer.{Signal, set_value, set_error, set_done}
use win_io.Sockets.Transfer.Consume.{cells}
use win_io.Sockets.Operation.{Operation}
use win_io.Sockets.Handles.{AsyncSocket}
use win_io.Sockets.Senders.{CharSpan, async_read_some, read_some_operation, transfer_span}
use win_io.Sockets.Stream.{
  Looping, Turn, end_read, write_signal, Side, loops, called, ended, turn, result, moved, sending,
  store,
}

-- struct Connection; `buffer` is the span of `_buffer`.
pub record Connection : Type 0 where
  pub socket : AsyncSocket
  pub id : ℕ
  pub buffer : CharSpan

-- sizeof(_buffer)
abbrev pub client_buffer_size : ℕ
client_buffer_size = 1024

-- Where a connection stands in read_some_write: at the start of a turn; in it, when its read has ended
-- and its callback is due; in the `async_write` of what was read; or behind all turns.
pub data Phase : Type 0 where
  reading : Phase
  read_due : Turn → Phase
  writing : Side → Phase
  closed : Signal (Unit {0}) → Phase

-- The operation state of the read of a turn.
unfoldable pub read_operation : Connection → Turn → Outcome (Operation × OneBufferOwnerOrManyRef)
unfolding async_read_some read_some_operation
read_operation c t = do
  sender ← async_read_some c.socket c.buffer
  done (read_some_operation sender t.stop t.call_ov)

-- The body of a turn behind its read. repeat_effect ends with an error or a cancellation alone.
unfoldable pub after_read : Connection → Signal ℕ → Outcome Phase
unfolding transfer_span
after_read c (set_value n) = do
  s ← transfer_span (record { start = c.buffer.start; size = n })
  done (writing (loops (record { state = s; calls_count = 0 })))
after_read c (set_error ec) = done (closed (set_error ec))
after_read c set_done = done (closed set_done)

-- Once the `async_write` of a turn completes, the next turn starts.
unfoldable pub after_write : Side → Phase
after_write (loops l) = writing (loops l)
after_write (called l t) = writing (called l t)
after_write (ended (set_value n)) = reading
after_write (ended (set_error ec)) = closed (set_error ec)
after_write (ended set_done) = closed set_done

-- run_client hides an error behind let_error; the detached operation ends with this.
unfoldable pub client_end : Signal (Unit {0}) → Signal (Unit {0})
client_end (set_value v) = set_value v
client_end (set_error ec) = set_value tt
client_end set_done = set_done

-- A turn of run_server, behind async_accept: the counter, and the new connection, whose buffer is at
-- this address; or the end of the loop.
unfoldable pub after_accept :
    (buffer : Ptr) (counter : ℕ) → Signal AsyncSocket → (ℕ × Connection) ⊎ Signal (Unit {0})
after_accept buffer counter (set_value socket) =
    let id = (counter + 1) % 2 ^ 32 in
    inl (
      id,
      record {
        socket = socket;
        id = id;
        buffer = record { start = buffer; size = client_buffer_size };
      },
    )
after_accept buffer counter (set_error ec) = inr (set_error ec)
after_accept buffer counter set_done = inr set_done

-- The bytes that the system moves for the read of a turn: none, if it fails.
abbrev pub read_bytes : Turn → ℕ
read_bytes t = if (result t).error == 0 then (result t).bytes else 0

-- A connection with the memory, and all bytes that the system has given to the server and taken from it.
pub record Run : Type 0 where
  pub phase : Phase
  pub memory : Ptr → ℕ
  pub received : List ℕ
  pub answered : List ℕ

-- The addresses of the buffers of the read of a turn.
unfoldable pub reading_to : Connection → Turn → Outcome (List Ptr)
unfolding read_operation as_ref
reading_to c t = do o ← read_operation c t; done (cells (as_ref o.1))

module _ (c : Connection) where
  -- What happens to a connection, a call of the system and the callback behind it being two steps.
  pub data Step (r : Run) : Run → Type 0 where
    receives :
        (t : Turn) (bytes : List ℕ) (places : List Ptr)
        → r.phase ≡ reading
        → reading_to c t ≡ done places
        → length bytes ≡ read_bytes t
        → length bytes ≤ length places
        → Step r (record r {
          phase = read_due t;
          memory = store (take (length bytes) places) bytes r.memory;
          received = r.received ++ bytes;
        })
    read :
        (t : Turn) (o : Operation × OneBufferOwnerOrManyRef) (g : Signal ℕ) (next : Phase)
        → r.phase ≡ read_due t
        → read_operation c t ≡ done o
        → end_read o.0 o.1 t ≡ done g
        → after_read c g ≡ done next
        → Step r (record r { phase = next })
    sends :
        (l : Looping) (t : Turn)
        → r.phase ≡ writing (loops l)
        → moved c.socket l t ≤ length (sending c.socket l t)
        → Step r (record r {
          phase = writing (called l t);
          answered = r.answered ++ map r.memory (take (moved c.socket l t) (sending c.socket l t));
        })
    sent :
        (l : Looping) (t : Turn) (side : Side)
        → r.phase ≡ writing (called l t)
        → turn write_signal c.socket l t ≡ done side
        → Step r (record r { phase = after_write side })

  pub data Reach (r : Run) : Run → Type 0 where
    here : Reach r r
    further : {s t : Run} → Reach r s → Step s t → Reach r t
