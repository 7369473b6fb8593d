-- ===== src/Sockets/Stream.antt =====
-- win_socks/include/unifex_IOCP_sockets.hpp: one direction of a connection, in which one side runs
-- `async_write` and the other `async_read`; and the body of their loop in async_read_write_impl.
pub mod Memory
pub mod Signals
pub mod Turns
pub mod Invariant
pub mod Delivery
pub mod Whole
pub mod Completion
mod Examples
use win_io.Base.{
  ℕ, zero, suc, ◌≤◌, Bool, true, false, ◌&&◌, List, [], ◌∷◌, ◌++◌, map, take, drop, length, ◌==◌,
  if◌then◌else◌, ◌≡◌,
}
use win_io.Base.Outcome.{Outcome, done, failed_assert, ◌>>=◌}
use win_io.Os.{Ptr, ErrorCode, error_io_pending}
use win_io.Port.{port_entry}
use win_io.Sockets.Buffers.{OneBufferOwnerOrManyRef, as_ref}
use win_io.Sockets.Transfer.{
  State, Signal, set_value, set_error, set_done, Progress, completes, waits, async_read_write,
}
use win_io.Sockets.Transfer.Consume.{cells, sum_len}
use win_io.Sockets.Operation.{
  client_key, StopToken, Started, completed, pending, Operation, Transferred,
}
use win_io.Sockets.Operation.ReadWrite.{on_sent, write_some_start, on_received, read_some_start}
use win_io.Sockets.Operation.Connect.{schedule_key, on_scheduled, schedule_start}
use win_io.Sockets.Handles.{AsyncSocket}
use win_io.Sockets.Select.{OpState, monostate, scheduler, fallback, select_start, on_selected}
use win_io.Sockets.Schedulers.{
  IocpScheduler, schedule_iocp, schedule_operation, schedule_once_in_n, select_operation,
  transfer_scheduler,
}
use win_io.Sockets.Senders.{write_some_operation, read_some_operation, remaining, do_write, do_read}

-- What the loop keeps from turn to turn: the state of the transfer, and its `_calls_count`.
pub record Looping : Type 0 where
  pub state : State
  pub calls_count : ℕ

-- What a turn meets: the receiver's token; the addresses of the operations' OVERLAPPEDs; the error of
-- a post to the port, and that with which the port delivers the posted entry; what WSASend or WSARecv
-- returns, and what the port delivers of a call that is pending.
pub record Turn : Type 0 where
  pub stop : StopToken
  pub schedule_ov : Ptr
  pub call_ov : Ptr
  pub post_error : ErrorCode
  pub delivery_error : ErrorCode
  pub call : Transferred
  pub delivered : Transferred

-- Operation_IOCP_Schedule on the port of the socket, until its receiver is called.
unfoldable pub schedule_signal : IocpScheduler → Turn → Outcome (Signal (Unit {0}))
unfolding schedule_iocp schedule_operation on_scheduled schedule_start
schedule_signal iocp_scheduler t = do
  let (o, iocp) = schedule_operation (schedule_iocp iocp_scheduler) t.schedule_ov
  started ← schedule_start (λ entry queue. (t.post_error, queue)) o tt
  elim started.0 [
    | completed g ↦ done g
    | pending ↦ on_scheduled o (port_entry 0 schedule_key o.ov) t.delivery_error
  ]

-- The `schedule` of the state's scheduler: the count of calls, and the signal. The fallback,
-- inline_scheduler, completes with set_value at once.
unfoldable pub schedule_turn : AsyncSocket → Looping → Turn → Outcome (ℕ × Signal (Unit {0}))
unfolding schedule_signal select_start on_selected transfer_scheduler schedule_once_in_n
    select_operation
schedule_turn socket l t = do
  let sender = schedule_once_in_n (transfer_scheduler tt socket 0)
  let o = select_operation sender
  selected ← select_start l.calls_count o.n
  signal ← elim selected.1 [
    | monostate ↦ failed_assert
    | scheduler ↦ schedule_signal o.scheduler t
    | fallback ↦ done (set_value tt)
  ]
  g ← on_selected selected.1 signal
  done (selected.0, g)

-- The operation state of `do_write` for the remaining buffers, and that of `do_read`.
unfoldable pub write_call : AsyncSocket → State → Turn → Operation × OneBufferOwnerOrManyRef
unfolding do_write remaining write_some_operation
write_call socket s t = write_some_operation (do_write socket (remaining s)) t.stop t.call_ov

unfoldable pub read_call : AsyncSocket → State → Turn → Operation × OneBufferOwnerOrManyRef
unfolding do_read remaining read_some_operation
read_call socket s t = read_some_operation (do_read socket (remaining s)) t.stop t.call_ov

-- Operation_WriteSome of a turn, until its receiver is called.
unfoldable pub write_signal : AsyncSocket → State → Turn → Outcome (Signal ℕ)
unfolding write_call write_some_start on_sent
write_signal socket s t = do
  let (o, buffers) = write_call socket s t
  started ← write_some_start (λ _ _. t.call) o buffers
  elim started [
    | completed g ↦ done g
    | pending ↦ on_sent o (port_entry t.delivered.bytes client_key o.ov) t.delivered.error
  ]

-- Operation_ReadSome, until its receiver is called.
unfoldable pub end_read : Operation → OneBufferOwnerOrManyRef → Turn → Outcome (Signal ℕ)
unfolding read_some_start on_received
end_read o buffers t = do
  started ← read_some_start (λ _ _ _. t.call) o buffers
  elim started [
    | completed g ↦ done g
    | pending ↦
        on_received buffers o (port_entry t.delivered.bytes client_key o.ov) t.delivered.error
  ]

unfoldable pub read_signal : AsyncSocket → State → Turn → Outcome (Signal ℕ)
unfolding read_call end_read
read_signal socket s t = let (o, buffers) = read_call socket s t in end_read o buffers t

-- The addresses of the buffers that a turn passes to WSASend, and to WSARecv.
unfoldable pub sending : AsyncSocket → Looping → Turn → List Ptr
unfolding write_call as_ref
sending socket l t = cells (as_ref (write_call socket l.state t).1)

unfoldable pub filling : AsyncSocket → Looping → Turn → List Ptr
unfolding read_call as_ref
filling socket l t = cells (as_ref (read_call socket l.state t).1)

-- A side of the connection: at the start of a turn; in a turn whose call has ended, so that its
-- callback is due; or behind its transfer.
pub data Side : Type 0 where
  loops : Looping → Side
  called : Looping → Turn → Side
  ended : Signal ℕ → Side

-- What the transfer does with the signal of a turn's call.
unfoldable pub continue_with : (calls_count : ℕ) → State → Signal ℕ → Outcome Side
unfolding async_read_write
continue_with calls_count s g = do
  progress ← async_read_write (g ∷ []) s
  elim progress [
    | completes signal ↦ done (ended signal)
    | waits s' ↦ done (loops (record { state = s'; calls_count = calls_count }))
  ]

-- A turn of the loop in async_read_write_impl: the call is made on the scheduler, when its `schedule`
-- completes with set_value; its error or cancellation is that of the transfer.
unfoldable pub turn :
    (AsyncSocket → State → Turn → Outcome (Signal ℕ)) → AsyncSocket → Looping → Turn → Outcome Side
unfolding schedule_turn continue_with
turn signal socket l t = do
  (count, scheduled) ← schedule_turn socket l t
  elim scheduled [
    | set_value _ ↦ (do g ← signal socket l.state t; continue_with count l.state g)
    | set_error ec ↦ done (ended (set_error ec))
    | set_done ↦ done (ended set_done)
  ]

-- How a turn's call ends, in `start` or by its entry.
abbrev pub result : Turn → Transferred
result t = if t.call.error == error_io_pending then t.delivered else t.call

-- Whether a turn gets to its call.
unfoldable pub is_scheduled : AsyncSocket → Looping → Turn → Bool
unfolding schedule_turn
is_scheduled socket l t = elim (schedule_turn socket l t) [
  | done scheduled ↦ elim scheduled.1 [
    | set_value _ ↦ true
    | set_error _ ↦ false
    | set_done ↦ false
  ]
  | failed_assert ↦ false
]

-- The number of bytes that the system moves for the call of a turn: none if there is no call, or if it
-- fails.
abbrev pub moved : AsyncSocket → Looping → Turn → ℕ
moved socket l t =
    if is_scheduled socket l t && ((result t).error == 0) then (result t).bytes else 0

-- `stream` is what the system has of the writer and not yet given to the reader, and `memory` what the
-- reader's buffers hold.
pub record Connection : Type 0 where
  pub writer : Side
  pub reader : Side
  pub stream : List ℕ
  pub memory : Ptr → ℕ

-- The memory after bytes are written to these addresses, one after another.
abbrev pub store : List Ptr → List ℕ → (Ptr → ℕ) → Ptr → ℕ
store [] bytes memory = memory
store (p ∷ ps) [] memory = memory
store (p ∷ ps) (b ∷ bytes) memory = store ps bytes (λ q. if q == p then b else memory q)

module _ (writing reading : AsyncSocket) (source : Ptr → ℕ) where
  -- The sockets of the two sides, and what the writer's buffers hold. As documented for a stream, the
  -- system takes some first bytes of the buffers of a call of WSASend, and gives the oldest bytes that
  -- it has to the first places of the buffers of a call of WSARecv. What it does then, and the callback
  -- behind it, are two steps.
  pub data Step (c : Connection) : Connection → Type 0 where
    sends :
        (l : Looping) (t : Turn)
        → c.writer ≡ loops l
        → moved writing l t ≤ length (sending writing l t)
        → Step c (record c {
          writer = called l t;
          stream = c.stream ++ map source (take (moved writing l t) (sending writing l t));
        })
    sent :
        (l : Looping) (t : Turn) (side : Side)
        → c.writer ≡ called l t
        → turn write_signal writing l t ≡ done side
        → Step c (record c { writer = side })
    receives :
        (l : Looping) (t : Turn)
        → c.reader ≡ loops l
        → moved reading l t ≤ length (filling reading l t)
        → moved reading l t ≤ length c.stream
        → Step c (record c {
          reader = called l t;
          stream = drop (moved reading l t) c.stream;
          memory =
              store
                (take (moved reading l t) (filling reading l t))
                (take (moved reading l t) c.stream)
                c.memory;
        })
    received :
        (l : Looping) (t : Turn) (side : Side)
        → c.reader ≡ called l t
        → turn read_signal reading l t ≡ done side
        → Step c (record c { reader = side })

  -- What any number of steps lead to.
  pub data Reach (c : Connection) : Connection → Type 0 where
    here : Reach c c
    further : {d e : Connection} → Reach c d → Step d e → Reach c e
