-- ===== src/Programs/UdpEchoServer.antt =====
-- unifex_udp_echo_server/main.cpp: a turn of the server.
pub mod Turns
use win_io.Base.{ℕ}
use win_io.Base.Outcome.{Outcome, done, ◌>>=◌}
use win_io.Os.{Ptr}
use win_io.Sockets.Buffers.{OneBufferOwnerOrManyRef}
use win_io.Sockets.Transfer.{Signal, set_value, set_error, set_done}
use win_io.Sockets.Operation.{
  EndpointIpv4, StopToken, Operation, client_key, Transferred, completed, pending,
}
use win_io.Sockets.Handles.{AsyncSocket}
use win_io.Port.{port_entry}
use win_io.Sockets.Operation.ReadWrite.{ReceivedFrom, receive_from_start, on_received_from}
use win_io.Sockets.Senders.{
  CharSpan, async_receive_from, async_send_to, send_to_operation, receive_from_operation,
}

-- struct Server
pub record Server : Type 0 where
  pub server : AsyncSocket
  pub buffer : CharSpan
  pub sender : EndpointIpv4

-- The operation state that a turn starts with; `sender` is the address of `_sender`.
unfoldable pub receive_turn :
    Server
    → (sender : Ptr) → StopToken
    → (ov : Ptr) → Outcome (Operation × OneBufferOwnerOrManyRef × Ptr)
unfolding async_receive_from receive_from_operation
receive_turn state sender stop ov = do
  s ← async_receive_from state.server state.buffer sender
  done (receive_from_operation s stop ov)

-- Behind the call that receives: the answer is sent, or the loop has ended.
pub data Answering : Type 0 where
  answers : Server → Operation → OneBufferOwnerOrManyRef → (destination : EndpointIpv4) → Answering
  ends : Signal (Unit {0}) → Answering

-- `buffer.first(n)` is sent back to `_sender`, which the receiving has written.
unfoldable pub answer_turn :
    Server → Signal (ℕ × EndpointIpv4) → StopToken → (ov : Ptr) → Outcome Answering
unfolding async_send_to send_to_operation
answer_turn state (set_value (n, sender)) stop ov = do
  s ← async_send_to state.server (record { start = state.buffer.start; size = n }) sender
  let (o, buffers, destination) = send_to_operation s stop ov
  done (answers (record state { sender = sender }) o buffers destination)
answer_turn state (set_error ec) stop ov = done (ends (set_error ec))
answer_turn state set_done stop ov = done (ends set_done)

-- A turn, up to the operation that sends the answer: `call` is what WSARecvFrom returns, `delivered` what
-- the port delivers if that is pending, and `received` what it writes.
unfoldable pub udp_turn :
    Server
    → (sender : Ptr) → StopToken
    → (receive_ov send_ov : Ptr) → (call delivered : Transferred) → ReceivedFrom
    → Outcome Answering
unfolding receive_turn answer_turn
udp_turn state sender stop receive_ov send_ov call delivered received = do
  o ← receive_turn state sender stop receive_ov
  started ← receive_from_start (λ _ _ _ _. (call, received)) o.0 o.1
  g ← elim started [
    | completed g ↦ done g
    | pending ↦
        on_received_from received o.0 (port_entry delivered.bytes client_key (o.0).ov)
          delivered.error
  ]
  answer_turn state g stop send_ov
