-- ===== src/Programs/UdpEchoServer/Turns.antt =====
-- What a turn of the UDP echo server comes to.
use win_io.Base.{ℕ, ◌^◌, ◌≤◌, ◌<◌, ◌≡◌}
use win_io.Os.{Ptr}
use win_io.Sockets.Buffers.{OneBufferOwnerOrManyRef}
use win_io.Sockets.Transfer.{Signal, set_value, set_error, set_done}
use win_io.Sockets.Operation.{EndpointIpv4, StopToken, Operation, af_inet, socket_address}
use win_io.Sockets.Operation.ReadWrite.{ReceivedFrom}
use win_io.Sockets.Operation.Completion.{sender}
use win_io.Sockets.Senders.Calls.{IsFor}
use win_io.Programs.UdpEchoServer.{Server, Answering, answers, ends}

-- What a turn is to come to: the answer is the first `n` bytes of the buffer, on the socket of the server
-- and to the address that the datagram came from; an error or a request to stop ends the loop.
abbrev pub Echoed :
    Server
    → StopToken
    → (send_ov : Ptr) → ReceivedFrom
    → Signal (ℕ × EndpointIpv4)
    → Answering
    → Type 0
Echoed state stop send_ov received (set_value (n, from)) a =
    (o : Operation) × (b : OneBufferOwnerOrManyRef) × (a
      ≡ answers (record state { sender = from }) o b from)
    × IsFor state.server (record { start = state.buffer.start; size = n }) stop send_ov o b
    × (socket_address from ≡ record {
      sin_family = af_inet;
      sin_port = received.address.sin_port;
      s_addr = received.address.s_addr;
    })
Echoed state stop send_ov received (set_error ec) a = a ≡ ends (set_error ec)
Echoed state stop send_ov received set_done a = a ≡ ends set_done

module _ (state : Server) (stop : StopToken) (send_ov : Ptr) (received : ReceivedFrom)
    (small : state.buffer.size < 2 ^ 32) where
  -- A value is a number of bytes for which there is room, and the address that they came from.
  abbrev Told : Signal (ℕ × EndpointIpv4) → Type 0
  Told (set_value (n, from)) = (n ≤ state.buffer.size) × (from ≡ sender received)
  Told (set_error ec) = Unit {0}
  Told set_done = Unit {0}
