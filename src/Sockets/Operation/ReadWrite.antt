-- ===== src/Sockets/Operation/ReadWrite.antt =====
-- win_socks/include/unifex_IOCP_sockets.hpp: WriteSome, SendTo, ReadSome and ReceiveFrom.
use win_io.Base.{ℕ, not, List, ◌==◌, if◌then◌else◌}
use win_io.Base.Outcome.{Outcome, done, ◌>>=◌, ◌>>◌, assert}
use win_io.Os.{Ptr, ErrorCode, no_error, is_error, minus_one, error_io_pending}
use win_io.Port.{PortEntry, port_entry}
use win_io.Sockets.Buffers.{BufferRef, OneBufferOwnerOrManyRef, as_ref, has_data}
use win_io.Sockets.Transfer.{Signal, set_value, set_error, set_done}
use win_io.Sockets.Operation.{
  client_key, EndpointIpv4, try_finalize, Started, completed, pending, Operation, SocketAddress,
  socket_address, Transferred, complete_or_wait,
}

-- Operation_WriteSome::on_sent
unfoldable pub on_sent : Operation → PortEntry → ErrorCode → Outcome (Signal ℕ)
unfolding try_finalize
on_sent self entry ec = do
  assert (entry.completion_key == client_key)
  assert (entry.overlapped == self.ov)
  if try_finalize self.stop
      then done set_done
      else if is_error ec
      then done (set_error ec)
      else done (set_value entry.bytes_transferred)

-- Operation_WriteSome::start
unfoldable pub write_some_start :
    (wsa_send : Ptr → List BufferRef → Transferred)
    → Operation
    → OneBufferOwnerOrManyRef
    → Outcome (Started ℕ)
unfolding on_sent as_ref
write_some_start wsa_send self buffers =
    complete_or_wait self (wsa_send self.socket (as_ref buffers)) (on_sent self)

-- Operation_SendTo::on_sent_to
unfoldable pub on_sent_to : Operation → PortEntry → ErrorCode → Outcome (Signal ℕ)
unfolding try_finalize
on_sent_to self entry ec = do
  assert (entry.completion_key == client_key)
  assert (entry.overlapped == self.ov)
  if try_finalize self.stop
      then done set_done
      else if is_error ec
      then done (set_error ec)
      else done (set_value entry.bytes_transferred)

-- Operation_SendTo::start
unfoldable pub send_to_start :
    (wsa_send_to : Ptr → List BufferRef → SocketAddress → Transferred)
    → Operation
    → OneBufferOwnerOrManyRef
    → EndpointIpv4
    → Outcome (Started ℕ)
unfolding on_sent_to as_ref
send_to_start wsa_send_to self buffers destination =
    complete_or_wait self (wsa_send_to self.socket (as_ref buffers) (socket_address destination))
      (on_sent_to self)

-- Operation_ReadSome::on_received
unfoldable pub on_received :
    OneBufferOwnerOrManyRef → Operation → PortEntry → ErrorCode → Outcome (Signal ℕ)
unfolding try_finalize
on_received buffers self entry ec = do
  assert (entry.completion_key == client_key)
  assert (entry.overlapped == self.ov)
  if try_finalize self.stop then done set_done else if is_error ec then done (set_error ec) else do
    let value : Outcome (Signal ℕ) = done (set_value entry.bytes_transferred)
    if entry.bytes_transferred == 0
        then (do
          some_data ← has_data buffers
          if some_data then done (set_error minus_one) else value)
        else value

-- MSG_PARTIAL
abbrev pub msg_partial : ℕ
msg_partial = 0x8000

-- Operation_ReadSome::start
unfoldable pub read_some_start :
    (wsa_recv : Ptr → List BufferRef → (flags : ℕ) → Transferred)
    → Operation
    → OneBufferOwnerOrManyRef
    → Outcome (Started ℕ)
unfolding on_received as_ref
read_some_start wsa_recv self buffers =
    complete_or_wait self (wsa_recv self.socket (as_ref buffers) msg_partial)
      (on_received buffers self)

-- The output fields of Operation_ReceiveFrom, `_received_from` and `_endpoint_length`.
pub record ReceivedFrom : Type 0 where
  pub address : SocketAddress
  pub endpoint_length : ℕ

-- Operation_ReceiveFrom::on_received_from. `*_sender` is written just where set_value is called,
-- and stands with its value.
unfoldable pub on_received_from :
    ReceivedFrom → Operation → PortEntry → ErrorCode → Outcome (Signal (ℕ × EndpointIpv4))
unfolding try_finalize
on_received_from received self entry ec = do
  assert (entry.completion_key == client_key)
  assert (entry.overlapped == self.ov)
  if try_finalize self.stop then done set_done else if is_error ec then done (set_error ec) else do
    assert (received.endpoint_length == 16)
    let sender : EndpointIpv4 = record {
      port_network = received.address.sin_port;
      ip_network = received.address.s_addr;
    }
    done (set_value (entry.bytes_transferred, sender))

-- Operation_ReceiveFrom::start. `received` is what WSARecvFrom writes.
unfoldable pub receive_from_start :
    (wsa_recv_from : Ptr
      → List BufferRef
      → (flags : ℕ) → (endpoint_length : ℕ) → Transferred × ReceivedFrom)
    → Operation
    → OneBufferOwnerOrManyRef
    → Outcome (Started (ℕ × EndpointIpv4))
unfolding on_received_from as_ref
receive_from_start wsa_recv_from self buffers =
    let (r, received) = wsa_recv_from self.socket (as_ref buffers) msg_partial 16 in
    if r.error == 0
    then (do
      s ← on_received_from received self (port_entry r.bytes client_key self.ov) no_error
      done (completed s))
    else if not (r.error == error_io_pending)
    then (do
      s ← on_received_from received self (port_entry 0 client_key self.ov) r.error
      done (completed s))
    else done pending
