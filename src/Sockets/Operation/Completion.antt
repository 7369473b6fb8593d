-- ===== src/Sockets/Operation/Completion.antt =====
-- How the operations complete: at once, in `start`, or when the port delivers their entry.
use win_io.Base.{ℕ, Bool, true, false, ◌&&◌, List, ◌==◌, if◌then◌else◌, ◌≡◌, arith}
use win_io.Base.Outcome.{done}
use win_io.Os.{Ptr, ErrorCode, minus_one}
use win_io.Port.{port_entry}
use win_io.Sockets.Buffers.{BufferRef, OneBufferOwnerOrManyRef, as_ref, has_data}
use win_io.Sockets.Transfer.{Signal, set_value, set_error, set_done}
use win_io.Sockets.Operation.{
  client_key, EndpointIpv4, StopToken, token, never_possible, Started, completed, pending,
  Operation, SocketAddress, socket_address, Transferred,
}
use win_io.Sockets.Operation.ReadWrite.{
  on_sent, write_some_start, on_sent_to, send_to_start, on_received, read_some_start, ReceivedFrom,
  on_received_from, receive_from_start, msg_partial,
}

-- What a receiver is to be told of a call that ended: of a request to stop before anything else,
-- then of the error, then of the result.
abbrev pub verdict {ℓ} : {A : Type ℓ} → StopToken → ErrorCode → Signal A → Signal A
verdict (token true) ec value = set_done
verdict (token false) ec value = if ec == 0 then value else set_error ec
verdict never_possible ec value = if ec == 0 then value else set_error ec

-- A started call that fails with ERROR_IO_PENDING is left to the system; any other has ended.
abbrev pub started {ℓ} : {A : Type ℓ} → StopToken → ErrorCode → Signal A → Started A
started stop ec value = if ec == 997 then pending else completed (verdict stop ec value)

-- The value of a read: no bytes, though there is room for some, is the end of the stream.
abbrev pub read_value : (has_room : Bool) → ℕ → Signal ℕ
read_value has_room n = if (n == 0) && has_room then set_error minus_one else set_value n

-- The address that a datagram came from.
abbrev pub sender : ReceivedFrom → EndpointIpv4
sender from = record { port_network = from.address.sin_port; ip_network = from.address.s_addr }

module _ (self : Operation) (buffers : OneBufferOwnerOrManyRef) where
  -- A write, on a connected socket or to an endpoint, is left to the system exactly when its call
  -- reports that it is pending. Else `start` completes, and so does the callback on the
  -- operation's own entry: as stopped, if that was requested; with the error, if there is one; else
  -- with the number of bytes. No assertion fails.
  pub write_some_start-verdict :
      (wsa_send : Ptr → List BufferRef → Transferred)
      (wsa_send_to : Ptr → List BufferRef → SocketAddress → Transferred)
      (destination : EndpointIpv4) (ec : ErrorCode) (n : ℕ)
      → let sent = wsa_send self.socket (as_ref buffers) in
        let sent_to = wsa_send_to self.socket (as_ref buffers) (socket_address destination) in
        (write_some_start wsa_send self buffers
          ≡ done (started self.stop sent.error (set_value sent.bytes)))
        × (send_to_start wsa_send_to self buffers destination
            ≡ done (started self.stop sent_to.error (set_value sent_to.bytes)))
        × (on_sent self (port_entry n client_key self.ov) ec
            ≡ done (verdict self.stop ec (set_value n)))
        × (on_sent_to self (port_entry n client_key self.ov) ec
            ≡ done (verdict self.stop ec (set_value n)))
  unfolding write_some_start send_to_start
  write_some_start-verdict wsa_send wsa_send_to destination ec n =
      (ground arith, ground arith, ground arith, ground arith)

  -- A read is left to the system exactly when its call reports that it is pending. Else `start`
  -- completes, and so does the callback on the operation's own entry: as stopped, if that was
  -- requested; with the error, if there is one; with error -1 when nothing was read into buffers
  -- that have room; else with the number of bytes. No assertion fails, provided that the buffers
  -- can tell whether they have room.
  pub read_some_start-verdict :
      (wsa_recv : Ptr → List BufferRef → (flags : ℕ) → Transferred) (has_room : Bool)
      (ec : ErrorCode) (n : ℕ)
      → has_data buffers ≡ done has_room
      → let received = wsa_recv self.socket (as_ref buffers) msg_partial in
        (read_some_start wsa_recv self buffers
          ≡ done (started self.stop received.error (read_value has_room received.bytes)))
        × (on_received buffers self (port_entry n client_key self.ov) ec
            ≡ done (verdict self.stop ec (read_value has_room n)))
  unfolding read_some_start
  read_some_start-verdict wsa_recv true ec n h = (ground (arith, h), ground (arith, h))
  read_some_start-verdict wsa_recv false ec n h = (ground (arith, h), ground (arith, h))

  -- The same for a datagram, whose value is the number of bytes and the address it came from. The
  -- assertion on the length of that address holds, provided that the system keeps it for a call
  -- that succeeds.
  pub receive_from_start-verdict :
      (wsa_recv_from : Ptr
        → List BufferRef
        → (flags : ℕ) → (endpoint_length : ℕ) → Transferred × ReceivedFrom)
      (from : ReceivedFrom) (ec : ErrorCode) (n : ℕ)
      → let received = wsa_recv_from self.socket (as_ref buffers) msg_partial 16 in
        received.1.endpoint_length ≡ 16
        → from.endpoint_length ≡ 16
        → (receive_from_start wsa_recv_from self buffers
            ≡ done (
                started self.stop received.0.error
                  (set_value (received.0.bytes, sender received.1))))
          × (on_received_from from self (port_entry n client_key self.ov) ec
              ≡ done (verdict self.stop ec (set_value (n, sender from))))
  unfolding receive_from_start
  receive_from_start-verdict wsa_recv_from from ec n kept kept' =
      (ground (arith, kept), ground (arith, kept'))
