-- ===== src/Sockets/Operation/Connect.antt =====
-- win_socks/include/unifex_IOCP_sockets.hpp: Connect and IOCP_Schedule.
use win_io.Base.{ℕ, not, ◌||◌, ◌==◌, if◌then◌else◌}
use win_io.Base.Outcome.{Outcome, done, ◌>>=◌, ◌>>◌, assert}
use win_io.Os.{Ptr, is_null, ErrorCode, no_error, is_error, error_io_pending}
use win_io.Port.{PortEntry, port_entry}
use win_io.Sockets.Transfer.{Signal, set_value, set_error, set_done}
use win_io.Sockets.Operation.{
  client_key, EndpointIpv4, try_finalize, Started, completed, pending, Operation, SocketAddress,
  af_inet, socket_address,
}

-- Operation_Connect::on_connected. `update_context` is the error of setsockopt, 0 if there is none.
unfoldable pub on_connected :
    (update_context : Ptr → ErrorCode)
    → Operation
    → PortEntry
    → ErrorCode
    → Outcome (Signal (Unit {0}))
unfolding try_finalize
on_connected update_context self entry ec = do
  assert (entry.bytes_transferred == 0)
  assert (entry.completion_key == client_key)
  assert (entry.overlapped == self.ov)
  if try_finalize self.stop
      then done set_done
      else if is_error ec
      then done (set_error ec)
      else if is_error (update_context self.socket)
      then done (set_error (update_context self.socket))
      else done (set_value tt)

-- The calls of Operation_Connect: WSAIoctl with its result and the address of ConnectEx; bind and
-- ConnectEx with 0 or the error.
pub record ConnectApi : Type 0 where
  pub wsa_ioctl : Ptr → ℕ × Ptr
  pub bind : Ptr → SocketAddress → ErrorCode
  pub connect_ex : Ptr → SocketAddress → Ptr → ErrorCode
  pub update_context : Ptr → ErrorCode

-- WSAEINVAL
abbrev pub wsaeinval : ErrorCode
wsaeinval = 10022

-- Operation_Connect::start
unfoldable pub connect_start : ConnectApi → Operation → EndpointIpv4 → Outcome (Started (Unit {0}))
unfolding on_connected
connect_start api self endpoint = do
  let ioctl = api.wsa_ioctl self.socket
  assert (ioctl.0 == 0)
  assert (not (is_null ioctl.1))
  let bound = api.bind self.socket (record { sin_family = af_inet; sin_port = 0; s_addr = 0 })
  assert ((bound == 0) || (bound == wsaeinval))
  let error = api.connect_ex self.socket (socket_address endpoint) self.ov
  let entry = port_entry 0 client_key self.ov
  if error == 0
      then (do s ← on_connected api.update_context self entry no_error; done (completed s))
      else if not (error == error_io_pending)
      then (do s ← on_connected api.update_context self entry error; done (completed s))
      else done pending

-- kScheduleKeyIOCP
abbrev pub schedule_key : ℕ
schedule_key = 2

-- Operation_IOCP_Schedule::on_scheduled. It looks at no stop token.
unfoldable pub on_scheduled : Operation → PortEntry → ErrorCode → Outcome (Signal (Unit {0}))
on_scheduled self entry ec = do
  assert (entry.bytes_transferred == 0)
  assert (entry.completion_key == schedule_key)
  assert (entry.overlapped == self.ov)
  if is_error ec then done (set_error ec) else done (set_value tt)

-- Operation_IOCP_Schedule::start. `post` is that of the port, with its error.
unfoldable pub schedule_start :
    {Queue : Type 0}
    → (post : PortEntry → Queue → ErrorCode × Queue) → Operation
    → Queue
    → Outcome (Started (Unit {0}) × Queue)
unfolding on_scheduled
schedule_start post self queue =
    let entry = port_entry 0 schedule_key self.ov in
    let (ec, queue') = post entry queue in
    if is_error ec
    then (do s ← on_scheduled self entry ec; done (completed s, queue'))
    else done (pending, queue')
