-- ===== src/Sockets/Handles.antt =====
-- win_socks/include/unifex_IOCP_sockets.hpp: the owners of a socket, Async_TCPSocket and
-- Async_UDPSocket. The functions of Winsock act on the state of the system of the port's functions.
pub mod Ownership
pub mod Examples
use win_io.Base.{ℕ, Bool, true, false, not, Option, none, some, ◌==◌, if◌then◌else◌}
use win_io.Base.Outcome.{Outcome, done, failed_assert, ◌>>=◌}
use win_io.Os.{Ptr, null, invalid_handle, ErrorCode, no_error, is_error}
use win_io.Port.{PortApi, IoCompletionPort, associate_with_impl}
use win_io.Sockets.Operation.{client_key, EndpointIpv4, SocketAddress, socket_address}

-- A call that returns an int returns 0 or SOCKET_ERROR.
pub record SocketApi : Type 1 where
  pub port_api : PortApi
  pub wsa_socket : (kind protocol : ℕ) → port_api.World → Ptr × port_api.World
  pub set_completion_notification_modes : Ptr → port_api.World → Bool × port_api.World
  pub ioctlsocket : Ptr → port_api.World → ℕ × port_api.World
  pub set_reuse_address : Ptr → port_api.World → ℕ × port_api.World
  pub bind_socket : Ptr → SocketAddress → port_api.World → ℕ × port_api.World
  pub listen : Ptr → (backlog : ℕ) → port_api.World → ℕ × port_api.World
  pub shutdown : Ptr → port_api.World → port_api.World
  pub closesocket : Ptr → port_api.World → port_api.World
  pub wsa_get_last_error : port_api.World → ErrorCode

-- The fields of Async_TCPSocket, and of Async_UDPSocket. `iocp` is the address of a port.
pub record AsyncSocket : Type 0 where
  pub socket : Ptr
  pub iocp : Ptr

-- The default constructor, and what a move leaves behind.
abbrev pub no_socket : AsyncSocket
no_socket = record { socket = invalid_handle; iocp = null }

-- SOCK_STREAM, IPPROTO_TCP, SOCK_DGRAM, IPPROTO_UDP
abbrev pub sock_stream : ℕ
sock_stream = 1

abbrev pub ipproto_tcp : ℕ
ipproto_tcp = 6

abbrev pub sock_dgram : ℕ
sock_dgram = 2

abbrev pub ipproto_udp : ℕ
ipproto_udp = 17

module _ (api : SocketApi) where
  open api use {
    port_api, wsa_socket, set_completion_notification_modes, ioctlsocket, set_reuse_address,
    bind_socket, listen, shutdown, closesocket, wsa_get_last_error,
  }

  -- Async_TCPSocket::disconnect, which the destructor calls.
  unfoldable pub disconnect : AsyncSocket → port_api.World → AsyncSocket × port_api.World
  disconnect o w =
      if o.socket == invalid_handle
      then (record o { socket = invalid_handle }, w)
      else (no_socket, closesocket o.socket (shutdown o.socket w))

  -- Async_UDPSocket::close, which the destructor calls.
  unfoldable pub close_socket : AsyncSocket → port_api.World → AsyncSocket × port_api.World
  close_socket o w =
      if o.socket == invalid_handle
      then (record o { socket = invalid_handle }, w)
      else (no_socket, closesocket o.socket w)

  -- The move assignment from another object: what the two objects are afterwards.
  unfoldable pub tcp_move_assign :
      (this rhs : AsyncSocket) → port_api.World → AsyncSocket × AsyncSocket × port_api.World
  unfolding disconnect
  tcp_move_assign this rhs w = (rhs, no_socket, (disconnect this w).1)

  unfoldable pub udp_move_assign :
      (this rhs : AsyncSocket) → port_api.World → AsyncSocket × AsyncSocket × port_api.World
  unfolding close_socket
  udp_move_assign this rhs w = (rhs, no_socket, (close_socket this w).1)

  -- What `make` does behind WSASocketW: its local `socket` is released on every return but the
  -- last, which moves it out. The result is the socket, if there is one, and the error.
  abbrev pub prepare :
      (release : AsyncSocket → port_api.World → AsyncSocket × port_api.World)
      → AsyncSocket
      → IoCompletionPort
      → port_api.World
      → Outcome (Option AsyncSocket × ErrorCode × port_api.World)
  prepare release o iocp w =
      let (ok, w1) = set_completion_notification_modes o.socket w in
      if not ok
      then done (none, port_api.get_last_error w1, (release o w1).1)
      else let (error, w2) = ioctlsocket o.socket w1 in
        if not (error == 0) then done (none, wsa_get_last_error w2, (release o w2).1) else do
          associated ← associate_with_impl port_api iocp o.socket client_key w2
          if is_error associated.0
              then done (none, associated.0, (release o associated.1).1)
              else done (some o, no_error, (release no_socket associated.1).1)

  -- Async_TCPSocket::make; `address` is that of `iocp`.
  unfoldable pub tcp_make :
      (address : Ptr)
      → IoCompletionPort
      → port_api.World
      → Outcome (Option AsyncSocket × ErrorCode × port_api.World)
  unfolding disconnect associate_with_impl
  tcp_make address iocp w =
      let (handle, w1) = wsa_socket sock_stream ipproto_tcp w in
      let o : AsyncSocket = record { socket = handle; iocp = address } in
      if handle == invalid_handle
      then done (none, wsa_get_last_error w1, (disconnect o w1).1)
      else prepare disconnect o iocp w1

  -- Async_UDPSocket::make
  unfoldable pub udp_make :
      (address : Ptr)
      → IoCompletionPort
      → port_api.World
      → Outcome (Option AsyncSocket × ErrorCode × port_api.World)
  unfolding close_socket associate_with_impl
  udp_make address iocp w =
      let (handle, w1) = wsa_socket sock_dgram ipproto_udp w in
      let o : AsyncSocket = record { socket = handle; iocp = address } in
      if handle == invalid_handle
      then done (none, wsa_get_last_error w1, (close_socket o w1).1)
      else prepare close_socket o iocp w1

  -- Async_UDPSocket::bind: the error, if one is written, and the state.
  unfoldable pub bind :
      AsyncSocket
      → EndpointIpv4
      → (reuse : Bool) → port_api.World
      → Option ErrorCode × port_api.World
  bind o bind_on reuse w =
      let (reuse_error, w1) = if reuse then set_reuse_address o.socket w else (0, w) in
      if not (reuse_error == 0)
      then (some (wsa_get_last_error w1), w1)
      else let (error, w2) = bind_socket o.socket (socket_address bind_on) w1 in
        if not (error == 0) then (some (wsa_get_last_error w2), w2) else (none, w2)

  -- Async_TCPSocket::bind_and_listen
  unfoldable pub bind_and_listen :
      AsyncSocket
      → EndpointIpv4
      → (backlog : ℕ) (reuse : Bool) → port_api.World
      → Option ErrorCode × port_api.World
  bind_and_listen o bind_on backlog reuse w =
      let (reuse_error, w1) = if reuse then set_reuse_address o.socket w else (0, w) in
      if not (reuse_error == 0)
      then (some (wsa_get_last_error w1), w1)
      else let (error, w2) = bind_socket o.socket (socket_address bind_on) w1 in
        if not (error == 0)
        then (some (wsa_get_last_error w2), w2)
        else let (listen_error, w3) = listen o.socket backlog w2 in
          if not (listen_error == 0) then (some (wsa_get_last_error w3), w3) else (none, w3)
