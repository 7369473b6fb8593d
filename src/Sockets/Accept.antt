-- ===== src/Sockets/Accept.antt =====
-- win_socks/include/unifex_IOCP_sockets.hpp: Operation_Accept, which makes the socket of a client and
-- waits for the client.
pub mod Client
mod Examples
use win_io.Base.{ℕ, Bool, true, false, not, Option, none, some, ◌==◌, if◌then◌else◌}
use win_io.Base.Outcome.{Outcome, done, failed_assert, ◌>>=◌, ◌>>◌, assert}
use win_io.Os.{Ptr, ErrorCode, no_error, is_error, error_io_pending}
use win_io.Port.{PortEntry, port_entry, IoCompletionPort}
use win_io.Sockets.Transfer.{Signal, set_value, set_error}
use win_io.Sockets.Operation.{client_key, Started, completed, pending, Operation}
use win_io.Sockets.Handles.{SocketApi, AsyncSocket, no_socket, tcp_make}

-- What AcceptEx returns, with the bytes and the error that WSAGetLastError gives behind it.
pub record Accepted : Type 0 where
  pub ok : Bool
  pub bytes_received : ℕ
  pub error : ErrorCode

-- Operation_Accept::on_accepted: `socket` of the operation is the one that listens, `update_context`
-- the result of setsockopt on the client's and on that one. The operation has no stop token.
unfoldable pub on_accepted :
    (update_context : Ptr → Ptr → ErrorCode)
    → Operation
    → (client : AsyncSocket) → PortEntry
    → ErrorCode
    → Outcome (Signal AsyncSocket)
on_accepted update_context self client entry ec = do
  assert (entry.bytes_transferred == 0)
  assert (entry.completion_key == client_key)
  assert (entry.overlapped == self.ov)
  if is_error ec
      then done (set_error ec)
      else do assert (update_context client.socket self.socket == 0); done (set_value client)

module _ (api : SocketApi) where
  open api use {port_api}

  -- The calls of Operation_Accept behind the one of `make`.
  abbrev pub accept_client :
      (accept_ex : (listen_socket client ov : Ptr) → port_api.World → Accepted × port_api.World)
      (update_context : Ptr → Ptr → ErrorCode)
      → Operation
      → AsyncSocket
      → port_api.World
      → Outcome (Started AsyncSocket × AsyncSocket × port_api.World)
  accept_client accept_ex update_context self client w =
      let (r, w') = accept_ex self.socket client.socket self.ov w in
      if r.ok
      then (do
        s ←
            on_accepted update_context self client (port_entry r.bytes_received client_key self.ov)
              no_error
        done (completed s, client, w'))
      else if not (r.error == error_io_pending)
      then (do
        s ← on_accepted update_context self client (port_entry 0 client_key self.ov) r.error
        done (completed s, client, w'))
      else done (pending, client, w')

  -- Operation_Accept::start; `address` is that of the port. The second part of the result is what
  -- `_client` owns.
  unfoldable pub accept_start :
      (accept_ex : (listen_socket client ov : Ptr) → port_api.World → Accepted × port_api.World)
      (update_context : Ptr → Ptr → ErrorCode)
      → Operation
      → (address : Ptr) → IoCompletionPort
      → port_api.World
      → Outcome (Started AsyncSocket × AsyncSocket × port_api.World)
  unfolding tcp_make on_accepted
  accept_start accept_ex update_context self address iocp w = do
    made ← tcp_make api address iocp w
    if is_error made.1
        then done (completed (set_error made.1), no_socket, made.2)
        else elim made.0 [
          | none ↦ failed_assert
          | some client ↦ accept_client accept_ex update_context self client made.2
        ]
