-- ===== src/Sockets/Accept/Client.antt =====
-- How accepting a client completes, and who owns the client's socket.
use win_io.Base.{Option, some, if◌then◌else◌, ◌≡◌, ◌≢◌, arith}
use win_io.Base.Outcome.{done}
use win_io.Os.{Ptr, ErrorCode, no_error}
use win_io.Port.{port_entry, IoCompletionPort}
use win_io.Sockets.Transfer.{set_value, set_error}
use win_io.Sockets.Operation.{client_key, completed, Operation, never_possible}
use win_io.Sockets.Operation.Completion.{verdict, started}
use win_io.Sockets.Handles.{SocketApi, AsyncSocket, no_socket, tcp_make}
use win_io.Sockets.Accept.{Accepted, on_accepted, accept_start}

module _ (api : SocketApi)
    (accept_ex : (listen_socket client ov : Ptr)
      → api.port_api.World
      → Accepted × api.port_api.World)
    (update_context : Ptr → Ptr → ErrorCode) (self : Operation) (address : Ptr)
    (iocp : IoCompletionPort) (w : api.port_api.World) where
  -- When the client's socket is made, and AcceptEx receives no data and its socket can be updated,
  -- accepting is left to the system exactly when AcceptEx fails with the error that says so. Else
  -- `start` completes, and so does the callback on the operation's own entry: with the error, if
  -- there is one; else with the client's socket, which the operation owns till then. No assertion
  -- fails.
  pub accept_start-verdict :
      (client : AsyncSocket) (made : api.port_api.World) (ec : ErrorCode)
      → tcp_make api address iocp w ≡ done (some client, no_error, made)
      → let r = accept_ex self.socket client.socket self.ov made in
        r.0.bytes_received ≡ 0
        → update_context client.socket self.socket ≡ 0
        → (accept_start api accept_ex update_context self address iocp w
            ≡ done (
              started never_possible (if r.0.ok then 0 else r.0.error) (set_value client),
              client,
              r.1,
            ))
          × (on_accepted update_context self client (port_entry 0 client_key self.ov) ec
              ≡ done (verdict never_possible ec (set_value client)))
  unfolding accept_start on_accepted
  accept_start-verdict client made ec makes no_bytes updates =
      (rw makes (ground (arith, no_bytes, updates)), ground (arith, updates))

  -- When the client's socket cannot be made, `start` completes with that error and calls nothing
  -- else.
  pub accept_start-no_socket :
      (o : Option AsyncSocket) (made : api.port_api.World) (ec : ErrorCode)
      → tcp_make api address iocp w ≡ done (o, ec, made)
      → ec ≢ no_error
      → accept_start api accept_ex update_context self address iocp w
        ≡ done (completed (set_error ec), no_socket, made)
  unfolding accept_start
  accept_start-no_socket o made ec makes error = rw makes (ground (arith, error))
