-- ===== src/Sockets/Operation/Connection.antt =====
-- How connecting and scheduling complete.
use win_io.Base.{◌==◌, if◌then◌else◌, ◌≡◌, ◌≢◌, ◌⊎◌, inl, inr, arith}
use win_io.Base.Outcome.{done}
use win_io.Os.{null, ErrorCode}
use win_io.Port.{port_entry}
use win_io.Sockets.Transfer.{Signal, set_value, set_error}
use win_io.Sockets.Operation.{
  client_key, EndpointIpv4, Operation, SocketAddress, af_inet, socket_address,
}
use win_io.Sockets.Operation.Completion.{verdict, started}
use win_io.Sockets.Operation.Connect.{on_connected, ConnectApi, wsaeinval, connect_start}

-- Connecting ends with what the update of the socket's context reports.
abbrev pub connect_value : ErrorCode → Signal (Unit {0})
connect_value ec = if ec == 0 then set_value tt else set_error ec

-- Where ConnectEx is found, and bind works or finds the socket bound, connecting is left to the
-- system exactly when ConnectEx reports that it is pending. Else `start` completes, and so does the
-- callback on the operation's own entry: as stopped, if that was requested; with the error of
-- ConnectEx, if there is one; else with what the update of the context reports. No assertion fails.
pub connect_start-verdict :
    (api : ConnectApi) (self : Operation) (endpoint : EndpointIpv4) (ec : ErrorCode)
    → let ioctl = api.wsa_ioctl self.socket in
      let any : SocketAddress = record { sin_family = af_inet; sin_port = 0; s_addr = 0 } in
      ioctl.0 ≡ 0
      → ioctl.1 ≢ null
      → (api.bind self.socket any ≡ 0) ⊎ (api.bind self.socket any ≡ wsaeinval)
      → (connect_start api self endpoint
          ≡ done (
              started self.stop
                (api.connect_ex self.socket (socket_address endpoint) self.ov)
                (connect_value (api.update_context self.socket))))
        × (on_connected api.update_context self (port_entry 0 client_key self.ov) ec
            ≡ done (verdict self.stop ec (connect_value (api.update_context self.socket))))
unfolding connect_start
connect_start-verdict api self endpoint ec found address (inl bound) =
    (ground (arith, found, address, bound), ground arith)
connect_start-verdict api self endpoint ec found address (inr bound) =
    (ground (arith, found, address, bound), ground arith)
