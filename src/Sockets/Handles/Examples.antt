-- ===== src/Sockets/Handles/Examples.antt =====
-- A model of the system whose state is the list of the open sockets.
use mathlib.Core.List.{tail}
use win_io.Base.{true, false, Option, List, [], ◌∷◌, ◌≡◌, refl, ap, arith, inr}
use win_io.Base.Outcome.{done}
use win_io.Os.{Ptr, null, ErrorCode}
use win_io.Port.{PortApi, IoCompletionPort}
use win_io.Sockets.Handles.{SocketApi, AsyncSocket, tcp_make, udp_make}
use win_io.Sockets.Handles.Ownership.{HasSockets, Owned, make-Owned}

abbrev pub ports : PortApi
ports = record {
  World = List Ptr;
  create_io_completion_port = λ device existing key threads w. (existing, w);
  post_queued_completion_status = λ port b k ov w. (false, w);
  get_queued_completion_status = λ port ms w.
      (record { status = false; bytes_transferred = 0; completion_key = 0; overlapped = null }, w);
  get_queued_completion_status_ex = λ port n ms alertable w. ((false, []), w);
  close_handle = λ h w. (true, w);
  get_last_error = λ w. 5;
}

-- Its new socket is always 7, and it refuses nothing.
abbrev pub system : SocketApi
system = record {
  port_api = ports;
  wsa_socket = λ kind protocol w. (7, 7 ∷ w);
  set_completion_notification_modes = λ h w. (true, w);
  ioctlsocket = λ h w. (0, w);
  set_reuse_address = λ h w. (0, w);
  bind_socket = λ h address w. (0, w);
  listen = λ h backlog w. (0, w);
  shutdown = λ h w. w;
  closesocket = λ h w. tail w;
  wsa_get_last_error = λ w. 5;
}

abbrev system_sockets : HasSockets system
system_sockets = record {
  opened = λ w. w;
  refuses = λ kind protocol w e. absurd (omega (arith, e));
  opens = λ kind protocol w valid. refl;
  closes = λ h hs w own. ap tail own;
  keeps_modes = λ h w. refl;
  keeps_ioctl = λ h w. refl;
  keeps_shutdown = λ h w. refl;
  keeps_port = λ device existing key threads w. refl;
  same_port = λ device existing key threads w some_port. inr refl;
}

abbrev pub port : IoCompletionPort
port = record { io_port = 9 }

make-Owned_example :
    ((o : Option AsyncSocket) × (ec : ErrorCode) × (after : List Ptr) × (tcp_make system 32 port
          (3 ∷ [])
        ≡ done (o, ec, after))
      × Owned system system_sockets o (3 ∷ []) after)
    × ((o : Option AsyncSocket) × (ec : ErrorCode) × (after : List Ptr) × (udp_make system 32 port
            (3 ∷ [])
          ≡ done (o, ec, after))
        × Owned system system_sockets o (3 ∷ []) after)
make-Owned_example = make-Owned system system_sockets 32 port (3 ∷ []) (λ e. omega (arith, e))
