-- ===== src/Sockets/Accept/Examples.antt =====
-- A listening socket 3 in the system of the examples on owners, in which each new socket is 7.
use win_io.Base.{false, some, List, [], ◌∷◌, ◌≡◌, refl}
use win_io.Base.Outcome.{done}
use win_io.Os.{Ptr, ErrorCode, no_error}
use win_io.Port.{port_entry}
use win_io.Sockets.Transfer.{set_value}
use win_io.Sockets.Operation.{client_key, pending, Operation, never_possible}
use win_io.Sockets.Handles.{AsyncSocket, tcp_make}
use win_io.Sockets.Handles.Examples.{system, port}
use win_io.Sockets.Accept.{Accepted, on_accepted, accept_start}
use win_io.Sockets.Accept.Client.{accept_start-verdict}

abbrev listener : Operation
listener = record { socket = 3; ov = 64; stop = never_possible }

abbrev client : AsyncSocket
client = record { socket = 7; iocp = 32 }

abbrev waits_for_client : Ptr → Ptr → Ptr → List Ptr → Accepted × List Ptr
waits_for_client listen_socket peer ov w =
    (record { ok = false; bytes_received = 0; error = 997 }, w)

abbrev updates : Ptr → Ptr → ErrorCode
updates peer listen_socket = 0

makes_client : tcp_make system 32 port (3 ∷ []) ≡ done (some client, no_error, 7 ∷ 3 ∷ [])
unfolding tcp_make
makes_client = refl

accept_start-verdict_example :
    (accept_start system waits_for_client updates listener 32 port (3 ∷ [])
      ≡ done (pending, client, 7 ∷ 3 ∷ []))
    × (on_accepted updates listener client (port_entry 0 client_key 64) no_error
        ≡ done (set_value client))
accept_start-verdict_example =
    accept_start-verdict system waits_for_client updates listener 32 port (3 ∷ []) client
      (7 ∷ 3 ∷ []) no_error makes_client refl refl
