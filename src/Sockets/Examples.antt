-- ===== src/Sockets/Examples.antt =====
-- Operations on the socket 4 with the OVERLAPPED at 64.
use win_io.Base.{ℕ, ◌≡◌, refl, arith, true, false, none, some, List, [], ◌∷◌, inl}
use win_io.Base.Outcome.{done}
use win_io.Os.{Ptr, no_error, minus_one}
use win_io.Port.{port_entry}
use win_io.Sockets.Buffers.{BufferRef, OneBufferOwnerOrManyRef, has_data}
use win_io.Sockets.Transfer.{set_value, set_error}
use win_io.Sockets.Operation.{
  client_key, EndpointIpv4, token, completed, pending, Operation, SocketAddress, Transferred,
}
use win_io.Sockets.Operation.ReadWrite.{
  on_sent, write_some_start, on_sent_to, send_to_start, on_received, read_some_start,
}
use win_io.Sockets.Operation.Completion.{write_some_start-verdict, read_some_start-verdict}
use win_io.Sockets.Operation.Connect.{ConnectApi, on_connected, connect_start}
use win_io.Sockets.Operation.Connection.{connect_start-verdict}
use win_io.Sockets.Select.{scheduler, fallback, select_many}
use win_io.Sockets.Select.Turns.{select_many-once}
use win_io.Sockets.RangeConnect.{completes, connects, start, run}
use win_io.Sockets.RangeConnect.First.{start-refused}

abbrev self : Operation
self = record { socket = 4; ov = 64; stop = token false }

abbrev buffer : OneBufferOwnerOrManyRef
buffer = record {
  single_buffer = record { len = 8; buf = 500 };
  buffers = none;
  total_size = some 8;
}

abbrev peer : EndpointIpv4
peer = record { port_network = 80; ip_network = 1 }

-- Five bytes at once to a peer, an error without one.
abbrev at_once : Ptr → List BufferRef → SocketAddress → Transferred
at_once socket buffers address = record { error = 0; bytes = 5 }

abbrev reset : Ptr → List BufferRef → Transferred
reset socket buffers = record { error = 10054; bytes = 0 }

write_some_start-verdict_example :
    (write_some_start reset self buffer ≡ done (completed (set_error 10054)))
    × (send_to_start at_once self buffer peer ≡ done (completed (set_value 5)))
    × (on_sent self (port_entry 3 client_key 64) no_error ≡ done (set_value 3))
    × (on_sent_to self (port_entry 3 client_key 64) no_error ≡ done (set_value 3))
write_some_start-verdict_example =
    write_some_start-verdict self buffer reset at_once peer no_error 3

abbrev end_of_stream : Ptr → List BufferRef → ℕ → Transferred
end_of_stream socket buffers flags = record { error = 0; bytes = 0 }

buffer-has_data : has_data buffer ≡ done true
unfolding has_data
buffer-has_data = refl

read_some_start-verdict_example :
    (read_some_start end_of_stream self buffer ≡ done (completed (set_error minus_one)))
    × (on_received buffer self (port_entry 8 client_key 64) no_error ≡ done (set_value 8))
read_some_start-verdict_example =
    read_some_start-verdict self buffer end_of_stream true no_error 8 buffer-has_data

abbrev connects_later : ConnectApi
connects_later = record {
  wsa_ioctl = λ socket. (0, 4096);
  bind = λ socket address. 0;
  connect_ex = λ socket address ov. 997;
  update_context = λ socket. 0;
}

connect_start-verdict_example :
    (connect_start connects_later self peer ≡ done pending)
    × (on_connected connects_later.update_context self (port_entry 0 client_key 64) 10061
        ≡ done (set_error 10061))
connect_start-verdict_example =
    connect_start-verdict connects_later self peer 10061 refl (omega arith) (inl refl)

-- The counter wraps within these four turns.
select_many-once_example :
    select_many 4 4294967294 4 ≡ done (fallback ∷ scheduler ∷ fallback ∷ fallback ∷ [])
select_many-once_example = select_many-once 4 1073741824 (omega arith) refl 4294967294 (omega arith)

abbrev other : EndpointIpv4
other = record { port_network = 80; ip_network = 2 }

start-refused_example :
    (run (set_error 10061 ∷ set_value tt ∷ []) (start (peer ∷ other ∷ []))
      ≡ done (completes (set_value other)))
    × (run (set_error 10061 ∷ []) (start (peer ∷ other ∷ []))
        ≡ done (connects (record { endpoints = other ∷ []; last_error = 10061 })))
    × (run (set_error 10061 ∷ []) (start (peer ∷ [])) ≡ done (completes (set_error 10061)))
start-refused_example = start-refused (peer ∷ []) (10061 ∷ []) other [] [] refl
