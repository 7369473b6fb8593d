-- ===== src/Programs/Examples.antt =====
-- Data of a MiB and five bytes, and two watched directories of which the second has a change.
use win_io.Base.{ℕ, inl, ◌≡◌, refl, arith, true, some, List, [], ◌∷◌, ◌++◌, map, if◌then◌else◌}
use win_io.Base.Outcome.{done, failed_assert}
use win_io.Os.{Ptr, ErrorCode, no_error, is_error}
use win_io.Port.{PortEntry, port_entry}
use win_io.Port.Examples.{system_fifo, port}
use win_io.Sockets.Buffers.{BufferRef}
use win_io.Sockets.Transfer.{set_value}
use win_io.Sockets.Transfer.Consume.{range}
use win_io.Directory.Watch.{DirectoryChanges, is_valid_directory_change, start_watch}
use win_io.Directory.Watch.Examples.{watched, watch}
use win_io.Sockets.Handles.{AsyncSocket}
use win_io.Sockets.Senders.{CharSpan}
use win_io.Sockets.Stream.{ended, Connection, Reach}
use win_io.Programs.Echo.Exchange.{client_to_server, server_to_client}
use win_io.Programs.Echo.Compare.{exchange-compares, exchange-completes}
use win_io.Sockets.Operation.{EndpointIpv4}
use win_io.Programs.UdpEchoServer.{Server}
use win_io.Sockets.Operation.ReadWrite.{ReceivedFrom}
use win_io.Programs.Echo.{scatter}
use win_io.Directory.Parser.Examples.{memory, added, removed, both-Layout}
use win_io.Programs.Watcher.{rule, serve_one}
use win_io.Programs.Watcher.Dispatch.{page_line, serve_one-stops}

abbrev other : DirectoryChanges
other = record watch { dir_key = 4; ov = 600; directory = 8 }

of_watch : is_valid_directory_change watch (port_entry 32 3 500) ≡ true
unfolding is_valid_directory_change
of_watch = refl

serve_one-stops_example :
    (w' : List PortEntry × ErrorCode) × (w'.0 ≡ [])
    × (serve_one watched (other ∷ watch ∷ []) 4 memory port (port_entry 32 3 500 ∷ [], no_error) ≡ (
        if is_error (start_watch watched watch w').0
        then done (
            some
              (map page_line (added ∷ removed ∷ []) ++ rule ∷ [], (start_watch watched watch w').1))
        else failed_assert))
serve_one-stops_example =
    serve_one-stops watched system_fifo (other ∷ watch ∷ []) (other ∷ []) [] watch port
      (port_entry 32 3 500 ∷ [], no_error) (port_entry 32 3 500) [] memory 4 added (removed ∷ [])
      refl ((λ e. omega (arith, e)), record {}) of_watch refl both-Layout (omega arith)
      (omega arith) (omega arith, omega arith, (omega arith, omega arith, record {}))

-- Vectors of five bytes each.
abbrev sockets : AsyncSocket × AsyncSocket
sockets = (record { socket = 12; iocp = 80 }, record { socket = 16; iocp = 80 })

abbrev letters : Ptr → ℕ
letters p = 120

abbrev vector : Ptr → CharSpan
vector p = record { start = p; size = 5 }

abbrev five : ℕ
five = 5

-- Two such runs.
runs :
    (bs : List BufferRef) × (c1 : Connection) × (d1 : Connection) × (c2 : Connection)
    × (d2 : Connection) × (scatter 1000 5 1 0 ≡ some bs)
    × (client_to_server bs 5 (vector 2000) letters ≡ done c1)
    × Reach sockets.0 sockets.1 letters c1 d1
    × (d1.reader ≡ ended (set_value 5))
    × (server_to_client (vector 2000) (vector 3000) d1.memory ≡ done c2)
    × Reach sockets.1 sockets.0 d1.memory c2 d2
    × (d2.reader ≡ ended (set_value 5))
runs = exchange-completes sockets.0 sockets.1 letters 1000 2000 3000 5 (omega arith) 1 (omega arith)

exchange-compares_example :
    (five ≡ 5)
    × (five ≡ 5)
    × (map runs.4.memory (range 1000 5) ≡ map runs.4.memory (range 3000 5))
    × (map runs.4.memory (range 1000 5) ≡ map runs.4.memory (range 2000 5))
exchange-compares_example =
    exchange-compares sockets.0 sockets.1 letters 1000 2000 3000 5 (omega arith) 1 (omega arith)
      runs.0 runs.1 runs.2 runs.3 runs.4 five five (inl (omega arith)) (inl (omega arith))
      (inl (omega arith)) runs.5 runs.6 runs.7 runs.8 runs.9 runs.10 runs.11

-- A datagram of three bytes from a peer.
abbrev udp_server : Server
udp_server = record {
  server = sockets.1;
  buffer = record { start = 4096; size = 1024 };
  sender = record { port_network = 0; ip_network = 0 };
}

abbrev peer : EndpointIpv4
peer = record { port_network = 25835; ip_network = 16777343 }

-- The datagram comes with the entry of a pending call.
abbrev from_peer : ReceivedFrom
from_peer = record {
  address = record { sin_family = 2; sin_port = 25835; s_addr = 16777343 };
  endpoint_length = 16;
}
