-- ===== src/Sockets/Senders/Examples.antt =====
-- A span of ten bytes, and two buffers of three and four bytes.
use win_io.Base.{◌≡◌, arith, List, [], ◌∷◌}
use win_io.Base.Outcome.{done}
use win_io.Sockets.Buffers.{BufferRef}
use win_io.Sockets.Transfer.{State}
use win_io.Sockets.Transfer.Consume.{range, cells, IsTransfer}
use win_io.Sockets.Senders.{CharSpan, transfer_span, transfer_buffers, transfer_buffers_of_size}
use win_io.Sockets.Senders.Calls.{transfer_span-IsTransfer}

abbrev span : CharSpan
span = record { start = 4096; size = 10 }

abbrev two : List BufferRef
two = record { len = 3; buf = 100 } ∷ record { len = 4; buf = 200 } ∷ []

transfer_span-IsTransfer_example :
    ((s : State) × (transfer_span span ≡ done s) × IsTransfer s 10 × (cells s.rest ≡ range 4096 10))
    × IsTransfer (transfer_buffers two) 7
    × (cells (transfer_buffers two).rest ≡ cells two)
    × IsTransfer (transfer_buffers_of_size two 7) 7
    × (cells (transfer_buffers_of_size two 7).rest ≡ cells two)
transfer_span-IsTransfer_example = transfer_span-IsTransfer span two (omega arith) (omega arith)
