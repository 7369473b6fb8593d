-- ===== src/Sockets/Transfer/Examples.antt =====
-- A transfer of two buffers, of 3 bytes at 100 and of 4 bytes at 200.
use win_io.Base.{◌≡◌, refl, arith, none, some, List, [], ◌∷◌, inr}
use win_io.Base.Outcome.{done}
use win_io.Os.{minus_one}
use win_io.Sockets.Buffers.{BufferRef}
use win_io.Sockets.Transfer.{
  State, set_value, set_error, set_done, completes, waits, async_read_write,
}
use win_io.Sockets.Transfer.Consume.{cells, IsTransfer}
use win_io.Sockets.Transfer.Loop.{async_read_write-cells}

abbrev two : List BufferRef
two = record { len = 3; buf = 100 } ∷ record { len = 4; buf = 200 } ∷ []

abbrev both : State
both = record {
  buffers_impl = record {
    single_buffer = record { len = 0; buf = 0 };
    buffers = some two;
    total_size = none;
  };
  passed = [];
  rest = two;
  processed_bytes = 0;
}

both-IsTransfer : IsTransfer both 7
both-IsTransfer = record {
  small = omega arith;
  accounted = refl;
  sized = inr (refl, refl, refl, two, refl);
}

async_read_write-cells_example :
    ((s' : State) × (async_read_write (set_value 2 ∷ set_value 3 ∷ []) both ≡ done (waits s'))
      × (cells s'.rest ≡ 202 ∷ 203 ∷ []))
    × (async_read_write (set_value 2 ∷ set_value 3 ∷ set_error minus_one ∷ []) both
        ≡ done (completes (set_error minus_one)))
    × (async_read_write (set_value 2 ∷ set_value 3 ∷ set_done ∷ []) both
        ≡ done (completes set_done))
    × (async_read_write (set_value 2 ∷ set_value 3 ∷ set_value 2 ∷ []) both
        ≡ done (completes (set_value 7)))
async_read_write-cells_example =
    async_read_write-cells 7 (2 ∷ 3 ∷ []) both [] minus_one both-IsTransfer (omega arith)
