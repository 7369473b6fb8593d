-- ===== src/Sockets/Stream/Examples.antt =====
-- A connection on which three bytes are sent from one buffer, two in a first call, and read to another.
use win_io.Base.{ℕ, ◌≡◌, refl, arith, false, [], ◌∷◌, map, some, inl}
use win_io.Base.Outcome.{done}
use win_io.Os.{Ptr}
use win_io.Sockets.Transfer.{set_value, set_error, async_read_write, consume, is_completed}
use win_io.Sockets.Transfer.Consume.{range, IsTransfer}
use win_io.Sockets.Buffers.{total_size}
use win_io.Sockets.Operation.{token}
use win_io.Sockets.Handles.{AsyncSocket}
use win_io.Sockets.Stream.{
  sending, filling, Looping, Turn, schedule_turn, loops, called, ended, write_signal, turn,
  is_scheduled, continue_with, store, Connection, sends, sent, receives, Reach, here, further,
}
use win_io.Sockets.Stream.Signals.{schedule_turn-posted}
use win_io.Sockets.Stream.Delivery.{Starts, InOrder, Reach-InOrder}
use win_io.Sockets.Stream.Completion.{Reach-Completes}

abbrev writing : AsyncSocket
writing = record { socket = 12; iocp = 80 }

abbrev reading : AsyncSocket
reading = record { socket = 16; iocp = 80 }

abbrev looping : Ptr → Looping
looping buf = record {
  state = record {
    buffers_impl = record {
      single_buffer = record { len = 0; buf = 0 };
      buffers = some (record { len = 3; buf = buf } ∷ []);
      total_size = some 3;
    };
    passed = [];
    rest = record { len = 3; buf = buf } ∷ [];
    processed_bytes = 0;
  };
  calls_count = 0;
}

looping-IsTransfer : (buf : Ptr) → IsTransfer (looping buf).state 3
looping-IsTransfer buf = record { small = omega arith; accounted = refl; sized = inl refl }

abbrev start : Connection
start = record {
  writer = loops (looping 100);
  reader = loops (looping 200);
  stream = [];
  memory = λ p. 0;
}

-- The writer's byte at an address is the address.
abbrev source : Ptr → ℕ
source p = p

start-Starts : Starts writing reading source (range 100 3) (range 200 3) 3 3 start
start-Starts = record {
  writer_at = (looping-IsTransfer 100, refl);
  reader_at = (looping-IsTransfer 200, refl);
  empty = refl;
}

-- A call that waits for its entry, which reports two bytes.
abbrev of_two : Turn
of_two = record {
  stop = token false;
  schedule_ov = 600;
  call_ov = 500;
  post_error = 0;
  delivery_error = 0;
  call = record { error = 997; bytes = 0 };
  delivered = record { error = 0; bytes = 2 };
}

-- The writer behind that call: the third byte is left.
abbrev one_left : Looping
one_left = record {
  state = record {
    buffers_impl = record {
      single_buffer = record { len = 0; buf = 0 };
      buffers = some (record { len = 1; buf = 102 } ∷ []);
      total_size = some 3;
    };
    passed = [];
    rest = record { len = 1; buf = 102 } ∷ [];
    processed_bytes = 2;
  };
  calls_count = 1;
}

abbrev after : Connection
after = record {
  writer = loops one_left;
  reader = called (looping 200) of_two;
  stream = [];
  memory = store (200 ∷ 201 ∷ []) (100 ∷ 101 ∷ []) start.memory;
}

write_two : turn write_signal writing (looping 100) of_two ≡ done (loops one_left)
unfolding turn write_signal continue_with async_read_write consume is_completed total_size
    schedule_turn
write_two = refl

run : Reach writing reading source start after
unfolding is_scheduled schedule_turn sending filling
run =
    further
      (further (further here (sends (looping 100) of_two refl (omega arith)))
        (sent (looping 100) of_two (loops one_left) refl write_two))
      (receives (looping 200) of_two refl (omega arith) (omega arith))

Reach-InOrder_example : InOrder writing reading source (range 100 3) (range 200 3) 3 3 start after
Reach-InOrder_example =
    Reach-InOrder writing reading source (range 100 3) (range 200 3) 3 3 start after refl
      start-Starts run

Reach-Completes_example :
    (e : Connection) × Reach writing reading source start e
    × (e.writer ≡ ended (set_value 3))
    × (e.reader ≡ ended (set_value 3))
    × (map e.memory (range 200 3) ≡ map source (range 100 3))
Reach-Completes_example =
    Reach-Completes writing reading source (range 100 3) (range 200 3) 3 3 start start refl refl
      start-Starts here refl refl

-- The 128th turn, whose post fails with ERROR_INVALID_HANDLE.
abbrev last : Looping
last = record (looping 100) { calls_count = 127 }

schedule_turn-posted_example :
    schedule_turn writing last (record of_two { post_error = 6 }) ≡ done (128, set_error 6)
schedule_turn-posted_example = schedule_turn-posted writing last (record of_two { post_error = 6 })
