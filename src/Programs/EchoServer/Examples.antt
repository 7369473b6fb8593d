-- ===== src/Programs/EchoServer/Examples.antt =====
-- A client that sends two bytes, of which the server reads both and has yet to answer them.
use win_io.Base.{◌≡◌, refl, arith, false, [], ◌∷◌}
use win_io.Base.Outcome.{done}
use win_io.Sockets.Transfer.Consume.{range}
use win_io.Sockets.Operation.{token}
use win_io.Sockets.Stream.{Turn, store}
use win_io.Programs.EchoServer.{
  Connection, reading, read_due, reading_to, Run, receives, Reach, here, further,
}
use win_io.Programs.EchoServer.Echoes.{Answered, Reach-Answered}

abbrev client : Connection
client = record {
  socket = record { socket = 12; iocp = 80 };
  id = 1;
  buffer = record { start = 4096; size = 4 };
}

abbrev start : Run
start = record { phase = reading; memory = λ p. 0; received = []; answered = [] }

abbrev of_two : Turn
of_two = record {
  stop = token false;
  schedule_ov = 600;
  call_ov = 500;
  post_error = 0;
  delivery_error = 0;
  call = record { error = 997; bytes = 0 };
  delivered = record { error = 0; bytes = 2 };
}

abbrev after : Run
after = record {
  phase = read_due of_two;
  memory = store (4096 ∷ 4097 ∷ []) (104 ∷ 105 ∷ []) start.memory;
  received = 104 ∷ 105 ∷ [];
  answered = [];
}

places : reading_to client of_two ≡ done (range 4096 4)
unfolding reading_to
places = refl

run : Reach client start after
run = further here (receives of_two (104 ∷ 105 ∷ []) (range 4096 4) refl places refl (omega arith))

Reach-Answered_example : Answered (read_due of_two) (104 ∷ 105 ∷ []) []
Reach-Answered_example = Reach-Answered client (omega arith) start after refl refl run
