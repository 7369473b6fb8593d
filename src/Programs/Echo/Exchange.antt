-- ===== src/Programs/Echo/Exchange.antt =====
-- unifex_TCP_simple_echo/main.cpp: the client writes its data and reads the answer, the server reads all
-- data and writes it back; and the comparisons at the end of main.
use win_io.Base.{ℕ, ◌^◌, ◌<◌, ◌≡◌, refl, sym, ◌∙◌, subst, arith, true, List, [], length}
use win_io.Base.Outcome.{Outcome, done, ◌>>=◌}
use win_io.Os.{Ptr}
use win_io.Sockets.Buffers.{BufferRef}
use win_io.Sockets.Transfer.{State}
use win_io.Sockets.Transfer.Consume.{range, cells, sum_len, IsTransfer, length-range}
use win_io.Sockets.Handles.{AsyncSocket}
use win_io.Sockets.Senders.{CharSpan, transfer_span, transfer_buffers_of_size}
use win_io.Sockets.Senders.Calls.{transfer_span-IsTransfer}
use win_io.Sockets.Stream.{Side, loops, Connection}
use win_io.Sockets.Stream.Delivery.{Starts}
use win_io.Sockets.Stream.Completion.{going}

-- A transfer at the start of its loop.
abbrev at_start : State → Side
at_start s = loops (record { state = s; calls_count = 0 })

-- `async_write` of the client's buffers, with their size, and `async_read` of the server, from when
-- both run on a connection.
unfoldable pub client_to_server :
    List BufferRef → (size : ℕ) → (server_data : CharSpan) (memory : Ptr → ℕ) → Outcome Connection
unfolding transfer_span transfer_buffers_of_size
client_to_server to_write size server_data memory = do
  s ← transfer_span server_data
  done (record {
    writer = at_start (transfer_buffers_of_size to_write size);
    reader = at_start s;
    stream = [];
    memory = memory;
  })

-- `async_write` of the server and `async_read` of the client, when those are complete.
unfoldable pub server_to_client :
    (server_data read_data : CharSpan) (memory : Ptr → ℕ) → Outcome Connection
unfolding transfer_span
server_to_client server_data read_data memory = do
  w ← transfer_span server_data
  r ← transfer_span read_data
  done (record { writer = at_start w; reader = at_start r; stream = []; memory = memory })

module _ (client server : AsyncSocket) (memory : Ptr → ℕ)
    (write_data server_data read_data size : ℕ) (small : size < 2 ^ 32) where
  -- The vectors of the server and of the client's answer.
  abbrev pub at : Ptr → CharSpan
  at p = record { start = p; size = size }

  pub first-Starts :
      (bs : List BufferRef)
      → sum_len bs ≡ size
      → cells bs ≡ range write_data size
      → (c : Connection) × (client_to_server bs size (at server_data) memory ≡ done c)
        × Starts client server memory (range write_data size) (range server_data size) size size c
        × (c.memory ≡ memory)
        × (going c.writer ≡ true)
        × (going c.reader ≡ true)
  unfolding client_to_server
  first-Starts bs total same =
      let ((r, made, rt, rc), _, _, wt, wc) =
        transfer_span-IsTransfer (at server_data) bs (omega (arith, small))
          (omega (arith, small, total)) in
      (
        record {
          writer = at_start (transfer_buffers_of_size bs size);
          reader = at_start r;
          stream = [];
          memory = memory;
        },
        rw made refl,
        record {
          writer_at = (
            subst (λ n. IsTransfer (transfer_buffers_of_size bs n) n) total wt,
            subst (λ n. cells (transfer_buffers_of_size bs n).rest ≡ cells bs) total wc ∙ same,
          );
          reader_at = (rt, rc);
          empty = refl;
        },
        refl,
        refl,
        refl,
      )

  pub second-Starts :
      (memory' : Ptr → ℕ)
      → (c : Connection) × (server_to_client (at server_data) (at read_data) memory' ≡ done c)
        × Starts server client memory' (range server_data size) (range read_data size) size size c
        × (c.memory ≡ memory')
        × (going c.writer ≡ true)
        × (going c.reader ≡ true)
  unfolding server_to_client
  second-Starts memory' =
      let ((w, made, wt, wc), _, _, _, _) =
        transfer_span-IsTransfer (at server_data) [] (omega (arith, small)) (omega arith) in
      let ((r, made', rt, rc), _, _, _, _) =
        transfer_span-IsTransfer (at read_data) [] (omega (arith, small)) (omega arith) in
      (
        record { writer = at_start w; reader = at_start r; stream = []; memory = memory' },
        rw (made, made') refl,
        record { writer_at = (wt, wc); reader_at = (rt, rc); empty = refl },
        refl,
        refl,
        refl,
      )

  pub server_to_client-Starts :
      (memory' : Ptr → ℕ) (c : Connection)
      → server_to_client (at server_data) (at read_data) memory' ≡ done c
      → Starts server client memory' (range server_data size) (range read_data size) size size c
        × (c.memory ≡ memory')
  server_to_client-Starts memory' c made =
      let (c', made', starts, from, _, _) = second-Starts memory' in
      let same_c : c' ≡ c = cc (made, made') in
      (
        subst
            (Starts server client memory' (range server_data size) (range read_data size) size size)
            same_c starts,
        subst (λ c''. c''.memory ≡ memory') same_c from,
      )

  pub same_length : (p q : Ptr) → length (range p size) ≡ length (range q size)
  same_length p q = length-range p size ∙ sym (length-range q size)
