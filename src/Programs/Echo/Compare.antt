-- ===== src/Programs/Echo/Compare.antt =====
-- unifex_TCP_simple_echo/main.cpp: the comparisons at the end of main.
use win_io.Base.{ℕ, ◌*◌, ◌^◌, ◌≤◌, ◌<◌, ◌≡◌, sym, ap, ◌∙◌, subst, arith, List, map, some}
use win_io.Base.Outcome.{done}
use win_io.Os.{Ptr}
use win_io.Sockets.Buffers.{BufferRef}
use win_io.Sockets.Transfer.{set_value}
use win_io.Sockets.Transfer.Consume.{range, cells, sum_len}
use win_io.Sockets.Handles.{AsyncSocket}
use win_io.Sockets.Senders.{CharSpan}
use win_io.Sockets.Stream.{ended, Connection, Reach, here}
use win_io.Sockets.Stream.Delivery.{Starts, Reach-InOrder, Reach-whole}
use win_io.Sockets.Stream.Completion.{Reach-Completes}
use win_io.Programs.Echo.{buffer_size, scatter, scatter-cells}
use win_io.Programs.Echo.Ranges.{range-distinct, Apart, range-elsewhere}
use win_io.Programs.Echo.Exchange.{
  client_to_server, server_to_client, first-Starts, second-Starts, server_to_client-Starts,
  same_length,
}

module _ (client server : AsyncSocket) (memory : Ptr → ℕ)
    (write_data server_data read_data size : ℕ) (small : size < 2 ^ 32) where
  abbrev span : Ptr → CharSpan
  span p = record { start = p; size = size }

  module _ (fuel : ℕ) (enough : size ≤ fuel * buffer_size) where
    client_to_server-Starts :
        (bs : List BufferRef) (c : Connection)
        → scatter write_data size fuel 0 ≡ some bs
        → client_to_server bs size (span server_data) memory ≡ done c
        → Starts client server memory (range write_data size) (range server_data size) size size c
          × (c.memory ≡ memory)
    client_to_server-Starts bs c scattered made =
        let (bs', scattered', total, same) =
          scatter-cells write_data size fuel 0 (omega (arith, enough)) (omega arith) in
        let same_bs : bs' ≡ bs = cc (scattered, scattered') in
        let (c', made', starts, from, _, _) =
          first-Starts client server memory write_data server_data read_data size small bs
            (ap sum_len (sym same_bs) ∙ total ∙ omega arith)
            (ap cells (sym same_bs) ∙ same ∙ ground arith) in
        let same_c : c' ≡ c = cc (made, made') in
        (
          subst
              (Starts client server memory (range write_data size) (range server_data size) size
                size)
              same_c starts,
          subst (λ c''. c''.memory ≡ memory) same_c from,
        )

    -- The three vectors do not overlap, and `bs` is what the client scatters. Let the server's
    -- `async_read`, whatever the two sides did, complete with a value, and let the client's `async_read`
    -- of the answer, which the server then writes from its vector, complete with a value. Then these
    -- values are the size, and the two comparisons at the end of main succeed.
    pub exchange-compares :
        (bs : List BufferRef) (c1 d1 c2 d2 : Connection) (n m : ℕ)
        → Apart write_data server_data size
        → Apart write_data read_data size
        → Apart server_data read_data size
        → scatter write_data size fuel 0 ≡ some bs
        → client_to_server bs size (span server_data) memory ≡ done c1
        → Reach client server memory c1 d1
        → d1.reader ≡ ended (set_value n)
        → server_to_client (span server_data) (span read_data) d1.memory ≡ done c2
        → Reach server client d1.memory c2 d2
        → d2.reader ≡ ended (set_value m)
        → (n ≡ size)
          × (m ≡ size)
          × (map d2.memory (range write_data size) ≡ map d2.memory (range read_data size))
          × (map d2.memory (range write_data size) ≡ map d2.memory (range server_data size))
    exchange-compares bs c1 d1 c2 d2 n m apart_ws apart_wr apart_sr scattered made1 r1 ends1 made2
          r2 ends2 =
        let (starts1, from1) = client_to_server-Starts bs c1 scattered made1 in
        let (starts2, from2) =
          server_to_client-Starts client server memory write_data server_data read_data size small
            d1.memory c2 made2 in
        let server_distinct = range-distinct server_data size in
        let read_distinct = range-distinct read_data size in
        let (all1, arrived1) =
          Reach-whole client server memory (range write_data size) (range server_data size) size
            size c1 d1 n server_distinct
            (same_length client server memory write_data server_data read_data size small write_data
              server_data)
            starts1 r1 ends1 in
        let (all2, arrived2) =
          Reach-whole server client d1.memory (range server_data size) (range read_data size) size
            size c2 d2 m read_distinct
            (same_length client server memory write_data server_data read_data size small
              server_data read_data)
            starts2 r2 ends2 in
        let order1 =
          Reach-InOrder client server memory (range write_data size) (range server_data size) size
            size c1 d1 server_distinct starts1 r1 in
        let order2 =
          Reach-InOrder server client d1.memory (range server_data size) (range read_data size) size
            size c2 d2 read_distinct starts2 r2 in
        let kept1 : map d1.memory (range write_data size) ≡ map memory (range write_data size) =
          range-elsewhere memory d1.memory write_data server_data size apart_ws
            (λ r out. order1.elsewhere r out ∙ ap (λ f. f r) from1) in
        let kept2 : map d2.memory (range write_data size) ≡ map d1.memory (range write_data size) =
          range-elsewhere d1.memory d2.memory write_data read_data size apart_wr
            (λ r out. order2.elsewhere r out ∙ ap (λ f. f r) from2) in
        let kept3 : map d2.memory (range server_data size)
            ≡ map d1.memory (range server_data size) =
          range-elsewhere d1.memory d2.memory server_data read_data size apart_sr
            (λ r out. order2.elsewhere r out ∙ ap (λ f. f r) from2) in
        (
          all1,
          all2,
          kept2 ∙ kept1 ∙ sym arrived1 ∙ sym arrived2,
          kept2 ∙ kept1 ∙ sym arrived1 ∙ sym kept3,
        )

    -- There are runs in which all of this happens: the client's data is scattered, both `async_read`s
    -- start, and each completes with the size.
    pub exchange-completes :
        (bs : List BufferRef) × (c1 : Connection) × (d1 : Connection) × (c2 : Connection)
        × (d2 : Connection) × (scatter write_data size fuel 0 ≡ some bs)
        × (client_to_server bs size (span server_data) memory ≡ done c1)
        × Reach client server memory c1 d1
        × (d1.reader ≡ ended (set_value size))
        × (server_to_client (span server_data) (span read_data) d1.memory ≡ done c2)
        × Reach server client d1.memory c2 d2
        × (d2.reader ≡ ended (set_value size))
    exchange-completes =
        let (bs, scattered, total, same) =
          scatter-cells write_data size fuel 0 (omega (arith, enough)) (omega arith) in
        let (c1, made1, starts1, _, can_write1, can_read1) =
          first-Starts client server memory write_data server_data read_data size small bs
            (total ∙ omega arith) (same ∙ ground arith) in
        let (d1, r1, _, read1, _) =
          Reach-Completes client server memory (range write_data size) (range server_data size) size
            size c1 c1 (range-distinct server_data size)
            (same_length client server memory write_data server_data read_data size small write_data
              server_data)
            starts1 here can_write1 can_read1 in
        let (c2, made2, starts2, _, can_write2, can_read2) =
          second-Starts client server memory write_data server_data read_data size small
            d1.memory in
        let (d2, r2, _, read2, _) =
          Reach-Completes server client d1.memory (range server_data size) (range read_data size)
            size size c2 c2 (range-distinct read_data size)
            (same_length client server memory write_data server_data read_data size small
              server_data read_data)
            starts2 here can_write2 can_read2 in
        (bs, c1, d1, c2, d2, scattered, made1, r1, read1, made2, r2, read2)
