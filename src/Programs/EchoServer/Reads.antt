-- ===== src/Programs/EchoServer/Reads.antt =====
-- The reads of the echo server.
use win_io.Base.{
  ℕ, zero, suc, ◌+◌, ◌^◌, ◌≤◌, ◌<◌, ◌≡◌, refl, sym, ap, ◌∙◌, subst, arith, Bool, ltb, List, ◌∷◌,
  take, some,
}
use win_io.Base.Outcome.{done}
use win_io.Os.{Ptr}
use win_io.Sockets.Buffers.{OneBufferOwnerOrManyRef, as_ref, has_data}
use win_io.Sockets.Transfer.{Signal}
use win_io.Sockets.Transfer.Consume.{range, cells}
use win_io.Sockets.Operation.{Operation}
use win_io.Sockets.Operation.Completion.{verdict, read_value}
use win_io.Sockets.Senders.{read_some_operation}
use win_io.Sockets.Senders.Calls.{IsFor, async_write_some-IsFor}
use win_io.Sockets.Stream.{Turn, end_read, result}
use win_io.Sockets.Stream.Signals.{Reports, end_read-verdict, verdict-Reports, read_value-Reports}
use win_io.Programs.EchoServer.{Connection, read_operation, reading_to}

pub take-range : (p k n : ℕ) → k ≤ n → take k (range p n) ≡ range p k
take-range p zero n fits = refl
take-range p (suc k) zero fits = absurd (omega arith)
take-range p (suc k) (suc n) fits = ap (◌∷◌ p) (take-range (p + 1) k n (omega arith))

pub end_read-Reports :
    (o : Operation) (buffers : OneBufferOwnerOrManyRef) (t : Turn) (g : Signal ℕ) (has_room : Bool)
    → has_data buffers ≡ done has_room
    → end_read o buffers t ≡ done g
    → Reports (result t) g
end_read-Reports o buffers t g has_room known ends =
    let value = read_value has_room (result t).bytes in
    let same : verdict o.stop (result t).error value ≡ g =
      cc (ends, end_read-verdict o buffers has_room t known) in
    subst (Reports (result t)) same
      (verdict-Reports o.stop (result t) value (read_value-Reports (result t) has_room))

module _ (c : Connection) (small : c.buffer.size < 2 ^ 32) where
  -- The operation state of a read is on the whole buffer.
  pub read_operation-IsFor :
      (t : Turn) (o : Operation × OneBufferOwnerOrManyRef)
      → read_operation c t ≡ done o
      → IsFor c.socket c.buffer t.stop t.call_ov o.0 o.1
  unfolding read_operation
  read_operation-IsFor t o made =
      let (_, (r, made', is_for), _, _) =
        async_write_some-IsFor c.socket c.buffer t.stop t.call_ov
          (record { port_network = 0; ip_network = 0 }) 0 small in
      let same : read_some_operation r t.stop t.call_ov ≡ o = cc (rw made' at made) in
      subst (λ o'. IsFor c.socket c.buffer t.stop t.call_ov o'.0 o'.1) same is_for

  pub reading_to-range :
      (t : Turn) (places : List Ptr)
      → reading_to c t ≡ done places
      → places ≡ range c.buffer.start c.buffer.size
  unfolding reading_to read_operation
  reading_to-range t places made =
      let (_, (r, made', is_for), _, _) =
        async_write_some-IsFor c.socket c.buffer t.stop t.call_ov
          (record { port_network = 0; ip_network = 0 }) 0 small in
      let same : cells (as_ref (read_some_operation r t.stop t.call_ov).1) ≡ places =
        cc (rw made' at made) in
      sym same ∙ is_for.bytes

  pub room_of :
      (buffers : OneBufferOwnerOrManyRef)
      → buffers.total_size ≡ some c.buffer.size
      → has_data buffers ≡ done (ltb 0 c.buffer.size)
  unfolding has_data
  room_of buffers total = rw total refl
