-- ===== src/Programs/EchoServer/Echoes.antt =====
-- That a connection gets back what it sends.
use win_io.Base.{
  ℕ, ◌^◌, ◌≤◌, ◌<◌, ◌≡◌, refl, sym, ap, ◌∙◌, subst, arith, ltb, List, [], ◌++◌, map, take, drop,
  length, append-nil,
}
use win_io.Base.Outcome.{done}
use win_io.Os.{Ptr}
use win_io.Sockets.Buffers.{as_ref, many_buffers}
use win_io.Sockets.Transfer.{Signal, set_value, set_error, set_done}
use win_io.Sockets.Transfer.Consume.{range, cells, cells-length, length-range}
use win_io.Sockets.Senders.{do_write, remaining, write_some_operation, async_write_some_buffers}
use win_io.Sockets.Senders.Calls.{transfer_span-IsTransfer}
use win_io.Sockets.Stream.{
  Turn, write_signal, write_call, Side, loops, called, ended, result, moved, sending, store,
}
use win_io.Sockets.Stream.Memory.{map-store}
use win_io.Sockets.Stream.Signals.{Reports, write_signal-Signals}
use win_io.Sockets.Stream.Turns.{At}
use win_io.Sockets.Stream.Invariant.{At-end, cut_map}
use win_io.Programs.Echo.Ranges.{range-distinct}
use win_io.Programs.EchoServer.Reads.{
  take-range, end_read-Reports, read_operation-IsFor, reading_to-range, room_of,
}
use win_io.Programs.EchoServer.{
  Connection, Phase, reading, read_due, writing, closed, after_read, after_write, read_bytes, Run,
  Step, receives, read, sends, sent, Reach, here, further,
}

-- Between two turns all is answered; at any time a first part of it.
abbrev pub Answered : Phase → (received answered : List ℕ) → Type 0
Answered reading received answered = received ≡ answered
Answered (read_due t) received answered = (rest : List ℕ) × (received ≡ answered ++ rest)
Answered (writing side) received answered = (rest : List ℕ) × (received ≡ answered ++ rest)
Answered (closed g) received answered = (rest : List ℕ) × (received ≡ answered ++ rest)

module _ (c : Connection) (small : c.buffer.size < 2 ^ 32) where
  -- What is to be answered in each phase: after its turns, all that was received; in a turn, all but the
  -- bytes of the buffer that are not written back yet.
  abbrev Pending : Phase → (memory : Ptr → ℕ) (received answered : List ℕ) → Type 0
  Pending reading memory received answered = received ≡ answered
  Pending (read_due t) memory received answered =
      (read_bytes t ≤ c.buffer.size)
      × (received ≡ answered ++ map memory (range c.buffer.start (read_bytes t)))
  Pending (writing side) memory received answered =
      (total : ℕ) × (todo : List Ptr) × At c.socket total todo side
      × (received ≡ answered ++ map memory todo)
  Pending (closed g) memory received answered = (rest : List ℕ) × (received ≡ answered ++ rest)

  abbrev PendingOf : Run → Type 0
  PendingOf r = Pending r.phase r.memory r.received r.answered

  after_write-Pending :
      (side : Side) (total : ℕ) (todo : List Ptr) (memory : Ptr → ℕ) (received answered : List ℕ)
      → At c.socket total todo side
      → received ≡ answered ++ map memory todo
      → Pending (after_write side) memory received answered
  unfolding after_write
  after_write-Pending (loops l) total todo memory received answered at same =
      (total, todo, at, same)
  after_write-Pending (called l t) total todo memory received answered at same =
      (total, todo, at, same)
  after_write-Pending (ended (set_value n)) total todo memory received answered (none_left, _)
        same =
      same ∙ ap (λ ps. answered ++ map memory ps) none_left ∙ append-nil answered
  after_write-Pending (ended (set_error ec)) total todo memory received answered at same =
      (map memory todo, same)
  after_write-Pending (ended set_done) total todo memory received answered at same =
      (map memory todo, same)

  after_read-Pending :
      (t : Turn) (g : Signal ℕ) (next : Phase) (memory : Ptr → ℕ) (received answered : List ℕ)
      → Reports (result t) g
      → after_read c g ≡ done next
      → Pending (read_due t) memory received answered
      → Pending next memory received answered
  unfolding after_read
  after_read-Pending t (set_value n) next memory received answered (ok, same) made (fits, left) =
      let all : read_bytes t ≡ n = ground (arith, ok, same) in
      let ((s, made', transfer, of_span), _, _, _, _) =
        transfer_span-IsTransfer (record { start = c.buffer.start; size = n }) []
          (omega (arith, small, fits, all)) (omega arith) in
      let at : At c.socket n (range c.buffer.start n)
          (loops (record { state = s; calls_count = 0 })) =
        (transfer, of_span) in
      let same_next : writing (loops (record { state = s; calls_count = 0 })) ≡ next =
        cc (rw made' at made) in
      subst (λ phase. Pending phase memory received answered) same_next
        (
          n,
          range c.buffer.start n,
          at,
          left ∙ ap (λ k. answered ++ map memory (range c.buffer.start k)) all,
        )
  after_read-Pending t (set_error ec) next memory received answered reports made (fits, left) =
      let same_next : closed (set_error ec) ≡ next = cc made in
      subst (λ phase. Pending phase memory received answered) same_next (_, left)
  after_read-Pending t set_done next memory received answered reports made (fits, left) =
      let same_next : closed set_done ≡ next = cc made in
      subst (λ phase. Pending phase memory received answered) same_next (_, left)

  at_phase :
      (r : Run) (phase : Phase)
      → r.phase ≡ phase
      → PendingOf r
      → Pending phase r.memory r.received r.answered
  at_phase r phase same h = subst (λ p. Pending p r.memory r.received r.answered) same h

  Step-Pending : (r s : Run) → PendingOf r → Step c r s → PendingOf s
  unfolding sending write_call as_ref many_buffers do_write remaining write_some_operation
      async_write_some_buffers
  Step-Pending r s h (receives t bytes places at made count fits) =
      let same = reading_to-range c small t places made in
      let start = c.buffer.start in
      let size = c.buffer.size in
      let room : length bytes ≤ size =
        omega (arith, fits, ap length same, length-range start size) in
      let first : take (length bytes) places ≡ range start (length bytes) =
        ap (take (length bytes)) same ∙ take-range start (length bytes) size room in
      let stored : map (store (take (length bytes) places) bytes r.memory)
            (range start (length bytes))
          ≡ bytes =
        rw first (
          map-store (range start (length bytes)) bytes r.memory
            (range-distinct start (length bytes)) (length-range start (length bytes))) in
      (
        omega (arith, count, room),
        ap (λ xs. xs ++ bytes) (at_phase r reading at h)
            ∙ ap (◌++◌ r.answered) (
                sym stored
                ∙ ap (λ k. map (store (take (length bytes) places) bytes r.memory) (range start k))
                    count),
      )
  Step-Pending r s h (read t o g next at made ends goes_on) =
      let is_for = read_operation-IsFor c small t o made in
      after_read-Pending t g next r.memory r.received r.answered
        (end_read-Reports o.0 o.1 t g (ltb 0 c.buffer.size) (room_of c small o.1 is_for.total) ends)
        goes_on (at_phase r (read_due t) at h)
  Step-Pending r s h (sends l t at fits) =
      let (total, todo, (transfer, same), left) = at_phase r (writing (loops l)) at h in
      let k = moved c.socket l t in
      (
        total,
        drop k (cells l.state.rest),
        (transfer, omega (arith, fits, cells-length l.state.rest), refl),
        left
            ∙ ap (λ ps. r.answered ++ map r.memory ps) (sym same)
            ∙ cut_map r.memory k r.answered (cells l.state.rest),
      )
  Step-Pending r s h (sent l t side at ends) =
      let (total, todo, before, left) = at_phase r (writing (called l t)) at h in
      after_write-Pending side total todo r.memory r.received r.answered
        (At-end write_signal write_signal-Signals c.socket total todo l t side before ends) left

  Reach-Pending : (r s : Run) → PendingOf r → Reach c r s → PendingOf s
  Reach-Pending r s h here = h
  Reach-Pending r s h (further {s = m} steps step) =
      Step-Pending m s (Reach-Pending r m h steps) step

  Pending-Answered :
      (phase : Phase) (memory : Ptr → ℕ) (received answered : List ℕ)
      → Pending phase memory received answered
      → Answered phase received answered
  Pending-Answered reading memory received answered h = h
  Pending-Answered (read_due t) memory received answered (_, left) = (_, left)
  Pending-Answered (writing side) memory received answered (total, todo, at, left) =
      (map memory todo, left)
  Pending-Answered (closed g) memory received answered h = h

  -- Whatever the client sends and however the calls move it, fail or are stopped, for a buffer of less
  -- than 4 GiB: what the server has answered is a first part of what it has received, in order, and all
  -- of it whenever it is between two turns.
  pub Reach-Answered :
      (r s : Run)
      → r.phase ≡ reading
      → r.received ≡ r.answered
      → Reach c r s
      → Answered s.phase s.received s.answered
  Reach-Answered r s at none_left steps =
      let h : PendingOf r =
        subst (λ phase. Pending phase r.memory r.received r.answered) (sym at) none_left in
      Pending-Answered s.phase s.memory s.received s.answered (Reach-Pending r s h steps)
