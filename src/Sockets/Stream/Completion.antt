-- ===== src/Sockets/Stream/Completion.antt =====
-- That both sides of a connection can complete.
use win_io.Base.{
  ℕ, ◌≤◌, ◌≡◌, refl, ap, ◌∙◌, subst, arith, Bool, true, false, List, [], ◌++◌, map, length,
  length-append, length-map,
}
use win_io.Os.{Ptr}
use win_io.Sockets.Transfer.{set_value, set_error, set_done}
use win_io.Sockets.Transfer.Consume.{cells, cells-length}
use win_io.Sockets.Handles.{AsyncSocket}
use win_io.Sockets.Buffers.{as_ref, many_buffers}
use win_io.Sockets.Senders.{
  do_write, do_read, remaining, write_some_operation, read_some_operation, async_write_some_buffers,
  async_read_some_buffers,
}
use win_io.Sockets.Stream.{
  sending, filling, write_call, read_call, write_signal, read_signal, Side, loops, called, ended,
  moved, Connection, sends, sent, receives, received, Reach, here, further,
}
use win_io.Sockets.Stream.Memory.{all_distinct}
use win_io.Sockets.Stream.Turns.{At}
use win_io.Sockets.Stream.Invariant.{Holds, Reach-Holds}
use win_io.Sockets.Stream.Delivery.{Starts, Starts-Holds, Holds-whole}
use win_io.Sockets.Stream.Whole.{
  whole, write_signal-whole, read_signal-whole, moved-whole, turn-whole,
}

-- A side that no failure has ended and of which no callback is due.
abbrev pub going : Side → Bool
going (loops l) = true
going (called l t) = false
going (ended (set_value n)) = true
going (ended (set_error ec)) = false
going (ended set_done) = false

module _ (writing reading : AsyncSocket) (source : Ptr → ℕ) (data_cells targets : List Ptr)
    (total_written total_read : ℕ) where
  abbrev Reaches : Connection → Connection → Type 0
  Reaches = Reach writing reading source

  abbrev HoldsHere : Connection → Type 0
  HoldsHere = Holds writing reading source data_cells targets total_written total_read

  writer_completes :
      (c : Connection) (side : Side)
      → c.writer ≡ side
      → going side ≡ true
      → HoldsHere c
      → (d : Connection) × Reaches c d
        × (d.writer ≡ ended (set_value total_written))
        × (d.reader ≡ c.reader)
  unfolding sending write_call do_write remaining write_some_operation async_write_some_buffers
      as_ref many_buffers
  writer_completes c (loops l) at can h =
      let (transfer, _) : At writing total_written h.unsent (loops l) =
        subst (At writing total_written h.unsent) at h.writer_at in
      let fits : moved writing l (whole l.state) ≤ length (cells l.state.rest) =
        omega (arith, moved-whole writing l, cells-length l.state.rest) in
      let ends =
        turn-whole writing l write_signal total_written transfer
          (write_signal-whole writing l.state) in
      (
        _,
        further (further here (sends l (whole l.state) at fits))
            (sent l (whole l.state) (ended (set_value total_written)) refl ends),
        refl,
        refl,
      )
  writer_completes c (called l t) at can h = absurd (ground (arith, can))
  writer_completes c (ended (set_value n)) at can h =
      let (_, all) : At writing total_written h.unsent (ended (set_value n)) =
        subst (At writing total_written h.unsent) at h.writer_at in
      (c, here, at ∙ ap (λ k. ended (set_value k)) all, refl)
  writer_completes c (ended (set_error ec)) at can h = absurd (ground (arith, can))
  writer_completes c (ended set_done) at can h = absurd (ground (arith, can))

  -- Behind the writer, the bytes on the way are as many as the reader has places for.
  all_there :
      (c : Connection) (h : HoldsHere c)
      → h.unsent ≡ []
      → length data_cells ≡ length targets
      → length c.stream ≡ length h.unfilled
  all_there c h none_left same = omega (
    arith,
    same,
    ap length h.in_order,
    length-map source data_cells,
    length-append h.got (c.stream ++ map source h.unsent),
    length-append c.stream (map source h.unsent),
    ap (λ ps. length (map source ps)) none_left,
    ap length h.places,
    length-append h.filled h.unfilled,
    ap length h.kept,
    length-map c.memory h.filled,
  )

  reader_completes :
      (c : Connection) (side : Side)
      → c.reader ≡ side
      → going side ≡ true
      → c.writer ≡ ended (set_value total_written)
      → length data_cells ≡ length targets
      → HoldsHere c
      → (d : Connection) × Reaches c d
        × (d.writer ≡ ended (set_value total_written))
        × (d.reader ≡ ended (set_value total_read))
  unfolding filling read_call do_read remaining read_some_operation async_read_some_buffers as_ref
      many_buffers
  reader_completes c (loops l) at can written same h =
      let (transfer, left) : At reading total_read h.unfilled (loops l) =
        subst (At reading total_read h.unfilled) at h.reader_at in
      let (none_left, _) : At writing total_written h.unsent (ended (set_value total_written)) =
        subst (At writing total_written h.unsent) written h.writer_at in
      let fits : moved reading l (whole l.state) ≤ length (cells l.state.rest) =
        omega (arith, moved-whole reading l, cells-length l.state.rest) in
      let there : moved reading l (whole l.state) ≤ length c.stream = omega (
        arith,
        moved-whole reading l,
        cells-length l.state.rest,
        ap length left,
        all_there c h none_left same,
      ) in
      let ends =
        turn-whole reading l read_signal total_read transfer (read_signal-whole reading l.state) in
      (
        _,
        further (further here (receives l (whole l.state) at fits there))
            (received l (whole l.state) (ended (set_value total_read)) refl ends),
        written,
        refl,
      )
  reader_completes c (called l t) at can written same h = absurd (ground (arith, can))
  reader_completes c (ended (set_value n)) at can written same h =
      let (_, all) : At reading total_read h.unfilled (ended (set_value n)) =
        subst (At reading total_read h.unfilled) at h.reader_at in
      (c, here, written, at ∙ ap (λ k. ended (set_value k)) all)
  reader_completes c (ended (set_error ec)) at can written same h = absurd (ground (arith, can))
  reader_completes c (ended set_done) at can written same h = absurd (ground (arith, can))

  joined : (c d e : Connection) → Reaches c d → Reaches d e → Reaches c e
  joined c d e r here = r
  joined c d e r (further {d = d'} r' s) = further (joined c d d' r r') s

  -- From a start with nothing on the way, with as many places as there are bytes of data, in every state
  -- that the two sides reach: if no callback is due and no side has failed, there are steps after which
  -- both sides have completed with their sizes and the reader's buffers hold the data.
  pub Reach-Completes :
      (c d : Connection)
      → all_distinct targets ≡ true
      → length data_cells ≡ length targets
      → Starts writing reading source data_cells targets total_written total_read c
      → Reaches c d
      → going d.writer ≡ true
      → going d.reader ≡ true
      → (e : Connection) × Reaches d e
        × (e.writer ≡ ended (set_value total_written))
        × (e.reader ≡ ended (set_value total_read))
        × (map e.memory targets ≡ map source data_cells)
  Reach-Completes c d distinct same starts r writer_can reader_can =
      let kept : (a b : Connection) → HoldsHere a → Reaches a b → HoldsHere b =
        Reach-Holds writing reading source data_cells targets total_written total_read distinct in
      let h : HoldsHere d =
        kept c d
          (Starts-Holds writing reading source data_cells targets total_written total_read c starts)
          r in
      let (d', r1, written, reader_same) = writer_completes d d.writer refl writer_can h in
      let h' : HoldsHere d' = kept d d' h r1 in
      let (e, r2, written', read) =
        reader_completes d' d.reader reader_same reader_can written same h' in
      let (_, whole_data) =
        Holds-whole writing reading source data_cells targets total_written total_read e total_read
          read same (kept d' e h' r2) in
      (e, joined d d' e r1 r2, written', read, whole_data)
