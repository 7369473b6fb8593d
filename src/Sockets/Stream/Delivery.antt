-- ===== src/Sockets/Stream/Delivery.antt =====
-- That the bytes of a connection arrive, each once and in order, whatever the steps of its two sides.
use win_io.Base.{
  ℕ, ◌≤◌, ◌≡◌, refl, sym, ap, ◌∙◌, subst, arith, true, false, List, [], ◌++◌, map, take, length,
  length-map, length-append, take-append_whole, append-nil, take_all,
}
use win_io.Base.Outcome.{Outcome, done}
use win_io.Os.{Ptr}
use win_io.Queue.Chain.{has}
use win_io.Sockets.Transfer.{State, Signal, set_value, set_error, set_done}
use win_io.Sockets.Handles.{AsyncSocket}
use win_io.Sockets.Stream.{
  Turn, Side, loops, called, ended, turn, write_signal, read_signal, Connection, Reach,
}
use win_io.Sockets.Stream.Memory.{all_distinct}
use win_io.Sockets.Stream.Signals.{Signals, write_signal-Signals, read_signal-Signals}
use win_io.Sockets.Stream.Turns.{At, turn-At}
use win_io.Sockets.Stream.Invariant.{Holds, Reach-Holds, Reach-elsewhere}

-- What is to hold if a side has completed with a value.
abbrev pub WhenValue : Side → (ℕ → Type 0) → Type 0
WhenValue (loops l) P = Unit {0}
WhenValue (called l t) P = Unit {0}
WhenValue (ended (set_value n)) P = P n
WhenValue (ended (set_error ec)) P = Unit {0}
WhenValue (ended set_done) P = Unit {0}

when_value :
    (side : Side) (P : ℕ → Type 0) → ((n : ℕ) → side ≡ ended (set_value n) → P n) → WhenValue side P
when_value (loops l) P holds = tt
when_value (called l t) P holds = tt
when_value (ended (set_value n)) P holds = holds n refl
when_value (ended (set_error ec)) P holds = tt
when_value (ended set_done) P holds = tt

-- That the callback of a side returns, if it is due.
abbrev pub Returns : (AsyncSocket → State → Turn → Outcome (Signal ℕ)) → AsyncSocket → Side → Type 0
Returns signal socket (loops l) = Unit {0}
Returns signal socket (called l t) = (side : Side) × (turn signal socket l t ≡ done side)
Returns signal socket (ended g) = Unit {0}

At-Returns :
    (signal : AsyncSocket → State → Turn → Outcome (Signal ℕ)) (signals : Signals signal)
    (socket : AsyncSocket) (total : ℕ) (todo : List Ptr) (side : Side)
    → At socket total todo side
    → Returns signal socket side
At-Returns signal signals socket total todo (loops l) at = tt
At-Returns signal signals socket total todo (called l t) (transfer, fits, _) =
    let (side, ends, _) = turn-At signal signals socket l t total transfer fits in (side, ends)
At-Returns signal signals socket total todo (ended g) at = tt

module _ (writing reading : AsyncSocket) (source : Ptr → ℕ) (data_cells targets : List Ptr)
    (total_written total_read : ℕ) where
  -- A connection at whose start all bytes of the data are to be written, and all places of the reader's
  -- buffers to be filled.
  pub record Starts (c : Connection) : Type 0 where
    pub writer_at : At writing total_written data_cells c.writer
    pub reader_at : At reading total_read targets c.reader
    pub empty : c.stream ≡ []

  -- The first `count` places hold the first bytes of the data, and other memory is as it was in `c`. If
  -- the writer is done, the next bytes are on the way; if the reader is done, all places are filled.
  pub record InOrder (c d : Connection) : Type 0 where
    pub count : ℕ
    pub within : count ≤ length targets
    pub filled : map d.memory (take count targets) ≡ take count (map source data_cells)
    pub elsewhere : (p : Ptr) → has p targets ≡ false → d.memory p ≡ c.memory p
    pub written : WhenValue d.writer λ n.
        (n ≡ total_written)
        × (map d.memory (take count targets) ++ d.stream ≡ map source data_cells)
    pub completed : WhenValue d.reader λ n.
        (n ≡ total_read) × (map d.memory targets ≡ take (length targets) (map source data_cells))
    pub writer_returns : Returns write_signal writing d.writer
    pub reader_returns : Returns read_signal reading d.reader

  abbrev HoldsHere : Connection → Type 0
  HoldsHere = Holds writing reading source data_cells targets total_written total_read

  pub Starts-Holds :
      (c : Connection)
      → Starts c
      → Holds writing reading source data_cells targets total_written total_read c
  Starts-Holds c starts = record {
    got = [];
    unsent = data_cells;
    filled = [];
    unfilled = targets;
    in_order = rw (starts.empty) refl;
    places = refl;
    kept = refl;
    writer_at = starts.writer_at;
    reader_at = starts.reader_at;
  }

  first : (d : Connection) (h : HoldsHere d) → take (length h.filled) targets ≡ h.filled
  first d h = ap (take (length h.filled)) h.places ∙ take-append_whole h.filled h.unfilled

  prefix :
      (d : Connection) (h : HoldsHere d) → take (length h.filled) (map source data_cells) ≡ h.got
  prefix d h =
      let as_many : length h.filled ≡ length h.got =
        sym (length-map d.memory h.filled) ∙ ap length h.kept in
      rw (as_many, h.in_order) (take-append_whole h.got (d.stream ++ map source h.unsent))

  Holds-completed :
      (d : Connection) (n : ℕ)
      → d.reader ≡ ended (set_value n)
      → Holds writing reading source data_cells targets total_written total_read d
      → (n ≡ total_read) × (map d.memory targets ≡ take (length targets) (map source data_cells))
  Holds-completed d n done_so h =
      let (none_left, all) : At reading total_read h.unfilled (ended (set_value n)) =
        subst (At reading total_read h.unfilled) done_so h.reader_at in
      let whole : targets ≡ h.filled =
        h.places ∙ ap (◌++◌ h.filled) none_left ∙ append-nil h.filled in
      (all, rw whole (h.kept ∙ sym (prefix d h)))

  -- When the reader completes and there are as many places as bytes, they hold all of them.
  pub Holds-whole :
      (d : Connection) (n : ℕ)
      → d.reader ≡ ended (set_value n)
      → length data_cells ≡ length targets
      → HoldsHere d
      → (n ≡ total_read) × (map d.memory targets ≡ map source data_cells)
  Holds-whole d n done_so same h =
      let (all, read) = Holds-completed d n done_so h in
      let count : length targets ≡ length (map source data_cells) =
        omega (arith, same, length-map source data_cells) in
      (
        all,
        read ∙ ap (λ k. take k (map source data_cells)) count ∙ take_all (map source data_cells),
      )

  Holds-written :
      (d : Connection) (h : HoldsHere d) (n : ℕ)
      → d.writer ≡ ended (set_value n)
      → (n ≡ total_written)
        × (map d.memory (take (length h.filled) targets) ++ d.stream ≡ map source data_cells)
  Holds-written d h n done_so =
      let (none_left, all) : At writing total_written h.unsent (ended (set_value n)) =
        subst (At writing total_written h.unsent) done_so h.writer_at in
      let sent_all : map source data_cells ≡ h.got ++ d.stream =
        h.in_order
        ∙ ap (λ ps. h.got ++ (d.stream ++ map source ps)) none_left
        ∙ ap (◌++◌ h.got) (append-nil d.stream) in
      (all, rw (first d h) (ap (λ bytes. bytes ++ d.stream) h.kept ∙ sym sent_all))

  -- From a start with nothing on the way, whatever calls of the two sides move, however they fail or are
  -- stopped: the reader's buffers, whose places are distinct, hold first bytes of the data, each once and
  -- in order, and other memory is left alone. When the writer completes with a value, this is the size of
  -- its buffers, and what is not read yet is on the way. When the reader completes with a value, this is
  -- the size of its buffers, and they hold as many first bytes of the data as they have places. No
  -- assertion fails in a callback that is due.
  pub Reach-InOrder :
      (c d : Connection)
      → all_distinct targets ≡ true
      → Starts c
      → Reach writing reading source c d
      → InOrder c d
  Reach-InOrder c d distinct starts r =
      let h0 : HoldsHere c = Starts-Holds c starts in
      let h : HoldsHere d =
        Reach-Holds writing reading source data_cells targets total_written total_read distinct c d
          h0 r in
      record {
        count = length h.filled;
        within = omega (arith, ap length h.places, length-append h.filled h.unfilled);
        filled = rw (first d h) (h.kept ∙ sym (prefix d h));
        elsewhere = λ p out.
            Reach-elsewhere writing reading source data_cells targets total_written total_read
              distinct c d p h0 out r;
        written = when_value d.writer _ (Holds-written d h);
        completed = when_value d.reader _ (λ n done_so. Holds-completed d n done_so h);
        writer_returns =
            At-Returns write_signal write_signal-Signals writing total_written h.unsent d.writer
              h.writer_at;
        reader_returns =
            At-Returns read_signal read_signal-Signals reading total_read h.unfilled d.reader
              h.reader_at;
      }

  -- The case of as many places as bytes.
  pub Reach-whole :
      (c d : Connection) (n : ℕ)
      → all_distinct targets ≡ true
      → length data_cells ≡ length targets
      → Starts c
      → Reach writing reading source c d
      → d.reader ≡ ended (set_value n)
      → (n ≡ total_read) × (map d.memory targets ≡ map source data_cells)
  Reach-whole c d n distinct same starts r done_so = Holds-whole d n done_so same (
      Reach-Holds writing reading source data_cells targets total_written total_read distinct c d
        (Starts-Holds c starts) r)
