-- ===== src/Sockets/Stream/Invariant.antt =====
-- What holds of a connection in every state that its two sides can reach.
use win_io.Base.{
  ℕ, ◌≡◌, refl, sym, ap, ◌∙◌, subst, arith, true, false, List, ◌++◌, map, map-append, take, drop,
  length-take, take-append-drop, append_assoc,
}
use win_io.Base.Outcome.{Outcome, done}
use win_io.Os.{Ptr}
use win_io.Queue.Chain.{has, has-append_eq-false}
use win_io.Sockets.Transfer.{State, Signal}
use win_io.Sockets.Transfer.Consume.{cells, cells-length}
use win_io.Sockets.Handles.{AsyncSocket}
use win_io.Sockets.Buffers.{as_ref, many_buffers}
use win_io.Sockets.Senders.{
  do_write, do_read, remaining, write_some_operation, read_some_operation, async_write_some_buffers,
  async_read_some_buffers,
}
use win_io.Sockets.Stream.{
  sending, filling, write_call, read_call, Looping, Turn, write_signal, read_signal, Side, loops,
  called, turn, moved, Connection, Step, sends, sent, receives, received, Reach, here, further,
}
use win_io.Sockets.Stream.Memory.{
  all_distinct, all_distinct-append, store_elsewhere, map-store_behind,
}
use win_io.Sockets.Stream.Signals.{Signals, write_signal-Signals, read_signal-Signals}
use win_io.Sockets.Stream.Turns.{At, turn-At}

pub At-end :
    (signal : AsyncSocket → State → Turn → Outcome (Signal ℕ)) (signals : Signals signal)
    (socket : AsyncSocket) (total : ℕ) (todo : List Ptr) (l : Looping) (t : Turn) (side : Side)
    → At socket total todo (called l t)
    → turn signal socket l t ≡ done side
    → At socket total todo side
At-end signal signals socket total todo l t side (transfer, fits, same) ends =
    let (side', ends', at) = turn-At signal signals socket l t total transfer fits in
    let same_side : side' ≡ side = cc (ends, ends') in
    subst (At socket total todo) same_side (rw (sym same) at)

-- The first `n` of a list in the middle go over to the list before it.
cut_middle :
    {A : Type 0} (n : ℕ) (xs ys zs : List A)
    → xs ++ (ys ++ zs) ≡ (xs ++ take n ys) ++ (drop n ys ++ zs)
cut_middle n xs ys zs =
    ap (λ m. xs ++ (m ++ zs)) (sym (take-append-drop n ys))
    ∙ ap (◌++◌ xs) (append_assoc (take n ys) (drop n ys) zs)
    ∙ sym (append_assoc xs (take n ys) (drop n ys ++ zs))

cut_last : {A : Type 0} (n : ℕ) (xs ys : List A) → xs ++ ys ≡ (xs ++ take n ys) ++ drop n ys
cut_last n xs ys =
    ap (◌++◌ xs) (sym (take-append-drop n ys)) ∙ sym (append_assoc xs (take n ys) (drop n ys))

pub cut_map :
    (f : Ptr → ℕ) (n : ℕ) (xs : List ℕ) (ys : List Ptr)
    → xs ++ map f ys ≡ (xs ++ map f (take n ys)) ++ map f (drop n ys)
cut_map f n xs ys =
    ap (λ zs. xs ++ map f zs) (sym (take-append-drop n ys))
    ∙ ap (◌++◌ xs) (map-append f (take n ys) (drop n ys))
    ∙ sym (append_assoc xs (map f (take n ys)) (map f (drop n ys)))

module _ (writing reading : AsyncSocket) (source : Ptr → ℕ) (data_cells targets : List Ptr)
    (total_written total_read : ℕ) where
  -- What holds in between: the bytes that are read, then those on the way, then those not sent yet, are
  -- the data.
  pub record Holds (c : Connection) : Type 0 where
    pub got : List ℕ
    pub unsent : List Ptr
    pub filled : List Ptr
    pub unfilled : List Ptr
    pub in_order : map source data_cells ≡ got ++ (c.stream ++ map source unsent)
    pub places : targets ≡ filled ++ unfilled
    pub kept : map c.memory filled ≡ got
    pub writer_at : At writing total_written unsent c.writer
    pub reader_at : At reading total_read unfilled c.reader

  -- The places that a call of the reader fills.
  split_places :
      (c : Connection) (h : Holds c) (l : Looping) (t : Turn)
      → c.reader ≡ loops l
      → let n = moved reading l t in
        targets ≡ (h.filled ++ take n (cells l.state.rest)) ++ drop n (cells l.state.rest)
  split_places c h l t at =
      let (_, same) : At reading total_read h.unfilled (loops l) =
        subst (At reading total_read h.unfilled) at h.reader_at in
      h.places
      ∙ ap (◌++◌ h.filled) (sym same)
      ∙ cut_last (moved reading l t) h.filled (cells l.state.rest)

  -- The memory at an address that is not of the reader's buffers stays as it is.
  Step-elsewhere :
      (c d : Connection) (p : Ptr)
      → Holds c
      → has p targets ≡ false
      → Step writing reading source c d
      → d.memory p ≡ c.memory p
  unfolding sending filling write_call read_call as_ref many_buffers do_write do_read remaining
      write_some_operation read_some_operation async_write_some_buffers async_read_some_buffers
  Step-elsewhere c d p h out (sends l t at fits) = refl
  Step-elsewhere c d p h out (sent l t side at ends) = refl
  Step-elsewhere c d p h out (receives l t at fits some) =
      let n = moved reading l t in
      let places = take n (cells l.state.rest) in
      let (out_first, _) =
        has-append_eq-false p (h.filled ++ places) (drop n (cells l.state.rest))
          (subst (λ ps. has p ps ≡ false) (split_places c h l t at) out) in
      let (_, out_places) = has-append_eq-false p h.filled places out_first in
      store_elsewhere p places (take n c.stream) c.memory out_places
  Step-elsewhere c d p h out (received l t side at ends) = refl

  module _ (distinct : all_distinct targets ≡ true) where
    Step-Holds : (c d : Connection) → Holds c → Step writing reading source c d → Holds d
    unfolding sending filling write_call read_call as_ref many_buffers do_write do_read remaining
        write_some_operation read_some_operation async_write_some_buffers async_read_some_buffers
    Step-Holds c d h (sends l t at fits) =
        let (transfer, same) : At writing total_written h.unsent (loops l) =
          subst (At writing total_written h.unsent) at h.writer_at in
        let n = moved writing l t in
        record {
          got = h.got;
          unsent = drop n (cells l.state.rest);
          filled = h.filled;
          unfilled = h.unfilled;
          in_order =
              h.in_order
              ∙ ap (λ xs. h.got ++ (c.stream ++ map source xs)) (sym same)
              ∙ ap (◌++◌ h.got) (cut_map source n c.stream (cells l.state.rest));
          places = h.places;
          kept = h.kept;
          writer_at = (transfer, omega (arith, fits, cells-length l.state.rest), refl);
          reader_at = h.reader_at;
        }
    Step-Holds c d h (sent l t side at ends) = record {
      got = h.got;
      unsent = h.unsent;
      filled = h.filled;
      unfilled = h.unfilled;
      in_order = h.in_order;
      places = h.places;
      kept = h.kept;
      reader_at = h.reader_at;
      writer_at =
          At-end write_signal write_signal-Signals writing total_written h.unsent l t side
            (subst (At writing total_written h.unsent) at h.writer_at) ends;
    }
    Step-Holds c d h (receives l t at fits some) =
        let (transfer, same) : At reading total_read h.unfilled (loops l) =
          subst (At reading total_read h.unfilled) at h.reader_at in
        let n = moved reading l t in
        let split = split_places c h l t at in
        record {
          got = h.got ++ take n c.stream;
          unsent = h.unsent;
          filled = h.filled ++ take n (cells l.state.rest);
          unfilled = drop n (cells l.state.rest);
          in_order = h.in_order ∙ cut_middle n h.got c.stream (map source h.unsent);
          places = split;
          kept =
              map-store_behind h.filled (take n (cells l.state.rest)) (take n c.stream) c.memory
                (all_distinct-append (h.filled ++ take n (cells l.state.rest))
                  (drop n (cells l.state.rest))
                  (subst (λ ps. all_distinct ps ≡ true) split distinct))
                (length-take n (cells l.state.rest) fits ∙ sym (length-take n c.stream some))
              ∙ ap (λ xs. xs ++ take n c.stream) h.kept;
          writer_at = h.writer_at;
          reader_at = (transfer, omega (arith, fits, cells-length l.state.rest), refl);
        }
    Step-Holds c d h (received l t side at ends) = record {
      got = h.got;
      unsent = h.unsent;
      filled = h.filled;
      unfilled = h.unfilled;
      in_order = h.in_order;
      places = h.places;
      kept = h.kept;
      writer_at = h.writer_at;
      reader_at =
          At-end read_signal read_signal-Signals reading total_read h.unfilled l t side
            (subst (At reading total_read h.unfilled) at h.reader_at) ends;
    }

    -- Whatever the two sides do, from a start with nothing on the way.
    pub Reach-Holds : (c d : Connection) → Holds c → Reach writing reading source c d → Holds d
    Reach-Holds c d h here = h
    Reach-Holds c d h (further {d = e} r s) = Step-Holds e d (Reach-Holds c e h r) s

    pub Reach-elsewhere :
        (c d : Connection) (p : Ptr)
        → Holds c
        → has p targets ≡ false
        → Reach writing reading source c d
        → d.memory p ≡ c.memory p
    Reach-elsewhere c d p h out here = refl
    Reach-elsewhere c d p h out (further {d = e} r s) =
        Step-elsewhere e d p (Reach-Holds c e h r) out s ∙ Reach-elsewhere c e p h out r
