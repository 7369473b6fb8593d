-- ===== src/Sockets/Stream/Whole.antt =====
-- A turn that moves all bytes that are left.
use win_io.Base.{
  ℕ, ◌+◌, ◌%◌, ◌^◌, ◌≡◌, refl, ap, ◌∙◌, arith, true, false, leb, ◌==◌, if◌then◌else◌, List, [], ◌∷◌,
}
use win_io.Base.Outcome.{Outcome, done}
use win_io.Os.{null}
use win_io.Sockets.Buffers.{BufferRef, any_len}
use win_io.Sockets.Transfer.{State, Signal, set_value}
use win_io.Sockets.Transfer.Consume.{sum_len, IsTransfer}
use win_io.Sockets.Transfer.Loop.{one_call}
use win_io.Sockets.Operation.{never_possible}
use win_io.Sockets.Handles.{AsyncSocket}
use win_io.Sockets.Stream.{
  Looping, Turn, schedule_turn, write_signal, read_signal, ended, continue_with, turn, moved,
  is_scheduled,
}
use win_io.Sockets.Stream.Signals.{
  write_signal-verdict, read_signal-verdict, schedule_turn-posted, posted,
}

-- A turn whose call moves all that is left.
abbrev pub whole : State → Turn
whole s = record {
  stop = never_possible;
  schedule_ov = null;
  call_ov = null;
  post_error = 0;
  delivery_error = 0;
  call = record { error = 0; bytes = sum_len s.rest };
  delivered = record { error = 0; bytes = 0 };
}

any_len-sum_len : (bs : List BufferRef) → sum_len bs ≡ 0 → any_len bs ≡ false
any_len-sum_len [] none = refl
any_len-sum_len (b ∷ bs) none = ground (arith, none, any_len-sum_len bs)

pub write_signal-whole :
    (socket : AsyncSocket) (s : State)
    → write_signal socket s (whole s) ≡ done (set_value (sum_len s.rest))
write_signal-whole socket s = write_signal-verdict socket s (whole s)

pub read_signal-whole :
    (socket : AsyncSocket) (s : State)
    → read_signal socket s (whole s) ≡ done (set_value (sum_len s.rest))
read_signal-whole socket s =
    read_signal-verdict socket s (whole s) ∙ ground (arith, any_len-sum_len s.rest)

module _ (socket : AsyncSocket) (l : Looping) where
  scheduled-whole :
      (count : ℕ) × (schedule_turn socket l (whole l.state) ≡ done (count, set_value tt))
  scheduled-whole =
      let count = (l.calls_count + 1) % 2 ^ 32 in
      let either : (if count % 128 == 0 then posted (whole l.state) else set_value tt)
          ≡ set_value tt =
        ground arith in
      (count, schedule_turn-posted socket l (whole l.state) ∙ ap (λ g. done (count, g)) either)

  pub moved-whole : moved socket l (whole l.state) ≡ sum_len l.state.rest
  unfolding is_scheduled
  moved-whole =
      let (count, now) = scheduled-whole in
      let gone : is_scheduled socket l (whole l.state) ≡ true = rw (is_scheduled, now) refl in
      rw gone refl

  pub turn-whole :
      (signal : AsyncSocket → State → Turn → Outcome (Signal ℕ)) (total : ℕ)
      → IsTransfer l.state total
      → signal socket l.state (whole l.state) ≡ done (set_value (sum_len l.state.rest))
      → turn signal socket l (whole l.state) ≡ done (ended (set_value total))
  unfolding turn continue_with
  turn-whole signal total transfer signalled =
      let (count, now) = scheduled-whole in
      let n = sum_len l.state.rest in
      let (s', called_once, _, _, _) = one_call l.state n total [] transfer (omega arith) in
      let finished : leb total (l.state.processed_bytes + n) ≡ true =
        ground (arith, transfer.accounted) in
      let all : l.state.processed_bytes + n ≡ total = omega (arith, transfer.accounted) in
      rw (now, signalled, called_once, finished, all) refl
