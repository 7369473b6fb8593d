-- ===== src/Sockets/Stream/Turns.antt =====
-- What a turn of the loop in async_read_write_impl leaves, whatever its calls return.
use win_io.Base.{
  ℕ, ◌+◌, ◌%◌, ◌^◌, ◌≤◌, ◌≡◌, refl, subst, arith, true, leb, List, [], length, drop, ◌==◌,
  if◌then◌else◌, Bool-cases, inl, inr,
}
use win_io.Base.Outcome.{Outcome, done}
use win_io.Os.{Ptr}
use win_io.Sockets.Transfer.{State, Signal, async_read_write, set_value, set_error, set_done}
use win_io.Sockets.Transfer.Consume.{cells, sum_len, IsTransfer, cells-length, drop_all}
use win_io.Sockets.Transfer.Loop.{one_call}
use win_io.Sockets.Handles.{AsyncSocket}
use win_io.Sockets.Stream.{
  Looping, Turn, schedule_turn, Side, loops, called, ended, continue_with, turn, result,
  is_scheduled, moved,
}
use win_io.Sockets.Stream.Signals.{posted, schedule_turn-posted, Reports, Signals}

-- A side with a transfer of `total` bytes of which those at `todo` are not moved yet.
abbrev pub At : AsyncSocket → (total : ℕ) → (todo : List Ptr) → Side → Type 0
At socket total todo (loops l) = IsTransfer l.state total × (cells l.state.rest ≡ todo)
At socket total todo (called l t) =
    IsTransfer l.state total
    × (moved socket l t ≤ sum_len l.state.rest)
    × (drop (moved socket l t) (cells l.state.rest) ≡ todo)
At socket total todo (ended (set_value n)) = (todo ≡ []) × (n ≡ total)
At socket total todo (ended (set_error ec)) = Unit {0}
At socket total todo (ended set_done) = Unit {0}

continue_with-At :
    (socket : AsyncSocket) (count total n : ℕ) (s : State)
    → IsTransfer s total
    → n ≤ sum_len s.rest
    → (side : Side) × (continue_with count s (set_value n) ≡ done side)
      × At socket total (drop n (cells s.rest)) side
unfolding continue_with
continue_with-At socket count total n s transfer fits =
    let (s', called_once, same, counted, transfer') = one_call s n total [] transfer fits in
    elim (Bool-cases (leb total (s.processed_bytes + n))) [
      | inl all ↦
          let whole : length (cells s.rest) ≤ n =
            ground (arith, transfer.accounted, all, cells-length s.rest) in
          (
            ended (set_value (s.processed_bytes + n)),
            rw (called_once, all) refl,
            (drop_all n (cells s.rest) whole, ground (arith, transfer.accounted, all)),
          )
      | inr part ↦ (
        loops (record { state = s'; calls_count = count }),
        rw (called_once, part, async_read_write) refl,
        (transfer', same),
      )
    ]

module _ (signal : AsyncSocket → State → Turn → Outcome (Signal ℕ)) (signals : Signals signal)
    (socket : AsyncSocket) (l : Looping) (t : Turn) (total : ℕ)
    (transfer : IsTransfer l.state total) (fits : moved socket l t ≤ sum_len l.state.rest) where
  continued-At :
      (count : ℕ) (g : Signal ℕ)
      → is_scheduled socket l t ≡ true
      → Reports (result t) g
      → (side : Side) × (continue_with count l.state g ≡ done side)
        × At socket total (drop (moved socket l t) (cells l.state.rest)) side
  unfolding continue_with async_read_write
  continued-At count (set_value n) gone (ok, same) =
      let all : moved socket l t ≡ n = ground (arith, gone, ok, same) in
      rw all (
        continue_with-At socket count total n l.state transfer
          (subst (λ k. k ≤ sum_len l.state.rest) all fits))
  continued-At count (set_error ec) gone reports = (ended (set_error ec), refl, tt)
  continued-At count set_done gone reports = (ended set_done, refl, tt)

  scheduled-At :
      (count : ℕ) (scheduled : Signal (Unit {0}))
      → schedule_turn socket l t ≡ done (count, scheduled)
      → (side : Side) × (turn signal socket l t ≡ done side)
        × At socket total (drop (moved socket l t) (cells l.state.rest)) side
  unfolding turn is_scheduled
  scheduled-At count (set_value _) now =
      let (g, signalled, reports) = signals socket l.state t in
      let (side, went_on, at) = continued-At count g (rw (is_scheduled, now) refl) reports in
      (side, rw (now, signalled) went_on, at)
  scheduled-At count (set_error ec) now = (ended (set_error ec), rw now refl, tt)
  scheduled-At count set_done now = (ended set_done, rw now refl, tt)

  -- A turn ends the transfer or goes on with what its call has not moved. No assertion fails.
  pub turn-At :
      (side : Side) × (turn signal socket l t ≡ done side)
      × At socket total (drop (moved socket l t) (cells l.state.rest)) side
  turn-At =
      let count = (l.calls_count + 1) % 2 ^ 32 in
      scheduled-At count (if count % 128 == 0 then posted t else set_value tt)
        (schedule_turn-posted socket l t)
