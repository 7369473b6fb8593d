-- ===== src/Sockets/Stream/Signals.antt =====
-- How the scheduling and the call of a turn end, whatever the system returns.
use win_io.Base.{
  ℕ, ◌+◌, ◌%◌, ◌^◌, ◌≡◌, refl, arith, Bool, true, false, ◌&&◌, ◌==◌, if◌then◌else◌, Bool-cases, inl,
  inr,
}
use win_io.Base.Outcome.{Outcome, done}
use win_io.Sockets.Buffers.{OneBufferOwnerOrManyRef, has_data, any_len, many_buffers}
use win_io.Sockets.Transfer.{State, Signal, set_value, set_error, set_done}
use win_io.Sockets.Operation.{StopToken, Operation, Transferred, token, never_possible}
use win_io.Sockets.Operation.Completion.{verdict, read_value, read_some_start-verdict}
use win_io.Sockets.Handles.{AsyncSocket}
use win_io.Sockets.Select.{select_start, on_selected}
use win_io.Sockets.Schedulers.{
  IocpScheduler, schedule_once_in_n, select_operation, transfer_scheduler,
}
use win_io.Sockets.Senders.{do_read, async_read_some_buffers, remaining, read_some_operation}
use win_io.Sockets.Stream.{
  end_read, read_call, Looping, Turn, schedule_signal, schedule_turn, write_signal, read_signal,
  result,
}

-- What the port reports of a posted entry, of the post or of its delivery.
abbrev pub posted : Turn → Signal (Unit {0})
posted t =
    if t.post_error == 0
    then (if t.delivery_error == 0 then set_value tt else set_error t.delivery_error)
    else set_error t.post_error

schedule_signal-posted : (s : IocpScheduler) (t : Turn) → schedule_signal s t ≡ done (posted t)
unfolding schedule_signal
schedule_signal-posted s t = ground arith

-- Each 128th turn is scheduled by the port, and its signal is what the port reports; the others go on
-- at once. The count of turns wraps at 2^32. No assertion fails.
pub schedule_turn-posted :
    (socket : AsyncSocket) (l : Looping) (t : Turn)
    → let count = (l.calls_count + 1) % 2 ^ 32 in
      schedule_turn socket l t ≡ done (count, if count % 128 == 0 then posted t else set_value tt)
unfolding schedule_turn select_start on_selected transfer_scheduler schedule_once_in_n
    select_operation
schedule_turn-posted socket l t = elim (Bool-cases ((l.calls_count + 1) % 2 ^ 32 % 128 == 0)) [
  | inl own ↦ rw (own, schedule_signal-posted) refl
  | inr other ↦ rw other refl
]

pub write_signal-verdict :
    (socket : AsyncSocket) (s : State) (t : Turn)
    → write_signal socket s t ≡ done (verdict t.stop (result t).error (set_value (result t).bytes))
unfolding write_signal
write_signal-verdict socket s t = ground arith

pub end_read-verdict :
    (o : Operation) (buffers : OneBufferOwnerOrManyRef) (has_room : Bool) (t : Turn)
    → has_data buffers ≡ done has_room
    → end_read o buffers t
      ≡ done (verdict o.stop (result t).error (read_value has_room (result t).bytes))
unfolding end_read
end_read-verdict o buffers has_room t known =
    let (at_once, by_entry) =
      read_some_start-verdict o buffers (λ _ _ _. t.call) has_room t.delivered.error
        t.delivered.bytes known in
    elim (Bool-cases (t.call.error == 997)) [
      | inl waits ↦ rw (at_once, waits) by_entry
      | inr over ↦ rw (at_once, over) refl
    ]

pub read_signal-verdict :
    (socket : AsyncSocket) (s : State) (t : Turn)
    → read_signal socket s t
      ≡ done (verdict t.stop (result t).error (read_value (any_len s.rest) (result t).bytes))
unfolding read_signal many_buffers has_data do_read async_read_some_buffers remaining
    read_some_operation read_call
read_signal-verdict socket s t =
    end_read-verdict (record { socket = socket.socket; ov = t.call_ov; stop = t.stop })
      (many_buffers s.rest) (any_len s.rest) t refl

-- Of a call without an error, a value is the number of its bytes; a call with an error has no value.
abbrev pub Reports : Transferred → Signal ℕ → Type 0
Reports r (set_value n) = (r.error ≡ 0) × (n ≡ r.bytes)
Reports r (set_error ec) = Unit {0}
Reports r set_done = Unit {0}

no_stop-Reports :
    (r : Transferred) (value : Signal ℕ)
    → (r.error ≡ 0 → Reports r value)
    → Reports r (if r.error == 0 then value else set_error r.error)
no_stop-Reports r value ok = elim (Bool-cases (r.error == 0)) [
  | inl none_failed ↦ rw none_failed (ok (ground (arith, none_failed)))
  | inr failed ↦ rw failed tt
]

pub verdict-Reports :
    (stop : StopToken) (r : Transferred) (value : Signal ℕ)
    → (r.error ≡ 0 → Reports r value)
    → Reports r (verdict stop r.error value)
verdict-Reports (token true) r value ok = tt
verdict-Reports (token false) r value ok = no_stop-Reports r value ok
verdict-Reports never_possible r value ok = no_stop-Reports r value ok

pub read_value-Reports :
    (r : Transferred) (has_room : Bool) → r.error ≡ 0 → Reports r (read_value has_room r.bytes)
read_value-Reports r has_room ok = elim (Bool-cases ((r.bytes == 0) && has_room)) [
  | inl closed ↦ rw closed tt
  | inr some_bytes ↦ rw some_bytes (ok, refl)
]

-- The signals of a kind of calls: no assertion fails.
abbrev pub Signals : (AsyncSocket → State → Turn → Outcome (Signal ℕ)) → Type 0
Signals signal =
    (socket : AsyncSocket) (s : State) (t : Turn)
    → (g : Signal ℕ) × (signal socket s t ≡ done g) × Reports (result t) g

pub write_signal-Signals : Signals write_signal
write_signal-Signals socket s t = (
  verdict t.stop (result t).error (set_value (result t).bytes),
  write_signal-verdict socket s t,
  verdict-Reports t.stop (result t) (set_value (result t).bytes) (λ ok. (ok, refl)),
)

pub read_signal-Signals : Signals read_signal
read_signal-Signals socket s t =
    let value = read_value (any_len s.rest) (result t).bytes in
    (
      verdict t.stop (result t).error value,
      read_signal-verdict socket s t,
      verdict-Reports t.stop (result t) value (read_value-Reports (result t) (any_len s.rest)),
    )
