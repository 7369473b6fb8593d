-- ===== src/Sockets/Resolve/Runs/Once.antt =====
-- The receiver of a resolution is called once, and with what the system has found.
use win_io.Base.{
  ℕ, ◌+◌, ◌≡◌, ◌≢◌, refl, arith, true, not, ◌==◌, if◌then◌else◌, Option, none, some, List, [], ◌∷◌,
  length, inl, inr, Bool-cases,
}
use win_io.Os.{Ptr, is_null, ErrorCode, no_error, is_error, error_io_pending, dword}
use win_io.Port.{PortEntry, PortApi, IoCompletionPort, post}
use win_io.Sockets.Transfer.{Signal, set_value, set_error, set_done}
use win_io.Sockets.Operation.{StopToken, never_possible, token, try_finalize}
use win_io.Sockets.Resolve.{
  Resolve, on_addrinfo_finish, end_entry, on_complete_windows, try_stop, on_called, arm_stop,
}
use win_io.Sockets.Resolve.Runs.{
  Phase, calling, arming, started, Running, after_call, after_entry, called_back, Step, call, arm,
  callback, entry, stop, Reach, start, later,
}

abbrev pub in_call : Phase → ℕ
in_call calling = 1
in_call arming = 0
in_call started = 0

abbrev pub waits : Option PortEntry → ℕ
waits none = 0
waits (some e) = 1

-- What the receiver is told is what the system has written, if it is a value.
abbrev pub Honest : Resolve → List (Signal Ptr) → Type 0
Honest op [] = Unit {0}
Honest op (set_value p ∷ signals) = p ≡ op.results
Honest op (set_error e ∷ signals) = e ≢ no_error
Honest op (set_done ∷ signals) = op.stop ≡ token true

abbrev pub tally : Running → ℕ
tally r = in_call r.phase + (if r.accepted then 1 else 0) + waits r.posted + length r.signals

-- A signal is added in a state that waits for one.
record Inv (r : Running) : Type 0 where
  pub once : tally r ≡ 1
  pub honest : Honest r.op r.signals

stop-requested : (t : StopToken) → try_finalize t ≡ true → t ≡ token true
unfolding try_finalize
stop-requested never_possible asked = absurd (ground (arith, asked))
stop-requested (token requested) asked = rw asked refl

on_addrinfo_finish-Honest :
    (op : Resolve) (e : PortEntry) (ec : ErrorCode)
    → let (s, op') = on_addrinfo_finish op e ec in Honest op' (s ∷ [])
unfolding on_addrinfo_finish
on_addrinfo_finish-Honest op e ec = elim (Bool-cases (try_finalize op.stop)) [
  | inl stops ↦ rw stops (stop-requested op.stop stops)
  | inr goes_on ↦ elim (Bool-cases (not (ec == 0))) [
    | inl failed ↦ rw (goes_on, failed) (ground (arith, failed))
    | inr fine ↦ elim (Bool-cases (not (dword e.completion_key == 0))) [
      | inl failed ↦ rw (goes_on, fine, failed) (ground (arith, failed))
      | inr found ↦ rw (goes_on, fine, found) refl
    ]
  ]
]

-- The list of signals is empty as long as one is to come.
none_yet : (signals : List (Signal Ptr)) (n : ℕ) → (n + 1) + length signals ≡ 1 → signals ≡ []
none_yet [] n one = refl
none_yet (s ∷ signals) n one = absurd (omega (arith, one))

call-Inv :
    (r : Running) (error : ErrorCode) (op : Resolve)
    → r.phase ≡ calling
    → Inv r
    → Inv (after_call r (on_called error op))
unfolding on_called
call-Inv r error op at inv =
    let before : 1 + (if r.accepted then 1 else 0) + waits r.posted + length r.signals ≡ 1 =
      rw at at inv.once in
    let nothing : r.signals ≡ [] =
      none_yet r.signals ((if r.accepted then 1 else 0) + waits r.posted) (omega (arith, before)) in
    elim (Bool-cases (error == 0)) [
      | inl found ↦ rw found (record {
        once = omega (arith, before);
        honest = rw nothing (on_addrinfo_finish-Honest op (end_entry op 0 0) no_error);
      })
      | inr other ↦ elim (Bool-cases (not (error == error_io_pending))) [
        | inl failed ↦
            rw (other, failed)
              (record {
                once = omega (arith, before);
                honest = rw nothing (on_addrinfo_finish-Honest op (end_entry op error 0) no_error);
              })
        | inr accepted ↦
            rw (other, accepted)
              (record { once = ground (arith, before); honest = rw nothing (record {}) })
      ]
    ]

callback-Inv :
    (api : PortApi) (iocp : IoCompletionPort) (r : Running) (error bytes : ℕ) (results : Ptr)
    (w : api.World)
    → r.accepted ≡ true
    → Inv r
    → Inv (called_back api iocp error bytes results w r)
unfolding on_complete_windows
callback-Inv api iocp r error bytes results w due inv =
    let op : Resolve = record r.op { results = results } in
    let before : in_call r.phase + 1 + waits r.posted + length r.signals ≡ 1 = rw due at inv.once in
    let nothing : r.signals ≡ [] =
      none_yet r.signals (in_call r.phase + waits r.posted) (omega (arith, before)) in
    let ec = (post api iocp (end_entry op error bytes) w).0 in
    elim (Bool-cases (is_error ec)) [
      | inl failed ↦ rw failed (record {
        once = omega (arith, before);
        honest = rw nothing (on_addrinfo_finish-Honest op (end_entry op error bytes) ec);
      })
      | inr posted ↦
          rw posted (record { once = ground (arith, before); honest = rw nothing (record {}) })
    ]

entry-Inv :
    (r : Running) (e : PortEntry) (ec : ErrorCode)
    → r.posted ≡ some e
    → Inv r
    → Inv (after_entry r (on_addrinfo_finish r.op e ec))
entry-Inv r e ec there inv =
    let before : in_call r.phase + (if r.accepted then 1 else 0) + 1 + length r.signals ≡ 1 =
      rw there at inv.once in
    let nothing : r.signals ≡ [] =
      none_yet r.signals (in_call r.phase + (if r.accepted then 1 else 0))
        (omega (arith, before)) in
    record {
      once = omega (arith, before);
      honest = rw nothing (on_addrinfo_finish-Honest r.op e ec);
    }

-- Neither a request to stop nor the end of `start` changes what the signals tell of.
Honest-arm :
    (op : Resolve) (cancel_ptr : Ptr) (signals : List (Signal Ptr))
    → Honest op signals
    → Honest (arm_stop cancel_ptr op) signals
unfolding arm_stop
Honest-arm op cancel_ptr signals honest = elim (Bool-cases (not (is_null cancel_ptr))) [
  | inl armed ↦ rw armed (same signals honest)
  | inr never ↦ rw never honest
]
  where
    same :
        (signals : List (Signal Ptr))
        → Honest op signals
        → Honest (record op { atomic_stop = cancel_ptr }) signals
    same [] h = h
    same (set_value p ∷ signals) h = h
    same (set_error e ∷ signals) h = h
    same (set_done ∷ signals) h = h

Honest-stop :
    (op : Resolve) (signals : List (Signal Ptr))
    → Honest op signals
    → Honest (record (try_stop op).1 { stop = token true }) signals
unfolding try_stop
Honest-stop op [] honest = honest
Honest-stop op (set_value p ∷ signals) honest = ground (arith, honest)
Honest-stop op (set_error e ∷ signals) honest = honest
Honest-stop op (set_done ∷ signals) honest = refl

Reach-Inv :
    {api : PortApi} {iocp : IoCompletionPort} {op : Resolve} {r : Running}
    → Reach api iocp op r
    → Inv r
Reach-Inv start = record { once = refl; honest = record {} }
Reach-Inv {api} {iocp} (later reach step) = go (Reach-Inv reach) step
  where
    go : {r r' : Running} → Inv r → Step api iocp r r' → Inv r'
    go {r} inv (call error results at) = call-Inv r error (record r.op { results = results }) at inv
    go {r} inv (arm cancel_ptr at) = record {
      once = rw at at inv.once;
      honest = Honest-arm r.op cancel_ptr r.signals inv.honest;
    }
    go {r} inv (callback error bytes results w due) =
        callback-Inv api iocp r error bytes results w due inv
    go {r} inv (entry e ec there) = entry-Inv r e ec there inv
    go {r} inv (stop requested asked) = record {
      once = inv.once;
      honest = Honest-stop r.op r.signals inv.honest;
    }

-- However the threads take turns, the receiver is called at most once, and not before `start` is out
-- of GetAddrInfoExW; if it was not called yet, `start` is still in that call, the system will call
-- back or an entry waits at the port, and only one of these. A value that it got is what the system
-- has written, an error is not 0, and it was told of the end without either only if a stop was
-- requested.
pub Reach-once :
    {api : PortApi} {iocp : IoCompletionPort} {op : Resolve} {r : Running}
    → Reach api iocp op r
    → (tally r ≡ 1) × Honest r.op r.signals
Reach-once reach = let inv = Reach-Inv reach in (inv.once, inv.honest)
