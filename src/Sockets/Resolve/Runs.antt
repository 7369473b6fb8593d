-- ===== src/Sockets/Resolve/Runs.antt =====
-- A resolution while the threads take turns: that of `start`, the system's own, the one that serves
-- the port, and the one that asks to stop.
pub mod Once
pub mod Ends
use win_io.Base.{
  ℕ, ◌+◌, ◌≡◌, ◌≢◌, refl, arith, Bool, true, false, not, ◌==◌, if◌then◌else◌, Option, none, some,
  List, [], ◌∷◌, length, inl, inr, Bool-cases,
}
use win_io.Os.{Ptr, null, is_null, ErrorCode, no_error, is_error, error_io_pending, dword}
use win_io.Port.{PortEntry, PortApi, IoCompletionPort, post}
use win_io.Sockets.Transfer.{Signal, set_value, set_error, set_done}
use win_io.Sockets.Operation.{StopToken, never_possible, token, Started, completed, pending}
use win_io.Sockets.Resolve.{
  Resolve, on_addrinfo_finish, end_entry, on_complete_windows, try_stop, on_called, arm_stop,
}

-- Where `start` is: inside of GetAddrInfoExW, behind it with the operation left to the system, or
-- at its end.
pub data Phase : Type 0 where
  calling : Phase
  arming : Phase
  started : Phase

-- `accepted` tells that the system will call back, `posted` is the entry that waits at the port, and
-- `signals` are the calls of the receiver, the last one first.
pub record Running : Type 0 where
  pub op : Resolve
  pub phase : Phase
  pub accepted : Bool
  pub posted : Option PortEntry
  pub signals : List (Signal Ptr)

abbrev pub after_call : Running → Started Ptr × Resolve → Running
after_call r (completed s, op) = record r { op = op; phase = started; signals = s ∷ r.signals }
after_call r (pending, op) = record r { op = op; phase = arming; accepted = true }

abbrev pub after_callback : Running → PortEntry → Option (Signal Ptr × Resolve) → Running
after_callback r entry none = record r { accepted = false; posted = some entry }
after_callback r entry (some (s, op)) = record r {
  op = op;
  accepted = false;
  signals = s ∷ r.signals;
}

abbrev pub after_entry : Running → Signal Ptr × Resolve → Running
after_entry r (s, op) = record r { op = op; posted = none; signals = s ∷ r.signals }

-- on_complete_WindowsThread in such a state.
abbrev pub called_back :
    (api : PortApi) → IoCompletionPort → (error bytes : ℕ) → Ptr → api.World → Running → Running
called_back api iocp error bytes results w r =
    let op : Resolve = record r.op { results = results } in
    after_callback (record r { op = op }) (end_entry op error bytes)
      (on_complete_windows api iocp error bytes op w).0

-- `results` are what GetAddrInfoExW writes: before it returns if the resolution ends then, otherwise
-- before the system calls back.
pub data Step (api : PortApi) (iocp : IoCompletionPort) (r : Running) : Running → Type 0 where
  call :
      (error : ErrorCode) (results : Ptr)
      → r.phase ≡ calling
      → Step api iocp r (after_call r (on_called error (record r.op { results = results })))
  arm :
      (cancel_ptr : Ptr)
      → r.phase ≡ arming
      → Step api iocp r (record r { op = arm_stop cancel_ptr r.op; phase = started })
  callback :
      (error bytes : ℕ) (results : Ptr) (w : api.World)
      → r.accepted ≡ true
      → Step api iocp r (called_back api iocp error bytes results w r)
  -- The thread that waits at the port also passes the error of its wait.
  entry :
      (e : PortEntry) (ec : ErrorCode)
      → r.posted ≡ some e
      → Step api iocp r (after_entry r (on_addrinfo_finish r.op e ec))
  -- A stop source is asked: the token tells so from then on, and `try_stop` is called.
  stop :
      (requested : Bool)
      → r.op.stop ≡ token requested
      → Step api iocp r (record r { op = record (try_stop r.op).1 { stop = token true } })

abbrev pub begins : Resolve → Running
begins op = record { op = op; phase = calling; accepted = false; posted = none; signals = [] }

pub data Reach (api : PortApi) (iocp : IoCompletionPort) (op : Resolve) : Running → Type 0 where
  start : Reach api iocp op (begins op)
  later : {r r' : Running} → Reach api iocp op r → Step api iocp r r' → Reach api iocp op r'
