-- ===== src/Sockets/Resolve/Examples.antt =====
-- A resolution with its OVERLAPPED at 64, for a token that can be stopped.
use win_io.Base.{ℕ, ◌≡◌, refl, arith, false, some, List, [], ◌∷◌, length}
use win_io.Base.Outcome.{done}
use win_io.Os.{null, no_error}
use win_io.Port.{port_entry, post}
use win_io.Port.Examples.{system, port}
use win_io.Sockets.Operation.{token}
use win_io.Sockets.Resolve.{
  wide_name, Resolve, on_called, on_complete_windows, try_stop, on_addrinfo_finish, arm_stop,
}
use win_io.Sockets.Resolve.Names.{terminated, wide_name-terminated}
use win_io.Sockets.Resolve.Runs.{Running, Reach, call, arm, callback, entry, stop, start, later}
use win_io.Sockets.Resolve.Runs.Ends.{Onward, Ended, Reach-Ended}
use win_io.Sockets.Resolve.Runs.Once.{tally, Honest, Reach-once}

-- Each byte becomes one character.
wide_name-terminated_example :
    (buffer : List ℕ) × (wide_name some (104 ∷ 105 ∷ []) ≡ done buffer)
    × (length buffer ≡ 256)
    × (terminated buffer ≡ some (104 ∷ 105 ∷ []))
wide_name-terminated_example =
    wide_name-terminated some (104 ∷ 105 ∷ []) (104 ∷ 105 ∷ []) (λ e. ground (arith, e)) refl
      (omega arith) ((λ e. omega (arith, e)), ((λ e. omega (arith, e)), record {}))

abbrev op : Resolve
op = record {
  iocp_ov = 64;
  address = 72;
  hint = record { type = 1; protocol = 6 };
  host_name = 104 ∷ [];
  service_name_or_port = [];
  results = null;
  cancel_handle = 0;
  atomic_stop = null;
  stop = token false;
}

record Run : Type 0 where
  pub last : Running
  pub reach : Reach system port op last

-- The system takes the operation and calls back before `start` is at its end, and a stop is
-- requested before the entry is served.
stopped : Run
unfolding on_called on_complete_windows try_stop on_addrinfo_finish arm_stop post
stopped = record {
  last = _;
  reach =
      later
        (later
          (later (later (later start (call 997 0 refl)) (callback 0 0 4096 ([], no_error) refl))
            (arm 72 refl))
          (stop false refl))
        (entry (port_entry 0 0 64) no_error refl);
}

Reach-once_example : (tally stopped.last ≡ 1) × Honest stopped.last.op stopped.last.signals
Reach-once_example = Reach-once stopped.reach

-- The state in which the system has just taken the operation.
taken : Run
unfolding on_called
taken = record { last = _; reach = later start (call 997 0 refl) }

Reach-Ended_example : (r' : Running) × Onward system port taken.last r' × Ended r'
Reach-Ended_example = Reach-Ended taken.last ([], no_error) taken.reach
