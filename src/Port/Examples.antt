-- ===== src/Port/Examples.antt =====
-- A model of the system with one port: its queue and the last error.
use win_io.Base.{ℕ, ◌<◌, Bool, true, false, List, [], ◌∷◌, ◌++◌, ◌≡◌, ◌≢◌, refl, arith, take, drop}
use win_io.Os.{Ptr, null, ErrorCode}
use win_io.Port.{PortEntry, port_entry, Dequeued, PortApi, IoCompletionPort}
use win_io.Port.Fifo.{wait_timeout, IsFifo}

abbrev World : Type 0
World = List PortEntry × ErrorCode

abbrev dequeue : World → Dequeued × World
dequeue ([], _) = (
  record { status = false; bytes_transferred = 0; completion_key = 0; overlapped = null },
  ([], wait_timeout),
)
dequeue (e ∷ q, ec) = (
  record {
    status = true;
    bytes_transferred = e.bytes_transferred;
    completion_key = e.completion_key;
    overlapped = e.overlapped;
  },
  (q, ec),
)

abbrev dequeue_many : ℕ → World → (Bool × List PortEntry) × World
dequeue_many n ([], _) = ((false, []), ([], wait_timeout))
dequeue_many n (e ∷ q, ec) = ((true, take n (e ∷ q)), (drop n (e ∷ q), ec))

abbrev pub system : PortApi
system = record {
  World = World;
  create_io_completion_port = λ device existing key threads w. (existing, w);
  post_queued_completion_status = λ port b k ov w. (true, (w.0 ++ port_entry b k ov ∷ [], w.1));
  get_queued_completion_status = λ port ms w. dequeue w;
  get_queued_completion_status_ex = λ port n ms alertable w. dequeue_many n w;
  close_handle = λ h w. (true, w);
  get_last_error = λ w. w.1;
}

pub taken :
    (w : World) (port : Ptr) (ms : ℕ) (e : PortEntry) (q : List PortEntry)
    → w.0 ≡ e ∷ q
    → ((dequeue w).0 ≡ record {
      status = true;
      bytes_transferred = e.bytes_transferred;
      completion_key = e.completion_key;
      overlapped = e.overlapped;
    })
      × ((dequeue w).1.0 ≡ q)
taken (w, ec) port ms e q same = rw same (refl, refl)

pub empty :
    (w : World) (port : Ptr)
    → w.0 ≡ []
    → ((dequeue w).0
        ≡ record { status = false; bytes_transferred = 0; completion_key = 0; overlapped = null })
      × ((dequeue w).1.1 ≡ wait_timeout)
      × ((dequeue w).1.0 ≡ [])
empty (w, ec) port same = rw same (refl, refl, refl)

pub some_taken :
    (w : World) (port : Ptr) (n ms : ℕ) (alertable : Bool)
    → 0 < n
    → w.0 ≢ []
    → (dequeue_many n w).0 ≡ (true, take n w.0)
some_taken ([], ec) port n ms alertable room some_entry = absurd (some_entry refl)
some_taken (e ∷ q, ec) port n ms alertable room some_entry = refl

abbrev pub system_fifo : IsFifo system
system_fifo = record {
  queue = λ w port. w.0;
  posted = λ w port b k ov ok. refl;
  not_posted = λ w port b k ov fails. absurd (ground arith);
  dequeued = taken;
  timed_out = empty;
  many = some_taken;
}

abbrev pub port : IoCompletionPort
port = record { io_port = 5 }

abbrev pub two : List PortEntry
two = port_entry 1 2 300 ∷ port_entry 4 5 600 ∷ []
