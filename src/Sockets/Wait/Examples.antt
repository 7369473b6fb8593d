-- ===== src/Sockets/Wait/Examples.antt =====
-- A program that counts the entries it has served. The first two each post another entry, and the sender
-- is finished by the fifth; three wait at the port at first.
use win_io.Base.{
  ℕ, zero, suc, ◌++◌, ◌≡◌, refl, arith, Bool, false, ◌==◌, Option, some, List, [], ◌∷◌,
}
use win_io.Base.Outcome.{done}
use win_io.Os.{Ptr, ErrorCode, no_error}
use win_io.Port.{PortEntry, port_entry}
use win_io.Port.Examples.{system, system_fifo, port}
use win_io.Sockets.Wait.{Callback, sync_wait}
use win_io.Sockets.Wait.Serving.{Takes, Served, Runs, sync_wait-Runs}

abbrev finish : ℕ → Bool
finish s = s == 5

abbrev Queue : Type 0
Queue = List PortEntry × ErrorCode

abbrev entry : PortEntry
entry = port_entry 0 1 64

abbrev posts : ℕ → List PortEntry
posts zero = entry ∷ []
posts (suc zero) = entry ∷ []
posts (suc (suc s)) = []

abbrev counts : Callback ℕ Queue
counts s w e ec = done (suc s, (w.0 ++ posts s, w.1))

abbrev callback_at : Ptr → Option (Callback ℕ Queue)
callback_at _ = some counts

takes : Takes system system_fifo
takes ([], ec) _ n ms alertable room some_entry = absurd (some_entry refl)
takes (e ∷ q, ec) _ n ms alertable room some_entry = refl

serves : (s : ℕ) → finish s ≡ false → Served system system_fifo port finish callback_at entry s
serves s unfinished = record {
  unfinished = unfinished;
  some_ov = λ e. omega (arith, e);
  callback = counts;
  held = refl;
  state = suc s;
  posted = posts s;
  returns = λ w. ((w.0 ++ posts s, w.1), refl, refl);
}

five-Runs : Runs system system_fifo port finish callback_at 5 (entry ∷ entry ∷ entry ∷ []) 0 5
unfolding serves
five-Runs = (
  serves 0 refl,
  (serves 1 refl, (serves 2 refl, (serves 3 refl, (serves 4 refl, (refl, refl))))),
)

sync_wait-Runs_example :
    (w' : Queue) × (sync_wait system finish callback_at port 5 0
        (entry ∷ entry ∷ entry ∷ [], no_error)
      ≡ some (done (5, w')))
    × (w'.0 ≡ [])
sync_wait-Runs_example =
    sync_wait-Runs system system_fifo port finish callback_at takes 5 5 (entry ∷ entry ∷ entry ∷ [])
      0 5 (entry ∷ entry ∷ entry ∷ [], no_error) five-Runs refl refl (omega arith)
