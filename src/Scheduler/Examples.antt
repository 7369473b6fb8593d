-- ===== src/Scheduler/Examples.antt =====
-- Three tasks wait, in the queue and for the port of those modules' examples.
use win_io.Base.{◌∷◌, [], List, some, ◌≡◌, refl, arith, if◌then◌else◌, ◌==◌}
use win_io.Base.Outcome.{Outcome, done}
use win_io.Os.{Ptr, no_error}
use win_io.Port.{PortEntry}
use win_io.Port.Examples.{system, system_fifo, port, two}
use win_io.Queue.Detach.{attempts}
use win_io.Queue.Fifo.{Holds}
use win_io.Queue.Examples.{three, queued, three-Holds}
use win_io.Scheduler.{IoTask, IoScheduler, no_entry, poll}
use win_io.Scheduler.Polling.{Delivered, poll-serves}

-- The coroutine of the task at an address has the address as its handle, but 40 is not awaited.
abbrev tasks : Ptr → IoTask
tasks a = record { scheduler = 1; coro = if a == 40 then 0 else a; task_data = no_entry }

abbrev waiting : List PortEntry → IoScheduler system
waiting entries = record { queue = three; tasks = tasks; world = (entries, no_error) }

abbrev end_at_once : Ptr → IoScheduler system → Outcome (IoScheduler system)
end_at_once coro s = done s

poll-serves_example :
    (s' : IoScheduler system) × (poll system end_at_once 3 3 (attempts 0 2) port 0 (waiting two)
      ≡ done (some (2, s')))
    × Holds s'.queue (30 ∷ [])
    × (s'.world.0 ≡ [])
    × Delivered queued two s'.tasks
poll-serves_example =
    poll-serves system system_fifo port end_at_once (λ coro s. refl) 3 0 two queued (waiting two)
      three-Holds (omega arith) (omega arith) refl (omega arith, (omega arith, (omega arith, tt)))
