-- ===== src/Scheduler/Polling.antt =====
-- A whole `poll` over coroutines that await once.
use mathlib.Core.List.{reverse, reverse-reverse, reverse-cons}
use win_io.Base.{
  ℕ, suc, ◌+◌, ◌≤◌, false, some, List, [], ◌∷◌, ◌++◌, ◌≡◌, ◌≢◌, refl, sym, ap, ◌∙◌, arith, length,
  drop,
}
use win_io.Base.Outcome.{Outcome, done}
use win_io.Os.{Ptr, null}
use win_io.Port.{PortEntry, PortApi, IoCompletionPort}
use win_io.Port.Fifo.{IsFifo}
use win_io.Queue.{Memory}
use win_io.Queue.Chain.{Chain-last, has}
use win_io.Queue.Detach.{attempts}
use win_io.Queue.Fifo.{Holds, has-reverse}
use win_io.Scheduler.{IoTask, IoScheduler, await_resume, poll}
use win_io.Scheduler.Service.{poll_one-no_entry, poll_one-serves}

-- An item is in a queue only once.
Holds-fresh : (m : Memory) (t : Ptr) (q : List Ptr) → Holds m (t ∷ q) → has t q ≡ false
Holds-fresh m t q h =
    let items : h.items ≡ reverse q ++ t ∷ [] =
      sym (reverse-reverse h.items) ∙ ap reverse (sym h.order) ∙ reverse-cons t q in
    sym (has-reverse t q) ∙ Chain-last m.next null m.head t (reverse q) (rw items at h.chain)

-- Each of the tasks has a coroutine that awaits it.
abbrev pub Awaited : List Ptr → (Ptr → IoTask) → Type 0
Awaited [] tasks = Unit {0}
Awaited (t ∷ q) tasks = ((tasks t).coro ≢ null) × Awaited q tasks

-- The entries are those of the first tasks, one for each.
abbrev pub Delivered : List Ptr → List PortEntry → (Ptr → IoTask) → Type 0
Delivered q [] tasks = Unit {0}
Delivered [] (e ∷ es) tasks = ⊥
Delivered (t ∷ q) (e ∷ es) tasks = ((tasks t).task_data ≡ e) × Delivered q es tasks

Awaited-frame :
    (t : Ptr) (q : List Ptr) (tasks tasks' : Ptr → IoTask)
    → ((a : Ptr) → a ≢ t → tasks' a ≡ tasks a)
    → has t q ≡ false
    → Awaited q tasks
    → Awaited q tasks'
Awaited-frame t [] tasks tasks' same out awaited = tt
Awaited-frame t (x ∷ q) tasks tasks' same out (awaits, awaited) = (
  rw (same x (ground (arith, out))) awaits,
  Awaited-frame t q tasks tasks' same (ground (arith, out)) awaited,
)

module _ (api : PortApi) (fifo : IsFifo api) (o : IoCompletionPort)
    (resume : Ptr → IoScheduler api → Outcome (IoScheduler api))
    (ends : (coro : Ptr) (s : IoScheduler api) → resume coro s ≡ done s) (fuel n : ℕ) where
  polls :
      (es : List PortEntry) (q : List Ptr) (k : ℕ) (s : IoScheduler api)
      → Holds s.queue q
      → length es ≤ length q
      → length q ≤ fuel
      → fifo.queue s.world o.io_port ≡ es
      → Awaited q s.tasks
      → (s' : IoScheduler api) × (poll api resume (suc (length es)) fuel (attempts n 2) o k s
          ≡ done (some (k + length es, s')))
        × Holds s'.queue (drop (length es) q)
        × (fifo.queue s'.world o.io_port ≡ [])
        × Delivered q es s'.tasks
        × ((a : Ptr) → has a q ≡ false → s'.tasks a ≡ s.tasks a)
  unfolding poll await_resume
  polls [] q k s h many enough queued awaited =
      let (s', polled, same_queue, same_tasks, empty) =
        poll_one-no_entry api fifo o resume fuel n s queued in
      let all : k + 0 ≡ k = omega arith in
      (
        s',
        rw (polled, all) refl,
        rw same_queue h,
        empty,
        tt,
        λ a out. ap (λ tasks. tasks a) same_tasks,
      )
  polls (e ∷ es) [] k s h many enough queued awaited = absurd (omega arith)
  polls (e ∷ es) (t ∷ q) k s h many enough queued (awaits, awaited) =
      let fresh = Holds-fresh s.queue t q h in
      let (s1, polled, h1, queued1, given, frame) =
        poll_one-serves api fifo o resume fuel n s t q e es h (omega arith) queued awaits in
      let (s', further, h', empty, delivered, frame') =
        polls es q (k + 1) s1 h1 (omega arith) (omega arith) queued1
          (Awaited-frame t q s.tasks s1.tasks frame fresh awaited) in
      let all : k + suc (length es) ≡ k + 1 + length es = omega arith in
      (
        s',
        rw (polled, ends, all) further,
        h',
        empty,
        (ap (λ task. task.task_data) (frame' t fresh) ∙ given, delivered),
        λ a out. frame' a (ground (arith, out)) ∙ frame a (ground (arith, out)),
      )

  -- When at least as many tasks wait as there are entries, and their coroutines do nothing more to
  -- the scheduler and the port, `poll` ends after one call more than there are entries: it returns
  -- their number, has handed them, in their order, to the tasks that waited longest, leaves the
  -- port empty and the other tasks waiting.
  pub poll-serves :
      (es : List PortEntry) (q : List Ptr) (s : IoScheduler api)
      → Holds s.queue q
      → length es ≤ length q
      → length q ≤ fuel
      → fifo.queue s.world o.io_port ≡ es
      → Awaited q s.tasks
      → (s' : IoScheduler api) × (poll api resume (suc (length es)) fuel (attempts n 2) o 0 s
          ≡ done (some (length es, s')))
        × Holds s'.queue (drop (length es) q)
        × (fifo.queue s'.world o.io_port ≡ [])
        × Delivered q es s'.tasks
  poll-serves es q s h many enough queued awaited =
      let (s', polled, h', empty, delivered, _) = polls es q 0 s h many enough queued awaited in
      let all : 0 + length es ≡ length es = omega arith in
      (s', rw all at polled, h', empty, delivered)
