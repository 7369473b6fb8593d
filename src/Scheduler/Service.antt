-- ===== src/Scheduler/Service.antt =====
-- Which entry is handed to which task.
use mathlib.Core.List.{tail}
use win_io.Base.{
  ℕ, ◌<◌, Bool, true, false, not, some, List, [], ◌∷◌, ◌++◌, ◌==◌, if◌then◌else◌, ◌≡◌, ◌≢◌, refl,
  ap, ◌∙◌, arith, length,
}
use win_io.Base.Outcome.{Outcome, done, failed_assert, ◌>>=◌, assert}
use win_io.Os.{Ptr, null, is_error}
use win_io.Port.{PortEntry, PortApi, IoCompletionPort, query, post}
use win_io.Port.Fifo.{IsFifo, query-queue, post-queue}
use win_io.Queue.Chain.{has}
use win_io.Queue.Detach.{attempts}
use win_io.Queue.Fifo.{Holds, push-Holds, pop-Holds}
use win_io.Scheduler.{IoScheduler, set_task, await_suspend, await_resume, set, poll_one}

module _ (api : PortApi) where
  count_one :
      (m : Outcome (IoScheduler api))
      → let counted : Outcome (ℕ × IoScheduler api) = (m >>= λ s'. done (1, s')) in
        (counted >>= λ served. done (some served)) ≡ (m >>= λ s'. done (some (1, s')))
  count_one (done s') = refl
  count_one failed_assert = refl

  checked :
      (failed : Bool) (s' : IoScheduler api)
      → let served : Outcome (ℕ × IoScheduler api) = (assert (not failed) >>= λ _. done (0, s')) in
        (served >>= λ n. done (some n)) ≡ (if failed then failed_assert else done (some (0, s')))
  checked true s' = refl
  checked false s' = refl

  -- A coroutine that awaits a task which no one awaits yet is the last of the tasks that wait, and
  -- the task knows which coroutine it is; nothing is asked of the port, and no assertion fails.
  pub await_suspend-Holds :
      (n : ℕ) (s : IoScheduler api) (q : List Ptr) (task awaiter : Ptr)
      → Holds s.queue q
      → task ≢ null
      → has task q ≡ false
      → (s.tasks task).scheduler ≢ null
      → (s.tasks task).coro ≡ null
      → (s' : IoScheduler api) × (await_suspend api (attempts n 1) s task awaiter ≡ done (some s'))
        × Holds s'.queue (q ++ task ∷ [])
        × ((s'.tasks task).coro ≡ awaiter)
        × (s'.world ≡ s.world)
  unfolding await_suspend set_task
  await_suspend-Holds n s q task awaiter h some_task fresh scheduled unused =
      let (queue, pushed, h') = push-Holds n s.queue q task h some_task fresh in
      let s' = set_task api s task (record (s.tasks task) { coro = awaiter }) in
      (record s' { queue = queue }, ground (arith, pushed, unused), h', ground arith, refl)

  module _ (fifo : IsFifo api) (o : IoCompletionPort)
      (resume : Ptr → IoScheduler api → Outcome (IoScheduler api)) (fuel n : ℕ)
      (s : IoScheduler api) where
    -- On an empty port, `poll_one` serves no task and changes neither the tasks nor the port.
    pub poll_one-no_entry :
        fifo.queue s.world o.io_port ≡ []
        → (s' : IoScheduler api) × (poll_one api resume fuel (attempts n 2) o s
            ≡ done (some (0, s')))
          × (s'.queue ≡ s.queue)
          × (s'.tasks ≡ s.tasks)
          × (fifo.queue s'.world o.io_port ≡ [])
    unfolding poll_one
    poll_one-no_entry empty =
        let (nothing, _, left) = query-queue api fifo o s.world in
        (
          record s { world = (query api o s.world).2 },
          rw (poll_one, nothing, empty) refl,
          refl,
          refl,
          left ∙ ap tail empty,
        )

    -- The oldest entry is handed to the task that waits longest, and its coroutine is resumed, with
    -- that task and that entry gone from their queues and every other task as it was.
    pub poll_one-serves :
        (t : Ptr) (q : List Ptr) (e : PortEntry) (es : List PortEntry)
        → Holds s.queue (t ∷ q)
        → length q < fuel
        → fifo.queue s.world o.io_port ≡ e ∷ es
        → (s.tasks t).coro ≢ null
        → (s' : IoScheduler api) × (poll_one api resume fuel (attempts n 2) o s
            ≡ (resume (s.tasks t).coro s' >>= λ s''. done (some (1, s''))))
          × Holds s'.queue q
          × (fifo.queue s'.world o.io_port ≡ es)
          × (await_resume api s' t ≡ e)
          × ((a : Ptr) → a ≢ t → s'.tasks a ≡ s.tasks a)
    unfolding poll_one set set_task await_resume
    poll_one-serves t q e es h enough queued awaited =
        let (oldest, _, left) = query-queue api fifo o s.world in
        let (queue, popped, h') = pop-Holds fuel n s.queue (t ∷ q) h (omega arith) in
        let awaits : ((s.tasks t).coro == 0) ≡ false = ground (arith, awaited) in
        let taken =
          set_task api (record s { queue = queue; world = (query api o s.world).2 }) t
            (record (s.tasks t) { task_data = e }) in
        (
          taken,
          rw (poll_one, oldest, queued, popped, set, awaits)
              (count_one (resume (s.tasks t).coro taken)),
          h',
          left ∙ ap tail queued,
          ground arith,
          λ a other. ground (arith, other),
        )

    -- With no task that waits, the oldest entry is put back behind the others, and no task is
    -- served; if it cannot be put back, an assertion fails.
    pub poll_one-no_task :
        (e : PortEntry) (es : List PortEntry)
        → Holds s.queue []
        → fifo.queue s.world o.io_port ≡ e ∷ es
        → let posted = post api o e (query api o s.world).2 in
          (s' : IoScheduler api) × (poll_one api resume fuel (attempts n 2) o s
            ≡ (if is_error posted.0 then failed_assert else done (some (0, s'))))
          × Holds s'.queue []
          × (s'.tasks ≡ s.tasks)
          × (fifo.queue s'.world o.io_port ≡ (if is_error posted.0 then es else es ++ e ∷ []))
    unfolding poll_one
    poll_one-no_task e es h queued =
        let (oldest, _, left) = query-queue api fifo o s.world in
        let (queue, popped, h') = pop-Holds fuel n s.queue [] h (omega arith) in
        let left' : fifo.queue (query api o s.world).2 o.io_port ≡ es = left ∙ ap tail queued in
        let s' : IoScheduler api = record {
          queue = queue;
          tasks = s.tasks;
          world = (post api o e (query api o s.world).2).1;
        } in
        (
          s',
          rw (poll_one, oldest, queued, popped)
              (checked (is_error (post api o e (query api o s.world).2).0) s'),
          h',
          refl,
          rw (post-queue api fifo o e (query api o s.world).2, left') refl,
        )
