-- ===== src/Scheduler.antt =====
-- win_io_coro/src/io_coro_scheduler.cpp and win_io_coro/src/io_task.cpp: the scheduler that hands
-- the entries of a port to the coroutines that await them. A task is known by its address, which is
-- its node in the queue; a coroutine is a handle, and what it does when it is resumed, up to where
-- it suspends or ends, is an argument.
pub mod Service
pub mod Polling
mod Examples
use win_io.Base.{
  ℕ, zero, suc, ◌+◌, Bool, true, false, not, Option, none, some, List, ◌==◌, if◌then◌else◌,
}
use win_io.Base.Outcome.{Outcome, done, failed_assert, ◌>>=◌, ◌>>◌, assert}
use win_io.Os.{Ptr, null, is_null, ErrorCode, is_error}
use win_io.Port.{PortEntry, port_entry, PortApi, IoCompletionPort, query, post}
use win_io.Queue.{Memory, is_empty, push, pop}

pub record IoTask : Type 0 where
  pub scheduler : Ptr
  pub coro : Ptr
  pub task_data : PortEntry

abbrev pub no_entry : PortEntry
no_entry = port_entry 0 0 null

-- IoTask(scheduler), and IoScheduler::get.
unfoldable pub new_task : Ptr → IoTask
new_task scheduler = record { scheduler = scheduler; coro = null; task_data = no_entry }

-- The move constructor: the new task, and what it was moved from afterwards.
unfoldable pub move_task : IoTask → IoTask × IoTask
move_task rhs = (rhs, record { scheduler = null; coro = null; task_data = no_entry })

module _ (api : PortApi) where
  -- `tasks_`, the tasks at their addresses, and the system, of which the port is a part.
  pub record IoScheduler : Type 0 where
    pub queue : Memory
    pub tasks : Ptr → IoTask
    pub world : api.World

  unfoldable pub set_task : IoScheduler → Ptr → IoTask → IoScheduler
  set_task s p task = record s { tasks = λ a. if a == p then task else s.tasks a }

  -- IoTask::await_suspend, with IoScheduler::add. The list is that of the attempts of `push`.
  unfoldable pub await_suspend :
      List Bool → IoScheduler → (task awaiter : Ptr) → Outcome (Option IoScheduler)
  unfolding push set_task
  await_suspend attempts s task awaiter = do
    assert (not (is_null (s.tasks task).scheduler))
    assert (is_null (s.tasks task).coro)
    assert (not (is_null task))
    let s' = set_task s task (record (s.tasks task) { coro = awaiter })
    done (elim (push attempts s.queue task) [
      | none ↦ none
      | some queue ↦ some (record s' { queue = queue })
    ])

  -- IoTask::await_resume: what `co_await` gives.
  unfoldable pub await_resume : IoScheduler → Ptr → PortEntry
  await_resume s task = (s.tasks task).task_data

  module _ (resume : Ptr → IoScheduler → Outcome IoScheduler) where
    -- IoTask::set
    unfoldable pub set : IoScheduler → Ptr → PortEntry → Outcome IoScheduler
    unfolding set_task
    set s task entry = do
      assert (not (is_null (s.tasks task).coro))
      resume (s.tasks task).coro (set_task s task (record (s.tasks task) { task_data = entry }))

    -- IoScheduler::poll_one behind the call of `pop`, by what that gives.
    abbrev pub serve :
        IoCompletionPort → IoScheduler → PortEntry → Option Ptr → Outcome (ℕ × IoScheduler)
    serve port s entry none = do
      let posted = post api port entry s.world
      assert (not (is_error posted.0))
      done (0, record s { world = posted.1 })
    serve port s entry (some task) = do s' ← set s task entry; done (1, s')

    -- IoScheduler::poll_one; `none` means that the fuel or the attempts of `pop` have run out.
    unfoldable pub poll_one :
        ℕ → List Bool → IoCompletionPort → IoScheduler → Outcome (Option (ℕ × IoScheduler))
    unfolding query post pop set
    poll_one fuel attempts port s =
        let (polled, ec, world) = query api port s.world in
        elim polled [
          | none ↦ done (some (0, record s { world = world }))
          | some entry ↦ elim (pop fuel attempts s.queue) [
            | none ↦ done none
            | some (queue, task) ↦ do
              served ← serve port (record s { queue = queue; world = world }) entry task
              done (some served)
          ]
        ]

    -- IoScheduler::poll, with as many calls of `poll_one` as `calls` says, and the fuel and the
    -- attempts of each.
    unfoldable pub poll :
        (calls fuel : ℕ)
        → List Bool
        → IoCompletionPort
        → ℕ
        → IoScheduler
        → Outcome (Option (ℕ × IoScheduler))
    unfolding poll_one
    poll zero fuel attempts port tasks s = done none
    poll (suc calls) fuel attempts port tasks s = do
      polled ← poll_one fuel attempts port s
      elim polled [
        | none ↦ done none
        | some (n, s') ↦
            let further = poll calls fuel attempts port (tasks + 1) s' in
            if n == 1 then further else done (some (tasks, s'))
      ]

  -- ~IoScheduler
  unfoldable pub destroy : IoScheduler → Outcome (Unit {0})
  unfolding is_empty
  destroy s = assert (is_empty s.queue)
