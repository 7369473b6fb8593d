-- ===== src/Queue/Threads/Examples.antt =====
-- Thread 1 pushes the node 20 while thread 0 pops the node 10, which it has pushed before.
use win_io.Base.{ℕ, ◌+◌, false, List, ◌≡◌, ◌≢◌, refl, arith}
use win_io.Os.{Ptr, null}
use win_io.Queue.{push_round, single, detach, update}
use win_io.Queue.Chain.{Chain}
use win_io.Queue.Threads.{
  idle, Threads, count, begin_push, try_push, begin_pop, walks, Reach, start, later,
}
use win_io.Queue.Threads.Safety.{Reach-quiet}
use win_io.Queue.Threads.Progress.{Finishes, Reach-Finishes}

abbrev links : Ptr → Ptr
links a = 0

record Run : Type 0 where
  last : Threads
  reach : Reach links last

node : (a : ℕ) → a + 1 ≢ 0
node a = omega arith

pushed_one : Run
unfolding push_round
pushed_one = record {
  last = _;
  reach = later (later start (begin_push 0 10 refl (node 9) refl)) (try_push 0 10 0 false refl);
}

both_inside : Run
unfolding pushed_one push_round
both_inside = record {
  last = _;
  reach =
      later (later pushed_one.reach (begin_push 1 20 refl (node 19) refl))
        (begin_pop 0 refl (node 9));
}

all_out : Run
unfolding both_inside pushed_one push_round detach update
all_out = record {
  last = _;
  reach =
      later
        (later (later both_inside.reach (walks 0 1 10 _ (single 10) refl refl))
          (try_push 1 20 10 false refl))
        (try_push 1 20 0 false refl);
}

quiet : (i : ℕ) → all_out.last.pc i ≡ idle
unfolding all_out both_inside pushed_one push_round detach update
quiet i = ground arith

Reach-quiet_example :
    (items : List Ptr) × Chain all_out.last.mem.next null all_out.last.mem.head items
    × ((a : Ptr) → count a all_out.last.pushed ≡ count a all_out.last.popped + count a items)
Reach-quiet_example = Reach-quiet all_out.reach quiet

Reach-Finishes_example : Finishes both_inside.last 0
Reach-Finishes_example = Reach-Finishes 0 both_inside.last both_inside.reach
