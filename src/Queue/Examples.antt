-- ===== src/Queue/Examples.antt =====
-- A queue of three nodes at the addresses 10, 20 and 30, of which 10 was pushed first.
use win_io.Base.{some, List, [], ◌∷◌, ◌≡◌, refl, arith, ◌==◌, if◌then◌else◌}
use win_io.Os.{Ptr}
use win_io.Queue.{Memory, push, pop}
use win_io.Queue.Detach.{attempts}
use win_io.Queue.Fifo.{Holds, push-Holds, pop-Holds}
use win_io.Queue.Race.{Interrupted, pop-overtaken}

abbrev links : Ptr → Ptr
links a = if a == 30 then 20 else if a == 20 then 10 else 0

abbrev pub three : Memory
three = record { head = 30; next = links }

abbrev pub queued : List Ptr
queued = 10 ∷ 20 ∷ 30 ∷ []

pub three-Holds : Holds three (10 ∷ 20 ∷ 30 ∷ [])
three-Holds = record { items = 30 ∷ 20 ∷ 10 ∷ []; chain = ground arith; order = refl }

push-Holds_example :
    (m' : Memory) × (push (attempts 2 1) three 40 ≡ some m') × Holds m' (10 ∷ 20 ∷ 30 ∷ 40 ∷ [])
push-Holds_example = push-Holds 2 three (10 ∷ 20 ∷ 30 ∷ []) 40 three-Holds (omega arith) refl

pop-Holds_example :
    (m' : Memory) × (pop 3 (attempts 1 2) three ≡ some (m', some 10)) × Holds m' (20 ∷ 30 ∷ [])
pop-Holds_example = pop-Holds 3 1 three (10 ∷ 20 ∷ 30 ∷ []) three-Holds (omega arith)

pop-overtaken_example : Interrupted 3 0 1 three 10 40 (40 ∷ 20 ∷ 30 ∷ [])
pop-overtaken_example =
    pop-overtaken 3 0 1 three 10 20 40 (30 ∷ []) three-Holds (omega arith) (omega arith) refl
