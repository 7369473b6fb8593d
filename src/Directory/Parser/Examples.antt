-- ===== src/Directory/Parser/Examples.antt =====
-- A buffer at the address 100 with two changes: `a` was added, and `bc` was removed.
use win_io.Base.{
  ℕ, ◌-◌, Option, none, some, List, [], ◌∷◌, ◌≡◌, refl, arith, leb, get_elem?, if◌then◌else◌,
}
use win_io.Base.Outcome.{done}
use win_io.Directory.Parser.{Memory, DirectoryChange, changes}
use win_io.Directory.Parser.Layout.{Entry, Layout}
use win_io.Directory.Parser.Iteration.{changes-Layout}

abbrev pub bytes : List ℕ
bytes =
    16 ∷ 0 ∷ 0 ∷ 0 ∷ 1 ∷ 0 ∷ 0 ∷ 0 ∷ 2 ∷ 0 ∷ 0 ∷ 0 ∷ 97 ∷ 0 ∷ 0 ∷ 0 ∷ 0 ∷ 0 ∷ 0 ∷ 0 ∷ 2 ∷ 0 ∷ 0 ∷ 0
    ∷ 4 ∷ 0 ∷ 0 ∷ 0 ∷ 98 ∷ 0 ∷ 99 ∷ 0 ∷ []

abbrev pub or_zero : Option ℕ → ℕ
or_zero none = 0
or_zero (some b) = b

abbrev pub memory : Memory
memory a = if leb 100 a then or_zero (get_elem? bytes (a - 100)) else 0

abbrev pub added : DirectoryChange
added = record { action = 1; name = 97 ∷ [] }

abbrev pub removed : DirectoryChange
removed = record { action = 2; name = 98 ∷ 99 ∷ [] }

added-Entry : Entry memory 100 32 added
added-Entry = record {
  some_address = omega arith;
  action = refl;
  name_bytes = refl;
  name_chars = (refl, tt);
  fits = omega arith;
}

removed-Entry : Entry memory 116 16 removed
removed-Entry = record {
  some_address = omega arith;
  action = refl;
  name_bytes = refl;
  name_chars = (refl, (refl, tt));
  fits = omega arith;
}

pub both-Layout : Layout memory 100 32 added (removed ∷ [])
both-Layout = (added-Entry, omega arith, omega arith, omega arith, (removed-Entry, refl))

changes-Layout_example :
    changes 4 memory (record { buffer = 100; size = 32 }) ≡ done (some (added ∷ removed ∷ []))
changes-Layout_example =
    changes-Layout memory 4 100 32 added (removed ∷ []) both-Layout (omega arith) (omega arith)
