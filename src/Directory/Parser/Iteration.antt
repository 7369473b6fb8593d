-- ===== src/Directory/Parser/Iteration.antt =====
-- Going through a buffer with the documented layout.
use win_io.Base.{
  ℕ, zero, suc, ◌+◌, ◌-◌, ◌*◌, ◌/◌, ◌^◌, ◌≤◌, ◌<◌, ◌≡◌, refl, arith, true, false, some, List, [],
  ◌∷◌, length, ◌==◌, not,
}
use win_io.Base.Outcome.{done}
use win_io.Os.{Ptr, null}
use win_io.Directory.Parser.{
  Memory, DirectoryChange, Iterator, Range, file_name_length, next_entry_offset, get_value, deref,
  iterator, move_to_next, available_size, pre_increment, post_increment, changes_from, changes,
  begin, has_changes,
}
use win_io.Directory.Parser.Layout.{Entry, Layout, chars-Chars}

-- The iterator stands before the changes `cs`, which lie in the part of the buffer that it has not
-- consumed.
abbrev pub At : Memory → Iterator → List DirectoryChange → Type 0
At mem it [] = it.current ≡ null
At mem it (c ∷ cs) =
    (room : ℕ) × Layout mem it.current room c cs
    × (it.consumed_size + room ≤ it.max_size)
    × (it.max_size < 2 ^ 63)

abbrev first :
    (mem : Memory) (p room : ℕ) (c : DirectoryChange) (cs : List DirectoryChange)
    → Layout mem p room c cs
    → Entry mem p room c
first mem p room c [] l = l.0
first mem p room c (d ∷ ds) l = l.0

module _ (mem : Memory) where
  get_value-Entry :
      (p room : ℕ) (c : DirectoryChange) → Entry mem p room c → get_value mem p ≡ done c
  unfolding get_value
  get_value-Entry p room c e =
      let half : file_name_length mem p / 2 ≡ length c.name = omega (arith, e.name_bytes) in
      let is_some : not (p == 0) ≡ true = ground arith in
      rw (is_some, e.action, half, chars-Chars mem (p + 12) c.name e.name_chars)

  -- `*` reads the change that the iterator stands before.
  pub deref-At :
      (it : Iterator) (c : DirectoryChange) (cs : List DirectoryChange)
      → At mem it (c ∷ cs)
      → deref mem it ≡ done c
  unfolding deref
  deref-At it c cs (room, l, _, _) =
      get_value-Entry it.current room c (first mem it.current room c cs l)

  move_to_next-At :
      (it : Iterator) (c : DirectoryChange) (cs : List DirectoryChange)
      → At mem it (c ∷ cs)
      → (it' : Iterator) × (move_to_next mem it ≡ done it')
        × At mem it' cs
        × (it'.consumed_size ≤ it'.max_size)
        × (it'.max_size ≡ it.max_size)
  unfolding move_to_next
  move_to_next-At it c [] (room, l, inside, small) = (
    record it { current = null; consumed_size = it.consumed_size + 12 + 2 * length c.name },
    ground arith,
    refl,
    ground arith,
    refl,
  )
  move_to_next-At it c (d ∷ ds) (room, l, inside, small) =
      let next = next_entry_offset mem it.current in
      let e = first mem (it.current + next) (room - next) d ds l.4 in
      (
        record it {
          current = it.current + next;
          consumed_size = it.consumed_size + 12 + 2 * length c.name;
        },
        ground arith,
        (room - next, l.4, omega arith, small),
        omega arith,
        refl,
      )

  abbrev restarted : Ptr → ℕ → Iterator
  restarted p size = record { current = p; consumed_size = 0; max_size = size }

  iterator-Layout :
      (p room size : ℕ) (c : DirectoryChange) (cs : List DirectoryChange)
      → Layout mem p room c cs
      → room ≤ size
      → size < 2 ^ 63
      → iterator mem p size ≡ done (restarted p size)
  unfolding iterator
  iterator-Layout p room size c cs l inside small = let e = first mem p room c cs l in ground arith

  iterator-At :
      (it : Iterator) (cs : List DirectoryChange)
      → At mem it cs
      → it.consumed_size ≤ it.max_size
      → let r = restarted it.current (it.max_size - it.consumed_size) in
        (iterator mem it.current (it.max_size - it.consumed_size) ≡ done r) × At mem r cs
  unfolding iterator
  iterator-At it [] over le = (ground arith, over)
  iterator-At it (c ∷ cs) (room, l, inside, small) le = (
    iterator-Layout it.current room (it.max_size - it.consumed_size) c cs l (omega arith)
        (omega arith),
    (room, l, omega arith, omega arith),
  )

  available_size-le :
      (it : Iterator)
      → it.consumed_size ≤ it.max_size
      → available_size it ≡ done (it.max_size - it.consumed_size)
  unfolding available_size
  available_size-le it le = ground arith

  -- Both increments move an iterator behind the change that it stands before, and no assertion
  -- fails. The prefix one returns an iterator before the changes that are left, the postfix one an
  -- iterator before all that there were.
  pub increment-At :
      (it : Iterator) (c : DirectoryChange) (cs : List DirectoryChange)
      → At mem it (c ∷ cs)
      → (it' before behind : Iterator) × (pre_increment mem it ≡ done (it', behind))
        × (post_increment mem it ≡ done (it', before))
        × At mem it' cs
        × At mem behind cs
        × At mem before (c ∷ cs)
  unfolding pre_increment post_increment
  increment-At it c cs at =
      let (it', moved, at', le, _) = move_to_next-At it c cs at in
      let old_le : it.consumed_size ≤ it.max_size = omega (arith, at.2) in
      let (again, at_behind) = iterator-At it' cs at' le in
      let (back, at_before) = iterator-At it (c ∷ cs) at old_le in
      (
        it',
        restarted it.current (it.max_size - it.consumed_size),
        restarted it'.current (it'.max_size - it'.consumed_size),
        rw (moved, available_size-le it' le, again),
        rw (available_size-le it old_le, moved, back),
        at',
        at_behind,
        at_before,
      )

  changes_from-At :
      (fuel : ℕ) (it : Iterator) (cs : List DirectoryChange)
      → At mem it cs
      → length cs < fuel
      → changes_from fuel mem it ≡ done (some cs)
  unfolding changes_from
  changes_from-At zero it cs at enough = absurd (omega arith)
  changes_from-At (suc fuel) it [] at enough = ground arith
  changes_from-At (suc fuel) it (c ∷ cs) at enough =
      let (it', _, _, moved, _, at', _, _) = increment-At it c cs at in
      let e = first mem it.current at.0 c cs at.1 in
      let here : (it.current == null) ≡ false = ground arith in
      rw (here, deref-At it c cs at, moved, changes_from-At fuel it' cs at' (omega arith))

  -- Going over a buffer that the system has filled with the records of the changes `c ∷ cs`, in
  -- its first `size` bytes, visits exactly these changes in their order, without a failed assertion.
  pub changes-Layout :
      (fuel buffer size : ℕ) (c : DirectoryChange) (cs : List DirectoryChange)
      → Layout mem buffer size c cs
      → size < 2 ^ 63
      → length cs + 1 < fuel
      → changes fuel mem (record { buffer = buffer; size = size }) ≡ done (some (c ∷ cs))
  unfolding changes begin
  changes-Layout fuel buffer size c cs l small enough =
      rw (iterator-Layout buffer size size c cs l (omega arith) small) (
        changes_from-At fuel (restarted buffer size) (c ∷ cs) (size, l, omega arith, small)
          (omega arith))

  -- A range with no changes, as after an overflow of the system's buffer, gives no change and
  -- fails no assertion, whatever the memory holds.
  pub changes-has_changes :
      (fuel : ℕ) (r : Range) → has_changes r ≡ false → changes (suc fuel) mem r ≡ done (some [])
  unfolding changes begin iterator has_changes changes_from
  changes-has_changes fuel r h = ground arith
